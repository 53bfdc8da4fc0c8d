-- ===== src/Gateway/Trips.antt =====
-- backend/internal/gateway/gateway.go: /api/trip, the cache-aside read of one trip. Without a database
-- the trip is made up from its number.
use Prim.Native.String.{◌++◌}
use shc.Base.{ℕ, suc, ◌+◌, ◌%◌, String, List, [], Option, none, some, if◌then◌else◌}
use shc.Base.Int.{ℤ, pos, negsuc, pos_part, sub_ℕ}
use shc.Base.Words.{to_int64}
use shc.Base.Texts.{is_empty, format_int}
use shc.Hashing.{get_nodes}
use shc.Failover.{ReadResult, route_get}
use shc.Database.{Floats, TaxiTrip, Answer, found, failure, Database}
use shc.Server.Requests.{Method, is_get, Response, replied, rejected}
use shc.Gateway.{Gateway, Call, Json, row_of}
use shc.Gateway.Reads.{Routing, at_least_one, or_empty, hit_of, hydrate_targets}

abbrev first_given : String → String → String
first_given id key = if is_empty id then (if is_empty key then "trip:1" else key) else id

abbrev pub or_first : Option ℤ → ℤ
or_first none = pos 1
or_first (some row) = row

-- The row of the two parameters of the query.
unfoldable pub trip_row : String → String → ℤ
unfolding row_of
trip_row id key = or_first (row_of (first_given id key))

unfoldable pub cache_key : ℤ → String
cache_key row = "trip:" ++ format_int row

-- n % 263 + 1
abbrev zone : ℤ → ℤ
zone (pos n) = pos (n % 263 + 1)
zone (negsuc n) = sub_ℕ 1 (suc n % 263)

-- float64(int(x*10)) / 10.0
unfoldable pub tenths : {F : Type 0} → Floats F → F → F
tenths fl x = fl.divide (fl.whole (fl.times x (fl.lit 1000))) (fl.lit 1000)

-- The record of the branch without a database; the row is positive.
unfoldable pub generated_trip : {F : Type 0} → Floats F → ℤ → TaxiTrip F
unfolding tenths
generated_trip fl row =
    let n = pos_part row in
    let dist = tenths fl (fl.add (fl.lit 120) (fl.times (fl.of_int (pos (n % 50))) (fl.lit 15))) in
    let fare = tenths fl (fl.add (fl.lit 500) (fl.times dist (fl.lit 250))) in
    let tip = tenths fl (fl.times fare (fl.lit 20)) in
    record {
      trip_id = "trip:" ++ format_int row;
      row_id = row;
      vendor_id = some (fl.of_int (pos (n % 2 + 1)));
      pickup_datetime = "2019-01-01 01:15:32";
      dropoff_datetime = "2019-01-01 01:28:44";
      passenger_count = some (fl.of_int (pos (n % 4 + 1)));
      trip_distance = dist;
      ratecode_id = some (fl.lit 100);
      pu_location_id = some (fl.of_int (pos (n % 263 + 1)));
      do_location_id = some (fl.of_int (zone (to_int64 (pos (n + 42)))));
      payment_type = some (fl.lit 100);
      fare_amount = fare;
      tip_amount = tip;
      total_amount = fl.add fare tip;
    }

-- A hit of the cache, with the value that the client decodes; or the record of the database, which is
-- null where the database answers with neither a trip nor an error.
pub data TripBody (F : Type 0) : Type 0 where
  cached_trip : ReadResult → ℕ → TripBody F
  fetched_trip : Option (TaxiTrip F) → ℕ → TripBody F

module _ {S F : Type 0} (database : Database S F) (json : Json F) (fl : Floats F) where
  abbrev hydrated :
      Gateway S → ℤ → Routing → Option (TaxiTrip F) → Gateway S × Response (TripBody F) × List Call
  hydrated g row w trip = (
    g,
    replied 200 (fetched_trip trip w.total),
    hydrate_targets
        (record {
          key = cache_key row;
          value = or_empty (json.marshal trip);
          ttl_seconds = pos 600;
        })
        (get_nodes g.hash_ring (cache_key row) 2),
  )

  abbrev queried :
      Gateway S → ℤ → Routing → S × Answer F → Gateway S × Response (TripBody F) × List Call
  queried g row w (db, found trip) = hydrated (record g { db = some db }) row w trip
  queried g row w (db, failure e) = (record g { db = some db }, rejected 404, [])

  abbrev fetch : Gateway S → ℤ → Routing → Option S → Gateway S × Response (TripBody F) × List Call
  fetch g row w none = hydrated g row w (some (generated_trip fl row))
  fetch g row w (some db) = queried g row w (database.query_trip_by_id db row)

  unfoldable pub answer_trip :
      Gateway S → ℤ → Routing → Option ReadResult → Gateway S × Response (TripBody F) × List Call
  unfolding generated_trip cache_key
  answer_trip g row w (some result) =
      (g, replied 200 (cached_trip result (at_least_one w.latency)), [])
  answer_trip g row w none = fetch g row w g.db

  -- `id` and `key` are the parameters of the query.
  unfoldable pub handle_api_trip :
      Gateway S → Method → String → String → Routing → Gateway S × Response (TripBody F) × List Call
  unfolding answer_trip trip_row
  handle_api_trip g method id key w =
      let row = trip_row id key in
      let (r, routed) =
        route_get g.failover g.hash_ring g.health_monitor (cache_key row) w.first w.second w.start
          w.finish in
      if is_get method
      then answer_trip (record g { failover = r }) row w (hit_of routed)
      else (g, rejected 405, [])
