-- ===== src/Gateway/Examples.antt =====
-- A write and two reads of one key at a gateway with two nodes and a database, and the theorems at them.
use Prim.Native.String.{◌++◌}
use shc.Base.{
  ℕ, ◌+◌, ◌≡◌, refl, inr, [], ◌∷◌, none, some, Option, String, true, false, arith, In,
  text_discrete, ℕ_discrete,
}
use shc.Base.Int.{pos}
use shc.Base.Words.{seconds}
use shc.Base.Sort.{binary_search}
use shc.Base.GoMap.{text_comparable, nat_comparable, lookup, insert}
use shc.Base.Texts.{
  is_blank, itoa, trim_prefix, cut_prefix, parse_int, read_digits, same_upper, split_once,
}
use shc.Hashing.{get_nodes}
use shc.Health.{Monitor, new_member, get_node_state, answered}
use shc.Health.Detection.{run}
use shc.Failover.{route_get, try_primary, try_replica}
use shc.Failover.Examples.{ring, monitor, router, down, primary, replica}
use shc.Database.{TaxiTrip, Database, found, text, number}
use shc.Server.Examples.{node}
use shc.Server.Requests.{get_method, post_method, replied}
use shc.Gateway.{
  Gateway, ClientSetRequest, post_set, Json, Written, SetBody, row_of, edit_of, write_through,
  stored, store_at, handle_api_set,
}
use shc.Gateway.Reads.{Routing, from_database, handle_api_get}
use shc.Gateway.Trips.{cache_key}
use shc.Gateway.Status.{handle_api_node_state, target_state}
use shc.Gateway.Keys.{row_of-itoa}
use shc.Gateway.Through.{IsWritten}
use shc.Gateway.Writes.{body_of, IsStored, handle_api_set-IsStored, handle_api_set-available}
use shc.Gateway.EndToEnd.{
  reply_after, IsHit, handle_api_set-handle_api_get, handle_api_get-hydrates,
}
use shc.Gateway.Overrides.{handle_api_node_state-handle_api_set}

abbrev trip : TaxiTrip ℕ
trip = record {
  trip_id = "trip:7";
  row_id = pos 7;
  vendor_id = none;
  pickup_datetime = "";
  dropoff_datetime = "";
  passenger_count = none;
  trip_distance = 2;
  ratecode_id = none;
  pu_location_id = none;
  do_location_id = none;
  payment_type = none;
  fare_amount = 10;
  tip_amount = 3;
  total_amount = 14;
}

-- A database with one trip, which counts what is asked of it.
abbrev database : Database ℕ ℕ
database = record {
  query_trip_by_id = λ s row. (s + 1, found (some trip));
  update_trip_field = λ s row field value. (s + 1, found (some trip));
}

abbrev json : Json ℕ
json = record {
  marshal = λ t. some "{trip}";
  unmarshal = λ s. some (("field_modified", text "tip_amount") ∷ ("tip_amount", number 3) ∷ []);
}

abbrev all_alive : Monitor
all_alive = record monitor {
  members = ("n1", new_member "n1" "http://n1" 5) ∷ ("n2", new_member "n2" "http://n2" 5) ∷ [];
}

abbrev gateway : Gateway ℕ
gateway = record {
  addr = "0.0.0.0:8000";
  port = pos 8000;
  request_timeout = pos 2000000000;
  vnodes = pos 1;
  hash_ring = ring;
  health_monitor = all_alive;
  failover = router;
  db = some 0;
}

abbrev request : ClientSetRequest
request = record { key = "trip:7"; value = "{tip}"; ttl_seconds = pos 60 }

-- The request after the write-through.
abbrev sent : ClientSetRequest
sent = record { key = "trip:7"; value = "{trip}"; ttl_seconds = pos 60 }

abbrev body : SetBody ℕ
body = record {
  key = "trip:7";
  value = "{trip}";
  trip = some trip;
  db_updated = true;
  served_by = "n2";
  is_failover = true;
}

written : (write_through database json (some 0) request).req ≡ sent
unfolding write_through row_of edit_of trim_prefix cut_prefix parse_int read_digits lookup
    text_discrete
written = refl

nodes-found : get_nodes ring "trip:7" 2 ≡ some (primary ∷ replica ∷ [])
unfolding get_nodes lookup text_discrete ℕ_discrete binary_search insert
nodes-found = refl

not_blank : is_blank "trip:7" ≡ false
unfolding is_blank
not_blank = refl

handle_api_set-IsStored_example :
    (w : Written ℕ ℕ) × IsWritten database json (some 0) request w
    × ((handle_api_set database json gateway post_method
          (some request)
          (λ url. false)
          (λ url. true)).0.db
        ≡ w.db)
    × IsStored gateway w
        (λ url. false)
        (λ url. true)
        body
        (handle_api_set database json gateway post_method
          (some request)
          (λ url. false)
          (λ url. true)).2
unfolding handle_api_set store_at write_through row_of edit_of trim_prefix cut_prefix parse_int
    read_digits get_nodes lookup text_discrete ℕ_discrete binary_search insert get_node_state
handle_api_set-IsStored_example =
    handle_api_set-IsStored database json gateway post_method request (λ url. false) (λ url. true)
      body refl

-- The text behind "?key=", for the keys of these examples.
abbrev behind : Option (String × String) → String
behind none = ""
behind (some (path, query)) = trim_prefix query "key="

abbrev url_key : String → String
url_key url = behind (split_once 63 url)

handle_api_set-available_example :
    (b : SetBody ℕ) × ((let (g', response, calls) =
          handle_api_set database json gateway post_method
            (some request)
            (λ url. true)
            (λ url. true) in
        response)
      ≡ replied 200 b)
handle_api_set-available_example =
    handle_api_set-available database json gateway request primary replica [] (λ url. true)
      (λ url. true) refl nodes-found refl refl

row_of-itoa_example :
    (row_of (itoa 7) ≡ some (pos 7))
    × (row_of (cache_key (pos 7)) ≡ some (pos 7))
    × (row_of ("prod:" ++ itoa 7) ≡ some (pos 7))
row_of-itoa_example = row_of-itoa 7 (omega arith) (omega arith)

-- The primary answers as it does after the write.
abbrev next : ClientSetRequest → Routing
next req = record {
  first = λ url. reply_after node req (url_key url) 10 20 21 22;
  second = down;
  start = 0;
  finish = 5000000;
  latency = 2;
  total = 3;
}

abbrev missed : Routing
missed = record { first = down; second = down; start = 0; finish = 5000000; latency = 2; total = 3 }

handle_api_set-handle_api_get_example :
    let (g', response, calls) =
      handle_api_set database json gateway post_method (some request) (λ url. true) (λ url. true) in
    let written = write_through database json (some 0) request in
    IsWritten database json (some 0) request written
    × (g'.db ≡ written.db)
    × (response ≡ replied 200 (body_of written primary false))
    × In (post_set ("http://n1" ++ "/set") sent) calls
    × IsHit (handle_api_get database json g' get_method "trip:7" (next sent)).1 primary "{trip}"
unfolding write_through row_of edit_of trim_prefix cut_prefix parse_int read_digits lookup
    text_discrete is_blank get_node_state seconds split_once
handle_api_set-handle_api_get_example =
    handle_api_set-handle_api_get database json url_key gateway node request primary (replica ∷ [])
      (λ url. true) (λ url. true) (next sent) 10 20 21 22 refl refl (inr (omega arith)) nodes-found
      refl refl refl refl

handle_api_get-hydrates_example :
    let hydrating : ClientSetRequest = record {
      key = "trip:7";
      value = "{trip}";
      ttl_seconds = pos 300;
    } in
    let (g', response, calls) = handle_api_get database json gateway get_method "trip:7" missed in
    (response ≡ replied 200 (from_database "{trip}" trip 3))
    × (calls ≡ post_set ("http://n1" ++ "/set") hydrating ∷ [])
    × IsHit
        (handle_api_get database json g' get_method "trip:7" (next hydrating)).1
        primary
        "{trip}"
unfolding route_get try_primary try_replica get_nodes ℕ_discrete binary_search insert row_of
    trim_prefix cut_prefix parse_int read_digits lookup text_discrete is_blank get_node_state
    split_once
handle_api_get-hydrates_example =
    handle_api_get-hydrates database json url_key gateway node "trip:7" "{trip}" 0 1 (pos 7) trip
      primary (replica ∷ []) missed
      (next (record { key = "trip:7"; value = "{trip}"; ttl_seconds = pos 300 })) 10 20 21 22 refl
      refl refl refl refl refl refl nodes-found refl (omega arith) refl refl

handle_api_node_state-handle_api_set_example :
    let marked = (handle_api_node_state gateway post_method (some ("n1", "failed")) 6).0 in
    let later = record marked {
      health_monitor = run marked.health_monitor (
          (
            9,
            "n1",
            answered 200 ""
                (pos 1)
                (record { primary_keys = pos 0; replica_keys = pos 0; hit_count = 0 }),
          )
          ∷ []);
    } in
    let w = write_through database json (some 0) request in
    let (g', response, calls) =
      handle_api_set database json later post_method (some request) (λ url. true) (λ url. true) in
    (response ≡ stored w replica true) × (calls ≡ post_set ("http://n2" ++ "/set") w.req ∷ [])
unfolding target_state same_upper lookup text_discrete
handle_api_node_state-handle_api_set_example =
    handle_api_node_state-handle_api_set database json gateway "n1" "failed"
      (new_member "n1" "http://n1" 5) 6
      ((
        9,
        "n1",
        answered 200 "" (pos 1)
            (record { primary_keys = pos 0; replica_keys = pos 0; hit_count = 0 }),
      )
        ∷ [])
      request replica "http://n1" [] (λ url. true) (λ url. true) refl refl refl refl (inr refl, tt)
      refl nodes-found refl
