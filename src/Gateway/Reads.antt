-- ===== src/Gateway/Reads.antt =====
-- backend/internal/gateway/gateway.go: the reads, from the cache or else from the database.
-- `start` and `finish` are the readings of RouteGet; `latency` and `total` are the milliseconds that the
-- handler measures for a hit and for a row of the database.
use shc.Base.{ℕ, ◌==◌, String, List, [], ◌∷◌, Option, none, some, if◌then◌else◌}
use shc.Base.Int.{ℤ, pos}
use shc.Base.Texts.{is_empty}
use shc.Http.{Network}
use shc.Hashing.{NodeTarget, get_nodes}
use shc.Failover.{ReadResult, NodeGetPayload, Routed, served, refused, route_get}
use shc.Database.{TaxiTrip, Answer, found, failure, Database}
use shc.Server.Requests.{Method, is_get, Response, replied, rejected}
use shc.Gateway.{Gateway, ClientSetRequest, Call, post_set, Json, set_url, row_of}

-- The two readings of the network in RouteGet, and its clock.
pub record Routing : Type 0 where
  pub first : Network NodeGetPayload
  pub second : Network NodeGetPayload
  pub start : ℕ
  pub finish : ℕ
  pub latency : ℕ
  pub total : ℕ

-- A latency of 0 is shown as 1.
abbrev pub at_least_one : ℕ → ℕ
at_least_one ms = if ms == 0 then 1 else ms

-- The bodies of handleAPIGet: a hit of the cache, a row of the database with its text, a miss.
pub data GetBody (F : Type 0) : Type 0 where
  cached : ReadResult → ℕ → GetBody F
  from_database : String → TaxiTrip F → ℕ → GetBody F
  missing : String → GetBody F

abbrev pub or_empty : Option String → String
or_empty none = ""
or_empty (some s) = s

-- The result of RouteGet that counts as a hit: one with a value.
abbrev pub hit_of : Routed → Option ReadResult
hit_of (served result) = if is_empty result.value then none else some result
hit_of (refused e) = none

abbrev pub server_of : Routed → String
server_of (served result) = result.served_by
server_of (refused e) = ""

-- The goroutine of handleAPIGet: the primary alone is given the row, for five minutes.
abbrev pub hydrate_primary : ClientSetRequest → Option (List NodeTarget) → List Call
hydrate_primary req none = []
hydrate_primary req (some []) = []
hydrate_primary req (some (primary ∷ rest)) = post_set (set_url primary.addr) req ∷ []

-- The loop of handleAPITrip: every target with an address.
unfoldable pub hydrate_all : ClientSetRequest → List NodeTarget → List Call
hydrate_all req [] = []
hydrate_all req (to ∷ rest) =
    let calls = hydrate_all req rest in
    if is_empty to.addr then calls else post_set (set_url to.addr) req ∷ calls

abbrev pub hydrate_targets : ClientSetRequest → Option (List NodeTarget) → List Call
hydrate_targets req none = []
hydrate_targets req (some targets) = hydrate_all req targets

module _ {S F : Type 0} (database : Database S F) (json : Json F) where
  abbrev pub from_row :
      Gateway S
      → String
      → Routing
      → Routed
      → S × Answer F
      → Gateway S × Response (GetBody F) × List Call
  from_row g key w routed (db, found (some trip)) =
      let value = or_empty (json.marshal (some trip)) in
      (
        record g { db = some db },
        replied 200 (from_database value trip w.total),
        hydrate_primary (record { key = key; value = value; ttl_seconds = pos 300 })
            (get_nodes g.hash_ring key 2),
      )
  from_row g key w routed (db, found none) =
      (record g { db = some db }, replied 200 (missing (server_of routed)), [])
  from_row g key w routed (db, failure e) =
      (record g { db = some db }, replied 200 (missing (server_of routed)), [])

  abbrev pub read_row :
      Gateway S
      → String
      → Routing
      → Routed
      → Option S
      → Option ℤ
      → Gateway S × Response (GetBody F) × List Call
  read_row g key w routed (some db) (some row) =
      from_row g key w routed (database.query_trip_by_id db row)
  read_row g key w routed none row = (g, replied 200 (missing (server_of routed)), [])
  read_row g key w routed (some db) none = (g, replied 200 (missing (server_of routed)), [])

  unfoldable pub answer_get :
      Gateway S
      → String
      → Routing
      → Routed
      → Option ReadResult
      → Gateway S × Response (GetBody F) × List Call
  unfolding row_of
  answer_get g key w routed (some result) =
      (g, replied 200 (cached result (at_least_one w.latency)), [])
  answer_get g key w routed none = read_row g key w routed g.db (row_of key)

  unfoldable pub handle_api_get :
      Gateway S → Method → String → Routing → Gateway S × Response (GetBody F) × List Call
  unfolding answer_get
  handle_api_get g method key w =
      let (r, routed) =
        route_get g.failover g.hash_ring g.health_monitor key w.first w.second w.start w.finish in
      if is_get method
      then (if is_empty key
          then (g, rejected 400, [])
          else answer_get (record g { failover = r }) key w routed (hit_of routed))
      else (g, rejected 405, [])
