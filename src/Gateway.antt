-- ===== src/Gateway.antt =====
-- backend/internal/gateway/gateway.go: the router in front of the nodes, which keeps the cache and
-- the persistent database in step.
-- A request reaches the handlers decoded. The network is outside: `first` and `second` say of each URL
-- whether client.Post or client.Do returns a response, whatever its status, for that is all the code
-- looks at. The calls that a handler makes, the ones in goroutines included, are returned as a list in
-- the order in which the code makes them. The database is reached through its interface, and
-- encoding/json is a parameter (Json).
pub mod Examples
pub mod Reads
pub mod Deletes
pub mod Trips
pub mod Setup
pub mod Status
pub mod Keys
pub mod Through
pub mod Writes
pub mod EndToEnd
pub mod Overrides
use Prim.Native.String.{◌++◌}
use shc.Base.{
  ℕ, ◌-◌, ◌/◌, ◌==◌, String, List, [], ◌∷◌, Option, none, some, Bool, true, false, ◌&&◌, ◌||◌, not,
  if◌then◌else◌, holds, text_discrete,
}
use shc.Base.Int.{ℤ, pos, is_positive}
use shc.Base.Texts.{is_empty, trim_prefix, parse_int}
use shc.Base.GoMap.{GoMap, text_comparable, lookup}
use shc.Http.{Network}
use shc.Hashing.{HashRing, NodeTarget, get_nodes}
use shc.Health.{Monitor, is_failed, get_node_state}
use shc.Failover.{
  Router, ReadResult, NodeGetPayload, Routed, served, refused, known_state, route_get,
}
use shc.Database.{TaxiTrip, Value, text, other, Answer, found, failure, Database}
use shc.Server.Requests.{Method, is_get, is_post, is_delete, Response, replied, rejected}

-- `S` is the type of the database behind the interface; a nil database is `none`.
pub record Gateway (S : Type 0) : Type 0 where
  pub addr : String
  pub port : ℤ
  pub request_timeout : ℤ
  pub vnodes : ℤ
  pub hash_ring : HashRing
  pub health_monitor : Monitor
  pub failover : Router
  pub db : Option S

pub record ClientSetRequest : Type 0 where
  pub key : String
  pub value : String
  pub ttl_seconds : ℤ

-- A call to a node.
pub data Call : Type 0 where
  post_set : String → ClientSetRequest → Call
  delete_at : String → Call

-- What encoding/json makes of a trip, if it can encode it, and of the value of a request.
pub record Json (F : Type 0) : Type 0 where
  pub marshal : Option (TaxiTrip F) → Option String
  pub unmarshal : String → Option (GoMap String (Value F))

abbrev pub set_url : String → String
set_url addr = addr ++ "/set"

abbrev pub positive_row : Option ℤ → Option ℤ
positive_row none = none
positive_row (some id) = if is_positive id then some id else none

-- The row that a key names: its number, with or without the prefixes.
unfoldable pub row_of : String → Option ℤ
row_of key = positive_row (parse_int (trim_prefix (trim_prefix key "trip:") "prod:"))

-- parsedMap[field], nil if the key is missing.
abbrev pub value_or_nil : {F : Type 0} → Option (Value F) → Value F
value_or_nil none = other
value_or_nil (some v) = v

abbrev pub edited_field :
    {F : Type 0} → GoMap String (Value F) → Option (Value F) → Option (String × Value F)
edited_field parsed (some (text field)) =
    if is_empty field then none else some (field, value_or_nil (lookup field parsed))
edited_field parsed _ = none

-- The field that a request edits, and its value.
unfoldable pub edit_of : {F : Type 0} → Option (GoMap String (Value F)) → Option (String × Value F)
edit_of none = none
edit_of (some parsed) = edited_field parsed (lookup "field_modified" parsed)

-- What the write-through leaves: the database, the request and the trip.
pub record Written (S F : Type 0) : Type 0 where
  pub db : Option S
  pub req : ClientSetRequest
  pub full_trip : Option (TaxiTrip F)
  pub db_updated : Bool

pub record SetBody (F : Type 0) : Type 0 where
  pub key : String
  pub value : String
  pub trip : Option (TaxiTrip F)
  pub db_updated : Bool
  pub served_by : String
  pub is_failover : Bool

module _ {S F : Type 0} (database : Database S F) (json : Json F) where
  abbrev pub untouched : Option S → ClientSetRequest → Written S F
  untouched db req = record { db = db; req = req; full_trip = none; db_updated = false }

  abbrev pub with_value : ClientSetRequest → Option String → ClientSetRequest
  with_value req none = req
  with_value req (some value) = record req { value = value }

  abbrev pub after_update : ClientSetRequest → S × Answer F → Written S F
  after_update req (db, found (some trip)) = record {
    db = some db;
    req = with_value req (json.marshal (some trip));
    full_trip = some trip;
    db_updated = true;
  }
  after_update req (db, found none) = untouched (some db) req
  after_update req (db, failure e) = untouched (some db) req

  abbrev pub write_field : S → ClientSetRequest → ℤ → Option (String × Value F) → Written S F
  write_field db req row none = untouched (some db) req
  write_field db req row (some (field, value)) =
      after_update req (database.update_trip_field db row field value)

  abbrev pub write_row : S → ClientSetRequest → Option ℤ → Written S F
  write_row db req none = untouched (some db) req
  write_row db req (some row) = write_field db req row (edit_of (json.unmarshal req.value))

  unfoldable pub write_through : Option S → ClientSetRequest → Written S F
  unfolding row_of edit_of
  write_through none req = untouched none req
  write_through (some db) req = write_row db req (row_of req.key)

-- The primary, or the replica if the primary is known to be FAILED.
abbrev pub destination : Monitor → NodeTarget → List NodeTarget → NodeTarget × Bool
destination m primary [] = (primary, false)
destination m primary (replica ∷ rest) =
    if is_failed (known_state (get_node_state m primary.node_id))
    then (replica, true)
    else (primary, false)

-- The goroutine that sends the write to the replica too.
abbrev pub mirror : ClientSetRequest → NodeTarget → List NodeTarget → List Call
mirror req dest [] = []
mirror req dest (replica ∷ rest) =
    if not (is_empty replica.addr) && not (holds (text_discrete replica.addr dest.addr))
    then post_set (set_url replica.addr) req ∷ []
    else []

module _ {S F : Type 0} where
  abbrev pub stored : Written S F → NodeTarget → Bool → Response (SetBody F)
  stored w to is_failover = replied 200 (record {
    key = w.req.key;
    value = w.req.value;
    trip = w.full_trip;
    db_updated = w.db_updated;
    served_by = to.node_id;
    is_failover = is_failover;
  })

  -- The POST to the destination failed.
  abbrev pub fall_back :
      Written S F
      → NodeTarget
      → Bool
      → List NodeTarget
      → (String → Bool)
      → Response (SetBody F) × List Call
  fall_back w dest is_failover [] second = (rejected 502, post_set (set_url dest.addr) w.req ∷ [])
  fall_back w dest is_failover (replica ∷ rest) second =
      if is_failover then (rejected 502, post_set (set_url dest.addr) w.req ∷ []) else (
        if second (set_url replica.addr) then stored w replica true else rejected 502,
        post_set (set_url dest.addr) w.req ∷ post_set (set_url replica.addr) w.req ∷ [],
      )

  unfoldable pub store_at :
      Monitor
      → Written S F
      → Option (List NodeTarget)
      → (String → Bool)
      → (String → Bool)
      → Response (SetBody F) × List Call
  store_at m w none first second = (rejected 503, [])
  store_at m w (some []) first second = (rejected 503, [])
  store_at m w (some (primary ∷ rest)) first second =
      let (dest, is_failover) = destination m primary rest in
      if first (set_url dest.addr)
      then (stored w dest is_failover, post_set (set_url dest.addr) w.req ∷ mirror w.req dest rest)
      else fall_back w dest is_failover rest second

module _ {S F : Type 0} (database : Database S F) (json : Json F) where
  abbrev set_key :
      Gateway S
      → Option ClientSetRequest
      → (String → Bool)
      → (String → Bool)
      → Gateway S × Response (SetBody F) × List Call
  set_key g none first second = (g, rejected 400, [])
  set_key g (some req) first second =
      let w = write_through database json g.db req in
      let (response, calls) =
        store_at g.health_monitor w (get_nodes g.hash_ring req.key 2) first second in
      if is_empty req.key then (g, rejected 400, []) else (record g { db = w.db }, response, calls)

  unfoldable pub handle_api_set :
      Gateway S
      → Method
      → Option ClientSetRequest
      → (String → Bool)
      → (String → Bool)
      → Gateway S × Response (SetBody F) × List Call
  unfolding write_through store_at
  handle_api_set g method req first second =
      if is_post method then set_key g req first second else (g, rejected 405, [])
