-- ===== src/Failover.antt =====
-- backend/internal/failover/router.go: reads that go to the replica when the primary is down.
-- The ring and the monitor are read through their own locks; `first` and `second` are the network
-- at the two reads, `start` and `finish` the readings of time.Now().
pub mod Examples
pub mod Routing
pub mod Counters
use Prim.Native.String.{◌++◌}
use shc.Base.{
  ℕ, ◌-◌, ◌/◌, String, List, [], ◌∷◌, Option, none, some, Bool, true, false, not, if◌then◌else◌,
  holds, text_discrete,
}
use shc.Base.Int.{ℤ}
use shc.Base.Words.{inc64}
use shc.Http.{Network, Reply, Result, ok, err, Failure, not_hit, fetch_json}
use shc.Hashing.{HashRing, NodeTarget, get_nodes}
use shc.Health.{Monitor, NodeState, alive, is_alive, is_failed, get_node_state}

pub record ReadResult : Type 0 where
  pub key : String
  pub value : String
  pub ttl_remaining : ℤ
  pub version : ℕ
  pub served_by : String
  pub served_addr : String
  pub is_failover : Bool
  pub primary_node : String
  pub primary_state : NodeState
  pub latency_ms : ℕ

pub record Stats : Type 0 where
  pub total_routed : ℕ
  pub direct_hits : ℕ
  pub failover_hits : ℕ
  pub failures_count : ℕ

pub record Router : Type 0 where
  pub total_routed : ℕ
  pub direct_hits : ℕ
  pub failover_hits : ℕ
  pub failures : ℕ

unfoldable pub new_router : Router
new_router = record { total_routed = 0; direct_hits = 0; failover_hits = 0; failures = 0 }

pub record NodeGetPayload : Type 0 where
  pub status : String
  pub key : String
  pub value : String
  pub ttl_remaining : ℤ
  pub version : ℕ
  pub is_replica : Bool
  pub node_id : String

pub data RouteError : Type 0 where
  no_healthy_nodes : RouteError
  read_failed : String → String → NodeState → RouteError

pub data Routed : Type 0 where
  served : ReadResult → Routed
  refused : RouteError → Routed

unfoldable pub only_hit : Result NodeGetPayload → Result NodeGetPayload
only_hit (err e) = err e
only_hit (ok payload) =
    if holds (text_discrete payload.status "hit") then ok payload else err (not_hit payload.status)

-- The key stands in the URL as it is.
abbrev pub get_url : String → String → String
get_url addr key = addr ++ "/get?key=" ++ key

unfoldable pub read_from_node : Network NodeGetPayload → String → String → Result NodeGetPayload
unfolding only_hit fetch_json
read_from_node network addr key = only_hit (fetch_json (network (get_url addr key)))

-- One of the four atomic counters goes up by one.
abbrev pub count_total : Router → Router
count_total r = record r { total_routed = inc64 r.total_routed }

abbrev pub count_direct : Router → Router
count_direct r = record r { direct_hits = inc64 r.direct_hits }

abbrev pub count_failover : Router → Router
count_failover r = record r { failover_hits = inc64 r.failover_hits }

abbrev pub count_failure : Router → Router
count_failure r = record r { failures = inc64 r.failures }

-- The state that the router sees: a node that the monitor does not know counts as ALIVE.
abbrev pub known_state : Option NodeState → NodeState
known_state none = alive
known_state (some s) = s

abbrev pub result_from :
    NodeGetPayload → NodeTarget → Bool → NodeTarget → NodeState → ℕ → ReadResult
result_from payload server is_failover primary state latency = record {
  key = payload.key;
  value = payload.value;
  ttl_remaining = payload.ttl_remaining;
  version = payload.version;
  served_by = server.node_id;
  served_addr = server.addr;
  is_failover = is_failover;
  primary_node = primary.node_id;
  primary_state = state;
  latency_ms = latency;
}

-- The second half: the replica is tried unless it is known to be FAILED.
unfoldable pub try_replica :
    Router
    → Monitor
    → String
    → NodeTarget
    → NodeState
    → List NodeTarget
    → Network NodeGetPayload
    → ℕ
    → Router × Routed
unfolding read_from_node
try_replica r monitor key primary state [] second latency =
    (count_failure r, refused (read_failed key primary.node_id state))
try_replica r monitor key primary state (replica ∷ rest) second latency =
    let failure : Router × Routed =
      (count_failure r, refused (read_failed key primary.node_id state)) in
    if is_failed (known_state (get_node_state monitor replica.node_id))
    then failure
    else elim (read_from_node second replica.addr key) [
      | ok payload ↦
          (count_failover r, served (result_from payload replica true primary state latency))
      | err e ↦ failure
    ]

unfoldable pub try_primary :
    Router
    → Monitor
    → String
    → Option (List NodeTarget)
    → Network NodeGetPayload
    → Network NodeGetPayload
    → ℕ
    → Router × Routed
unfolding try_replica
try_primary r monitor key none first second latency = (count_failure r, refused no_healthy_nodes)
try_primary r monitor key (some []) first second latency =
    (count_failure r, refused no_healthy_nodes)
try_primary r monitor key (some (primary ∷ rest)) first second latency =
    let state = known_state (get_node_state monitor primary.node_id) in
    let fallback = try_replica r monitor key primary state rest second latency in
    if is_alive state
    then elim (read_from_node first primary.addr key) [
      | ok payload ↦
          (count_direct r, served (result_from payload primary false primary state latency))
      | err e ↦ fallback
    ]
    else fallback

unfoldable pub route_get :
    Router
    → HashRing
    → Monitor
    → String
    → Network NodeGetPayload
    → Network NodeGetPayload
    → ℕ
    → ℕ
    → Router × Routed
unfolding try_primary
route_get r ring monitor key first second start finish =
    try_primary (count_total r) monitor key (get_nodes ring key 2) first second
      ((finish - start) / 1000000)

unfoldable pub stats : Router → Stats
stats r = record {
  total_routed = r.total_routed;
  direct_hits = r.direct_hits;
  failover_hits = r.failover_hits;
  failures_count = r.failures;
}
