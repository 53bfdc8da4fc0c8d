-- ===== src/Failover/Counters.antt =====
-- The counters of the router: every read that is routed is a direct hit, a failover hit or a failure.
use shc.Base.{ℕ, ◌+◌, ◌%◌, ◌≡◌, List, [], ◌∷◌, Option, none, some, String, arith}
use shc.Base.Words.{u64_mod}
use shc.Http.{Network}
use shc.Hashing.{HashRing, NodeTarget, get_nodes}
use shc.Health.{Monitor, NodeState, get_node_state}
use shc.Failover.{
  Router, NodeGetPayload, known_state, count_total, try_replica, try_primary, route_get,
}

-- The counters agree, as numbers modulo 2^64.
abbrev pub IsBalanced : Router → Type 0
IsBalanced r = (r.direct_hits + r.failover_hits + r.failures) % u64_mod ≡ r.total_routed % u64_mod

-- One read has been counted in the total, and not yet under its outcome.
abbrev IsPending : Router → Type 0
IsPending r =
    (r.direct_hits + r.failover_hits + r.failures + 1) % u64_mod ≡ r.total_routed % u64_mod

try_replica-IsBalanced :
    (r : Router) (monitor : Monitor) (key : String) (primary : NodeTarget) (state : NodeState)
    (rest : List NodeTarget) (second : Network NodeGetPayload) (latency : ℕ)
    → IsPending r
    → IsBalanced (try_replica r monitor key primary state rest second latency).0
unfolding try_replica
try_replica-IsBalanced r monitor key primary state [] second latency p = omega arith
try_replica-IsBalanced r monitor key primary state (replica ∷ rest) second latency p = ground arith

try_primary-IsBalanced :
    (r : Router) (monitor : Monitor) (key : String) (targets : Option (List NodeTarget))
    (first second : Network NodeGetPayload) (latency : ℕ)
    → IsPending r
    → IsBalanced (try_primary r monitor key targets first second latency).0
unfolding try_primary
try_primary-IsBalanced r monitor key none first second latency p = omega arith
try_primary-IsBalanced r monitor key (some []) first second latency p = omega arith
try_primary-IsBalanced r monitor key (some (primary ∷ rest)) first second latency p = ground (
  arith,
  try_replica-IsBalanced r monitor key primary
      (known_state (get_node_state monitor primary.node_id)) rest second latency p,
)

-- If the total equals the direct hits, the failover hits and the failures together, modulo 2^64,
-- it does so after a routed read, whatever the ring, the monitor and the network do.
pub route_get-IsBalanced :
    (r : Router) (ring : HashRing) (monitor : Monitor) (key : String)
    (first second : Network NodeGetPayload) (start finish : ℕ)
    → IsBalanced r
    → IsBalanced (route_get r ring monitor key first second start finish).0
unfolding route_get
route_get-IsBalanced r ring monitor key first second start finish b =
    try_primary-IsBalanced (count_total r) monitor key (get_nodes ring key 2) first second _
      (omega arith)
