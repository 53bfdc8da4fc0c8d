-- ===== src/Failover/Examples.antt =====
-- A read whose primary is down, and the theorems about routing at it.
use shc.Base.{◌≡◌, ◌≢◌, refl, [], ◌∷◌, some, true, false, text_discrete, ℕ_discrete}
use shc.Base.Int.{pos}
use shc.Base.Sort.{binary_search}
use shc.Base.GoMap.{text_comparable, nat_comparable, lookup, insert}
use shc.Http.{Network, ok, no_response, answered}
use shc.Hashing.{HashRing, NodeTarget, get_nodes}
use shc.Health.{failed, Monitor, new_member, get_node_state}
use shc.Failover.{
  Router, NodeGetPayload, ReadResult, served, read_from_node, known_state, route_get, result_from,
}
use shc.Failover.Routing.{IsServed, route_get-IsServed, route_get-available}

abbrev pub ring : HashRing
ring = record {
  vnodes = 1;
  hash_func = λ s. 5;
  ring = 9 ∷ 10 ∷ [];
  vnode_to_node = (9, "n1") ∷ (10, "n2") ∷ [];
  node_addresses = ("n1", "http://n1") ∷ ("n2", "http://n2") ∷ [];
  nodes = ("n1", true) ∷ ("n2", true) ∷ [];
}

-- The primary is thought FAILED.
abbrev pub monitor : Monitor
monitor = record {
  config = record {
    self_node_id = "router";
    self_addr = "http://router";
    peers = [];
    heartbeat_interval = pos 10;
    suspect_timeout = pos 20;
    fail_timeout = pos 40;
  };
  members = ("n1", record (new_member "n1" "http://n1" 5) { state = failed }) ∷ [];
  stopped = false;
  listeners = [];
}

abbrev payload : NodeGetPayload
payload = record {
  status = "hit";
  key = "user:1";
  value = "ada";
  ttl_remaining = pos 60;
  version = 3;
  is_replica = true;
  node_id = "n2";
}

abbrev pub down : Network NodeGetPayload
down url = no_response

abbrev up : Network NodeGetPayload
up url = answered 200 (some payload)

abbrev pub router : Router
router = record { total_routed = 0; direct_hits = 0; failover_hits = 0; failures = 0 }

abbrev pub primary : NodeTarget
primary = record { node_id = "n1"; addr = "http://n1" }

abbrev pub replica : NodeTarget
replica = record { node_id = "n2"; addr = "http://n2" }

nodes-found : get_nodes ring "user:1" 2 ≡ some (primary ∷ replica ∷ [])
unfolding get_nodes lookup text_discrete ℕ_discrete binary_search insert
nodes-found = refl

replica-allowed : known_state (get_node_state monitor "n2") ≢ failed
unfolding get_node_state lookup text_discrete
replica-allowed e = cc

replica-answers : read_from_node up "http://n2" "user:1" ≡ ok payload
unfolding read_from_node text_discrete
replica-answers = refl

route_get-available_example :
    (result : ReadResult) × ((route_get router ring monitor "user:1" down up 0 5000000).1
      ≡ served result)
route_get-available_example =
    route_get-available router ring monitor "user:1" down up 0 5000000 primary replica [] payload
      nodes-found replica-allowed replica-answers

abbrev result : ReadResult
result = result_from payload replica true primary failed 5

result-served : (route_get router ring monitor "user:1" down up 0 5000000).1 ≡ served result
unfolding route_get get_nodes get_node_state lookup text_discrete ℕ_discrete binary_search
    read_from_node insert
result-served = refl

route_get-IsServed_example : IsServed ring monitor "user:1" down up result
route_get-IsServed_example =
    route_get-IsServed router ring monitor "user:1" down up 0 5000000 result result-served
