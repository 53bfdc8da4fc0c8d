-- ===== src/Cluster.antt =====
-- backend/internal/cluster/peer.go: what a node knows of its peers, from their own reports.
-- The goroutines of CheckAllPeers each end in one critical section; `order` lists the peers in the
-- order in which they reach it. The clock readings of one goroutine are given by its peer.
pub mod Examples
pub mod Reports
use Prim.Native.String.{◌++◌}
use shc.Base.{
  ℕ, ◌*◌, leb, String, List, [], ◌∷◌, Option, none, some, Bool, true, false, if◌then◌else◌,
}
use shc.Base.Int.{ℤ, pos, leb_ℤ}
use shc.Base.Words.{second}
use shc.Base.GoMap.{GoMap, text_comparable, insert}
use shc.Http.{
  Network, Reply, Result, Failure, ok, err, no_request, no_response, answered, fetch_json,
}

pub record InternalHealth : Type 0 where
  pub status : String
  pub node_id : String
  pub state : String
  pub addr : String
  pub primary_keys : ℕ
  pub replica_keys : ℕ
  pub hit_count : ℕ
  pub uptime_seconds : ℕ

pub record InternalStats : Type 0 where
  pub node_id : String
  pub state : String
  pub total_keys : ℕ
  pub hit_count : ℕ
  pub miss_count : ℕ
  pub set_count : ℕ
  pub delete_count : ℕ
  pub expired_count : ℕ
  pub uptime_seconds : ℕ

-- `last_error` is the error itself, where the source keeps its text.
pub record PeerStatus : Type 0 where
  pub addr : String
  pub reachable : Bool
  pub latency_ms : ℕ
  pub node_id : String
  pub state : String
  pub stats : Option InternalStats
  pub last_error : Option Failure
  pub last_checked : ℕ

pub record PeerManager : Type 0 where
  pub self_node_id : String
  pub self_addr : String
  pub peers : List String
  pub timeout : ℤ
  pub peer_states : GoMap String PeerStatus

-- The status before the first check; 0 is the zero time.
abbrev pub unchecked : String → PeerStatus
unchecked p = record {
  addr = p;
  reachable = false;
  latency_ms = 0;
  node_id = "";
  state = "";
  stats = none;
  last_error = none;
  last_checked = 0;
}

unfoldable pub unchecked_states : List String → GoMap String PeerStatus → GoMap String PeerStatus
unchecked_states [] states = states
unchecked_states (p ∷ rest) states = unchecked_states rest (insert p (unchecked p) states)

unfoldable pub new_peer_manager : String → String → List String → ℤ → PeerManager
unfolding unchecked_states
new_peer_manager self_node_id self_addr peers timeout = record {
  self_node_id = self_node_id;
  self_addr = self_addr;
  peers = peers;
  timeout = if leb_ℤ timeout (pos 0) then pos (2 * second) else timeout;
  peer_states = unchecked_states peers [];
}

-- The latency is 0 where no request could be made.
abbrev latency_of : Reply InternalHealth → ℕ → ℕ
latency_of no_request latency = 0
latency_of no_response latency = latency
latency_of (answered status body) latency = latency

unfoldable pub ping_peer : String → Network InternalHealth → ℕ → Result InternalHealth × ℕ
unfolding fetch_json
ping_peer peer_addr network latency =
    let reply = network (peer_addr ++ "/internal/health") in
    (fetch_json reply, latency_of reply latency)

unfoldable pub fetch_peer_stats : String → Network InternalStats → Result InternalStats
unfolding fetch_json
fetch_peer_stats peer_addr network = fetch_json (network (peer_addr ++ "/internal/stats"))

abbrev pub stats_of : Result InternalStats → Option InternalStats
stats_of (ok s) = some s
stats_of (err e) = none

-- What one goroutine of CheckAllPeers writes down.
abbrev status_from : String → Result InternalHealth → ℕ → Result InternalStats → ℕ → PeerStatus
status_from addr (err e) latency fetched now = record {
  addr = addr;
  reachable = false;
  latency_ms = latency;
  node_id = "";
  state = "";
  stats = none;
  last_error = some e;
  last_checked = now;
}
status_from addr (ok health) latency fetched now = record {
  addr = addr;
  reachable = true;
  latency_ms = latency;
  node_id = health.node_id;
  state = health.state;
  stats = stats_of fetched;
  last_error = none;
  last_checked = now;
}

-- What the network and the clock answer during one check.
pub record Surroundings : Type 0 where
  pub health : Network InternalHealth
  pub stats : Network InternalStats
  pub latency : String → ℕ
  pub clock : String → ℕ

unfoldable pub check_peer : Surroundings → String → PeerStatus
unfolding ping_peer fetch_peer_stats
check_peer w addr =
    let (health, latency) = ping_peer addr w.health (w.latency addr) in
    status_from addr health latency (fetch_peer_stats addr w.stats) (w.clock addr)

-- The critical sections, each of which writes the two maps.
unfoldable pub check_in_order :
    Surroundings
    → List String
    → GoMap String PeerStatus × GoMap String PeerStatus
    → GoMap String PeerStatus × GoMap String PeerStatus
unfolding check_peer
check_in_order w [] maps = maps
check_in_order w (p ∷ rest) (results, states) =
    check_in_order w rest (insert p (check_peer w p) results, insert p (check_peer w p) states)

unfoldable pub check_all_peers :
    PeerManager → List String → Surroundings → PeerManager × GoMap String PeerStatus
unfolding check_in_order
check_all_peers pm order w =
    let (results, states) = check_in_order w order ([], pm.peer_states) in
    (record pm { peer_states = states }, results)

-- The loop that copies a map.
unfoldable pub copy_map :
    GoMap String PeerStatus → GoMap String PeerStatus → GoMap String PeerStatus
copy_map [] copy = copy
copy_map ((k, v) ∷ rest) copy = copy_map rest (insert k v copy)

unfoldable pub get_peers_status : PeerManager → GoMap String PeerStatus
unfolding copy_map
get_peers_status pm = copy_map pm.peer_states []

unfoldable pub peers : PeerManager → List String
peers pm = pm.peers
