-- ===== src/Gateway/Status.antt =====
-- backend/internal/gateway/gateway.go: the endpoints that show the cluster, and the one that changes the
-- state of a node by hand.
use shc.Base.{ℕ, String, List, [], ◌∷◌, Option, none, some, Bool, ◌||◌, if◌then◌else◌, length}
use shc.Base.Int.{ℤ, pos, ◌*ℤ◌}
use shc.Base.Texts.{is_empty, same_upper}
use shc.Base.GoMap.{GoMap, text_comparable, lookup}
use shc.Hashing.{NodeTarget, get_topology, node_count}
use shc.Health.{
  NodeState, alive, suspected, failed, MemberInfo, ClusterView, Notification, Monitor,
  get_cluster_view, get_node_state, set_node_state_manual,
}
use shc.Failover
use shc.Server.Requests.{Method, is_post, Response, replied, rejected}
use shc.Gateway.{Gateway}

-- The switch over the text of a state.
unfoldable pub target_state : String → Option NodeState
target_state state =
    if same_upper state "FAILED"
    then some failed
    else (if same_upper state "ALIVE"
        then some alive
        else (if same_upper state "SUSPECTED" then some suspected else none))

pub record StateBody : Type 0 where
  pub node_id : String
  pub state : NodeState

module _ {S : Type 0} where
  abbrev override :
      Gateway S
      → String
      → NodeState
      → Monitor × Bool × List Notification
      → Gateway S × Response StateBody × List Notification
  override g node_id state (m, known, sent) =
      if known
      then (
        record g { health_monitor = m },
        replied 200 (record { node_id = node_id; state = state }),
        sent,
      )
      else (record g { health_monitor = m }, rejected 404, sent)

  abbrev override_to :
      Gateway S → String → ℕ → Option NodeState → Gateway S × Response StateBody × List Notification
  override_to g node_id now none = (g, rejected 400, [])
  override_to g node_id now (some state) =
      override g node_id state (set_node_state_manual g.health_monitor node_id state now)

  abbrev state_request :
      Gateway S → Option (String × String) → ℕ → Gateway S × Response StateBody × List Notification
  state_request g none now = (g, rejected 400, [])
  state_request g (some (node_id, state)) now =
      if is_empty node_id || is_empty state
      then (g, rejected 400, [])
      else override_to g node_id now (target_state state)

  -- The body is the node and the text of the state; one that cannot be decoded is `none`.
  unfoldable pub handle_api_node_state :
      Gateway S
      → Method
      → Option (String × String)
      → ℕ
      → Gateway S × Response StateBody × List Notification
  unfolding target_state
  handle_api_node_state g method body now =
      if is_post method then state_request g body now else (g, rejected 405, [])

pub record HealthBody : Type 0 where
  pub active_nodes : ℕ
  pub cluster_health : ClusterView

unfoldable pub handle_api_health : {S : Type 0} → Gateway S → ℕ → Response HealthBody
handle_api_health g now = replied 200 (record {
  active_nodes = node_count g.hash_ring;
  cluster_health = get_cluster_view g.health_monitor now;
})

pub record NodeDetail : Type 0 where
  pub node_id : String
  pub addr : String
  pub state : Option NodeState
  pub latency_ms : ℤ
  pub primary_keys : ℤ
  pub replica_keys : ℤ
  pub hit_count : ℕ

pub record ClusterBody : Type 0 where
  pub total_nodes : ℕ
  pub vnodes_per_node : ℤ
  pub total_vnodes : ℤ
  pub members : List NodeDetail

-- A node of the ring, with zeros unless the monitor knows it.
abbrev detail_of : NodeTarget → Option NodeState → Option MemberInfo → NodeDetail
detail_of n state none = record {
  node_id = n.node_id;
  addr = n.addr;
  state = state;
  latency_ms = pos 0;
  primary_keys = pos 0;
  replica_keys = pos 0;
  hit_count = 0;
}
detail_of n state (some mem) = record {
  node_id = n.node_id;
  addr = n.addr;
  state = state;
  latency_ms = mem.latency_ms;
  primary_keys = mem.primary_keys;
  replica_keys = mem.replica_keys;
  hit_count = mem.hit_count;
}

-- The loop over the nodes of the topology.
unfoldable pub node_details : Monitor → GoMap String MemberInfo → List NodeTarget → List NodeDetail
node_details m members [] = []
node_details m members (n ∷ rest) =
    detail_of n (get_node_state m n.node_id) (lookup n.node_id members)
    ∷ node_details m members rest

unfoldable pub handle_api_cluster : {S : Type 0} → Gateway S → ℕ → Response ClusterBody
unfolding node_details
handle_api_cluster g now =
    let nodes = (get_topology g.hash_ring).nodes in
    replied 200 (record {
      total_nodes = length nodes;
      vnodes_per_node = g.vnodes;
      total_vnodes = pos (length nodes) *ℤ g.vnodes;
      members = node_details g.health_monitor (get_cluster_view g.health_monitor now).members nodes;
    })

pub record StatsBody : Type 0 where
  pub port : ℤ
  pub cluster_health : ClusterView
  pub failover_stats : Failover.Stats

unfoldable pub handle_api_stats : {S : Type 0} → Gateway S → ℕ → Response StatsBody
handle_api_stats g now = replied 200 (record {
  port = g.port;
  cluster_health = get_cluster_view g.health_monitor now;
  failover_stats = Failover.stats g.failover;
})

-- `none` where there is no database, which is shown as offline.
pub record DbStatsBody (D : Type 0) : Type 0 where
  pub database_metrics : Option D
  pub cache_metrics : Failover.Stats

abbrev metrics_of : {S D : Type 0} → (S → D) → Option S → Option D
metrics_of get_stats none = none
metrics_of get_stats (some db) = some (get_stats db)

-- `get_stats` is GetStats of the database.
unfoldable pub handle_api_db_stats : {S D : Type 0} → (S → D) → Gateway S → Response (DbStatsBody D)
handle_api_db_stats get_stats g = replied 200 (record {
  database_metrics = metrics_of get_stats g.db;
  cache_metrics = Failover.stats g.failover;
})
