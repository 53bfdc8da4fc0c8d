-- ===== src/Server/Status.antt =====
-- backend/internal/server/server.go: the endpoints that only show the state of a node, and the
-- routed read.
use Prim.Native.String.{◌++◌}
use shc.Base.{
  ℕ, String, List, [], ◌∷◌, Option, none, some, if◌then◌else◌, length, holds, text_discrete,
}
use shc.Base.Int.{ℤ}
use shc.Base.Texts.{format_int}
use shc.Http.{Network}
use shc.Cache
use shc.Cache.{Cache, get, keys}
use shc.Cache.Items.{Item}
use shc.Hashing.{RingTopology, get_topology}
use shc.Cluster.{InternalHealth, InternalStats}
use shc.Health.{ClusterView, get_cluster_view}
use shc.Failover
use shc.Failover.{NodeGetPayload, ReadResult, Router, Routed, served, refused, route_get}
use shc.HotKey.{HotKeyInfo, get_hot_keys}
use shc.Replication
use shc.Server.{Node}
use shc.Server.Requests.{Method, is_get, is_blank, Response, replied, rejected}

pub record HealthResponse : Type 0 where
  pub status : String
  pub node_id : String
  pub state : String
  pub uptime_seconds : ℕ

pub record StatsResponse : Type 0 where
  pub node_id : String
  pub state : String
  pub total_keys : ℕ
  pub primary_keys : ℕ
  pub replica_keys : ℕ
  pub hit_count : ℕ
  pub miss_count : ℕ
  pub set_count : ℕ
  pub delete_count : ℕ
  pub expired_count : ℕ
  pub replication_stats : Replication.Stats
  pub failover_stats : Failover.Stats
  pub uptime_seconds : ℕ

abbrev on_get : {A : Type 0} → Method → A → Response A
on_get method body = if is_get method then replied 200 body else rejected 405

unfoldable pub handle_health : Node → Method → ℕ → Response HealthResponse
handle_health s method now = on_get method (record {
  status = "UP";
  node_id = s.node_id;
  state = "ALIVE";
  uptime_seconds = (Cache.stats s.cache now).uptime_seconds;
})

unfoldable pub handle_stats : Node → Method → ℕ → Response StatsResponse
handle_stats s method now =
    let stats = Cache.stats s.cache now in
    on_get method (record {
      node_id = s.node_id;
      state = "ALIVE";
      total_keys = stats.total_keys;
      primary_keys = stats.primary_keys;
      replica_keys = stats.replica_keys;
      hit_count = stats.hit_count;
      miss_count = stats.miss_count;
      set_count = stats.set_count;
      delete_count = stats.delete_count;
      expired_count = stats.expired_count;
      replication_stats = Replication.stats s.replicator;
      failover_stats = Failover.stats s.router;
      uptime_seconds = stats.uptime_seconds;
    })

-- A node that binds to every address calls itself localhost.
unfoldable pub self_address : String → ℤ → String
self_address host port =
    if holds (text_discrete host "0.0.0.0")
    then "http://localhost:" ++ format_int port
    else "http://" ++ host ++ ":" ++ format_int port

unfoldable pub handle_internal_health : Node → Method → ℕ → Response InternalHealth
unfolding self_address
handle_internal_health s method now =
    let stats = Cache.stats s.cache now in
    on_get method (record {
      status = "UP";
      node_id = s.node_id;
      state = "ALIVE";
      addr = self_address s.host s.port;
      primary_keys = stats.primary_keys;
      replica_keys = stats.replica_keys;
      hit_count = stats.hit_count;
      uptime_seconds = stats.uptime_seconds;
    })

unfoldable pub handle_internal_stats : Node → Method → ℕ → Response InternalStats
handle_internal_stats s method now =
    let stats = Cache.stats s.cache now in
    on_get method (record {
      node_id = s.node_id;
      state = "ALIVE";
      total_keys = stats.total_keys;
      hit_count = stats.hit_count;
      miss_count = stats.miss_count;
      set_count = stats.set_count;
      delete_count = stats.delete_count;
      expired_count = stats.expired_count;
      uptime_seconds = stats.uptime_seconds;
    })

unfoldable pub handle_cluster : Node → Method → ℕ → Response ClusterView
handle_cluster s method now = on_get method (get_cluster_view s.monitor now)

unfoldable pub handle_debug_ring : Node → Method → Response RingTopology
handle_debug_ring s method = on_get method (get_topology s.ring)

pub record HotKeysResponse : Type 0 where
  pub node_id : String
  pub total_hot_keys : ℕ
  pub hot_keys : List HotKeyInfo

unfoldable pub handle_hot_keys : Node → Method → ℕ → Node × Response HotKeysResponse
handle_hot_keys s method now =
    let (d, infos) = get_hot_keys s.detector now in
    if is_get method
    then (
      record s { detector = d },
      replied 200 (record { node_id = s.node_id; total_hot_keys = length infos; hot_keys = infos }),
    )
    else (s, rejected 405)

abbrev routed : Routed → Response ReadResult
routed (served result) = replied 200 result
routed (refused e) = rejected 404

unfoldable pub handle_route_get :
    Node
    → Method
    → String
    → Network NodeGetPayload
    → Network NodeGetPayload
    → ℕ
    → ℕ
    → Node × Response ReadResult
handle_route_get s method key first second start finish =
    let (r, result) = route_get s.router s.ring s.monitor key first second start finish in
    if is_get method
    then (if is_blank key then (s, rejected 400) else (record s { router = r }, routed result))
    else (s, rejected 405)

-- The two lists of keys of handleDebugOwnedKeys.
pub record Owned : Type 0 where
  pub primary : List String
  pub replica : List String

abbrev pub sort_key : String → Option Item → Owned → Owned
sort_key key none owned = owned
sort_key key (some item) owned =
    if item.is_replica
    then record owned { replica = key ∷ owned.replica }
    else record owned { primary = key ∷ owned.primary }

-- One goroutine reads the cache, with nobody in between.
abbrev pub alone : Cache → Cache
alone c = c

unfoldable pub owned_keys : Cache → List String → (String → ℕ) → Cache × Owned
owned_keys c [] at = (c, record { primary = []; replica = [] })
owned_keys c (key ∷ rest) at =
    let (c', found) = get alone c key (at key) (at key) in
    let (c'', owned) = owned_keys c' rest at in (c'', sort_key key found owned)

pub record OwnedKeysResponse : Type 0 where
  pub node_id : String
  pub total_keys : ℕ
  pub primary_keys : List String
  pub replica_keys : List String

unfoldable pub handle_debug_owned_keys :
    Node → Method → ℕ → (String → ℕ) → Node × Response OwnedKeysResponse
unfolding owned_keys
handle_debug_owned_keys s method now at =
    let all = keys s.cache now in
    let (c, owned) = owned_keys s.cache all at in
    if is_get method
    then (
      record s { cache = c },
      replied 200 (record {
        node_id = s.node_id;
        total_keys = length all;
        primary_keys = owned.primary;
        replica_keys = owned.replica;
      }),
    )
    else (s, rejected 405)
