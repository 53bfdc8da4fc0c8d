-- ===== src/Startup.antt =====
-- backend/cmd/node/main.go, backend/cmd/router/main.go: what the two commands make of their flags and their
-- environment, and the synchronisation of a node that starts.
pub mod Nodes
pub mod Examples
use Prim.Native.String.{◌++◌}
use shc.Base.{ℕ, String, List, [], ◌∷◌, Option, none, some, Bool, true, false, if◌then◌else◌}
use shc.Base.Int.{ℤ, pos}
use shc.Base.Words.{second}
use shc.Base.GoMap.{GoMap}
use shc.Http.{Network}
use shc.Cache
use shc.Hashing.{HashFunc}
use shc.Cluster.{PeerStatus, Surroundings, check_all_peers}
use shc.Rebalancing.{DumpItem, sync_from_peer}
use shc.Config.{
  NodeConfig, Environment, ParseDuration, or_else, get_first_env, get_first_env_int, get_env_int,
  get_env_duration, read_peers,
}
use shc.Server.{Node}
use shc.Server.Setup as ServerSetup
use shc.Server.Setup.{new_server}
use shc.Gateway.Setup as GatewaySetup

-- The configuration of the server. The number of virtual nodes is not set, and the timeout of pings is
-- not passed on.
unfoldable pub server_config : NodeConfig → ServerSetup.Config
server_config cfg = record {
  node_id = cfg.node_id;
  host = cfg.host;
  port = cfg.port;
  peers = cfg.peers;
  vnodes = pos 0;
  heartbeat_interval = cfg.heartbeat_interval;
  suspect_timeout = cfg.suspect_timeout;
  fail_timeout = cfg.fail_timeout;
  hotkey_window = cfg.hotkey_window;
  hotkey_threshold = cfg.hotkey_threshold;
}

-- `now` is the reading of cache.New, `clock` are those of health.NewMonitor.
unfoldable pub boot : HashFunc → NodeConfig → ℕ → (String → ℕ) → Node
unfolding server_config
boot default_hash cfg now clock =
    new_server default_hash (server_config cfg) (Cache.new cfg.cleanup_interval now).0 clock

-- The loop over the results: the cache takes what a reachable peer has for this node.
unfoldable pub restore :
    Node → GoMap String PeerStatus → Network (List DumpItem) → (String → ℕ) → Node
restore s [] dumps clock = s
restore s ((addr, status) ∷ rest) dumps clock =
    restore
      (if status.reachable
        then record s { cache = (sync_from_peer s.manager s.ring s.cache addr dumps clock).0 }
        else s)
      rest dumps clock

-- The goroutine that a node with peers starts; `order` and `w` are those of CheckAllPeers.
unfoldable pub discover :
    Node → List String → Surroundings → Network (List DumpItem) → (String → ℕ) → Node
unfolding restore
discover s order w dumps clock =
    let (peers, results) = check_all_peers s.peers order w in
    restore (record s { peers = peers }) results dumps clock

unfoldable pub default_nodes : String
default_nodes =
    "node-a=http://127.0.0.1:8001,node-b=http://127.0.0.1:8002,node-c=http://127.0.0.1:8003,node-d=http://127.0.0.1:8004,node-e=http://127.0.0.1:8005,node-f=http://127.0.0.1:8006,node-g=http://127.0.0.1:8007,node-h=http://127.0.0.1:8008,node-i=http://127.0.0.1:8009"

pub record RouterFlags : Type 0 where
  pub port : Option ℤ
  pub host : Option String
  pub nodes : Option String
  pub vnodes : Option ℤ
  pub heartbeat : Option ℤ
  pub suspect : Option ℤ
  pub fail : Option ℤ
  pub timeout : Option ℤ

-- The router reads its environment with copies of the functions of package config.
unfoldable pub router_config : Environment → ParseDuration → RouterFlags → GatewaySetup.Config
unfolding get_first_env get_first_env_int get_env_int get_env_duration read_peers default_nodes
router_config env parse_duration flags =
    let duration = get_env_duration env parse_duration in
    record {
      port = or_else flags.port (get_first_env_int env ("ROUTER_PORT" ∷ "PORT" ∷ []) (pos 8000));
      host = or_else flags.host (get_first_env env ("ROUTER_HOST" ∷ "HOST" ∷ []) "0.0.0.0");
      nodes = read_peers (
          or_else flags.nodes (
            get_first_env env ("GATEWAY_NODES" ∷ "CACHE_NODES" ∷ "ALL_CACHE_NODES" ∷ [])
              default_nodes));
      vnodes = or_else flags.vnodes (get_env_int env "VNODES" (pos 50));
      heartbeat_interval = or_else flags.heartbeat (duration "HEARTBEAT_INTERVAL" (pos 500000000));
      suspect_timeout = or_else flags.suspect (duration "SUSPECT_TIMEOUT" (pos second));
      fail_timeout = or_else flags.fail (duration "FAIL_TIMEOUT" (pos 2000000000));
      request_timeout = or_else flags.timeout (duration "REQUEST_TIMEOUT" (pos 2000000000));
    }
