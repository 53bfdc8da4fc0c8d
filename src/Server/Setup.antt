-- ===== src/Server/Setup.antt =====
-- backend/internal/server/server.go: New, which puts the components of a node together from its
-- configuration. Timeouts of the HTTP clients and the handler of the mux are not in the model.
use shc.Base.{ℕ, String, List, [], ◌∷◌, Option, none, some, if◌then◌else◌}
use shc.Base.Int.{ℤ, pos, leb_ℤ}
use shc.Base.Texts.{trim_space, split_once}
use shc.Base.GoMap.{GoMap, text_comparable, insert}
use shc.Cache.{Cache}
use shc.Hashing
use shc.Hashing.{HashFunc, HashRing, add_node}
use shc.Cluster.{new_peer_manager}
use shc.Health.{new_monitor}
use shc.Failover.{new_router}
use shc.Replication.{new_replicator}
use shc.Rebalancing.{new_manager}
use shc.HotKey.{new_detector}
use shc.Server.{Node}
use shc.Server.Status.{self_address}

pub record Config : Type 0 where
  pub node_id : String
  pub host : String
  pub port : ℤ
  pub peers : List String
  pub vnodes : ℤ
  pub heartbeat_interval : ℤ
  pub suspect_timeout : ℤ
  pub fail_timeout : ℤ
  pub hotkey_window : ℤ
  pub hotkey_threshold : ℕ

-- An entry of the list of peers: `id=addr`, or an address that is its own name.
abbrev pub peer_of : String → Option (String × String) → String × String
peer_of entry none = (entry, entry)
peer_of entry (some (id, addr)) = (trim_space id, trim_space addr)

-- 61 is the sign `=`.
unfoldable pub read_peer : String → String × String
read_peer entry = peer_of entry (split_once 61 entry)

-- The loop over the peers: their addresses, and the map from their names.
unfoldable pub read_peers : List String → GoMap String String → List String × GoMap String String
unfolding read_peer
read_peers [] known = ([], known)
read_peers (entry ∷ rest) known =
    let (id, addr) = read_peer entry in
    let (addrs, all) = read_peers rest (insert id addr known) in (addr ∷ addrs, all)

-- The loop that adds the peers to the ring, in the order of the map.
unfoldable pub add_peers : HashRing → GoMap String String → HashRing
add_peers ring [] = ring
add_peers ring ((id, addr) ∷ rest) = add_peers (add_node ring id addr) rest

-- `default_hash` is the hash of hashing.New, and `clock` the readings of health.NewMonitor.
unfoldable pub new_server : HashFunc → Config → Cache → (String → ℕ) → Node
unfolding read_peers add_peers
new_server default_hash cfg c clock =
    let self_addr = self_address cfg.host cfg.port in
    let (addrs, known) = read_peers cfg.peers [] in
    let vnodes = if leb_ℤ cfg.vnodes (pos 0) then pos 50 else cfg.vnodes in
    record {
      node_id = cfg.node_id;
      host = cfg.host;
      port = cfg.port;
      cache = c;
      peers = new_peer_manager cfg.node_id self_addr addrs (pos 2000000000);
      ring =
          add_peers (add_node (Hashing.new default_hash vnodes none) cfg.node_id self_addr) known;
      replicator = new_replicator;
      monitor =
          new_monitor
            (record {
              self_node_id = cfg.node_id;
              self_addr = self_addr;
              peers = known;
              heartbeat_interval = cfg.heartbeat_interval;
              suspect_timeout = cfg.suspect_timeout;
              fail_timeout = cfg.fail_timeout;
            })
            clock;
      router = new_router;
      manager = new_manager cfg.node_id self_addr;
      detector =
          new_detector (record {
            window_duration = cfg.hotkey_window;
            threshold_count = cfg.hotkey_threshold;
          });
    }
