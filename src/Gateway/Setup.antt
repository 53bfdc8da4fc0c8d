-- ===== src/Gateway/Setup.antt =====
-- backend/internal/gateway/gateway.go: New. The timeouts of the server and the opening of the
-- database are not in the model: the database is an argument.
use Prim.Native.String.{◌++◌}
use shc.Base.{ℕ, String, List, [], ◌∷◌, Option, none, some, if◌then◌else◌}
use shc.Base.Int.{ℤ, pos, is_positive}
use shc.Base.Texts.{is_empty, trim_space, split_once, format_int}
use shc.Base.GoMap.{GoMap, text_comparable, insert}
use shc.Hashing
use shc.Hashing.{HashFunc, HashRing, add_node}
use shc.Health.{new_monitor}
use shc.Failover.{new_router}
use shc.Gateway.{Gateway}

pub record Config : Type 0 where
  pub port : ℤ
  pub host : String
  pub nodes : List String
  pub vnodes : ℤ
  pub heartbeat_interval : ℤ
  pub suspect_timeout : ℤ
  pub fail_timeout : ℤ
  pub request_timeout : ℤ

abbrev or_default : ℤ → ℕ → ℤ
or_default n default = if is_positive n then n else pos default

abbrev pub add_entry :
    Option (String × String) → HashRing × GoMap String String → HashRing × GoMap String String
add_entry none (ring, peers) = (ring, peers)
add_entry (some (id, addr)) (ring, peers) = (
  add_node ring (trim_space id) (trim_space addr),
  insert (trim_space id) (trim_space addr) peers,
)

-- The loop over the nodes, `id=addr` each; 61 is the sign `=`. An entry without it is skipped.
unfoldable pub register_nodes :
    List String → HashRing × GoMap String String → HashRing × GoMap String String
register_nodes [] known = known
register_nodes (entry ∷ rest) known = register_nodes rest (add_entry (split_once 61 entry) known)

-- `default_hash` is the hash of hashing.New, and `clock` the readings of health.NewMonitor.
unfoldable pub new_gateway : {S : Type 0} → HashFunc → Config → Option S → (String → ℕ) → Gateway S
unfolding register_nodes
new_gateway default_hash cfg db clock =
    let vnodes = or_default cfg.vnodes 50 in
    let (ring, peers) = register_nodes cfg.nodes (Hashing.new default_hash vnodes none, []) in
    record {
      addr =
          (if is_empty cfg.host then "0.0.0.0" else cfg.host)
          ++ ":"
          ++ format_int (or_default cfg.port 8000);
      port = or_default cfg.port 8000;
      request_timeout = or_default cfg.request_timeout 2000000000;
      vnodes = vnodes;
      hash_ring = ring;
      health_monitor =
          new_monitor
            (record {
              self_node_id = "gateway-router";
              self_addr = "";
              peers = peers;
              heartbeat_interval = or_default cfg.heartbeat_interval 500000000;
              suspect_timeout = or_default cfg.suspect_timeout 1000000000;
              fail_timeout = or_default cfg.fail_timeout 2000000000;
            })
            clock;
      failover = new_router;
      db = db;
    }
