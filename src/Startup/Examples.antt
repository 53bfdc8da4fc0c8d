-- ===== src/Startup/Examples.antt =====
-- A node that starts, stores a key, finds a peer with another key, and is read.
use shc.Base.{ℕ, suc, ◌<◌, ◌≡◌, arith, refl, length, [], ◌∷◌, false, some}
use shc.Base.Int.{pos}
use shc.Http.{no_response, answered}
use shc.Cluster.{Surroundings}
use shc.Config.{NodeConfig}
use shc.Rebalancing.{DumpItem}
use shc.Server.Examples.{request}
use shc.Server.Requests.{get_method, post_method, is_blank, replied}
use shc.Base.{text_discrete, ℕ_discrete}
use shc.Base.Words.{seconds}
use shc.Base.Texts.{split_once, trim_space, format_int}
use shc.Server.Status.{self_address}
use shc.Cache
use shc.Cache.{get, set_with_metadata}
use shc.Cache.Items.{is_expired}
use shc.Rebalancing.{sync_from_peer, new_manager}
use shc.Cluster.{check_all_peers}
use shc.Base.Sort.{sort, binary_search}
use shc.Base.GoMap.{lookup, insert}
use shc.Hashing
use shc.Hashing.{get_nodes, add_node, place_vnodes}
use shc.Server.Setup.{add_peers, read_peers}
use shc.Server.{Node, handle_set, handle_get}
use shc.Server.Setup.{new_server}
use shc.Server.Locate.{LocateResponse, IsLocation, handle_debug_locate}
use shc.Server.Soundness.{stores, reads, serve, run}
use shc.Startup.{boot, restore, discover}
use shc.Startup.Nodes.{boot-handle_debug_locate}

abbrev cfg : NodeConfig
cfg = record {
  node_id = "a";
  host_id = "EC2-A";
  host = "10.0.0.1";
  port = pos 8001;
  peers = "b=http://b" ∷ [];
  cleanup_interval = pos 1000000000;
  ping_timeout = pos 2000000000;
  heartbeat_interval = pos 1000000000;
  suspect_timeout = pos 2000000000;
  fail_timeout = pos 4000000000;
  hotkey_window = pos 5000000000;
  hotkey_threshold = 20;
}

abbrev w : Surroundings
w = record {
  health = λ url. answered 200 (
      some (record {
        status = "UP";
        node_id = "b";
        state = "ALIVE";
        addr = "http://b";
        primary_keys = 1;
        replica_keys = 0;
        hit_count = 0;
        uptime_seconds = 5;
      }));
  stats = λ url. no_response;
  latency = λ peer. 1;
  clock = λ peer. 30;
}

abbrev item : DumpItem
item = record { key = "other"; value = "eve"; version = 2; is_replica = false; ttl_seconds = pos 0 }

abbrev started : Node
started =
    run
      (discover (run (boot (λ s. 5) cfg 10 (λ id. 10)) (stores post_method request 12 ∷ []))
        ("http://b" ∷ []) w (λ url. answered 200 (some (item ∷ []))) (λ key. 40))
      (reads get_method "user" 50 50 51 52 ∷ [])

not_blank : is_blank "user" ≡ false
unfolding is_blank
not_blank = refl

positive : {n k : ℕ} → n ≡ suc k → 0 < n
positive e = omega arith

placed : 0 < length started.ring.ring
unfolding run serve discover restore boot new_server handle_set handle_get add_node Hashing.new sort
    place_vnodes add_peers read_peers lookup text_discrete insert is_blank get check_all_peers
    sync_from_peer get_nodes split_once trim_space self_address format_int ℕ_discrete binary_search
    new_manager set_with_metadata Cache.new is_expired seconds
placed = positive refl

boot-handle_debug_locate_example :
    (body : LocateResponse) × (handle_debug_locate started get_method "user"
      ≡ some (replied 200 body))
    × IsLocation started "user" body
boot-handle_debug_locate_example =
    boot-handle_debug_locate (λ s. 5) cfg 10 (λ id. 10) (λ key. 40)
      (stores post_method request 12 ∷ []) (reads get_method "user" 50 50 51 52 ∷ [])
      ("http://b" ∷ []) w (λ url. answered 200 (some (item ∷ []))) "user" placed not_blank
