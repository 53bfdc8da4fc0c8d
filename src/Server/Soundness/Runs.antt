-- ===== src/Server/Soundness/Runs.antt =====
-- backend/internal/server/server.go: New makes a sound node, and no request breaks it.
use shc.Base.{ℕ, String, List, [], ◌∷◌, none}
use shc.Base.GoMap.{GoMap, text_comparable}
use shc.Cache.{Cache}
use shc.Cache.Views.{IsValid}
use shc.Hashing.{HashFunc, HashRing, add_node}
use shc.Hashing.Invariant.{IsOrdered, add_node-IsOrdered, new-IsOrdered}
use shc.Cluster.Reports.{new_peer_manager-IsTracked}
use shc.Server.{Node}
use shc.Server.Setup.{Config, read_peers, add_peers, new_server}
use shc.Server.Soundness.{
  Request, stores, reads, deletes, replicates, replica_deletes, dumps, bulk_syncs, rebalances,
  looks_at_peers, shows_hot_keys, routes, shows_owned_keys, synchronises, serve, run, IsSound,
}
use shc.Server.Soundness.Parts.{sync_from_peer-IsValid}
use shc.Server.Soundness.Handlers.{
  handle_internal_rebalance-IsSound, handle_internal_peers-IsSound, cached, handle_set-IsSound,
  handle_get-IsSound, handle_delete-IsSound, handle_internal_replicate-IsSound,
  handle_internal_replicate_delete-IsSound, handle_internal_dump-IsSound,
  handle_internal_sync_bulk-IsSound, handle_hot_keys-IsSound, handle_route_get-IsSound,
  handle_debug_owned_keys-IsSound,
}

serve-IsSound : (s : Node) (r : Request) → IsSound s → IsSound (serve s r)
unfolding serve
serve-IsSound s (stores method req now) v = handle_set-IsSound s method req now v
serve-IsSound s (reads method key at later now until) v =
    handle_get-IsSound s method key at later now until v
serve-IsSound s (deletes method key body) v = handle_delete-IsSound s method key body v
serve-IsSound s (replicates method req now) v = handle_internal_replicate-IsSound s method req now v
serve-IsSound s (replica_deletes method key) v =
    handle_internal_replicate_delete-IsSound s method key v
serve-IsSound s (dumps method now at until) v = handle_internal_dump-IsSound s method now at until v
serve-IsSound s (bulk_syncs method payload clock) v =
    handle_internal_sync_bulk-IsSound s method payload clock v
serve-IsSound s (rebalances method req w) v = handle_internal_rebalance-IsSound s method req w v
serve-IsSound s (looks_at_peers method refresh order w) v =
    handle_internal_peers-IsSound s method refresh order w v
serve-IsSound s (shows_hot_keys method now) v = handle_hot_keys-IsSound s method now v
serve-IsSound s (routes method key first second start finish) v =
    handle_route_get-IsSound s method key first second start finish v
serve-IsSound s (shows_owned_keys method now at) v =
    handle_debug_owned_keys-IsSound s method now at v
serve-IsSound s (synchronises addr network clock) v =
    cached s v (sync_from_peer-IsValid s addr network clock v.cache)

pub run-IsSound : (s : Node) (rs : List Request) → IsSound s → IsSound (run s rs)
unfolding run
run-IsSound s [] v = v
run-IsSound s (r ∷ rs) v = run-IsSound (serve s r) rs (serve-IsSound s r v)

add_peers-IsOrdered :
    (ring : HashRing) (known : GoMap String String)
    → IsOrdered ring
    → IsOrdered (add_peers ring known)
unfolding add_peers
add_peers-IsOrdered ring [] o = o
add_peers-IsOrdered ring ((id, addr) ∷ rest) o =
    add_peers-IsOrdered (add_node ring id addr) rest (add_node-IsOrdered ring id addr o)

pub new_server-IsSound :
    (default_hash : HashFunc) (cfg : Config) (c : Cache) (clock : String → ℕ)
    → IsValid c
    → IsSound (new_server default_hash cfg c clock)
unfolding new_server
new_server-IsSound default_hash cfg c clock v = record {
  cache = v;
  ring =
      add_peers-IsOrdered _ (read_peers cfg.peers []).1
        (add_node-IsOrdered _ cfg.node_id _ (new-IsOrdered default_hash _ none));
  peers = new_peer_manager-IsTracked cfg.node_id _ (read_peers cfg.peers []).0 _;
}

-- A node that New makes, after any requests: the keys of its cache are distinct, its ring is sorted
-- with each position of a known node, and its map of statuses keeps to its peers.
new_server-run-IsSound :
    (default_hash : HashFunc) (cfg : Config) (c : Cache) (clock : String → ℕ) (rs : List Request)
    → IsValid c
    → IsSound (run (new_server default_hash cfg c clock) rs)
new_server-run-IsSound default_hash cfg c clock rs v =
    run-IsSound (new_server default_hash cfg c clock) rs
      (new_server-IsSound default_hash cfg c clock v)
