-- ===== src/Server/Soundness.antt =====
-- The requests of a node one after the other: what they keep of its cache, its ring and its peers.
pub mod Parts
pub mod Handlers
pub mod Runs
use shc.Base.{
  ℕ, String, List, [], ◌∷◌, Option, none, some, Bool, true, false, ◌≡◌, refl, sym, subst, inl, inr,
  Distinct, Bool-cases, if◌then◌else◌, not, ◌&&◌, ◌||◌, holds, text_discrete,
}
use shc.Base.GoMap.{GoMap, text_comparable, insert}
use shc.Base.GoMap.Laws.{insert-Distinct}
use Prim.Native.String.{◌++◌}
use shc.Http.{Network, Failure, fetch_json}
use shc.Cache.{Cache, set_with_metadata, get, remove, keys}
use shc.Cache.Views.{IsValid}
use shc.Cache.History.{get-IsValid, step-IsValid, removes, step}
use shc.Hashing.{HashFunc, HashRing, add_node, get_nodes}
use shc.Hashing.Invariant.{IsOrdered, add_node-IsOrdered, new-IsOrdered}
use shc.Failover.{NodeGetPayload}
use shc.Cluster.{PeerStatus, Surroundings, check_all_peers}
use shc.Cluster.Reports.{
  IsTracked, Result-cases, check_all_peers-IsTracked, new_peer_manager-IsTracked,
}
use shc.Rebalancing.{
  DumpItem, BulkSyncPayload, dump_keys, dump_local_keys, load_item, ingest_bulk_keys,
  keys_to_migrate, role, adopt_items, sync_from_peer, Manager, RebalanceReport, finish_rebalance,
  rebalance_for_new_node, transfer,
}
use shc.Replication.{ReplicatePayload}
use shc.Server.{
  Node, handle_set, handle_get, handle_delete, handle_internal_replicate,
  handle_internal_replicate_delete, set_request, answer_get, serve_item, delete_request, delete_key,
}
use shc.Server.Requests.{Method, is_get, is_post, is_delete, is_blank, is_empty, SetRequest}
use shc.Server.Recovery.{
  handle_internal_dump, handle_internal_sync_bulk, handle_internal_rebalance, handle_internal_peers,
  NewNode, Transfer, join_peers,
}
use shc.Server.Status.{handle_hot_keys, handle_route_get, handle_debug_owned_keys, owned_keys}
use shc.Server.Setup.{Config, read_peers, add_peers, new_server}
use shc.Cache.Items.{Item}
use shc.Server.Data.{alone}

-- The requests that change a node, with what the clock and the network answer to each, and the
-- synchronisation from a peer that a node makes when it starts.
pub data Request : Type 0 where
  stores : Method → SetRequest → ℕ → Request
  reads : Method → String → ℕ → ℕ → ℕ → ℕ → Request
  deletes : Method → String → Option String → Request
  replicates : Method → Option ReplicatePayload → ℕ → Request
  replica_deletes : Method → String → Request
  dumps : Method → ℕ → (String → ℕ) → (String → ℕ) → Request
  bulk_syncs : Method → Option BulkSyncPayload → (String → ℕ) → Request
  rebalances : Method → Option NewNode → Transfer → Request
  looks_at_peers : Method → String → List String → Surroundings → Request
  shows_hot_keys : Method → ℕ → Request
  routes : Method → String → Network NodeGetPayload → Network NodeGetPayload → ℕ → ℕ → Request
  shows_owned_keys : Method → ℕ → (String → ℕ) → Request
  synchronises : String → Network (List DumpItem) → (String → ℕ) → Request

unfoldable pub serve : Node → Request → Node
serve s (stores method req now) = (handle_set s method req now).0
serve s (reads method key at later now until) = (handle_get alone s method key at later now until).0
serve s (deletes method key body) = (handle_delete s method key body).0
serve s (replicates method req now) = (handle_internal_replicate s method req now).0
serve s (replica_deletes method key) = (handle_internal_replicate_delete s method key).0
serve s (dumps method now at until) = (handle_internal_dump s method now at until).0
serve s (bulk_syncs method payload clock) = (handle_internal_sync_bulk s method payload clock).0
serve s (rebalances method req w) = (handle_internal_rebalance s method req w).0
serve s (looks_at_peers method refresh order w) = (handle_internal_peers s method refresh order w).0
serve s (shows_hot_keys method now) = (handle_hot_keys s method now).0
serve s (routes method key first second start finish) =
    (handle_route_get s method key first second start finish).0
serve s (shows_owned_keys method now at) = (handle_debug_owned_keys s method now at).0
serve s (synchronises addr network clock) = record s {
  cache = (sync_from_peer s.manager s.ring s.cache addr network clock).0;
}

unfoldable pub run : Node → List Request → Node
unfolding serve
run s [] = s
run s (r ∷ rest) = run (serve s r) rest

pub record IsSound (s : Node) : Type 0 where
  pub cache : IsValid s.cache
  pub ring : IsOrdered s.ring
  pub peers : IsTracked s.peers
