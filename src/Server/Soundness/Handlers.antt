-- ===== src/Server/Soundness/Handlers.antt =====
-- backend/internal/server/server.go: a handler keeps a node sound.
use shc.Base.{
  ℕ, String, List, Option, none, some, sym, subst, inl, inr, Bool-cases, ◌||◌, holds, text_discrete,
}
use shc.Base.GoMap.{text_comparable}
use shc.Base.GoMap.Laws.{insert-Distinct}
use shc.Http.{Network}
use shc.Cache.{Cache, set_with_metadata, keys}
use shc.Cache.Views.{IsValid}
use shc.Cache.History.{get-IsValid}
use shc.Hashing.{add_node}
use shc.Hashing.Invariant.{IsOrdered, add_node-IsOrdered}
use shc.Failover.{NodeGetPayload}
use shc.Cluster.{Surroundings, check_all_peers}
use shc.Cluster.Reports.{check_all_peers-IsTracked}
use shc.Rebalancing.{BulkSyncPayload, dump_local_keys, keys_to_migrate, rebalance_for_new_node}
use shc.Replication.{ReplicatePayload}
use shc.Server.{
  Node, handle_set, handle_get, handle_delete, handle_internal_replicate,
  handle_internal_replicate_delete, set_request, answer_get, serve_item, delete_request, delete_key,
}
use shc.Server.Requests.{Method, is_get, is_post, is_delete, is_blank, is_empty, SetRequest}
use shc.Server.Recovery.{
  handle_internal_dump, handle_internal_sync_bulk, handle_internal_rebalance, handle_internal_peers,
  NewNode, Transfer,
}
use shc.Server.Status.{handle_hot_keys, handle_route_get, handle_debug_owned_keys}
use shc.Cache.Items.{Item}
use shc.Server.Data.{alone}
use shc.Server.Soundness.{IsSound}
use shc.Server.Soundness.Parts.{
  remove-IsValid, dump_keys-IsValid, ingest_bulk_keys-IsValid, keys_to_migrate-IsValid,
  owned_keys-IsValid, join_peers-IsOrdered, finish_rebalance-kept,
}

pub handle_internal_rebalance-IsSound :
    (s : Node) (method : Method) (req : Option NewNode) (w : Transfer)
    → IsSound s
    → IsSound (handle_internal_rebalance s method req w).0
unfolding handle_internal_rebalance rebalance_for_new_node
handle_internal_rebalance-IsSound s method none w v = elim (Bool-cases (is_post method)) [
  | inl e ↦ rw e v
  | inr e ↦ rw e v
]
handle_internal_rebalance-IsSound s method (some req) w v = elim (Bool-cases (is_post method)) [
  | inr e ↦ rw e v
  | inl e ↦ rw e (elim (Bool-cases (is_empty req.node_id || is_empty req.addr)) [
    | inl b ↦ rw b v
    | inr b ↦ rw b (
        let ring = add_node s.ring req.node_id req.addr in
        let (same_ring, same_cache) =
          finish_rebalance-kept _ s.manager ring
            (keys_to_migrate req.node_id ring s.cache (keys s.cache w.now) w.at w.until).0 _ in
        record {
          cache = subst IsValid (sym same_cache) (
              keys_to_migrate-IsValid req.node_id ring (keys s.cache w.now) s.cache w.at w.until
                v.cache);
          ring =
              subst IsOrdered (sym same_ring)
                (add_node-IsOrdered s.ring req.node_id req.addr v.ring);
          peers = v.peers;
        })
  ])
]

pub handle_internal_peers-IsSound :
    (s : Node) (method : Method) (refresh : String) (order : List String) (w : Surroundings)
    → IsSound s
    → IsSound (handle_internal_peers s method refresh order w).0
unfolding handle_internal_peers
handle_internal_peers-IsSound s method refresh order w v = elim (Bool-cases (is_get method)) [
  | inr e ↦ rw e v
  | inl e ↦ rw e (elim (Bool-cases (holds (text_discrete refresh "true"))) [
    | inr b ↦ rw b v
    | inl b ↦ rw b (record {
      cache = v.cache;
      ring = join_peers-IsOrdered (check_all_peers s.peers order w).1 s.ring v.ring;
      peers = check_all_peers-IsTracked s.peers order w v.peers;
    })
  ])
]

-- A changed cache, with the ring and the peers as they are.
pub cached : (s : Node) → IsSound s → {c : Cache} → IsValid c → IsSound (record s { cache = c })
cached s v w = record { cache = w; ring = v.ring; peers = v.peers }

pub handle_set-IsSound :
    (s : Node) (method : Method) (req : SetRequest) (now : ℕ)
    → IsSound s
    → IsSound (handle_set s method req now).0
unfolding handle_set set_request set_with_metadata
handle_set-IsSound s method req now v = elim (Bool-cases (is_post method)) [
  | inr e ↦ rw e v
  | inl e ↦ rw e (elim (Bool-cases (is_blank req.key)) [
    | inl b ↦ rw b v
    | inr b ↦ rw b (cached s v (insert-Distinct req.key _ s.cache.items v.cache))
  ])
]

pub answer_get-IsSound :
    (s : Node) (found : Option Item) (key : String) (now until : ℕ)
    → IsSound s
    → IsSound (answer_get s found key now until).0
unfolding answer_get serve_item
answer_get-IsSound s none key now until v = v
answer_get-IsSound s (some item) key now until v = record {
  cache = v.cache;
  ring = v.ring;
  peers = v.peers;
}

pub handle_get-IsSound :
    (s : Node) (method : Method) (key : String) (at later now until : ℕ)
    → IsSound s
    → IsSound (handle_get alone s method key at later now until).0
unfolding handle_get
handle_get-IsSound s method key at later now until v = elim (Bool-cases (is_get method)) [
  | inr e ↦ rw e v
  | inl e ↦ rw e (elim (Bool-cases (is_blank key)) [
    | inl b ↦ rw b v
    | inr b ↦ rw b (
        answer_get-IsSound _ _ key now until
          (cached s v (get-IsValid s.cache key at later v.cache)))
  ])
]

pub delete_request-IsSound :
    (s : Node) (key : String) → IsSound s → IsSound (delete_request s key).0
unfolding delete_request
delete_request-IsSound s key v = elim (Bool-cases (is_blank key)) [
  | inl b ↦ rw b v
  | inr b ↦ rw b (cached s v (remove-IsValid s.cache key v.cache))
]

pub handle_delete-IsSound :
    (s : Node) (method : Method) (key : String) (body : Option String)
    → IsSound s
    → IsSound (handle_delete s method key body).0
unfolding handle_delete
handle_delete-IsSound s method key body v = elim (Bool-cases (is_delete method || is_post method)) [
  | inr e ↦ rw e v
  | inl e ↦ rw e (delete_request-IsSound s (delete_key key body) v)
]

pub handle_internal_replicate-IsSound :
    (s : Node) (method : Method) (req : Option ReplicatePayload) (now : ℕ)
    → IsSound s
    → IsSound (handle_internal_replicate s method req now).0
unfolding handle_internal_replicate set_with_metadata
handle_internal_replicate-IsSound s method none now v = elim (Bool-cases (is_post method)) [
  | inr e ↦ rw e v
  | inl e ↦ rw e v
]
handle_internal_replicate-IsSound s method (some req) now v = elim (Bool-cases (is_post method)) [
  | inr e ↦ rw e v
  | inl e ↦ rw e (cached s v (insert-Distinct req.key _ s.cache.items v.cache))
]

pub handle_internal_replicate_delete-IsSound :
    (s : Node) (method : Method) (key : String)
    → IsSound s
    → IsSound (handle_internal_replicate_delete s method key).0
unfolding handle_internal_replicate_delete
handle_internal_replicate_delete-IsSound s method key v =
    elim (Bool-cases (is_delete method || is_post method)) [
      | inr e ↦ rw e v
      | inl e ↦ rw e (elim (Bool-cases (is_empty key)) [
        | inl b ↦ rw b v
        | inr b ↦ rw b (cached s v (remove-IsValid s.cache key v.cache))
      ])
    ]

pub handle_internal_dump-IsSound :
    (s : Node) (method : Method) (now : ℕ) (at until : String → ℕ)
    → IsSound s
    → IsSound (handle_internal_dump s method now at until).0
unfolding handle_internal_dump dump_local_keys
handle_internal_dump-IsSound s method now at until v = elim (Bool-cases (is_get method)) [
  | inr e ↦ rw e v
  | inl e ↦ rw e (cached s v (dump_keys-IsValid s.cache (keys s.cache now) at until v.cache))
]

pub handle_internal_sync_bulk-IsSound :
    (s : Node) (method : Method) (payload : Option BulkSyncPayload) (clock : String → ℕ)
    → IsSound s
    → IsSound (handle_internal_sync_bulk s method payload clock).0
unfolding handle_internal_sync_bulk
handle_internal_sync_bulk-IsSound s method none clock v = elim (Bool-cases (is_post method)) [
  | inr e ↦ rw e v
  | inl e ↦ rw e v
]
handle_internal_sync_bulk-IsSound s method (some payload) clock v =
    elim (Bool-cases (is_post method)) [
      | inr e ↦ rw e v
      | inl e ↦ rw e (cached s v (ingest_bulk_keys-IsValid s.cache payload.items clock v.cache))
    ]

pub handle_hot_keys-IsSound :
    (s : Node) (method : Method) (now : ℕ) → IsSound s → IsSound (handle_hot_keys s method now).0
unfolding handle_hot_keys
handle_hot_keys-IsSound s method now v = elim (Bool-cases (is_get method)) [
  | inr e ↦ rw e v
  | inl e ↦ rw e (record { cache = v.cache; ring = v.ring; peers = v.peers })
]

pub handle_route_get-IsSound :
    (s : Node) (method : Method) (key : String) (first second : Network NodeGetPayload)
    (start finish : ℕ)
    → IsSound s
    → IsSound (handle_route_get s method key first second start finish).0
unfolding handle_route_get
handle_route_get-IsSound s method key first second start finish v =
    elim (Bool-cases (is_get method)) [
      | inr e ↦ rw e v
      | inl e ↦ rw e (elim (Bool-cases (is_blank key)) [
        | inl b ↦ rw b v
        | inr b ↦ rw b (record { cache = v.cache; ring = v.ring; peers = v.peers })
      ])
    ]

pub handle_debug_owned_keys-IsSound :
    (s : Node) (method : Method) (now : ℕ) (at : String → ℕ)
    → IsSound s
    → IsSound (handle_debug_owned_keys s method now at).0
unfolding handle_debug_owned_keys
handle_debug_owned_keys-IsSound s method now at v = elim (Bool-cases (is_get method)) [
  | inr e ↦ rw e v
  | inl e ↦ rw e (cached s v (owned_keys-IsValid s.cache (keys s.cache now) at v.cache))
]
