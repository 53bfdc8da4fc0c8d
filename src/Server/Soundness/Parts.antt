-- ===== src/Server/Soundness/Parts.antt =====
-- backend/internal/server/server.go: what the loops inside the handlers keep.
use shc.Base.{
  ℕ, String, List, [], ◌∷◌, Option, none, some, Bool, true, false, ◌≡◌, refl, inl, inr,
  if◌then◌else◌, not, ◌&&◌,
}
use shc.Base.GoMap.{GoMap, text_comparable}
use shc.Base.GoMap.Laws.{insert-Distinct}
use Prim.Native.String.{◌++◌}
use shc.Http.{Network, Failure, fetch_json}
use shc.Cache.{Cache, set_with_metadata, get, remove}
use shc.Cache.Views.{IsValid}
use shc.Cache.History.{get-IsValid, step-IsValid, removes, step}
use shc.Hashing.{HashRing, add_node, get_nodes}
use shc.Hashing.Invariant.{IsOrdered, add_node-IsOrdered}
use shc.Cluster.{PeerStatus}
use shc.Cluster.Reports.{Result-cases}
use shc.Rebalancing.{
  DumpItem, dump_keys, load_item, ingest_bulk_keys, keys_to_migrate, role, adopt_items,
  sync_from_peer, Manager, RebalanceReport, finish_rebalance,
}
use shc.Server.{Node}
use shc.Server.Requests.{is_empty}
use shc.Server.Recovery.{join_peers}
use shc.Server.Status.{owned_keys}
use shc.Server.Data.{alone}

pub remove-IsValid : (c : Cache) (key : String) → IsValid c → IsValid (remove c key).0
unfolding step
remove-IsValid c key v = step-IsValid c 0 (removes key) v

pub load_item-IsValid :
    (c : Cache) (x : DumpItem) (is_replica : Bool) (now : ℕ)
    → IsValid c
    → IsValid (load_item c x is_replica now)
unfolding set_with_metadata
load_item-IsValid c x is_replica now v = insert-Distinct x.key _ c.items v

pub dump_keys-IsValid :
    (c : Cache) (ks : List String) (at until : String → ℕ)
    → IsValid c
    → IsValid (dump_keys c ks at until).0
unfolding dump_keys
dump_keys-IsValid c [] at until v = v
dump_keys-IsValid c (k ∷ ks) at until v =
    dump_keys-IsValid (get alone c k (at k) (at k)).0 ks at until (get-IsValid c k (at k) (at k) v)

pub ingest_bulk_keys-IsValid :
    (c : Cache) (items : List DumpItem) (clock : String → ℕ)
    → IsValid c
    → IsValid (ingest_bulk_keys c items clock).0
unfolding ingest_bulk_keys
ingest_bulk_keys-IsValid c [] clock v = v
ingest_bulk_keys-IsValid c (x ∷ items) clock v =
    ingest_bulk_keys-IsValid (load_item c x x.is_replica (clock x.key)) items clock
      (load_item-IsValid c x x.is_replica (clock x.key) v)

pub either-IsValid : (b : Bool) (c d : Cache) → IsValid c → IsValid d → IsValid (if b then c else d)
either-IsValid true c d v w = v
either-IsValid false c d v w = w

pub adopt_items-IsValid :
    (self : String) (ring : HashRing) (items : List DumpItem) (c : Cache) (clock : String → ℕ)
    → IsValid c
    → IsValid (adopt_items self ring c items clock).0
unfolding adopt_items
adopt_items-IsValid self ring [] c clock v = v
adopt_items-IsValid self ring (x ∷ items) c clock v = adopt_items-IsValid self ring items _ clock (
    either-IsValid _ (load_item c x (role self (get_nodes ring x.key 2)).is_replica (clock x.key)) c
      (load_item-IsValid c x (role self (get_nodes ring x.key 2)).is_replica (clock x.key) v) v)

pub sync_from_peer-IsValid :
    (s : Node) (addr : String) (network : Network (List DumpItem)) (clock : String → ℕ)
    → IsValid s.cache
    → IsValid (sync_from_peer s.manager s.ring s.cache addr network clock).0
unfolding sync_from_peer
sync_from_peer-IsValid s addr network clock v =
    elim (Result-cases (fetch_json (network (addr ++ "/internal/dump")))) [
      | inl (items, e) ↦
          rw e (adopt_items-IsValid s.manager.self_node_id s.ring items s.cache clock v)
      | inr (f, e) ↦ rw e v
    ]

pub keys_to_migrate-IsValid :
    (node_id : String) (ring : HashRing) (ks : List String) (c : Cache) (at until : String → ℕ)
    → IsValid c
    → IsValid (keys_to_migrate node_id ring c ks at until).0
unfolding keys_to_migrate
keys_to_migrate-IsValid node_id ring [] c at until v = v
keys_to_migrate-IsValid node_id ring (k ∷ ks) c at until v =
    keys_to_migrate-IsValid node_id ring ks _ at until
      (either-IsValid _ (get alone c k (at k) (at k)).0 c (get-IsValid c k (at k) (at k) v) v)

pub owned_keys-IsValid :
    (c : Cache) (ks : List String) (at : String → ℕ) → IsValid c → IsValid (owned_keys c ks at).0
unfolding owned_keys
owned_keys-IsValid c [] at v = v
owned_keys-IsValid c (k ∷ ks) at v =
    owned_keys-IsValid (get alone c k (at k) (at k)).0 ks at (get-IsValid c k (at k) (at k) v)

pub join_peers-IsOrdered :
    (statuses : GoMap String PeerStatus) (ring : HashRing)
    → IsOrdered ring
    → IsOrdered (join_peers ring statuses)
unfolding join_peers
join_peers-IsOrdered [] ring o = o
join_peers-IsOrdered ((addr, status) ∷ rest) ring o =
    join_peers-IsOrdered rest _ (joined (status.reachable && not (is_empty status.node_id)))
  where
    joined : (b : Bool) → IsOrdered (if b then add_node ring status.node_id addr else ring)
    joined true = add_node-IsOrdered ring status.node_id addr o
    joined false = o

pub finish_rebalance-kept :
    (failure : Option Failure) (m : Manager) (ring : HashRing) (c : Cache)
    (report : RebalanceReport)
    → let r = finish_rebalance failure m ring c report in (r.ring ≡ ring) × (r.cache ≡ c)
unfolding finish_rebalance
finish_rebalance-kept none m ring c report = (refl, refl)
finish_rebalance-kept (some e) m ring c report = (refl, refl)
