-- ===== src/Rebalancing/Examples.antt =====
-- A dump of two items, and a new node that takes a key over.
use shc.Base.{
  length, ◌+◌, ◌-◌, ◌≤◌, ◌<◌, ◌≡◌, refl, ◌⊎◌, inl, List, [], ◌∷◌, none, some, Bool, true, false,
  arith, In, text_discrete,
}
use shc.Base.Words.{second}
use shc.Base.GoMap.{text_comparable, lookup}
use shc.Cache.{Cache, keys, active_keys}
use shc.Cache.Items.{Item, is_expired}
use shc.Cache.Views.{visible, unexpired}
use shc.Hashing.{add_node, get_nodes, get_primary_node}
use shc.Hashing.Examples.{two_nodes, two_nodes-IsOrdered, c-absent, c-room}
use shc.Hashing.Invariant.{cleared}
use shc.Rebalancing.{
  Manager, rebalance_for_new_node, ingest_bulk_keys, DumpItem, dump_item, load_item,
  keys_to_migrate, adopt_items,
}
use shc.Rebalancing.Transfer.{EndsNear, load_item-dump_item}
use shc.Rebalancing.Ingest.{ingest_bulk_keys-last}
use shc.Http.{answered}
use shc.Rebalancing.Reports.{Outcome, rebalance_for_new_node-Outcome}
use shc.Rebalancing.Moves.{rebalance_moves}
use shc.Rebalancing.Adoption.{FirstIs, SecondIs, IsAdopted, last_item, Holds, adopt_items-last}

abbrev ada : Item
ada = record {
  key = "user:123456";
  value = "ada";
  created_at = 10;
  expires_at = 5500000000;
  version = 2;
  is_replica = false;
}

abbrev empty : Cache
empty = record {
  items = [];
  hit_count = 0;
  miss_count = 0;
  set_count = 0;
  delete_count = 0;
  expired_count = 0;
  start_time = 0;
  stopped = false;
}

abbrev one_item : Cache
one_item = record empty { items = ("user:123456", ada) ∷ []; set_count = 1 }

load_item-dump_item_example :
    let sent = dump_item ada 1000000000 false in
    (copy : Item) × (lookup "user:123456" (load_item empty sent false 20).items ≡ some copy)
    × (copy.key ≡ "user:123456")
    × (copy.value ≡ "ada")
    × (copy.version ≡ 2)
    × (copy.is_replica ≡ false)
    × (1000000000 + second ≤ ada.expires_at
        → EndsNear (ada.expires_at - 1000000000) 20 copy.expires_at)
    × (ada.expires_at < 1000000000 + second → copy.expires_at ≡ 0)
load_item-dump_item_example =
    load_item-dump_item empty ada 1000000000 20 (omega arith) (omega arith)

ada-listed : In "user:123456" (keys one_item 20)
unfolding keys active_keys
ada-listed = inl refl

ada-visible : visible one_item "user:123456" 20 ≡ some ada
unfolding lookup text_discrete unexpired is_expired
ada-visible = refl

rebalance_moves_example :
    let ring' = add_node two_nodes "ccc" "http://c" in
    (get_primary_node ring' "user:123456"
      ≡ get_primary_node (cleared two_nodes "ccc" "http://c") "user:123456")
    ⊎ In
        (dump_item ada 20 false)
        (keys_to_migrate "ccc" ring' one_item (keys one_item 20) (λ k. 20) (λ k. 20)).1
rebalance_moves_example =
    rebalance_moves two_nodes one_item "ccc" "http://c" "user:123456" 20 (λ k. 20) (λ k. 20) ada
      two_nodes-IsOrdered c-absent c-room ((λ n. n), tt) ada-listed ada-visible

abbrev dump : List DumpItem
dump = dump_item ada 20 false ∷ dump_item (record ada { value = "eve"; version = 1 }) 20 false ∷ []

adopt_items-last_example :
    let nodes = get_nodes two_nodes "user:123456" 2 in
    let entry = lookup "user:123456" (adopt_items "a" two_nodes one_item dump (λ k. 30)).0.items in
    ((x : DumpItem)
      → FirstIs "a" nodes ⊎ SecondIs "a" nodes
      → last_item "user:123456" dump ≡ some x
      → (is_replica : Bool) × IsAdopted entry x is_replica
        × (is_replica ≡ true → SecondIs "a" nodes)
        × (SecondIs "a" nodes → is_replica ≡ true))
    × (((¬ FirstIs "a" nodes) × (¬ SecondIs "a" nodes)) ⊎ (last_item "user:123456" dump ≡ none)
        → entry ≡ lookup "user:123456" one_item.items)
adopt_items-last_example = adopt_items-last "a" two_nodes one_item dump (λ k. 30) "user:123456"

ingest_bulk_keys-last_example :
    ((ingest_bulk_keys one_item dump (λ k. 30)).1 ≡ 2)
    × ((x : DumpItem)
        → last_item "user:123456" dump ≡ some x
        → Holds (lookup "user:123456" (ingest_bulk_keys one_item dump (λ k. 30)).0.items) x)
    × (last_item "user:123456" dump ≡ none
        → lookup "user:123456" (ingest_bulk_keys one_item dump (λ k. 30)).0.items ≡ some ada)
unfolding lookup text_discrete
ingest_bulk_keys-last_example = ingest_bulk_keys-last one_item dump (λ k. 30) "user:123456"

abbrev manager : Manager
manager = record { self_node_id = "a"; self_addr = "http://a"; reports = [] }

rebalance_for_new_node-Outcome_example :
    let r =
      rebalance_for_new_node manager two_nodes one_item "ccc" "http://c"
        (λ url payload. answered 200 (some (some "{}")))
        20
        (λ k. 20)
        (λ k. 20)
        20
        30
        40 in
    (r.ring ≡ add_node two_nodes "ccc" "http://c")
    × Outcome manager
        (keys_to_migrate "ccc"
          (add_node two_nodes "ccc" "http://c")
          one_item
          (keys one_item 20)
          (λ k. 20)
          (λ k. 20)).1
        (answered 200 (some (some "{}")))
        (length (keys one_item 20))
        r
rebalance_for_new_node-Outcome_example =
    rebalance_for_new_node-Outcome manager two_nodes one_item "ccc" "http://c"
      (λ url payload. answered 200 (some (some "{}"))) 20 (λ k. 20) (λ k. 20) 20 30 40
