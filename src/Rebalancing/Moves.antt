-- ===== src/Rebalancing/Moves.antt =====
-- Rebalancing for a new node against the change of the ring: what has to move is sent.
use shc.Base.{
  ℕ, ◌<◌, ◌≡◌, refl, sym, ap, subst, ◌∙◌, ◌⊎◌, inl, inr, String, List, [], ◌∷◌, Option, none, some,
  Bool, true, false, arith, if◌then◌else◌, holds, length, In, text_discrete,
}
use shc.Base.GoMap.{text_comparable, lookup}
use shc.Cache.{Cache, keys}
use shc.Cache.Items.{Item}
use shc.Cache.Views.{IsValid, unexpired, visible}
use shc.Cache.Accounts.{keys-Distinct}
use shc.Hashing.{
  HashRing, NodeTarget, has_node, add_node, remove_node, internal_remove_node, get_nodes,
  get_primary_node,
}
use shc.Hashing.Invariant.{IsOrdered, cleared, add_node-IsOrdered}
use shc.Hashing.Remapping.{add_node-moves, get_primary_node-pos}
use shc.Hashing.Placement.{get_nodes-IsPlacement}
use shc.Rebalancing.{dump_item, first_is, move_found, keys_to_migrate}
use shc.Rebalancing.Transfer.{migrated, keys_to_migrate-migrated}

migrated-In :
    (node_id : String) (ring : HashRing) (c : Cache) (at until : String → ℕ) (ks : List String)
    (key : String) (item : Item)
    → In key ks
    → first_is node_id (get_nodes ring key 2) ≡ true
    → visible c key (at key) ≡ some item
    → In (dump_item item (until key) false) (migrated node_id ring c at until ks)
migrated-In node_id ring c at until [] key item i f e = absurd i
migrated-In node_id ring c at until (k ∷ rest) key item i f e = elim i [
  | inl p ↦
      subst
        (λ j. In (dump_item item (until key) false) (
          if first_is node_id (get_nodes ring j 2)
          then move_found (unexpired (lookup j c.items) (at j)) until j
              (migrated node_id ring c at until rest)
          else migrated node_id ring c at until rest))
        (sym p) (rw (f, e) (inl refl))
  | inr j ↦
      further (first_is node_id (get_nodes ring k 2)) (unexpired (lookup k c.items) (at k))
        (migrated-In node_id ring c at until rest key item j f e)
]
  where
    further :
        (b : Bool) (o : Option Item)
        → In (dump_item item (until key) false) (migrated node_id ring c at until rest)
        → In (dump_item item (until key) false) (
            if b
            then move_found o until k (migrated node_id ring c at until rest)
            else migrated node_id ring c at until rest)
    further true none m = m
    further true (some x) m = inr m
    further false o m = m

first_is-primary :
    (node_id : String) (ring : HashRing) (key : String) (to : NodeTarget)
    → IsOrdered ring
    → 0 < length ring.ring
    → get_primary_node ring key ≡ some (to, ring.hash_func key)
    → to.node_id ≡ node_id
    → first_is node_id (get_nodes ring key 2) ≡ true
first_is-primary node_id ring key to v l e n =
    let (nodes, g, p) = get_nodes-IsPlacement ring key 1 v.sorted l in
    let (first, rest, q, f) = p.primary in
    let same : first ≡ to = cc (f, e) in rw (g, q) (is_it first (ap (λ x. x.node_id) same ∙ n))
  where
    is_it :
        (first : NodeTarget)
        → first.node_id ≡ node_id
        → holds (text_discrete first.node_id node_id) ≡ true
    is_it first m = ground arith

hash_func-add_node :
    (h : HashRing) (node_id addr : String)
    → (add_node h node_id addr).hash_func ≡ (cleared h node_id addr).hash_func
unfolding add_node remove_node internal_remove_node
hash_func-add_node h node_id addr = ground arith

-- A new node joins an ordered ring; a placeholder under its address has been removed, and the ring is then
-- not empty. Every key that Keys lists, on a cache with one entry for a key, and that is still visible
-- when the loop reads it either keeps the primary node that it has once the placeholder is removed, or
-- stands among the items that are sent to the new node.
pub rebalance_moves :
    (ring : HashRing) (c : Cache) (node_id addr key : String) (now : ℕ) (at until : String → ℕ)
    (item : Item)
    → IsOrdered ring
    → has_node ring node_id ≡ false
    → 0 < length (cleared ring node_id addr).ring
    → IsValid c
    → In key (keys c now)
    → visible c key (at key) ≡ some item
    → let ring' = add_node ring node_id addr in
      (get_primary_node ring' key ≡ get_primary_node (cleared ring node_id addr) key)
      ⊎ In
          (dump_item item (until key) false)
          (keys_to_migrate node_id ring' c (keys c now) at until).1
rebalance_moves ring c node_id addr key now at until item v n l w i e =
    let (to, new, moved) = add_node-moves ring node_id addr key v n l in
    let hash : ℕ = (cleared ring node_id addr).hash_func key in
    elim moved [
      | inr old ↦ inl (new ∙ sym old)
      | inl mine ↦ inr (
          rw
            (keys_to_migrate-migrated node_id (add_node ring node_id addr) c (keys c now) at until w
              (keys-Distinct c now w))
            (migrated-In node_id (add_node ring node_id addr) c at until (keys c now) key item i
              (first_is-primary node_id (add_node ring node_id addr) key to
                (add_node-IsOrdered ring node_id addr v)
                (get_primary_node-pos (add_node ring node_id addr) key to hash new)
                (new ∙ ap (λ f. some (to, f key)) (sym (hash_func-add_node ring node_id addr)))
                mine)
              e))
    ]
