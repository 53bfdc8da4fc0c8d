-- ===== src/Hashing/Rejoining.antt =====
-- What becomes of the keys of a consistent ring when a node leaves, or joins and leaves again.
use shc.Base.{
  ℕ, ◌<◌, ◌≡◌, ◌≢◌, refl, sym, ap, subst, ◌∙◌, inl, inr, ite, String, none, some, false, true≢false,
  arith, In, Distinct, length, Bool-cases, text_discrete,
}
use shc.Base.Sort.Laws.{sort-Distinct}
use shc.Base.GoMap.{text_comparable, nat_comparable, lookup, value_or}
use shc.Base.GoMap.Laws.{lookup-delete}
use shc.Hashing.Successor.{IsSuccessor, token_of, start_index-IsSuccessor}
use shc.Hashing.Owners.{
  place_vnodes-ring, In-remove_tokens, remove_tokens-others, remove_tokens-dropped,
}
use shc.Hashing.Invariant.{
  IsOrdered, cleared, has_node-cleared, node_tokens-owner, remove_node-removed, node_tokens, added,
  removed, add_node-IsOrdered, add_node-added, In-added, added-In, added-owner, added-address,
  removed-address, internal_remove_node-IsOrdered,
}
use shc.Hashing.Remapping.{
  get_primary_node-token, get_primary_node-IsSuccessor, IsSuccessor-restrict, target_eq,
  get_primary_node-pos, remove_node-remapping,
}
use shc.Hashing.{
  HashRing, NodeTarget, target, owner, has_node, remove_tokens, internal_remove_node, add_node,
  remove_node, get_primary_node,
}
use shc.Hashing.Members.{
  IsConsistent, IsFresh, node_apart, added-IsMember, cleared-IsConsistent, change-IsConsistent,
  get_primary_node-IsMember,
}

rejoined :
    (h : HashRing) (node_id addr key : String)
    → IsConsistent h
    → IsFresh h node_id
    → has_node h node_id ≡ false
    → IsOrdered (added h node_id addr)
    → IsOrdered (removed (added h node_id addr) node_id)
    → 0 < length h.ring
    → get_primary_node (removed (added h node_id addr) node_id) key ≡ get_primary_node h key
rejoined h node_id addr key v f absent w u l =
    get_primary_node-IsSuccessor g key t u back
    ∙ ap (λ x. some (x, hash)) same
    ∙ sym (get_primary_node-token h key l)
  where
    a : HashRing
    a = added h node_id addr

    g : HashRing
    g = removed a node_id

    hash : ℕ
    hash = h.hash_func key

    t : ℕ
    t = token_of h hash

    old : IsSuccessor hash h.ring t
    old = start_index-IsSuccessor h hash v.ordered.sorted l

    apart : (s : ℕ) → In s h.ring → owner h s ≢ node_id
    apart s i p = true≢false (sym ((v.owned s i).present) ∙ ap (has_node h) p ∙ absent)

    owned_still : owner a t ≡ owner h t
    owned_still = elim (added-owner h node_id addr t) [
      | inl e ↦ absurd (node_apart h.ring (node_tokens h node_id) t f old.member e.1)
      | inr e ↦ e.0
    ]

    other : owner a t ≢ node_id
    other p = apart t old.member (sym owned_still ∙ p)

    no_collision : Distinct a.ring
    no_collision =
        sort-Distinct _
          (rw (place_vnodes-ring h.hash_func node_id h.vnodes 0 h.ring h.vnode_to_node) f)

    kept :
        (lookup t (remove_tokens node_id a.ring a.vnode_to_node).1 ≡ lookup t a.vnode_to_node)
        × (In t a.ring → In t (remove_tokens node_id a.ring a.vnode_to_node).0)
    kept = remove_tokens-others node_id a.ring a.vnode_to_node t w.owners other

    survives : (s : ℕ) → In s g.ring → In s h.ring
    survives s i =
        elim (In-added h node_id addr s (In-remove_tokens node_id a.ring a.vnode_to_node s i)) [
          | inl m ↦ m
          | inr m ↦ absurd (
              remove_tokens-dropped node_id a.ring a.vnode_to_node s w.owners no_collision i
                (node_tokens-owner h node_id addr s m))
        ]

    back : IsSuccessor hash g.ring t
    back =
        IsSuccessor-restrict hash h.ring g.ring t survives
          (kept.1 (added-In h node_id addr t (inl old.member))) old

    same : target g t ≡ target h t
    same = target_eq h g t (ap (value_or "") kept.0 ∙ owned_still) (
        removed-address a node_id (owner h t) w (apart t old.member)
        ∙ added-address h node_id addr (owner h t) (apart t old.member))

-- When a new node joins a consistent ring and leaves again, every key is routed as on the ring without
-- the placeholder under the node's address, which AddNode removes, if that ring is not empty and the
-- node's hashes are fresh on it.
pub remove_node-add_node :
    (h : HashRing) (node_id addr key : String)
    → IsConsistent h
    → has_node h node_id ≡ false
    → let before = cleared h node_id addr in
      IsFresh before node_id
      → 0 < length before.ring
      → get_primary_node (remove_node (add_node h node_id addr) node_id) key
        ≡ get_primary_node before key
unfolding remove_node
remove_node-add_node h node_id addr key v n f l =
    ap (λ g. get_primary_node (remove_node g node_id) key) e
    ∙ ap (λ g. get_primary_node g key) r
    ∙ rejoined before node_id addr key (cleared-IsConsistent h node_id addr v) f
        (has_node-cleared h node_id addr v.ordered n) w
        (subst IsOrdered r (internal_remove_node-IsOrdered a node_id w)) l
  where
    before : HashRing
    before = cleared h node_id addr

    a : HashRing
    a = added before node_id addr

    e : add_node h node_id addr ≡ a
    e = add_node-added h node_id addr v.ordered n

    w : IsOrdered a
    w = subst IsOrdered e (add_node-IsOrdered h node_id addr v.ordered)

    r : remove_node a node_id ≡ removed a node_id
    r =
        remove_node-removed a node_id
          (added-IsMember before node_id addr node_id (inl refl)).present

removed-absent :
    (h : HashRing) (node_id : String)
    → IsOrdered h
    → has_node (remove_node h node_id) node_id ≡ false
unfolding remove_node internal_remove_node
removed-absent h node_id v = elim (Bool-cases (has_node h node_id)) [
  | inr absent ↦ rw absent absent
  | inl present ↦
      rw present (ap (value_or false) (lookup-delete node_id node_id h.nodes v.registered) ∙ gone)
]
  where
    gone :
        value_or false (ite (text_discrete node_id node_id) none (lookup node_id h.nodes)) ≡ false
    gone = ground arith

-- When a node leaves a consistent ring, no key is routed to it any more, and every key of another node
-- stays where it is.
pub remove_node-reroutes :
    (h : HashRing) (node_id key : String)
    → IsConsistent h
    → ((to : NodeTarget) (hash : ℕ)
        → get_primary_node (remove_node h node_id) key ≡ some (to, hash)
        → to.node_id ≢ node_id)
      × ((from : NodeTarget) (hash : ℕ)
          → get_primary_node h key ≡ some (from, hash)
          → from.node_id ≢ node_id
          → get_primary_node (remove_node h node_id) key ≡ some (from, hash))
remove_node-reroutes h node_id key v =
    (gone, λ from hash e n. remove_node-remapping h node_id key from hash v.ordered e n)
  where
    g : HashRing
    g = remove_node h node_id

    w : IsConsistent g
    w = (change-IsConsistent h node_id node_id v).1

    gone :
        (to : NodeTarget) (hash : ℕ)
        → get_primary_node g key ≡ some (to, hash)
        → to.node_id ≢ node_id
    gone to hash e p =
        let (x, found, present, reachable) =
          get_primary_node-IsMember g key w (get_primary_node-pos g key to hash e) in
        let same : x.node_id ≡ to.node_id = cc (found, e) in
        true≢false (sym present ∙ ap (has_node g) (same ∙ p) ∙ removed-absent h node_id v.ordered)
