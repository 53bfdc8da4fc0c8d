-- ===== src/Hashing/Members.antt =====
-- A ring without hash collisions: every token belongs to a registered node with an address.
use shc.Base.{
  ℕ, ◌<◌, ◌≡◌, ◌≢◌, sym, ap, subst, ◌∙◌, ◌⊎◌, inl, inr, ite, String, List, [], ◌∷◌, ◌++◌, Option,
  none, some, true, false, arith, In, Distinct, length, holds, Bool-cases, text_discrete,
  In-append_right,
}
use shc.Base.Sort.Laws.{sort-Distinct}
use shc.Base.GoMap.{text_comparable, nat_comparable, lookup, value_or}
use shc.Base.GoMap.Laws.{lookup-insert, lookup-delete}
use shc.Hashing.Successor.{IsSuccessor, token_of, start_index-IsSuccessor}
use shc.Hashing.Owners.{
  place_vnodes-ring, In-remove_tokens, remove_tokens-others, remove_tokens-dropped,
  Distinct-remove_tokens,
}
use shc.Hashing.Invariant.{
  IsOrdered, cleared, node_tokens, added, removed, add_node-IsOrdered, add_node-added, In-added,
  added-owner, internal_remove_node-IsOrdered,
}
use shc.Hashing.Remapping.{
  get_primary_node-token, internal_remove_node-absent, internal_remove_node-removed,
}
use shc.Hashing.{
  HashRing, NodeTarget, target, owner, has_node, internal_remove_node, add_node, remove_node,
  get_primary_node,
}

-- A node that is registered under an address.
pub record IsMember (h : HashRing) (node_id : String) : Type 0 where
  pub present : has_node h node_id ≡ true
  pub at : String
  pub reachable : lookup node_id h.node_addresses ≡ some at

pub record IsConsistent (h : HashRing) : Type 0 where
  pub ordered : IsOrdered h
  pub no_collision : Distinct h.ring
  pub owned : (t : ℕ) → In t h.ring → IsMember h (owner h t)

-- The hashes of a new node differ from each other and from those on the ring.
abbrev pub IsFresh : HashRing → String → Type 0
IsFresh h node_id = Distinct (h.ring ++ node_tokens h node_id)

pub node_apart : (xs ys : List ℕ) (t : ℕ) → Distinct (xs ++ ys) → In t xs → In t ys → ⊥
node_apart [] ys t d i j = i
node_apart (x ∷ xs) ys t d (inl e) j = d.0 (In-append_right xs ys x (rw e j))
node_apart (x ∷ xs) ys t d (inr i) j = node_apart xs ys t d.1 i j

added-has_node :
    (h : HashRing) (node_id addr other : String)
    → has_node (added h node_id addr) other
      ≡ ite (text_discrete node_id other) true (has_node h other)
added-has_node h node_id addr other =
    ap (value_or false) (lookup-insert node_id other true h.nodes) ∙ out
  where
    out :
        value_or false (ite (text_discrete node_id other) (some true) (lookup other h.nodes))
        ≡ ite (text_discrete node_id other) true (has_node h other)
    out = ground arith

pub added-IsMember :
    (h : HashRing) (node_id addr other : String)
    → (node_id ≡ other) ⊎ IsMember h other
    → IsMember (added h node_id addr) other
added-IsMember h node_id addr other m = elim (text_discrete node_id other) [
  | yes p ↦ record {
    present = added-has_node h node_id addr other ∙ here true (has_node h other) p;
    at = addr;
    reachable = lookup-insert node_id other addr h.node_addresses ∙ here _ _ p;
  }
  | no p ↦ elim m [
    | inl q ↦ absurd (p q)
    | inr v ↦ record {
      present = added-has_node h node_id addr other ∙ there true (has_node h other) p ∙ v.present;
      at = v.at;
      reachable = lookup-insert node_id other addr h.node_addresses ∙ there _ _ p ∙ v.reachable;
    }
  ]
]
  where
    here : {A : Type 0} (a b : A) → node_id ≡ other → ite (text_discrete node_id other) a b ≡ a
    here a b p = ground arith

    there : {A : Type 0} (a b : A) → node_id ≢ other → ite (text_discrete node_id other) a b ≡ b
    there a b p = ground arith

added-IsConsistent :
    (h : HashRing) (node_id addr : String)
    → IsConsistent h
    → IsFresh h node_id
    → IsOrdered (added h node_id addr)
    → IsConsistent (added h node_id addr)
added-IsConsistent h node_id addr v f w = record {
  ordered = w;
  no_collision =
      sort-Distinct _
        (rw (place_vnodes-ring h.hash_func node_id h.vnodes 0 h.ring h.vnode_to_node) f);
  owned = λ t m. elim (added-owner h node_id addr t) [
    | inl e ↦ added-IsMember h node_id addr _ (inl (sym e.0))
    | inr e ↦ elim (In-added h node_id addr t m) [
      | inl i ↦ rw e.0 (added-IsMember h node_id addr (owner h t) (inr (v.owned t i)))
      | inr j ↦ absurd (e.1 j)
    ]
  ];
}

removed-IsMember :
    (h : HashRing) (node_id other : String)
    → IsOrdered h
    → other ≢ node_id
    → IsMember h other
    → IsMember (removed h node_id) other
removed-IsMember h node_id other v n m = record {
  present =
      ap (value_or false) (lookup-delete node_id other h.nodes v.registered ∙ there _) ∙ m.present;
  at = m.at;
  reachable = lookup-delete node_id other h.node_addresses v.addresses ∙ there _ ∙ m.reachable;
}
  where
    there : {A : Type 0} (o : Option A) → ite (text_discrete node_id other) none o ≡ o
    there o = ground arith

removed-IsConsistent :
    (h : HashRing) (node_id : String)
    → IsConsistent h
    → IsOrdered (removed h node_id)
    → IsConsistent (removed h node_id)
removed-IsConsistent h node_id v w = record {
  ordered = w;
  no_collision = Distinct-remove_tokens node_id h.ring h.vnode_to_node v.no_collision;
  owned = λ t m.
      let n : owner h t ≢ node_id =
        remove_tokens-dropped node_id h.ring h.vnode_to_node t v.ordered.owners v.no_collision m in
      let (same, _) = remove_tokens-others node_id h.ring h.vnode_to_node t v.ordered.owners n in
      rw (ap (value_or "") same) (
        removed-IsMember h node_id (owner h t) v.ordered n
          (v.owned t (In-remove_tokens node_id h.ring h.vnode_to_node t m)));
}

internal_remove_node-IsConsistent :
    (h : HashRing) (node_id : String)
    → IsConsistent h
    → IsConsistent (internal_remove_node h node_id)
internal_remove_node-IsConsistent h node_id v = elim (Bool-cases (has_node h node_id)) [
  | inr absent ↦ rw (internal_remove_node-absent h node_id absent) v
  | inl present ↦
      let e : internal_remove_node h node_id ≡ removed h node_id =
        internal_remove_node-removed h node_id present in
      rw e (
        removed-IsConsistent h node_id v
          (subst IsOrdered e (internal_remove_node-IsOrdered h node_id v.ordered)))
]

pub cleared-IsConsistent :
    (h : HashRing) (node_id addr : String) → IsConsistent h → IsConsistent (cleared h node_id addr)
unfolding remove_node
cleared-IsConsistent h node_id addr v = elim (Bool-cases (holds (text_discrete node_id addr))) [
  | inl p ↦ rw p v
  | inr p ↦ rw p (internal_remove_node-IsConsistent h addr v)
]

-- On a consistent ring, a new node that joins, with hashes that are fresh on the ring without a
-- placeholder under its address, and any node that leaves, keep every token with a registered node.
pub change-IsConsistent :
    (h : HashRing) (node_id addr : String)
    → IsConsistent h
    → (has_node h node_id ≡ false
        → IsFresh (cleared h node_id addr) node_id
        → IsConsistent (add_node h node_id addr))
      × IsConsistent (remove_node h node_id)
unfolding remove_node
change-IsConsistent h node_id addr v = (joins, internal_remove_node-IsConsistent h node_id v)
  where
    joins :
        has_node h node_id ≡ false
        → IsFresh (cleared h node_id addr) node_id
        → IsConsistent (add_node h node_id addr)
    joins n f =
        let e : add_node h node_id addr ≡ added (cleared h node_id addr) node_id addr =
          add_node-added h node_id addr v.ordered n in
        subst IsConsistent (sym e) (
          added-IsConsistent (cleared h node_id addr) node_id addr
            (cleared-IsConsistent h node_id addr v) f
            (subst IsOrdered e (add_node-IsOrdered h node_id addr v.ordered)))

-- A consistent ring that is not empty routes every key to a registered node, with that node's
-- address.
pub get_primary_node-IsMember :
    (h : HashRing) (key : String)
    → IsConsistent h
    → 0 < length h.ring
    → (to : NodeTarget) × (get_primary_node h key ≡ some (to, h.hash_func key))
      × (has_node h to.node_id ≡ true)
      × (lookup to.node_id h.node_addresses ≡ some to.addr)
get_primary_node-IsMember h key v l =
    let s : IsSuccessor (h.hash_func key) h.ring (token_of h (h.hash_func key)) =
      start_index-IsSuccessor h (h.hash_func key) v.ordered.sorted l in
    let m : IsMember h (owner h (token_of h (h.hash_func key))) = v.owned _ s.member in
    (
      target h (token_of h (h.hash_func key)),
      get_primary_node-token h key l,
      m.present,
      m.reachable ∙ ap some (sym (ap (value_or "") m.reachable)),
    )
