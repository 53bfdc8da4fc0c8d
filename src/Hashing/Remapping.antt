-- ===== src/Hashing/Remapping.antt =====
-- Which keys change their primary node when a node joins or leaves.
use shc.Base.{
  ℕ, ◌<◌, ◌≡◌, ◌≢◌, sym, ap, subst, ◌∙◌, ◌⊎◌, inl, inr, String, List, [], ◌∷◌, some, true, false,
  arith, In, length, Bool-cases, text_discrete,
}
use shc.Hashing.Successor.{IsSuccessor, IsSuccessor-unique, token_of, start_index-IsSuccessor}
use shc.Hashing.Owners.{In-remove_tokens, remove_tokens-others}
use shc.Hashing.Invariant.{
  IsOrdered, cleared, cleared-IsOrdered, node_tokens, added, removed, add_node-IsOrdered,
  add_node-added, In-added, added-In, added-owner, added-address, removed-address,
  internal_remove_node-IsOrdered,
}
use shc.Base.GoMap.{text_comparable, nat_comparable, lookup, value_or}
use shc.Hashing.{
  HashRing, NodeTarget, target, owner, address, has_node, remove_tokens, internal_remove_node,
  add_node, remove_node, get_primary_node,
}

pub In-length : (t : ℕ) (xs : List ℕ) → In t xs → 0 < length xs
In-length t [] i = absurd i
In-length t (x ∷ xs) i = omega arith

pub get_primary_node-token :
    (h : HashRing) (key : String)
    → 0 < length h.ring
    → get_primary_node h key ≡ some (target h (token_of h (h.hash_func key)), h.hash_func key)
unfolding get_primary_node
get_primary_node-token h key l = ground arith

-- A token that is a key's successor gives the key its node.
pub get_primary_node-IsSuccessor :
    (h : HashRing) (key : String) (t : ℕ)
    → IsOrdered h
    → IsSuccessor (h.hash_func key) h.ring t
    → get_primary_node h key ≡ some (target h t, h.hash_func key)
get_primary_node-IsSuccessor h key t v s =
    let l : 0 < length h.ring = In-length t h.ring s.member in
    let e : token_of h (h.hash_func key) ≡ t =
      IsSuccessor-unique _ h.ring _ t (start_index-IsSuccessor h (h.hash_func key) v.sorted l) s in
    get_primary_node-token h key l ∙ ap (λ u. some (target h u, h.hash_func key)) e

-- From a larger set of tokens to a smaller one that still has the successor.
pub IsSuccessor-restrict :
    (hash : ℕ) (xs ys : List ℕ) (t : ℕ)
    → ((u : ℕ) → In u ys → In u xs)
    → In t ys
    → IsSuccessor hash xs t
    → IsSuccessor hash ys t
IsSuccessor-restrict hash xs ys t sub m s = elim s.first [
  | inl a ↦ record { member = m; first = inl (a.0, λ u i k. a.1 u (sub u i) k) }
  | inr a ↦ record { member = m; first = inr (λ u i. a u (sub u i)) }
]

pub target_eq :
    (h g : HashRing) (t : ℕ)
    → owner g t ≡ owner h t
    → address g (owner h t) ≡ address h (owner h t)
    → target g t ≡ target h t
target_eq h g t o a = λ i. record { node_id = o i; addr = (ap (address g) o ∙ a) i }

added-remapping :
    (h : HashRing) (node_id addr key : String)
    → IsOrdered h
    → IsOrdered (added h node_id addr)
    → 0 < length h.ring
    → let g = added h node_id addr in
      (t : ℕ) × (get_primary_node g key ≡ some (target g t, h.hash_func key))
      × ((owner g t ≡ node_id) ⊎ (get_primary_node h key ≡ some (target g t, h.hash_func key)))
added-remapping h node_id addr key v w l = (t, found, moved)
  where
    g : HashRing
    g = added h node_id addr

    hash : ℕ
    hash = h.hash_func key

    old : IsSuccessor hash h.ring (token_of h hash)
    old = start_index-IsSuccessor h hash v.sorted l

    t : ℕ
    t = token_of g hash

    new : IsSuccessor hash g.ring t
    new =
        start_index-IsSuccessor g hash w.sorted
          (In-length (token_of h hash) g.ring (added-In h node_id addr _ (inl old.member)))

    found : get_primary_node g key ≡ some (target g t, hash)
    found = get_primary_node-IsSuccessor g key t w new

    kept :
        owner g t ≡ owner h t
        → ¬ In t (node_tokens h node_id)
        → owner h t ≢ node_id
        → get_primary_node h key ≡ some (target g t, hash)
    kept o fresh other = elim (In-added h node_id addr t new.member) [
      | inr m ↦ absurd (fresh m)
      | inl m ↦
          get_primary_node-IsSuccessor h key t v (
            IsSuccessor-restrict hash g.ring h.ring t (λ u i. added-In h node_id addr u (inl i)) m
              new)
          ∙ ap (λ x. some (x, hash))
              (sym (target_eq h g t o (added-address h node_id addr (owner h t) other)))
    ]

    moved : (owner g t ≡ node_id) ⊎ (get_primary_node h key ≡ some (target g t, hash))
    moved = elim (added-owner h node_id addr t) [
      | inl e ↦ inl e.0
      | inr (o, fresh) ↦ elim (text_discrete (owner h t) node_id) [
        | yes p ↦ inl (o ∙ p)
        | no p ↦ inr (kept o fresh p)
      ]
    ]

pub add_node-moves :
    (h : HashRing) (node_id addr key : String)
    → IsOrdered h
    → has_node h node_id ≡ false
    → let before = cleared h node_id addr in
      0 < length before.ring
      → (to : NodeTarget) × (get_primary_node (add_node h node_id addr) key
          ≡ some (to, before.hash_func key))
        × ((to.node_id ≡ node_id) ⊎ (get_primary_node before key ≡ some (to, before.hash_func key)))
add_node-moves h node_id addr key v n l =
    let before : HashRing = cleared h node_id addr in
    let e : add_node h node_id addr ≡ added before node_id addr =
      add_node-added h node_id addr v n in
    let w : IsOrdered (added before node_id addr) =
      subst IsOrdered e (add_node-IsOrdered h node_id addr v) in
    let (t, found, moved) =
      added-remapping before node_id addr key (cleared-IsOrdered h node_id addr v) w l in
    (target (added before node_id addr) t, ap (λ g. get_primary_node g key) e ∙ found, moved)

removed-stays :
    (h : HashRing) (node_id key : String)
    → IsOrdered h
    → IsOrdered (removed h node_id)
    → 0 < length h.ring
    → owner h (token_of h (h.hash_func key)) ≢ node_id
    → get_primary_node (removed h node_id) key ≡ get_primary_node h key
removed-stays h node_id key v w l other =
    get_primary_node-IsSuccessor g key t w (
      IsSuccessor-restrict hash h.ring g.ring t (In-remove_tokens node_id h.ring h.vnode_to_node)
        (kept.1 old.member) old)
    ∙ ap (λ x. some (x, hash))
        (target_eq h g t (ap (value_or "") kept.0) (removed-address h node_id (owner h t) v other))
    ∙ sym (get_primary_node-token h key l)
  where
    g : HashRing
    g = removed h node_id

    hash : ℕ
    hash = h.hash_func key

    t : ℕ
    t = token_of h hash

    old : IsSuccessor hash h.ring t
    old = start_index-IsSuccessor h hash v.sorted l

    kept :
        (lookup t (remove_tokens node_id h.ring h.vnode_to_node).1 ≡ lookup t h.vnode_to_node)
        × (In t h.ring → In t (remove_tokens node_id h.ring h.vnode_to_node).0)
    kept = remove_tokens-others node_id h.ring h.vnode_to_node t v.owners other

pub internal_remove_node-absent :
    (h : HashRing) (node_id : String)
    → has_node h node_id ≡ false
    → internal_remove_node h node_id ≡ h
unfolding internal_remove_node
internal_remove_node-absent h node_id e = rw e

pub internal_remove_node-removed :
    (h : HashRing) (node_id : String)
    → has_node h node_id ≡ true
    → internal_remove_node h node_id ≡ removed h node_id
unfolding internal_remove_node
internal_remove_node-removed h node_id e = rw e

pub get_primary_node-pos :
    (h : HashRing) (key : String) (from : NodeTarget) (hash : ℕ)
    → get_primary_node h key ≡ some (from, hash)
    → 0 < length h.ring
unfolding get_primary_node
get_primary_node-pos h key from hash e = ground arith

primary_owner :
    (h : HashRing) (key : String) (from : NodeTarget) (hash : ℕ)
    → get_primary_node h key ≡ some (from, hash)
    → from.node_id ≡ owner h (token_of h (h.hash_func key))
unfolding get_primary_node
primary_owner h key from hash e = ground arith

-- Every key of another node than the one that leaves stays where it is.
pub remove_node-remapping :
    (h : HashRing) (node_id key : String) (from : NodeTarget) (hash : ℕ)
    → IsOrdered h
    → get_primary_node h key ≡ some (from, hash)
    → from.node_id ≢ node_id
    → get_primary_node (remove_node h node_id) key ≡ some (from, hash)
unfolding remove_node
remove_node-remapping h node_id key from hash v e n = elim (Bool-cases (has_node h node_id)) [
  | inr absent ↦ rw (internal_remove_node-absent h node_id absent) e
  | inl present ↦
      let same : internal_remove_node h node_id ≡ removed h node_id =
        internal_remove_node-removed h node_id present in
      let l : 0 < length h.ring = get_primary_node-pos h key from hash e in
      let w : IsOrdered (removed h node_id) =
        subst IsOrdered same (internal_remove_node-IsOrdered h node_id v) in
      rw same (removed-stays h node_id key v w l (λ p. n (primary_owner h key from hash e ∙ p)) ∙ e)
]
