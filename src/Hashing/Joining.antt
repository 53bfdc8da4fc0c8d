-- ===== src/Hashing/Joining.antt =====
-- Which key goes to a new node, and at which token.
use shc.Base.{
  ℕ, ◌<◌, ◌≡◌, ◌≢◌, sym, ap, subst, ◌∙◌, ◌⊎◌, inl, inr, String, some, false, In, length, ◌++◌,
  In-append_left, In-append_right, In-append_cases,
}
use shc.Hashing.Successor.{IsSuccessor, token_of, start_index-IsSuccessor}
use shc.Hashing.Invariant.{
  IsOrdered, cleared, cleared-IsOrdered, node_tokens-owner, node_tokens, added, add_node-IsOrdered,
  add_node-added, In-added, added-In, added-owner, added-address,
}
use shc.Base.GoMap.{text_comparable, nat_comparable, value_or}
use shc.Base.GoMap.Laws.{lookup-insert_self}
use shc.Hashing.{HashRing, target, owner, address, has_node, add_node, get_primary_node}
use shc.Hashing.Remapping.{In-length, get_primary_node-IsSuccessor, IsSuccessor-restrict, target_eq}

In-joined :
    (h : HashRing) (node_id : String) (t : ℕ)
    → In t h.ring ⊎ In t (node_tokens h node_id)
    → In t (h.ring ++ node_tokens h node_id)
In-joined h node_id t (inl i) = In-append_left h.ring (node_tokens h node_id) t i
In-joined h node_id t (inr i) = In-append_right h.ring (node_tokens h node_id) t i

-- Where a key goes when a node joins a ring: its token is `t`.
abbrev pub Placed : HashRing → HashRing → String → String → String → ℕ → Type 0
Placed before after node_id addr key t =
    (In t (node_tokens before node_id)
      → get_primary_node after key
        ≡ some (record { node_id = node_id; addr = addr }, before.hash_func key))
    × (¬ In t (node_tokens before node_id)
        → owner before t ≢ node_id
        → (get_primary_node before key ≡ some (target before t, before.hash_func key))
          × (get_primary_node after key ≡ get_primary_node before key))

added-Placed :
    (h : HashRing) (node_id addr key : String)
    → IsOrdered h
    → IsOrdered (added h node_id addr)
    → (t : ℕ) → IsSuccessor (h.hash_func key) (h.ring ++ node_tokens h node_id) t
    → Placed h (added h node_id addr) node_id addr key t
added-Placed h node_id addr key v w t s = (taken, kept)
  where
    g : HashRing
    g = added h node_id addr

    found : get_primary_node g key ≡ some (target g t, h.hash_func key)
    found = get_primary_node-IsSuccessor g key t w (
        IsSuccessor-restrict (h.hash_func key) (h.ring ++ node_tokens h node_id) g.ring t
          (λ u i. In-joined h node_id u (In-added h node_id addr u i))
          (added-In h node_id addr t (In-append_cases h.ring (node_tokens h node_id) t s.member)) s)

    taken :
        In t (node_tokens h node_id)
        → get_primary_node g key ≡ some (record { node_id = node_id; addr = addr }, h.hash_func key)
    taken i =
        let o : owner g t ≡ node_id = node_tokens-owner h node_id addr t i in
        let a : address g (owner g t) ≡ addr =
          ap (address g) o ∙ ap (value_or "") (lookup-insert_self node_id addr h.node_addresses) in
        found ∙ (λ k. some (record { node_id = o k; addr = a k }, h.hash_func key))

    kept :
        ¬ In t (node_tokens h node_id)
        → owner h t ≢ node_id
        → (get_primary_node h key ≡ some (target h t, h.hash_func key))
          × (get_primary_node g key ≡ get_primary_node h key)
    kept fresh other = elim (In-append_cases h.ring (node_tokens h node_id) t s.member) [
      | inr m ↦ absurd (fresh m)
      | inl m ↦ elim (added-owner h node_id addr t) [
        | inl e ↦ absurd (fresh e.1)
        | inr (o, k) ↦
            let old : get_primary_node h key ≡ some (target h t, h.hash_func key) =
              get_primary_node-IsSuccessor h key t v (
                IsSuccessor-restrict (h.hash_func key) (h.ring ++ node_tokens h node_id) h.ring t
                  (λ u i. In-append_left h.ring (node_tokens h node_id) u i) m s) in
            let same : target g t ≡ target h t =
              target_eq h g t o (added-address h node_id addr (owner h t) other) in
            (old, found ∙ ap (λ x. some (x, h.hash_func key)) same ∙ sym old)
      ]
    ]

-- A new node joins a sorted ring whose maps hold each key once; a placeholder under its address has been
-- removed, and tokens are left. A key's token is the first, clockwise, of those that are left and those
-- that the new node's virtual nodes hash to. If the new node brings that token, the key goes to it, at
-- its address; otherwise the key stays at the token's owner, where it was without the new node, unless
-- that token is already noted for the new node.
pub add_node-remapping :
    (h : HashRing) (node_id addr key : String)
    → IsOrdered h
    → has_node h node_id ≡ false
    → let before = cleared h node_id addr in
      0 < length before.ring
      → (t : ℕ) × IsSuccessor (before.hash_func key) (before.ring ++ node_tokens before node_id) t
        × Placed before (add_node h node_id addr) node_id addr key t
add_node-remapping h node_id addr key v n l = (t, first, placed)
  where
    before : HashRing
    before = cleared h node_id addr

    e : add_node h node_id addr ≡ added before node_id addr
    e = add_node-added h node_id addr v n

    g : HashRing
    g = added before node_id addr

    u : IsOrdered before
    u = cleared-IsOrdered h node_id addr v

    w : IsOrdered g
    w = subst IsOrdered e (add_node-IsOrdered h node_id addr v)

    hash : ℕ
    hash = before.hash_func key

    t : ℕ
    t = token_of g hash

    old : IsSuccessor hash before.ring (token_of before hash)
    old = start_index-IsSuccessor before hash u.sorted l

    new : IsSuccessor hash g.ring t
    new =
        start_index-IsSuccessor g hash w.sorted (
          In-length (token_of before hash) g.ring (added-In before node_id addr _ (inl old.member)))

    first : IsSuccessor hash (before.ring ++ node_tokens before node_id) t
    first =
        IsSuccessor-restrict hash g.ring (before.ring ++ node_tokens before node_id) t
          (λ x i.
            added-In before node_id addr x
              (In-append_cases before.ring (node_tokens before node_id) x i))
          (In-joined before node_id t (In-added before node_id addr t new.member)) new

    placed : Placed before (add_node h node_id addr) node_id addr key t
    placed =
        subst (λ after. Placed before after node_id addr key t) (sym e)
          (added-Placed before node_id addr key u w t first)
