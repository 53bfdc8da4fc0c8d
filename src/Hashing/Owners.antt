-- ===== src/Hashing/Owners.antt =====
-- The loops of AddNode and internalRemoveNode, token by token.
use shc.Base.{
  ℕ, zero, suc, ◌+◌, ◌≤◌, ◌≡◌, ◌≢◌, refl, sym, ap, ◌∙◌, ◌⊎◌, inl, inr, ite, String, List, [], ◌∷◌,
  ◌++◌, none, some, Bool, true, false, arith, if◌then◌else◌, holds, All, In, Distinct,
  text_discrete, ℕ_discrete, Bool-cases,
}
use mathlib.Core.List.{append_assoc, append-nil}
use shc.Base.Sort.Laws.{IsSorted}
use shc.Base.GoMap.{GoMap, text_comparable, nat_comparable, lookup, insert, delete, value_or}
use shc.Base.GoMap
use shc.Base.GoMap.Laws.{lookup-insert, lookup-delete, insert-Distinct, delete-Distinct}
use shc.Hashing.Names.{vnode_key}
use shc.Hashing.{HashFunc, place_vnodes, remove_tokens}

-- The hashes of the virtual nodes from `i` on.
abbrev pub vnode_tokens : HashFunc → String → ℕ → ℕ → List ℕ
vnode_tokens f node_id zero i = []
vnode_tokens f node_id (suc left) i = f (vnode_key node_id i) ∷ vnode_tokens f node_id left (i + 1)

pub place_vnodes-ring :
    (f : HashFunc) (node_id : String) (left i : ℕ) (ring : List ℕ) (owners : GoMap ℕ String)
    → (place_vnodes f node_id left i ring owners).0 ≡ ring ++ vnode_tokens f node_id left i
unfolding place_vnodes
place_vnodes-ring f node_id zero i ring owners = sym (append-nil ring)
place_vnodes-ring f node_id (suc left) i ring owners =
    place_vnodes-ring f node_id left (i + 1) _ _
    ∙ append_assoc ring (f (vnode_key node_id i) ∷ []) (vnode_tokens f node_id left (i + 1))

-- A token keeps its owner, or the new node takes it over.
pub place_vnodes-owner :
    (f : HashFunc) (node_id : String) (left i : ℕ) (ring : List ℕ) (owners : GoMap ℕ String) (t : ℕ)
    → let owners' = (place_vnodes f node_id left i ring owners).1 in
      ((lookup t owners' ≡ some node_id) × In t (vnode_tokens f node_id left i))
      ⊎ ((lookup t owners' ≡ lookup t owners) × (¬ In t (vnode_tokens f node_id left i)))
unfolding place_vnodes
place_vnodes-owner f node_id zero i ring owners t = inr (refl, λ n. n)
place_vnodes-owner f node_id (suc left) i ring owners t =
    elim (place_vnodes-owner f node_id left (i + 1) (ring ++ f (vnode_key node_id i) ∷ [])
      (insert (f (vnode_key node_id i)) node_id owners) t) [
        | inl e ↦ inl (e.0, inr e.1)
        | inr h ↦ elim (ℕ_discrete (f (vnode_key node_id i)) t) [
          | yes p ↦
              inl (h.0 ∙ lookup-insert (f (vnode_key node_id i)) t node_id owners ∙ here p, inl p)
          | no p ↦ inr (
            h.0 ∙ lookup-insert (f (vnode_key node_id i)) t node_id owners ∙ there p,
            λ m. elim m [ inl e ↦ p e | inr r ↦ h.1 r ],
          )
        ]
      ]
  where
    here :
        f (vnode_key node_id i) ≡ t
        → ite (ℕ_discrete (f (vnode_key node_id i)) t) (some node_id) (lookup t owners)
          ≡ some node_id
    here p = ground arith

    there :
        f (vnode_key node_id i) ≢ t
        → ite (ℕ_discrete (f (vnode_key node_id i)) t) (some node_id) (lookup t owners)
          ≡ lookup t owners
    there p = ground arith

pub place_vnodes-Distinct :
    (f : HashFunc) (node_id : String) (left i : ℕ) (ring : List ℕ) (owners : GoMap ℕ String)
    → Distinct (GoMap.keys owners)
    → Distinct (GoMap.keys (place_vnodes f node_id left i ring owners).1)
unfolding place_vnodes
place_vnodes-Distinct f node_id zero i ring owners d = d
place_vnodes-Distinct f node_id (suc left) i ring owners d =
    place_vnodes-Distinct f node_id left (i + 1) _ _ (insert-Distinct _ node_id owners d)

abbrev mine : String → ℕ → GoMap ℕ String → Bool
mine node_id t owners = holds (text_discrete (value_or "" (lookup t owners)) node_id)

pub remove_tokens-Distinct :
    (node_id : String) (ring : List ℕ) (owners : GoMap ℕ String)
    → Distinct (GoMap.keys owners)
    → Distinct (GoMap.keys (remove_tokens node_id ring owners).1)
unfolding remove_tokens
remove_tokens-Distinct node_id [] owners d = d
remove_tokens-Distinct node_id (t ∷ ring) owners d = elim (Bool-cases (mine node_id t owners)) [
  | inl e ↦
      rw e (remove_tokens-Distinct node_id ring (delete t owners) (delete-Distinct t owners d))
  | inr e ↦ rw e (remove_tokens-Distinct node_id ring owners d)
]

-- What is kept stood on the ring before.
pub In-remove_tokens :
    (node_id : String) (ring : List ℕ) (owners : GoMap ℕ String) (t : ℕ)
    → In t (remove_tokens node_id ring owners).0
    → In t ring
unfolding remove_tokens
In-remove_tokens node_id [] owners t m = m
In-remove_tokens node_id (u ∷ ring) owners t m = ground (
  arith,
  In-remove_tokens node_id ring (if mine node_id u owners then delete u owners else owners) t,
)

-- Another node's token is kept, with its owner.
pub remove_tokens-others :
    (node_id : String) (ring : List ℕ) (owners : GoMap ℕ String) (t : ℕ)
    → Distinct (GoMap.keys owners)
    → value_or "" (lookup t owners) ≢ node_id
    → (lookup t (remove_tokens node_id ring owners).1 ≡ lookup t owners)
      × (In t ring → In t (remove_tokens node_id ring owners).0)
unfolding remove_tokens
remove_tokens-others node_id [] owners t d n = (refl, λ m. m)
remove_tokens-others node_id (u ∷ ring) owners t d n = elim (Bool-cases (mine node_id u owners)) [
  | inr e ↦ rw e (keep (remove_tokens-others node_id ring owners t d n))
  | inl e ↦
      let apart : u ≢ t = λ p. n (is_mine (rw p at e)) in
      let same : lookup t (delete u owners) ≡ lookup t owners =
        lookup-delete u t owners d ∙ there apart in
      let (l, m) =
        remove_tokens-others node_id ring (delete u owners) t (delete-Distinct u owners d)
          (λ q. n (ap (value_or "") (sym same) ∙ q)) in
      rw e (l ∙ same, λ i. elim i [ inl p ↦ absurd (apart p) | inr r ↦ m r ])
]
  where
    is_mine : mine node_id t owners ≡ true → value_or "" (lookup t owners) ≡ node_id
    is_mine q = ground arith

    there : u ≢ t → ite (ℕ_discrete u t) none (lookup t owners) ≡ lookup t owners
    there p = ground arith

    keep :
        (lookup t (remove_tokens node_id ring owners).1 ≡ lookup t owners)
          × (In t ring → In t (remove_tokens node_id ring owners).0)
        → (lookup t (remove_tokens node_id ring owners).1 ≡ lookup t owners)
          × (In t (u ∷ ring) → In t (u ∷ (remove_tokens node_id ring owners).0))
    keep h = (h.0, λ i. elim i [ inl p ↦ inl p | inr r ↦ inr (h.1 r) ])

remove_tokens-All :
    (b : ℕ) (node_id : String) (ring : List ℕ) (owners : GoMap ℕ String)
    → All (λ y. b ≤ y) ring
    → All (λ y. b ≤ y) (remove_tokens node_id ring owners).0
unfolding remove_tokens
remove_tokens-All b node_id [] owners a = tt
remove_tokens-All b node_id (t ∷ ring) owners a = ground (
  arith,
  remove_tokens-All b node_id ring (if mine node_id t owners then delete t owners else owners) a.1,
)

pub remove_tokens-IsSorted :
    (node_id : String) (ring : List ℕ) (owners : GoMap ℕ String)
    → IsSorted ring
    → IsSorted (remove_tokens node_id ring owners).0
unfolding remove_tokens
remove_tokens-IsSorted node_id [] owners s = tt
remove_tokens-IsSorted node_id (t ∷ ring) owners s = elim (Bool-cases (mine node_id t owners)) [
  | inl e ↦ rw e (remove_tokens-IsSorted node_id ring (delete t owners) s.1)
  | inr e ↦
      rw e (
        remove_tokens-All t node_id ring owners s.0,
        remove_tokens-IsSorted node_id ring owners s.1,
      )
]

-- On a ring with no token twice, nothing that is kept belongs to the node that leaves.
pub remove_tokens-dropped :
    (node_id : String) (ring : List ℕ) (owners : GoMap ℕ String) (t : ℕ)
    → Distinct (GoMap.keys owners)
    → Distinct ring
    → In t (remove_tokens node_id ring owners).0
    → value_or "" (lookup t owners) ≢ node_id
unfolding remove_tokens
remove_tokens-dropped node_id [] owners t d r = λ m _. absurd m
remove_tokens-dropped node_id (u ∷ ring) owners t d r = elim (Bool-cases (mine node_id u owners)) [
  | inl e ↦ rw e (λ m p.
      let i : In t ring = In-remove_tokens node_id ring (delete u owners) t m in
      remove_tokens-dropped node_id ring (delete u owners) t (delete-Distinct u owners d) r.1 m
        (ap (value_or "") (lookup-delete u t owners d ∙ there (λ q. r.0 (rw q i))) ∙ p))
  | inr e ↦ rw e (λ m. elim m [
    | inl q ↦ rw (← q) (not_mine e)
    | inr i ↦ remove_tokens-dropped node_id ring owners t d r.1 i
  ])
]
  where
    there : u ≢ t → ite (ℕ_discrete u t) none (lookup t owners) ≡ lookup t owners
    there p = ground arith

    not_mine : mine node_id u owners ≡ false → value_or "" (lookup u owners) ≢ node_id
    not_mine q = ground arith

pub Distinct-remove_tokens :
    (node_id : String) (ring : List ℕ) (owners : GoMap ℕ String)
    → Distinct ring
    → Distinct (remove_tokens node_id ring owners).0
unfolding remove_tokens
Distinct-remove_tokens node_id [] owners r = tt
Distinct-remove_tokens node_id (u ∷ ring) owners r = elim (Bool-cases (mine node_id u owners)) [
  | inl e ↦ rw e (Distinct-remove_tokens node_id ring (delete u owners) r.1)
  | inr e ↦ rw e (
    (λ m. r.0 (In-remove_tokens node_id ring owners u m)),
    Distinct-remove_tokens node_id ring owners r.1,
  )
]
