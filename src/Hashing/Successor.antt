-- ===== src/Hashing/Successor.antt =====
-- The token that a hash falls to: the smallest at or after it, or past the last the smallest of all.
use shc.Base.{
  ℕ, zero, suc, ◌≤◌, ◌<◌, ◌≡◌, refl, ◌⊎◌, inl, inr, List, [], ◌∷◌, arith, ltb, ◌==◌, if◌then◌else◌,
  All-In, In, length, get_or, Bool-cases,
}
use shc.Base.Sort.Laws.{IsSorted, below, below-le, binary_search-below}
use shc.Hashing.{HashRing, start_index}

-- A description that does not depend on the order of the list.
pub record IsSuccessor (hash : ℕ) (tokens : List ℕ) (t : ℕ) : Type 0 where
  pub member : In t tokens
  pub first :
      ((hash ≤ t) × ((u : ℕ) → In u tokens → hash ≤ u → t ≤ u))
      ⊎ ((u : ℕ) → In u tokens → (u < hash) × (t ≤ u))

pub IsSuccessor-unique :
    (hash : ℕ) (tokens : List ℕ) (t u : ℕ)
    → IsSuccessor hash tokens t
    → IsSuccessor hash tokens u
    → t ≡ u
IsSuccessor-unique hash tokens t u p q = elim p.first [
  | inl a ↦ elim q.first [
    | inl b ↦ omega (arith, a.1 u q.member b.0, b.1 t p.member a.0)
    | inr b ↦ absurd (omega (arith, (b t p.member).0))
  ]
  | inr a ↦ elim q.first [
    | inl b ↦ absurd (omega (arith, (a u q.member).0))
    | inr b ↦ omega (arith, (a u q.member).1, (b t p.member).1)
  ]
]

In-get_or : (d i : ℕ) (xs : List ℕ) → i < length xs → In (get_or xs i d) xs
In-get_or d i [] l = elim l [ ]
In-get_or d zero (x ∷ xs) l = inl refl
In-get_or d (suc i) (x ∷ xs) l = inr (In-get_or d i xs (omega arith))

get_or-below :
    (hash : ℕ) (xs : List ℕ) (u : ℕ)
    → IsSorted xs
    → below hash xs < length xs
    → (hash ≤ get_or xs (below hash xs) 0) × (In u xs → hash ≤ u → get_or xs (below hash xs) 0 ≤ u)
unfolding below
get_or-below hash [] u s l = elim l [ ]
get_or-below hash (x ∷ xs) u s l = elim (Bool-cases (ltb x hash)) [
  | inl e ↦
      let (a, b) = get_or-below hash xs u s.1 (ground arith) in
      rw e (a, λ i k. elim i [ inl p ↦ absurd (ground arith) | inr r ↦ b r k ])
  | inr e ↦
      rw e (
        ground arith,
        λ i k. elim i [ inl p ↦ omega arith | inr r ↦ All-In (λ y. x ≤ y) xs s.0 u r ],
      )
]

all_below : (hash : ℕ) (xs : List ℕ) (u : ℕ) → below hash xs ≡ length xs → In u xs → u < hash
unfolding below
all_below hash [] u e i = absurd i
all_below hash (x ∷ xs) u e (inl p) = ground arith
all_below hash (x ∷ xs) u e (inr r) = ground (arith, all_below hash xs u)

head-le : (xs : List ℕ) (u : ℕ) → IsSorted xs → In u xs → get_or xs 0 0 ≤ u
head-le [] u s i = absurd i
head-le (x ∷ xs) u s (inl p) = omega arith
head-le (x ∷ xs) u s (inr r) = All-In (λ y. x ≤ y) xs s.0 u r

abbrev pub token_of : HashRing → ℕ → ℕ
token_of h hash = get_or h.ring (start_index h hash) 0

pub start_index-below :
    (h : HashRing) (hash : ℕ)
    → IsSorted h.ring
    → start_index h hash ≡ (if below hash h.ring == length h.ring then 0 else below hash h.ring)
unfolding start_index
start_index-below h hash s = rw (binary_search-below hash 0 h.ring s)

pub start_index-lt :
    (h : HashRing) (hash : ℕ)
    → IsSorted h.ring
    → 0 < length h.ring
    → start_index h hash < length h.ring
start_index-lt h hash s l = rw (start_index-below h hash s) (ground (arith, below-le hash h.ring))

-- On a sorted ring that is not empty the binary search finds the successor of every hash.
pub start_index-IsSuccessor :
    (h : HashRing) (hash : ℕ)
    → IsSorted h.ring
    → 0 < length h.ring
    → IsSuccessor hash h.ring (token_of h hash)
start_index-IsSuccessor h hash s l = elim (Bool-cases (below hash h.ring == length h.ring)) [
  | inl e ↦
      rw (start_index-below h hash s, e)
        (record {
          member = In-get_or 0 0 h.ring l;
          first = inr (λ u i. (all_below hash h.ring u (ground arith) i, head-le h.ring u s i));
        })
  | inr e ↦
      let inside : below hash h.ring < length h.ring = ground (arith, below-le hash h.ring) in
      rw (start_index-below h hash s, e)
        (record {
          member = In-get_or 0 (below hash h.ring) h.ring inside;
          first = inl (
            (get_or-below hash h.ring 0 s inside).0,
            λ u i k. (get_or-below hash h.ring u s inside).1 i k,
          );
        })
]
