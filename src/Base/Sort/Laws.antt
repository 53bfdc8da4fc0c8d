-- ===== src/Base/Sort/Laws.antt =====
-- A sorted list holds the same numbers in order, and a binary search over a monotone test finds
-- the first index that passes it.
use shc.Base.Tests.{ltb, leb, if◌then◌else◌, Bool-cases}
use shc.Base.Lists.{length, get_or, All, All-map, In, Distinct}
use shc.Base.Sort.{insert_sorted, sort, search_from, binary_search}
use Prim.Native.Nat.{ℕ, zero, suc, ◌+◌, ◌-◌, ◌/◌, ◌≤◌, ◌<◌}
use mathlib.Core.Path.{◌≡◌, refl}
use mathlib.Core.Logic.{inl, inr}
use mathlib.Core.Bool.{Bool}
use mathlib.Core.List.{List, [], ◌∷◌}
use native.Mathlib.Omega.{arith}

-- Each element is at most the ones after it.
abbrev pub IsSorted : List ℕ → Type 0
IsSorted [] = Unit
IsSorted (x ∷ xs) = All (λ y. x ≤ y) xs × IsSorted xs

insert_sorted-All :
    (b x : ℕ) (ys : List ℕ) → b ≤ x → All (λ y. b ≤ y) ys → All (λ y. b ≤ y) (insert_sorted x ys)
unfolding insert_sorted
insert_sorted-All b x [] h a = (h, tt)
insert_sorted-All b x (y ∷ ys) h a = ground (arith, insert_sorted-All b x ys h a.1)

insert_sorted-IsSorted : (x : ℕ) (ys : List ℕ) → IsSorted ys → IsSorted (insert_sorted x ys)
unfolding insert_sorted
insert_sorted-IsSorted x [] s = (tt, tt)
insert_sorted-IsSorted x (y ∷ ys) s = elim (Bool-cases (ltb y x)) [
  | inl e ↦ rw e (insert_sorted-All y x ys (ground arith) s.0, insert_sorted-IsSorted x ys s.1)
  | inr e ↦ rw e ((ground arith, All-map _ _ (λ z h. below z h (ground arith)) ys s.0), s)
]
  where
    below : (z : ℕ) → y ≤ z → x ≤ y → x ≤ z
    below z h k = omega arith

pub sort-IsSorted : (xs : List ℕ) → IsSorted (sort xs)
unfolding sort
sort-IsSorted [] = tt
sort-IsSorted (x ∷ xs) = insert_sorted-IsSorted x (sort xs) (sort-IsSorted xs)

In-insert_sorted : (x a : ℕ) (ys : List ℕ) → In a (insert_sorted x ys) → In a (x ∷ ys)
unfolding insert_sorted
In-insert_sorted x a [] h = h
In-insert_sorted x a (y ∷ ys) h = ground (arith, In-insert_sorted x a ys)

insert_sorted-In : (x a : ℕ) (ys : List ℕ) → In a (x ∷ ys) → In a (insert_sorted x ys)
unfolding insert_sorted
insert_sorted-In x a [] h = h
insert_sorted-In x a (y ∷ ys) h = ground (arith, insert_sorted-In x a ys)

pub In-sort : (a : ℕ) (xs : List ℕ) → In a (sort xs) → In a xs
unfolding sort
In-sort a [] h = h
In-sort a (x ∷ xs) h = elim (In-insert_sorted x a (sort xs) h) [
  | inl e ↦ inl e
  | inr m ↦ inr (In-sort a xs m)
]

pub sort-In : (a : ℕ) (xs : List ℕ) → In a xs → In a (sort xs)
unfolding sort
sort-In a [] h = h
sort-In a (x ∷ xs) (inl e) = insert_sorted-In x a (sort xs) (inl e)
sort-In a (x ∷ xs) (inr m) = insert_sorted-In x a (sort xs) (inr (sort-In a xs m))

length-insert_sorted : (x : ℕ) (ys : List ℕ) → length (insert_sorted x ys) ≡ suc (length ys)
unfolding insert_sorted
length-insert_sorted x [] = refl
length-insert_sorted x (y ∷ ys) = ground (arith, length-insert_sorted x ys)

pub length-sort : (xs : List ℕ) → length (sort xs) ≡ length xs
unfolding sort
length-sort [] = refl
length-sort (x ∷ xs) = omega (arith, length-insert_sorted x (sort xs), length-sort xs)

insert_sorted-Distinct :
    (x : ℕ) (ys : List ℕ) → ¬ In x ys → Distinct ys → Distinct (insert_sorted x ys)
unfolding insert_sorted
insert_sorted-Distinct x [] n d = (n, d)
insert_sorted-Distinct x (y ∷ ys) n d =
    ground (arith, insert_sorted-Distinct x ys, In-insert_sorted x y ys)

pub sort-Distinct : (xs : List ℕ) → Distinct xs → Distinct (sort xs)
unfolding sort
sort-Distinct [] d = tt
sort-Distinct (x ∷ xs) d =
    insert_sorted-Distinct x (sort xs) (λ m. d.0 (In-sort x xs m)) (sort-Distinct xs d.1)

-- How many numbers at the front lie below `h`.
unfoldable pub below : ℕ → List ℕ → ℕ
below h [] = 0
below h (x ∷ xs) = if ltb x h then suc (below h xs) else 0

pub below-le : (h : ℕ) (xs : List ℕ) → below h xs ≤ length xs
unfolding below
below-le h [] = omega arith
below-le h (x ∷ xs) = ground (arith, below-le h xs)

pub get_or-All : (b d i : ℕ) (xs : List ℕ) → All (λ y. b ≤ y) xs → i < length xs → b ≤ get_or xs i d
get_or-All b d i [] a h = elim h [ ]
get_or-All b d zero (x ∷ xs) a h = a.0
get_or-All b d (suc i) (x ∷ xs) a h = get_or-All b d i xs a.1 (omega arith)

-- In a sorted list the test `h <= xs[i]` fails before `below h xs` and passes from there on.
pub test_below :
    (h d i : ℕ) (xs : List ℕ)
    → IsSorted xs
    → i < length xs
    → leb h (get_or xs i d) ≡ leb (below h xs) i
unfolding below
test_below h d i [] s l = elim l [ ]
test_below h d zero (x ∷ xs) s l = ground arith
test_below h d (suc i) (x ∷ xs) s l =
    ground (arith, test_below h d i xs s.1, get_or-All x d i xs s.0)

-- The loop keeps the answer between its bounds; the width of the interval is enough fuel.
search_from-below :
    (fuel : ℕ) (f : ℕ → Bool) (r i j : ℕ)
    → ((k : ℕ) → k < j → f k ≡ leb r k)
    → i ≤ r
    → r ≤ j
    → j - i < fuel
    → search_from fuel f i j ≡ r
unfolding search_from
search_from-below zero f r i j t a b l = absurd (omega arith)
search_from-below (suc fuel) f r i j t a b l = elim (Bool-cases (ltb i j)) [
  | inr e ↦ rw e (ground arith)
  | inl e ↦ elim (Bool-cases (leb r ((i + j) / 2))) [
    | inl p ↦
        rw (e, t ((i + j) / 2) (ground arith), p)
          (search_from-below fuel f r i ((i + j) / 2) (λ k q. t k (ground arith)) a (ground arith)
            (ground arith))
    | inr p ↦
        rw (e, t ((i + j) / 2) (ground arith), p)
          (search_from-below fuel f r ((i + j) / 2 + 1) j t (ground arith) b (ground arith))
  ]
]

-- sort.Search over a sorted list: the number of elements below `h`.
pub binary_search-below :
    (h d : ℕ) (xs : List ℕ)
    → IsSorted xs
    → binary_search (length xs) (λ i. leb h (get_or xs i d)) ≡ below h xs
unfolding binary_search
binary_search-below h d xs s =
    search_from-below (length xs + 1) _ (below h xs) 0 (length xs) (λ k q. test_below h d k xs s q)
      (omega arith) (below-le h xs) (omega arith)
