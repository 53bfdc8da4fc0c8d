-- ===== src/Hashing/Replicas.antt =====
-- GetNodes against a plain description: the owners met clockwise from the key, each once.
use shc.Base.{
  ℕ, zero, suc, ◌+◌, ◌-◌, ◌%◌, ◌≤◌, ◌<◌, ◌≡◌, refl, sym, ap, ◌∙◌, inl, inr, String, List, [], ◌∷◌,
  ◌++◌, map, some, Bool, true, false, arith, ltb, ◌==◌, if◌then◌else◌, holds, length, get_or, take,
  drop, length-append, length-take-le, text_discrete, Bool-cases, All, All-map,
}
use mathlib.Core.List.{append-nil, append_assoc}
use shc.Base.GoMap.{GoMap, text_comparable, lookup, insert, value_or}
use shc.Base.GoMap.Laws.{lookup-insert}
use shc.Base.Sort.Laws.{IsSorted, below}
use shc.Hashing.Successor.{start_index-below, start_index-lt}
use shc.Hashing.{HashRing, NodeTarget, owner, address, start_index, collect_nodes, get_nodes}

-- Whether a name is among some names.
unfoldable pub among : String → List String → Bool
among n [] = false
among n (m ∷ ms) = if holds (text_discrete m n) then true else among n ms

-- The names of a list that are not among `old`, each at its first place.
unfoldable pub first_places : List String → List String → List String
unfolding among
first_places old [] = []
first_places old (n ∷ ns) =
    let without = first_places old ns in
    let with_it = first_places (n ∷ old) ns in if among n old then without else n ∷ with_it

-- The ring from the index of the binary search on, once round.
abbrev pub rotated : HashRing → ℕ → List ℕ
rotated h hash = drop (start_index h hash) h.ring ++ take (start_index h hash) h.ring

abbrev pub named : HashRing → String → NodeTarget
named h node_id = record { node_id = node_id; addr = address h node_id }

abbrev visit : HashRing → ℕ → ℕ → ℕ → List String
visit h idx zero i = []
visit h idx (suc left) i =
    owner h (get_or h.ring ((idx + i) % length h.ring) 0) ∷ visit h idx left (i + 1)

drop-get_or : (i : ℕ) (xs : List ℕ) → i < length xs → drop i xs ≡ get_or xs i 0 ∷ drop (i + 1) xs
drop-get_or i [] l = elim l [ ]
drop-get_or zero (x ∷ xs) l = refl
drop-get_or (suc i) (x ∷ xs) l =
    let e : suc i + 1 ≡ suc (i + 1) = omega arith in rw e (drop-get_or i xs (omega arith))

drop-length : (i : ℕ) (xs : List ℕ) → length xs ≤ i → drop i xs ≡ []
drop-length zero [] l = refl
drop-length zero (x ∷ xs) l = elim l [ ]
drop-length (suc i) [] l = refl
drop-length (suc i) (x ∷ xs) l = drop-length i xs (omega arith)

length-take : (n : ℕ) (xs : List ℕ) → n ≤ length xs → length (take n xs) ≡ n
length-take zero xs l = refl
length-take (suc n) [] l = elim l [ ]
length-take (suc n) (x ∷ xs) l = ap suc (length-take n xs (omega arith))

get_or-take : (n i : ℕ) (xs : List ℕ) → i < n → get_or (take n xs) i 0 ≡ get_or xs i 0
get_or-take zero i xs l = elim l [ ]
get_or-take (suc n) i [] l = refl
get_or-take (suc n) zero (x ∷ xs) l = refl
get_or-take (suc n) (suc i) (x ∷ xs) l = get_or-take n i xs (omega arith)

-- Behind the end of the ring the index starts again from 0.
visit-wrapped :
    (h : HashRing) (idx left i k : ℕ)
    → idx < length h.ring
    → i + left ≡ length h.ring
    → idx + i ≡ length h.ring + k
    → visit h idx left i ≡ map (owner h) (drop k (take idx h.ring))
visit-wrapped h idx zero i k l e f =
    rw (drop-length k (take idx h.ring) (omega (arith, length-take-le idx h.ring)))
visit-wrapped h idx (suc left) i k l e f =
    let m : k < length (take idx h.ring) = omega (arith, length-take idx h.ring (omega arith)) in
    let j : (idx + i) % length h.ring ≡ k = grind arith in
    rw (drop-get_or k (take idx h.ring) m, get_or-take idx k h.ring (omega arith), j)
      (ap (◌∷◌ (owner h (get_or h.ring k 0)))
        (visit-wrapped h idx left (i + 1) (k + 1) l (omega arith) (omega arith)))

visit-clockwise :
    (h : HashRing) (idx left i k : ℕ)
    → idx < length h.ring
    → i + left ≡ length h.ring
    → idx + i ≡ k
    → k ≤ length h.ring
    → visit h idx left i ≡ map (owner h) (drop k h.ring ++ take idx h.ring)
visit-clockwise h idx zero i k l e f m =
    let z : idx ≡ 0 = omega arith in rw (drop-length k h.ring (omega arith), z)
visit-clockwise h idx (suc left) i k l e f m = elim (Bool-cases (ltb k (length h.ring))) [
  | inl p ↦
      let q : k < length h.ring = ground arith in
      let j : (idx + i) % length h.ring ≡ k = grind arith in
      rw (j, drop-get_or k h.ring q)
        (ap (◌∷◌ (owner h (get_or h.ring k 0)))
          (visit-clockwise h idx left (i + 1) (k + 1) l (omega arith) (omega arith) (omega arith)))
  | inr p ↦
      let q : length h.ring ≤ k = ground arith in
      rw (drop-length k h.ring q) (visit-wrapped h idx (suc left) i 0 l e (omega arith))
]

seen_after :
    (n m : String) (names : List String) (seen : GoMap String Bool)
    → value_or false (lookup m seen) ≡ among m names
    → value_or false (lookup m (insert n true seen)) ≡ among m (n ∷ names)
unfolding among
seen_after n m names seen e = ground (arith, lookup-insert n m true seen)

take-nil {ℓ} : {A : Type ℓ} (n : ℕ) → ◌≡◌ {A = List A} (take n []) []
take-nil zero = refl
take-nil (suc n) = refl

none_seen : (m : String) → value_or false (lookup {V = Bool} m []) ≡ among m []
unfolding lookup among
none_seen m = refl

-- The loop appends the next names that it has not seen, as long as fewer than `count` are found.
collect_nodes-first_places :
    (h : HashRing) (idx count left i : ℕ) (seen : GoMap String Bool) (unique : List NodeTarget)
    (names : List String)
    → ((m : String) → value_or false (lookup m seen) ≡ among m names)
    → collect_nodes h idx count left i seen unique
      ≡ unique
        ++ map (named h) (take (count - length unique) (first_places names (visit h idx left i)))
unfolding collect_nodes first_places
collect_nodes-first_places h idx count zero i seen unique names s =
    rw (take-nil (count - length unique)) (sym (append-nil unique))
collect_nodes-first_places h idx count (suc left) i seen unique names s =
    elim (Bool-cases (ltb (length unique) count)) [
      | inr p ↦
          let z : count - length unique ≡ 0 = ground arith in rw (p, z) (sym (append-nil unique))
      | inl p ↦ elim (Bool-cases (among n names)) [
        | inl q ↦
            rw (p, s n, q) (collect_nodes-first_places h idx count left (i + 1) seen unique names s)
        | inr q ↦
            let room : count - length unique ≡ suc (count - length (unique ++ named h n ∷ [])) =
              ground (arith, length-append unique (named h n ∷ [])) in
            rw (p, s n, q, room)
              (collect_nodes-first_places h idx count left (i + 1) (insert n true seen)
                  (unique ++ named h n ∷ []) (n ∷ names) (λ m. seen_after n m names seen (s m))
                ∙ append_assoc unique (named h n ∷ []) _)
      ]
    ]
  where
    n : String
    n = owner h (get_or h.ring ((idx + i) % length h.ring) 0)

pub get_nodes-rotated :
    (h : HashRing) (key : String) (count : ℕ)
    → IsSorted h.ring
    → 0 < length h.ring
    → get_nodes h key count
      ≡ some (
          map
            (named h)
            (take count (first_places [] (map (owner h) (rotated h (h.hash_func key))))))
unfolding get_nodes
get_nodes-rotated h key count s l =
    let idx : ℕ = start_index h (h.hash_func key) in
    let inside : idx < length h.ring = start_index-lt h (h.hash_func key) s l in
    let z : (length h.ring == 0) ≡ false = ground arith in
    let whole : count - 0 ≡ count = omega arith in
    rw z (
      ap some (
        collect_nodes-first_places h idx count (length h.ring) 0 [] [] [] (λ m. none_seen m)
        ∙ ap (λ c. map (named h) (take c (first_places [] (visit h idx (length h.ring) 0)))) whole
        ∙ ap (λ ns. map (named h) (take count (first_places [] ns)))
            (visit-clockwise h idx (length h.ring) 0 idx inside (omega arith) (omega arith)
              (omega arith))))

abbrev at_or_after : ℕ → List ℕ → List ℕ
at_or_after hash [] = []
at_or_after hash (t ∷ ts) = let rest = at_or_after hash ts in if ltb t hash then rest else t ∷ rest

abbrev before : ℕ → List ℕ → List ℕ
before hash [] = []
before hash (t ∷ ts) = let rest = before hash ts in if ltb t hash then t ∷ rest else rest

-- The tokens at or after a hash in their order, and behind them those before it.
abbrev pub clockwise : HashRing → ℕ → List ℕ
clockwise h hash = at_or_after hash h.ring ++ before hash h.ring

none_before :
    (hash : ℕ) (ts : List ℕ)
    → All (λ t. hash ≤ t) ts
    → (at_or_after hash ts ≡ ts) × (before hash ts ≡ [])
none_before hash [] a = (refl, refl)
none_before hash (t ∷ ts) a =
    let (e, f) = none_before hash ts a.1 in
    let z : ltb t hash ≡ false = ground (arith, a.0) in rw (z, e, f) (refl, refl)

split_at-below :
    (hash : ℕ) (ts : List ℕ)
    → IsSorted ts
    → (drop (below hash ts) ts ≡ at_or_after hash ts) × (take (below hash ts) ts ≡ before hash ts)
unfolding below
split_at-below hash [] s = (refl, refl)
split_at-below hash (t ∷ ts) s = elim (Bool-cases (ltb t hash)) [
  | inl e ↦ let (f, g) = split_at-below hash ts s.1 in rw (e, f, g) (refl, refl)
  | inr e ↦
      let (f, g) =
        none_before hash ts
          (All-map (λ u. t ≤ u) (λ u. hash ≤ u) (λ u h. ground (arith, h)) ts s.0) in
      rw (e, f, g) (refl, refl)
]

take-whole : (ts : List ℕ) → take (length ts) ts ≡ ts
take-whole [] = refl
take-whole (t ∷ ts) = ap (◌∷◌ t) (take-whole ts)

rotated-clockwise : (h : HashRing) (hash : ℕ) → IsSorted h.ring → rotated h hash ≡ clockwise h hash
rotated-clockwise h hash s = elim (Bool-cases (below hash h.ring == length h.ring)) [
  | inr e ↦
      let (f, g) = split_at-below hash h.ring s in
      rw (start_index-below h hash s, e) (rw (f, g) refl)
  | inl e ↦
      let (f, g) = split_at-below hash h.ring s in
      let all : below hash h.ring ≡ length h.ring = ground arith in
      rw (start_index-below h hash s, e)
        (append-nil h.ring
          ∙ sym (λ k.
            (sym f ∙ ap (λ n. drop n h.ring) all ∙ drop-length (length h.ring) h.ring (omega arith))
              k
            ++ (sym g ∙ ap (λ n. take n h.ring) all ∙ take-whole h.ring) k))
]

-- On a sorted ring that is not empty GetNodes returns the owners of the tokens, from the first one at or
-- after the key's hash clockwise once round the ring, each owner at its first place only, up to `count`
-- of them, under the addresses that they are registered with.
pub get_nodes-clockwise :
    (h : HashRing) (key : String) (count : ℕ)
    → IsSorted h.ring
    → 0 < length h.ring
    → get_nodes h key count
      ≡ some (
          map
            (named h)
            (take count (first_places [] (map (owner h) (clockwise h (h.hash_func key))))))
get_nodes-clockwise h key count s l =
    get_nodes-rotated h key count s l
    ∙ ap (λ ts. some (map (named h) (take count (first_places [] (map (owner h) ts)))))
        (rotated-clockwise h (h.hash_func key) s)
