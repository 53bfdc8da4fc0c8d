-- ===== src/Hashing/Placement.antt =====
-- Where the copies of a key go: distinct nodes, the primary first, as many as there are.
use shc.Base.{
  ℕ, zero, suc, ◌≤◌, ◌<◌, ◌≡◌, refl, sym, ap, subst, ◌∙◌, ◌⊎◌, inl, inr, String, List, [], ◌∷◌,
  ◌++◌, map, some, true, false, true≢false, arith, In, Distinct, length, take, drop, get_or,
  length-take-le, Bool-cases, In-append_cases, In-append_left, In-append_right,
}
use shc.Base.Sort.Laws.{IsSorted}
use shc.Hashing.Successor.{token_of, start_index-lt}
use shc.Hashing.Remapping.{get_primary_node-token}
use shc.Hashing.Replicas.{among, first_places, rotated, named, get_nodes-rotated}
use shc.Hashing.{HashRing, NodeTarget, owner, start_index, get_primary_node, get_nodes}

In-of_among : (n : String) (names : List String) → among n names ≡ true → In n names
unfolding among
In-of_among n [] e = cc
In-of_among n (m ∷ names) e = ground (arith, In-of_among n names)

among_of_In : (n : String) (names : List String) → In n names → among n names ≡ true
unfolding among
among_of_In n [] i = absurd i
among_of_In n (m ∷ names) i = ground (arith, among_of_In n names)

first_places-fresh : (old ns : List String) (n : String) → In n (first_places old ns) → ¬ In n old
unfolding first_places
first_places-fresh old [] n = λ i _. i
first_places-fresh old (m ∷ ns) n = elim (Bool-cases (among m old)) [
  | inl e ↦ rw e (first_places-fresh old ns n)
  | inr e ↦ rw e (λ i o. elim i [
    | inl p ↦ not_old e p o
    | inr j ↦ first_places-fresh (m ∷ old) ns n j (inr o)
  ])
]
  where
    not_old : among m old ≡ false → m ≡ n → ¬ In n old
    not_old e p o = true≢false (sym (among_of_In m old (rw p o)) ∙ e)

first_places-Distinct : (old ns : List String) → Distinct (first_places old ns)
unfolding first_places
first_places-Distinct old [] = tt
first_places-Distinct old (m ∷ ns) = elim (Bool-cases (among m old)) [
  | inl e ↦ rw e (first_places-Distinct old ns)
  | inr e ↦
      rw e
        ((λ i. first_places-fresh (m ∷ old) ns m i (inl refl)), first_places-Distinct (m ∷ old) ns)
]

first_places-all :
    (old ns : List String) (n : String) → In n ns → In n old ⊎ In n (first_places old ns)
unfolding first_places
first_places-all old [] n i = absurd i
first_places-all old (m ∷ ns) n i = elim (Bool-cases (among m old)) [
  | inl e ↦ rw e (elim i [
    | inl p ↦ inl (subst (λ x. In x old) p (In-of_among m old e))
    | inr j ↦ first_places-all old ns n j
  ])
  | inr e ↦ rw e (elim i [
    | inl p ↦ inr (inl p)
    | inr j ↦ elim (first_places-all (m ∷ old) ns n j) [
      | inl o ↦ elim o [ inl p ↦ inr (inl p) | inr q ↦ inl q ]
      | inr r ↦ inr (inr r)
    ]
  ])
]

In-take : (k : ℕ) (ns : List String) (n : String) → In n (take k ns) → In n ns
In-take zero ns n i = absurd i
In-take (suc k) [] n i = absurd i
In-take (suc k) (m ∷ ns) n (inl p) = inl p
In-take (suc k) (m ∷ ns) n (inr j) = inr (In-take k ns n j)

take-Distinct : (k : ℕ) (ns : List String) → Distinct ns → Distinct (take k ns)
take-Distinct zero ns d = tt
take-Distinct (suc k) [] d = tt
take-Distinct (suc k) (m ∷ ns) d = (λ i. d.0 (In-take k ns m i), take-Distinct k ns d.1)

take-full : (k : ℕ) (ns : List String) → (length (take k ns) ≡ k) ⊎ (take k ns ≡ ns)
take-full zero ns = inl refl
take-full (suc k) [] = inr refl
take-full (suc k) (m ∷ ns) = elim (take-full k ns) [
  | inl e ↦ inl (ap suc e)
  | inr e ↦ inr (ap (◌∷◌ m) e)
]

abbrev pub ids : List NodeTarget → List String
ids = map (λ n. n.node_id)

ids-named : (h : HashRing) (ns : List String) → ids (map (named h) ns) ≡ ns
ids-named h [] = refl
ids-named h (n ∷ ns) = ap (◌∷◌ n) (ids-named h ns)

length-ids : (ns : List NodeTarget) → length ns ≡ length (ids ns)
length-ids [] = refl
length-ids (n ∷ ns) = ap suc (length-ids ns)

In-clockwise : (i : ℕ) (ring : List ℕ) (t : ℕ) → In t ring → In t (drop i ring ++ take i ring)
In-clockwise zero ring t m = In-append_left ring [] t m
In-clockwise (suc i) [] t m = absurd m
In-clockwise (suc i) (u ∷ ring) t (inl p) =
    In-append_right (drop i ring) (u ∷ take i ring) t (inl p)
In-clockwise (suc i) (u ∷ ring) t (inr j) =
    elim (In-append_cases (drop i ring) (take i ring) t (In-clockwise i ring t j)) [
      | inl a ↦ In-append_left (drop i ring) (u ∷ take i ring) t a
      | inr b ↦ In-append_right (drop i ring) (u ∷ take i ring) t (inr b)
    ]

In-map : (h : HashRing) (ring : List ℕ) (t : ℕ) → In t ring → In (owner h t) (map (owner h) ring)
In-map h [] t m = absurd m
In-map h (u ∷ ring) t (inl p) = inl (ap (owner h) p)
In-map h (u ∷ ring) t (inr j) = inr (In-map h ring t j)

clockwise-head :
    (i : ℕ) (ring : List ℕ)
    → i < length ring
    → (rest : List ℕ) × (drop i ring ++ take i ring ≡ get_or ring i 0 ∷ rest)
clockwise-head i [] l = elim l [ ]
clockwise-head zero (u ∷ ring) l = (ring ++ [], refl)
clockwise-head (suc i) (u ∷ ring) l =
    let (rest, e) = starts i ring (omega arith) in
    (rest ++ u ∷ take i ring, ap (λ xs. xs ++ u ∷ take i ring) e)
  where
    starts :
        (j : ℕ) (xs : List ℕ) → j < length xs → (rest : List ℕ) × (drop j xs ≡ get_or xs j 0 ∷ rest)
    starts j [] m = elim m [ ]
    starts zero (x ∷ xs) m = (xs, refl)
    starts (suc j) (x ∷ xs) m = starts j xs (omega arith)

first_places-head :
    (n : String) (ns : List String) → first_places [] (n ∷ ns) ≡ n ∷ first_places (n ∷ []) ns
unfolding first_places
first_places-head n ns = refl

-- What a list of nodes must be to hold the copies of a key.
pub record IsPlacement (h : HashRing) (key : String) (count : ℕ) (nodes : List NodeTarget)
    : Type 0 where
  pub distinct : Distinct (ids nodes)
  pub bounded : length nodes ≤ count
  pub full : (length nodes ≡ count) ⊎ ((t : ℕ) → In t h.ring → In (owner h t) (ids nodes))
  pub primary :
      (first : NodeTarget) × (rest : List NodeTarget) × (nodes ≡ first ∷ rest)
      × (get_primary_node h key ≡ some (first, h.hash_func key))

placed : (h : HashRing) (key : String) (count : ℕ) → List String
placed h key count = take count (first_places [] (map (owner h) (rotated h (h.hash_func key))))

-- Asked for at least one node, GetNodes on a sorted ring that is not empty answers with distinct
-- nodes, the primary node of the key first, and with as many as it was asked for unless it
-- returns every node that owns a token.
pub get_nodes-IsPlacement :
    (h : HashRing) (key : String) (count : ℕ)
    → IsSorted h.ring
    → 0 < length h.ring
    → (nodes : List NodeTarget) × (get_nodes h key (suc count) ≡ some nodes)
      × IsPlacement h key (suc count) nodes
unfolding placed
get_nodes-IsPlacement h key count s l = (
  map (named h) names,
  get_nodes-rotated h key (suc count) s l,
  record {
    distinct = rw (ids-named h names) (take-Distinct (suc count) all (first_places-Distinct [] ns));
    bounded = omega (
      arith,
      length-ids (map (named h) names),
      ap length (ids-named h names),
      length-take-le (suc count) all,
    );
    full = elim (take-full (suc count) all) [
      | inl e ↦ inl (length-ids (map (named h) names) ∙ ap length (ids-named h names) ∙ e)
      | inr e ↦ inr (λ t m. rw (ids-named h names, e) (found t m))
    ];
    primary = first;
  },
)
  where
    hash : ℕ
    hash = h.hash_func key

    ns : List String
    ns = map (owner h) (rotated h hash)

    all : List String
    all = first_places [] ns

    names : List String
    names = placed h key (suc count)

    found : (t : ℕ) → In t h.ring → In (owner h t) all
    found t m =
        elim (first_places-all [] ns (owner h t)
          (In-map h (rotated h hash) t (In-clockwise (start_index h hash) h.ring t m))) [
            | inl o ↦ absurd o
            | inr i ↦ i
          ]

    first :
        (n : NodeTarget) × (rest : List NodeTarget) × (map (named h) names ≡ n ∷ rest)
        × (get_primary_node h key ≡ some (n, hash))
    first =
        let (rest, e) = clockwise-head (start_index h hash) h.ring (start_index-lt h hash s l) in
        (
          named h (owner h (token_of h hash)),
          map (named h)
              (take count (first_places (owner h (token_of h hash) ∷ []) (map (owner h) rest))),
          ap (λ ts. map (named h) (take (suc count) (first_places [] (map (owner h) ts)))) e
              ∙ ap (λ ps. map (named h) (take (suc count) ps))
                  (first_places-head (owner h (token_of h hash)) (map (owner h) rest)),
          get_primary_node-token h key l,
        )
