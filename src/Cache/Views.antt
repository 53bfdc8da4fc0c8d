-- ===== src/Cache/Views.antt =====
-- What a reader of the store sees at a time, and how each method changes it.
use shc.Base.{
  ℕ, ◌≤◌, ◌≡◌, ◌≢◌, refl, ap, ◌∙◌, inl, inr, ite, String, Option, none, some, Bool, true, [], ◌∷◌,
  arith, if◌then◌else◌, Distinct, text_discrete, Bool-cases, Option-cases,
}
use shc.Base.Int.{ℤ}
use shc.Base.Words.{inc64}
use shc.Base.GoMap.{GoMap, text_comparable, lookup, insert, delete}
use shc.Base.GoMap
use shc.Base.GoMap.Laws.{lookup-insert, lookup-delete, lookup-none_of_not-In}
use shc.Cache.Items.{Item, is_expired}
use shc.Cache.{
  Cache, new_item, set_with_metadata, drop_expired, get_item, get, remove_entry, remove,
  purge_items, purge_expired,
}

-- One entry for a key.
abbrev pub IsValid : Cache → Type 0
IsValid c = Distinct (GoMap.keys c.items)

-- The item that is stored, unless its time is over.
unfoldable pub unexpired : Option Item → ℕ → Option Item
unexpired none now = none
unexpired (some item) now = if is_expired item now then none else some item

abbrev pub visible : Cache → String → ℕ → Option Item
visible c key now = unexpired (lookup key c.items) now

-- An item that has expired stays so.
pub is_expired_mono :
    (item : Item) (now later : ℕ)
    → now ≤ later
    → is_expired item now ≡ true
    → is_expired item later ≡ true
unfolding is_expired
is_expired_mono item now later h e = ground arith

-- Whatever others do meanwhile, Get returns what was visible when it read the map.
pub get_result :
    (others : Cache → Cache) (c : Cache) (key : String) (now later : ℕ)
    → (get others c key now later).1 ≡ visible c key now
unfolding get unexpired
get_result others c key now later = ground arith

delete-visible :
    (m : GoMap String Item) (key j : String) (item : Item) (now t : ℕ)
    → Distinct (GoMap.keys m)
    → lookup key m ≡ some item
    → is_expired item now ≡ true
    → now ≤ t
    → unexpired (lookup j (delete key m)) t ≡ unexpired (lookup j m) t
unfolding unexpired
delete-visible m key j item now t d e x h =
    rw (lookup-delete key j m d) (ground (arith, is_expired_mono item now t h))

drop_expired-visible :
    (o : Option Item) (c : Cache) (key j : String) (now t : ℕ)
    → lookup key c.items ≡ o
    → IsValid c
    → now ≤ t
    → visible (drop_expired o c key now) j t ≡ visible c j t
unfolding drop_expired
drop_expired-visible none c key j now t e v h = refl
drop_expired-visible (some item) c key j now t e v h = elim (Bool-cases (is_expired item now)) [
  | inl x ↦ rw x (delete-visible c.items key j item now t v e x h)
  | inr x ↦ rw x
]

-- The lazy removal of Get changes nothing that can be seen from then on.
pub get-visible :
    (others : Cache → Cache) (c : Cache) (key j : String) (now later t : ℕ)
    → IsValid (others c)
    → later ≤ t
    → visible (get others c key now later).0 j t ≡ visible (others c) j t
unfolding get get_item
get-visible others c key j now later t v h = elim (Option-cases (lookup key c.items)) [
  | inl e ↦ rw (e, get_item)
  | inr (item, e) ↦ elim (Bool-cases (is_expired item now)) [
    | inl x ↦
        rw (e, get_item)
          (rw x
            (drop_expired-visible (lookup key (others c).items) (others c) key j later t refl v h))
    | inr x ↦ rw (e, get_item) (rw x)
  ]
]

-- Set makes its item the one that is visible at its key, and leaves the other keys alone.
pub set_with_metadata-visible :
    (c : Cache) (key value : String) (ttl : ℤ) (version : ℕ) (is_replica : Bool) (now : ℕ)
    (j : String) (t : ℕ)
    → let (c', item) = set_with_metadata c key value ttl version is_replica now in
      visible c' j t ≡ ite (text_discrete key j) (unexpired (some item) t) (visible c j t)
unfolding set_with_metadata
set_with_metadata-visible c key value ttl version is_replica now j t =
    let item : Item = new_item c.items key value ttl version is_replica now in
    ap (λ o. unexpired o t) (lookup-insert key j item c.items)
    ∙ (elim (text_discrete key j)
        as (λ d.
          unexpired (ite d (some item) (lookup j c.items)) t
          ≡ ite d (unexpired (some item) t) (visible c j t)) [ yes p ↦ refl | no p ↦ refl ])

-- Delete hides its key and no other.
pub remove-visible :
    (c : Cache) (key j : String) (t : ℕ)
    → IsValid c
    → visible (remove c key).0 j t ≡ ite (text_discrete key j) none (visible c j t)
unfolding remove remove_entry unexpired
remove-visible c key j t v = elim (Option-cases (lookup key c.items)) [
  | inl e ↦ rw (e, remove_entry) (ground arith)
  | inr (item, e) ↦ rw (e, remove_entry) (ground (arith, lookup-delete key j c.items v))
]

purge_items-lookup :
    (m : GoMap String Item) (n now : ℕ) (j : String) (t : ℕ)
    → Distinct (GoMap.keys m)
    → now ≤ t
    → unexpired (lookup j (purge_items m n now).0) t ≡ unexpired (lookup j m) t
unfolding purge_items lookup unexpired
purge_items-lookup [] n now j t d h = refl
purge_items-lookup ((k, item) ∷ m) n now j t d h = ground (
  arith,
  purge_items-lookup m (if is_expired item now then inc64 n else n) now j t,
  is_expired_mono item now t h,
  lookup-none_of_not-In j m,
)

-- The cleanup removes nothing that could still be seen.
pub purge_expired-visible :
    (c : Cache) (now : ℕ) (j : String) (t : ℕ)
    → IsValid c
    → now ≤ t
    → visible (purge_expired c now) j t ≡ visible c j t
unfolding purge_expired
purge_expired-visible c now j t v h = purge_items-lookup c.items c.expired_count now j t v h

drop_expired-lookup_other :
    (o : Option Item) (c : Cache) (key j : String) (now : ℕ)
    → IsValid c
    → key ≢ j
    → lookup j (drop_expired o c key now).items ≡ lookup j c.items
unfolding drop_expired
drop_expired-lookup_other none c key j now v n = refl
drop_expired-lookup_other (some item) c key j now v n =
    ground (arith, lookup-delete key j c.items v)

-- Get touches no entry but its own.
pub get-lookup_other :
    (c : Cache) (key j : String) (now later : ℕ)
    → IsValid c
    → key ≢ j
    → lookup j (get (λ other. other) c key now later).0.items ≡ lookup j c.items
unfolding get
get-lookup_other c key j now later v n = elim (Option-cases (lookup key c.items)) [
  | inl e ↦ rw (e, get_item)
  | inr (item, e) ↦ elim (Bool-cases (is_expired item now)) [
    | inl x ↦
        rw (e, get_item) (rw x (drop_expired-lookup_other (lookup key c.items) c key j later v n))
    | inr x ↦ rw (e, get_item) (rw x)
  ]
]
