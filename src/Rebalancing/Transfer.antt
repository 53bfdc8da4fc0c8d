-- ===== src/Rebalancing/Transfer.antt =====
-- What a dump carries to another node, and which keys a rebalance sends to a new one.
use shc.Base.{
  ℕ, leb, ◌==◌, false, refl, ◌+◌, ◌-◌, ◌*◌, ◌/◌, ◌≤◌, ◌<◌, ◌≡◌, ◌≢◌, ap, ◌∙◌, inl, inr, String,
  List, [], ◌∷◌, Option, none, some, arith, if◌then◌else◌, In, Distinct, Bool-cases,
}
use shc.Base.Int.{ℤ, pos, pos_part, is_positive}
use shc.Base.Words.{
  second, whole_seconds, saturated, whole_seconds-short, whole_seconds-near, seconds-exact,
}
use shc.Base.GoMap.Laws.{lookup-insert_self}
use shc.Base.GoMap.{text_comparable, lookup}
use shc.Cache.{Cache, get, set_with_metadata, next_version}
use shc.Cache.Items.{Item, ttl_remaining}
use shc.Cache.Views.{IsValid, unexpired, get_result, get-lookup_other}
use shc.Cache.History.{get-IsValid}
use shc.Hashing.{HashRing, get_nodes}
use shc.Rebalancing.{
  DumpItem, dump_item, load_item, alone, dump_keys, item_ttl, first_is, keys_to_migrate, dump_found,
  move_found,
}

pub next_version-pos : (v : ℕ) (o : Option Item) → 0 < v → next_version v o ≡ v
unfolding next_version
next_version-pos v none h = ground arith
next_version-pos v (some item) h = ground arith

-- When an item ends that is stored for a number of seconds.
abbrev end_after : ℤ → ℕ → ℕ
end_after ttl_seconds now =
    if is_positive (item_ttl ttl_seconds) then now + pos_part (item_ttl ttl_seconds) else 0

end_after-seconds : (n now : ℕ) → 0 < n → n ≤ 9223372036 → end_after (pos n) now ≡ now + n * second
end_after-seconds n now h k = ground (arith, seconds-exact n)

ttl_remaining-left :
    (item : Item) (until : ℕ)
    → until < item.expires_at
    → item.expires_at < until + 9223372036854775808
    → ttl_remaining item until ≡ pos (whole_seconds (item.expires_at - until))
unfolding ttl_remaining
ttl_remaining-left item until h b = ground arith

ttl_remaining-short :
    (item : Item) (until : ℕ)
    → item.expires_at < until + second
    → is_positive (ttl_remaining item until) ≡ false
unfolding ttl_remaining
ttl_remaining-short item until h = elim (Bool-cases (item.expires_at == 0)) [
  | inl e ↦ rw e refl
  | inr e ↦ elim (Bool-cases (leb item.expires_at until)) [
    | inl f ↦ rw (e, f) refl
    | inr f ↦
        let left : saturated (item.expires_at - until) ≡ item.expires_at - until = ground arith in
        let z : whole_seconds (item.expires_at - until) ≡ 0 =
          whole_seconds-short (item.expires_at - until) (omega arith) ∙ omega arith in
        rw (e, f) (rw left (rw z refl))
  ]
]

-- When a copy ends that was made with at least a second left.
pub record EndsNear (left now copy_end : ℕ) : Type 0 where
  pub whole : ℕ
  pub ends : copy_end ≡ now + whole * second
  pub least : left / second ≤ whole
  pub most : whole ≤ left / second + 1
  pub exact : left / second < 16777216 → whole ≡ left / second

copy_end-long :
    (item : Item) (until now : ℕ)
    → item.expires_at < until + 9223372036000000000
    → until + second ≤ item.expires_at
    → EndsNear (item.expires_at - until) now (end_after (ttl_remaining item until) now)
copy_end-long item until now b h =
    let left : ℕ = item.expires_at - until in
    let (least, most) = whole_seconds-near left in
    rw (ttl_remaining-left item until (omega arith) (omega arith)) (record {
      whole = whole_seconds left;
      ends = end_after-seconds (whole_seconds left) now (omega arith) (omega arith);
      least = least;
      most = most;
      exact = whole_seconds-short left;
    })

copy_end-short :
    (item : Item) (until now : ℕ)
    → item.expires_at < until + second
    → end_after (ttl_remaining item until) now ≡ 0
copy_end-short item until now h = ground (arith, ttl_remaining-short item until h)

-- An item that one node dumps and another loads, with a version other than 0 and fewer than 9223372036
-- seconds left, is found there under its key, with its value, version and kind. With at least a second
-- left, its new lifetime is the old one in whole seconds: rounded down below 2^24 seconds, and above at
-- most one second more than that. Without a TTL, and also with less than a second left, it never
-- expires.
pub load_item-dump_item :
    (c : Cache) (item : Item) (until now : ℕ)
    → 0 < item.version
    → item.expires_at < until + 9223372036000000000
    → let sent = dump_item item until item.is_replica in
      (copy : Item) × (lookup item.key (load_item c sent sent.is_replica now).items ≡ some copy)
      × (copy.key ≡ item.key)
      × (copy.value ≡ item.value)
      × (copy.version ≡ item.version)
      × (copy.is_replica ≡ item.is_replica)
      × (until + second ≤ item.expires_at → EndsNear (item.expires_at - until) now copy.expires_at)
      × (item.expires_at < until + second → copy.expires_at ≡ 0)
unfolding set_with_metadata dump_item
load_item-dump_item c item until now v b = (
  _,
  lookup-insert_self item.key _ c.items,
  refl,
  refl,
  next_version-pos item.version (lookup item.key c.items) v,
  refl,
  copy_end-long item until now b,
  copy_end-short item until now,
)

-- The items of a dump, read off the cache as it was before the loop.
abbrev listed : Cache → (String → ℕ) → (String → ℕ) → List String → List DumpItem
listed c at until [] = []
listed c at until (key ∷ rest) =
    dump_found (unexpired (lookup key c.items) (at key)) until key (listed c at until rest)

listed-same :
    (c d : Cache) (at until : String → ℕ) (ks : List String)
    → ((j : String) → In j ks → lookup j d.items ≡ lookup j c.items)
    → listed d at until ks ≡ listed c at until ks
listed-same c d at until [] same = refl
listed-same c d at until (key ∷ rest) same =
    rw (same key (inl refl), listed-same c d at until rest (λ j i. same j (inr i)))

apart_of_Distinct : (key j : String) (rest : List String) → ¬ In key rest → In j rest → key ≢ j
apart_of_Distinct key j rest n i e = n (rw e i)

-- Each Get of the loop removes at most its own key, so the dump is that of the cache as it was.
pub dump_keys-listed :
    (c : Cache) (ks : List String) (at until : String → ℕ)
    → IsValid c
    → Distinct ks
    → (dump_keys c ks at until).1 ≡ listed c at until ks
unfolding dump_keys
dump_keys-listed c [] at until v d = refl
dump_keys-listed c (key ∷ rest) at until v d = rw (get_result alone c key (at key) (at key)) (
    ap (dump_found (unexpired (lookup key c.items) (at key)) until key) (
      dump_keys-listed (get alone c key (at key) (at key)).0 rest at until
        (get-IsValid c key (at key) (at key) v) d.1
      ∙ listed-same c (get alone c key (at key) (at key)).0 at until rest (λ j i.
        get-lookup_other c key j (at key) (at key) v (apart_of_Distinct key j rest d.0 i))))

-- The items that a rebalance sends, read off the cache as it was before the loop.
abbrev pub migrated :
    String → HashRing → Cache → (String → ℕ) → (String → ℕ) → List String → List DumpItem
migrated node_id ring c at until [] = []
migrated node_id ring c at until (key ∷ rest) =
    if first_is node_id (get_nodes ring key 2)
    then move_found (unexpired (lookup key c.items) (at key)) until key
        (migrated node_id ring c at until rest)
    else migrated node_id ring c at until rest

migrated-same :
    (node_id : String) (ring : HashRing) (c d : Cache) (at until : String → ℕ) (ks : List String)
    → ((j : String) → In j ks → lookup j d.items ≡ lookup j c.items)
    → migrated node_id ring d at until ks ≡ migrated node_id ring c at until ks
migrated-same node_id ring c d at until [] same = refl
migrated-same node_id ring c d at until (key ∷ rest) same =
    rw (same key (inl refl), migrated-same node_id ring c d at until rest (λ j i. same j (inr i)))

pub keys_to_migrate-migrated :
    (node_id : String) (ring : HashRing) (c : Cache) (ks : List String) (at until : String → ℕ)
    → IsValid c
    → Distinct ks
    → (keys_to_migrate node_id ring c ks at until).1 ≡ migrated node_id ring c at until ks
unfolding keys_to_migrate
keys_to_migrate-migrated node_id ring c [] at until v d = refl
keys_to_migrate-migrated node_id ring c (key ∷ rest) at until v d =
    elim (Bool-cases (first_is node_id (get_nodes ring key 2))) [
      | inr e ↦ rw e (keys_to_migrate-migrated node_id ring c rest at until v d.1)
      | inl e ↦
          rw (e, get_result alone c key (at key) (at key))
            (ap (move_found (unexpired (lookup key c.items) (at key)) until key) (
              keys_to_migrate-migrated node_id ring (get alone c key (at key) (at key)).0 rest at
                until (get-IsValid c key (at key) (at key) v) d.1
              ∙ migrated-same node_id ring c (get alone c key (at key) (at key)).0 at until rest
                  (λ j i.
                    get-lookup_other c key j (at key) (at key) v
                      (apart_of_Distinct key j rest d.0 i))))
    ]
