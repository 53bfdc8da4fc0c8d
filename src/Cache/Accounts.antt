-- ===== src/Cache/Accounts.antt =====
-- The counters of one node's store against the calls that it served, and what Stats and Keys report.
use shc.Base.{
  ℕ, suc, ◌+◌, ◌≤◌, ◌<◌, ◌≡◌, ◌≢◌, refl, sym, ◌∙◌, inl, inr, ◌⊎◌, String, Option, none, some, Bool,
  true, false, [], ◌∷◌, arith, if◌then◌else◌, length, In, Distinct,
}
use shc.Base.Int.{ℤ}
use shc.Base.Words.{inc64, u64_mod}
use shc.Base.GoMap.{GoMap, text_comparable, lookup}
use shc.Base.GoMap
use shc.Base.GoMap.Laws.{length-insert, length-delete, In-keys_of_lookup}
use shc.Cache.Items.{Item, is_expired}
use shc.Cache.Views.{IsValid, unexpired, get_result}
use shc.Cache.History.{sets, gets, removes, purges, History, step, run, fresh}
use shc.Cache.{
  Cache, new, set_with_metadata, drop_expired, get_item, get, remove_entry, remove, purge_items,
  purge_expired, count_replicas, stats, active_keys, keys,
}

abbrev pub count_sets : History → ℕ
count_sets [] = 0
count_sets ((now, sets key value ttl version is_replica) ∷ h) = suc (count_sets h)
count_sets ((now, call) ∷ h) = count_sets h

abbrev pub count_gets : History → ℕ
count_gets [] = 0
count_gets ((now, gets key) ∷ h) = suc (count_gets h)
count_gets ((now, call) ∷ h) = count_gets h

-- The counters, for `s` writes and `g` reads.
pub record IsAccounted (c : Cache) (s g : ℕ) : Type 0 where
  pub writes : c.set_count ≡ s
  pub reads : c.hit_count + c.miss_count ≡ g
  pub entries : length c.items + c.delete_count + c.expired_count ≤ s

length-purge_items :
    (m : GoMap String Item) (n now : ℕ)
    → n + length m < u64_mod
    → length (purge_items m n now).0 + (purge_items m n now).1 ≡ length m + n
unfolding purge_items
length-purge_items [] n now h = refl
length-purge_items ((k, item) ∷ m) n now h =
    ground (arith, length-purge_items m (if is_expired item now then inc64 n else n) now)

module _ (s g : ℕ) where
  set-IsAccounted :
      (c : Cache) (key value : String) (ttl : ℤ) (version : ℕ) (is_replica : Bool) (now : ℕ)
      → s + 1 < u64_mod
      → IsAccounted c s g
      → IsAccounted (set_with_metadata c key value ttl version is_replica now).0 (suc s) g
  unfolding set_with_metadata
  set-IsAccounted c key value ttl version is_replica now h a = ground (
    arith,
    length-insert key (set_with_metadata c key value ttl version is_replica now).1 c.items,
  )

  drop_expired-IsAccounted :
      (o : Option Item) (c : Cache) (key : String) (now : ℕ)
      → lookup key c.items ≡ o
      → s < u64_mod
      → IsAccounted c s g
      → IsAccounted (drop_expired o c key now) s g
  unfolding drop_expired
  drop_expired-IsAccounted none c key now e h a = a
  drop_expired-IsAccounted (some item) c key now e h a =
      ground (arith, length-delete key item c.items e)

  get_item-IsAccounted :
      (o : Option Item) (c : Cache) (key : String) (now : ℕ)
      → s < u64_mod
      → g + 1 < u64_mod
      → IsAccounted c s g
      → IsAccounted (get_item (λ other. other) c key o now now).0 s (suc g)
  unfolding get_item
  get_item-IsAccounted none c key now h k a = ground arith
  get_item-IsAccounted (some item) c key now h k a =
      ground (arith, drop_expired-IsAccounted (lookup key c.items) c key now refl h a)

  remove_entry-IsAccounted :
      (o : Option Item) (c : Cache) (key : String)
      → lookup key c.items ≡ o
      → s < u64_mod
      → IsAccounted c s g
      → IsAccounted (remove_entry o c key).0 s g
  unfolding remove_entry
  remove_entry-IsAccounted none c key e h a = a
  remove_entry-IsAccounted (some item) c key e h a =
      ground (arith, length-delete key item c.items e)

  purge_expired-IsAccounted :
      (c : Cache) (now : ℕ)
      → s < u64_mod
      → IsAccounted c s g
      → IsAccounted (purge_expired c now) s g
  unfolding purge_expired
  purge_expired-IsAccounted c now h a =
      ground (arith, length-purge_items c.items c.expired_count now)

counts-le : (h : History) → count_sets h + count_gets h ≤ length h
counts-le [] = omega arith
counts-le ((now, sets key value ttl version is_replica) ∷ h) = omega (arith, counts-le h)
counts-le ((now, gets key) ∷ h) = omega (arith, counts-le h)
counts-le ((now, removes key) ∷ h) = omega (arith, counts-le h)
counts-le ((now, purges) ∷ h) = omega (arith, counts-le h)

-- After any history shorter than 2^64 calls on a new cache, the set counter is the number of
-- writes, the hits and misses together are the number of reads, and the stored items, the deletes
-- and the expiries together are at most the number of writes: nothing is counted or removed twice.
pub run-IsAccounted :
    (interval : ℤ) (start : ℕ) (h : History)
    → length h < u64_mod
    → IsAccounted (run (fresh interval start) h) (count_sets h) (count_gets h)
unfolding run new step get remove
run-IsAccounted interval start [] l = ground arith
run-IsAccounted interval start ((now, sets key value ttl version is_replica) ∷ h) l =
    set-IsAccounted (count_sets h) (count_gets h) (run (fresh interval start) h) key value ttl
      version is_replica now (omega (arith, counts-le h))
      (run-IsAccounted interval start h (omega arith))
run-IsAccounted interval start ((now, gets key) ∷ h) l =
    get_item-IsAccounted (count_sets h) (count_gets h) _ (run (fresh interval start) h) key now
      (omega (arith, counts-le h)) (omega (arith, counts-le h))
      (run-IsAccounted interval start h (omega arith))
run-IsAccounted interval start ((now, removes key) ∷ h) l =
    remove_entry-IsAccounted (count_sets h) (count_gets h) _ (run (fresh interval start) h) key refl
      (omega (arith, counts-le h)) (run-IsAccounted interval start h (omega arith))
run-IsAccounted interval start ((now, purges) ∷ h) l =
    purge_expired-IsAccounted (count_sets h) (count_gets h) (run (fresh interval start) h) now
      (omega (arith, counts-le h)) (run-IsAccounted interval start h (omega arith))

count_replicas_total :
    (m : GoMap String Item) → count_replicas false m + count_replicas true m ≡ length m
unfolding count_replicas
count_replicas_total [] = refl
count_replicas_total ((k, item) ∷ m) = ground (arith, count_replicas_total m)

-- The primary and the replica keys that Stats reports add up to the keys.
pub stats_total :
    (c : Cache) (now : ℕ)
    → (stats c now).primary_keys + (stats c now).replica_keys ≡ (stats c now).total_keys
unfolding stats
stats_total c now = count_replicas_total c.items

active_keys-cases :
    (k : String) (item : Item) (m : GoMap String Item) (key : String) (now : ℕ)
    → In key (active_keys ((k, item) ∷ m) now)
    → ((k ≡ key) × (is_expired item now ≡ false)) ⊎ In key (active_keys m now)
unfolding active_keys is_expired
active_keys-cases k item m key now i = ground arith

lookup_further :
    (k key : String) (item found : Item) (m : GoMap String Item)
    → ¬ In k (GoMap.keys m)
    → lookup key m ≡ some found
    → lookup key ((k, item) ∷ m) ≡ some found
unfolding lookup
lookup_further k key item found m d e = ground (arith, In-keys_of_lookup key found m e)

lookup_here :
    (k key : String) (item : Item) (m : GoMap String Item)
    → k ≡ key
    → lookup key ((k, item) ∷ m) ≡ some item
unfolding lookup
lookup_here k key item m e = ground arith

active_keys_sound :
    (m : GoMap String Item) (key : String) (now : ℕ)
    → Distinct (GoMap.keys m)
    → In key (active_keys m now)
    → (item : Item) × (lookup key m ≡ some item) × (is_expired item now ≡ false)
unfolding active_keys
active_keys_sound [] key now d i = absurd i
active_keys_sound ((k, item) ∷ m) key now d i = elim (active_keys-cases k item m key now i) [
  | inl h ↦ (item, lookup_here k key item m h.0, h.1)
  | inr h ↦
      let (found, e, x) = active_keys_sound m key now d.1 h in
      (found, lookup_further k key item found m d.0 e, x)
]

active_keys_complete :
    (m : GoMap String Item) (key : String) (now : ℕ) (item : Item)
    → lookup key m ≡ some item
    → is_expired item now ≡ false
    → item.expires_at ≢ now
    → In key (active_keys m now)
unfolding active_keys is_expired lookup
active_keys_complete [] key now item e x n = cc
active_keys_complete ((k, item') ∷ m) key now item e x n =
    ground (arith, active_keys_complete m key now item)

visible_of_unexpired :
    (o : Option Item) (item : Item) (now : ℕ)
    → o ≡ some item
    → is_expired item now ≡ false
    → unexpired o now ≡ some item
unfolding unexpired
visible_of_unexpired o item now e x = ground arith

unexpired_of_visible :
    (o : Option Item) (item : Item) (now : ℕ)
    → unexpired o now ≡ some item
    → (o ≡ some item) × (is_expired item now ≡ false)
unfolding unexpired
unexpired_of_visible none item now e = cc
unexpired_of_visible (some other) item now e = ground arith

-- On a cache with one entry for a key, Get at the same time finds every key that Keys lists, and
-- Keys lists every key that Get finds, unless the read falls on the very nanosecond of the item's
-- deadline.
pub keys-get :
    (others : Cache → Cache) (c : Cache) (key : String) (now later : ℕ)
    → IsValid c
    → (In key (keys c now) → (item : Item) × ((get others c key now later).1 ≡ some item))
      × ((item : Item)
          → (get others c key now later).1 ≡ some item
          → item.expires_at ≢ now
          → In key (keys c now))
unfolding keys
keys-get others c key now later v = (listed, found)
  where
    listed :
        In key (active_keys c.items now)
        → (item : Item) × ((get others c key now later).1 ≡ some item)
    listed i =
        let (item, e, x) = active_keys_sound c.items key now v i in
        (item, get_result others c key now later ∙ visible_of_unexpired _ item now e x)

    found :
        (item : Item)
        → (get others c key now later).1 ≡ some item
        → item.expires_at ≢ now
        → In key (active_keys c.items now)
    found item e n =
        let (p, x) =
          unexpired_of_visible _ item now (sym (get_result others c key now later) ∙ e) in
        active_keys_complete c.items key now item p x n

In-active_keys :
    (m : GoMap String Item) (key : String) (now : ℕ)
    → In key (active_keys m now)
    → In key (GoMap.keys m)
unfolding active_keys
In-active_keys [] key now i = i
In-active_keys ((k, item) ∷ m) key now i = ground (arith, In-active_keys m key now)

active_keys-Distinct :
    (m : GoMap String Item) (now : ℕ) → Distinct (GoMap.keys m) → Distinct (active_keys m now)
unfolding active_keys
active_keys-Distinct [] now d = tt
active_keys-Distinct ((k, item) ∷ m) now d =
    ground (arith, active_keys-Distinct m now, In-active_keys m k now)

-- Keys lists no key twice.
pub keys-Distinct : (c : Cache) (now : ℕ) → IsValid c → Distinct (keys c now)
unfolding keys
keys-Distinct c now v = active_keys-Distinct c.items now v
