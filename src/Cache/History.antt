-- ===== src/Cache/History.antt =====
-- Histories of calls on one node's store, the newest call first, and the plain description of what
-- a key holds after one: its last write, unless that was deleted or its time is over.
use shc.Base.{
  ℕ, ◌+◌, ◌≤◌, ◌≡◌, refl, ap, ◌∙◌, ite, inl, inr, String, Option, none, some, Bool, List, [], ◌∷◌,
  arith, ltb, if◌then◌else◌, ◌&&◌, In, Distinct, text_discrete, Bool-cases,
}
use shc.Base.Int.{ℤ, pos_part, is_positive}
use shc.Base.Words.{inc64}
use shc.Base.GoMap.{GoMap, text_comparable, lookup}
use shc.Base.GoMap
use shc.Base.GoMap.Laws.{insert-Distinct, delete-Distinct}
use shc.Cache.Items.{Item, is_expired}
use shc.Cache.Views.{
  IsValid, unexpired, visible, get-visible, set_with_metadata-visible, remove-visible,
  purge_expired-visible, get_result,
}
use shc.Cache.{
  Cache, new, set_with_metadata, drop_expired, get_item, get, remove_entry, remove, purge_items,
  purge_expired,
}

pub data Call : Type 0 where
  sets : String → String → ℤ → ℕ → Bool → Call
  gets removes : String → Call
  purges : Call

-- One call at a time, with no other goroutine in between.
unfoldable pub step : Cache → ℕ → Call → Cache
step c now (sets key value ttl version is_replica) =
    (set_with_metadata c key value ttl version is_replica now).0
step c now (gets key) = (get (λ other. other) c key now now).0
step c now (removes key) = (remove c key).0
step c now purges = purge_expired c now

abbrev pub History : Type 0
History = List (ℕ × Call)

unfoldable pub run : Cache → History → Cache
unfolding step
run c [] = c
run c ((now, call) ∷ older) = step (run c older) now call

-- No call is later than `t`, and none is later than the calls after it.
abbrev pub IsOrdered : ℕ → History → Type 0
IsOrdered t [] = Unit {0}
IsOrdered t ((now, call) ∷ older) = (now ≤ t) × IsOrdered now older

-- The description, with no map, no counters and no removal of what has expired.
unfoldable pub last_write : String → ℕ → History → Option String
last_write key t [] = none
last_write key t ((now, sets k value ttl version is_replica) ∷ older) =
    ite (text_discrete k key)
      (if is_positive ttl && ltb (now + pos_part ttl) t then none else some value)
      (last_write key t older)
last_write key t ((now, removes k) ∷ older) =
    ite (text_discrete k key) none (last_write key t older)
last_write key t ((now, gets k) ∷ older) = last_write key t older
last_write key t ((now, purges) ∷ older) = last_write key t older

drop_expired-IsValid :
    (o : Option Item) (c : Cache) (key : String) (now : ℕ)
    → IsValid c
    → IsValid (drop_expired o c key now)
unfolding drop_expired
drop_expired-IsValid none c key now v = v
drop_expired-IsValid (some item) c key now v = elim (Bool-cases (is_expired item now)) [
  | inl x ↦ rw x (delete-Distinct key c.items v)
  | inr x ↦ rw x v
]

get_item-IsValid :
    (o : Option Item) (c : Cache) (key : String) (now later : ℕ)
    → IsValid c
    → IsValid (get_item (λ other. other) c key o now later).0
unfolding get_item
get_item-IsValid none c key now later v = v
get_item-IsValid (some item) c key now later v = elim (Bool-cases (is_expired item now)) [
  | inl x ↦ rw x (drop_expired-IsValid (lookup key c.items) c key later v)
  | inr x ↦ rw x v
]

pub get-IsValid :
    (c : Cache) (key : String) (now later : ℕ)
    → IsValid c
    → IsValid (get (λ other. other) c key now later).0
unfolding get
get-IsValid c key now later v = get_item-IsValid (lookup key c.items) c key now later v

remove_entry-IsValid :
    (o : Option Item) (c : Cache) (key : String) → IsValid c → IsValid (remove_entry o c key).0
unfolding remove_entry
remove_entry-IsValid none c key v = v
remove_entry-IsValid (some item) c key v = delete-Distinct key c.items v

In-purge_items :
    (m : GoMap String Item) (n now : ℕ) (k : String)
    → ¬ In k (GoMap.keys m)
    → ¬ In k (GoMap.keys (purge_items m n now).0)
unfolding purge_items
In-purge_items [] n now k h = h
In-purge_items ((j, item) ∷ m) n now k h =
    ground (arith, In-purge_items m (if is_expired item now then inc64 n else n) now k)

purge_items-Distinct :
    (m : GoMap String Item) (n now : ℕ)
    → Distinct (GoMap.keys m)
    → Distinct (GoMap.keys (purge_items m n now).0)
unfolding purge_items
purge_items-Distinct [] n now d = tt
purge_items-Distinct ((k, item) ∷ m) n now d = ground (
  arith,
  purge_items-Distinct m (if is_expired item now then inc64 n else n) now,
  In-purge_items m (if is_expired item now then inc64 n else n) now k,
)

pub step-IsValid : (c : Cache) (now : ℕ) (call : Call) → IsValid c → IsValid (step c now call)
unfolding step set_with_metadata get remove purge_expired
step-IsValid c now (sets key value ttl version is_replica) v = insert-Distinct key _ c.items v
step-IsValid c now (gets key) v = get_item-IsValid (lookup key c.items) c key now now v
step-IsValid c now (removes key) v = remove_entry-IsValid (lookup key c.items) c key v
step-IsValid c now purges v = purge_items-Distinct c.items c.expired_count now v

pub run-IsValid : (c : Cache) (h : History) → IsValid c → IsValid (run c h)
unfolding run
run-IsValid c [] v = v
run-IsValid c ((now, call) ∷ older) v = step-IsValid (run c older) now call (run-IsValid c older v)

-- A cache as New makes it.
abbrev pub fresh : ℤ → ℕ → Cache
fresh interval start = (new interval start).0

abbrev pub value_of : Option Item → Option String
value_of none = none
value_of (some item) = some item.value

IsOrdered-mono : (t u : ℕ) (h : History) → t ≤ u → IsOrdered t h → IsOrdered u h
IsOrdered-mono t u [] e o = tt
IsOrdered-mono t u ((now, call) ∷ older) e o = (omega arith, o.1)

written :
    (c : Cache) (key value : String) (ttl : ℤ) (version : ℕ) (is_replica : Bool) (now t : ℕ)
    → value_of (unexpired (some (set_with_metadata c key value ttl version is_replica now).1) t)
      ≡ (if is_positive ttl && ltb (now + pos_part ttl) t then none else some value)
unfolding set_with_metadata unexpired is_expired
written c key value ttl version is_replica now t = ground arith

visible-step :
    (c : Cache) (now t : ℕ) (call : Call) (older : History) (key : String)
    → IsValid c
    → now ≤ t
    → value_of (visible c key t) ≡ last_write key t older
    → value_of (visible (step c now call) key t) ≡ last_write key t ((now, call) ∷ older)
unfolding step last_write
visible-step c now t (sets k value ttl version is_replica) older key v h e =
    ap value_of (set_with_metadata-visible c k value ttl version is_replica now key t)
    ∙ (elim (text_discrete k key)
        as (λ d.
          value_of (
            ite d (unexpired (some (set_with_metadata c k value ttl version is_replica now).1) t)
              (visible c key t))
          ≡ ite d (if is_positive ttl && ltb (now + pos_part ttl) t then none else some value)
              (last_write key t older)) [
                | yes p ↦ written c k value ttl version is_replica now t
                | no p ↦ e
              ])
visible-step c now t (gets k) older key v h e =
    ap value_of (get-visible (λ other. other) c k key now now t v h) ∙ e
visible-step c now t (removes k) older key v h e =
    ap value_of (remove-visible c k key t v)
    ∙ (elim (text_discrete k key)
        as (λ d. value_of (ite d none (visible c key t)) ≡ ite d none (last_write key t older)) [
          | yes p ↦ refl
          | no p ↦ e
        ])
visible-step c now t purges older key v h e =
    ap value_of (purge_expired-visible c now key t v h) ∙ e

visible-run :
    (interval : ℤ) (start t : ℕ) (h : History) (key : String)
    → IsOrdered t h
    → value_of (visible (run (fresh interval start) h) key t) ≡ last_write key t h
unfolding run new lookup unexpired last_write
visible-run interval start t [] key o = refl
visible-run interval start t ((now, call) ∷ older) key o =
    visible-step (run (fresh interval start) older) now t call older key
      (run-IsValid (fresh interval start) older (fresh-IsValid interval start)) o.0
      (visible-run interval start t older key (IsOrdered-mono now t older o.0 o.1))
  where
    fresh-IsValid : (i : ℤ) (s : ℕ) → IsValid (fresh i s)
    fresh-IsValid i s = tt

-- After any history of writes, reads, deletes and cleanups on a new cache, in the order of time,
-- Get at a later time returns the value of the last write to its key, and misses exactly if there
-- was none, if it was deleted since, or if its TTL has run out.
pub get-last_write :
    (interval : ℤ) (start t later : ℕ) (h : History) (key : String) (others : Cache → Cache)
    → IsOrdered t h
    → value_of (get others (run (fresh interval start) h) key t later).1 ≡ last_write key t h
get-last_write interval start t later h key others o =
    ap value_of (get_result others (run (fresh interval start) h) key t later)
    ∙ visible-run interval start t h key o
