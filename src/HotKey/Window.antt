-- ===== src/HotKey/Window.antt =====
-- The detector against a plain count of the accesses in the window.
use shc.Base.{
  ℕ, suc, ◌+◌, ◌≤◌, ◌<◌, ◌≡◌, ◌≢◌, refl, sym, ap, subst, ◌∙◌, String, List, [], ◌∷◌, ◌++◌, arith,
  leb, if◌then◌else◌, holds, length, text_discrete,
}
use shc.Base.Int.{pos, ◌-ℤ◌, ltb_ℤ}
use shc.Base.Words.{inc64, add64, u64_mod}
use shc.Base.GoMap.{text_comparable, lookup, value_or}
use shc.Base.GoMap.Laws.{lookup-insert_self, lookup-insert_other}
use shc.HotKey.{
  KeyBucket, Config, Detector, in_window, valid_buckets, total_from, buckets_of, record_access,
  is_hot,
}

-- Recorded accesses, the newest first.
abbrev pub Accesses : Type 0
Accesses = List (ℕ × String)

unfoldable pub run : Detector → Accesses → Detector
run d [] = d
run d ((now, key) ∷ older) = (record_access (run d older) key now).0

abbrev pub IsOrdered : ℕ → Accesses → Type 0
IsOrdered t [] = Unit {0}
IsOrdered t ((now, key) ∷ older) = (now ≤ t) × IsOrdered now older

-- How many accesses to a key lie less than the window back from `t`.
unfoldable pub count_recent : Config → String → ℕ → Accesses → ℕ
count_recent cfg key t [] = 0
count_recent cfg key t ((now, k) ∷ older) =
    let rest = count_recent cfg key t older in
    if holds (text_discrete k key)
    then (if ltb_ℤ (pos t -ℤ cfg.window_duration) (pos now) then suc rest else rest)
    else rest

-- The exact number that a list of buckets stands for.
unfoldable pub tally : Config → ℕ → List KeyBucket → ℕ
tally cfg t [] = 0
tally cfg t (b ∷ bs) =
    let rest = tally cfg t bs in if in_window cfg t b then b.count + rest else rest

tally-append :
    (cfg : Config) (t : ℕ) (xs ys : List KeyBucket)
    → tally cfg t (xs ++ ys) ≡ tally cfg t xs + tally cfg t ys
unfolding tally
tally-append cfg t [] ys = omega arith
tally-append cfg t (b ∷ bs) ys = ground (arith, tally-append cfg t bs ys)

-- What has left the window at `s` is out of it at any later `t`.
tally-valid_buckets :
    (cfg : Config) (s t : ℕ) (bs : List KeyBucket)
    → s ≤ t
    → tally cfg t (valid_buckets cfg s bs) ≡ tally cfg t bs
unfolding tally valid_buckets
tally-valid_buckets cfg s t [] h = refl
tally-valid_buckets cfg s t (b ∷ bs) h = ground (arith, tally-valid_buckets cfg s t bs h)

total_from-tally :
    (cfg : Config) (t n : ℕ) (bs : List KeyBucket)
    → n + tally cfg t bs < u64_mod
    → total_from cfg t n bs ≡ n + tally cfg t bs
unfolding tally total_from
total_from-tally cfg t n [] h = omega arith
total_from-tally cfg t n (b ∷ bs) h =
    ground (arith, total_from-tally cfg t (if in_window cfg t b then add64 n b.count else n) bs)

pub run-config : (d : Detector) (h : Accesses) → (run d h).config ≡ d.config
unfolding run record_access
run-config d [] = refl
run-config d ((now, key) ∷ older) = run-config d older

one_more :
    (cfg : Config) (now t : ℕ) (bs : List KeyBucket)
    → now ≤ t
    → tally cfg t (valid_buckets cfg now bs)
        + tally cfg t (record { count = 1; timestamp = now } ∷ [])
      ≡ (if ltb_ℤ (pos t -ℤ cfg.window_duration) (pos now)
          then suc (tally cfg t bs)
          else tally cfg t bs)
unfolding tally
one_more cfg now t bs h = ground (arith, tally-valid_buckets cfg now t bs h)

-- An access that is recorded counts as long as it is in the window, and the pruning costs nothing.
record_access-own :
    (d : Detector) (key : String) (now t : ℕ)
    → now ≤ t
    → tally d.config t (buckets_of (record_access d key now).0 key) ≡ (
        if ltb_ℤ (pos t -ℤ d.config.window_duration) (pos now)
        then suc (tally d.config t (buckets_of d key))
        else tally d.config t (buckets_of d key))
unfolding record_access
record_access-own d key now t h =
    ap (λ o. tally d.config t (value_or [] o)) (lookup-insert_self key _ d.key_access)
    ∙ tally-append d.config t (valid_buckets d.config now (buckets_of d key)) _
    ∙ one_more d.config now t (buckets_of d key) h

record_access-other :
    (d : Detector) (key k : String) (now : ℕ)
    → k ≢ key
    → buckets_of (record_access d k now).0 key ≡ buckets_of d key
unfolding record_access
record_access-other d key k now n = ap (value_or []) (lookup-insert_other k key _ d.key_access n)

no_buckets : (d : Detector) (key : String) → d.key_access ≡ [] → buckets_of d key ≡ []
unfolding lookup
no_buckets d key e = rw e

record_access-step :
    (d : Detector) (cfg : Config) (key k : String) (now t n : ℕ)
    → d.config ≡ cfg
    → now ≤ t
    → tally cfg t (buckets_of d key) ≡ n
    → tally cfg t (buckets_of (record_access d k now).0 key) ≡ (
        if holds (text_discrete k key)
        then (if ltb_ℤ (pos t -ℤ cfg.window_duration) (pos now) then suc n else n)
        else n)
record_access-step d cfg key k now t n c h e =
    elim (text_discrete k key)
      as (λ x. tally cfg t (buckets_of (record_access d k now).0 key) ≡ (
        if holds x
        then (if ltb_ℤ (pos t -ℤ cfg.window_duration) (pos now) then suc n else n)
        else n)) [
          | yes p ↦
              subst
                (λ j.
                  tally cfg t (buckets_of (record_access d j now).0 key)
                  ≡ (if ltb_ℤ (pos t -ℤ cfg.window_duration) (pos now) then suc n else n))
                (sym p)
                (subst
                  (λ m.
                    tally cfg t (buckets_of (record_access d key now).0 key)
                    ≡ (if ltb_ℤ (pos t -ℤ cfg.window_duration) (pos now) then suc m else m))
                  e
                  (subst
                    (λ g. tally g t (buckets_of (record_access d key now).0 key) ≡ (
                      if ltb_ℤ (pos t -ℤ g.window_duration) (pos now)
                      then suc (tally g t (buckets_of d key))
                      else tally g t (buckets_of d key)))
                    c (record_access-own d key now t h)))
          | no p ↦ ap (tally cfg t) (record_access-other d key k now p) ∙ e
        ]

IsOrdered-mono : (t u : ℕ) (h : Accesses) → t ≤ u → IsOrdered t h → IsOrdered u h
IsOrdered-mono t u [] e o = tt
IsOrdered-mono t u ((now, key) ∷ older) e o = (omega arith, o.1)

-- The buckets that are kept stand for the accesses in the window, at any later time.
run-tally :
    (d : Detector) (key : String) (t : ℕ) (h : Accesses)
    → d.key_access ≡ []
    → IsOrdered t h
    → tally d.config t (buckets_of (run d h) key) ≡ count_recent d.config key t h
unfolding run count_recent tally
run-tally d key t [] e o = rw (no_buckets d key e)
run-tally d key t ((now, k) ∷ older) e o =
    record_access-step (run d older) d.config key k now t (count_recent d.config key t older)
      (run-config d older) o.0 (run-tally d key t older e (IsOrdered-mono now t older o.0 o.1))

count_recent-le :
    (cfg : Config) (key : String) (t : ℕ) (h : Accesses) → count_recent cfg key t h ≤ length h
unfolding count_recent
count_recent-le cfg key t [] = omega arith
count_recent-le cfg key t ((now, k) ∷ older) = ground (arith, count_recent-le cfg key t older)

total-count_recent :
    (d : Detector) (key : String) (t : ℕ) (h : Accesses)
    → d.key_access ≡ []
    → IsOrdered t h
    → length h < u64_mod
    → total_from (run d h).config t 0 (buckets_of (run d h) key) ≡ count_recent d.config key t h
total-count_recent d key t h e o l = rw (run-config d h) (
    total_from-tally d.config t 0 (buckets_of (run d h) key)
      (omega (arith, run-tally d key t h e o, count_recent-le d.config key t h))
    ∙ zero_and (run-tally d key t h e o))
  where
    zero_and : {n m : ℕ} → n ≡ m → 0 + n ≡ m
    zero_and q = omega arith

-- After fewer than 2^64 - 1 accesses in the order of time, on a detector that starts empty, RecordAccess
-- returns the number of accesses to its key less than a window ago, itself included, and IsHot the
-- number without it; both call the key hot exactly if that number reaches the threshold.
pub record_access-count :
    (d : Detector) (key : String) (now : ℕ) (h : Accesses)
    → d.key_access ≡ []
    → IsOrdered now h
    → length h + 1 < u64_mod
    → let n = count_recent d.config key now h in
      ((record_access (run d h) key now).1 ≡ leb d.config.threshold_count (suc n))
      × ((record_access (run d h) key now).2 ≡ suc n)
      × (is_hot (run d h) key now ≡ (leb d.config.threshold_count n, n))
unfolding record_access is_hot
record_access-count d key now h e o l =
    let total = total-count_recent d key now h e o (omega arith) in
    let counted : inc64 (total_from (run d h).config now 0 (buckets_of (run d h) key))
        ≡ suc (count_recent d.config key now h) =
      omega (arith, total, count_recent-le d.config key now h) in
    (rw (counted, run-config d h), counted, rw (total, run-config d h))
