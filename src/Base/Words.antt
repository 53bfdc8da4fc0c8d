-- ===== src/Base/Words.antt =====
-- Machine words: uint64 counters and versions, int64 durations in nanoseconds.
use shc.Base.Tests.{ltb, if◌then◌else◌, Bool-cases}
use shc.Base.Int.{ℤ, pos, negsuc, pos_part, neg_part, ◌*ℤ◌, is_positive}
use Prim.Native.Nat.{ℕ, zero, suc, ◌<◌, ◌+◌, ◌-◌, ◌*◌, ◌%◌, ◌≤◌, ◌/◌}
use mathlib.Core.Path.{◌≡◌, refl}
use mathlib.Core.Bool.{false}
use mathlib.Core.Logic.{inl, inr}
use native.Mathlib.Omega.{arith}

-- 2 ^ 64
abbrev pub u64_mod : ℕ
u64_mod = 18446744073709551616

-- A uint64 that counts up by one.
abbrev pub inc64 : ℕ → ℕ
inc64 n = (n + 1) % u64_mod

abbrev pub add64 : ℕ → ℕ → ℕ
add64 a b = (a + b) % u64_mod

-- The int64 with the low 64 bits of an integer.
unfoldable pub to_int64 : ℤ → ℤ
to_int64 z =
    let bits = (pos_part z % u64_mod + u64_mod - neg_part z % u64_mod) % u64_mod in
    if ltb bits 9223372036854775808 then pos bits else negsuc (u64_mod - bits - 1)

-- time.Second, in nanoseconds.
abbrev pub second : ℕ
second = 1000000000

-- `time.Duration(s) * time.Second`, an int64 product.
unfoldable pub seconds : ℤ → ℤ
unfolding to_int64
seconds s = to_int64 (s *ℤ pos second)

-- The power of 2 at or below a number: p, doubled as long as it fits.
unfoldable pub binade : ℕ → ℕ → ℕ → ℕ
binade zero p s = p
binade (suc fuel) p s = let rest = binade fuel (p + p) s in if ltb s (p + p) then p else rest

-- `int64(d.Seconds())` of a duration that is not negative. Seconds adds the whole seconds and the part
-- of a second as float64, of 53 bits: the sum is the next whole second if the part left to it is less
-- than half of the last bit, which takes 2 ^ 24 seconds at least. A duration has fewer than 2 ^ 34.
unfoldable pub whole_seconds : ℕ → ℕ
unfolding binade
whole_seconds d =
    let s = d / second in
    let up = ltb ((second - d % second) * 9007199254740992) (second * binade 9 16777216 s) in
    if ltb s 16777216 then s else (if up then s + 1 else s)

-- time.Until and time.Since end at the longest duration.
abbrev pub saturated : ℕ → ℕ
saturated d = if ltb 9223372036854775807 d then 9223372036854775807 else d

binade-le : (fuel p s : ℕ) → p ≤ s → binade fuel p s ≤ s
unfolding binade
binade-le zero p s h = h
binade-le (suc fuel) p s h = elim (Bool-cases (ltb s (p + p))) [
  | inl e ↦ rw e h
  | inr e ↦ rw e (binade-le fuel (p + p) s (ground arith))
]

pub whole_seconds-short : (d : ℕ) → d / second < 16777216 → whole_seconds d ≡ d / second
unfolding whole_seconds
whole_seconds-short d h = ground arith

pub whole_seconds-near :
    (d : ℕ) → (d / second ≤ whole_seconds d) × (whole_seconds d ≤ d / second + 1)
unfolding whole_seconds
whole_seconds-near d = (ground arith, ground arith)

pub whole_seconds-whole : (n : ℕ) → n ≤ 9223372036 → whole_seconds (n * second) ≡ n
unfolding whole_seconds
whole_seconds-whole n h =
    let q : n * second / second ≡ n = omega arith in
    let r : n * second % second ≡ 0 = omega arith in
    rw (q, r)
      (elim (Bool-cases (ltb n 16777216)) [
        | inl e ↦ rw e refl
        | inr e ↦
            let b : binade 9 16777216 n ≤ n = binade-le 9 16777216 n (ground arith) in
            let down : ltb ((second - 0) * 9007199254740992) (second * binade 9 16777216 n)
                ≡ false =
              ground arith in
            rw (e, down) refl
      ])

pub seconds-exact : (s : ℕ) → s ≤ 9223372036 → seconds (pos s) ≡ pos (s * second)
unfolding seconds
seconds-exact s h = ground arith

-- Just above 2 ^ 63 nanoseconds the product turns negative.
pub seconds_overflow :
    (s : ℕ) → 9223372037 ≤ s → s ≤ 18446744073 → is_positive (seconds (pos s)) ≡ false
unfolding seconds
seconds_overflow s h k = ground arith
