-- ===== src/Base/Texts/Laws.antt =====
-- Printing and reading of numbers, and the cutting of texts.
use Prim.Native.Char.{code}
use Prim.Native.String.{String, [], ◌∷◌, ◌++◌}
use Prim.Native.Nat.{ℕ, zero, suc, ◌+◌, ◌-◌, ◌*◌, ◌/◌, ◌%◌, ◌<◌}
use mathlib.Core.Path.{◌≡◌, refl, ap, ◌∙◌}
use mathlib.Core.Logic.{inl, inr}
use mathlib.Core.Bool.{false}
use mathlib.Core.Option.{Option, none, some}
use native.Mathlib.Omega.{arith}
use text.Mathlib.TextLemmas.{cons-append, nil-append}
use shc.Base.Tests.{ltb, Bool-cases}
use shc.Base.Int.{pos}
use shc.Base.Texts.{
  is_empty, digit, itoa_from, itoa, read_digits, parse_int, cut_prefix, trim_prefix,
}

-- Reading on behind a digit that is written last.
abbrev one_more : Option ℕ → ℕ → Option ℕ
one_more none d = none
one_more (some m) d = some (m * 10 + d)

read_digits-digit : (d m : ℕ) → d < 10 → read_digits m (digit d) ≡ some (m * 10 + d)
unfolding read_digits
read_digits-digit zero m h = refl
read_digits-digit (suc zero) m h = refl
read_digits-digit (suc (suc zero)) m h = refl
read_digits-digit (suc (suc (suc zero))) m h = refl
read_digits-digit (suc (suc (suc (suc zero)))) m h = refl
read_digits-digit (suc (suc (suc (suc (suc zero))))) m h = refl
read_digits-digit (suc (suc (suc (suc (suc (suc zero)))))) m h = refl
read_digits-digit (suc (suc (suc (suc (suc (suc (suc zero))))))) m h = refl
read_digits-digit (suc (suc (suc (suc (suc (suc (suc (suc zero)))))))) m h = refl
read_digits-digit (suc (suc (suc (suc (suc (suc (suc (suc (suc zero))))))))) m h = refl
read_digits-digit (suc (suc (suc (suc (suc (suc (suc (suc (suc (suc d)))))))))) m h =
    absurd (omega (arith, h))

read_digits-append :
    (s : String) (n d : ℕ) → d < 10 → read_digits n (s ++ digit d) ≡ one_more (read_digits n s) d
unfolding read_digits
read_digits-append [] n d h = rw nil-append (read_digits-digit d n h)
read_digits-append (c ∷ s) n d h =
    rw cons-append (ground (arith, read_digits-append s (n * 10 + (code c - 48)) d h))

read_digits-itoa_from : (fuel n : ℕ) → n < fuel → read_digits 0 (itoa_from fuel n) ≡ some n
unfolding itoa_from
read_digits-itoa_from zero n h = absurd (omega (arith, h))
read_digits-itoa_from (suc fuel) n h = elim (Bool-cases (ltb n 10)) [
  | inl e ↦ rw e (
      let zero_times : 0 * 10 + n ≡ n = omega arith in
      read_digits-digit n 0 (ground arith) ∙ ap some zero_times)
  | inr e ↦ rw e (
      read_digits-append (itoa_from fuel (n / 10)) 0 (n % 10) (omega arith)
      ∙ ap (λ o. one_more o (n % 10)) (read_digits-itoa_from fuel (n / 10) (ground arith))
      ∙ ap some (omega arith))
]

is_empty-digit : (d : ℕ) → is_empty (digit d) ≡ false
is_empty-digit zero = refl
is_empty-digit (suc zero) = refl
is_empty-digit (suc (suc zero)) = refl
is_empty-digit (suc (suc (suc zero))) = refl
is_empty-digit (suc (suc (suc (suc zero)))) = refl
is_empty-digit (suc (suc (suc (suc (suc zero))))) = refl
is_empty-digit (suc (suc (suc (suc (suc (suc zero)))))) = refl
is_empty-digit (suc (suc (suc (suc (suc (suc (suc zero))))))) = refl
is_empty-digit (suc (suc (suc (suc (suc (suc (suc (suc zero)))))))) = refl
is_empty-digit (suc (suc (suc (suc (suc (suc (suc (suc (suc d))))))))) = refl

is_empty-append : (s t : String) → is_empty t ≡ false → is_empty (s ++ t) ≡ false
is_empty-append [] t e = rw nil-append e
is_empty-append (c ∷ s) t e = rw cons-append refl

is_empty-itoa : (n : ℕ) → is_empty (itoa n) ≡ false
unfolding itoa
is_empty-itoa n = rw (succ n) (first n)
  where
    succ : (m : ℕ) → itoa_from (m + 1) m ≡ itoa_from (suc m) m
    succ m = let e : m + 1 ≡ suc m = omega arith in ap (λ k. itoa_from k m) e

    first : (m : ℕ) → is_empty (itoa_from (suc m) m) ≡ false
    first m = elim (Bool-cases (ltb m 10)) [
      | inl e ↦ rw e (is_empty-digit m)
      | inr e ↦
          rw e (is_empty-append (itoa_from m (m / 10)) (digit (m % 10)) (is_empty-digit (m % 10)))
    ]

pub read_digits-itoa : (n : ℕ) → read_digits 0 (itoa n) ≡ some n
unfolding itoa
read_digits-itoa n = read_digits-itoa_from (n + 1) n (omega arith)

parse_int_of_digits :
    (s : String) (n : ℕ)
    → is_empty s ≡ false
    → read_digits 0 s ≡ some n
    → n < 9223372036854775808
    → parse_int s ≡ some (pos n)
unfolding parse_int
parse_int_of_digits [] n e r h = cc
parse_int_of_digits (c ∷ s) n e r h = unfold read_digits in ground arith

-- Every number below 2 ^ 63 is read back from its print.
pub parse_int-itoa : (n : ℕ) → n < 9223372036854775808 → parse_int (itoa n) ≡ some (pos n)
parse_int-itoa n h = parse_int_of_digits (itoa n) n (is_empty-itoa n) (read_digits-itoa n) h

cut_prefix-append : (p s : String) → cut_prefix p (p ++ s) ≡ some s
unfolding cut_prefix
cut_prefix-append [] s = rw nil-append refl
cut_prefix-append (c ∷ p) s = rw cons-append (ground (arith, cut_prefix-append p s))

pub trim_prefix-append : (p s : String) → trim_prefix (p ++ s) p ≡ s
unfolding trim_prefix
trim_prefix-append p s = rw (cut_prefix-append p s) refl
