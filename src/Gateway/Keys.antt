-- ===== src/Gateway/Keys.antt =====
-- backend/internal/gateway/gateway.go: the row of the database that a key of the cache names.
use Prim.Native.Char.{Char, code}
use Prim.Native.String.{◌++◌}
use text.Mathlib.TextLemmas.{cons-append}
use shc.Base.{ℕ, ◌<◌, ◌≡◌, refl, inl, inr, String, some, false, arith, Bool-cases}
use shc.Base.Int.{pos}
use shc.Base.Texts.{is_digit, itoa, format_int, read_digits, cut_prefix, trim_prefix}
use shc.Base.Texts.Laws.{read_digits-itoa, parse_int-itoa, trim_prefix-append}
use shc.Gateway.{row_of, positive_row}
use shc.Gateway.Trips.{cache_key}

-- A prefix that starts with no digit is no prefix of a number.
trim_prefix-digits :
    (c : Char) (p s : String) (n : ℕ)
    → is_digit (code c) ≡ false
    → read_digits 0 s ≡ some n
    → trim_prefix s (String.◌∷◌ c p) ≡ s
unfolding trim_prefix cut_prefix read_digits
trim_prefix-digits c p String.[] n d e = refl
trim_prefix-digits c p (String.◌∷◌ x s) n d e = elim (Bool-cases (is_digit (code x))) [
  | inr f ↦ absurd (cc)
  | inl f ↦ ground arith
]

no_trip : (n : ℕ) → trim_prefix (itoa n) "trip:" ≡ itoa n
no_trip n = trim_prefix-digits "t" "rip:" (itoa n) n refl (read_digits-itoa n)

no_prod : (n : ℕ) → trim_prefix (itoa n) "prod:" ≡ itoa n
no_prod n = trim_prefix-digits "p" "rod:" (itoa n) n refl (read_digits-itoa n)

prod_is_no_trip : (s : String) → trim_prefix ("prod:" ++ s) "trip:" ≡ "prod:" ++ s
unfolding trim_prefix cut_prefix
prod_is_no_trip s = rw cons-append refl

positive_row-pos : (n : ℕ) → 0 < n → positive_row (some (pos n)) ≡ some (pos n)
positive_row-pos n h = ground arith

-- A row between 1 and 2 ^ 63 - 1 is found again from its number alone and behind either prefix, as the
-- key that the gateway makes of it.
pub row_of-itoa :
    (n : ℕ)
    → 0 < n
    → n < 9223372036854775808
    → (row_of (itoa n) ≡ some (pos n))
      × (row_of (cache_key (pos n)) ≡ some (pos n))
      × (row_of ("prod:" ++ itoa n) ≡ some (pos n))
unfolding row_of cache_key format_int
row_of-itoa n h k = (
  rw (no_trip n, no_prod n, parse_int-itoa n k) (positive_row-pos n h),
  rw (trim_prefix-append "trip:" (itoa n), no_prod n, parse_int-itoa n k) (positive_row-pos n h),
  rw (prod_is_no_trip (itoa n), trim_prefix-append "prod:" (itoa n), parse_int-itoa n k)
      (positive_row-pos n h),
)
