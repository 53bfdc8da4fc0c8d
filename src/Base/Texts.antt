-- ===== src/Base/Texts.antt =====
-- The functions of Go's `strings`, `strconv` and `fmt` that the code calls, on native texts.
pub mod Laws
use Prim.Native.Char.{Char, code}
use Prim.Native.String.{String, [], ◌∷◌, ◌++◌}
use Prim.Native.Nat.{ℕ, zero, suc, ◌+◌, ◌-◌, ◌*◌, ◌/◌, ◌%◌}
use mathlib.Core.Bool.{Bool, true, false, ◌&&◌, ◌||◌}
use mathlib.Core.Option.{Option, none, some}
use mathlib.Core.List
use mathlib.Core.List.{List}
use shc.Base.Tests.{ltb, leb, ◌==◌, if◌then◌else◌}
use shc.Base.Int.{ℤ, pos, negsuc, sub_ℕ}

-- unicode.IsSpace.
abbrev pub is_space : ℕ → Bool
is_space c =
    (leb 9 c && leb c 13)
    || c == 32
    || c == 133
    || c == 160
    || c == 5760
    || (leb 8192 c && leb c 8202)
    || c == 8232
    || c == 8233
    || c == 8239
    || c == 8287
    || c == 12288

-- s == ""
abbrev pub is_empty : String → Bool
is_empty [] = true
is_empty (c ∷ s) = false

-- strings.TrimSpace(s) == ""
unfoldable pub is_blank : String → Bool
is_blank [] = true
is_blank (c ∷ s) = is_space (code c) && is_blank s

unfoldable pub trim_left : String → String
trim_left [] = []
trim_left (c ∷ s) = let rest = trim_left s in if is_space (code c) then rest else c ∷ s

unfoldable pub trim_right : String → String
trim_right [] = []
trim_right (c ∷ s) =
    let rest = trim_right s in if is_empty rest && is_space (code c) then [] else c ∷ rest

-- strings.TrimSpace
unfoldable pub trim_space : String → String
unfolding trim_left trim_right
trim_space s = trim_right (trim_left s)

abbrev grow : Char → List String → List String
grow c List.[] = List.◌∷◌ (c ∷ []) List.[]
grow c (List.◌∷◌ p ps) = List.◌∷◌ (c ∷ p) ps

-- strings.Split(s, sep), for a separator of one character, given by its number.
unfoldable pub split : ℕ → String → List String
split sep [] = List.◌∷◌ [] List.[]
split sep (c ∷ s) =
    let rest = split sep s in if code c == sep then List.◌∷◌ [] rest else grow c rest

abbrev pub after_first : Char → Option (String × String) → Option (String × String)
after_first c none = none
after_first c (some (a, b)) = some (c ∷ a, b)

-- The two parts of strings.SplitN(s, sep, 2), if there are two.
unfoldable pub split_once : ℕ → String → Option (String × String)
split_once sep [] = none
split_once sep (c ∷ s) =
    let rest = split_once sep s in if code c == sep then some ([], s) else after_first c rest

abbrev or_whole : String → Option String → String
or_whole s none = s
or_whole s (some rest) = rest

-- What follows a prefix.
unfoldable pub cut_prefix : String → String → Option String
cut_prefix [] s = some s
cut_prefix (c ∷ p) [] = none
cut_prefix (c ∷ p) (d ∷ s) = let rest = cut_prefix p s in if code c == code d then rest else none

-- strings.TrimPrefix(s, prefix)
unfoldable pub trim_prefix : String → String → String
unfolding cut_prefix
trim_prefix s prefix = or_whole s (cut_prefix prefix s)

-- strings.TrimSuffix(s, suffix), for a suffix of one character.
unfoldable pub trim_suffix : String → ℕ → String
trim_suffix [] last = []
trim_suffix (c ∷ s) last =
    let rest = trim_suffix s last in if is_empty s && code c == last then [] else c ∷ rest

-- unicode.ToUpper for the characters whose upper case is an ASCII letter: a to z, and the long s and
-- the dotless i. Of the others, none that changes becomes an ASCII character.
unfoldable pub to_upper_code : ℕ → ℕ
to_upper_code c =
    if leb 97 c && leb c 122
    then c - 32
    else (if c == 383 then 83 else (if c == 305 then 73 else c))

-- strings.ToUpper(s) == t, for an ASCII text t.
unfoldable pub same_upper : String → String → Bool
unfolding to_upper_code
same_upper [] [] = true
same_upper [] (d ∷ t) = false
same_upper (c ∷ s) [] = false
same_upper (c ∷ s) (d ∷ t) = let rest = same_upper s t in to_upper_code (code c) == code d && rest

abbrev pub is_digit : ℕ → Bool
is_digit c = leb 48 c && leb c 57

unfoldable pub read_digits : ℕ → String → Option ℕ
read_digits n [] = some n
read_digits n (c ∷ s) =
    let rest = read_digits (n * 10 + (code c - 48)) s in if is_digit (code c) then rest else none

abbrev read_number : String → Option ℕ
read_number [] = none
read_number (c ∷ s) = read_digits 0 (c ∷ s)

abbrev positive : Option ℕ → Option ℤ
positive none = none
positive (some n) = if ltb n 9223372036854775808 then some (pos n) else none

abbrev negative : Option ℕ → Option ℤ
negative none = none
negative (some n) = if leb n 9223372036854775808 then some (sub_ℕ 0 n) else none

-- strconv.ParseInt(s, 10, 64), and strconv.Atoi on 64 bits; `none` is any error.
unfoldable pub parse_int : String → Option ℤ
unfolding read_digits
parse_int [] = none
parse_int (c ∷ s) =
    if code c == 45
    then negative (read_number s)
    else (if code c == 43 then positive (read_number s) else positive (read_number (c ∷ s)))

abbrev pub digit : ℕ → String
digit zero = "0"
digit (suc zero) = "1"
digit (suc (suc zero)) = "2"
digit (suc (suc (suc zero))) = "3"
digit (suc (suc (suc (suc zero)))) = "4"
digit (suc (suc (suc (suc (suc zero))))) = "5"
digit (suc (suc (suc (suc (suc (suc zero)))))) = "6"
digit (suc (suc (suc (suc (suc (suc (suc zero))))))) = "7"
digit (suc (suc (suc (suc (suc (suc (suc (suc zero)))))))) = "8"
digit _ = "9"

-- strconv.Itoa; a number has at most as many digits as its successor.
unfoldable pub itoa_from : ℕ → ℕ → String
itoa_from zero n = ""
itoa_from (suc fuel) n =
    let rest = itoa_from fuel (n / 10) in if ltb n 10 then digit n else rest ++ digit (n % 10)

unfoldable pub itoa : ℕ → String
unfolding itoa_from
itoa n = itoa_from (n + 1) n

-- "%d" of a signed number.
unfoldable pub format_int : ℤ → String
unfolding itoa
format_int (pos n) = itoa n
format_int (negsuc n) = "-" ++ itoa (suc n)
