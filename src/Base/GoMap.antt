-- ===== src/Base/GoMap.antt =====
-- Go's built-in map, as an association list with one entry for a key. The list's order stands for
-- the order of a `range` loop, which Go leaves open.
pub mod Laws
use shc.Base.Tests.{text_discrete}
use Prim.Native.Nat.{ℕ}
use Prim.Native.String.{String}
use mathlib.Core.Logic.{ite}
use mathlib.Core.Bool.{Bool, true, false}
use mathlib.Core.List.{List, [], ◌∷◌, map}
use mathlib.Core.Option.{Option, none, some}
use native.Mathlib.Decide.{ℕ_discrete}

-- A comparable key type.
pub record Comparable (K : Type 0) : Type 0 where
  pub eq : Discrete K

instance abbrev pub text_comparable : Comparable String
text_comparable = record { eq = text_discrete }

instance abbrev pub nat_comparable : Comparable ℕ
nat_comparable = record { eq = ℕ_discrete }

abbrev pub GoMap : Type 0 → Type 0 → Type 0
GoMap K V = List (K × V)

module _ {K V : Type 0} ⦃c : Comparable K⦄ where
  -- v, ok := m[k]
  unfoldable pub lookup : K → GoMap K V → Option V
  lookup k [] = none
  lookup k ((j, v) ∷ m) = ite (c.eq j k) (some v) (lookup k m)

  -- m[k] = v
  unfoldable pub insert : K → V → GoMap K V → GoMap K V
  insert k v [] = (k, v) ∷ []
  insert k v ((j, w) ∷ m) = ite (c.eq j k) ((k, v) ∷ m) ((j, w) ∷ insert k v m)

  -- delete(m, k)
  unfoldable pub delete : K → GoMap K V → GoMap K V
  delete k [] = []
  delete k ((j, v) ∷ m) = ite (c.eq j k) m ((j, v) ∷ delete k m)

  abbrev pub keys : GoMap K V → List K
  keys = map (λ e. e.0)

-- m[k] for a key that may be missing: the zero value.
abbrev pub value_or : {V : Type 0} → V → Option V → V
value_or d none = d
value_or d (some v) = v
