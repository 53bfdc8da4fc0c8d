-- ===== src/Base/Floats.antt =====
-- Go's float64: arithmetic of the machine and no code of the repository, so its type and its operations
-- are parameters.
use Prim.Native.Nat.{ℕ}
use Prim.Native.String.{String}
use mathlib.Core.Bool.{Bool}
use shc.Base.Int.{ℤ}

-- `lit n` is the constant n / 100, `scan` is what Sscanf reads with %f, `whole` is float64(int(x)).
pub record Floats (F : Type 0) : Type 0 where
  pub lit : ℕ → F
  pub add : F → F → F
  pub subtract : F → F → F
  pub times : F → F → F
  pub divide : F → F → F
  pub negate : F → F
  pub less : F → F → Bool
  pub at_most : F → F → Bool
  pub whole : F → F
  pub of_int : ℤ → F
  pub scan : String → F
