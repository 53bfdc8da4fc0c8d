-- ===== src/Base/GoMap/Laws.antt =====
-- The laws of lookups, writes and deletes, and the invariant that no key stands twice.
use shc.Base.Lists.{length, In, Distinct}
use shc.Base.GoMap.{Comparable, GoMap, lookup, insert, delete, keys}
use Prim.Native.Nat.{suc}
use mathlib.Core.Path.{◌≡◌, refl, ◌∙◌}
use mathlib.Core.Logic.{ite, ◌⊎◌, inl, inr, ◌≢◌}
use mathlib.Core.List.{[], ◌∷◌}
use mathlib.Core.Option.{none, some}
use native.Mathlib.Omega.{arith}

module _ {K V : Type 0} ⦃c : Comparable K⦄ where
  pub lookup-insert :
      (k j : K) (v : V) (m : GoMap K V)
      → lookup j (insert k v m) ≡ ite (c.eq k j) (some v) (lookup j m)
  unfolding lookup insert
  lookup-insert k j v [] = refl
  lookup-insert k j v ((i, w) ∷ m) = ground (arith, lookup-insert k j v m)

  pub In-keys_of_lookup : (k : K) (v : V) (m : GoMap K V) → lookup k m ≡ some v → In k (keys m)
  unfolding lookup
  In-keys_of_lookup k v [] h = cc
  In-keys_of_lookup k v ((j, w) ∷ m) h = ground (arith, In-keys_of_lookup k v m)

  pub lookup-none_of_not-In : (k : K) (m : GoMap K V) → ¬ In k (keys m) → lookup k m ≡ none
  unfolding lookup
  lookup-none_of_not-In k [] h = refl
  lookup-none_of_not-In k ((j, w) ∷ m) h = ground (arith, lookup-none_of_not-In k m)

  pub lookup-delete :
      (k j : K) (m : GoMap K V)
      → Distinct (keys m)
      → lookup j (delete k m) ≡ ite (c.eq k j) none (lookup j m)
  unfolding lookup delete
  lookup-delete k j [] d = ground arith
  lookup-delete k j ((i, w) ∷ m) d = ground (arith, lookup-delete k j m, lookup-none_of_not-In j m)

  In-keys-insert :
      (k j : K) (v : V) (m : GoMap K V) → In j (keys (insert k v m)) → (k ≡ j) ⊎ In j (keys m)
  unfolding insert
  In-keys-insert k j v [] h = h
  In-keys-insert k j v ((i, w) ∷ m) h = ground (arith, In-keys-insert k j v m)

  pub insert-Distinct :
      (k : K) (v : V) (m : GoMap K V) → Distinct (keys m) → Distinct (keys (insert k v m))
  unfolding insert
  insert-Distinct k v [] d = (λ n. n, tt)
  insert-Distinct k v ((j, w) ∷ m) d = ground (arith, insert-Distinct k v m, In-keys-insert k j v m)

  In-keys-delete : (k j : K) (m : GoMap K V) → In j (keys (delete k m)) → In j (keys m)
  unfolding delete
  In-keys-delete k j [] h = h
  In-keys-delete k j ((i, w) ∷ m) h = ground (arith, In-keys-delete k j m)

  pub delete-Distinct : (k : K) (m : GoMap K V) → Distinct (keys m) → Distinct (keys (delete k m))
  unfolding delete
  delete-Distinct k [] d = tt
  delete-Distinct k ((j, w) ∷ m) d = ground (arith, delete-Distinct k m, In-keys-delete k j m)

  -- The sizes after a write and a delete.
  pub length-insert :
      (k : K) (v : V) (m : GoMap K V)
      → length (insert k v m) ≡ elim (lookup k m) [ none ↦ suc (length m) | some w ↦ length m ]
  unfolding lookup insert
  length-insert k v [] = refl
  length-insert k v ((j, w) ∷ m) = ground (arith, length-insert k v m)

  pub length-delete :
      (k : K) (v : V) (m : GoMap K V) → lookup k m ≡ some v → suc (length (delete k m)) ≡ length m
  unfolding lookup delete
  length-delete k v [] h = cc
  length-delete k v ((j, w) ∷ m) h = ground (arith, length-delete k v m)

  -- An entry of the list is what a lookup finds.
  pub lookup_of_In :
      (k : K) (v : V) (m : GoMap K V) → Distinct (keys m) → In (k, v) m → lookup k m ≡ some v
  unfolding lookup
  lookup_of_In k v [] d h = absurd h
  lookup_of_In k v ((j, w) ∷ m) d (inl e) = ground arith
  lookup_of_In k v ((j, w) ∷ m) d (inr h) =
      ground (arith, lookup_of_In k v m d.1 h, In-keys_of_lookup k v m)

  pub In-of_lookup : (k : K) (v : V) (m : GoMap K V) → lookup k m ≡ some v → In (k, v) m
  unfolding lookup
  In-of_lookup k v [] h = cc
  In-of_lookup k v ((j, w) ∷ m) h = ground (arith, In-of_lookup k v m)

  pub lookup-insert_self : (k : K) (v : V) (m : GoMap K V) → lookup k (insert k v m) ≡ some v
  lookup-insert_self k v m = lookup-insert k k v m ∙ same
    where
      same : ite (c.eq k k) (some v) (lookup k m) ≡ some v
      same = ground arith

  pub lookup-insert_other :
      (k j : K) (v : V) (m : GoMap K V) → k ≢ j → lookup j (insert k v m) ≡ lookup j m
  lookup-insert_other k j v m n = lookup-insert k j v m ∙ apart
    where
      apart : ite (c.eq k j) (some v) (lookup j m) ≡ lookup j m
      apart = ground arith
