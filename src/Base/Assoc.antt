-- ===== src/Base/Assoc.antt =====
-- Association lists keyed by numbers, for the hash maps of the source.
use mathlib.Core.Path.{◌≡◌}
use mathlib.Core.List.{List, [], ◌∷◌}
use mathlib.Core.Option.{Option, none, some}
use Prim.Native.Nat.{ℕ}
use native.Mathlib.Omega.{arith}
use pycompile.Base.Tests.{◌==◌, if◌then◌else◌}

module _ {ℓ} {V : Type ℓ} where
  unfoldable pub lookup : ℕ → List (ℕ × V) → Option V
  lookup key [] = none
  lookup key (entry ∷ more) = if key == entry.0 then some entry.1 else lookup key more

  unfoldable pub insert : ℕ → V → List (ℕ × V) → List (ℕ × V)
  insert key value [] = (key, value) ∷ []
  insert key value (entry ∷ more) =
      if key == entry.0 then (key, value) ∷ more else entry ∷ insert key value more

  unfoldable pub erase : ℕ → List (ℕ × V) → List (ℕ × V)
  erase key [] = []
  erase key (entry ∷ more) =
      let others = erase key more in if key == entry.0 then others else entry ∷ others

  pub lookup-insert :
      (key wanted : ℕ) (value : V) (entries : List (ℕ × V))
      → lookup wanted (insert key value entries)
        ≡ (if key == wanted then some value else lookup wanted entries)
  unfolding lookup insert
  lookup-insert key wanted value [] = ground arith
  lookup-insert key wanted value (entry ∷ more) =
      ground (arith, lookup-insert key wanted value more)
