-- ===== src/Prelude/Assoc.antt =====
-- A memory of records at addresses, as an association list: what `malloc` gave and `free` has not
-- taken back.
use mathlib.Core.Path.{◌≡◌, refl}
use mathlib.Core.Option.{Option, none, some}
use mathlib.Core.List.{List, [], ◌∷◌}
use native.Mathlib.Omega.{arith}
use Prim.Native.Nat.{ℕ}
use mathlib.Core.Bool.{false}
use reproduce.Prelude.Lists.{contains}
use reproduce.Prelude.Tests.{◌==◌, if◌then◌else◌}

module _ {ℓ} {V : Type ℓ} where
  unfoldable pub lookup : ℕ → List (ℕ × V) → Option V
  lookup a [] = none
  lookup a ((b, v) ∷ m) = if b == a then some v else lookup a m

  abbrev pub addresses : List (ℕ × V) → List ℕ
  addresses [] = []
  addresses ((b, v) ∷ m) = b ∷ addresses m

  pub lookup-of_not_contains :
      (a : ℕ) (m : List (ℕ × V)) → contains (addresses m) a ≡ false → lookup a m ≡ none
  unfolding lookup
  lookup-of_not_contains a [] h = refl
  lookup-of_not_contains a ((b, v) ∷ m) h = ground (arith, lookup-of_not_contains a m)

  unfoldable pub write : ℕ → V → List (ℕ × V) → List (ℕ × V)
  write a v [] = (a, v) ∷ []
  write a v ((b, w) ∷ m) = if b == a then (a, v) ∷ m else (b, w) ∷ write a v m

  unfoldable pub remove : ℕ → List (ℕ × V) → List (ℕ × V)
  remove a [] = []
  remove a ((b, w) ∷ m) = let rest = remove a m in if b == a then rest else (b, w) ∷ rest

  pub lookup-write :
      (a b : ℕ) (v : V) (m : List (ℕ × V))
      → lookup b (write a v m) ≡ (if a == b then some v else lookup b m)
  unfolding lookup write
  lookup-write a b v [] = refl
  lookup-write a b v ((c, w) ∷ m) = ground (arith, lookup-write a b v m)

  pub lookup-remove :
      (a b : ℕ) (m : List (ℕ × V)) → lookup b (remove a m) ≡ (if a == b then none else lookup b m)
  unfolding lookup remove
  lookup-remove a b [] = ground arith
  lookup-remove a b ((c, w) ∷ m) = ground (arith, lookup-remove a b m)
