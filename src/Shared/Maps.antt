-- ===== src/Shared/Maps.antt =====
-- Maps with numbers for keys, as association lists. A hash map's order is left open: it is the
-- order of the list.
use Prim.Native.Nat.{ℕ}
use mathlib.Core.Path.{◌≡◌}
use mathlib.Core.Bool.{Bool, false, ◌&&◌, ◌||◌, not}
use mathlib.Core.List.{List, [], ◌∷◌}
use mathlib.Core.Option.{Option, none, some}
use native.Mathlib.Omega.{arith}
use twinleaf_rust.Shared.Tests.{◌==◌, if◌then◌else◌, Bool-cases}
use mathlib.Core.Logic.{inl, inr}

module _ {ℓ} {V : Type ℓ} where
  unfoldable pub lookup : ℕ → List (ℕ × V) → Option V
  lookup k [] = none
  lookup k ((k', v) ∷ m) = if k == k' then some v else lookup k m

  unfoldable pub remove : ℕ → List (ℕ × V) → List (ℕ × V)
  remove k [] = []
  remove k ((k', v) ∷ m) = if k == k' then remove k m else (k', v) ∷ remove k m

  unfoldable pub insert : ℕ → V → List (ℕ × V) → List (ℕ × V)
  unfolding remove
  insert k v m = (k, v) ∷ remove k m

  pub lookup-remove :
      (k q : ℕ) (m : List (ℕ × V)) → lookup k (remove q m) ≡ (if k == q then none else lookup k m)
  unfolding lookup remove
  lookup-remove k q [] = ground arith
  lookup-remove k q ((k', v) ∷ m) = ground (arith, lookup-remove k q m)

  pub lookup-insert :
      (k q : ℕ) (v : V) (m : List (ℕ × V))
      → lookup k (insert q v m) ≡ (if k == q then some v else lookup k m)
  unfolding lookup insert
  lookup-insert k q v m = ground (arith, lookup-remove k q m)

-- A set of numbers.
unfoldable pub member : ℕ → List ℕ → Bool
member x [] = false
member x (y ∷ ys) = x == y || member x ys

unfoldable pub set_remove : ℕ → List ℕ → List ℕ
set_remove x [] = []
set_remove x (y ∷ ys) = if x == y then set_remove x ys else y ∷ set_remove x ys

unfoldable pub set_insert : ℕ → List ℕ → List ℕ
unfolding member
set_insert x ys = if member x ys then ys else x ∷ ys

pub member-set_remove :
    (x y : ℕ) (ys : List ℕ) → member x (set_remove y ys) ≡ (not (x == y) && member x ys)
unfolding member set_remove
member-set_remove x y [] = ground arith
member-set_remove x y (z ∷ ys) = ground (arith, member-set_remove x y ys)

pub member-set_insert :
    (x y : ℕ) (ys : List ℕ) → member x (set_insert y ys) ≡ (x == y || member x ys)
unfolding member set_insert
member-set_insert x y ys = elim (Bool-cases (member y ys)) [
  | inl e ↦ ground arith
  | inr e ↦ ground arith
]
