-- ===== src/Prelude/Sort.antt =====
-- Byte strings in their order, and the sorting of a list of them.
use Prim.Native.Nat.{ℕ}
use mathlib.Core.Path.{◌≡◌, refl}
use mathlib.Core.Bool.{Bool, true, false, ◌&&◌, ◌||◌}
use mathlib.Core.List.{List, [], ◌∷◌}
use native.Mathlib.Omega.{arith}
use ratatosk.Prelude.Tests.{if◌then◌else◌, ltb, ◌==◌}
use ratatosk.Prelude.Eq.{list_eq, bytes_eq}
use ratatosk.Prelude.Sets.{contains}

unfoldable pub bytes_le : List ℕ → List ℕ → Bool
bytes_le [] ys = true
bytes_le (x ∷ xs) [] = false
bytes_le (x ∷ xs) (y ∷ ys) = ltb x y || (x == y && bytes_le xs ys)

unfoldable pub sorted_insert : List ℕ → List (List ℕ) → List (List ℕ)
sorted_insert a [] = a ∷ []
sorted_insert a (x ∷ xs) =
    let rest = sorted_insert a xs in if bytes_le a x then a ∷ x ∷ xs else x ∷ rest

unfoldable pub sort : List (List ℕ) → List (List ℕ)
sort [] = []
sort (x ∷ xs) = sorted_insert x (sort xs)

contains-sorted_insert :
    (a b : List ℕ) (xs : List (List ℕ))
    → contains b (sorted_insert a xs) ≡ (bytes_eq a b || contains b xs)
unfolding sorted_insert contains
contains-sorted_insert a b [] = refl
contains-sorted_insert a b (x ∷ xs) = ground (arith, contains-sorted_insert a b xs)

-- Sorting keeps the members.
pub contains-sort : (b : List ℕ) (xs : List (List ℕ)) → contains b (sort xs) ≡ contains b xs
unfolding sort contains
contains-sort b [] = refl
contains-sort b (x ∷ xs) = ground (arith, contains-sorted_insert x b (sort xs), contains-sort b xs)
