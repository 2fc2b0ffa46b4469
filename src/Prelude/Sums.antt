-- ===== src/Prelude/Sums.antt =====
-- Sums over the entries of a map.
use mathlib.Core.Path.{◌≡◌, refl}
use mathlib.Core.Option.{Option, none, some}
use mathlib.Core.List.{[], ◌∷◌}
use native.Mathlib.Omega.{arith}
use ratatosk.Prelude.Eq.{Eq}
use ratatosk.Prelude.Maps.{Map, lookup, insert, remove, IsUnique}
use Prim.Native.Nat.{ℕ, ◌+◌}

module _ {K V : Type 0} (size : K → V → ℕ) where
  abbrev pub total : Map K V → ℕ
  total [] = 0
  total ((k, v) ∷ m) = size k v + total m

  abbrev pub share_of : K → Option V → ℕ
  share_of k none = 0
  share_of k (some v) = size k v

  pub total-insert :
      ⦃e : Eq K⦄ (k : K) (v : V) (m : Map K V)
      → total (insert k v m) + share_of k (lookup k m) ≡ total m + size k v
  unfolding insert lookup
  total-insert k v [] = omega arith
  total-insert ⦃e⦄ k v ((j, w) ∷ m) = ground (arith, e.beq_iff j k, total-insert k v m)

  total-remove_missing :
      ⦃e : Eq K⦄ (k : K) (m : Map K V) → lookup k m ≡ none → total (remove k m) ≡ total m
  unfolding remove lookup
  total-remove_missing k [] n = refl
  total-remove_missing ⦃e⦄ k ((j, w) ∷ m) n =
      ground (arith, e.beq_iff j k, total-remove_missing k m)

  pub total-remove :
      ⦃e : Eq K⦄ (k : K) (m : Map K V)
      → IsUnique m
      → total (remove k m) + share_of k (lookup k m) ≡ total m
  unfolding remove lookup
  total-remove k [] u = refl
  total-remove ⦃e⦄ k ((j, w) ∷ m) (fresh, u) =
      ground (arith, e.beq_iff j k, fresh, total-remove k m u, total-remove_missing k m)
