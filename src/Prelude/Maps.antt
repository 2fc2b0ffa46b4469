-- ===== src/Prelude/Maps.antt =====
-- Hash maps as association lists: an insert replaces in place or appends, a removal takes every
-- entry of the key out.
use mathlib.Core.Path.{◌≡◌, refl, ap, ◌∙◌}
use mathlib.Core.Logic.{inl, inr}
use mathlib.Core.Bool.{Bool, true, false}
use mathlib.Core.Option.{Option, none, some}
use mathlib.Core.List.{List, [], ◌∷◌}
use native.Mathlib.Omega.{arith}
use ratatosk.Prelude.Tests.{if◌then◌else◌, Bool-cases, Option-cases}
use ratatosk.Prelude.Eq.{Eq, beq_self}
use ratatosk.Prelude.Lists.{length}
use Prim.Native.Nat.{suc, ◌≤◌}

abbrev pub Map : Type 0 → Type 0 → Type 0
Map K V = List (K × V)

abbrev pub is_some {ℓ} : {A : Type ℓ} → Option A → Bool
is_some none = false
is_some (some a) = true

abbrev pub kept : {V : Type 0} → (V → Option V) → Option V → Option V
kept keep none = none
kept keep (some v) = keep v

abbrev pub retained : {K V : Type 0} → K → Option V → Map K V → Map K V
retained j none m = m
retained j (some v) m = (j, v) ∷ m

module _ {K V : Type 0} ⦃e : Eq K⦄ where
  unfoldable pub lookup : K → Map K V → Option V
  lookup k [] = none
  lookup k ((j, v) ∷ m) = if e.beq j k then some v else lookup k m

  unfoldable pub insert : K → V → Map K V → Map K V
  insert k v [] = (k, v) ∷ []
  insert k v ((j, w) ∷ m) = if e.beq j k then (j, v) ∷ m else (j, w) ∷ insert k v m

  unfoldable pub remove : K → Map K V → Map K V
  remove k [] = []
  remove k ((j, w) ∷ m) = let rest = remove k m in if e.beq j k then rest else (j, w) ∷ rest

  abbrev pub contains_key : K → Map K V → Bool
  contains_key k m = is_some (lookup k m)

  pub lookup-nil : (k : K) → lookup k [] ≡ none
  unfolding lookup
  lookup-nil k = refl

  pub lookup-insert :
      (k j : K) (v : V) (m : Map K V)
      → lookup j (insert k v m) ≡ (if e.beq k j then some v else lookup j m)
  unfolding lookup insert
  lookup-insert k j v [] = refl
  lookup-insert k j v ((i, w) ∷ m) =
      ground (arith, e.beq_iff k j, e.beq_iff i k, e.beq_iff i j, lookup-insert k j v m)

  pub lookup-remove :
      (k j : K) (m : Map K V) → lookup j (remove k m) ≡ (if e.beq k j then none else lookup j m)
  unfolding lookup remove
  lookup-remove k j [] = ground arith
  lookup-remove k j ((i, w) ∷ m) =
      ground (arith, e.beq_iff k j, e.beq_iff i k, e.beq_iff i j, lookup-remove k j m)

  pub lookup-insert_self : (k : K) (v : V) (m : Map K V) → lookup k (insert k v m) ≡ some v
  lookup-insert_self k v m = ground (arith, lookup-insert k k v m, beq_self k)

  pub lookup-remove_self : (k : K) (m : Map K V) → lookup k (remove k m) ≡ none
  lookup-remove_self k m = ground (arith, lookup-remove k k m, beq_self k)

  -- `retain`, whose test may also change the value.
  pub retain : (V → Option V) → Map K V → Map K V
  retain keep [] = []
  retain keep ((j, v) ∷ m) = retained j (keep v) (retain keep m)

  -- Each key has one entry.
  abbrev pub IsUnique : Map K V → Type 0
  IsUnique [] = Unit
  IsUnique ((j, v) ∷ m) = (lookup j m ≡ none) × IsUnique m

  pub remove-missing : (k : K) (m : Map K V) → lookup k m ≡ none → remove k m ≡ m
  unfolding lookup remove
  remove-missing k [] = λ (h : none ≡ none). refl
  remove-missing k ((j, w) ∷ m) = elim (Bool-cases (e.beq j k)) [
    | inl b ↦ rw b (λ (h : some w ≡ none). cc)
    | inr b ↦
        rw b (λ (h : lookup k m ≡ none). ap (λ (t : Map K V). (j, w) ∷ t) (remove-missing k m h))
  ]

  pub insert-IsUnique : (k : K) (v : V) (m : Map K V) → IsUnique m → IsUnique (insert k v m)
  unfolding insert
  insert-IsUnique k v [] u = (lookup-nil k, tt)
  insert-IsUnique k v ((j, w) ∷ m) (fresh, u) = elim (Bool-cases (e.beq j k)) [
    | inl h ↦ rw h (fresh, u)
    | inr h ↦ rw h (
      ground (arith, lookup-insert k j v m, e.beq_iff k j, e.beq_iff j k),
      insert-IsUnique k v m u,
    )
  ]

  pub remove-IsUnique : (k : K) (m : Map K V) → IsUnique m → IsUnique (remove k m)
  unfolding remove
  remove-IsUnique k [] u = tt
  remove-IsUnique k ((j, w) ∷ m) (fresh, u) = elim (Bool-cases (e.beq j k)) [
    | inl h ↦ rw h (remove-IsUnique k m u)
    | inr h ↦ rw h (ground (arith, lookup-remove k j m), remove-IsUnique k m u)
  ]

  pub lookup-retain :
      (keep : V → Option V) (k : K) (m : Map K V)
      → IsUnique m
      → lookup k (retain keep m) ≡ kept keep (lookup k m)
  unfolding retain lookup
  lookup-retain keep k [] u = refl
  lookup-retain keep k ((j, v) ∷ m) (fresh, u) =
      let ih = lookup-retain keep k m u in
      elim (Option-cases (keep v)) [
        | inl n ↦ rw n (ground (arith, ih, e.beq_iff j k, n, fresh))
        | inr (x, h) ↦ rw h (ground (arith, ih, e.beq_iff j k, h))
      ]

  pub length-insert :
      (k : K) (v : V) (m : Map K V)
      → length (insert k v m) ≡ (if contains_key k m then length m else suc (length m))
  unfolding insert lookup
  length-insert k v [] = refl
  length-insert k v ((j, w) ∷ m) = ground (arith, length-insert k v m)

  pub length-remove : (k : K) (m : Map K V) → length (remove k m) ≤ length m
  unfolding remove
  length-remove k [] = omega arith
  length-remove k ((j, w) ∷ m) = ground (arith, length-remove k m)

  pub length-retain : (keep : V → Option V) (m : Map K V) → length (retain keep m) ≤ length m
  unfolding retain
  length-retain keep [] = omega arith
  length-retain keep ((j, w) ∷ m) = elim (Option-cases (keep w)) [
    | inl n ↦ rw n (omega (arith, length-retain keep m))
    | inr (x, h) ↦ rw h (omega (arith, length-retain keep m))
  ]

  retained-IsUnique :
      (keep : V → Option V) (j : K) (o : Option V) (m : Map K V)
      → lookup j m ≡ none
      → IsUnique m
      → IsUnique (retain keep m)
      → IsUnique (retained j o (retain keep m))
  retained-IsUnique keep j none m fresh u ih = ih
  retained-IsUnique keep j (some x) m fresh u ih =
      (lookup-retain keep j m u ∙ ap (kept keep) fresh, ih)

  pub retain-IsUnique : (keep : V → Option V) (m : Map K V) → IsUnique m → IsUnique (retain keep m)
  unfolding retain
  retain-IsUnique keep [] u = tt
  retain-IsUnique keep ((j, w) ∷ m) (fresh, u) =
      retained-IsUnique keep j (keep w) m fresh u (retain-IsUnique keep m u)
