-- ===== src/Prelude/Sets.antt =====
-- Hash sets as lists without repetition, and maps into such sets with no empty one: `join` is
-- `entry(k).or_default().insert(v)`, `leave` removes `v` and then an entry that has become empty.
use mathlib.Core.Path.{◌≡◌, refl}
use mathlib.Core.Logic.{inl, inr}
use mathlib.Core.Bool.{Bool, true, false, ◌&&◌, ◌||◌, not}
use mathlib.Core.Option.{Option, none, some}
use mathlib.Core.List.{List, [], ◌∷◌}
use native.Mathlib.Omega.{arith}
use ratatosk.Prelude.Tests.{if◌then◌else◌, Option-cases, Bool-cases}
use ratatosk.Prelude.Lists.{length}
use Prim.Native.Nat.{suc}
use ratatosk.Prelude.Eq.{Eq}
use ratatosk.Prelude.Maps.{Map, lookup, insert, remove, lookup-insert, lookup-remove}

module _ {A : Type 0} ⦃e : Eq A⦄ where
  unfoldable pub contains : A → List A → Bool
  contains a [] = false
  contains a (x ∷ xs) = e.beq x a || contains a xs

  unfoldable pub set_insert : A → List A → List A
  set_insert a [] = a ∷ []
  set_insert a (x ∷ xs) = if e.beq x a then x ∷ xs else x ∷ set_insert a xs

  unfoldable pub set_remove : A → List A → List A
  set_remove a [] = []
  set_remove a (x ∷ xs) = let rest = set_remove a xs in if e.beq x a then rest else x ∷ rest

  pub contains-set_insert :
      (a b : A) (xs : List A) → contains b (set_insert a xs) ≡ (e.beq a b || contains b xs)
  unfolding contains set_insert
  contains-set_insert a b [] = refl
  contains-set_insert a b (x ∷ xs) =
      ground (arith, e.beq_iff a b, e.beq_iff x a, e.beq_iff x b, contains-set_insert a b xs)

  pub contains-set_remove :
      (a b : A) (xs : List A) → contains b (set_remove a xs) ≡ (not (e.beq a b) && contains b xs)
  unfolding contains set_remove
  contains-set_remove a b [] = ground arith
  contains-set_remove a b (x ∷ xs) =
      ground (arith, e.beq_iff a b, e.beq_iff x a, e.beq_iff x b, contains-set_remove a b xs)

module _ {A : Type 0} ⦃e : Eq A⦄ where
  -- No repetition.
  abbrev pub Distinct : List A → Type 0
  Distinct [] = Unit
  Distinct (x ∷ xs) = (contains x xs ≡ false) × Distinct xs

  pub length-set_insert :
      (a : A) (xs : List A)
      → length (set_insert a xs) ≡ (if contains a xs then length xs else suc (length xs))
  unfolding contains set_insert
  length-set_insert a [] = refl
  length-set_insert a (x ∷ xs) = ground (arith, length-set_insert a xs)

  pub set_insert-Distinct : (a : A) (xs : List A) → Distinct xs → Distinct (set_insert a xs)
  unfolding contains set_insert
  set_insert-Distinct a [] d = (refl, tt)
  set_insert-Distinct a (x ∷ xs) (fresh, d) = elim (Bool-cases (e.beq x a)) [
    | inl h ↦ rw h (fresh, d)
    | inr h ↦ rw h (
      ground (arith, contains-set_insert a x xs, fresh, e.beq_iff x a, e.beq_iff a x, h),
      set_insert-Distinct a xs d,
    )
  ]

  pub set_remove-Distinct : (a : A) (xs : List A) → Distinct xs → Distinct (set_remove a xs)
  unfolding contains set_remove
  set_remove-Distinct a [] d = tt
  set_remove-Distinct a (x ∷ xs) (fresh, d) = elim (Bool-cases (e.beq x a)) [
    | inl h ↦ rw h (set_remove-Distinct a xs d)
    | inr h ↦ rw h (ground (arith, contains-set_remove a x xs, fresh), set_remove-Distinct a xs d)
  ]

  length-set_remove_missing :
      (a : A) (xs : List A) → contains a xs ≡ false → length (set_remove a xs) ≡ length xs
  unfolding contains set_remove
  length-set_remove_missing a [] h = refl
  length-set_remove_missing a (x ∷ xs) h = ground (arith, h, length-set_remove_missing a xs)

  pub length-set_remove :
      (a : A) (xs : List A)
      → Distinct xs
      → (if contains a xs then suc (length (set_remove a xs)) else length (set_remove a xs))
        ≡ length xs
  unfolding contains set_remove
  length-set_remove a [] d = refl
  length-set_remove a (x ∷ xs) (fresh, d) =
      ground (arith, fresh, e.beq_iff x a, length-set_remove a xs d, length-set_remove_missing a xs)

abbrev pub or_empty : {A : Type 0} → Option (List A) → List A
or_empty none = []
or_empty (some xs) = xs

abbrev pub is_empty : {A : Type 0} → List A → Bool
is_empty [] = true
is_empty (x ∷ xs) = false

module _ {K V : Type 0} ⦃e : Eq K⦄ ⦃f : Eq V⦄ where
  -- The set of a key; a missing entry is the empty set.
  abbrev pub set_of : K → Map K (List V) → List V
  set_of k m = or_empty (lookup k m)

  abbrev pub joined : K → V → Map K (List V) → Bool
  joined k v m = contains v (set_of k m)

  unfoldable pub join : K → V → Map K (List V) → Map K (List V)
  join k v m = insert k (set_insert v (set_of k m)) m

  -- The entry of `k` is given back as `set`, or taken out when that is empty.
  abbrev pub put_back : K → List V → Map K (List V) → Map K (List V)
  put_back k set m = if is_empty set then remove k m else insert k set m

  abbrev pub leave_set : K → V → Map K (List V) → Option (List V) → Map K (List V)
  leave_set k v m none = m
  leave_set k v m (some set) = put_back k (set_remove v set) m

  unfoldable pub leave : K → V → Map K (List V) → Map K (List V)
  leave k v m = leave_set k v m (lookup k m)

  set_of-join :
      (k j : K) (v : V) (m : Map K (List V))
      → set_of j (join k v m) ≡ (if e.beq k j then set_insert v (set_of k m) else set_of j m)
  unfolding join
  set_of-join k j v m = ground (arith, lookup-insert k j (set_insert v (set_of k m)) m)

  set_of-put_back :
      (k j : K) (set : List V) (m : Map K (List V))
      → set_of j (put_back k set m) ≡ (if e.beq k j then set else set_of j m)
  set_of-put_back k j [] m = ground (arith, lookup-remove k j m)
  set_of-put_back k j (x ∷ set) m = ground (arith, lookup-insert k j (x ∷ set) m)

  set_of-leave :
      (k j : K) (v : V) (m : Map K (List V))
      → set_of j (leave k v m) ≡ (if e.beq k j then set_remove v (set_of k m) else set_of j m)
  unfolding leave set_remove
  set_of-leave k j v m = elim (Option-cases (lookup k m)) [
    | inl n ↦ rw (n, leave) (ground (arith, n, e.beq_iff k j))
    | inr (set, s) ↦ rw (s, leave) (set_of-put_back k j (set_remove v set) m)
  ]

  pub joined-join :
      (k j : K) (v w : V) (m : Map K (List V))
      → joined j w (join k v m) ≡ ((e.beq k j && f.beq v w) || joined j w m)
  joined-join k j v w m =
      ground (arith, e.beq_iff k j, set_of-join k j v m, contains-set_insert v w (set_of k m))

  pub joined-leave :
      (k j : K) (v w : V) (m : Map K (List V))
      → joined j w (leave k v m) ≡ (not (e.beq k j && f.beq v w) && joined j w m)
  joined-leave k j v w m =
      ground (arith, e.beq_iff k j, set_of-leave k j v m, contains-set_remove v w (set_of k m))
