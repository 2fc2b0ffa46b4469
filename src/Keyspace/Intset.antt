-- ===== src/Keyspace/Intset.antt =====
-- Sorted arrays of integers, as keyspace.rs searches and edits them.
use ratatosk.Prelude.{
  ℕ, zero, suc, ◌≡◌, refl, sym, ap, ◌∙◌, Bool, true, false, not, ◌&&◌, ◌||◌, List, [], ◌∷◌, length,
  inl, inr, Bool-cases, arith,
}
use mathlib.Core.Path.{subst}
use ratatosk.Prelude.Int.{ℤ, int_beq, int_beq_iff, int_eq, ltb_ℤ, eq_of_parts}
use ratatosk.Prelude.Eq.{Eq, list_eq}
use ratatosk.Prelude.Sets.{contains}
use ratatosk.Keyspace.SetValue.{
  Search, found, absent, behind, binary_search, is_found, insert_at, remove_at, place,
}

-- `n` is below every number of an ascending list.
abbrev pub IsBelowFirst : ℤ → List ℤ → Type 0
IsBelowFirst n [] = Unit
IsBelowFirst n (m ∷ ms) = ltb_ℤ n m ≡ true

abbrev pub Ascending : List ℤ → Type 0
Ascending [] = Unit
Ascending (n ∷ ns) = IsBelowFirst n ns × Ascending ns

or_swap : (a b c : Bool) → (a || (b || c)) ≡ (b || (a || c))
or_swap true true c = refl
or_swap true false c = refl
or_swap false true c = refl
or_swap false false c = refl

ltb_ℤ_trans : (a b c : ℤ) → ltb_ℤ a b ≡ true → ltb_ℤ b c ≡ true → ltb_ℤ a c ≡ true
ltb_ℤ_trans a b c h k = ground arith

int_beq_of_ltb : (a b : ℤ) → ltb_ℤ a b ≡ true → int_beq b a ≡ false
int_beq_of_ltb a b h = ground (arith, int_beq_iff b a)

ltb_ℤ_total : (a b : ℤ) → int_beq b a ≡ false → ltb_ℤ a b ≡ false → ltb_ℤ b a ≡ true
ltb_ℤ_total a b h k = ground (arith, int_beq_iff b a, eq_of_parts b a)

chain_first : (a b : ℤ) (ns : List ℤ) → ltb_ℤ a b ≡ true → IsBelowFirst b ns → IsBelowFirst a ns
chain_first a b [] h k = tt
chain_first a b (n ∷ ns) h k = ltb_ℤ_trans a b n h k

pub contains_below :
    (n : ℤ) (ns : List ℤ) → IsBelowFirst n ns → Ascending ns → contains n ns ≡ false
unfolding contains
contains_below n [] b a = refl
contains_below n (m ∷ ms) b (c, a) =
    rw (int_beq_of_ltb n m b) (contains_below n ms (chain_first n m ms b c) a)

is_found-behind : (s : Search) → is_found (behind s) ≡ is_found s
is_found-behind (found i) = refl
is_found-behind (absent i) = refl

-- The search finds exactly the members.
pub is_found-binary_search :
    (n : ℤ) (ns : List ℤ) → Ascending ns → is_found (binary_search n ns) ≡ contains n ns
unfolding binary_search contains
is_found-binary_search n [] a = refl
is_found-binary_search n (m ∷ ms) (b, a) = elim (Bool-cases (int_beq m n)) [
  | inl h ↦ rw h refl
  | inr h ↦ rw h (elim (Bool-cases (ltb_ℤ n m)) [
    | inl l ↦ rw l (sym (contains_below n ms (chain_first n m ms l b) a))
    | inr l ↦ rw l (is_found-behind (binary_search n ms) ∙ is_found-binary_search n ms a)
  ])
]

pub contains-insert_at :
    (i : ℕ) (n k : ℤ) (ns : List ℤ) → contains k (insert_at i n ns) ≡ (int_beq n k || contains k ns)
unfolding contains
contains-insert_at zero n k ns = refl
contains-insert_at (suc i) n k [] = refl
contains-insert_at (suc i) n k (m ∷ ms) =
    rw (contains-insert_at i n k ms) (or_swap (int_beq m k) (int_beq n k) (contains k ms))

pub length-insert_at : (i : ℕ) (n : ℤ) (ns : List ℤ) → length (insert_at i n ns) ≡ suc (length ns)
length-insert_at zero n ns = refl
length-insert_at (suc i) n [] = refl
length-insert_at (suc i) n (m ∷ ms) = ap suc (length-insert_at i n ms)

place-behind : (n m : ℤ) (ms : List ℤ) (s : Search) → place n (m ∷ ms) (behind s) ≡ m ∷ place n ms s
place-behind n m ms (found i) = refl
place-behind n m ms (absent i) = refl

below-place :
    (m n : ℤ) (ms : List ℤ) (s : Search)
    → ltb_ℤ m n ≡ true
    → IsBelowFirst m ms
    → IsBelowFirst m (place n ms s)
below-place m n ms (found i) h b = b
below-place m n ms (absent zero) h b = h
below-place m n [] (absent (suc i)) h b = h
below-place m n (k ∷ ms) (absent (suc i)) h b = b

pub place-Ascending :
    (n : ℤ) (ns : List ℤ) → Ascending ns → Ascending (place n ns (binary_search n ns))
unfolding binary_search
place-Ascending n [] a = (tt, tt)
place-Ascending n (m ∷ ms) (b, a) = elim (Bool-cases (int_beq m n)) [
  | inl h ↦ rw h (b, a)
  | inr h ↦ rw h (elim (Bool-cases (ltb_ℤ n m)) [
    | inl l ↦ rw l (l, (b, a))
    | inr l ↦
        rw (l, place-behind n m ms (binary_search n ms))
          (below-place m n ms (binary_search n ms) (ltb_ℤ_total n m h l) b, place-Ascending n ms a)
  ])
]

abbrev pub take_out : List ℤ → Search → List ℤ
take_out ns (found i) = remove_at i ns
take_out ns (absent i) = ns

take_out-behind :
    (m : ℤ) (ms : List ℤ) (s : Search) → take_out (m ∷ ms) (behind s) ≡ m ∷ take_out ms s
take_out-behind m ms (found i) = refl
take_out-behind m ms (absent i) = refl

below-remove_at :
    (m : ℤ) (i : ℕ) (ns : List ℤ)
    → IsBelowFirst m ns
    → Ascending ns
    → IsBelowFirst m (remove_at i ns)
below-remove_at m zero [] b a = tt
below-remove_at m (suc i) [] b a = tt
below-remove_at m zero (n ∷ ns) b (c, a) = chain_first m n ns b c
below-remove_at m (suc i) (n ∷ ns) b a = b

pub remove_at-Ascending : (i : ℕ) (ns : List ℤ) → Ascending ns → Ascending (remove_at i ns)
remove_at-Ascending zero [] a = tt
remove_at-Ascending (suc i) [] a = tt
remove_at-Ascending zero (n ∷ ns) (b, a) = a
remove_at-Ascending (suc i) (n ∷ ns) (b, a) =
    (below-remove_at n i ns b a, remove_at-Ascending i ns a)

-- How a removal meets the first element of a list.
module _ {A : Type 0} ⦃e : Eq A⦄ where
  remove_here :
      (m n k : A) (rest : Bool)
      → e.beq m n ≡ true
      → (n ≡ k → rest ≡ false)
      → rest ≡ (not (e.beq n k) && (e.beq m k || rest))
  remove_here m n k rest h missing = ground (arith, e.beq_iff m n, e.beq_iff n k, e.beq_iff m k)

  remove_nothing : (n k : A) (all : Bool) → (n ≡ k → all ≡ false) → all ≡ (not (e.beq n k) && all)
  remove_nothing n k all missing = ground (arith, e.beq_iff n k)

  remove_later :
      (m n k : A) (rest left : Bool)
      → e.beq m n ≡ false
      → left ≡ (not (e.beq n k) && rest)
      → (e.beq m k || left) ≡ (not (e.beq n k) && (e.beq m k || rest))
  remove_later m n k rest left h is = ground (arith, e.beq_iff m n, e.beq_iff n k, e.beq_iff m k)

-- The removed number is gone and no other.
pub contains-take_out :
    (n k : ℤ) (ns : List ℤ)
    → Ascending ns
    → contains k (take_out ns (binary_search n ns)) ≡ (not (int_beq n k) && contains k ns)
unfolding binary_search contains
contains-take_out n k [] a = ground arith
contains-take_out n k (m ∷ ms) (b, a) = elim (Bool-cases (int_beq m n)) [
  | inl h ↦ rw h (
      remove_here m n k (contains k ms) h (λ (same : n ≡ k).
        contains_below k ms
          (subst (λ (x : ℤ). IsBelowFirst x ms) (((int_beq_iff m n).0 h) ∙ same) b) a))
  | inr h ↦ rw h (elim (Bool-cases (ltb_ℤ n m)) [
    | inl l ↦ rw l (
        remove_nothing n k (contains k (m ∷ ms)) (λ (same : n ≡ k).
          contains_below k (m ∷ ms) (subst (λ (x : ℤ). IsBelowFirst x (m ∷ ms)) same l) (b, a)))
    | inr l ↦
        rw (l, take_out-behind m ms (binary_search n ms))
          (remove_later m n k (contains k ms) (contains k (take_out ms (binary_search n ms))) h
            (contains-take_out n k ms a))
  ])
]

length-remove_behind :
    (ns : List ℤ) (s : Search) (n : ℤ)
    → is_found s ≡ true
    → length (take_out (n ∷ ns) (behind s)) ≡ suc (length (take_out ns s))
length-remove_behind ns (found i) n h = refl
length-remove_behind ns (absent i) n h = refl

length-take_out :
    (n : ℤ) (ns : List ℤ)
    → is_found (binary_search n ns) ≡ true
    → suc (length (take_out ns (binary_search n ns))) ≡ length ns
unfolding binary_search
length-take_out n [] = λ (h : false ≡ true). cc
length-take_out n (m ∷ ms) = elim (Bool-cases (int_beq m n)) [
  | inl e ↦ rw e (λ (h : true ≡ true). refl)
  | inr e ↦ rw e (elim (Bool-cases (ltb_ℤ n m)) [
    | inl l ↦ rw l (λ (h : false ≡ true). cc)
    | inr l ↦ rw l (λ (h : is_found (behind (binary_search n ms)) ≡ true).
        let there = sym (is_found-behind (binary_search n ms)) ∙ h in
        omega
          (arith, length-remove_behind ms (binary_search n ms) m there, length-take_out n ms there))
  ])
]

pub length-remove_at :
    (n : ℤ) (ns : List ℤ) (i : ℕ)
    → binary_search n ns ≡ found i
    → suc (length (remove_at i ns)) ≡ length ns
length-remove_at n ns i at =
    subst (λ (r : Search). suc (length (take_out ns r)) ≡ length ns) at
      (length-take_out n ns (ap is_found at))
