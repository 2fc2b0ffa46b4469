-- ===== src/Keyspace/SetLaws.antt =====
-- The two representations of a set in keyspace.rs are one set.
use ratatosk.Prelude.{
  ℕ, zero, suc, ◌≡◌, refl, sym, ap, ◌∙◌, Bool, true, false, not, ◌&&◌, ◌||◌, Option, none, some,
  List, [], ◌∷◌, length, inl, inr, Option-cases, arith,
}
use ratatosk.Prelude.Int.{ℤ, int_beq, int_beq_iff, int_eq}
use ratatosk.Prelude.Eq.{list_eq, bytes_eq, bytes_eq_iff}
use ratatosk.Prelude.Sets.{
  contains, contains-set_insert, Distinct, length-set_insert, set_insert-Distinct,
}
use ratatosk.Prelude.Decimal.{
  i64_from_str, decimal_ℤ, IsI64, i64_from_str-decimal_ℤ, i64_from_str-IsI64,
}
use ratatosk.Prelude.Words.{Bytes}
use ratatosk.Keyspace.Intset.{
  Ascending, contains_below, contains-insert_at, contains-take_out, take_out,
}
use ratatosk.Keyspace.SetValue.{
  binary_search, insert_at, remove_at, canonical, bytes_to_intset_member, intset_to_hashset,
}

abbrev pub AllI64 : List ℤ → Type 0
AllI64 [] = Unit
AllI64 (n ∷ ns) = IsI64 n × AllI64 ns

abbrev pub is_some_of : ℤ → Option ℤ → Bool
is_some_of n none = false
is_some_of n (some m) = int_beq n m

abbrev pub contains_some : List ℤ → Option ℤ → Bool
contains_some ns none = false
contains_some ns (some m) = contains m ns

is_some_of-canonical :
    (n : ℤ) (k : Bytes) (o : Option ℤ)
    → (bytes_eq (decimal_ℤ n) k ≡ true → o ≡ some n)
    → bytes_eq (decimal_ℤ n) k ≡ is_some_of n (canonical k o)
is_some_of-canonical n k none h = ground (arith, h)
is_some_of-canonical n k (some m) h = ground (arith, h, int_beq_iff n m)

parse_of_decimal :
    (n : ℤ) (k : Bytes) → IsI64 n → bytes_eq (decimal_ℤ n) k ≡ true → i64_from_str k ≡ some n
parse_of_decimal n k small h =
    ap i64_from_str (sym ((bytes_eq_iff (decimal_ℤ n) k).0 h)) ∙ i64_from_str-decimal_ℤ n small

-- A text is the decimal of `n` exactly if it parses to `n` as a member.
decimal-is :
    (n : ℤ) (k : Bytes)
    → IsI64 n
    → bytes_eq (decimal_ℤ n) k ≡ is_some_of n (bytes_to_intset_member k)
unfolding bytes_to_intset_member
decimal-is n k small = is_some_of-canonical n k (i64_from_str k) (parse_of_decimal n k small)

pub contains_some-cons :
    (n : ℤ) (ns : List ℤ) (o : Option ℤ)
    → contains_some (n ∷ ns) o ≡ (is_some_of n o || contains_some ns o)
unfolding contains
contains_some-cons n ns none = refl
contains_some-cons n ns (some m) = refl

-- The hash set of an array has the array's members.
pub contains-hashset :
    (ns : List ℤ) (k : Bytes)
    → AllI64 ns
    → contains k (intset_to_hashset ns) ≡ contains_some ns (bytes_to_intset_member k)
unfolding intset_to_hashset contains
contains-hashset [] k small = elim (Option-cases (bytes_to_intset_member k)) [
  | inl h ↦ rw h refl
  | inr (m, h) ↦ rw h refl
]
contains-hashset (n ∷ ns) k (small, all) =
    contains-set_insert (decimal_ℤ n) k (intset_to_hashset ns)
    ∙ ap (λ (b : Bool). b || contains k (intset_to_hashset ns)) (decimal-is n k small)
    ∙ ap (λ (b : Bool). is_some_of n (bytes_to_intset_member k) || b) (contains-hashset ns k all)
    ∙ sym (contains_some-cons n ns (bytes_to_intset_member k))

pub hashset-Distinct : (ns : List ℤ) → Distinct (intset_to_hashset ns)
unfolding intset_to_hashset
hashset-Distinct [] = tt
hashset-Distinct (n ∷ ns) =
    set_insert-Distinct (decimal_ℤ n) (intset_to_hashset ns) (hashset-Distinct ns)

member_of_decimal : (n : ℤ) → IsI64 n → bytes_to_intset_member (decimal_ℤ n) ≡ some n
unfolding bytes_to_intset_member
member_of_decimal n small =
    rw (i64_from_str-decimal_ℤ n small) (ground (arith, bytes_eq_iff (decimal_ℤ n) (decimal_ℤ n)))

pub length-hashset :
    (ns : List ℤ) → Ascending ns → AllI64 ns → length (intset_to_hashset ns) ≡ length ns
unfolding intset_to_hashset
length-hashset [] a small = refl
length-hashset (n ∷ ns) (b, a) (small, all) =
    let fresh : contains (decimal_ℤ n) (intset_to_hashset ns) ≡ false =
      contains-hashset ns (decimal_ℤ n) all
      ∙ ap (contains_some ns) (member_of_decimal n small)
      ∙ contains_below n ns b a in
    ground (
      arith,
      fresh,
      length-set_insert (decimal_ℤ n) (intset_to_hashset ns),
      length-hashset ns a all,
    )

pub insert_at-AllI64 :
    (i : ℕ) (n : ℤ) (ns : List ℤ) → IsI64 n → AllI64 ns → AllI64 (insert_at i n ns)
insert_at-AllI64 zero n ns small all = (small, all)
insert_at-AllI64 (suc i) n [] small all = (small, tt)
insert_at-AllI64 (suc i) n (m ∷ ms) small (first, all) = (first, insert_at-AllI64 i n ms small all)

pub remove_at-AllI64 : (i : ℕ) (ns : List ℤ) → AllI64 ns → AllI64 (remove_at i ns)
remove_at-AllI64 zero [] all = tt
remove_at-AllI64 (suc i) [] all = tt
remove_at-AllI64 zero (n ∷ ns) (small, all) = all
remove_at-AllI64 (suc i) (n ∷ ns) (small, all) = (small, remove_at-AllI64 i ns all)

canonical-some : (k : Bytes) (o : Option ℤ) (n : ℤ) → canonical k o ≡ some n → o ≡ some n
canonical-some k none n h = cc
canonical-some k (some m) n h = ground (arith, h)

-- What parses as a member is a number of 64 bits.
pub member-IsI64 : (k : Bytes) (n : ℤ) → bytes_to_intset_member k ≡ some n → IsI64 n
unfolding bytes_to_intset_member
member-IsI64 k n h = i64_from_str-IsI64 k n (canonical-some k (i64_from_str k) n h)

canonical-eq : (k : Bytes) (o : Option ℤ) (n : ℤ) → canonical k o ≡ some n → decimal_ℤ n ≡ k
canonical-eq k none n h = cc
canonical-eq k (some m) n h = ground (arith, h, bytes_eq_iff (decimal_ℤ m) k)

-- Two texts of members are equal exactly if their numbers are.
pub member-is :
    (member k : Bytes) (n : ℤ)
    → bytes_to_intset_member member ≡ some n
    → bytes_eq member k ≡ is_some_of n (bytes_to_intset_member k)
unfolding bytes_to_intset_member
member-is member k n h =
    ap (λ (t : Bytes). bytes_eq t k) (sym (canonical-eq member (i64_from_str member) n h))
    ∙ decimal-is n k (member-IsI64 member n h)

pub contains_some-insert_at :
    (i : ℕ) (n : ℤ) (ns : List ℤ) (o : Option ℤ)
    → contains_some (insert_at i n ns) o ≡ (is_some_of n o || contains_some ns o)
contains_some-insert_at i n ns none = refl
contains_some-insert_at i n ns (some m) = contains-insert_at i n m ns

pub contains_some-take_out :
    (n : ℤ) (ns : List ℤ) (o : Option ℤ)
    → Ascending ns
    → contains_some (take_out ns (binary_search n ns)) o
      ≡ (not (is_some_of n o) && contains_some ns o)
contains_some-take_out n ns none a = refl
contains_some-take_out n ns (some m) a = contains-take_out n m ns a
