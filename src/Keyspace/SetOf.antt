-- ===== src/Keyspace/SetOf.antt =====
-- The set value that `StoredValue::set` of keyspace.rs makes from a hash set.
use ratatosk.Prelude.{
  suc, ◌≤◌, ◌≡◌, refl, sym, ap, ap₂, ◌∙◌, Bool, true, false, ◌||◌, Option, none, some, List, [],
  ◌∷◌, length, inl, inr, Bool-cases, arith, leb,
}
use mathlib.Core.Path.{subst}
use ratatosk.Prelude.Int.{ℤ, int_beq, int_beq_iff, int_eq}
use ratatosk.Prelude.Eq.{list_eq}
use ratatosk.Prelude.Sets.{contains, Distinct}
use ratatosk.Prelude.Decimal.{IsI64}
use ratatosk.Prelude.Words.{Bytes}
use ratatosk.Keyspace.Value.{
  ValueData, set, set_int, StoredValue, Encoding, raw, int, quick_list, hash_table, int_set,
  skip_list, stream_tree, encoding, new_value, as_u8, from_u8,
}
use ratatosk.Keyspace.Intset.{
  Ascending, is_found-binary_search, contains-insert_at, length-insert_at, place-Ascending,
}
use ratatosk.Keyspace.SetLaws.{
  AllI64, contains_some, contains_some-cons, insert_at-AllI64, member-IsI64, member-is,
}
use ratatosk.Keyspace.SetValue.{
  Search, found, absent, binary_search, is_found, place, bytes_to_intset_member,
  set_max_intset_entries, set_contains, sort_dedup, with_int, all_ints, set_as, stored_set,
}
use ratatosk.Keyspace.SetMembers.{has, IsSetValue, int_contains-contains}

or_true : (b : Bool) → (b || true) ≡ true
or_true true = refl
or_true false = refl

absorbed : (n k : ℤ) (b : Bool) → (n ≡ k → b ≡ true) → b ≡ (int_beq n k || b)
absorbed n k true h = sym (or_true (int_beq n k))
absorbed n k false h = elim (Bool-cases (int_beq n k)) [
  | inl e ↦ (let bad = h ((int_beq_iff n k).0 e) in cc)
  | inr e ↦ rw e refl
]

contains-place :
    (n k : ℤ) (ns : List ℤ) (s : Search)
    → binary_search n ns ≡ s
    → Ascending ns
    → contains k (place n ns s) ≡ (int_beq n k || contains k ns)
contains-place n k ns (found i) at a =
    let there = sym (is_found-binary_search n ns a) ∙ ap is_found at in
    absorbed n k (contains k ns)
      (λ (same : n ≡ k). subst (λ (x : ℤ). contains x ns ≡ true) same there)
contains-place n k ns (absent i) at a = contains-insert_at i n k ns

sort_dedup-Ascending : (ns : List ℤ) → Ascending (sort_dedup ns)
unfolding sort_dedup
sort_dedup-Ascending [] = tt
sort_dedup-Ascending (n ∷ ns) = place-Ascending n (sort_dedup ns) (sort_dedup-Ascending ns)

contains-sort_dedup : (k : ℤ) (ns : List ℤ) → contains k (sort_dedup ns) ≡ contains k ns
unfolding sort_dedup contains
contains-sort_dedup k [] = refl
contains-sort_dedup k (n ∷ ns) =
    contains-place n k (sort_dedup ns) (binary_search n (sort_dedup ns)) refl
      (sort_dedup-Ascending ns)
    ∙ ap (λ (b : Bool). int_beq n k || b) (contains-sort_dedup k ns)

place-AllI64 : (n : ℤ) (ns : List ℤ) (s : Search) → IsI64 n → AllI64 ns → AllI64 (place n ns s)
place-AllI64 n ns (found i) small all = all
place-AllI64 n ns (absent i) small all = insert_at-AllI64 i n ns small all

sort_dedup-AllI64 : (ns : List ℤ) → AllI64 ns → AllI64 (sort_dedup ns)
unfolding sort_dedup
sort_dedup-AllI64 [] all = tt
sort_dedup-AllI64 (n ∷ ns) (small, all) =
    place-AllI64 n (sort_dedup ns) (binary_search n (sort_dedup ns)) small
      (sort_dedup-AllI64 ns all)

length-place : (n : ℤ) (ns : List ℤ) (s : Search) → length (place n ns s) ≤ suc (length ns)
length-place n ns (found i) = omega arith
length-place n ns (absent i) = omega (arith, length-insert_at i n ns)

length-sort_dedup : (ns : List ℤ) → length (sort_dedup ns) ≤ length ns
unfolding sort_dedup
length-sort_dedup [] = omega arith
length-sort_dedup (n ∷ ns) =
    omega (
      arith,
      length-place n (sort_dedup ns) (binary_search n (sort_dedup ns)),
      length-sort_dedup ns,
    )

-- What a list of members that are all integers parses to.
record Parsed (members : List Bytes) (ns : List ℤ) : Type 0 where
  small : AllI64 ns
  same : (k : Bytes) → contains_some ns (bytes_to_intset_member k) ≡ contains k members
  counted : length ns ≡ length members

-- Nothing is claimed of a list with another member.
abbrev IsParsed : List Bytes → Option (List ℤ) → Type 0
IsParsed members none = Unit
IsParsed members (some ns) = Parsed members ns

with_int-IsParsed :
    (member : Bytes) (members : List Bytes) (o : Option ℤ) (rest : Option (List ℤ))
    → bytes_to_intset_member member ≡ o
    → IsParsed members rest
    → IsParsed (member ∷ members) (with_int o rest)
unfolding contains
with_int-IsParsed member members none rest is p = tt
with_int-IsParsed member members (some n) none is p = tt
with_int-IsParsed member members (some n) (some ns) is p = record {
  small = (member-IsI64 member n is, p.small);
  same = λ (k : Bytes).
      contains_some-cons n ns (bytes_to_intset_member k)
      ∙ ap₂ ◌||◌ (sym (member-is member k n is)) (p.same k);
  counted = ap suc p.counted;
}

nothing-same : (o : Option ℤ) → contains_some [] o ≡ false
unfolding contains
nothing-same none = refl
nothing-same (some n) = refl

all_ints-IsParsed : (members : List Bytes) → IsParsed members (all_ints members)
unfolding all_ints contains
all_ints-IsParsed [] = record {
  small = tt;
  same = λ (k : Bytes). nothing-same (bytes_to_intset_member k);
  counted = refl;
}
all_ints-IsParsed (member ∷ members) =
    with_int-IsParsed member members (bytes_to_intset_member member) (all_ints members) refl
      (all_ints-IsParsed members)

pub encoding-new_value :
    (p : ValueData) (expire : Option ℤ) (enc : Encoding) → encoding (new_value p expire enc) ≡ enc
unfolding encoding new_value as_u8 from_u8
encoding-new_value p expire raw = refl
encoding-new_value p expire int = refl
encoding-new_value p expire quick_list = refl
encoding-new_value p expire hash_table = refl
encoding-new_value p expire int_set = refl
encoding-new_value p expire skip_list = refl
encoding-new_value p expire stream_tree = refl

-- A stored set: well formed, with the members of the hash set that it is made from.
pub record Stored (members : List Bytes) (v : StoredValue) : Type 0 where
  pub still : IsSetValue v
  pub same : (k : Bytes) → has k v ≡ contains k members

contains_some-sort_dedup :
    (ns : List ℤ) (o : Option ℤ) → contains_some (sort_dedup ns) o ≡ contains_some ns o
contains_some-sort_dedup ns none = refl
contains_some-sort_dedup ns (some k) = contains-sort_dedup k ns

hashed-Stored :
    (members : List Bytes) (expire : Option ℤ)
    → Distinct members
    → Stored members (new_value (set members) expire hash_table)
unfolding new_value set_contains
hashed-Stored members expire d = record {
  still = record { well_formed = d; encoded = encoding-new_value (set members) expire hash_table };
  same = λ (k : Bytes). refl;
}

set_as-Stored :
    (members : List Bytes) (expire : Option ℤ) (o : Option (List ℤ))
    → Distinct members
    → length members ≤ set_max_intset_entries
    → IsParsed members o
    → Stored members (set_as members expire o)
unfolding new_value set_contains
set_as-Stored members expire none d few p = hashed-Stored members expire d
set_as-Stored members expire (some ns) d few p =
    let sorted = sort_dedup-Ascending ns in
    record {
      still = record {
        well_formed = (
          sorted,
          sort_dedup-AllI64 ns p.small,
          omega (arith, few, p.counted, length-sort_dedup ns),
        );
        encoded = encoding-new_value (set_int (sort_dedup ns)) expire int_set;
      };
      same = λ (k : Bytes).
          int_contains-contains (sort_dedup ns) (bytes_to_intset_member k) sorted
          ∙ contains_some-sort_dedup ns (bytes_to_intset_member k)
          ∙ p.same k;
    }

-- `StoredValue::set` keeps exactly the members of the hash set, and picks a well-formed representation
-- with its encoding: an array in ascending order of at most 512 numbers, or the hash set itself.
pub stored_set-Stored :
    (members : List Bytes) (expire : Option ℤ)
    → Distinct members
    → Stored members (stored_set members expire)
unfolding stored_set
stored_set-Stored members expire d =
    elim (Bool-cases (leb (length members) set_max_intset_entries)) [
      | inl few ↦ rw few (
          set_as-Stored members expire (all_ints members) d (ground (arith, few))
            (all_ints-IsParsed members))
      | inr many ↦ rw many (hashed-Stored members expire d)
    ]
