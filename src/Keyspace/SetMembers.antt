-- ===== src/Keyspace/SetMembers.antt =====
-- What the set operations of keyspace.rs do, whichever representation a set has.
use ratatosk.Prelude.{
  ℕ, suc, ◌≤◌, ◌≡◌, refl, sym, ap, ap₂, ◌∙◌, Bool, false, not, ◌&&◌, ◌||◌, Option, none, some, List,
  length, inl, inr, Bool-cases, arith, if◌then◌else◌, leb,
}
use mathlib.Core.Path.{subst}
use ratatosk.Prelude.Int.{ℤ, int_eq}
use ratatosk.Prelude.Eq.{list_eq, bytes_eq, bytes_eq_iff}
use ratatosk.Prelude.Sets.{
  contains-set_insert, contains-set_remove, Distinct, length-set_insert, length-set_remove,
  set_insert-Distinct, set_remove-Distinct,
}
use ratatosk.Prelude.Words.{Bytes}
use ratatosk.Keyspace.Value.{
  ValueData, string, string_int, hash, list, set, set_int, sorted_set, stream, StoredValue,
  Encoding, hash_table, int_set, encoding, set_encoding, as_u8, from_u8,
}
use ratatosk.Keyspace.Intset.{
  Ascending, is_found-binary_search, length-insert_at, place-Ascending, remove_at-Ascending,
  take_out, length-remove_at,
}
use ratatosk.Keyspace.SetLaws.{
  AllI64, is_some_of, contains_some, contains-hashset, hashset-Distinct, length-hashset,
  insert_at-AllI64, remove_at-AllI64, member-IsI64, member-is, contains_some-insert_at,
  contains_some-take_out,
}
use ratatosk.Keyspace.SetValue.{
  Search, found, absent, binary_search, is_found, insert_at, remove_at, place,
  bytes_to_intset_member, intset_to_hashset, set_max_intset_entries, set_len, set_contains,
  int_contains, set_insert_member, insert_into, insert_parsed, int_inserted, upgraded, hashed,
  set_remove_member, remove_from, remove_parsed, int_removed,
}

abbrev pub or_false : Option Bool → Bool
or_false none = false
or_false (some b) = b

abbrev pub or_zero : Option ℕ → ℕ
or_zero none = 0
or_zero (some n) = n

-- The abstract set, and its size.
abbrev pub has : Bytes → StoredValue → Bool
has k v = or_false (set_contains v.payload k)

abbrev pub size : StoredValue → ℕ
size v = or_zero (set_len v.payload)

-- A hash set has no repetition; an array ascends, holds numbers of 64 bits and at most 512 of them.
abbrev pub IsSetData : ValueData → Type 0
IsSetData (set members) = Distinct members
IsSetData (set_int members) =
    Ascending members × AllI64 members × (length members ≤ set_max_intset_entries)
IsSetData (string s) = ⊥
IsSetData (string_int n) = ⊥
IsSetData (hash h) = ⊥
IsSetData (list l) = ⊥
IsSetData (sorted_set z) = ⊥
IsSetData (stream es groups meta) = ⊥

abbrev pub encoding_of : ValueData → Encoding
encoding_of (set_int members) = int_set
encoding_of _ = hash_table

pub record IsSetValue (v : StoredValue) : Type 0 where
  pub well_formed : IsSetData v.payload
  pub encoded : encoding v ≡ encoding_of v.payload

-- The result of `set_insert_member`: whether the member is new, and the set with it.
pub record Inserted (member : Bytes) (v : StoredValue) (r : Bool × StoredValue) : Type 0 where
  pub fresh : r.0 ≡ not (has member v)
  pub members : (k : Bytes) → has k r.1 ≡ (bytes_eq member k || has k v)
  pub sized : size r.1 ≡ (if r.0 then suc (size v) else size v)
  pub still : IsSetValue r.1

-- Membership in an array.
pub int_contains-contains :
    (ns : List ℤ) (o : Option ℤ) → Ascending ns → int_contains ns o ≡ contains_some ns o
int_contains-contains ns none a = refl
int_contains-contains ns (some n) a = is_found-binary_search n ns a

-- `v` with a payload.
abbrev pub holding : ValueData → StoredValue → StoredValue
holding payload v = record v { payload = payload }

hashed-Inserted :
    (member : Bytes) (members : List Bytes) (v : StoredValue)
    → Distinct members
    → encoding v ≡ hash_table
    → Inserted member (holding (set members) v) (hashed member members v)
unfolding set_contains set_len encoding
hashed-Inserted member members v distinct enc = record {
  fresh = refl;
  members = λ (k : Bytes). contains-set_insert member k members;
  sized = ground (arith, length-set_insert member members);
  still = record { well_formed = set_insert-Distinct member members distinct; encoded = enc };
}

encoding-set : (v : StoredValue) → encoding (set_encoding hash_table v) ≡ hash_table
unfolding encoding set_encoding as_u8 from_u8
encoding-set v = ground arith

-- An array that becomes a hash set and takes the member.
upgraded-Inserted :
    (member : Bytes) (ns : List ℤ) (v : StoredValue)
    → Ascending ns
    → AllI64 ns
    → Inserted member (holding (set_int ns) v) (upgraded member ns v)
unfolding set_contains set_len encoding set_encoding
upgraded-Inserted member ns v a all =
    let members = intset_to_hashset ns in
    let old = λ (k : Bytes).
      contains-hashset ns k all ∙ sym (int_contains-contains ns (bytes_to_intset_member k) a) in
    record {
      fresh = ap not (old member);
      members = λ (k : Bytes).
          contains-set_insert member k members ∙ ap (λ (b : Bool). bytes_eq member k || b) (old k);
      sized = ground (arith, length-set_insert member members, length-hashset ns a all);
      still = record {
        well_formed = set_insert-Distinct member members (hashset-Distinct ns);
        encoded = encoding-set v;
      };
    }

placed-Inserted :
    (member : Bytes) (n : ℤ) (ns : List ℤ) (v : StoredValue) (s : Search)
    → bytes_to_intset_member member ≡ some n
    → binary_search n ns ≡ s
    → IsSetValue (holding (set_int ns) v)
    → Inserted member (holding (set_int ns) v) (int_inserted member n ns (holding (set_int ns) v) s)
unfolding set_contains set_len encoding
placed-Inserted member n ns v (found i) parsed at s =
    let present = ap (int_contains ns) parsed ∙ ap is_found at in
    record {
      fresh = sym (ap not present);
      members = λ (k : Bytes). ground (arith, bytes_eq_iff member k, present);
      sized = refl;
      still = s;
    }
placed-Inserted member n ns v (absent i) parsed at s =
    let missing = ap (int_contains ns) parsed ∙ ap is_found at in
    let put : Ascending (insert_at i n ns) =
      subst (λ (r : Search). Ascending (place n ns r)) at (place-Ascending n ns s.well_formed.0) in
    elim (Bool-cases (leb set_max_intset_entries (length ns))) [
      | inl full ↦
          rw full
            (upgraded-Inserted member ns (holding (set_int ns) v) s.well_formed.0 s.well_formed.1)
      | inr room ↦ rw room (record {
        fresh = sym (ap not missing);
        members = λ (k : Bytes).
            int_contains-contains (insert_at i n ns) (bytes_to_intset_member k) put
            ∙ contains_some-insert_at i n ns (bytes_to_intset_member k)
            ∙ ap₂ ◌||◌ (sym (member-is member k n parsed))
                (sym (int_contains-contains ns (bytes_to_intset_member k) s.well_formed.0));
        sized = length-insert_at i n ns;
        still = record {
          well_formed = (
            put,
            insert_at-AllI64 i n ns (member-IsI64 member n parsed) s.well_formed.1,
            ground (arith, room, length-insert_at i n ns),
          );
          encoded = s.encoded;
        };
      })
    ]

parsed-Inserted :
    (member : Bytes) (ns : List ℤ) (v : StoredValue) (o : Option ℤ)
    → bytes_to_intset_member member ≡ o
    → IsSetValue (holding (set_int ns) v)
    → Inserted member (holding (set_int ns) v) (insert_parsed member ns (holding (set_int ns) v) o)
parsed-Inserted member ns v none is s =
    upgraded-Inserted member ns (holding (set_int ns) v) s.well_formed.0 s.well_formed.1
parsed-Inserted member ns v (some n) is s =
    placed-Inserted member n ns v (binary_search n ns) is refl s

-- The results of an operation on a value that is a set.
abbrev pub Gives : {A : Type 0} → Option A → (A → Type 0) → Type 0
Gives none P = ⊥
Gives (some a) P = P a

insert_into-Inserted :
    (member : Bytes) (payload : ValueData) (v : StoredValue)
    → IsSetValue (holding payload v)
    → Gives (insert_into member (holding payload v) payload) (Inserted member (holding payload v))
unfolding encoding
insert_into-Inserted member (set members) v s =
    hashed-Inserted member members v s.well_formed s.encoded
insert_into-Inserted member (set_int ns) v s =
    parsed-Inserted member ns v (bytes_to_intset_member member) refl s
insert_into-Inserted member (string b) v s = elim s.well_formed [ ]
insert_into-Inserted member (string_int n) v s = elim s.well_formed [ ]
insert_into-Inserted member (hash h) v s = elim s.well_formed [ ]
insert_into-Inserted member (list l) v s = elim s.well_formed [ ]
insert_into-Inserted member (sorted_set z) v s = elim s.well_formed [ ]
insert_into-Inserted member (stream es groups meta) v s = elim s.well_formed [ ]

-- `set_insert_member` on a well-formed set of either representation answers whether the member is new;
-- the result has that member and the old ones, counts one more exactly if it was new, and is well
-- formed with the encoding of its representation, also where an array becomes a hash set.
pub set_insert_member-Inserted :
    (member : Bytes) (v : StoredValue)
    → IsSetValue v
    → Gives (set_insert_member member v) (Inserted member v)
unfolding set_insert_member
set_insert_member-Inserted member v s = insert_into-Inserted member v.payload v s

-- The result of `set_remove_member`: whether the member was there, and the set without it.
pub record Removed (member : Bytes) (v : StoredValue) (r : Bool × StoredValue) : Type 0 where
  pub present : r.0 ≡ has member v
  pub members : (k : Bytes) → has k r.1 ≡ (not (bytes_eq member k) && has k v)
  pub sized : size v ≡ (if r.0 then suc (size r.1) else size r.1)
  pub still : IsSetValue r.1

taken_out-Removed :
    (member : Bytes) (n : ℤ) (ns : List ℤ) (v : StoredValue) (s : Search)
    → bytes_to_intset_member member ≡ some n
    → binary_search n ns ≡ s
    → IsSetValue (holding (set_int ns) v)
    → Removed member (holding (set_int ns) v) (int_removed ns (holding (set_int ns) v) s)
unfolding set_contains set_len encoding
taken_out-Removed member n ns v (absent i) parsed at s =
    let missing = ap (int_contains ns) parsed ∙ ap is_found at in
    record {
      present = sym missing;
      members = λ (k : Bytes). ground (arith, bytes_eq_iff member k, missing);
      sized = refl;
      still = s;
    }
taken_out-Removed member n ns v (found i) parsed at s =
    let there = ap (int_contains ns) parsed ∙ ap is_found at in
    let left = remove_at-Ascending i ns s.well_formed.0 in
    let shorter = length-remove_at n ns i at in
    record {
      present = sym there;
      members = λ (k : Bytes).
          int_contains-contains (remove_at i ns) (bytes_to_intset_member k) left
          ∙ subst
              (λ (r : Search). contains_some (take_out ns r) (bytes_to_intset_member k) ≡ (
                not (is_some_of n (bytes_to_intset_member k))
                && contains_some ns (bytes_to_intset_member k)))
              at (contains_some-take_out n ns (bytes_to_intset_member k) s.well_formed.0)
          ∙ ap₂ (λ (a b : Bool). not a && b) (sym (member-is member k n parsed))
              (sym (int_contains-contains ns (bytes_to_intset_member k) s.well_formed.0));
      sized = sym shorter;
      still = record {
        well_formed =
            (left, remove_at-AllI64 i ns s.well_formed.1, omega (arith, shorter, s.well_formed.2));
        encoded = s.encoded;
      };
    }

remove_parsed-Removed :
    (member : Bytes) (ns : List ℤ) (v : StoredValue) (o : Option ℤ)
    → bytes_to_intset_member member ≡ o
    → IsSetValue (holding (set_int ns) v)
    → Removed member (holding (set_int ns) v) (remove_parsed ns (holding (set_int ns) v) o)
unfolding set_contains set_len
remove_parsed-Removed member ns v none parsed s =
    let missing = ap (int_contains ns) parsed in
    record {
      present = sym missing;
      members = λ (k : Bytes). ground (arith, bytes_eq_iff member k, missing);
      sized = refl;
      still = s;
    }
remove_parsed-Removed member ns v (some n) parsed s =
    taken_out-Removed member n ns v (binary_search n ns) parsed refl s

remove_from-Removed :
    (member : Bytes) (payload : ValueData) (v : StoredValue)
    → IsSetValue (holding payload v)
    → Gives (remove_from member (holding payload v) payload) (Removed member (holding payload v))
unfolding set_contains set_len encoding
remove_from-Removed member (set members) v s = record {
  present = refl;
  members = λ (k : Bytes). contains-set_remove member k members;
  sized = sym (length-set_remove member members s.well_formed);
  still = record {
    well_formed = set_remove-Distinct member members s.well_formed;
    encoded = s.encoded;
  };
}
remove_from-Removed member (set_int ns) v s =
    remove_parsed-Removed member ns v (bytes_to_intset_member member) refl s
remove_from-Removed member (string b) v s = elim s.well_formed [ ]
remove_from-Removed member (string_int n) v s = elim s.well_formed [ ]
remove_from-Removed member (hash h) v s = elim s.well_formed [ ]
remove_from-Removed member (list l) v s = elim s.well_formed [ ]
remove_from-Removed member (sorted_set z) v s = elim s.well_formed [ ]
remove_from-Removed member (stream es groups meta) v s = elim s.well_formed [ ]

-- `set_remove_member` on a well-formed set of either representation answers whether the member was
-- there; the result has the old members but that one, counts one less exactly if it was there, and is
-- well formed with its encoding.
pub set_remove_member-Removed :
    (member : Bytes) (v : StoredValue)
    → IsSetValue v
    → Gives (set_remove_member member v) (Removed member v)
unfolding set_remove_member
set_remove_member-Removed member v s = remove_from-Removed member v.payload v s
