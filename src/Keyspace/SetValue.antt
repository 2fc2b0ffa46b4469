-- ===== src/Keyspace/SetValue.antt =====
-- Set values of crates/ratatosk-engine/src/keyspace.rs: hash sets, and sorted arrays of integers for
-- sets whose members are all canonical decimals.
use ratatosk.Prelude.{
  ℕ, zero, suc, Bool, true, false, not, Option, none, some, List, [], ◌∷◌, map, length,
  if◌then◌else◌, leb,
}
use ratatosk.Prelude.Int.{ℤ, int_beq, int_eq, ltb_ℤ}
use ratatosk.Prelude.Eq.{list_eq, bytes_eq}
use ratatosk.Prelude.Sets.{contains, set_insert, set_remove}
use ratatosk.Prelude.Decimal.{i64_from_str, decimal_ℤ}
use ratatosk.Prelude.Words.{Bytes}
use ratatosk.Keyspace.Value.{
  ValueData, set, set_int, StoredValue, hash_table, int_set, new_value, set_encoding,
}

abbrev pub set_max_intset_entries : ℕ
set_max_intset_entries = 512

abbrev pub canonical : Bytes → Option ℤ → Option ℤ
canonical value none = none
canonical value (some n) = if bytes_eq (decimal_ℤ n) value then some n else none

unfoldable pub bytes_to_intset_member : Bytes → Option ℤ
unfolding i64_from_str
bytes_to_intset_member value = canonical value (i64_from_str value)

unfoldable pub intset_to_hashset : List ℤ → List Bytes
unfolding set_insert
intset_to_hashset [] = []
intset_to_hashset (n ∷ ns) = set_insert (decimal_ℤ n) (intset_to_hashset ns)

-- `binary_search` on a slice in ascending order: where the element stands, or where it would.
pub data Search : Type 0 where
  found absent : ℕ → Search

abbrev pub behind : Search → Search
behind (found i) = found (suc i)
behind (absent i) = absent (suc i)

unfoldable pub binary_search : ℤ → List ℤ → Search
binary_search x [] = absent 0
binary_search x (y ∷ ys) =
    let rest = behind (binary_search x ys) in
    if int_beq y x then found 0 else if ltb_ℤ x y then absent 0 else rest

abbrev pub is_found : Search → Bool
is_found (found i) = true
is_found (absent i) = false

abbrev pub insert_at {ℓ} : {A : Type ℓ} → ℕ → A → List A → List A
insert_at zero x xs = x ∷ xs
insert_at (suc i) x [] = x ∷ []
insert_at (suc i) x (y ∷ ys) = y ∷ insert_at i x ys

abbrev pub remove_at {ℓ} : {A : Type ℓ} → ℕ → List A → List A
remove_at i [] = []
remove_at zero (x ∷ xs) = xs
remove_at (suc i) (x ∷ xs) = x ∷ remove_at i xs

unfoldable pub set_len : ValueData → Option ℕ
set_len (set members) = some (length members)
set_len (set_int members) = some (length members)
set_len _ = none

abbrev pub int_contains : List ℤ → Option ℤ → Bool
int_contains ns none = false
int_contains ns (some n) = is_found (binary_search n ns)

unfoldable pub set_contains : ValueData → Bytes → Option Bool
unfolding contains bytes_to_intset_member binary_search
set_contains (set members) member = some (contains member members)
set_contains (set_int members) member = some (int_contains members (bytes_to_intset_member member))
set_contains _ member = none

unfoldable pub set_members : ValueData → Option (List Bytes)
set_members (set members) = some members
set_members (set_int members) = some (map decimal_ℤ members)
set_members _ = none

-- A hash set that takes a member.
abbrev pub hashed : Bytes → List Bytes → StoredValue → Bool × StoredValue
hashed member members v =
    (not (contains member members), record v { payload = set (set_insert member members) })

-- The array becomes a hash set, which takes the member.
abbrev pub upgraded : Bytes → List ℤ → StoredValue → Bool × StoredValue
upgraded member members v =
    let r = hashed member (intset_to_hashset members) v in (r.0, set_encoding hash_table r.1)

abbrev pub int_inserted : Bytes → ℤ → List ℤ → StoredValue → Search → Bool × StoredValue
int_inserted member n members v (found i) = (false, v)
int_inserted member n members v (absent i) =
    if leb set_max_intset_entries (length members)
    then upgraded member members v
    else (true, record v { payload = set_int (insert_at i n members) })

abbrev pub insert_parsed : Bytes → List ℤ → StoredValue → Option ℤ → Bool × StoredValue
insert_parsed member members v none = upgraded member members v
insert_parsed member members v (some n) = int_inserted member n members v (binary_search n members)

abbrev pub insert_into : Bytes → StoredValue → ValueData → Option (Bool × StoredValue)
insert_into member v (set members) = some (hashed member members v)
insert_into member v (set_int members) =
    some (insert_parsed member members v (bytes_to_intset_member member))
insert_into member v _ = none

unfoldable pub set_insert_member : Bytes → StoredValue → Option (Bool × StoredValue)
unfolding contains set_insert intset_to_hashset binary_search bytes_to_intset_member set_encoding
set_insert_member member v = insert_into member v v.payload

abbrev pub int_removed : List ℤ → StoredValue → Search → Bool × StoredValue
int_removed members v (found i) = (true, record v { payload = set_int (remove_at i members) })
int_removed members v (absent i) = (false, v)

abbrev pub remove_parsed : List ℤ → StoredValue → Option ℤ → Bool × StoredValue
remove_parsed members v none = (false, v)
remove_parsed members v (some n) = int_removed members v (binary_search n members)

abbrev pub remove_from : Bytes → StoredValue → ValueData → Option (Bool × StoredValue)
remove_from member v (set members) =
    some (contains member members, record v { payload = set (set_remove member members) })
remove_from member v (set_int members) =
    some (remove_parsed members v (bytes_to_intset_member member))
remove_from member v _ = none

unfoldable pub set_remove_member : Bytes → StoredValue → Option (Bool × StoredValue)
unfolding contains set_remove binary_search bytes_to_intset_member
set_remove_member member v = remove_from member v v.payload

abbrev pub taken : StoredValue → ValueData → Option (List Bytes × StoredValue)
taken v (set members) = some (members, record v { payload = set [] })
taken v (set_int members) = some (map decimal_ℤ members, record v { payload = set_int [] })
taken v _ = none

unfoldable pub set_take_all_members : StoredValue → Option (List Bytes × StoredValue)
set_take_all_members v = taken v v.payload

-- `sort_unstable` and `dedup` at once: each number is put in its place, unless it stands there.
abbrev pub place : ℤ → List ℤ → Search → List ℤ
place n ns (found i) = ns
place n ns (absent i) = insert_at i n ns

unfoldable pub sort_dedup : List ℤ → List ℤ
unfolding binary_search
sort_dedup [] = []
sort_dedup (n ∷ ns) = let rest = sort_dedup ns in place n rest (binary_search n rest)

-- The members as integers, if each of them is one.
abbrev pub with_int : Option ℤ → Option (List ℤ) → Option (List ℤ)
with_int none ns = none
with_int (some n) none = none
with_int (some n) (some ns) = some (n ∷ ns)

unfoldable pub all_ints : List Bytes → Option (List ℤ)
unfolding bytes_to_intset_member
all_ints [] = some []
all_ints (member ∷ members) = with_int (bytes_to_intset_member member) (all_ints members)

abbrev pub set_as : List Bytes → Option ℤ → Option (List ℤ) → StoredValue
set_as members expire none = new_value (set members) expire hash_table
set_as members expire (some ns) = new_value (set_int (sort_dedup ns)) expire int_set

-- `StoredValue::set`
unfoldable pub stored_set : List Bytes → Option ℤ → StoredValue
unfolding all_ints sort_dedup new_value
stored_set members expire =
    if leb (length members) set_max_intset_entries
    then set_as members expire (all_ints members)
    else new_value (set members) expire hash_table
