-- ===== src/Keyspace/Value.antt =====
-- Stored values, crates/ratatosk-engine/src/keyspace.rs: the payloads, the packed header and its
-- accessors. A score is the 64 bits of its `f64`; hash sets are lists without repetition.
use ratatosk.Prelude.{
  ℕ, ◌+◌, ◌*◌, ◌/◌, ◌%◌, ◌^◌, Bool, true, false, ◌&&◌, ◌||◌, not, Option, none, some, List, [], ◌∷◌,
  length, if◌then◌else◌, ltb, leb, ◌==◌,
}
use ratatosk.Prelude.Int.{ℤ, pos, ltb_ℤ}
use ratatosk.Prelude.Decimal.{i64_from_str, decimal_ℤ}
use ratatosk.Prelude.Maps.{Map}
use ratatosk.Prelude.Words.{Bytes}

pub record StreamId : Type 0 where
  pub ms : ℤ
  pub seq : ℤ

pub record StreamEntry : Type 0 where
  pub id : StreamId
  pub fields : List (Bytes × Bytes)

pub record StreamMeta : Type 0 where
  pub last_id : StreamId
  pub entries_added : ℕ
  pub max_deleted_id : StreamId

pub record StreamPendingEntry : Type 0 where
  pub consumer : Bytes
  pub deliveries : ℤ
  pub last_delivered_ms : ℤ

pub record StreamConsumer : Type 0 where
  pub seen_time_ms : ℤ
  pub pending : List StreamId

pub record StreamGroup : Type 0 where
  pub last_delivered_id : StreamId
  pub consumers : Map Bytes StreamConsumer
  pub pending : Map StreamId StreamPendingEntry

pub record SortedSet : Type 0 where
  pub by_score : List (ℕ × Bytes)
  pub by_member : Map Bytes ℕ

pub record HashFieldEntry : Type 0 where
  pub value : Bytes
  pub expire_at_ms : Option ℤ

abbrev pub reached : ℤ → Option ℤ → Bool
reached now_ms none = false
reached now_ms (some at) = not (ltb_ℤ now_ms at)

unfoldable pub is_expired : ℤ → HashFieldEntry → Bool
is_expired now_ms entry = reached now_ms entry.expire_at_ms

pub data Encoding : Type 0 where
  raw int quick_list hash_table int_set skip_list stream_tree : Encoding

-- The discriminant, `enc as u32`
unfoldable pub as_u8 : Encoding → ℕ
as_u8 raw = 0
as_u8 int = 1
as_u8 quick_list = 4
as_u8 hash_table = 5
as_u8 int_set = 6
as_u8 skip_list = 10
as_u8 stream_tree = 12

unfoldable pub from_u8 : ℕ → Encoding
from_u8 n =
    if n == 1
    then int
    else if n == 4
    then quick_list
    else if n == 5
    then hash_table
    else if n == 6
    then int_set
    else if n == 10
    then skip_list
    else if n == 12
    then stream_tree
    else raw

pub data ValueData : Type 0 where
  string : Bytes → ValueData
  string_int : ℤ → ValueData
  hash : Map Bytes HashFieldEntry → ValueData
  list : List Bytes → ValueData
  set : List Bytes → ValueData
  set_int : List ℤ → ValueData
  sorted_set : SortedSet → ValueData
  stream : List StreamEntry → Map Bytes StreamGroup → StreamMeta → ValueData

-- The field `expire_at_ms`, with 0 for none, is `deadline` here; its accessor has the source's name.
pub record StoredValue : Type 0 where
  pub payload : ValueData
  pub deadline : ℤ
  pub encoding_and_lru : ℕ

abbrev pub lru_mod : ℕ
lru_mod = 2 ^ 28

abbrev pub unwrap_or_zero : Option ℤ → ℤ
unwrap_or_zero none = pos 0
unwrap_or_zero (some ms) = ms

-- `StoredValue::new`; the shift has the low 28 bits clear.
unfoldable pub new_value : ValueData → Option ℤ → Encoding → StoredValue
unfolding as_u8
new_value payload expire enc = record {
  payload = payload;
  deadline = unwrap_or_zero expire;
  encoding_and_lru = as_u8 enc * lru_mod;
}

abbrev pub is_positive : ℤ → Bool
is_positive ms = ltb_ℤ (pos 0) ms

unfoldable pub expire_at_ms : StoredValue → Option ℤ
expire_at_ms v = if is_positive v.deadline then some v.deadline else none

unfoldable pub set_expire_at_ms : Option ℤ → StoredValue → StoredValue
set_expire_at_ms ms v = record v { deadline = unwrap_or_zero ms }

unfoldable pub encoding : StoredValue → Encoding
unfolding from_u8
encoding v = from_u8 (v.encoding_and_lru / lru_mod % 256)

-- The two parts of the word do not overlap, so the source's `|` is a sum.
unfoldable pub set_encoding : Encoding → StoredValue → StoredValue
unfolding as_u8
set_encoding enc v = record v {
  encoding_and_lru = as_u8 enc * lru_mod + v.encoding_and_lru % lru_mod;
}

unfoldable pub lru_clock : StoredValue → ℕ
lru_clock v = v.encoding_and_lru % lru_mod

unfoldable pub set_lru_clock : ℕ → StoredValue → StoredValue
set_lru_clock clock v = record v {
  encoding_and_lru = v.encoding_and_lru / lru_mod * lru_mod + clock % lru_mod;
}

abbrev pub starts_with_zero : Bytes → Bool
starts_with_zero [] = false
starts_with_zero (b ∷ bytes) = b == b'0'

abbrev pub starts_with_plus : Bytes → Bool
starts_with_plus [] = false
starts_with_plus (b ∷ bytes) = b == b'+'

abbrev pub starts_with_minus_zero : Bytes → Bool
starts_with_minus_zero [] = false
starts_with_minus_zero (b ∷ bytes) = b == b'-' && starts_with_zero bytes

-- Bytes that are no UTF-8 are no number either, so the source's first test is left to the second.
unfoldable pub parse_int_string : Bytes → Option ℤ
unfolding i64_from_str
parse_int_string bytes =
    let n = i64_from_str bytes in
    if length bytes == 0 || ltb 20 (length bytes)
    then none
    else if starts_with_plus bytes
        || ((ltb 1 (length bytes) && starts_with_zero bytes) || starts_with_minus_zero bytes)
    then none
    else n

abbrev pub string_as : Bytes → Option ℤ → Option ℤ → StoredValue
string_as bytes expire (some n) = new_value (string_int n) expire int
string_as bytes expire none = new_value (string bytes) expire raw

-- `StoredValue::string` and its fellows
unfoldable pub stored_string : Bytes → Option ℤ → StoredValue
unfolding parse_int_string new_value
stored_string bytes expire = string_as bytes expire (parse_int_string bytes)

abbrev pub is_string : StoredValue → Bool
is_string v = elim v.payload [ string bytes ↦ true | string_int n ↦ true | _ ↦ false ]

-- `as_string_bytes`
abbrev pub string_bytes : ValueData → Option Bytes
string_bytes (string bytes) = some bytes
string_bytes (string_int n) = some (decimal_ℤ n)
string_bytes _ = none

unfoldable pub as_string_bytes : StoredValue → Option Bytes
as_string_bytes v = string_bytes v.payload

abbrev pub lazy_free_threshold : ℕ
lazy_free_threshold = 64

abbrev pub is_large : ValueData → Bool
is_large (string bytes) = false
is_large (string_int n) = false
is_large (list l) = leb lazy_free_threshold (length l)
is_large (hash h) = leb lazy_free_threshold (length h)
is_large (set s) = leb lazy_free_threshold (length s)
is_large (set_int s) = leb lazy_free_threshold (length s)
is_large (sorted_set z) = leb lazy_free_threshold (length z.by_member)
is_large (stream es groups meta) = leb lazy_free_threshold (length es)

unfoldable pub should_lazy_free : StoredValue → Bool
should_lazy_free v = is_large v.payload
