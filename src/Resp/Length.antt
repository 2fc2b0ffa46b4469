-- ===== src/Resp/Length.antt =====
-- Reply lengths computed without encoding, crates/ratatosk-resp/src/encode.rs: `encoded_len`,
-- `encoded_len_for_version` and what they call. Each addition saturates at the largest `usize`.
pub mod Exact
use ratatosk.Prelude.{
  ℕ, zero, suc, ◌+◌, ◌*◌, ◌/◌, ◌≡◌, refl, Bool, Option, none, some, List, if◌then◌else◌, ltb,
  length,
}
use ratatosk.Prelude.Int.{ℤ, pos, negsuc}
use ratatosk.Resp.Frame.{
  Frame, simple_string, error, integer, bulk_string, array, push, map, null_array, null, sequence,
  versioned, Frames, nil, cons, Entries, end, entry, items_len, entries_len,
}
use ratatosk.Resp.Encode.{
  RespVersion, resp2, resp3, from_protocol_version, shared_encoding, shared_null_bulk,
  shared_null_array, shared_null, sat_add, sat_mul, null_for, null_array_for,
}

-- The loop of `decimal_len_u64`; `fuel` beyond `value` is enough.
unfoldable pub decimal_len_loop : ℕ → ℕ → ℕ → ℕ
decimal_len_loop zero value digits = digits
decimal_len_loop (suc fuel) value digits =
    let more = decimal_len_loop fuel (value / 10) (sat_add digits 1) in
    if ltb value 10 then digits else more

unfoldable pub decimal_len_u64 : ℕ → ℕ
unfolding decimal_len_loop
decimal_len_u64 value = decimal_len_loop (suc value) value 1

unfoldable pub decimal_len_i64 : ℤ → ℕ
unfolding decimal_len_u64
decimal_len_i64 (negsuc n) = sat_add 1 (decimal_len_u64 (suc n))
decimal_len_i64 (pos n) = decimal_len_u64 n

-- `1 + decimal_len_u64(len) + 2`, the length of an aggregate's header
unfoldable pub header_len : ℕ → ℕ
unfolding decimal_len_u64
header_len n = sat_add (sat_add 1 (decimal_len_u64 n)) 2

-- The arms of `encoded_len_inner` that make no recursive call.
unfoldable pub plain_leaf_len : Frame → ℕ
unfolding decimal_len_i64 header_len
plain_leaf_len (simple_string v) = sat_add (sat_add 1 (length v)) 2
plain_leaf_len (error v) = sat_add (sat_add 1 (length v)) 2
plain_leaf_len (integer z) = sat_add (sat_add 1 (decimal_len_i64 z)) 2
plain_leaf_len (bulk_string none) = length shared_null_bulk
plain_leaf_len (bulk_string (some v)) = sat_add (sat_add (header_len (length v)) (length v)) 2
plain_leaf_len null_array = length shared_null_array
plain_leaf_len null = length shared_null
plain_leaf_len f = 0

unfoldable pub leaf_len : Frame → ℕ
unfolding plain_leaf_len shared_encoding
leaf_len f = elim (shared_encoding f) [ some s ↦ length s | none ↦ plain_leaf_len f ]

abbrev pub map_header_len : RespVersion → ℕ → ℕ
map_header_len resp2 n = header_len (sat_mul n 2)
map_header_len resp3 n = header_len n

unfoldable mutual
  unfolding leaf_len header_len from_protocol_version

  pub encoded_len_inner : Frame → ℕ
  encoded_len_inner (versioned n f) = encoded_len_for_version_inner f (from_protocol_version n)
  encoded_len_inner (array fs) = items_len_from fs (header_len (items_len fs))
  encoded_len_inner (push fs) = items_len_from fs (header_len (items_len fs))
  encoded_len_inner (map es) = entries_len_from es (header_len (entries_len es))
  encoded_len_inner (sequence fs) = items_len_from fs 0
  encoded_len_inner f = leaf_len f

  -- `total` with the lengths of the items added
  pub items_len_from : Frames → ℕ → ℕ
  items_len_from nil total = total
  items_len_from (cons f fs) total = items_len_from fs (sat_add total (encoded_len_inner f))

  pub entries_len_from : Entries → ℕ → ℕ
  entries_len_from end total = total
  entries_len_from (entry k v es) total =
      entries_len_from es (sat_add (sat_add total (encoded_len_inner k)) (encoded_len_inner v))

  pub encoded_len_for_version_inner : Frame → RespVersion → ℕ
  encoded_len_for_version_inner (versioned n f) v =
      encoded_len_for_version_inner f (from_protocol_version n)
  encoded_len_for_version_inner (bulk_string none) v = length (null_for v)
  encoded_len_for_version_inner null v = length (null_for v)
  encoded_len_for_version_inner null_array v = length (null_array_for v)
  encoded_len_for_version_inner (array fs) v = items_len_for fs v (header_len (items_len fs))
  encoded_len_for_version_inner (push fs) v = items_len_for fs v (header_len (items_len fs))
  encoded_len_for_version_inner (map es) v =
      entries_len_for es v (map_header_len v (entries_len es))
  encoded_len_for_version_inner (sequence fs) v = items_len_for fs v 0
  encoded_len_for_version_inner f v = leaf_len f

  pub items_len_for : Frames → RespVersion → ℕ → ℕ
  items_len_for nil v total = total
  items_len_for (cons f fs) v total =
      items_len_for fs v (sat_add total (encoded_len_for_version_inner f v))

  pub entries_len_for : Entries → RespVersion → ℕ → ℕ
  entries_len_for end v total = total
  entries_len_for (entry k w es) v total = entries_len_for es v (
      sat_add (sat_add total (encoded_len_for_version_inner k v))
        (encoded_len_for_version_inner w v))

unfoldable pub encoded_len : Frame → ℕ
unfolding encoded_len_inner
encoded_len f = encoded_len_inner f

unfoldable pub encoded_len_for_version : Frame → RespVersion → ℕ
unfolding encoded_len_for_version_inner
encoded_len_for_version f v = encoded_len_for_version_inner f v
