-- ===== src/Resp/Length/Exact.antt =====
-- The computed lengths of crates/ratatosk-resp/src/encode.rs are the lengths of what it encodes, cut
-- off at the largest `usize`.
use ratatosk.Prelude.{
  ℕ, zero, suc, ◌+◌, ◌*◌, ◌/◌, ◌%◌, ◌≤◌, ◌<◌, min, ◌≡◌, refl, sym, ap, none, some, List, [], ◌∷◌,
  ◌++◌, ltb, length, length-append, length-map, arith, Bool-cases, Option-cases, inl, inr,
}
use mathlib.Core.List
use ratatosk.Prelude.Int.{ℤ, pos, negsuc}
use ratatosk.Prelude.Decimal.{decimal, decimal_ℤ, decimal_fuel, decimal_fuel-ne-nil}
use ratatosk.Resp.Crates.{Crates}
use ratatosk.Resp.Frame.{
  Frame, simple_string, error, integer, bulk_string, array, push, map, null_array, null, sequence,
  versioned, Frames, nil, cons, Entries, end, entry, items_len, entries_len,
}
use ratatosk.Resp.Encode.{
  RespVersion, resp2, resp3, from_protocol_version, shared_encoding, sat_add, sat_mul, null_for,
  null_array_for, max_usize, replace_break, crlf, encode, encode_for_version,
}
use ratatosk.Resp.Encode.Wire.{
  wire, wire_items, wire_entries, project, project_items, project_entries, project_flat, resolve,
  resolve_items, resolve_entries, IsSized, AreSized, AreSizedEntries, null_reply, null_array_reply,
  push_reply, map_reply,
}
use ratatosk.Resp.Encode.Exact.{
  encode_for_version-wire, encode-wire, items_len-project, entries_len-project, items_len-flat,
  items_len-resolve, entries_len-resolve, flat_lem,
}
use ratatosk.Resp.Encode.Leaf.{shared_leaf, IsLeaf}
use ratatosk.Resp.Length.{
  decimal_len_loop, decimal_len_u64, decimal_len_i64, header_len, plain_leaf_len, leaf_len,
  map_header_len, encoded_len_inner, items_len_from, entries_len_from,
  encoded_len_for_version_inner, items_len_for, entries_len_for, encoded_len,
  encoded_len_for_version,
}

decimal_len_loop_lem :
    (fuel n digits : ℕ)
    → n < fuel
    → digits ≤ max_usize
    → decimal_len_loop fuel n digits + 1
      ≡ min (digits + length (decimal_fuel fuel n)) (max_usize + 1)
unfolding decimal_len_loop decimal_fuel
decimal_len_loop_lem zero n digits h d = elim h [ ]
decimal_len_loop_lem (suc zero) n digits h d = elim (Bool-cases (ltb n 10)) [
  | inl small ↦ rw small (omega arith)
  | inr big ↦ absurd (ground arith)
]
decimal_len_loop_lem (suc (suc fuel)) n digits h d = elim (Bool-cases (ltb n 10)) [
  | inl small ↦ rw small (omega arith)
  | inr big ↦ rw big (
      omega (
        arith,
        decimal_len_loop_lem (suc fuel) (n / 10) (sat_add digits 1) (ground arith) (omega arith),
        length-append (decimal_fuel (suc fuel) (n / 10)) ((n % 10 + 48) ∷ []),
        decimal_fuel-ne-nil fuel (n / 10),
      ))
]

decimal_len_lem : (n : ℕ) → decimal_len_u64 n ≡ min (length (decimal n)) max_usize
unfolding decimal_len_u64 decimal
decimal_len_lem n = omega (arith, decimal_len_loop_lem (suc n) n 1 (omega arith) (omega arith))

decimal_len_i64_lem : (z : ℤ) → decimal_len_i64 z ≡ min (length (decimal_ℤ z)) max_usize
unfolding decimal_len_i64 decimal_ℤ
decimal_len_i64_lem (pos n) = decimal_len_lem n
decimal_len_i64_lem (negsuc n) = omega (arith, decimal_len_lem (suc n))

header_len_lem : (n : ℕ) → header_len n ≡ min (length (decimal_ℤ (pos n)) + 3) max_usize
unfolding header_len decimal_ℤ
header_len_lem n = omega (arith, decimal_len_lem n)

plain_leaf_len_lem : (f : Frame) → IsLeaf f → plain_leaf_len f ≡ min (length (wire f)) max_usize
unfolding plain_leaf_len wire
plain_leaf_len_lem (simple_string v) h =
    omega (arith, length-append (List.map replace_break v) crlf, length-map v replace_break)
plain_leaf_len_lem (error v) h =
    omega (arith, length-append (List.map replace_break v) crlf, length-map v replace_break)
plain_leaf_len_lem (integer z) h =
    omega (arith, length-append (decimal_ℤ z) crlf, decimal_len_i64_lem z)
plain_leaf_len_lem (bulk_string none) h = refl
plain_leaf_len_lem (bulk_string (some v)) h = omega (
  arith,
  length-append (decimal_ℤ (pos (length v))) (crlf ++ (v ++ crlf)),
  length-append v crlf,
  header_len_lem (length v),
)
plain_leaf_len_lem null_array h = refl
plain_leaf_len_lem null h = refl
plain_leaf_len_lem (array fs) h = absurd h
plain_leaf_len_lem (push fs) h = absurd h
plain_leaf_len_lem (map fs) h = absurd h
plain_leaf_len_lem (sequence fs) h = absurd h
plain_leaf_len_lem (versioned n f) h = absurd h

shared_len : (f : Frame) (s : List ℕ) → shared_encoding f ≡ some s → length s ≤ 9
unfolding shared_encoding
shared_len (simple_string v) s e = ground arith
shared_len (bulk_string none) s e = ground arith
shared_len (integer (pos zero)) s e = ground arith
shared_len (integer (pos (suc zero))) s e = ground arith
shared_len (integer (negsuc zero)) s e = ground arith
shared_len (integer (negsuc (suc zero))) s e = ground arith
shared_len f s e = cc

leaf_len_lem : (f : Frame) → IsLeaf f → leaf_len f ≡ min (length (wire f)) max_usize
unfolding leaf_len
leaf_len_lem f h = elim (Option-cases (shared_encoding f)) [
  | inl e ↦ rw (e, leaf_len) (plain_leaf_len_lem f h)
  | inr (s, e) ↦
      rw (e, leaf_len) (omega (arith, ap length (shared_leaf f s [] e), shared_len f s e))
]

abbrev header_wire : ℕ → List ℕ → List ℕ
header_wire n body = decimal_ℤ (pos n) ++ (crlf ++ body)

length-header_wire :
    (n : ℕ) (body : List ℕ)
    → length (header_wire n body) ≡ length (decimal_ℤ (pos n)) + 2 + length body
length-header_wire n body = omega (arith, length-append (decimal_ℤ (pos n)) (crlf ++ body))

-- An aggregate: its items are added to the length of its header.
aggregate_lem :
    (n m total : ℕ) (body : List ℕ)
    → n ≡ m
    → total ≡ min (header_len n + length body) max_usize
    → total ≡ min (suc (length (header_wire m body))) max_usize
aggregate_lem n m total body e h =
    rw (← e) (omega (arith, h, header_len_lem n, length-header_wire n body))

null_len : (v : RespVersion) → length (null_for v) ≡ min (length (wire (null_reply v))) max_usize
unfolding wire
null_len resp2 = refl
null_len resp3 = refl

null_array_len :
    (v : RespVersion)
    → length (null_array_for v) ≡ min (length (wire (null_array_reply v))) max_usize
unfolding wire
null_array_len resp2 = refl
null_array_len resp3 = refl

push_len :
    (fs : Frames) (v : RespVersion) (total : ℕ)
    → total ≡ min (header_len (items_len fs) + length (wire_items (project_items fs v))) max_usize
    → total ≡ min (length (wire (push_reply v (project_items fs v)))) max_usize
unfolding wire
push_len fs resp2 total h =
    aggregate_lem (items_len fs) _ total _ (sym (items_len-project fs resp2)) h
push_len fs resp3 total h =
    aggregate_lem (items_len fs) _ total _ (sym (items_len-project fs resp3)) h

map_len_lem :
    (es : Entries) (v : RespVersion) (total : ℕ)
    → entries_len es * 2 ≤ max_usize
    → total
      ≡ min
          (map_header_len v (entries_len es) + length (wire_entries (project_entries es v)))
          max_usize
    → total ≡ min (length (wire (map_reply v (project_entries es v) (project_flat es v)))) max_usize
unfolding wire
map_len_lem es resp2 total h e =
    aggregate_lem (sat_mul (entries_len es) 2) _ total (wire_items (project_flat es resp2))
      (omega (arith, items_len-flat es resp2)) (rw (flat_lem es resp2) e)
map_len_lem es resp3 total h e =
    aggregate_lem (entries_len es) _ total _ (sym (entries_len-project es resp3)) e

header_len-le : (n : ℕ) → header_len n ≤ max_usize
header_len-le n = omega (arith, header_len_lem n)

map_header_len-le : (v : RespVersion) (n : ℕ) → map_header_len v n ≤ max_usize
map_header_len-le resp2 n = header_len-le (sat_mul n 2)
map_header_len-le resp3 n = header_len-le n

mutual
  unfolding encoded_len_for_version_inner project wire

  for_version_len :
      (f : Frame) (v : RespVersion)
      → IsSized f
      → encoded_len_for_version_inner f v ≡ min (length (wire (project f v))) max_usize
  for_version_len (versioned n f) v h = for_version_len f (from_protocol_version n) h
  for_version_len (bulk_string none) v h = null_len v
  for_version_len null v h = null_len v
  for_version_len null_array v h = null_array_len v
  for_version_len (array fs) v h =
      aggregate_lem (items_len fs) _ _ _ (sym (items_len-project fs v))
        (items_for_len fs v (header_len (items_len fs)) h (header_len-le (items_len fs)))
  for_version_len (push fs) v h =
      push_len fs v _
        (items_for_len fs v (header_len (items_len fs)) h (header_len-le (items_len fs)))
  for_version_len (map es) v h = map_len_lem es v _ h.0 (
      entries_for_len es v (map_header_len v (entries_len es)) h.1
        (map_header_len-le v (entries_len es)))
  for_version_len (sequence fs) v h = omega (arith, items_for_len fs v 0 h (omega arith))
  for_version_len (simple_string s) v h = leaf_len_lem (simple_string s) tt
  for_version_len (error s) v h = leaf_len_lem (error s) tt
  for_version_len (integer z) v h = leaf_len_lem (integer z) tt
  for_version_len (bulk_string (some s)) v h = leaf_len_lem (bulk_string (some s)) tt

  items_for_len :
      (fs : Frames) (v : RespVersion) (total : ℕ)
      → AreSized fs
      → total ≤ max_usize
      → items_len_for fs v total ≡ min (total + length (wire_items (project_items fs v))) max_usize
  items_for_len nil v total h t = omega arith
  items_for_len (cons f fs) v total h t = omega (
    arith,
    items_for_len fs v (sat_add total (encoded_len_for_version_inner f v)) h.1 (omega arith),
    for_version_len f v h.0,
    length-append (wire (project f v)) (wire_items (project_items fs v)),
  )

  entries_for_len :
      (es : Entries) (v : RespVersion) (total : ℕ)
      → AreSizedEntries es
      → total ≤ max_usize
      → entries_len_for es v total
        ≡ min (total + length (wire_entries (project_entries es v))) max_usize
  entries_for_len end v total h t = omega arith
  entries_for_len (entry k w es) v total h t = omega (
    arith,
    entries_for_len es v
        (sat_add (sat_add total (encoded_len_for_version_inner k v))
          (encoded_len_for_version_inner w v))
        h.2 (omega arith),
    for_version_len k v h.0,
    for_version_len w v h.1,
    length-append (wire (project k v)) (wire (project w v) ++ wire_entries (project_entries es v)),
    length-append (wire (project w v)) (wire_entries (project_entries es v)),
  )

mutual
  unfolding encoded_len_inner resolve wire

  inner_len :
      (f : Frame) → IsSized f → encoded_len_inner f ≡ min (length (wire (resolve f))) max_usize
  inner_len (versioned n f) h = for_version_len f (from_protocol_version n) h
  inner_len (array fs) h =
      aggregate_lem (items_len fs) _ _ _ (sym (items_len-resolve fs))
        (items_inner_len fs (header_len (items_len fs)) h (header_len-le (items_len fs)))
  inner_len (push fs) h =
      aggregate_lem (items_len fs) _ _ _ (sym (items_len-resolve fs))
        (items_inner_len fs (header_len (items_len fs)) h (header_len-le (items_len fs)))
  inner_len (map es) h =
      aggregate_lem (entries_len es) _ _ _ (sym (entries_len-resolve es))
        (entries_inner_len es (header_len (entries_len es)) h.1 (header_len-le (entries_len es)))
  inner_len (sequence fs) h = omega (arith, items_inner_len fs 0 h (omega arith))
  inner_len (simple_string s) h = leaf_len_lem (simple_string s) tt
  inner_len (error s) h = leaf_len_lem (error s) tt
  inner_len (integer z) h = leaf_len_lem (integer z) tt
  inner_len (bulk_string s) h = leaf_len_lem (bulk_string s) tt
  inner_len null_array h = leaf_len_lem null_array tt
  inner_len null h = leaf_len_lem null tt

  items_inner_len :
      (fs : Frames) (total : ℕ)
      → AreSized fs
      → total ≤ max_usize
      → items_len_from fs total ≡ min (total + length (wire_items (resolve_items fs))) max_usize
  items_inner_len nil total h t = omega arith
  items_inner_len (cons f fs) total h t = omega (
    arith,
    items_inner_len fs (sat_add total (encoded_len_inner f)) h.1 (omega arith),
    inner_len f h.0,
    length-append (wire (resolve f)) (wire_items (resolve_items fs)),
  )

  entries_inner_len :
      (es : Entries) (total : ℕ)
      → AreSizedEntries es
      → total ≤ max_usize
      → entries_len_from es total
        ≡ min (total + length (wire_entries (resolve_entries es))) max_usize
  entries_inner_len end total h t = omega arith
  entries_inner_len (entry k w es) total h t = omega (
    arith,
    entries_inner_len es (sat_add (sat_add total (encoded_len_inner k)) (encoded_len_inner w)) h.2
        (omega arith),
    inner_len k h.0,
    inner_len w h.1,
    length-append (wire (resolve k)) (wire (resolve w) ++ wire_entries (resolve_entries es)),
    length-append (wire (resolve w)) (wire_entries (resolve_entries es)),
  )

-- `encoded_len_for_version` gives the number of bytes of `encode_for_version`, cut off at the largest
-- `usize`, for every frame whose maps have at most (2^64 - 1) / 2 entries.
pub encoded_len_for_version-length :
    (c : Crates) (f : Frame) (v : RespVersion)
    → IsSized f
    → encoded_len_for_version f v ≡ min (length (encode_for_version c f v)) max_usize
unfolding encoded_len_for_version
encoded_len_for_version-length c f v h =
    rw (encode_for_version-wire c f v h) (for_version_len f v h)

-- `encoded_len` gives the number of bytes of `encode`, cut off at the largest `usize`, for every frame
-- whose maps have at most (2^64 - 1) / 2 entries.
pub encoded_len-length :
    (c : Crates) (f : Frame) → IsSized f → encoded_len f ≡ min (length (encode c f)) max_usize
unfolding encoded_len
encoded_len-length c f h = rw (encode-wire c f h) (inner_len f h)
