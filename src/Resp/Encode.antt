-- ===== src/Resp/Encode.antt =====
-- The encoder, crates/ratatosk-resp/src/encode.rs. `out` is the caller's buffer, and each function
-- returns it with what it appended.
pub mod Wire
pub mod Leaf
pub mod Exact
pub use ratatosk.Prelude.Words.{max_usize, sat_add, sat_mul}
use ratatosk.Prelude.{
  ℕ, zero, suc, ◌+◌, ◌-◌, ◌*◌, ◌/◌, ◌^◌, min, ◌≡◌, refl, Bool, true, false, ◌||◌, Option, none,
  some, List, [], ◌∷◌, ◌++◌, if◌then◌else◌, ltb, ◌==◌, length,
}
use ratatosk.Prelude.Eq.{bytes_eq}
use mathlib.Core.List
use ratatosk.Prelude.Int.{ℤ, pos, negsuc}
use ratatosk.Resp.Crates.{Crates}
use ratatosk.Resp.Frame.{
  Frame, simple_string, error, integer, bulk_string, array, push, map, null_array, null, sequence,
  versioned, Frames, nil, cons, Entries, end, entry, items_len, entries_len,
}

pub data RespVersion : Type 0 where
  resp2 resp3 : RespVersion

unfoldable pub from_protocol_version : ℤ → RespVersion
from_protocol_version (pos n) = if ltb n 3 then resp2 else resp3
from_protocol_version (negsuc n) = resp2

abbrev pub cr : ℕ
cr = b'\r'

abbrev pub lf : ℕ
lf = b'\n'

abbrev pub crlf : List ℕ
crlf = cr ∷ lf ∷ []

abbrev pub ok_text : List ℕ
ok_text = b'O' ∷ b'K' ∷ []

abbrev pub pong_text : List ℕ
pong_text = b'P' ∷ b'O' ∷ b'N' ∷ b'G' ∷ []

abbrev pub queued_text : List ℕ
queued_text = b'Q' ∷ b'U' ∷ b'E' ∷ b'U' ∷ b'E' ∷ b'D' ∷ []

-- `SHARED_OK` and its siblings
abbrev pub shared_ok : List ℕ
shared_ok = b'+' ∷ b'O' ∷ b'K' ∷ crlf

abbrev pub shared_pong : List ℕ
shared_pong = b'+' ∷ b'P' ∷ b'O' ∷ b'N' ∷ b'G' ∷ crlf

abbrev pub shared_queued : List ℕ
shared_queued = b'+' ∷ b'Q' ∷ b'U' ∷ b'E' ∷ b'U' ∷ b'E' ∷ b'D' ∷ crlf

abbrev pub shared_null_bulk : List ℕ
shared_null_bulk = b'$' ∷ b'-' ∷ b'1' ∷ crlf

abbrev pub shared_null_array : List ℕ
shared_null_array = b'*' ∷ b'-' ∷ b'1' ∷ crlf

abbrev pub shared_null : List ℕ
shared_null = b'_' ∷ crlf

abbrev pub shared_string : List ℕ → Option (List ℕ)
shared_string v =
    if bytes_eq v ok_text
    then some shared_ok
    else if bytes_eq v pong_text
    then some shared_pong
    else if bytes_eq v queued_text
    then some shared_queued
    else none

-- `:0`, `:1`, `:-1` and `:-2`
abbrev pub shared_integer : ℤ → Option (List ℕ)
shared_integer (pos zero) = some (b':' ∷ b'0' ∷ crlf)
shared_integer (pos (suc zero)) = some (b':' ∷ b'1' ∷ crlf)
shared_integer (negsuc zero) = some (b':' ∷ b'-' ∷ b'1' ∷ crlf)
shared_integer (negsuc (suc zero)) = some (b':' ∷ b'-' ∷ b'2' ∷ crlf)
shared_integer z = none

unfoldable pub shared_encoding : Frame → Option (List ℕ)
shared_encoding (simple_string v) = shared_string v
shared_encoding (bulk_string none) = some shared_null_bulk
shared_encoding (integer z) = shared_integer z
shared_encoding f = none

unfoldable pub replace_break : ℕ → ℕ
replace_break b = if b == cr || b == lf then 0x20 else b

unfoldable pub extend_line_replacing_breaks : List ℕ → List ℕ → List ℕ
extend_line_replacing_breaks out v = out ++ List.map replace_break v

abbrev pub null_for : RespVersion → List ℕ
null_for resp2 = shared_null_bulk
null_for resp3 = shared_null

abbrev pub null_array_for : RespVersion → List ℕ
null_array_for resp2 = shared_null_array
null_array_for resp3 = shared_null

abbrev pub push_marker : RespVersion → ℕ
push_marker resp2 = b'*'
push_marker resp3 = b'>'

module _ (c : Crates) where
  unfoldable pub extend_line : List ℕ → List ℕ → List ℕ
  unfolding extend_line_replacing_breaks
  extend_line out v = elim (c.memchr2 cr lf v) [
    | none ↦ out ++ v
    | some _ ↦ extend_line_replacing_breaks out v
  ]

  unfoldable pub write_aggregate_header : ℕ → ℕ → List ℕ → List ℕ
  write_aggregate_header marker len out = (out ++ (marker ∷ [])) ++ c.format (pos len) ++ crlf

  -- The arms of `encode_into` that make no recursive call, behind its test for a shared encoding.
  pub plain_leaf : Frame → List ℕ → List ℕ
  unfolding extend_line
  plain_leaf (simple_string v) out = extend_line (out ++ (b'+' ∷ [])) v ++ crlf
  plain_leaf (error v) out = extend_line (out ++ (b'-' ∷ [])) v ++ crlf
  plain_leaf (integer z) out = (out ++ (b':' ∷ [])) ++ c.format z ++ crlf
  plain_leaf (bulk_string none) out = out ++ shared_null_bulk
  plain_leaf (bulk_string (some v)) out =
      (((out ++ (b'$' ∷ [])) ++ c.format (pos (length v)) ++ crlf) ++ v) ++ crlf
  plain_leaf null_array out = out ++ shared_null_array
  plain_leaf null out = out ++ shared_null
  plain_leaf f out = out

  unfoldable pub encode_leaf : Frame → List ℕ → List ℕ
  unfolding plain_leaf shared_encoding
  encode_leaf f out = elim (shared_encoding f) [ some s ↦ out ++ s | none ↦ plain_leaf f out ]

  abbrev pub map_header : RespVersion → ℕ → List ℕ → List ℕ
  map_header resp3 n out = write_aggregate_header b'%' n out
  map_header resp2 n out = write_aggregate_header b'*' (sat_mul n 2) out

  -- `encode_into` and `encode_for_version_into`, with their loops over items and entries.
  unfoldable mutual
    unfolding encode_leaf write_aggregate_header from_protocol_version

    pub encode_into : Frame → List ℕ → List ℕ
    encode_into (versioned n f) out = encode_for_version_into f (from_protocol_version n) out
    encode_into (array fs) out = encode_items fs (write_aggregate_header b'*' (items_len fs) out)
    encode_into (push fs) out = encode_items fs (write_aggregate_header b'>' (items_len fs) out)
    encode_into (map es) out = encode_entries es (write_aggregate_header b'%' (entries_len es) out)
    encode_into (sequence fs) out = encode_items fs out
    encode_into f out = encode_leaf f out

    pub encode_items : Frames → List ℕ → List ℕ
    encode_items nil out = out
    encode_items (cons f fs) out = encode_items fs (encode_into f out)

    pub encode_entries : Entries → List ℕ → List ℕ
    encode_entries end out = out
    encode_entries (entry k v es) out = encode_entries es (encode_into v (encode_into k out))

    pub encode_for_version_into : Frame → RespVersion → List ℕ → List ℕ
    encode_for_version_into (versioned n f) v out =
        encode_for_version_into f (from_protocol_version n) out
    encode_for_version_into (bulk_string none) v out = out ++ null_for v
    encode_for_version_into null v out = out ++ null_for v
    encode_for_version_into null_array v out = out ++ null_array_for v
    encode_for_version_into (array fs) v out =
        encode_items_for fs v (write_aggregate_header b'*' (items_len fs) out)
    encode_for_version_into (push fs) v out =
        encode_items_for fs v (write_aggregate_header (push_marker v) (items_len fs) out)
    encode_for_version_into (map es) v out =
        encode_entries_for es v (map_header v (entries_len es) out)
    encode_for_version_into (sequence fs) v out = encode_items_for fs v out
    encode_for_version_into f v out = encode_leaf f out

    pub encode_items_for : Frames → RespVersion → List ℕ → List ℕ
    encode_items_for nil v out = out
    encode_items_for (cons f fs) v out = encode_items_for fs v (encode_for_version_into f v out)

    pub encode_entries_for : Entries → RespVersion → List ℕ → List ℕ
    encode_entries_for end v out = out
    encode_entries_for (entry k w es) v out =
        encode_entries_for es v (encode_for_version_into w v (encode_for_version_into k v out))

  unfoldable pub encode : Frame → List ℕ
  unfolding encode_into shared_encoding
  encode f = elim (shared_encoding f) [ some s ↦ s | none ↦ encode_into f [] ]

  unfoldable pub encode_for_version : Frame → RespVersion → List ℕ
  unfolding encode_for_version_into
  encode_for_version f v = encode_for_version_into f v []
