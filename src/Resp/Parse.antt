-- ===== src/Resp/Parse.antt =====
-- The two-phase parser, crates/ratatosk-resp/src/parse.rs: describe the frame at an index, then build
-- it from the bytes. `room` is MAX_NESTING_DEPTH less the source's `depth`, so the recursion is on it.
pub mod Plain
pub mod Readable
pub mod Pieces
pub mod Describe
pub mod Materialize
pub mod RoundTrip
use ratatosk.Prelude.{
  ℕ, zero, suc, ◌+◌, ◌-◌, ◌*◌, ◌≡◌, Bool, true, false, ◌&&◌, ◌||◌, Option, none, some, List, [],
  ◌∷◌, ◌++◌, if◌then◌else◌, leb, ltb, ◌==◌, length, drop, take, get_or, get_elem?,
}
use ratatosk.Prelude.Int.{ℤ, pos, negsuc}
use ratatosk.Prelude.Decimal.{i64_from_str}
use ratatosk.Resp.Crates.{Crates}
use ratatosk.Resp.Encode.{cr, lf}
use ratatosk.Resp.Line.{
  RespParseError, invalid_integer, invalid_bulk_length, invalid_array_length, invalid_map_length,
  invalid_frame_type, nesting_too_deep, missing_crlf, Result, ok, err, Parsed, ◌>>=◌, ◌>>◌, pure,
  slice, parse_line_offsets, ensure_plain_line,
}
use ratatosk.Resp.Inline.{InlineToken, slice_token, owned, describe_inline_command}
use ratatosk.Resp.Frame.{Frame, Frames, Entries}

abbrev pub max_array_elements : ℕ
max_array_elements = 1024 * 1024

abbrev pub max_map_entries : ℕ
max_map_entries = 512 * 1024

abbrev pub max_bulk_length : ℕ
max_bulk_length = 512 * 1024 * 1024

abbrev pub max_nesting_depth : ℕ
max_nesting_depth = 128

mutual
  -- `FrameDesc`, with the lists that it holds
  pub data FrameDesc : Type 0 where
    simple_string : ℕ → ℕ → FrameDesc
    error : ℕ → ℕ → FrameDesc
    integer : ℤ → FrameDesc
    bulk_string : ℕ → ℕ → FrameDesc
    null_bulk : FrameDesc
    array : Descs → FrameDesc
    map : DescPairs → FrameDesc
    null_array : FrameDesc
    null : FrameDesc
    inline_command : List InlineToken → FrameDesc

  pub data Descs : Type 0 where
    nil : Descs
    cons : FrameDesc → Descs → Descs

  pub data DescPairs : Type 0 where
    end : DescPairs
    entry : FrameDesc → FrameDesc → DescPairs → DescPairs

-- A frame's description, and the number of bytes that the frame takes.
abbrev pub Described : Type 0
Described = Parsed (FrameDesc × ℕ)

-- The parse of the length in a header line.
abbrev pub header_number : RespParseError → Option ℤ → Parsed ℤ
header_number e none = err e
header_number e (some z) = pure z

-- The loops over items and entries: from `cur` on, each by `item`.
unfoldable pub describe_items : (ℕ → Described) → ℕ → ℕ → Parsed (Descs × ℕ)
describe_items item zero cur = pure (nil, cur)
describe_items item (suc n) cur = do
  (d, consumed) ← item cur
  (ds, cur') ← describe_items item n (cur + consumed)
  pure (cons d ds, cur')

unfoldable pub describe_entries : (ℕ → Described) → ℕ → ℕ → Parsed (DescPairs × ℕ)
describe_entries item zero cur = pure (end, cur)
describe_entries item (suc n) cur = do
  (k, key_consumed) ← item cur
  (v, val_consumed) ← item (cur + key_consumed)
  (es, cur') ← describe_entries item n (cur + key_consumed + val_consumed)
  pure (entry k v es, cur')

module _ (c : Crates) where
  module _ (input : List ℕ) where
    abbrev pub line_at : ℕ → Parsed (ℕ × ℕ × ℕ)
    line_at idx = ok (parse_line_offsets c input idx)

    unfoldable pub describe_simple_string : ℕ → Described
    unfolding ensure_plain_line parse_line_offsets
    describe_simple_string idx = do
      (start, len, consumed) ← line_at (idx + 1)
      ensure_plain_line c (slice input start len)
      pure (simple_string start len, 1 + consumed)

    unfoldable pub describe_error : ℕ → Described
    unfolding ensure_plain_line parse_line_offsets
    describe_error idx = do
      (start, len, consumed) ← line_at (idx + 1)
      ensure_plain_line c (slice input start len)
      pure (error start len, 1 + consumed)

    unfoldable pub describe_integer : ℕ → Described
    unfolding parse_line_offsets
    describe_integer idx = do
      (start, len, consumed) ← line_at (idx + 1)
      value ← header_number invalid_integer (i64_from_str (slice input start len))
      pure (integer value, 1 + consumed)

    -- The body of a bulk string of length `len`, behind a header of `header` bytes.
    unfoldable pub describe_bulk_body : ℕ → ℕ → ℕ → Described
    describe_bulk_body idx header len =
        if ltb max_bulk_length len
        then err invalid_bulk_length
        else if ltb (length input) (idx + header + len + 2)
        then ok none
        else if get_or input (idx + header + len) 0 == cr
            && get_or input (idx + header + len + 1) 0 == lf
        then pure (bulk_string (idx + header) len, header + len + 2)
        else err missing_crlf

    abbrev pub bulk_of : ℕ → ℕ → ℤ → Described
    bulk_of idx header (pos len) = describe_bulk_body idx header len
    bulk_of idx header (negsuc zero) = pure (null_bulk, header)
    bulk_of idx header (negsuc (suc n)) = err invalid_bulk_length

    unfoldable pub describe_bulk_string : ℕ → Described
    unfolding describe_bulk_body parse_line_offsets
    describe_bulk_string idx = do
      (start, len, consumed) ← line_at (idx + 1)
      n ← header_number invalid_bulk_length (i64_from_str (slice input start len))
      bulk_of idx (1 + consumed) n

    abbrev pub array_of : (ℕ → Described) → ℕ → ℕ → ℤ → Described
    array_of item idx cur (negsuc zero) = pure (null_array, cur - idx)
    array_of item idx cur (negsuc (suc n)) = err invalid_array_length
    array_of item idx cur (pos n) =
        if ltb max_array_elements n
        then err invalid_array_length
        else do (ds, cur') ← describe_items item n cur; pure (array ds, cur' - idx)

    -- `item` describes a frame one level deeper; there is none at the depth limit.
    unfoldable pub describe_array : Option (ℕ → Described) → ℕ → Described
    unfolding describe_items parse_line_offsets
    describe_array none idx = err nesting_too_deep
    describe_array (some item) idx = do
      (start, len, consumed) ← line_at (idx + 1)
      n ← header_number invalid_array_length (i64_from_str (slice input (idx + 1) len))
      array_of item idx (idx + 1 + consumed) n

    abbrev pub map_of : (ℕ → Described) → ℕ → ℕ → ℤ → Described
    map_of item idx cur (negsuc n) = err invalid_map_length
    map_of item idx cur (pos n) =
        if ltb max_map_entries n
        then err invalid_map_length
        else do (es, cur') ← describe_entries item n cur; pure (map es, cur' - idx)

    unfoldable pub describe_map : Option (ℕ → Described) → ℕ → Described
    unfolding describe_entries parse_line_offsets
    describe_map none idx = err nesting_too_deep
    describe_map (some item) idx = do
      (start, len, consumed) ← line_at (idx + 1)
      n ← header_number invalid_map_length (i64_from_str (slice input (idx + 1) len))
      map_of item idx (idx + 1 + consumed) n

    unfoldable pub describe_null : ℕ → Described
    describe_null idx =
        if ltb (length input) (idx + 3)
        then ok none
        else if get_or input (idx + 1) 0 == cr && get_or input (idx + 2) 0 == lf
        then pure (null, 3)
        else err missing_crlf

    unfoldable pub describe_inline : ℕ → Described
    unfolding describe_inline_command
    describe_inline idx = do
      (tokens, consumed) ← describe_inline_command c input idx
      pure (inline_command tokens, consumed)

    -- The dispatch on the type byte; `top` is `depth == 0`.
    unfoldable pub describe_marker : Bool → Option (ℕ → Described) → ℕ → ℕ → Described
    unfolding describe_simple_string describe_error describe_integer describe_bulk_string
        describe_array describe_map describe_null describe_inline
    describe_marker top item idx marker =
        if marker == b'+'
        then describe_simple_string idx
        else if marker == b'-'
        then describe_error idx
        else if marker == b':'
        then describe_integer idx
        else if marker == b'$'
        then describe_bulk_string idx
        else if marker == b'*'
        then describe_array item idx
        else if marker == b'%'
        then describe_map item idx
        else if marker == b'_'
        then describe_null idx
        else if top
        then describe_inline idx
        else err (invalid_frame_type marker)

    abbrev pub at_index : Bool → Option (ℕ → Described) → ℕ → Option ℕ → Described
    at_index top item idx none = ok none
    at_index top item idx (some marker) = describe_marker top item idx marker

    unfoldable pub describe_frame_at : ℕ → ℕ → Described
    unfolding describe_marker
    describe_frame_at zero idx = at_index false none idx (get_elem? input idx)
    describe_frame_at (suc room) idx =
        at_index (suc room == max_nesting_depth) (some (describe_frame_at room)) idx
          (get_elem? input idx)

-- The second phase: the frame that a description stands for, cut from the frozen bytes.
abbrev pub token_frame : List ℕ → InlineToken → Frame
token_frame frozen (slice_token offset len) = Frame.bulk_string (some (slice frozen offset len))
token_frame frozen (owned bytes) = Frame.bulk_string (some bytes)

abbrev pub token_frames : List ℕ → List InlineToken → Frames
token_frames frozen [] = Frames.nil
token_frames frozen (t ∷ ts) = Frames.cons (token_frame frozen t) (token_frames frozen ts)

unfoldable mutual
  pub materialize : List ℕ → FrameDesc → Frame
  materialize frozen (simple_string offset len) = Frame.simple_string (slice frozen offset len)
  materialize frozen (error offset len) = Frame.error (slice frozen offset len)
  materialize frozen (integer value) = Frame.integer value
  materialize frozen (bulk_string offset len) = Frame.bulk_string (some (slice frozen offset len))
  materialize frozen null_bulk = Frame.bulk_string none
  materialize frozen (array ds) = Frame.array (materialize_items frozen ds)
  materialize frozen (map es) = Frame.map (materialize_entries frozen es)
  materialize frozen null_array = Frame.null_array
  materialize frozen null = Frame.null
  materialize frozen (inline_command tokens) = Frame.array (token_frames frozen tokens)

  pub materialize_items : List ℕ → Descs → Frames
  materialize_items frozen nil = Frames.nil
  materialize_items frozen (cons d ds) =
      Frames.cons (materialize frozen d) (materialize_items frozen ds)

  pub materialize_entries : List ℕ → DescPairs → Entries
  materialize_entries frozen end = Entries.end
  materialize_entries frozen (entry k v es) =
      Entries.entry (materialize frozen k) (materialize frozen v) (materialize_entries frozen es)

-- `parse`: the result, and what is left of the buffer.
unfoldable pub parse : Crates → List ℕ → Parsed Frame × List ℕ
unfolding describe_frame_at materialize
parse c buf = elim (describe_frame_at c buf max_nesting_depth 0) [
  | err e ↦ (err e, buf)
  | ok none ↦ (ok none, buf)
  | ok (some (desc, consumed)) ↦ (pure (materialize (take consumed buf) desc), drop consumed buf)
]
