-- ===== src/Resp/Parse/Pieces.antt =====
-- The parser of parse.rs on the single pieces of the wire form: lines, headers, bodies.
use ratatosk.Prelude.{
  ℕ, zero, suc, ◌+◌, ◌≤◌, ◌≡◌, refl, ap, ◌∙◌, false, Option, none, some, List, [], ◌∷◌, ◌++◌, ltb,
  ◌==◌, length, length-append, drop, arith, Bool-cases, inl, inr, take-drop_front, drop_after,
  length-drop, get_elem?_of_drop, get_or_of_drop, append_assoc,
}
use ratatosk.Prelude.Int.{ℤ, pos, negsuc}
use ratatosk.Prelude.Decimal.{IsI64, decimal_ℤ, i64_from_str, i64_from_str-decimal_ℤ}
use ratatosk.Resp.Crates.{Crates}
use ratatosk.Resp.Encode.{cr, lf, crlf}
use ratatosk.Resp.Encode.Wire.{wire, wire_items, wire_entries}
use ratatosk.Resp.Line.{pure, slice, parse_line_offsets}
use ratatosk.Resp.Frame.{Frame, Frames, Entries, items_len, entries_len}
use ratatosk.Resp.Parse.{
  FrameDesc, simple_string, error, integer, bulk_string, null_bulk, array, map, null_array, null,
  Descs, nil, cons, DescPairs, end, entry, Described, max_array_elements, max_map_entries,
  max_bulk_length, max_nesting_depth, describe_items, describe_entries, describe_simple_string,
  describe_error, describe_integer, describe_bulk_body, describe_bulk_string, describe_array,
  describe_map, describe_null, describe_marker, at_index, describe_frame_at,
}
use ratatosk.Resp.Parse.Plain.{
  PlainLine, decimal_ℤ-plain, parse_line_offsets_lem, ensure_plain_line_lem,
}

-- The bytes of a header line: its type byte, a number and CRLF.
abbrev pub header_size : ℕ → ℕ
header_size n = 1 + (length (decimal_ℤ (pos n)) + 2)

-- The description of a frame that is written at `idx`.
unfoldable mutual
  pub desc_of : Frame → ℕ → FrameDesc
  desc_of (Frame.simple_string v) idx = simple_string (idx + 1) (length v)
  desc_of (Frame.error v) idx = error (idx + 1) (length v)
  desc_of (Frame.integer z) idx = integer z
  desc_of (Frame.bulk_string none) idx = null_bulk
  desc_of (Frame.bulk_string (some v)) idx = bulk_string (idx + header_size (length v)) (length v)
  desc_of (Frame.array fs) idx =
      array (descs_of fs (idx + 1 + (length (decimal_ℤ (pos (items_len fs))) + 2)))
  desc_of (Frame.map es) idx =
      map (pairs_of es (idx + 1 + (length (decimal_ℤ (pos (entries_len es))) + 2)))
  desc_of Frame.null_array idx = null_array
  desc_of f idx = null

  pub descs_of : Frames → ℕ → Descs
  descs_of Frames.nil idx = nil
  descs_of (Frames.cons f fs) idx = cons (desc_of f idx) (descs_of fs (idx + length (wire f)))

  pub pairs_of : Entries → ℕ → DescPairs
  pairs_of Entries.end idx = end
  pairs_of (Entries.entry k v es) idx =
      entry (desc_of k idx) (desc_of v (idx + length (wire k)))
        (pairs_of es (idx + length (wire k) + length (wire v)))

pub items_none : (item : ℕ → Described) (idx : ℕ) → describe_items item 0 idx ≡ pure (nil, idx + 0)
unfolding describe_items
items_none item idx = ap (λ k. pure (nil, k)) (omega arith)

pub entries_none :
    (item : ℕ → Described) (idx : ℕ) → describe_entries item 0 idx ≡ pure (end, idx + 0)
unfolding describe_entries
entries_none item idx = ap (λ k. pure (end, k)) (omega arith)

module _ (c : Crates) (input : List ℕ) where
  abbrev pub deeper : ℕ → Option (ℕ → Described)
  deeper zero = none
  deeper (suc room) = some (describe_frame_at c input room)

  -- The dispatch at an index where a type byte stands.
  pub at_marker :
      (room idx b : ℕ) (xs : List ℕ)
      → drop idx input ≡ b ∷ xs
      → describe_frame_at c input room idx
        ≡ describe_marker c input (room == max_nesting_depth) (deeper room) idx b
  unfolding describe_frame_at
  at_marker zero idx b xs h = ap (at_index c input false none idx) (get_elem?_of_drop input idx h)
  at_marker (suc room) idx b xs h =
      ap (at_index c input (suc room == max_nesting_depth) (deeper (suc room)) idx)
        (get_elem?_of_drop input idx h)

  pub behind : (idx b : ℕ) (xs : List ℕ) → drop idx input ≡ b ∷ xs → drop (idx + 1) input ≡ xs
  behind idx b xs h = drop_after input idx (b ∷ []) xs h

  pub simple_lem :
      (idx : ℕ) (v rest : List ℕ)
      → PlainLine v
      → drop (idx + 1) input ≡ v ++ (cr ∷ lf ∷ rest)
      → (describe_simple_string c input idx
          ≡ pure (simple_string (idx + 1) (length v), 1 + (length v + 2)))
        × (describe_error c input idx ≡ pure (error (idx + 1) (length v), 1 + (length v + 2)))
  unfolding describe_simple_string describe_error
  simple_lem idx v rest plain h = (
    rw
        (
          parse_line_offsets_lem c input v rest (idx + 1) plain h,
          take-drop_front input (idx + 1) v _ h,
          ensure_plain_line_lem c v plain,
        )
        refl,
    rw
        (
          parse_line_offsets_lem c input v rest (idx + 1) plain h,
          take-drop_front input (idx + 1) v _ h,
          ensure_plain_line_lem c v plain,
        )
        refl,
  )

  -- A number and its terminator, behind the type byte at `idx`.
  pub number_lem :
      (idx : ℕ) (z : ℤ) (rest : List ℕ)
      → IsI64 z
      → drop (idx + 1) input ≡ decimal_ℤ z ++ (cr ∷ lf ∷ rest)
      → (parse_line_offsets c input (idx + 1)
          ≡ some (idx + 1, length (decimal_ℤ z), length (decimal_ℤ z) + 2))
        × (i64_from_str (slice input (idx + 1) (length (decimal_ℤ z))) ≡ some z)
        × (drop (idx + 1 + (length (decimal_ℤ z) + 2)) input ≡ rest)
  number_lem idx z rest fits h = (
    parse_line_offsets_lem c input (decimal_ℤ z) rest (idx + 1) (decimal_ℤ-plain z) h,
    ap i64_from_str (take-drop_front input (idx + 1) (decimal_ℤ z) _ h)
        ∙ i64_from_str-decimal_ℤ z fits,
    ap (λ k. drop k input) (omega arith)
        ∙ drop_after input (idx + 1 + length (decimal_ℤ z)) (cr ∷ lf ∷ []) rest
            (drop_after input (idx + 1) (decimal_ℤ z) _ h),
  )

  pub integer_lem :
      (idx : ℕ) (z : ℤ) (rest : List ℕ)
      → IsI64 z
      → drop (idx + 1) input ≡ decimal_ℤ z ++ (cr ∷ lf ∷ rest)
      → describe_integer c input idx ≡ pure (integer z, 1 + (length (decimal_ℤ z) + 2))
  unfolding describe_integer
  integer_lem idx z rest fits h =
      let (line, read, _) = number_lem idx z rest fits h in rw (line, read) refl

  pub body_lem :
      (idx header : ℕ) (v rest : List ℕ)
      → length v ≤ max_bulk_length
      → drop (idx + header) input ≡ v ++ (cr ∷ lf ∷ rest)
      → describe_bulk_body c input idx header (length v)
        ≡ pure (bulk_string (idx + header) (length v), header + length v + 2)
  unfolding describe_bulk_body
  body_lem idx header v rest fits h =
      let tail = drop_after input (idx + header) v (cr ∷ lf ∷ rest) h in
      let at_cr = get_or_of_drop input (idx + header + length v) 0 tail in
      let at_lf =
        get_or_of_drop input (idx + header + length v + 1) 0
          (drop_after input (idx + header + length v) (cr ∷ []) (lf ∷ rest) tail) in
      ground (arith, at_cr, at_lf, length-drop (idx + header + length v) input, ap length tail)

  pub bulk_lem :
      (idx : ℕ) (v rest : List ℕ)
      → length v ≤ max_bulk_length
      → drop (idx + 1) input ≡ decimal_ℤ (pos (length v)) ++ (cr ∷ lf ∷ (v ++ (cr ∷ lf ∷ rest)))
      → describe_bulk_string c input idx
        ≡ pure (
          bulk_string (idx + header_size (length v)) (length v),
          header_size (length v) + length v + 2,
        )
  unfolding describe_bulk_string
  bulk_lem idx v rest fits h =
      let (line, read, there) = number_lem idx (pos (length v)) _ (omega arith) h in
      rw (line, read)
        (body_lem idx (header_size (length v)) v rest fits
          (ap (λ k. drop k input) (omega arith) ∙ there))

  pub null_bulk_lem :
      (idx : ℕ) (rest : List ℕ)
      → drop (idx + 1) input ≡ b'-' ∷ b'1' ∷ cr ∷ lf ∷ rest
      → describe_bulk_string c input idx ≡ pure (null_bulk, 5)
  unfolding describe_bulk_string decimal_ℤ
  null_bulk_lem idx rest h =
      let (line, read, there) = number_lem idx (negsuc 0) rest (omega arith) h in
      rw (line, read) refl

  pub null_array_lem :
      (room idx : ℕ) (rest : List ℕ)
      → drop (idx + 1) input ≡ b'-' ∷ b'1' ∷ cr ∷ lf ∷ rest
      → describe_array c input (deeper (suc room)) idx ≡ pure (null_array, 5)
  unfolding describe_array decimal_ℤ
  null_array_lem room idx rest h =
      let (line, read, there) = number_lem idx (negsuc 0) rest (omega arith) h in
      rw (line, read) (ap (λ k. pure (null_array, k)) (omega arith))

  pub null_lem :
      (idx : ℕ) (rest : List ℕ)
      → drop idx input ≡ b'_' ∷ cr ∷ lf ∷ rest
      → describe_null c input idx ≡ pure (null, 3)
  unfolding describe_null
  null_lem idx rest h =
      let tail = drop_after input idx (b'_' ∷ []) (cr ∷ lf ∷ rest) h in
      ground (
        arith,
        get_or_of_drop input (idx + 1) 0 tail,
        get_or_of_drop input (idx + 2) 0 (
            ap (λ k. drop k input) (omega arith)
            ∙ drop_after input (idx + 1) (cr ∷ []) (lf ∷ rest) tail),
        length-drop idx input,
        ap length h,
      )

  pub array_lem :
      (idx n len room : ℕ) (ds : Descs) (rest : List ℕ)
      → n ≤ max_array_elements
      → drop (idx + 1) input ≡ decimal_ℤ (pos n) ++ (cr ∷ lf ∷ rest)
      → describe_items
          (describe_frame_at c input room)
          n
          (idx + 1 + (length (decimal_ℤ (pos n)) + 2))
        ≡ pure (ds, idx + 1 + (length (decimal_ℤ (pos n)) + 2) + len)
      → describe_array c input (deeper (suc room)) idx ≡ pure (array ds, header_size n + len)
  unfolding describe_array
  array_lem idx n len room ds rest fits h items =
      let (line, read, there) = number_lem idx (pos n) rest (omega arith) h in
      rw (line, read)
        (elim (Bool-cases (ltb max_array_elements n)) [
          | inl e ↦ absurd (ground arith)
          | inr e ↦ rw (e, items) (ap (λ k. pure (array ds, k)) (omega arith))
        ])

  pub map_lem :
      (idx n len room : ℕ) (es : DescPairs) (rest : List ℕ)
      → n ≤ max_map_entries
      → drop (idx + 1) input ≡ decimal_ℤ (pos n) ++ (cr ∷ lf ∷ rest)
      → describe_entries
          (describe_frame_at c input room)
          n
          (idx + 1 + (length (decimal_ℤ (pos n)) + 2))
        ≡ pure (es, idx + 1 + (length (decimal_ℤ (pos n)) + 2) + len)
      → describe_map c input (deeper (suc room)) idx ≡ pure (map es, header_size n + len)
  unfolding describe_map
  map_lem idx n len room es rest fits h items =
      let (line, read, there) = number_lem idx (pos n) rest (omega arith) h in
      rw (line, read)
        (elim (Bool-cases (ltb max_map_entries n)) [
          | inl e ↦ absurd (ground arith)
          | inr e ↦ rw (e, items) (ap (λ k. pure (map es, k)) (omega arith))
        ])

  -- A line or header of the wire form, with what follows the frame moved in.
  pub line_end :
      (idx b : ℕ) (line body rest : List ℕ)
      → drop idx input ≡ (b ∷ (line ++ (crlf ++ body))) ++ rest
      → drop (idx + 1) input ≡ line ++ (cr ∷ lf ∷ (body ++ rest))
  line_end idx b line body rest h = behind idx b _ h ∙ append_assoc line (crlf ++ body) rest

  pub line_size :
      (b : ℕ) (line body : List ℕ)
      → length (b ∷ (line ++ (crlf ++ body))) ≡ 1 + (length line + 2) + length body
  line_size b line body = omega (arith, length-append line (crlf ++ body))

  pub simple_wire :
      (idx b : ℕ) (v rest : List ℕ)
      → PlainLine v
      → drop idx input ≡ (b ∷ (v ++ crlf)) ++ rest
      → drop (idx + 1) input ≡ v ++ (cr ∷ lf ∷ rest)
  simple_wire idx b v rest plain h = behind idx b _ h ∙ append_assoc v crlf rest

  abbrev pub found : FrameDesc → ℕ → Described
  found d n = pure (d, n)

  pub items_step :
      (f : Frame) (fs : Frames) (room idx : ℕ)
      → describe_frame_at c input room idx ≡ found (desc_of f idx) (length (wire f))
      → describe_items (describe_frame_at c input room) (items_len fs) (idx + length (wire f))
        ≡ pure (descs_of fs (idx + length (wire f)), idx + length (wire f) + length (wire_items fs))
      → describe_items (describe_frame_at c input room) (suc (items_len fs)) idx
        ≡ pure (descs_of (Frames.cons f fs) idx, idx + length (wire f ++ wire_items fs))
  unfolding describe_items desc_of
  items_step f fs room idx h hs =
      rw (h, hs)
        (ap (λ k. pure (cons (desc_of f idx) (descs_of fs (idx + length (wire f))), k))
          (omega (arith, length-append (wire f) (wire_items fs))))

  pub entries_step :
      (k v : Frame) (es : Entries) (room idx : ℕ)
      → describe_frame_at c input room idx ≡ found (desc_of k idx) (length (wire k))
      → describe_frame_at c input room (idx + length (wire k))
        ≡ found (desc_of v (idx + length (wire k))) (length (wire v))
      → describe_entries
          (describe_frame_at c input room)
          (entries_len es)
          (idx + length (wire k) + length (wire v))
        ≡ pure (
          pairs_of es (idx + length (wire k) + length (wire v)),
          idx + length (wire k) + length (wire v) + length (wire_entries es),
        )
      → describe_entries (describe_frame_at c input room) (suc (entries_len es)) idx
        ≡ pure (
          pairs_of (Entries.entry k v es) idx,
          idx + length (wire k ++ (wire v ++ wire_entries es)),
        )
  unfolding describe_entries desc_of
  entries_step k v es room idx hk hv hs =
      rw (hk, hv, hs)
        (ap (λ n. pure (pairs_of (Entries.entry k v es) idx, n))
          (omega (
            arith,
            length-append (wire k) (wire v ++ wire_entries es),
            length-append (wire v) (wire_entries es),
          )))
