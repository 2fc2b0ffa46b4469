-- ===== src/Resp/Parse/Describe.antt =====
-- The first phase of the parser of parse.rs describes a frame that the encoder wrote.
use ratatosk.Prelude.{
  ℕ, zero, suc, ◌+◌, ◌≡◌, ap, ◌∙◌, none, some, List, ◌∷◌, ◌++◌, length, length-append, drop, arith,
  drop_after, append_assoc,
}
use ratatosk.Prelude.Int.{pos}
use ratatosk.Prelude.Decimal.{decimal_ℤ}
use ratatosk.Resp.Crates.{Crates}
use ratatosk.Resp.Encode.{cr, lf, crlf}
use ratatosk.Resp.Encode.Wire.{wire, wire_items, wire_entries}
use ratatosk.Resp.Line.{pure}
use ratatosk.Resp.Frame.{Frame, Frames, Entries, items_len, entries_len}
use ratatosk.Resp.Parse.{describe_items, describe_entries, describe_marker, describe_frame_at}
use ratatosk.Resp.Parse.Plain.{replace_break-plain}
use ratatosk.Resp.Parse.Readable.{IsReadable, AreReadable, AreReadableEntries}
use ratatosk.Resp.Parse.Pieces.{
  desc_of, descs_of, pairs_of, at_marker, behind, simple_lem, integer_lem, bulk_lem, null_bulk_lem,
  null_array_lem, null_lem, array_lem, map_lem, line_end, line_size, simple_wire, found, items_step,
  entries_step, items_none, entries_none,
}

module _ (c : Crates) (input : List ℕ) where
  mutual
    unfolding describe_marker desc_of wire

    pub frame_lem :
        (f : Frame) (room idx : ℕ) (rest : List ℕ)
        → IsReadable f room
        → drop idx input ≡ wire f ++ rest
        → describe_frame_at c input room idx ≡ found c input (desc_of f idx) (length (wire f))
    frame_lem (Frame.simple_string v) room idx rest r h =
        let h' = rw (replace_break-plain v r) at h in
        at_marker c input room idx b'+' _ h'
        ∙ (simple_lem c input idx v rest r (simple_wire c input idx b'+' v rest r h')).0
        ∙ rw (replace_break-plain v r) (ap (found c input _) (omega (arith, length-append v crlf)))
    frame_lem (Frame.error v) room idx rest r h =
        let h' = rw (replace_break-plain v r) at h in
        at_marker c input room idx b'-' _ h'
        ∙ (simple_lem c input idx v rest r (simple_wire c input idx b'-' v rest r h')).1
        ∙ rw (replace_break-plain v r) (ap (found c input _) (omega (arith, length-append v crlf)))
    frame_lem (Frame.integer z) room idx rest r h =
        at_marker c input room idx b':' _ h
        ∙ integer_lem c input idx z rest r
            (behind c input idx b':' _ h ∙ append_assoc (decimal_ℤ z) crlf rest)
        ∙ ap (found c input _) (omega (arith, length-append (decimal_ℤ z) crlf))
    frame_lem (Frame.bulk_string none) room idx rest r h =
        at_marker c input room idx b'$' _ h
        ∙ null_bulk_lem c input idx rest (behind c input idx b'$' _ h)
    frame_lem (Frame.bulk_string (some v)) room idx rest r h =
        at_marker c input room idx b'$' _ h
        ∙ bulk_lem c input idx v rest r (
            line_end c input idx b'$' (decimal_ℤ (pos (length v))) (v ++ crlf) rest h
            ∙ ap (λ t. decimal_ℤ (pos (length v)) ++ (cr ∷ lf ∷ t)) (append_assoc v crlf rest))
        ∙ ap (found c input _) (
            omega (
              arith,
              line_size c input b'$' (decimal_ℤ (pos (length v))) (v ++ crlf),
              length-append v crlf,
            ))
    frame_lem (Frame.array fs) zero idx rest r h = absurd r
    frame_lem (Frame.array fs) (suc room) idx rest r h =
        let line = decimal_ℤ (pos (items_len fs)) in
        let h' = line_end c input idx b'*' line (wire_items fs) rest h in
        at_marker c input (suc room) idx b'*' _ h
        ∙ array_lem c input idx (items_len fs) (length (wire_items fs)) room _
            (wire_items fs ++ rest) r.0 h'
            (items_lem fs room (idx + 1 + (length line + 2)) rest r.1 (
              ap (λ k. drop k input) (omega arith)
              ∙ drop_after input (idx + 1 + length line) crlf _
                  (drop_after input (idx + 1) line _ h')))
        ∙ ap (found c input _) (omega (arith, line_size c input b'*' line (wire_items fs)))
    frame_lem (Frame.map es) zero idx rest r h = absurd r
    frame_lem (Frame.map es) (suc room) idx rest r h =
        let line = decimal_ℤ (pos (entries_len es)) in
        let h' = line_end c input idx b'%' line (wire_entries es) rest h in
        at_marker c input (suc room) idx b'%' _ h
        ∙ map_lem c input idx (entries_len es) (length (wire_entries es)) room _
            (wire_entries es ++ rest) r.0 h'
            (entries_lem es room (idx + 1 + (length line + 2)) rest r.1 (
              ap (λ k. drop k input) (omega arith)
              ∙ drop_after input (idx + 1 + length line) crlf _
                  (drop_after input (idx + 1) line _ h')))
        ∙ ap (found c input _) (omega (arith, line_size c input b'%' line (wire_entries es)))
    frame_lem Frame.null_array zero idx rest r h = absurd r
    frame_lem Frame.null_array (suc room) idx rest r h =
        at_marker c input (suc room) idx b'*' _ h
        ∙ null_array_lem c input room idx rest (behind c input idx b'*' _ h)
    frame_lem Frame.null room idx rest r h =
        at_marker c input room idx b'_' _ h ∙ null_lem c input idx rest h
    frame_lem (Frame.push fs) room idx rest r h = absurd r
    frame_lem (Frame.sequence fs) room idx rest r h = absurd r
    frame_lem (Frame.versioned n f) room idx rest r h = absurd r

    items_lem :
        (fs : Frames) (room idx : ℕ) (rest : List ℕ)
        → AreReadable fs room
        → drop idx input ≡ wire_items fs ++ rest
        → describe_items (describe_frame_at c input room) (items_len fs) idx
          ≡ pure (descs_of fs idx, idx + length (wire_items fs))
    items_lem Frames.nil room idx rest r h = items_none (describe_frame_at c input room) idx
    items_lem (Frames.cons f fs) room idx rest r h =
        let h' = h ∙ append_assoc (wire f) (wire_items fs) rest in
        items_step c input f fs room idx (frame_lem f room idx (wire_items fs ++ rest) r.0 h')
          (items_lem fs room (idx + length (wire f)) rest r.1 (drop_after input idx (wire f) _ h'))

    entries_lem :
        (es : Entries) (room idx : ℕ) (rest : List ℕ)
        → AreReadableEntries es room
        → drop idx input ≡ wire_entries es ++ rest
        → describe_entries (describe_frame_at c input room) (entries_len es) idx
          ≡ pure (pairs_of es idx, idx + length (wire_entries es))
    entries_lem Entries.end room idx rest r h = entries_none (describe_frame_at c input room) idx
    entries_lem (Entries.entry k v es) room idx rest r h =
        let h' = h ∙ append_assoc (wire k) (wire v ++ wire_entries es) rest in
        let h'' =
          drop_after input idx (wire k) _ h' ∙ append_assoc (wire v) (wire_entries es) rest in
        entries_step c input k v es room idx (frame_lem k room idx _ r.0 h')
          (frame_lem v room (idx + length (wire k)) _ r.1 h'')
          (entries_lem es room (idx + length (wire k) + length (wire v)) rest r.2
            (drop_after input (idx + length (wire k)) (wire v) _ h''))
