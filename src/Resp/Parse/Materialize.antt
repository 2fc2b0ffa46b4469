-- ===== src/Resp/Parse/Materialize.antt =====
-- The second phase of the parser of parse.rs builds the frame from its description.
use ratatosk.Prelude.{
  ℕ, zero, suc, ◌+◌, ◌≡◌, refl, ap, ap₂, ◌∙◌, none, some, List, [], ◌∷◌, ◌++◌, length, drop, arith,
  take-drop_front, drop_after, append_assoc,
}
use ratatosk.Prelude.Int.{pos}
use ratatosk.Prelude.Decimal.{decimal_ℤ}
use ratatosk.Resp.Encode.{crlf}
use ratatosk.Resp.Encode.Wire.{wire, wire_items, wire_entries}
use ratatosk.Resp.Line.{slice}
use ratatosk.Resp.Frame.{Frame, Frames, Entries, items_len, entries_len}
use ratatosk.Resp.Parse.{materialize, materialize_items, materialize_entries}
use ratatosk.Resp.Parse.Plain.{replace_break-plain}
use ratatosk.Resp.Parse.Readable.{IsReadable, AreReadable, AreReadableEntries, entry_eq}
use ratatosk.Resp.Parse.Pieces.{header_size, desc_of, descs_of, pairs_of}

-- A part of the frozen bytes behind a type byte and a line.
slice_lem :
    (frozen front back : List ℕ) (idx : ℕ)
    → drop idx frozen ≡ front ++ back
    → slice frozen idx (length front) ≡ front
slice_lem frozen front back idx h = take-drop_front frozen idx front back h

aggregate_there :
    (frozen : List ℕ) (b : ℕ) (line body rest : List ℕ) (idx : ℕ)
    → drop idx frozen ≡ (b ∷ (line ++ (crlf ++ body))) ++ rest
    → drop (idx + 1 + (length line + 2)) frozen ≡ body ++ rest
aggregate_there frozen b line body rest idx h =
    ap (λ k. drop k frozen) (omega arith)
    ∙ drop_after frozen (idx + 1 + length line) crlf (body ++ rest) (
        drop_after frozen (idx + 1) line _
          (drop_after frozen idx (b ∷ []) _ h ∙ append_assoc line (crlf ++ body) rest))

bulk_there :
    (frozen v rest : List ℕ) (idx : ℕ)
    → drop idx frozen ≡ wire (Frame.bulk_string (some v)) ++ rest
    → drop (idx + header_size (length v)) frozen ≡ v ++ (crlf ++ rest)
unfolding wire
bulk_there frozen v rest idx h =
    ap (λ k. drop k frozen) (omega arith)
    ∙ aggregate_there frozen b'$' (decimal_ℤ (pos (length v))) (v ++ crlf) rest idx h
    ∙ append_assoc v crlf rest

mutual
  unfolding materialize desc_of wire

  pub materialize_lem :
      (f : Frame) (frozen : List ℕ) (room idx : ℕ) (rest : List ℕ)
      → IsReadable f room
      → drop idx frozen ≡ wire f ++ rest
      → materialize frozen (desc_of f idx) ≡ f
  materialize_lem (Frame.simple_string v) frozen room idx rest r h =
      let h' = rw (replace_break-plain v r) at h in
      ap Frame.simple_string (
        slice_lem frozen v _ (idx + 1)
          (drop_after frozen idx (b'+' ∷ []) _ h' ∙ append_assoc v crlf rest))
  materialize_lem (Frame.error v) frozen room idx rest r h =
      let h' = rw (replace_break-plain v r) at h in
      ap Frame.error (
        slice_lem frozen v _ (idx + 1)
          (drop_after frozen idx (b'-' ∷ []) _ h' ∙ append_assoc v crlf rest))
  materialize_lem (Frame.integer z) frozen room idx rest r h = refl
  materialize_lem (Frame.bulk_string none) frozen room idx rest r h = refl
  materialize_lem (Frame.bulk_string (some v)) frozen room idx rest r h =
      ap (λ t. Frame.bulk_string (some t))
        (slice_lem frozen v (crlf ++ rest) (idx + header_size (length v))
          (bulk_there frozen v rest idx h))
  materialize_lem (Frame.array fs) frozen zero idx rest r h = absurd r
  materialize_lem (Frame.array fs) frozen (suc room) idx rest r h = ap Frame.array (
      materialize_items_lem fs frozen room _ rest r.1
        (aggregate_there frozen b'*' (decimal_ℤ (pos (items_len fs))) (wire_items fs) rest idx h))
  materialize_lem (Frame.map es) frozen zero idx rest r h = absurd r
  materialize_lem (Frame.map es) frozen (suc room) idx rest r h = ap Frame.map (
      materialize_entries_lem es frozen room _ rest r.1 (
        aggregate_there frozen b'%' (decimal_ℤ (pos (entries_len es))) (wire_entries es) rest idx
          h))
  materialize_lem Frame.null_array frozen room idx rest r h = refl
  materialize_lem Frame.null frozen room idx rest r h = refl
  materialize_lem (Frame.push fs) frozen room idx rest r h = absurd r
  materialize_lem (Frame.sequence fs) frozen room idx rest r h = absurd r
  materialize_lem (Frame.versioned n f) frozen room idx rest r h = absurd r

  materialize_items_lem :
      (fs : Frames) (frozen : List ℕ) (room idx : ℕ) (rest : List ℕ)
      → AreReadable fs room
      → drop idx frozen ≡ wire_items fs ++ rest
      → materialize_items frozen (descs_of fs idx) ≡ fs
  materialize_items_lem Frames.nil frozen room idx rest r h = refl
  materialize_items_lem (Frames.cons f fs) frozen room idx rest r h =
      let h' = h ∙ append_assoc (wire f) (wire_items fs) rest in
      ap₂ Frames.cons (materialize_lem f frozen room idx _ r.0 h') (
        materialize_items_lem fs frozen room (idx + length (wire f)) rest r.1
          (drop_after frozen idx (wire f) _ h'))

  materialize_entries_lem :
      (es : Entries) (frozen : List ℕ) (room idx : ℕ) (rest : List ℕ)
      → AreReadableEntries es room
      → drop idx frozen ≡ wire_entries es ++ rest
      → materialize_entries frozen (pairs_of es idx) ≡ es
  materialize_entries_lem Entries.end frozen room idx rest r h = refl
  materialize_entries_lem (Entries.entry k v es) frozen room idx rest r h =
      let h' = h ∙ append_assoc (wire k) (wire v ++ wire_entries es) rest in
      let h'' =
        drop_after frozen idx (wire k) _ h' ∙ append_assoc (wire v) (wire_entries es) rest in
      entry_eq (materialize_lem k frozen room idx _ r.0 h')
        (materialize_lem v frozen room (idx + length (wire k)) _ r.1 h'')
        (materialize_entries_lem es frozen room (idx + length (wire k) + length (wire v)) rest r.2
          (drop_after frozen (idx + length (wire k)) (wire v) _ h''))
