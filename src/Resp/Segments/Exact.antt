-- ===== src/Resp/Segments/Exact.antt =====
-- The pieces of `ReplySegments` of encode.rs, joined, are the whole encoding.
use mathlib.Core.Path.{subst}
use ratatosk.Prelude.{
  ℕ, zero, suc, ◌*◌, ◌<◌, ◌≡◌, refl, sym, ap, ◌∙◌, arith, nil_of_length, Option, none, some, List,
  [], ◌∷◌, ◌++◌, append-nil, append_assoc, length, leb, ◌==◌, Bool-cases, inl, inr,
}
use ratatosk.Prelude.Int.{pos}
use ratatosk.Prelude.Decimal.{decimal_ℤ}
use ratatosk.Resp.Crates.{Crates}
use ratatosk.Resp.Frame.{
  Frame, simple_string, error, integer, bulk_string, array, push, map, null_array, null, sequence,
  versioned, nil, cons, end, entry, items_len, entries_len,
}
use ratatosk.Resp.Encode.{
  RespVersion, crlf, push_marker, map_header, write_aggregate_header, encode_for_version_into,
  encode_items_for, encode_entries_for, encode_for_version,
}
use ratatosk.Resp.Encode.Wire.{wire}
use ratatosk.Resp.Encode.Leaf.{encode_leaf_lem}
use ratatosk.Resp.Segments.{
  Pending, one, items, entries, ReplySegments, new, Round, piece, again, done, queue, share, step,
  perform, flush, take_work, pop_ready, round, add_piece, continue_with, pieces,
}
use ratatosk.Resp.Segments.Append.{
  header_append, map_header_append, frame_append, items_append, entries_append,
}
use ratatosk.Resp.Segments.Load.{weight, stack_weight, load, load-perform}

unfoldable pub joined : List (List ℕ) → List ℕ
joined [] = []
joined (p ∷ ps) = p ++ joined ps

joined-append :
    (ps : List (List ℕ)) (p q : List ℕ) → joined (ps ++ (p ∷ q ∷ [])) ≡ joined ps ++ (p ++ q)
unfolding joined
joined-append [] p q = ap (λ t. p ++ t) (append-nil q)
joined-append (x ∷ ps) p q =
    ap (λ t. x ++ t) (joined-append ps p q) ∙ sym (append_assoc x (joined ps) (p ++ q))

-- The pieces that a run gives.
abbrev pub Gives : List ℕ → Option (List (List ℕ)) → Type 0
Gives bytes none = ⊥
Gives bytes (some ps) = joined ps ≡ bytes

add_piece-Gives :
    (p bytes whole : List ℕ) (o : Option (List (List ℕ)))
    → Gives bytes o
    → whole ≡ p ++ bytes
    → Gives whole (add_piece p o)
unfolding joined
add_piece-Gives p bytes whole none g e = g
add_piece-Gives p bytes whole (some ps) g e = ap (λ t. p ++ t) g ∙ sym e

module _ (c : Crates) where
  -- The bytes that are still to come.
  abbrev work_bytes : Pending → List ℕ
  work_bytes (one f v) = encode_for_version_into c f v []
  work_bytes (items fs v) = encode_items_for c fs v []
  work_bytes (entries es v) = encode_entries_for c es v []

  abbrev stack_bytes : List Pending → List ℕ
  stack_bytes [] = []
  stack_bytes (work ∷ rest) = work_bytes work ++ stack_bytes rest

  abbrev rest_of : ReplySegments → List ℕ
  rest_of s = joined s.ready ++ (s.buf ++ stack_bytes s.pending)

  -- With `xs` written between the buffer and the pending work.
  abbrev rest_with : List ℕ → ReplySegments → List ℕ
  rest_with xs s = joined s.ready ++ (s.buf ++ (xs ++ stack_bytes s.pending))

  -- A header in the buffer and the work behind it.
  header_rest :
      (work : Pending) (xs header : List ℕ) (buf : List ℕ) (s : ReplySegments)
      → buf ≡ s.buf ++ header
      → xs ≡ header ++ work_bytes work
      → rest_of (queue work buf s) ≡ rest_with xs s
  header_rest work xs header buf s e f = rw (e, f) (simp append_assoc)

  leaf_rest :
      (f : Frame) (v : RespVersion) (s : ReplySegments)
      → rest_of (record s { buf = encode_for_version_into c f v s.buf })
        ≡ rest_with (encode_for_version_into c f v []) s
  leaf_rest f v s = rw (frame_append c f v s.buf) (simp append_assoc)

  shared_wire :
      (value : List ℕ) (v : RespVersion)
      → encode_for_version_into c (bulk_string (some value)) v []
        ≡ b'$' ∷ (decimal_ℤ (pos (length value)) ++ (crlf ++ (value ++ crlf)))
  unfolding encode_for_version_into wire
  shared_wire value v = encode_leaf_lem c (bulk_string (some value)) [] tt

  share_rest :
      (value : List ℕ) (v : RespVersion) (s : ReplySegments)
      → rest_of (share c value s)
        ≡ rest_with (encode_for_version_into c (bulk_string (some value)) v []) s
  share_rest value v s =
      rw
        (
          joined-append s.ready ((s.buf ++ (b'$' ∷ [])) ++ c.format (pos (length value)) ++ crlf)
              value,
          shared_wire value v,
          c.format_lem,
        )
        (simp append_assoc)

  step_rest :
      (f : Frame) (v : RespVersion) (s : ReplySegments)
      → rest_of (step c f v s) ≡ rest_with (encode_for_version_into c f v []) s
  unfolding step encode_for_version_into
  step_rest (versioned n f) v s = refl
  step_rest (array fs) v s =
      header_rest (items fs v) _ _ _ s (header_append c b'*' (items_len fs) s.buf)
        (items_append c fs v (write_aggregate_header c b'*' (items_len fs) []))
  step_rest (push fs) v s =
      header_rest (items fs v) _ _ _ s (header_append c (push_marker v) (items_len fs) s.buf)
        (items_append c fs v (write_aggregate_header c (push_marker v) (items_len fs) []))
  step_rest (map es) v s =
      header_rest (entries es v) _ _ _ s (map_header_append c v (entries_len es) s.buf)
        (entries_append c es v (map_header c v (entries_len es) []))
  step_rest (sequence fs) v s = refl
  step_rest (simple_string t) v s = leaf_rest (simple_string t) v s
  step_rest (error t) v s = leaf_rest (error t) v s
  step_rest (integer z) v s = leaf_rest (integer z) v s
  step_rest (bulk_string none) v s = leaf_rest (bulk_string none) v s
  step_rest (bulk_string (some value)) v s =
      elim (Bool-cases (leb s.zero_copy_min (length value))) [
        | inl h ↦ rw h (share_rest value v s)
        | inr h ↦ rw h (leaf_rest (bulk_string (some value)) v s)
      ]
  step_rest null_array v s = leaf_rest null_array v s
  step_rest null v s = leaf_rest null v s

  perform_rest :
      (work : Pending) (s : ReplySegments)
      → rest_of (perform c work s) ≡ rest_with (work_bytes work) s
  unfolding perform encode_for_version_into
  perform_rest (one f v) s = step_rest f v s
  perform_rest (items nil v) s = refl
  perform_rest (items (cons f fs) v) s =
      step_rest f v (queue (items fs v) s.buf s)
      ∙ rw (items_append c fs v (encode_for_version_into c f v [])) (simp append_assoc)
  perform_rest (entries end v) s = refl
  perform_rest (entries (entry k w es) v) s =
      step_rest k v (queue (one w v) s.buf (queue (entries es v) s.buf s))
      ∙ rw
          (
            entries_append c es v
                (encode_for_version_into c w v (encode_for_version_into c k v [])),
            frame_append c w v (encode_for_version_into c k v []),
          )
          (simp append_assoc)

  -- A round gives the first of the bytes that are to come, and leaves less work.
  abbrev Progress : ReplySegments → Round → Type 0
  Progress s done = rest_of s ≡ []
  Progress s (again s') = (rest_of s ≡ rest_of s') × (load s' < load s) × (0 < s'.chunk_bytes)
  Progress s (piece p s') =
      (rest_of s ≡ p ++ rest_of s') × (load s' < load s) × (0 < s'.chunk_bytes)

  step_chunk :
      (f : Frame) (v : RespVersion) (s : ReplySegments) → (step c f v s).chunk_bytes ≡ s.chunk_bytes
  unfolding step
  step_chunk (bulk_string (some value)) v s =
      elim (Bool-cases (leb s.zero_copy_min (length value))) [
        | inl h ↦ rw h refl
        | inr h ↦ rw h refl
      ]
  step_chunk f v s = refl

  perform_chunk :
      (work : Pending) (s : ReplySegments) → (perform c work s).chunk_bytes ≡ s.chunk_bytes
  unfolding perform
  perform_chunk (one f v) s = step_chunk f v s
  perform_chunk (items nil v) s = refl
  perform_chunk (items (cons f fs) v) s = step_chunk f v (queue (items fs v) s.buf s)
  perform_chunk (entries end v) s = refl
  perform_chunk (entries (entry k w es) v) s =
      step_chunk k v (queue (one w v) s.buf (queue (entries es v) s.buf s))

  flush-Progress :
      (s : ReplySegments)
      → s.ready ≡ []
      → 0 < length s.buf
      → 0 < s.chunk_bytes
      → Progress s (flush c s)
  unfolding joined
  flush-Progress s r full pos_chunk = (rw r refl, omega arith, pos_chunk)

  take_work-Progress :
      (s : ReplySegments) (stack : List Pending)
      → s.ready ≡ []
      → s.pending ≡ stack
      → 0 < s.chunk_bytes
      → Progress s (take_work c s stack)
  unfolding joined
  take_work-Progress s [] r e pos_chunk = elim (Bool-cases (length s.buf == 0)) [
    | inl h ↦ rw h (rw (r, e, nil_of_length s.buf (ground arith)) refl)
    | inr h ↦ rw h (flush-Progress s r (ground arith) pos_chunk)
  ]
  take_work-Progress s (work ∷ rest) r e pos_chunk = (
    ap (λ st. joined s.ready ++ (s.buf ++ stack_bytes st)) e
        ∙ sym (perform_rest work (record s { pending = rest })),
    omega (arith, load-perform c work (record s { pending = rest }), ap stack_weight e),
    omega (arith, perform_chunk work (record s { pending = rest })),
  )

  pop_ready-Progress :
      (s : ReplySegments) (ready : List (List ℕ))
      → s.ready ≡ ready
      → 0 < s.chunk_bytes
      → Progress s (pop_ready c s ready)
  unfolding joined
  pop_ready-Progress s (p ∷ ps) r pos_chunk = (
    ap (λ x. joined x ++ (s.buf ++ stack_bytes s.pending)) r
        ∙ append_assoc p (joined ps) (s.buf ++ stack_bytes s.pending),
    omega (arith, ap length r),
    pos_chunk,
  )
  pop_ready-Progress s [] r pos_chunk = elim (Bool-cases (leb s.chunk_bytes (length s.buf))) [
    | inl h ↦ rw h (flush-Progress s r (ground (arith, h)) pos_chunk)
    | inr h ↦ rw h (take_work-Progress s s.pending r refl pos_chunk)
  ]

  round-Progress : (s : ReplySegments) → 0 < s.chunk_bytes → Progress s (round c s)
  unfolding round
  round-Progress s pos_chunk = pop_ready-Progress s s.ready refl pos_chunk

  continue-Gives :
      (fuel : ℕ) (s : ReplySegments) (r : Round)
      → ((s' : ReplySegments)
          → load s' < fuel
          → 0 < s'.chunk_bytes
          → Gives (rest_of s') (pieces c fuel s'))
      → Progress s r
      → load s < suc fuel
      → Gives (rest_of s) (continue_with (λ s'. pieces c fuel s') r)
  unfolding joined
  continue-Gives fuel s done next e h = sym e
  continue-Gives fuel s (again s') next (e, less, pos_chunk) h =
      subst (λ b. Gives b (pieces c fuel s')) (sym e) (next s' (omega arith) pos_chunk)
  continue-Gives fuel s (piece p s') next (e, less, pos_chunk) h =
      add_piece-Gives p (rest_of s') (rest_of s) (pieces c fuel s')
        (next s' (omega arith) pos_chunk) e

  pieces-Gives :
      (fuel : ℕ) (s : ReplySegments)
      → load s < fuel
      → 0 < s.chunk_bytes
      → Gives (rest_of s) (pieces c fuel s)
  unfolding pieces
  pieces-Gives zero s h pos_chunk = absurd (omega arith)
  pieces-Gives (suc fuel) s h pos_chunk =
      continue-Gives fuel s (round c s) (λ s' l q. pieces-Gives fuel s' l q)
        (round-Progress s pos_chunk) h

  -- A reply in pieces comes to an end within four rounds for each part of the frame, and its pieces,
  -- joined, are the bytes of `encode_for_version`, whatever the sizes for chunks and shared values.
  pub pieces-encode_for_version :
      (f : Frame) (v : RespVersion) (chunk_bytes zero_copy_min : ℕ)
      → Gives
          (encode_for_version c f v)
          (pieces c (suc (4 * weight f)) (new f v chunk_bytes zero_copy_min))
  unfolding encode_for_version new joined
  pieces-encode_for_version f v chunk_bytes zero_copy_min =
      subst (λ b. Gives b (pieces c (suc (4 * weight f)) (new f v chunk_bytes zero_copy_min)))
        (append-nil (encode_for_version_into c f v []))
        (pieces-Gives (suc (4 * weight f)) (new f v chunk_bytes zero_copy_min) (omega arith)
          (omega arith))
