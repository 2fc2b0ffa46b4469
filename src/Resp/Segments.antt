-- ===== src/Resp/Segments.antt =====
-- Replies as bounded pieces, `ReplySegments` of crates/ratatosk-resp/src/encode.rs. The stack and the
-- iterators on it are lists; the innermost work comes first.
pub mod Append
pub mod Load
pub mod Exact
use ratatosk.Prelude.{
  ℕ, zero, suc, ◌+◌, ◌*◌, max, Option, none, some, List, [], ◌∷◌, ◌++◌, if◌then◌else◌, leb, ◌==◌,
  length,
}
use ratatosk.Prelude.Int.{pos}
use ratatosk.Resp.Crates.{Crates}
use ratatosk.Resp.Frame.{
  Frame, simple_string, error, integer, bulk_string, array, push, map, null_array, null, sequence,
  versioned, Frames, nil, cons, Entries, end, entry, items_len, entries_len,
}
use ratatosk.Resp.Encode.{
  RespVersion, from_protocol_version, crlf, push_marker, map_header, write_aggregate_header,
  encode_for_version_into,
}

pub data Pending : Type 0 where
  one : Frame → RespVersion → Pending
  items : Frames → RespVersion → Pending
  entries : Entries → RespVersion → Pending

pub record ReplySegments : Type 0 where
  pub pending : List Pending
  pub ready : List (List ℕ)
  pub buf : List ℕ
  pub chunk_bytes : ℕ
  pub zero_copy_min : ℕ

unfoldable pub new : Frame → RespVersion → ℕ → ℕ → ReplySegments
new f v chunk_bytes zero_copy_min = record {
  pending = one f v ∷ [];
  ready = [];
  buf = [];
  chunk_bytes = max chunk_bytes 1;
  zero_copy_min = max zero_copy_min 1;
}

-- What one round of the loop of `next` comes to: a piece, another round, or the end.
pub data Round : Type 0 where
  piece : List ℕ → ReplySegments → Round
  again : ReplySegments → Round
  done : Round

abbrev pub queue : Pending → List ℕ → ReplySegments → ReplySegments
queue work buf s = record s { pending = work ∷ s.pending; buf = buf }

abbrev pub add_piece : List ℕ → Option (List (List ℕ)) → Option (List (List ℕ))
add_piece p none = none
add_piece p (some ps) = some (p ∷ ps)

abbrev pub continue_with : (ReplySegments → Option (List (List ℕ))) → Round → Option (List (List ℕ))
continue_with next done = some []
continue_with next (again s) = next s
continue_with next (piece p s) = add_piece p (next s)

module _ (c : Crates) where
  -- The arm of `step` for a bulk string of `zero_copy_min` bytes or more.
  abbrev pub share : List ℕ → ReplySegments → ReplySegments
  share value s = record s {
    ready =
        s.ready ++ (((s.buf ++ (b'$' ∷ [])) ++ c.format (pos (length value)) ++ crlf) ∷ value ∷ []);
    buf = crlf;
  }

  unfoldable pub step : Frame → RespVersion → ReplySegments → ReplySegments
  step (versioned n f) v s = queue (one f (from_protocol_version n)) s.buf s
  step (array fs) v s = queue (items fs v) (write_aggregate_header c b'*' (items_len fs) s.buf) s
  step (push fs) v s =
      queue (items fs v) (write_aggregate_header c (push_marker v) (items_len fs) s.buf) s
  step (map es) v s = queue (entries es v) (map_header c v (entries_len es) s.buf) s
  step (sequence fs) v s = queue (items fs v) s.buf s
  step (bulk_string (some value)) v s =
      if leb s.zero_copy_min (length value)
      then share value s
      else record s { buf = encode_for_version_into c (bulk_string (some value)) v s.buf }
  step f v s = record s { buf = encode_for_version_into c f v s.buf }

  -- Work taken off the stack.
  unfoldable pub perform : Pending → ReplySegments → ReplySegments
  unfolding step
  perform (one f v) s = step f v s
  perform (items nil v) s = s
  perform (items (cons f fs) v) s = step f v (queue (items fs v) s.buf s)
  perform (entries end v) s = s
  perform (entries (entry k w es) v) s =
      step k v (queue (one w v) s.buf (queue (entries es v) s.buf s))

  abbrev pub flush : ReplySegments → Round
  flush s = piece s.buf (record s { buf = [] })

  abbrev pub take_work : ReplySegments → List Pending → Round
  take_work s [] = if length s.buf == 0 then done else flush s
  take_work s (work ∷ rest) = again (perform work (record s { pending = rest }))

  abbrev pub pop_ready : ReplySegments → List (List ℕ) → Round
  pop_ready s (p ∷ ps) = piece p (record s { ready = ps })
  pop_ready s [] = if leb s.chunk_bytes (length s.buf) then flush s else take_work s s.pending

  unfoldable pub round : ReplySegments → Round
  unfolding perform
  round s = pop_ready s s.ready

  -- All pieces, by calls of `next` until it gives none; `fuel` counts the rounds of its loop.
  unfoldable pub pieces : ℕ → ReplySegments → Option (List (List ℕ))
  unfolding round
  pieces zero s = none
  pieces (suc fuel) s = continue_with (λ s'. pieces fuel s') (round s)
