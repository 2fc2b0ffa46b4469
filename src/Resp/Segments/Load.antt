-- ===== src/Resp/Segments/Load.antt =====
-- How much work a reply in pieces has left.
use ratatosk.Prelude.{
  ℕ, ◌+◌, ◌*◌, ◌≤◌, arith, min, none, some, List, [], ◌∷◌, ◌++◌, length, length-append, leb,
  Bool-cases, inl, inr,
}
use ratatosk.Resp.Crates.{Crates}
use ratatosk.Resp.Frame.{
  Frame, simple_string, error, integer, bulk_string, array, push, map, null_array, null, sequence,
  versioned, Frames, nil, cons, Entries, end, entry,
}
use ratatosk.Prelude.Int.{pos}
use ratatosk.Resp.Encode.{RespVersion, crlf}
use ratatosk.Resp.Segments.{
  Pending, one, items, entries, ReplySegments, queue, share, step, perform,
}

abbrev mutual
  pub weight : Frame → ℕ
  weight (versioned n f) = 1 + weight f
  weight (array fs) = 1 + items_weight fs
  weight (push fs) = 1 + items_weight fs
  weight (map es) = 1 + entries_weight es
  weight (sequence fs) = 1 + items_weight fs
  weight f = 1

  pub items_weight : Frames → ℕ
  items_weight nil = 1
  items_weight (cons f fs) = 1 + weight f + items_weight fs

  pub entries_weight : Entries → ℕ
  entries_weight end = 1
  entries_weight (entry k w es) = 1 + weight k + weight w + entries_weight es

abbrev pub work_weight : Pending → ℕ
work_weight (one f v) = weight f
work_weight (items fs v) = items_weight fs
work_weight (entries es v) = entries_weight es

abbrev pub stack_weight : List Pending → ℕ
stack_weight [] = 0
stack_weight (work ∷ rest) = work_weight work + stack_weight rest

-- The rounds that are left at most.
abbrev pub load : ReplySegments → ℕ
load s = 4 * stack_weight s.pending + length s.ready + min (length s.buf) 1

module _ (c : Crates) where
  load-share : (value : List ℕ) (s : ReplySegments) → load (share c value s) + 1 ≤ 4 + load s
  load-share value s = omega (
    arith,
    length-append s.ready
        (((s.buf ++ (b'$' ∷ [])) ++ c.format (pos (length value)) ++ crlf) ∷ value ∷ []),
  )

  pub load-step :
      (f : Frame) (v : RespVersion) (s : ReplySegments)
      → load (step c f v s) + 1 ≤ 4 * weight f + load s
  unfolding step
  load-step (versioned n f) v s = omega arith
  load-step (array fs) v s = omega arith
  load-step (push fs) v s = omega arith
  load-step (map es) v s = omega arith
  load-step (sequence fs) v s = omega arith
  load-step (simple_string t) v s = omega arith
  load-step (error t) v s = omega arith
  load-step (integer z) v s = omega arith
  load-step (bulk_string none) v s = omega arith
  load-step (bulk_string (some value)) v s =
      elim (Bool-cases (leb s.zero_copy_min (length value))) [
        | inl h ↦ rw h (load-share value s)
        | inr h ↦ rw h (omega arith)
      ]
  load-step null_array v s = omega arith
  load-step null v s = omega arith

  pub load-perform :
      (work : Pending) (s : ReplySegments)
      → load (perform c work s) + 1 ≤ 4 * work_weight work + load s
  unfolding perform
  load-perform (one f v) s = load-step f v s
  load-perform (items nil v) s = omega arith
  load-perform (items (cons f fs) v) s = omega (arith, load-step f v (queue (items fs v) s.buf s))
  load-perform (entries end v) s = omega arith
  load-perform (entries (entry k w es) v) s =
      omega (arith, load-step k v (queue (one w v) s.buf (queue (entries es v) s.buf s)))
