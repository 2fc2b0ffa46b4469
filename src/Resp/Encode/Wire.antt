-- ===== src/Resp/Encode/Wire.antt =====
-- The wire form of a frame, described apart from the encoder, and the projection of a logical reply
-- to a RESP version. The encoder appends exactly the wire form.
use ratatosk.Prelude.{ℕ, ◌*◌, ◌≤◌, none, some, List, [], ◌∷◌, ◌++◌, length}
use mathlib.Core.List
use ratatosk.Prelude.Int.{pos}
use ratatosk.Prelude.Decimal.{decimal_ℤ}
use ratatosk.Resp.Frame.{
  Frame, simple_string, error, integer, bulk_string, array, push, map, null_array, null, sequence,
  versioned, Frames, nil, cons, Entries, end, entry, items_len, entries_len,
}
use ratatosk.Resp.Encode.{
  RespVersion, resp2, resp3, from_protocol_version, crlf, shared_null_bulk, shared_null_array,
  shared_null, replace_break, max_usize,
}

unfoldable mutual
  pub wire : Frame → List ℕ
  wire (simple_string v) = b'+' ∷ (List.map replace_break v ++ crlf)
  wire (error v) = b'-' ∷ (List.map replace_break v ++ crlf)
  wire (integer z) = b':' ∷ (decimal_ℤ z ++ crlf)
  wire (bulk_string none) = shared_null_bulk
  wire (bulk_string (some v)) = b'$' ∷ (decimal_ℤ (pos (length v)) ++ (crlf ++ (v ++ crlf)))
  wire (array fs) = b'*' ∷ (decimal_ℤ (pos (items_len fs)) ++ (crlf ++ wire_items fs))
  wire (push fs) = b'>' ∷ (decimal_ℤ (pos (items_len fs)) ++ (crlf ++ wire_items fs))
  wire (map es) = b'%' ∷ (decimal_ℤ (pos (entries_len es)) ++ (crlf ++ wire_entries es))
  wire null_array = shared_null_array
  wire null = shared_null
  wire (sequence fs) = wire_items fs
  wire (versioned n f) = wire f

  pub wire_items : Frames → List ℕ
  wire_items nil = []
  wire_items (cons f fs) = wire f ++ wire_items fs

  pub wire_entries : Entries → List ℕ
  wire_entries end = []
  wire_entries (entry k v es) = wire k ++ (wire v ++ wire_entries es)

abbrev pub null_reply : RespVersion → Frame
null_reply resp2 = bulk_string none
null_reply resp3 = null

abbrev pub null_array_reply : RespVersion → Frame
null_array_reply resp2 = null_array
null_array_reply resp3 = null

abbrev pub push_reply : RespVersion → Frames → Frame
push_reply resp2 = array
push_reply resp3 = push

abbrev pub map_reply : RespVersion → Entries → Frames → Frame
map_reply resp2 es flat = array flat
map_reply resp3 es flat = map es

-- What a client of version `v` is sent: RESP2 has no null, push or map of its own, and RESP3 one
-- null. A `versioned` part keeps the version that it was fixed at.
unfoldable mutual
  pub project : Frame → RespVersion → Frame
  project (versioned n f) v = project f (from_protocol_version n)
  project (bulk_string none) v = null_reply v
  project null v = null_reply v
  project null_array v = null_array_reply v
  project (array fs) v = array (project_items fs v)
  project (push fs) v = push_reply v (project_items fs v)
  project (map es) v = map_reply v (project_entries es v) (project_flat es v)
  project (sequence fs) v = sequence (project_items fs v)
  project f v = f

  pub project_items : Frames → RespVersion → Frames
  project_items nil v = nil
  project_items (cons f fs) v = cons (project f v) (project_items fs v)

  pub project_entries : Entries → RespVersion → Entries
  project_entries end v = end
  project_entries (entry k w es) v = entry (project k v) (project w v) (project_entries es v)

  pub project_flat : Entries → RespVersion → Frames
  project_flat end v = nil
  project_flat (entry k w es) v = cons (project k v) (cons (project w v) (project_flat es v))

-- The frame with each `versioned` part projected, which is what `encode` sends.
unfoldable mutual
  unfolding project

  pub resolve : Frame → Frame
  resolve (versioned n f) = project f (from_protocol_version n)
  resolve (array fs) = array (resolve_items fs)
  resolve (push fs) = push (resolve_items fs)
  resolve (map es) = map (resolve_entries es)
  resolve (sequence fs) = sequence (resolve_items fs)
  resolve f = f

  pub resolve_items : Frames → Frames
  resolve_items nil = nil
  resolve_items (cons f fs) = cons (resolve f) (resolve_items fs)

  pub resolve_entries : Entries → Entries
  resolve_entries end = end
  resolve_entries (entry k w es) = entry (resolve k) (resolve w) (resolve_entries es)

-- Twice the number of entries of each map is a `usize`.
abbrev mutual
  pub IsSized : Frame → Type 0
  IsSized (array fs) = AreSized fs
  IsSized (push fs) = AreSized fs
  IsSized (sequence fs) = AreSized fs
  IsSized (map es) = (entries_len es * 2 ≤ max_usize) × AreSizedEntries es
  IsSized (versioned n f) = IsSized f
  IsSized f = Unit

  pub AreSized : Frames → Type 0
  AreSized nil = Unit
  AreSized (cons f fs) = IsSized f × AreSized fs

  pub AreSizedEntries : Entries → Type 0
  AreSizedEntries end = Unit
  AreSizedEntries (entry k v es) = IsSized k × IsSized v × AreSizedEntries es
