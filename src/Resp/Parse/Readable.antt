-- ===== src/Resp/Parse/Readable.antt =====
-- The frames that the encoder writes and the parser accepts.
use ratatosk.Prelude.{ℕ, zero, suc, ◌≤◌, ◌≡◌, refl, ap, ap₂, none, some, length, arith}
use ratatosk.Prelude.Decimal.{IsI64}
use ratatosk.Resp.Encode.Wire.{
  resolve, resolve_items, resolve_entries, IsSized, AreSized, AreSizedEntries,
}
use ratatosk.Resp.Frame.{Frame, Frames, Entries, items_len, entries_len}
use ratatosk.Resp.Parse.{max_array_elements, max_map_entries, max_bulk_length}
use ratatosk.Resp.Parse.Plain.{PlainLine}

-- What the parser accepts of the frames that the encoder writes: lines without CR and LF, numbers of
-- 64 bits, lengths within the limits, and at most `room` levels of arrays and maps.
abbrev mutual
  pub IsReadable : Frame → ℕ → Type 0
  IsReadable (Frame.simple_string v) room = PlainLine v
  IsReadable (Frame.error v) room = PlainLine v
  IsReadable (Frame.integer z) room = IsI64 z
  IsReadable (Frame.bulk_string none) room = Unit
  IsReadable (Frame.bulk_string (some v)) room = length v ≤ max_bulk_length
  IsReadable (Frame.array fs) zero = ⊥
  IsReadable (Frame.array fs) (suc room) = (items_len fs ≤ max_array_elements) × AreReadable fs room
  IsReadable (Frame.map es) zero = ⊥
  IsReadable (Frame.map es) (suc room) =
      (entries_len es ≤ max_map_entries) × AreReadableEntries es room
  IsReadable Frame.null_array zero = ⊥
  IsReadable Frame.null_array (suc room) = Unit
  IsReadable Frame.null room = Unit
  IsReadable (Frame.push fs) room = ⊥
  IsReadable (Frame.sequence fs) room = ⊥
  IsReadable (Frame.versioned n f) room = ⊥

  pub AreReadable : Frames → ℕ → Type 0
  AreReadable Frames.nil room = Unit
  AreReadable (Frames.cons f fs) room = IsReadable f room × AreReadable fs room

  pub AreReadableEntries : Entries → ℕ → Type 0
  AreReadableEntries Entries.end room = Unit
  AreReadableEntries (Entries.entry k v es) room =
      IsReadable k room × IsReadable v room × AreReadableEntries es room

pub entry_eq :
    {k k' v v' : Frame} {es es' : Entries}
    → k ≡ k'
    → v ≡ v'
    → es ≡ es'
    → Entries.entry k v es ≡ Entries.entry k' v' es'
entry_eq hk hv he = cc

mutual
  unfolding resolve

  pub resolve_readable : (f : Frame) (room : ℕ) → IsReadable f room → (resolve f ≡ f) × IsSized f
  resolve_readable (Frame.simple_string v) room r = (refl, tt)
  resolve_readable (Frame.error v) room r = (refl, tt)
  resolve_readable (Frame.integer z) room r = (refl, tt)
  resolve_readable (Frame.bulk_string v) room r = (refl, tt)
  resolve_readable (Frame.array fs) zero r = absurd r
  resolve_readable (Frame.array fs) (suc room) r =
      let (e, s) = resolve_readable_items fs room r.1 in (ap Frame.array e, s)
  resolve_readable (Frame.map es) zero r = absurd r
  resolve_readable (Frame.map es) (suc room) r =
      let (e, s) = resolve_readable_entries es room r.1 in (ap Frame.map e, (omega arith, s))
  resolve_readable Frame.null_array room r = (refl, tt)
  resolve_readable Frame.null room r = (refl, tt)
  resolve_readable (Frame.push fs) room r = absurd r
  resolve_readable (Frame.sequence fs) room r = absurd r
  resolve_readable (Frame.versioned n f) room r = absurd r

  resolve_readable_items :
      (fs : Frames) (room : ℕ) → AreReadable fs room → (resolve_items fs ≡ fs) × AreSized fs
  resolve_readable_items Frames.nil room r = (refl, tt)
  resolve_readable_items (Frames.cons f fs) room r =
      let (e, s) = resolve_readable f room r.0 in
      let (es, ss) = resolve_readable_items fs room r.1 in (ap₂ Frames.cons e es, (s, ss))

  resolve_readable_entries :
      (es : Entries) (room : ℕ)
      → AreReadableEntries es room
      → (resolve_entries es ≡ es) × AreSizedEntries es
  resolve_readable_entries Entries.end room r = (refl, tt)
  resolve_readable_entries (Entries.entry k v es) room r =
      let (ek, sk) = resolve_readable k room r.0 in
      let (ev, sv) = resolve_readable v room r.1 in
      let (ee, se) = resolve_readable_entries es room r.2 in (entry_eq ek ev ee, (sk, sv, se))
