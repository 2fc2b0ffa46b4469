-- ===== src/Resp/Frame.antt =====
-- Reply and request frames, crates/ratatosk-resp/src/frame.rs. Bytes are lists of numbers.
use ratatosk.Prelude.{ℕ, suc, List, Option}
use ratatosk.Prelude.Int.{ℤ}

mutual
  -- `RespFrame`; `Vec<RespFrame>` and `Vec<(RespFrame, RespFrame)>` are the two lists below.
  pub data Frame : Type 0 where
    simple_string : List ℕ → Frame
    error : List ℕ → Frame
    integer : ℤ → Frame
    bulk_string : Option (List ℕ) → Frame
    array : Frames → Frame
    push : Frames → Frame
    map : Entries → Frame
    null_array : Frame
    null : Frame
    sequence : Frames → Frame
    versioned : ℤ → Frame → Frame

  pub data Frames : Type 0 where
    nil : Frames
    cons : Frame → Frames → Frames

  pub data Entries : Type 0 where
    end : Entries
    entry : Frame → Frame → Entries → Entries

abbrev pub items_len : Frames → ℕ
items_len nil = 0
items_len (cons f fs) = suc (items_len fs)

abbrev pub entries_len : Entries → ℕ
entries_len end = 0
entries_len (entry k v es) = suc (entries_len es)
