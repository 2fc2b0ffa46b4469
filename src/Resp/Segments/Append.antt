-- ===== src/Resp/Segments/Append.antt =====
-- The encoder of encode.rs only appends: what it writes does not depend on what stands before it.
use ratatosk.Prelude.{
  ℕ, ◌≡◌, refl, sym, ap, ◌∙◌, none, some, List, [], ◌++◌, append-nil, append_assoc,
}
use ratatosk.Resp.Crates.{Crates}
use ratatosk.Resp.Frame.{
  Frame, simple_string, error, integer, bulk_string, array, push, map, null_array, null, sequence,
  versioned, Frames, nil, cons, Entries, end, entry, items_len, entries_len,
}
use ratatosk.Resp.Encode.{
  RespVersion, resp2, resp3, from_protocol_version, push_marker, map_header, sat_mul,
  write_aggregate_header, encode_leaf, encode_for_version_into, encode_items_for,
  encode_entries_for,
}
use ratatosk.Resp.Encode.Leaf.{encode_leaf_lem, IsLeaf}

-- A function that only appends, behind what has been written.
behind :
    (g : List ℕ → List ℕ) (out xs ys : List ℕ)
    → ((o : List ℕ) → g o ≡ o ++ g [])
    → xs ≡ out ++ ys
    → g xs ≡ out ++ g ys
behind g out xs ys only e =
    only xs
    ∙ ap (λ t. t ++ g []) e
    ∙ append_assoc out ys (g [])
    ∙ ap (λ t. out ++ t) (sym (only ys))

module _ (c : Crates) where
  pub header_append :
      (marker n : ℕ) (out : List ℕ)
      → write_aggregate_header c marker n out ≡ out ++ write_aggregate_header c marker n []
  unfolding write_aggregate_header
  header_append marker n out = simp append_assoc

  pub map_header_append :
      (v : RespVersion) (n : ℕ) (out : List ℕ) → map_header c v n out ≡ out ++ map_header c v n []
  map_header_append resp2 n out = header_append b'*' (sat_mul n 2) out
  map_header_append resp3 n out = header_append b'%' n out

  leaf_append :
      (f : Frame) (out : List ℕ) → IsLeaf f → encode_leaf c f out ≡ out ++ encode_leaf c f []
  leaf_append f out h =
      encode_leaf_lem c f out h ∙ ap (λ t. out ++ t) (sym (encode_leaf_lem c f [] h))

  mutual
    unfolding encode_for_version_into

    pub frame_append :
        (f : Frame) (v : RespVersion) (out : List ℕ)
        → encode_for_version_into c f v out ≡ out ++ encode_for_version_into c f v []
    frame_append (versioned n f) v out = frame_append f (from_protocol_version n) out
    frame_append (bulk_string none) v out = refl
    frame_append null v out = refl
    frame_append null_array v out = refl
    frame_append (array fs) v out =
        behind (encode_items_for c fs v) out _ _ (λ o. items_append fs v o)
          (header_append b'*' (items_len fs) out)
    frame_append (push fs) v out =
        behind (encode_items_for c fs v) out _ _ (λ o. items_append fs v o)
          (header_append (push_marker v) (items_len fs) out)
    frame_append (map es) v out =
        behind (encode_entries_for c es v) out _ _ (λ o. entries_append es v o)
          (map_header_append v (entries_len es) out)
    frame_append (sequence fs) v out = items_append fs v out
    frame_append (simple_string s) v out = leaf_append (simple_string s) out tt
    frame_append (error s) v out = leaf_append (error s) out tt
    frame_append (integer z) v out = leaf_append (integer z) out tt
    frame_append (bulk_string (some s)) v out = leaf_append (bulk_string (some s)) out tt

    pub items_append :
        (fs : Frames) (v : RespVersion) (out : List ℕ)
        → encode_items_for c fs v out ≡ out ++ encode_items_for c fs v []
    items_append nil v out = sym (append-nil out)
    items_append (cons f fs) v out =
        behind (encode_items_for c fs v) out _ _ (λ o. items_append fs v o) (frame_append f v out)

    pub entries_append :
        (es : Entries) (v : RespVersion) (out : List ℕ)
        → encode_entries_for c es v out ≡ out ++ encode_entries_for c es v []
    entries_append end v out = sym (append-nil out)
    entries_append (entry k w es) v out =
        behind (encode_entries_for c es v) out _ _ (λ o. entries_append es v o)
          (behind (encode_for_version_into c w v) out _ _ (λ o. frame_append w v o)
            (frame_append k v out))
