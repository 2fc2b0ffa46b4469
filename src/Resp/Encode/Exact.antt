-- ===== src/Resp/Encode/Exact.antt =====
-- The encoder of crates/ratatosk-resp/src/encode.rs appends exactly the wire form of a frame.
use ratatosk.Prelude.{
  ℕ, suc, ◌*◌, ◌≤◌, ◌≡◌, refl, sym, ap, ◌∙◌, none, some, List, [], ◌∷◌, ◌++◌, arith, append-nil,
  append_assoc, Option-cases, inl, inr,
}
use ratatosk.Prelude.Int.{pos}
use ratatosk.Prelude.Decimal.{decimal_ℤ}
use ratatosk.Resp.Crates.{Crates}
use ratatosk.Resp.Frame.{
  Frame, simple_string, error, integer, bulk_string, array, push, map, null_array, null, sequence,
  versioned, Frames, nil, cons, Entries, end, entry, items_len, entries_len,
}
use ratatosk.Resp.Encode.{
  RespVersion, resp2, resp3, from_protocol_version, crlf, shared_encoding, max_usize, sat_mul,
  write_aggregate_header, encode_leaf, encode_into, encode_items, encode_entries,
  encode_for_version_into, encode_items_for, encode_entries_for, encode, encode_for_version,
  null_for, null_array_for, push_marker, map_header,
}
use ratatosk.Resp.Encode.Wire.{
  wire, wire_items, wire_entries, project, project_items, project_entries, project_flat, resolve,
  resolve_items, resolve_entries, IsSized, AreSized, AreSizedEntries, null_reply, null_array_reply,
  push_reply, map_reply,
}
use ratatosk.Resp.Encode.Leaf.{header_lem, encode_leaf_lem}

pub items_len-project :
    (fs : Frames) (v : RespVersion) → items_len (project_items fs v) ≡ items_len fs
unfolding project_items
items_len-project nil v = refl
items_len-project (cons f fs) v = ap suc (items_len-project fs v)

pub entries_len-project :
    (es : Entries) (v : RespVersion) → entries_len (project_entries es v) ≡ entries_len es
unfolding project_entries
entries_len-project end v = refl
entries_len-project (entry k w es) v = ap suc (entries_len-project es v)

pub items_len-flat :
    (es : Entries) (v : RespVersion) → items_len (project_flat es v) ≡ entries_len es * 2
unfolding project_flat
items_len-flat end v = refl
items_len-flat (entry k w es) v = omega (arith, items_len-flat es v)

pub items_len-resolve : (fs : Frames) → items_len (resolve_items fs) ≡ items_len fs
unfolding resolve_items
items_len-resolve nil = refl
items_len-resolve (cons f fs) = ap suc (items_len-resolve fs)

pub entries_len-resolve : (es : Entries) → entries_len (resolve_entries es) ≡ entries_len es
unfolding resolve_entries
entries_len-resolve end = refl
entries_len-resolve (entry k w es) = ap suc (entries_len-resolve es)

pub flat_lem :
    (es : Entries) (v : RespVersion)
    → wire_items (project_flat es v) ≡ wire_entries (project_entries es v)
unfolding wire project
flat_lem end v = refl
flat_lem (entry k w es) v = rw (flat_lem es v) refl

module _ (c : Crates) where
  -- One step for an aggregate: its items are appended behind the header.
  after_header :
      (out : List ℕ) (marker n m : ℕ) (xs body : List ℕ)
      → xs ≡ write_aggregate_header c marker n out ++ body
      → n ≡ m
      → xs ≡ out ++ (marker ∷ (decimal_ℤ (pos m) ++ (crlf ++ body)))
  after_header out marker n m xs body h e = rw (h, header_lem c, e) (simp append_assoc)

  map_header_lem :
      (es : Entries) (v : RespVersion) (out xs : List ℕ)
      → entries_len es * 2 ≤ max_usize
      → xs ≡ map_header c v (entries_len es) out ++ (wire_entries (project_entries es v))
      → wire_items (project_flat es v) ≡ wire_entries (project_entries es v)
      → xs ≡ out ++ wire (map_reply v (project_entries es v) (project_flat es v))
  unfolding wire
  map_header_lem es resp2 out xs h e flat =
      after_header out b'*' (sat_mul (entries_len es) 2) (items_len (project_flat es resp2)) xs
        (wire_items (project_flat es resp2)) (rw flat e) (omega (arith, items_len-flat es resp2))
  map_header_lem es resp3 out xs h e flat =
      after_header out b'%' (entries_len es) (entries_len (project_entries es resp3)) xs
        (wire_entries (project_entries es resp3)) e (sym (entries_len-project es resp3))

  push_lem :
      (fs : Frames) (v : RespVersion) (out xs : List ℕ)
      → xs
        ≡ write_aggregate_header c (push_marker v) (items_len fs) out
          ++ wire_items (project_items fs v)
      → xs ≡ out ++ wire (push_reply v (project_items fs v))
  unfolding wire
  push_lem fs resp2 out xs e =
      after_header out b'*' (items_len fs) _ xs _ e (sym (items_len-project fs resp2))
  push_lem fs resp3 out xs e =
      after_header out b'>' (items_len fs) _ xs _ e (sym (items_len-project fs resp3))

  null_lem : (v : RespVersion) → null_for v ≡ wire (null_reply v)
  unfolding wire
  null_lem resp2 = refl
  null_lem resp3 = refl

  null_array_lem : (v : RespVersion) → null_array_for v ≡ wire (null_array_reply v)
  unfolding wire
  null_array_lem resp2 = refl
  null_array_lem resp3 = refl

  mutual
    unfolding encode_for_version_into project wire

    for_version_lem :
        (f : Frame) (v : RespVersion) (out : List ℕ)
        → IsSized f
        → encode_for_version_into c f v out ≡ out ++ wire (project f v)
    for_version_lem (versioned n f) v out h = for_version_lem f (from_protocol_version n) out h
    for_version_lem (bulk_string none) v out h = ap (λ t. out ++ t) (null_lem v)
    for_version_lem null v out h = ap (λ t. out ++ t) (null_lem v)
    for_version_lem null_array v out h = ap (λ t. out ++ t) (null_array_lem v)
    for_version_lem (array fs) v out h =
        after_header out b'*' (items_len fs) _ _ _
          (items_for_lem fs v (write_aggregate_header c b'*' (items_len fs) out) h)
          (sym (items_len-project fs v))
    for_version_lem (push fs) v out h =
        push_lem fs v out _
          (items_for_lem fs v (write_aggregate_header c (push_marker v) (items_len fs) out) h)
    for_version_lem (map es) v out h =
        map_header_lem es v out _ h.0
          (entries_for_lem es v (map_header c v (entries_len es) out) h.1) (flat_lem es v)
    for_version_lem (sequence fs) v out h = items_for_lem fs v out h
    for_version_lem (simple_string s) v out h = encode_leaf_lem c (simple_string s) out tt
    for_version_lem (error s) v out h = encode_leaf_lem c (error s) out tt
    for_version_lem (integer z) v out h = encode_leaf_lem c (integer z) out tt
    for_version_lem (bulk_string (some s)) v out h = encode_leaf_lem c (bulk_string (some s)) out tt

    items_for_lem :
        (fs : Frames) (v : RespVersion) (out : List ℕ)
        → AreSized fs
        → encode_items_for c fs v out ≡ out ++ wire_items (project_items fs v)
    items_for_lem nil v out h = sym (append-nil out)
    items_for_lem (cons f fs) v out h =
        items_for_lem fs v (encode_for_version_into c f v out) h.1
        ∙ rw (for_version_lem f v out h.0)
            (append_assoc out (wire (project f v)) (wire_items (project_items fs v)))

    entries_for_lem :
        (es : Entries) (v : RespVersion) (out : List ℕ)
        → AreSizedEntries es
        → encode_entries_for c es v out ≡ out ++ wire_entries (project_entries es v)
    entries_for_lem end v out h = sym (append-nil out)
    entries_for_lem (entry k w es) v out h =
        entries_for_lem es v (encode_for_version_into c w v (encode_for_version_into c k v out)) h.2
        ∙ rw
            (
              for_version_lem w v (encode_for_version_into c k v out) h.1,
              for_version_lem k v out h.0,
            )
            (simp append_assoc)

  mutual
    unfolding encode_into resolve wire

    into_lem :
        (f : Frame) (out : List ℕ) → IsSized f → encode_into c f out ≡ out ++ wire (resolve f)
    into_lem (versioned n f) out h = for_version_lem f (from_protocol_version n) out h
    into_lem (array fs) out h =
        after_header out b'*' (items_len fs) _ _ _
          (items_lem fs (write_aggregate_header c b'*' (items_len fs) out) h)
          (sym (items_len-resolve fs))
    into_lem (push fs) out h =
        after_header out b'>' (items_len fs) _ _ _
          (items_lem fs (write_aggregate_header c b'>' (items_len fs) out) h)
          (sym (items_len-resolve fs))
    into_lem (map es) out h =
        after_header out b'%' (entries_len es) _ _ _
          (entries_lem es (write_aggregate_header c b'%' (entries_len es) out) h.1)
          (sym (entries_len-resolve es))
    into_lem (sequence fs) out h = items_lem fs out h
    into_lem (simple_string s) out h = encode_leaf_lem c (simple_string s) out tt
    into_lem (error s) out h = encode_leaf_lem c (error s) out tt
    into_lem (integer z) out h = encode_leaf_lem c (integer z) out tt
    into_lem (bulk_string s) out h = encode_leaf_lem c (bulk_string s) out tt
    into_lem null_array out h = encode_leaf_lem c null_array out tt
    into_lem null out h = encode_leaf_lem c null out tt

    items_lem :
        (fs : Frames) (out : List ℕ)
        → AreSized fs
        → encode_items c fs out ≡ out ++ wire_items (resolve_items fs)
    items_lem nil out h = sym (append-nil out)
    items_lem (cons f fs) out h =
        items_lem fs (encode_into c f out) h.1
        ∙ rw (into_lem f out h.0)
            (append_assoc out (wire (resolve f)) (wire_items (resolve_items fs)))

    entries_lem :
        (es : Entries) (out : List ℕ)
        → AreSizedEntries es
        → encode_entries c es out ≡ out ++ wire_entries (resolve_entries es)
    entries_lem end out h = sym (append-nil out)
    entries_lem (entry k w es) out h =
        entries_lem es (encode_into c w (encode_into c k out)) h.2
        ∙ rw (into_lem w (encode_into c k out) h.1, into_lem k out h.0) (simp append_assoc)

  shared_into : (f : Frame) (s : List ℕ) → shared_encoding f ≡ some s → s ≡ encode_into c f []
  unfolding shared_encoding encode_into encode_leaf
  shared_into (simple_string v) s e = rw (e, encode_leaf)
  shared_into (bulk_string none) s e = ground arith
  shared_into (integer z) s e = rw (e, encode_leaf)
  shared_into f s e = cc

  -- The reply that a client of RESP version `v` is sent is the wire form of the frame's projection to
  -- that version, for every frame whose maps have at most (2^64 - 1) / 2 entries.
  pub encode_for_version-wire :
      (f : Frame) (v : RespVersion) → IsSized f → encode_for_version c f v ≡ wire (project f v)
  unfolding encode_for_version
  encode_for_version-wire f v h = for_version_lem f v [] h

  -- `encode` gives the wire form of the frame itself, with each part of a fixed version projected to
  -- that version, for every frame whose maps have at most (2^64 - 1) / 2 entries; the shared static
  -- encodings make no difference.
  pub encode-wire : (f : Frame) → IsSized f → encode c f ≡ wire (resolve f)
  unfolding encode
  encode-wire f h = elim (Option-cases (shared_encoding f)) [
    | inl e ↦ rw (e, encode) (into_lem f [] h)
    | inr (s, e) ↦ rw (e, encode) (shared_into f s e ∙ into_lem f [] h)
  ]
