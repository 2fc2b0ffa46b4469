-- ===== src/Resp/Encode/Leaf.antt =====
-- The arms of the encoder that make no recursive call (crates/ratatosk-resp/src/encode.rs), against
-- the wire form.
use ratatosk.Prelude.{
  ℕ, zero, suc, ◌≡◌, refl, sym, ap, ◌∙◌, true, ◌||◌, none, some, List, [], ◌∷◌, ◌++◌, ◌==◌, arith,
  append_assoc, Bool-cases, Option-cases, inl, inr,
}
use mathlib.Core.List
use ratatosk.Prelude.Eq.{bytes_eq, bytes_eq_iff}
use ratatosk.Prelude.Int.{pos, negsuc}
use ratatosk.Prelude.Decimal.{decimal_ℤ}
use ratatosk.Resp.Crates.{Crates, position}
use ratatosk.Resp.Frame.{
  Frame, simple_string, error, integer, bulk_string, array, push, map, null_array, null, sequence,
  versioned,
}
use ratatosk.Resp.Encode.{
  cr, lf, crlf, shared_encoding, shared_string, replace_break, extend_line,
  extend_line_replacing_breaks, write_aggregate_header, plain_leaf, encode_leaf, ok_text, pong_text,
  queued_text,
}
use ratatosk.Resp.Encode.Wire.{wire}

no_break-replace :
    (v : List ℕ) → position (λ b. b == cr || b == lf) v ≡ none → List.map replace_break v ≡ v
unfolding position replace_break
no_break-replace [] h = refl
no_break-replace (b ∷ bs) h = ground (arith, no_break-replace bs)

shared_string_lem :
    (v s : List ℕ) → shared_string v ≡ some s → s ≡ b'+' ∷ (List.map replace_break v ++ crlf)
unfolding replace_break
shared_string_lem v s h = elim (Bool-cases (bytes_eq v ok_text)) [
  | inl e ↦ rw (known ok_text e) (ground arith)
  | inr e ↦ elim (Bool-cases (bytes_eq v pong_text)) [
    | inl f ↦ rw (known pong_text f) (ground arith)
    | inr f ↦ elim (Bool-cases (bytes_eq v queued_text)) [
      | inl g ↦ rw (known queued_text g) (ground arith)
      | inr g ↦ ground arith
    ]
  ]
]
  where
    known : (t : List ℕ) → bytes_eq v t ≡ true → v ≡ t
    known t = (bytes_eq_iff v t).0

pub shared_leaf :
    (f : Frame) (s out : List ℕ) → shared_encoding f ≡ some s → out ++ s ≡ out ++ wire f
unfolding shared_encoding wire decimal_ℤ
shared_leaf (simple_string v) s out h = ap (λ t. out ++ t) (shared_string_lem v s h)
shared_leaf (bulk_string none) s out h = ground arith
shared_leaf (bulk_string (some v)) s out h = cc
shared_leaf (integer (pos zero)) s out h = ground arith
shared_leaf (integer (pos (suc zero))) s out h = ground arith
shared_leaf (integer (negsuc zero)) s out h = ground arith
shared_leaf (integer (negsuc (suc zero))) s out h = ground arith
shared_leaf (integer z) s out h = cc
shared_leaf f s out h = cc

abbrev pub IsLeaf : Frame → Type 0
IsLeaf (array fs) = ⊥
IsLeaf (push fs) = ⊥
IsLeaf (map es) = ⊥
IsLeaf (sequence fs) = ⊥
IsLeaf (versioned n f) = ⊥
IsLeaf f = Unit

module _ (c : Crates) where
  pub extend_line_lem : (out v : List ℕ) → extend_line c out v ≡ out ++ List.map replace_break v
  unfolding extend_line extend_line_replacing_breaks
  extend_line_lem out v = elim (Option-cases (c.memchr2 cr lf v)) [
    | inl e ↦
        rw (e, extend_line)
          (ap (λ t. out ++ t) (sym (no_break-replace v (sym (c.memchr2_lem cr lf v) ∙ e))))
    | inr (i, e) ↦ rw (e, extend_line) refl
  ]

  pub header_lem :
      (marker n : ℕ) (out : List ℕ)
      → write_aggregate_header c marker n out ≡ out ++ (marker ∷ (decimal_ℤ (pos n) ++ crlf))
  unfolding write_aggregate_header
  header_lem marker n out = simp (c.format_lem, append_assoc)

  plain_leaf_lem : (f : Frame) (out : List ℕ) → IsLeaf f → plain_leaf c f out ≡ out ++ wire f
  unfolding plain_leaf wire
  plain_leaf_lem (simple_string v) out h = simp (extend_line_lem, append_assoc)
  plain_leaf_lem (error v) out h = simp (extend_line_lem, append_assoc)
  plain_leaf_lem (integer z) out h = simp (c.format_lem, append_assoc)
  plain_leaf_lem (bulk_string none) out h = refl
  plain_leaf_lem (bulk_string (some v)) out h = simp (c.format_lem, append_assoc)
  plain_leaf_lem null_array out h = refl
  plain_leaf_lem null out h = refl
  plain_leaf_lem (array fs) out h = absurd h
  plain_leaf_lem (push fs) out h = absurd h
  plain_leaf_lem (map fs) out h = absurd h
  plain_leaf_lem (sequence fs) out h = absurd h
  plain_leaf_lem (versioned n f) out h = absurd h

  pub encode_leaf_lem : (f : Frame) (out : List ℕ) → IsLeaf f → encode_leaf c f out ≡ out ++ wire f
  unfolding encode_leaf
  encode_leaf_lem f out h = elim (Option-cases (shared_encoding f)) [
    | inl e ↦ rw (e, encode_leaf) (plain_leaf_lem f out h)
    | inr (s, e) ↦ rw (e, encode_leaf) (shared_leaf f s out e)
  ]
