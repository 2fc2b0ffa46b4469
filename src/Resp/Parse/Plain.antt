-- ===== src/Resp/Parse/Plain.antt =====
-- Frames that the parser of crates/ratatosk-resp/src/parse.rs can read back, and the lines that they
-- are written with.
use ratatosk.Prelude.{
  ℕ, suc, ◌+◌, ◌≡◌, ◌≢◌, refl, ap, ◌∙◌, ◌||◌, none, some, List, [], ◌∷◌, ◌++◌, ◌==◌, length, drop,
  arith,
}
use mathlib.Core.List
use ratatosk.Prelude.Int.{ℤ, pos, negsuc}
use ratatosk.Prelude.Decimal.{AllDigits, decimal, decimal_ℤ, decimal-AllDigits}
use ratatosk.Resp.Crates.{Crates, position}
use ratatosk.Resp.Encode.{cr, lf, replace_break}
use ratatosk.Resp.Line.{pure, parse_line_offsets, ensure_plain_line}
use ratatosk.Resp.Line.Find.{crlf_position, shift, find_crlf_lem}

-- No CR and no LF.
abbrev pub PlainLine : List ℕ → Type 0
PlainLine [] = Unit
PlainLine (b ∷ bs) = (b ≢ cr) × (b ≢ lf) × PlainLine bs

crlf_position-line :
    (line rest : List ℕ)
    → PlainLine line
    → crlf_position (line ++ (cr ∷ lf ∷ rest)) ≡ some (length line)
unfolding crlf_position
crlf_position-line [] rest h = refl
crlf_position-line (b ∷ bs) rest h = ground (arith, crlf_position-line bs rest)

pub replace_break-plain : (v : List ℕ) → PlainLine v → List.map replace_break v ≡ v
unfolding replace_break
replace_break-plain [] h = refl
replace_break-plain (b ∷ bs) h = ground (arith, replace_break-plain bs)

position-plain : (v : List ℕ) → PlainLine v → position (λ b. b == cr || b == lf) v ≡ none
unfolding position
position-plain [] h = refl
position-plain (b ∷ bs) h = ground (arith, position-plain bs)

digits-plain : (xs : List ℕ) → AllDigits xs → PlainLine xs
digits-plain [] h = tt
digits-plain (x ∷ xs) h = (omega arith, omega arith, digits-plain xs h.2)

pub decimal_ℤ-plain : (z : ℤ) → PlainLine (decimal_ℤ z)
unfolding decimal_ℤ
decimal_ℤ-plain (pos n) = digits-plain (decimal n) (decimal-AllDigits n)
decimal_ℤ-plain (negsuc n) =
    (omega arith, omega arith, digits-plain (decimal (suc n)) (decimal-AllDigits (suc n)))

module _ (c : Crates) where
  -- A plain line with its terminator at `idx` is found there, with its length.
  pub parse_line_offsets_lem :
      (input line rest : List ℕ) (idx : ℕ)
      → PlainLine line
      → drop idx input ≡ line ++ (cr ∷ lf ∷ rest)
      → parse_line_offsets c input idx ≡ some (idx, length line, length line + 2)
  unfolding parse_line_offsets
  parse_line_offsets_lem input line rest idx plain h = ground (
    arith,
    find_crlf_lem c input idx,
    ap (λ t. shift idx (crlf_position t)) h,
    crlf_position-line line rest plain,
  )

  pub ensure_plain_line_lem : (v : List ℕ) → PlainLine v → ensure_plain_line c v ≡ pure tt
  unfolding ensure_plain_line
  ensure_plain_line_lem v h =
      rw (c.memchr2_lem cr lf v ∙ position-plain v h, ensure_plain_line) refl
