-- ===== src/Resp/Inline.antt =====
-- Inline commands, crates/ratatosk-resp/src/parse.rs: `split_inline_args` and `describe_inline_command`.
-- The two nested loops of `split_inline_args` are one recursion over the line, with a state for the
-- loop and the quotes that `pos` stands in.
use ratatosk.Prelude.{
  ℕ, zero, suc, ◌+◌, ◌-◌, ◌*◌, Bool, true, ◌&&◌, ◌||◌, Option, none, some, List, [], ◌∷◌, ◌++◌,
  if◌then◌else◌, leb, ltb, ◌==◌, length, drop, get_or,
}
use ratatosk.Resp.Crates.{Crates}
use ratatosk.Resp.Encode.{cr, lf}
use ratatosk.Resp.Line.{unbalanced_quotes, inline_too_long, Result, ok, err, Parsed, slice, pure}

pub data InlineToken : Type 0 where
  slice_token : ℕ → ℕ → InlineToken
  owned : List ℕ → InlineToken

-- `u8::is_ascii_whitespace`, and the vertical tab
unfoldable pub is_c_space : ℕ → Bool
is_c_space b = b == b' ' || b == 9 || b == lf || b == 12 || b == cr || b == 0x0b

abbrev pub is_hex : ℕ → Bool
is_hex b = (leb 48 b && leb b 57) || (leb b'a' b && leb b b'f') || (leb b'A' b && leb b b'F')

unfoldable pub hex_value : ℕ → ℕ
hex_value b =
    if leb 48 b && leb b 57
    then b - 48
    else if leb b'a' b && leb b b'f'
    then b - b'a' + 10
    else b - b'A' + 10

unfoldable pub escaped : ℕ → ℕ
escaped b =
    if b == b'n'
    then lf
    else if b == b'r'
    then cr
    else if b == b't'
    then 9
    else if b == b'b'
    then 8
    else if b == b'a'
    then 7
    else b

-- Between arguments, in one that starts at an index and may be rewritten, inside quotes, and in the
-- rest of an escape, of `n + 1` bytes.
pub data Mode : Type 0 where
  between : Mode
  plain : ℕ → Option (List ℕ) → Mode
  in_double : ℕ → List ℕ → Mode
  in_single : ℕ → List ℕ → Mode
  skip : ℕ → Mode → Mode

-- The token that ends at `pos`.
abbrev pub token_at : ℕ → Option (List ℕ) → ℕ → InlineToken
token_at start none pos = slice_token start (pos - start)
token_at start (some bytes) pos = owned bytes

abbrev pub push_owned : Option (List ℕ) → ℕ → Option (List ℕ)
push_owned none b = none
push_owned (some bytes) b = some (bytes ++ (b ∷ []))

abbrev pub on_quote : Option (List ℕ) → List ℕ → List ℕ
on_quote none so_far = so_far
on_quote (some bytes) so_far = bytes

-- A closing quote must end the argument.
abbrev pub closes : List ℕ → Bool
closes [] = true
closes (b ∷ bs) = is_c_space b

module _ (input : List ℕ) where
  -- What a byte of an unquoted argument does.
  abbrev pub plain_byte : ℕ → Option (List ℕ) → ℕ → ℕ → Mode
  plain_byte start bytes pos b =
      if b == b'"'
      then in_double start (on_quote bytes (slice input start (pos - start)))
      else if b == 39
      then in_single start (on_quote bytes (slice input start (pos - start)))
      else plain start (push_owned bytes b)

  abbrev pub close : List ℕ → List ℕ → List InlineToken → Result (Mode × List InlineToken)
  close bs bytes tokens =
      if closes bs then ok (between, tokens ++ (owned bytes ∷ [])) else err unbalanced_quotes

  -- Inside double quotes at byte `b`, where `bs` is what follows it.
  unfoldable pub double_byte :
      ℕ → List ℕ → ℕ → List ℕ → List InlineToken → Result (Mode × List InlineToken)
  unfolding is_c_space hex_value escaped
  double_byte start bytes b (e ∷ h ∷ l ∷ bs) tokens =
      if b == 92 && e == b'x' && is_hex h && is_hex l
      then ok (skip 2 (in_double start (bytes ++ ((hex_value h * 16 + hex_value l) ∷ []))), tokens)
      else if b == 92
      then ok (skip 0 (in_double start (bytes ++ (escaped e ∷ []))), tokens)
      else if b == b'"'
      then close (e ∷ h ∷ l ∷ bs) bytes tokens
      else ok (in_double start (bytes ++ (b ∷ [])), tokens)
  double_byte start bytes b (e ∷ bs) tokens =
      if b == 92
      then ok (skip 0 (in_double start (bytes ++ (escaped e ∷ []))), tokens)
      else if b == b'"'
      then close (e ∷ bs) bytes tokens
      else ok (in_double start (bytes ++ (b ∷ [])), tokens)
  double_byte start bytes b [] tokens =
      if b == b'"' then close [] bytes tokens else ok (in_double start (bytes ++ (b ∷ [])), tokens)

  -- Inside single quotes.
  unfoldable pub single_byte :
      ℕ → List ℕ → ℕ → List ℕ → List InlineToken → Result (Mode × List InlineToken)
  unfolding is_c_space
  single_byte start bytes b (e ∷ bs) tokens =
      if b == 92 && e == 39
      then ok (skip 0 (in_single start (bytes ++ (39 ∷ []))), tokens)
      else if b == 39
      then close (e ∷ bs) bytes tokens
      else ok (in_single start (bytes ++ (b ∷ [])), tokens)
  single_byte start bytes b [] tokens =
      if b == 39 then close [] bytes tokens else ok (in_single start (bytes ++ (b ∷ [])), tokens)

  unfoldable pub split_step :
      Mode → ℕ → List ℕ → ℕ → List InlineToken → Result (Mode × List InlineToken)
  unfolding is_c_space double_byte single_byte
  split_step between b bs pos tokens =
      ok ((if is_c_space b then between else plain_byte pos none pos b), tokens)
  split_step (plain start bytes) b bs pos tokens =
      if b == b' ' || b == lf || b == cr || b == 9
      then ok (between, tokens ++ (token_at start bytes pos ∷ []))
      else ok (plain_byte start bytes pos b, tokens)
  split_step (in_double start bytes) b bs pos tokens = double_byte start bytes b bs tokens
  split_step (in_single start bytes) b bs pos tokens = single_byte start bytes b bs tokens
  split_step (skip zero m) b bs pos tokens = ok (m, tokens)
  split_step (skip (suc n) m) b bs pos tokens = ok (skip n m, tokens)

  -- The bytes are `input[pos..end]`, and `tokens` those pushed so far.
  unfoldable pub split_inline : List ℕ → ℕ → Mode → List InlineToken → Result (List InlineToken)
  unfolding split_step
  split_inline [] pos between tokens = ok tokens
  split_inline [] pos (plain start bytes) tokens = ok (tokens ++ (token_at start bytes pos ∷ []))
  split_inline [] pos m tokens = err unbalanced_quotes
  split_inline (b ∷ bs) pos m tokens = elim (split_step m b bs pos tokens) [
    | err e ↦ err e
    | ok (m', tokens') ↦ split_inline bs (pos + 1) m' tokens'
  ]

  unfoldable pub split_inline_args : ℕ → ℕ → Result (List InlineToken)
  unfolding split_inline
  split_inline_args start end_ = split_inline (slice input start (end_ - start)) start between []

unfoldable pub describe_inline_command : Crates → List ℕ → ℕ → Parsed (List InlineToken × ℕ)
unfolding split_inline_args
describe_inline_command c input idx = elim (c.memchr lf (drop idx input)) [
  | none ↦ if ltb (64 * 1024) (length input - idx) then err inline_too_long else ok none
  | some newline ↦ elim (split_inline_args input idx (line_end_of newline)) [
    | err e ↦ err e
    | ok tokens ↦ pure (tokens, newline + 1)
  ]
]
  where
    line_end_of : ℕ → ℕ
    line_end_of newline =
        if ltb idx (idx + newline) && get_or input (idx + newline - 1) 0 == cr
        then idx + newline - 1
        else idx + newline
