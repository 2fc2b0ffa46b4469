-- ===== src/Resp/Line.antt =====
-- The result type of the parser, and its line functions: `find_crlf`, `parse_line_offsets` and
-- `ensure_plain_line` of crates/ratatosk-resp/src/parse.rs. The texts that errors carry are left out.
pub mod Find
use ratatosk.Prelude.{
  ℕ, zero, suc, ◌+◌, ◌-◌, Bool, Option, none, some, List, if◌then◌else◌, leb, ◌==◌, length, drop,
  get_or, take,
}
use ratatosk.Resp.Crates.{Crates}
use ratatosk.Resp.Encode.{cr, lf}

pub data RespParseError : Type 0 where
  invalid_integer invalid_bulk_length invalid_array_length invalid_map_length : RespParseError
  invalid_frame_type : ℕ → RespParseError
  nesting_too_deep invalid_line unbalanced_quotes inline_too_long missing_crlf : RespParseError

pub data Result (A : Type 0) : Type 0 where
  ok : A → Result A
  err : RespParseError → Result A

-- `Result<Option<A>, RespParseError>`: `ok none` asks for more input.
abbrev pub Parsed : Type 0 → Type 0
Parsed A = Result (Option A)

-- The `?` of an error, and the early return of `Ok(None)`.
infixl 5 ◌>>=◌ ◌>>◌
abbrev pub ◌>>=◌ : {A B : Type 0} → Parsed A → (A → Parsed B) → Parsed B
ok none >>= f = ok none
ok (some a) >>= f = f a
err e >>= f = err e

abbrev pub ◌>>◌ : {B : Type 0} → Parsed (Unit {0}) → Parsed B → Parsed B
m >> k = m >>= λ _. k

abbrev pub pure : {A : Type 0} → A → Parsed A
pure a = ok (some a)

-- `&input[offset..offset + len]`
abbrev pub slice : List ℕ → ℕ → ℕ → List ℕ
slice input offset len = take len (drop offset input)

module _ (c : Crates) where
  -- The loop of `find_crlf`: a round moves `search_idx` on, so `fuel` beyond the input is enough.
  unfoldable pub find_crlf_loop : ℕ → List ℕ → ℕ → Option ℕ
  find_crlf_loop zero input search_idx = none
  find_crlf_loop (suc fuel) input search_idx = elim (c.memchr cr (drop search_idx input)) [
    | none ↦ none
    | some rel ↦
        let pos = search_idx + rel in
        let rest = find_crlf_loop fuel input (pos + 1) in
        if leb (length input) (pos + 1)
        then none
        else if get_or input (pos + 1) 0 == lf
        then some pos
        else rest
  ]

  unfoldable pub find_crlf : List ℕ → ℕ → Option ℕ
  unfolding find_crlf_loop
  find_crlf input idx =
      if leb (length input) idx then none else find_crlf_loop (suc (length input)) input idx

  -- The start of the line, its length, and its length with the terminator.
  unfoldable pub parse_line_offsets : List ℕ → ℕ → Option (ℕ × ℕ × ℕ)
  unfolding find_crlf
  parse_line_offsets input idx = elim (find_crlf input idx) [
    | none ↦ none
    | some line_end ↦ some (idx, line_end - idx, (line_end - idx) + 2)
  ]

  unfoldable pub ensure_plain_line : List ℕ → Parsed (Unit {0})
  ensure_plain_line line = elim (c.memchr2 cr lf line) [
    | some _ ↦ err invalid_line
    | none ↦ pure tt
  ]
