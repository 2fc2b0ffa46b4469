-- ===== src/Object/Parse.antt =====
-- The number parsers of object.rs against plain decimal values.
use ratatosk.Prelude.{
  ℕ, ◌+◌, ◌-◌, ◌*◌, ◌^◌, ◌≤◌, ◌<◌, ◌≡◌, refl, ap, ap₂, ◌∙◌, arith, Option, none, some, List, [],
  ◌∷◌, if◌then◌else◌, leb, ◌==◌,
}
use ratatosk.Prelude.Decimal.{digits_value, at_least_one, positive, negative, i64_from_str}
use ratatosk.Object.{
  parse_digits, as_positive, as_negative, positive_digits, negative_digits, parse_i64, parse_usize,
}

-- A value that is not above the limit.
abbrev pub capped : ℕ → Option ℕ → Option ℕ
capped limit none = none
capped limit (some n) = if leb n limit then some n else none

digits_over :
    (limit acc : ℕ) (bytes : List ℕ) → limit < acc → capped limit (digits_value acc bytes) ≡ none
unfolding digits_value
digits_over limit acc [] h = ground arith
digits_over limit acc (c ∷ cs) h = ground (arith, digits_over limit (acc * 10 + (c - 48)) cs)

parse_digits-capped :
    (limit acc : ℕ) (bytes : List ℕ)
    → acc ≤ limit
    → parse_digits limit acc bytes ≡ capped limit (digits_value acc bytes)
unfolding digits_value parse_digits
parse_digits-capped limit acc [] h = ground arith
parse_digits-capped limit acc (c ∷ cs) h = ground (
  arith,
  parse_digits-capped limit (acc * 10 + (c - 48)) cs,
  digits_over limit (acc * 10 + (c - 48)) cs,
)

positive-capped : (o : Option ℕ) → as_positive (capped (2 ^ 63 - 1) o) ≡ positive o
positive-capped none = refl
positive-capped (some n) = ground arith

negative-capped : (o : Option ℕ) → as_negative (capped (2 ^ 63) o) ≡ negative o
negative-capped none = refl
negative-capped (some n) = ground arith

positive_lem : (bytes : List ℕ) → positive_digits bytes ≡ positive (at_least_one bytes)
positive_lem [] = refl
positive_lem (b ∷ bytes) =
    ap as_positive (parse_digits-capped (2 ^ 63 - 1) 0 (b ∷ bytes) (omega arith))
    ∙ positive-capped (digits_value 0 (b ∷ bytes))

negative_lem : (bytes : List ℕ) → negative_digits bytes ≡ negative (at_least_one bytes)
negative_lem [] = refl
negative_lem (b ∷ bytes) =
    ap as_negative (parse_digits-capped (2 ^ 63) 0 (b ∷ bytes) (omega arith))
    ∙ negative-capped (digits_value 0 (b ∷ bytes))

-- The server's own parser of integers accepts what the standard library's does, with the same value:
-- an optional sign, at least one digit, and a value of 64 bits.
pub parse_i64-i64_from_str : (raw : List ℕ) → parse_i64 raw ≡ i64_from_str raw
unfolding parse_i64 i64_from_str
parse_i64-i64_from_str [] = refl
parse_i64-i64_from_str (b ∷ bytes) =
    ap₂ (λ x y. if b == b'-' then x else y) (negative_lem bytes)
      (ap₂ (λ x y. if b == b'+' then x else y) (positive_lem bytes) (positive_lem (b ∷ bytes)))

-- `parse_usize` of a text with at least one byte reads its decimal digits and no sign, and refuses what does not fit 64 bits.
pub parse_usize-capped :
    (b : ℕ) (bytes : List ℕ)
    → parse_usize (b ∷ bytes) ≡ capped (2 ^ 64 - 1) (digits_value 0 (b ∷ bytes))
unfolding parse_usize
parse_usize-capped b bytes = parse_digits-capped (2 ^ 64 - 1) 0 (b ∷ bytes) (omega arith)
