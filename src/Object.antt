-- ===== src/Object.antt =====
-- Numbers and index ranges in command arguments, crates/ratatosk-engine/src/object.rs.
pub mod Parse
pub mod Range
mod Tests
use ratatosk.Prelude.{
  ℕ, ◌+◌, ◌-◌, ◌*◌, ◌^◌, min, Bool, true, false, ◌&&◌, Option, none, some, List, [], ◌∷◌,
  if◌then◌else◌, ltb, leb, ◌==◌,
}
use ratatosk.Prelude.Int.{ℤ, pos, negsuc, ◌+ℤ◌, ltb_ℤ}
use ratatosk.Prelude.Decimal.{is_digit, negate}

-- A loop of `parse_i64` or of `parse_usize`: `limit` is the largest magnitude of the type. The
-- accumulator of the negative loop is here its magnitude.
unfoldable pub parse_digits : ℕ → ℕ → List ℕ → Option ℕ
parse_digits limit acc [] = some acc
parse_digits limit acc (byte ∷ bytes) =
    let digit = byte - 48 in
    let rest = parse_digits limit (acc * 10 + digit) bytes in
    if is_digit byte
    then if ltb limit (acc * 10) then none else if ltb limit (acc * 10 + digit) then none else rest
    else none

abbrev pub as_positive : Option ℕ → Option ℤ
as_positive none = none
as_positive (some n) = some (pos n)

abbrev pub as_negative : Option ℕ → Option ℤ
as_negative none = none
as_negative (some n) = some (negate n)

-- Behind the sign; an empty rest is refused.
abbrev pub positive_digits : List ℕ → Option ℤ
positive_digits [] = none
positive_digits (b ∷ bytes) = as_positive (parse_digits (2 ^ 63 - 1) 0 (b ∷ bytes))

abbrev pub negative_digits : List ℕ → Option ℤ
negative_digits [] = none
negative_digits (b ∷ bytes) = as_negative (parse_digits (2 ^ 63) 0 (b ∷ bytes))

unfoldable pub parse_i64 : List ℕ → Option ℤ
parse_i64 [] = none
parse_i64 (b ∷ bytes) =
    if b == b'-'
    then negative_digits bytes
    else if b == b'+'
    then positive_digits bytes
    else positive_digits (b ∷ bytes)

unfoldable pub parse_usize : List ℕ → Option ℕ
parse_usize [] = none
parse_usize (b ∷ bytes) = parse_digits (2 ^ 64 - 1) 0 (b ∷ bytes)

-- `i64::saturating_add`
abbrev pub clamp_i64 : ℤ → ℤ
clamp_i64 (pos n) = pos (min n (2 ^ 63 - 1))
clamp_i64 (negsuc n) = negsuc (min n (2 ^ 63 - 1))

abbrev pub saturating_add : ℤ → ℤ → ℤ
saturating_add a b = clamp_i64 (a +ℤ b)

abbrev pub is_negative : ℤ → Bool
is_negative z = ltb_ℤ z (pos 0)

abbrev pub max_zero : ℤ → ℤ
max_zero z = if ltb_ℤ z (pos 0) then pos 0 else z

abbrev pub min_ℤ : ℤ → ℤ → ℤ
min_ℤ a b = if ltb_ℤ b a then b else a

-- `z as usize`, for a `z` that is not negative
abbrev pub as_usize : ℤ → ℕ
as_usize (pos n) = n
as_usize (negsuc n) = 2 ^ 64 - 1 - n

-- `i64::try_from(len).ok()?` in front of the three ranges
abbrev pub with_len : ℕ → Option (ℕ × ℕ) → Option (ℕ × ℕ)
with_len len range = if ltb len (2 ^ 63) then range else none

abbrev pub from_start : ℕ → ℤ → ℤ
from_start len start =
    if is_negative start then max_zero (saturating_add start (pos len)) else start

abbrev pub from_end : ℕ → ℤ → ℤ
from_end len end = if is_negative end then saturating_add end (pos len) else end

unfoldable pub normalize_range : ℕ → ℤ → ℤ → Option (ℕ × ℕ)
normalize_range len start end =
    let s = from_start len start in
    let e = from_end len end in
    with_len len (
      if ltb_ℤ e s
      then none
      else if ltb_ℤ s (pos len)
      then some (as_usize s, as_usize (min_ℤ e (pos (len - 1))))
      else none)

-- The end of `clamp_index_range`, behind the two clamped positions.
abbrev pub clamped : ℕ → ℤ → ℤ → Option (ℕ × ℕ)
clamped len s e =
    if len == 0 then none else if ltb_ℤ e s then none else some (as_usize s, as_usize e)

unfoldable pub clamp_index_range : ℕ → ℤ → ℤ → Option (ℕ × ℕ)
clamp_index_range len start end =
    with_len len (clamped len (from_start len start) (min_ℤ (from_start len end) (pos (len - 1))))

unfoldable pub normalize_string_range : ℕ → ℤ → ℤ → Option (ℕ × ℕ)
normalize_string_range len start end =
    let range = clamp_index_range len start end in
    if is_negative start && (is_negative end && ltb_ℤ end start) then none else range
