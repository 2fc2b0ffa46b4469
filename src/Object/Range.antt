-- ===== src/Object/Range.antt =====
-- The index ranges of object.rs: which positions they select.
use ratatosk.Prelude.{
  ℕ, ◌+◌, ◌-◌, ◌^◌, ◌<◌, ◌≡◌, refl, arith, min, Bool, true, false, ◌&&◌, ◌||◌, not, Option, none,
  some, if◌then◌else◌, ltb, leb, ◌==◌, Bool-cases, inl, inr,
}
use ratatosk.Prelude.Int.{ℤ, pos, negsuc, ◌+ℤ◌}
use ratatosk.Object.{
  with_len, from_start, normalize_range, clamp_index_range, normalize_string_range,
}

-- Whether the range has the index.
abbrev pub selects : Option (ℕ × ℕ) → ℕ → Bool
selects none i = false
selects (some (a, b)) i = leb a i && leb i b

-- Both ends are indices of a value of `len` elements, in order.
abbrev pub is_within : ℕ → Option (ℕ × ℕ) → Bool
is_within len none = true
is_within len (some (a, b)) = leb a b && ltb b len

-- Whether the position that the argument names, counted from the end if it is negative, is at or
-- before an index.
abbrev pub at_most : ℕ → ℤ → ℕ → Bool
at_most len (pos n) i = leb n i
at_most len (negsuc n) i = leb len (i + n + 1)

abbrev pub at_least : ℕ → ℤ → ℕ → Bool
at_least len (pos n) i = leb i n
at_least len (negsuc n) i = leb (i + n + 1) len

normalize_range-selects :
    (len : ℕ) (start end : ℤ) (i : ℕ)
    → len < 2 ^ 63
    → i < len
    → selects (normalize_range len start end) i ≡ (at_most len start i && at_least len end i)
unfolding normalize_range ◌+ℤ◌
normalize_range-selects len (pos s) (pos e) i h lt = ground arith
normalize_range-selects len (pos s) (negsuc e) i h lt = ground arith
normalize_range-selects len (negsuc s) (pos e) i h lt = ground arith
normalize_range-selects len (negsuc s) (negsuc e) i h lt = ground arith

normalize_range-within :
    (len : ℕ) (start end : ℤ) → is_within len (normalize_range len start end) ≡ true
unfolding normalize_range ◌+ℤ◌
normalize_range-within len (pos s) (pos e) = ground arith
normalize_range-within len (pos s) (negsuc e) = ground arith
normalize_range-within len (negsuc s) (pos e) = ground arith
normalize_range-within len (negsuc s) (negsuc e) = ground arith

-- A position that is cut off at 0.
resolved : ℕ → ℤ → ℕ
resolved len (pos n) = n
resolved len (negsuc n) = len - (n + 1)

from_start_lem : (len : ℕ) (z : ℤ) → len < 2 ^ 63 → from_start len z ≡ pos (resolved len z)
unfolding resolved ◌+ℤ◌
from_start_lem len (pos n) h = ground arith
from_start_lem len (negsuc n) h = ground arith

clamp_index_range_lem :
    (len : ℕ) (start end : ℤ)
    → clamp_index_range len start end
      ≡ with_len len (
          if len == 0
          then none
          else if ltb (min (resolved len end) (len - 1)) (resolved len start)
          then none
          else some (resolved len start, min (resolved len end) (len - 1)))
unfolding clamp_index_range
clamp_index_range_lem len start end = elim (Bool-cases (ltb len (2 ^ 63))) [
  | inl h ↦ rw h (
      rw (from_start_lem len start (ground arith), from_start_lem len end (ground arith))
        (ground arith))
  | inr h ↦ rw h refl
]

clamp_index_range-selects :
    (len : ℕ) (start end : ℤ) (i : ℕ)
    → len < 2 ^ 63
    → i < len
    → selects (clamp_index_range len start end) i
      ≡ (at_most len start i && (at_least len end i || i == 0))
unfolding resolved
clamp_index_range-selects len (pos s) (pos e) i h lt =
    rw (clamp_index_range_lem len (pos s) (pos e)) (ground arith)
clamp_index_range-selects len (pos s) (negsuc e) i h lt =
    rw (clamp_index_range_lem len (pos s) (negsuc e)) (ground arith)
clamp_index_range-selects len (negsuc s) (pos e) i h lt =
    rw (clamp_index_range_lem len (negsuc s) (pos e)) (ground arith)
clamp_index_range-selects len (negsuc s) (negsuc e) i h lt =
    rw (clamp_index_range_lem len (negsuc s) (negsuc e)) (ground arith)

clamp_index_range-within :
    (len : ℕ) (start end : ℤ) → is_within len (clamp_index_range len start end) ≡ true
clamp_index_range-within len start end = rw (clamp_index_range_lem len start end) (ground arith)

-- For a length of less than 2^63, a list range never leaves a value of `len` elements, and it selects exactly the indices from the
-- position that `start` names to the one that `end` names, both counted from the end where they are
-- negative.
pub normalize_range_lem :
    (len : ℕ) (start end : ℤ)
    → len < 2 ^ 63
    → (is_within len (normalize_range len start end) ≡ true)
      × ((i : ℕ)
          → i < len
          → selects (normalize_range len start end) i ≡ (at_most len start i && at_least len end i))
normalize_range_lem len start end h =
    (normalize_range-within len start end, λ i lt. normalize_range-selects len start end i h lt)

-- Two negative positions in the wrong order.
abbrev pub backwards : ℤ → ℤ → Bool
backwards (negsuc s) (negsuc e) = ltb s e
backwards _ _ = false

string_range_split :
    (len : ℕ) (start end : ℤ)
    → normalize_string_range len start end
      ≡ (if backwards start end then none else clamp_index_range len start end)
unfolding normalize_string_range
string_range_split len (pos s) (pos e) = ground arith
string_range_split len (pos s) (negsuc e) = ground arith
string_range_split len (negsuc s) (pos e) = ground arith
string_range_split len (negsuc s) (negsuc e) = ground arith

-- For a length of less than 2^63, a byte range of a string never leaves it. It is empty for two negative positions in the wrong
-- order; else it selects the indices from the position of `start` to that of `end`, and with a
-- `start` at or before index 0 always that index, which an `end` before the string is cut off to.
pub normalize_string_range_lem :
    (len : ℕ) (start end : ℤ)
    → len < 2 ^ 63
    → (is_within len (normalize_string_range len start end) ≡ true)
      × ((i : ℕ)
          → i < len
          → selects (normalize_string_range len start end) i ≡ (
              not (backwards start end) && (at_most len start i && (at_least len end i || i == 0))))
normalize_string_range_lem len start end h = elim (Bool-cases (backwards start end)) [
  | inl b ↦ rw (string_range_split len start end, b) (refl, λ i lt. refl)
  | inr b ↦
      rw (string_range_split len start end, b)
        (
          clamp_index_range-within len start end,
          λ i lt. clamp_index_range-selects len start end i h lt,
        )
]
