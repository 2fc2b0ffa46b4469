-- ===== src/Object/Tests.antt =====
-- Concrete numbers and ranges.
use native.Mathlib.Omega.{arith}
use ratatosk.Prelude.{ℕ, ◌^◌, ◌-◌, ◌<◌, ◌≡◌, true, ◌&&◌, ◌||◌, not, ◌==◌, [], ◌∷◌}
use ratatosk.Prelude.Int.{pos, negsuc}
use ratatosk.Prelude.Decimal.{digits_value, i64_from_str}
use ratatosk.Object.{parse_i64, parse_usize, normalize_range, normalize_string_range}
use ratatosk.Object.Parse.{capped, parse_i64-i64_from_str, parse_usize-capped}
use ratatosk.Object.Range.{
  is_within, selects, at_most, at_least, backwards, normalize_range_lem, normalize_string_range_lem,
}

parse_i64-i64_from_str_example :
    parse_i64 (b'-' ∷ b'1' ∷ b'0' ∷ []) ≡ i64_from_str (b'-' ∷ b'1' ∷ b'0' ∷ [])
parse_i64-i64_from_str_example = parse_i64-i64_from_str (b'-' ∷ b'1' ∷ b'0' ∷ [])

parse_usize-capped_example :
    parse_usize (b'4' ∷ b'2' ∷ []) ≡ capped (2 ^ 64 - 1) (digits_value 0 (b'4' ∷ b'2' ∷ []))
parse_usize-capped_example = parse_usize-capped b'4' (b'2' ∷ [])

normalize_range_lem_example :
    (is_within 5 (normalize_range 5 (negsuc 2) (pos 100)) ≡ true)
    × ((i : ℕ)
        → i < 5
        → selects (normalize_range 5 (negsuc 2) (pos 100)) i
          ≡ (at_most 5 (negsuc 2) i && at_least 5 (pos 100) i))
normalize_range_lem_example = normalize_range_lem 5 (negsuc 2) (pos 100) (omega arith)

normalize_string_range_lem_example :
    (is_within 3 (normalize_string_range 3 (pos 0) (negsuc 99)) ≡ true)
    × ((i : ℕ)
        → i < 3
        → selects (normalize_string_range 3 (pos 0) (negsuc 99)) i ≡ (
            not (backwards (pos 0) (negsuc 99))
            && (at_most 3 (pos 0) i && (at_least 3 (negsuc 99) i || i == 0))))
normalize_string_range_lem_example = normalize_string_range_lem 3 (pos 0) (negsuc 99) (omega arith)
