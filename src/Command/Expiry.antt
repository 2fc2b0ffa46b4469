-- ===== src/Command/Expiry.antt =====
-- Expiry times of commands, crates/ratatosk-engine/src/expiry.rs and command/mod.rs. Arithmetic on `i64`
-- saturates.
use ratatosk.Prelude.{
  ℕ, ◌+◌, ◌-◌, ◌^◌, Bool, true, false, ◌&&◌, Option, none, some, [], ◌∷◌, map, if◌then◌else◌, leb,
}
use ratatosk.Prelude.Int.{ℤ, pos, negsuc, ◌+ℤ◌, ◌-ℤ◌, ◌*ℤ◌, ltb_ℤ}
use ratatosk.Prelude.Eq.{bytes_eq}
use ratatosk.Prelude.Words.{Bytes}

pub data ExpireCondition : Type 0 where
  always nx xx gt lt : ExpireCondition

pub data ExpireMode : Type 0 where
  relative_seconds relative_milliseconds absolute_seconds absolute_milliseconds : ExpireMode

pub data TtlMode : Type 0 where
  seconds milliseconds : TtlMode

abbrev pub to_lower : ℕ → ℕ
to_lower c = if leb b'A' c && leb c b'Z' then c + 32 else c

unfoldable pub eq_ignore_ascii_case : Bytes → Bytes → Bool
unfolding bytes_eq
eq_ignore_ascii_case a b = bytes_eq (map to_lower a) (map to_lower b)

unfoldable pub parse_expire_condition : Bytes → Option ExpireCondition
unfolding eq_ignore_ascii_case
parse_expire_condition text =
    if eq_ignore_ascii_case text (b'N' ∷ b'X' ∷ [])
    then some nx
    else if eq_ignore_ascii_case text (b'X' ∷ b'X' ∷ [])
    then some xx
    else if eq_ignore_ascii_case text (b'G' ∷ b'T' ∷ [])
    then some gt
    else if eq_ignore_ascii_case text (b'L' ∷ b'T' ∷ [])
    then some lt
    else none

abbrev pub sat_i64 : ℤ → ℤ
sat_i64 z =
    if ltb_ℤ (pos (2 ^ 63 - 1)) z
    then pos (2 ^ 63 - 1)
    else if ltb_ℤ z (negsuc (2 ^ 63 - 1))
    then negsuc (2 ^ 63 - 1)
    else z

unfoldable pub saturating_add : ℤ → ℤ → ℤ
unfolding ◌+ℤ◌
saturating_add a b = sat_i64 (a +ℤ b)

unfoldable pub saturating_sub : ℤ → ℤ → ℤ
unfolding ◌-ℤ◌
saturating_sub a b = sat_i64 (a -ℤ b)

unfoldable pub saturating_mul : ℤ → ℤ → ℤ
unfolding ◌*ℤ◌
saturating_mul a b = sat_i64 (a *ℤ b)

unfoldable pub to_expire_target_ms : ℤ → ExpireMode → ℤ → ℤ
unfolding saturating_add saturating_mul
to_expire_target_ms n relative_seconds now_ms = saturating_add now_ms (saturating_mul n (pos 1000))
to_expire_target_ms n relative_milliseconds now_ms = saturating_add now_ms n
to_expire_target_ms n absolute_seconds now_ms = saturating_mul n (pos 1000)
to_expire_target_ms n absolute_milliseconds now_ms = n

unfoldable pub expire_condition_matches : ExpireCondition → Option ℤ → ℤ → Bool
expire_condition_matches always current target = true
expire_condition_matches nx none target = true
expire_condition_matches nx (some cur) target = false
expire_condition_matches xx none target = false
expire_condition_matches xx (some cur) target = true
expire_condition_matches gt none target = false
expire_condition_matches gt (some cur) target = ltb_ℤ cur target
expire_condition_matches lt none target = true
expire_condition_matches lt (some cur) target = ltb_ℤ target cur
