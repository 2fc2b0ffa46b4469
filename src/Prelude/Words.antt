-- ===== src/Prelude/Words.antt =====
-- Byte strings; `usize` with additions and products that saturate, and wrap-around of 64 bits.
use Prim.Native.Nat.{ℕ, ◌+◌, ◌-◌, ◌*◌, ◌%◌, ◌^◌, min}
use mathlib.Core.List.{List}

abbrev pub max_usize : ℕ
max_usize = 2 ^ 64 - 1

abbrev pub sat_add : ℕ → ℕ → ℕ
sat_add a b = min (a + b) max_usize

abbrev pub sat_mul : ℕ → ℕ → ℕ
sat_mul a b = min (a * b) max_usize

abbrev pub wrap64 : ℕ → ℕ
wrap64 n = n % 2 ^ 64

abbrev pub Bytes : Type 0
Bytes = List ℕ
