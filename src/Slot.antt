-- ===== src/Slot.antt =====
-- Hash slots of keys, crates/ratatosk-engine/src/slot.rs. A `u16` is a number below 2^16; an entry of
-- the CRC's table is computed where it is read.
use ratatosk.Prelude.{
  ℕ, zero, suc, ◌+◌, ◌*◌, ◌/◌, ◌%◌, ◌^◌, Bool, true, false, Option, none, some, List, [], ◌∷◌, drop,
  take, if◌then◌else◌, ◌==◌, leb,
}
use Prim.Native.Nat.{bit_xor}
use ratatosk.Prelude.Words.{Bytes}
mod Tests
pub mod Tag

abbrev pub slot_count : ℕ
slot_count = 16384

-- One shift of the table's inner loop, with the polynomial 0x1021; the bit that is shifted out is lost.
abbrev pub shift_once : ℕ → ℕ
shift_once crc =
    let shifted = crc * 2 % 2 ^ 16 in if leb (2 ^ 15) crc then bit_xor shifted 4129 else shifted

abbrev pub shift_times : ℕ → ℕ → ℕ
shift_times zero crc = crc
shift_times (suc n) crc = shift_times n (shift_once crc)

unfoldable pub crc16_tab : ℕ → ℕ
crc16_tab i = shift_times 8 (i * 256)

unfoldable pub crc16_from : ℕ → Bytes → ℕ
unfolding crc16_tab
crc16_from crc [] = crc
crc16_from crc (byte ∷ bytes) =
    crc16_from (bit_xor (crc * 256 % 2 ^ 16) (crc16_tab (bit_xor (crc / 256) byte))) bytes

unfoldable pub crc16 : Bytes → ℕ
unfolding crc16_from
crc16 bytes = crc16_from 0 bytes

abbrev pub moved_on : Option ℕ → Option ℕ
moved_on none = none
moved_on (some i) = some (suc i)

-- `iter().position(|&b| b == byte)`
unfoldable pub position : ℕ → Bytes → Option ℕ
position byte [] = none
position byte (b ∷ bytes) =
    let rest = moved_on (position byte bytes) in if b == byte then some 0 else rest

abbrev pub tag_until : Bytes → ℕ → Option ℕ → Bytes
tag_until key start none = key
tag_until key start (some zero) = key
tag_until key start (some (suc n)) = take (suc n) (drop (start + 1) key)

abbrev pub tag_from : Bytes → Option ℕ → Bytes
tag_from key none = key
tag_from key (some start) = tag_until key start (position b'}' (drop (start + 1) key))

unfoldable pub extract_hash_tag : Bytes → Bytes
unfolding position
extract_hash_tag key = tag_from key (position b'{' key)

unfoldable pub key_hash_slot : Bytes → ℕ
unfolding crc16 extract_hash_tag
key_hash_slot key = crc16 (extract_hash_tag key) % slot_count
