-- ===== src/Slot/Tests.antt =====
-- Slots that a Redis cluster gives.
use ratatosk.Prelude.{◌≡◌, refl, [], ◌∷◌, arith}
use ratatosk.Prelude.Words.{Bytes}
use ratatosk.Prelude.Sets.{contains}
use ratatosk.Slot.{key_hash_slot, extract_hash_tag, position, crc16, crc16_from, crc16_tab}
use ratatosk.Slot.Tag.{tagged, extract_hash_tag-tag_of}

abbrev foo : Bytes
foo = b'f' ∷ b'o' ∷ b'o' ∷ []

slot_of_foo : key_hash_slot foo ≡ 12182
unfolding key_hash_slot extract_hash_tag position crc16 crc16_from crc16_tab
slot_of_foo = refl

extract_hash_tag-tag_of_example :
    extract_hash_tag (b'x' ∷ b'{' ∷ b'f' ∷ b'o' ∷ b'o' ∷ b'}' ∷ b'y' ∷ []) ≡ foo
unfolding contains
extract_hash_tag-tag_of_example =
    extract_hash_tag-tag_of (tagged (b'x' ∷ []) foo (b'y' ∷ [])) (refl, refl, omega arith)
