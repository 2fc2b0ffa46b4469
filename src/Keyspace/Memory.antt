-- ===== src/Keyspace/Memory.antt =====
-- The memory estimate of a key and its value, crates/ratatosk-engine/src/eviction.rs. Plain additions
-- wrap at 64 bits, the saturating ones are cut off.
use ratatosk.Prelude.{ℕ, ◌+◌, ◌*◌, List, [], ◌∷◌, length}
use ratatosk.Prelude.Words.{Bytes, sat_add, sat_mul, wrap64}
use ratatosk.Keyspace.Value.{
  StreamEntry, StreamConsumer, StreamGroup, StreamPendingEntry, HashFieldEntry, ValueData, string,
  string_int, hash, list, set, set_int, sorted_set, stream, StoredValue, StreamId,
}

-- `iter().map(size).sum()`
abbrev pub sum_of : {A : Type 0} → (A → ℕ) → List A → ℕ
sum_of size [] = 0
sum_of size (x ∷ xs) = wrap64 (size x + sum_of size xs)

-- `iter().fold(0, add)`
abbrev pub fold_of : {A : Type 0} → (ℕ → A → ℕ) → ℕ → List A → ℕ
fold_of add total [] = total
fold_of add total (x ∷ xs) = fold_of add (add total x) xs

abbrev pub field_size : Bytes × Bytes → ℕ
field_size (k, v) = wrap64 (length k + length v + 48)

abbrev pub stream_entry_size : StreamEntry → ℕ
stream_entry_size e = wrap64 (32 + sum_of field_size e.fields)

abbrev pub add_consumer : ℕ → Bytes × StreamConsumer → ℕ
add_consumer total (name, consumer) =
    sat_add (sat_add (sat_add total 96) (length name)) (sat_mul (length consumer.pending) 16)

abbrev pub add_pending : ℕ → StreamId × StreamPendingEntry → ℕ
add_pending total (id, entry) = sat_add (sat_add (sat_add total 64) 16) (length entry.consumer)

abbrev pub add_group : ℕ → Bytes × StreamGroup → ℕ
add_group total (name, group) =
    sat_add
      (sat_add (sat_add (sat_add total 256) (length name)) (fold_of add_consumer 0 group.consumers))
      (fold_of add_pending 0 group.pending)

abbrev pub add_member : ℕ → Bytes × ℕ → ℕ
add_member total (member, score) = sat_add total (length member)

abbrev pub hash_field_size : Bytes × HashFieldEntry → ℕ
hash_field_size (k, v) = wrap64 (length k + length v.value + 64)

abbrev pub element_size : Bytes → ℕ
element_size b = wrap64 (length b + 48)

unfoldable pub value_size : ValueData → ℕ
value_size (string s) = length s
value_size (string_int n) = 8
value_size (list l) = wrap64 (wrap64 (length l * 24) + sum_of length l)
value_size (hash h) = sum_of hash_field_size h
value_size (set s) = sum_of element_size s
value_size (set_int s) = wrap64 (length s * 8)
value_size (sorted_set z) =
    sat_add (sat_mul (length z.by_member) 128) (fold_of add_member 0 z.by_member)
value_size (stream es groups meta) =
    wrap64 (sum_of stream_entry_size es + fold_of add_group 0 groups)

-- The size before it wraps; a `StoredValue` has 24 bytes.
abbrev pub exact_size : Bytes → StoredValue → ℕ
exact_size key v = 64 + length key + value_size v.payload + 24

unfoldable pub estimate_object_memory : Bytes → StoredValue → ℕ
unfolding value_size
estimate_object_memory key v = wrap64 (exact_size key v)
