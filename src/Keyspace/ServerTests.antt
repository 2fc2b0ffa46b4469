-- ===== src/Keyspace/ServerTests.antt =====
-- A run on two databases: writes, a rename over a key, a watch, an edit in place, a swap, a move and a note.
use ratatosk.Prelude.{ℕ, ◌≡◌, refl, Bool, true, Option, none, some, [], ◌∷◌, arith}
use ratatosk.Prelude.Int.{pos}
use ratatosk.Prelude.Eq.{bytes_eq, list_eq}
use ratatosk.Prelude.Maps.{lookup}
use ratatosk.Prelude.Maps
use ratatosk.Prelude.Words.{Bytes}
use ratatosk.Prelude.Decimal.{i64_from_str}
use ratatosk.Keyspace.Value.{
  StoredValue, string, expire_at_ms, as_u8, parse_int_string, set_encoding, set_lru_clock,
}
use ratatosk.Keyspace.Memory.{estimate_object_memory, value_size}
use ratatosk.Keyspace.Shard.{record_watched_existing, sync_expires, empty_shard}
use ratatosk.Keyspace.Versions.{key_version}
use ratatosk.Keyspace.Guard.{
  DbWriteGuard, add_memory, sub_memory, insert, remove, rename, mutate_string, edit_in_place,
  take_with_estimate, insert_with_estimate,
}
use ratatosk.Keyspace.Swapped.{IsSwap, swap_dbs-IsSwap}
use ratatosk.Keyspace.Recount.{total_size}
use ratatosk.Keyspace.Drift
use ratatosk.Keyspace.Drift.{edit_db, then_edit, recompute_memory_estimates-IsSound}
use ratatosk.Keyspace.Mutate.{Honest, IsSteady}
use ratatosk.Keyspace.Reach.{insert_key, rename_key, mutate, edit, take_key, put_key}
use ratatosk.Keyspace.State.{
  DataState, new_state, watch_key, watch_shard, touch_key_version, with_db, db_mut, put_guard,
  swap_dbs, swap_shards, recompute_memory_estimates, estimate_shard_memory,
}
use ratatosk.Keyspace.Whole.{IsSound}
use ratatosk.Keyspace.Steps.{write_db}
use ratatosk.Keyspace.Server.{
  Call, write_to, watch_in, swap_two, recount, call, finished, then_call, Calls-IsSound, noted,
}
use ratatosk.Keyspace.Touch.{touch_key_version-note}

abbrev key_a : Bytes
key_a = b'a' ∷ []

abbrev key_bc : Bytes
key_bc = b'b' ∷ b'c' ∷ []

abbrev hello : StoredValue
hello = record { payload = string (b'h' ∷ b'i' ∷ []); deadline = pos 70; encoding_and_lru = 0 }

abbrev longer : StoredValue
longer = record {
  payload = string (b'h' ∷ b'e' ∷ b'l' ∷ b'l' ∷ []);
  deadline = pos 0;
  encoding_and_lru = 0;
}

abbrev append_bang : Bytes → ℕ × Bytes × Bool
append_bang buf = (0, b'!' ∷ buf, true)

append_bang-Honest : Honest append_bang
append_bang-Honest bytes unchanged = cc

set_lru_clock-IsSteady : IsSteady (set_lru_clock 5)
unfolding set_lru_clock expire_at_ms value_size
set_lru_clock-IsSteady key value = (refl, refl)

abbrev or_new : Option DataState → DataState
or_new none = new_state 0
or_new (some s) = s

abbrev or_empty : Option DbWriteGuard → DbWriteGuard
or_empty none = record { shard = empty_shard; memory = 0; next_key_version = 0 }
or_empty (some g) = g

abbrev c1 : Call ℕ
c1 = write_to 0 (insert_key key_a hello)

abbrev c2 : Call ℕ
c2 = write_to 0 (insert_key key_bc longer)

abbrev c3 : Call ℕ
c3 = write_to 0 (rename_key key_a key_bc)

abbrev c4 : Call ℕ
c4 = watch_in 0 key_bc

abbrev c5 : Call ℕ
c5 = write_to 0 (mutate true key_bc append_bang append_bang-Honest)

abbrev c6 : Call ℕ
c6 = swap_two 0 1

abbrev c7 : Call ℕ
c7 = write_to 1 (edit key_bc (set_lru_clock 5) set_lru_clock-IsSteady)

abbrev c8 : Call ℕ
c8 = write_to 1 (take_key key_bc)

abbrev c9 : Call ℕ
c9 = write_to 0 (put_key key_bc hello)

abbrev c10 : Call ℕ
c10 = recount

abbrev s0 : DataState
s0 = new_state 2

abbrev s1 : DataState
s1 = or_new (call c1 s0)

abbrev s2 : DataState
s2 = or_new (call c2 s1)

abbrev s3 : DataState
s3 = or_new (call c3 s2)

abbrev s4 : DataState
s4 = or_new (call c4 s3)

abbrev s5 : DataState
s5 = or_new (call c5 s4)

abbrev s6 : DataState
s6 = or_new (call c6 s5)

abbrev s7 : DataState
s7 = or_new (call c7 s6)

abbrev s8 : DataState
s8 = or_new (call c8 s7)

abbrev s9 : DataState
s9 = or_new (call c9 s8)

abbrev s10 : DataState
s10 = or_new (call c10 s9)

memory_of_run : s5.db_memory_bytes ≡ 93 ∷ 0 ∷ []
unfolding insert remove rename mutate_string Maps.insert lookup sync_expires expire_at_ms
    estimate_object_memory value_size add_memory sub_memory Maps.remove bytes_eq parse_int_string
    i64_from_str set_encoding set_lru_clock as_u8 record_watched_existing key_version watch_key
    watch_shard with_db db_mut put_guard swap_dbs swap_shards new_state
memory_of_run = refl

Calls-IsSound_example : IsSound s10
unfolding insert remove rename mutate_string Maps.insert lookup sync_expires expire_at_ms
    estimate_object_memory value_size add_memory sub_memory Maps.remove bytes_eq parse_int_string
    i64_from_str set_encoding set_lru_clock as_u8 record_watched_existing key_version watch_key
    watch_shard with_db db_mut put_guard swap_dbs swap_shards new_state edit_in_place
    take_with_estimate insert_with_estimate recompute_memory_estimates estimate_shard_memory
Calls-IsSound_example = Calls-IsSound 2 s10 (
    then_call c1 s0 s1 s10 refl (omega arith, (omega arith, tt))
      (then_call c2 s1 s2 s10 refl (omega arith, (omega arith, tt))
        (then_call c3 s2 s3 s10 refl (omega arith, (omega arith, tt))
          (then_call c4 s3 s4 s10 refl (omega arith, (omega arith, tt))
            (then_call c5 s4 s5 s10 refl (omega arith, (omega arith, tt))
              (then_call c6 s5 s6 s10 refl (omega arith, (omega arith, tt))
                (then_call c7 s6 s7 s10 refl (omega arith, (omega arith, tt))
                  (then_call c8 s7 s8 s10 refl (omega arith, (omega arith, tt))
                    (then_call c9 s8 s9 s10 refl (omega arith, (omega arith, tt))
                      (then_call c10 s9 s10 s10 refl (omega arith, (omega arith, tt))
                        (finished s10)))))))))))

new-IsSound : IsSound s0
new-IsSound = Calls-IsSound {R = ℕ} 2 s0 (finished s0)

touch_key_version-note_example : touch_key_version 0 key_a s0 ≡ write_db 0 (noted key_a) s0
unfolding new_state
touch_key_version-note_example =
    touch_key_version-note 0 key_a s0 empty_shard new-IsSound refl (omega arith)

-- The two databases behind the first call: one holds `a`.
abbrev full : DbWriteGuard
full = or_empty (db_mut 0 s1)

abbrev vacant : DbWriteGuard
vacant = or_empty (db_mut 1 s1)

swap_dbs-IsSwap_example : IsSwap 0 1 full vacant s1 (swap_dbs 0 1 s1)
unfolding insert remove rename mutate_string Maps.insert lookup sync_expires expire_at_ms
    estimate_object_memory value_size add_memory sub_memory Maps.remove bytes_eq parse_int_string
    i64_from_str set_encoding set_lru_clock as_u8 record_watched_existing key_version watch_key
    watch_shard with_db db_mut put_guard swap_dbs swap_shards new_state edit_in_place
    take_with_estimate insert_with_estimate recompute_memory_estimates estimate_shard_memory
swap_dbs-IsSwap_example = swap_dbs-IsSwap 0 1 full vacant s1 (omega arith) refl refl

abbrev grow : StoredValue → StoredValue
grow value = record value { payload = string (b'h' ∷ b'e' ∷ b'l' ∷ b'l' ∷ b'o' ∷ []) }

abbrev grown : DataState
grown = or_new (edit_db 0 key_a grow s1)

s1-IsSound : IsSound s1
unfolding insert remove rename mutate_string Maps.insert lookup sync_expires expire_at_ms
    estimate_object_memory value_size add_memory sub_memory Maps.remove bytes_eq parse_int_string
    i64_from_str set_encoding set_lru_clock as_u8 record_watched_existing key_version watch_key
    watch_shard with_db db_mut put_guard swap_dbs swap_shards new_state edit_in_place
    take_with_estimate insert_with_estimate recompute_memory_estimates estimate_shard_memory
s1-IsSound =
    Calls-IsSound 2 s1 (then_call c1 s0 s1 s1 refl (omega arith, (omega arith, tt)) (finished s1))

recompute_memory_estimates-IsSound_example :
    ((recompute_memory_estimates grown).0 ≡ total_size grown.shards)
    × IsSound (recompute_memory_estimates grown).1
    × ((recompute_memory_estimates grown).1.shards ≡ grown.shards)
unfolding insert remove rename mutate_string Maps.insert lookup sync_expires expire_at_ms
    estimate_object_memory value_size add_memory sub_memory Maps.remove bytes_eq parse_int_string
    i64_from_str set_encoding set_lru_clock as_u8 record_watched_existing key_version watch_key
    watch_shard with_db db_mut put_guard swap_dbs swap_shards new_state edit_in_place
    take_with_estimate insert_with_estimate recompute_memory_estimates estimate_shard_memory
recompute_memory_estimates-IsSound_example =
    recompute_memory_estimates-IsSound s1 grown s1-IsSound
      (then_edit 0 key_a grow s1 grown grown (λ (value : StoredValue). refl) refl
        (Drift.finished grown))
      (omega arith)
