-- ===== src/Keyspace/State.antt =====
-- All databases, `DataState` of keyspace.rs, and the operations of `ServerState` on them. An index out of
-- range panics, and so does a swap of a database with itself: `none`. A panic ends the call alone.
use ratatosk.Prelude.{
  ℕ, ◌+◌, ◌-◌, ◌^◌, Bool, true, false, Option, none, some, List, [], ◌∷◌, length, map, get_elem?,
  set, replicate, if◌then◌else◌, ltb, ◌==◌,
}
use ratatosk.Prelude.Int.{ℤ}
use ratatosk.Prelude.Eq.{list_eq}
use ratatosk.Prelude.Maps.{Map, lookup, insert, remove}
use ratatosk.Prelude.Words.{Bytes, wrap64, sat_add}
use ratatosk.Keyspace.Value.{StoredValue, expire_at_ms}
use ratatosk.Keyspace.Memory.{estimate_object_memory, fold_of}
use ratatosk.Keyspace.Shard.{DbShard, empty_shard, record_watched_existing}
use ratatosk.Keyspace.Versions.{key_version, version_in}
use ratatosk.Keyspace.Guard.{DbWriteGuard, note_modification}

pub record DataState : Type 0 where
  pub shards : List DbShard
  pub next_key_version : ℕ
  pub watched_keys : ℕ
  pub db_memory_bytes : List ℕ

-- `DataState::new`
unfoldable pub new_state : ℕ → DataState
new_state db_count = record {
  shards = replicate db_count empty_shard;
  next_key_version = 1;
  watched_keys = 0;
  db_memory_bytes = replicate db_count 0;
}

unfoldable pub has_watched_keys : DataState → Bool
has_watched_keys s = ltb 0 s.watched_keys

unfoldable pub db_count : DataState → ℕ
db_count s = length s.shards

abbrev pub sum_memory : List ℕ → ℕ
sum_memory [] = 0
sum_memory (m ∷ ms) = wrap64 (m + sum_memory ms)

unfoldable pub estimated_memory : DataState → ℕ
estimated_memory s = sum_memory s.db_memory_bytes

unfoldable pub alloc_key_version : DataState → ℕ × DataState
alloc_key_version s =
    (s.next_key_version, record s { next_key_version = wrap64 (s.next_key_version + 1) })

unfoldable pub reset_memory : ℕ → ℕ → DataState → DataState
reset_memory idx bytes s = record s { db_memory_bytes = set s.db_memory_bytes idx bytes }

abbrev pub guard_of : ℕ → Option DbShard → Option ℕ → Option DbWriteGuard
guard_of next (some shard) (some memory) =
    some (record { shard = shard; memory = memory; next_key_version = next })
guard_of next none memory = none
guard_of next (some shard) none = none

-- `db_mut`, and what the guard wrote when it is dropped
unfoldable pub db_mut : ℕ → DataState → Option DbWriteGuard
db_mut idx s =
    guard_of s.next_key_version (get_elem? s.shards idx) (get_elem? s.db_memory_bytes idx)

unfoldable pub put_guard : ℕ → DbWriteGuard → DataState → DataState
put_guard idx g s = record s {
  shards = set s.shards idx g.shard;
  next_key_version = g.next_key_version;
  db_memory_bytes = set s.db_memory_bytes idx g.memory;
}

abbrev pub written :
    {R : Type 0}
    → ℕ
    → (DbWriteGuard → R × DbWriteGuard)
    → DataState
    → Option DbWriteGuard
    → Option (R × DataState)
written idx f s none = none
written idx f s (some g) = some ((f g).0, put_guard idx (f g).1 s)

-- A call on the write guard of one database.
unfoldable pub with_db :
    {R : Type 0} → ℕ → (DbWriteGuard → R × DbWriteGuard) → DataState → Option (R × DataState)
unfolding db_mut
with_db idx f s = written idx f s (db_mut idx s)

-- `watch_key` on the shard: whether the key was not watched before, and the version.
unfoldable pub watch_shard : Bytes → DbShard → Bool × ℕ × DbShard
unfolding key_version
watch_shard key shard =
    let refs = version_in (lookup key shard.watch_refs) in
    (
      refs == 0,
      key_version key shard,
      record shard { watch_refs = insert key (refs + 1) shard.watch_refs },
    )

-- The counter wraps like its atomic operations do.
abbrev pub count_watched : Bool → ℕ → ℕ
count_watched fresh n = if fresh then wrap64 (n + 1) else n

abbrev pub watch_found : ℕ → Bytes → DataState → Option DbShard → Option (ℕ × DataState)
watch_found idx key s none = none
watch_found idx key s (some shard) =
    let r = watch_shard key shard in
    some (
      r.1,
      record s { shards = set s.shards idx r.2; watched_keys = count_watched r.0 s.watched_keys },
    )

unfoldable pub watch_key : ℕ → Bytes → DataState → Option (ℕ × DataState)
unfolding watch_shard
watch_key idx key s = watch_found idx key s (get_elem? s.shards idx)

abbrev pub unwatch_found : Bytes → DbShard → Option ℕ → Bool × DbShard
unwatch_found key shard none = (false, shard)
unwatch_found key shard (some refs) =
    if refs - 1 == 0
    then (
      true,
      record shard {
        watch_refs = remove key shard.watch_refs;
        key_versions = remove key shard.key_versions;
      },
    )
    else (false, record shard { watch_refs = insert key (refs - 1) shard.watch_refs })

-- `unwatch_key` on the shard: whether the key's last registration is gone. No entry has 0
-- registrations, so the subtraction does not stop at 0.
unfoldable pub unwatch_shard : Bytes → DbShard → Bool × DbShard
unwatch_shard key shard = unwatch_found key shard (lookup key shard.watch_refs)

abbrev pub discount_watched : Bool → ℕ → ℕ
discount_watched gone n = if gone then wrap64 (n + (2 ^ 64 - 1)) else n

abbrev pub unwatch_at : ℕ → Bytes → DataState → Option DbShard → Option DataState
unwatch_at idx key s none = none
unwatch_at idx key s (some shard) =
    let r = unwatch_shard key shard in
    some (record s {
      shards = set s.shards idx r.1;
      watched_keys = discount_watched r.0 s.watched_keys;
    })

unfoldable pub unwatch_key : ℕ → Bytes → DataState → Option DataState
unfolding unwatch_shard
unwatch_key idx key s = unwatch_at idx key s (get_elem? s.shards idx)

abbrev pub touched : {R : Type 0} → Option (R × DataState) → Option DataState
touched none = none
touched (some (r, s)) = some s

unfoldable pub touch_key_version : ℕ → Bytes → DataState → Option DataState
unfolding has_watched_keys with_db
touch_key_version idx key s =
    if has_watched_keys s
    then touched (with_db idx (λ (g : DbWriteGuard). (tt, note_modification key g)) s)
    else some s

unfoldable pub snapshot_all : DataState → List (Map Bytes StoredValue)
snapshot_all s = map (λ (shard : DbShard). shard.stored) s.shards

abbrev pub index_deadline : Bytes → Option ℤ → Map Bytes ℤ → Map Bytes ℤ
index_deadline key none m = m
index_deadline key (some ms) m = insert key ms m

-- The deadlines of loaded values, collected from the first on.
abbrev pub index_expires : Map Bytes StoredValue → Map Bytes ℤ → Map Bytes ℤ
index_expires [] m = m
index_expires ((key, value) ∷ stored) m =
    index_expires stored (index_deadline key (expire_at_ms value) m)

abbrev pub loaded_memory : Map Bytes StoredValue → ℕ → ℕ
loaded_memory [] mem = mem
loaded_memory ((key, value) ∷ stored) mem =
    loaded_memory stored (wrap64 (mem + estimate_object_memory key value))

-- `estimate_shard_memory`
abbrev pub counted_memory : Map Bytes StoredValue → ℕ → ℕ
counted_memory [] total = total
counted_memory ((key, value) ∷ stored) total =
    counted_memory stored (sat_add total (estimate_object_memory key value))

unfoldable pub estimate_shard_memory : DbShard → ℕ
estimate_shard_memory shard = counted_memory shard.stored 0

-- There is a counter for each database, so that no `reset_memory` panics.
unfoldable pub recompute_memory_estimates : DataState → ℕ × DataState
unfolding estimate_shard_memory
recompute_memory_estimates s =
    let counted = map estimate_shard_memory s.shards in
    (fold_of sat_add 0 counted, record s { db_memory_bytes = counted })

-- Other contents for a shard: watched keys that it has or had are marked.
abbrev pub replace_stored : Map Bytes StoredValue → ℕ × DbShard → ℕ × DbShard
replace_stored stored s =
    let r = record_watched_existing s in
    record_watched_existing (r.0, record (r.1) { stored = stored })

unfoldable pub load_shard : Map Bytes StoredValue → ℕ × DbShard → ℕ × DbShard
load_shard stored s =
    let r = replace_stored stored s in (r.0, record (r.1) { expires = index_expires stored [] })

abbrev pub load_each :
    List (Map Bytes StoredValue) → ℕ → List DbShard → List ℕ → ℕ × List DbShard × List ℕ
load_each [] next shards memory = (next, shards, memory)
load_each (m ∷ ms) next [] memory = (next, [], memory)
load_each (m ∷ ms) next (d ∷ ds) [] = (next, d ∷ ds, [])
load_each (m ∷ ms) next (d ∷ ds) (b ∷ bs) =
    let r = load_shard m (next, d) in
    let rest = load_each ms r.0 ds bs in (rest.0, r.1 ∷ rest.1, loaded_memory m 0 ∷ rest.2)

unfoldable pub load_from_snapshot : List (Map Bytes StoredValue) → DataState → DataState
unfolding load_shard
load_from_snapshot snapshot s =
    let r = load_each snapshot s.next_key_version s.shards s.db_memory_bytes in
    record s { next_key_version = r.0; shards = r.1; db_memory_bytes = r.2 }

abbrev pub clear_each : ℕ → List DbShard → ℕ × List DbShard
clear_each next [] = (next, [])
clear_each next (d ∷ ds) =
    let r = record_watched_existing (next, d) in
    let rest = clear_each r.0 ds in (rest.0, record (r.1) { stored = []; expires = [] } ∷ rest.1)

unfoldable pub clear_all_dbs : DataState → DataState
clear_all_dbs s =
    let r = clear_each s.next_key_version s.shards in
    record s {
      next_key_version = r.0;
      shards = r.1;
      db_memory_bytes = replicate (length s.db_memory_bytes) 0;
    }

-- `swap_dbs` on its two shards
unfoldable pub swap_shards : ℕ → DbShard → DbShard → ℕ × DbShard × DbShard
swap_shards next left right =
    let a = record_watched_existing (next, left) in
    let b = record_watched_existing (a.0, right) in
    let c =
      record_watched_existing (b.0, record (a.1) { stored = b.1.stored; expires = b.1.expires }) in
    let d =
      record_watched_existing (c.0, record (b.1) { stored = a.1.stored; expires = a.1.expires }) in
    (d.0, c.1, d.1)

abbrev pub swapped :
    ℕ → ℕ → DataState → Option DbWriteGuard → Option DbWriteGuard → Option DataState
swapped left right s (some a) (some b) =
    let r = swap_shards s.next_key_version a.shard b.shard in
    some (record s {
      shards = set (set s.shards left r.1) right r.2;
      next_key_version = r.0;
      db_memory_bytes = set (set s.db_memory_bytes left b.memory) right a.memory;
    })
swapped left right s none b = none
swapped left right s (some a) none = none

unfoldable pub swap_dbs : ℕ → ℕ → DataState → Option DataState
unfolding swap_shards db_mut
swap_dbs left right s =
    if left == right then none else swapped left right s (db_mut left s) (db_mut right s)
