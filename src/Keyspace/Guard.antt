-- ===== src/Keyspace/Guard.antt =====
-- The write guard of a database, `DbWriteGuard` of keyspace.rs: the shard that it locks, with the
-- memory counter of that database and the shared counter of key versions, which it reaches.
use ratatosk.Prelude.{
  ℕ, ◌+◌, ◌-◌, Bool, true, false, Option, none, some, List, [], ◌∷◌, length, if◌then◌else◌, leb,
}
use ratatosk.Prelude.Int.{ℤ}
use ratatosk.Prelude.Eq.{list_eq}
use ratatosk.Prelude.Maps.{Map, lookup, contains_key}
use ratatosk.Prelude.Maps
use ratatosk.Prelude.Words.{Bytes, wrap64}
use ratatosk.Keyspace.Value.{
  ValueData, string, string_int, StoredValue, raw, int, expire_at_ms, set_expire_at_ms,
  set_encoding, set_lru_clock, string_bytes, stored_string, parse_int_string, reached,
}
use ratatosk.Keyspace.Memory.{estimate_object_memory}
use ratatosk.Keyspace.Shard.{DbShard, record_modification, record_watched_existing, sync_expires}

pub record DbWriteGuard : Type 0 where
  pub shard : DbShard
  pub memory : ℕ
  pub next_key_version : ℕ

unfoldable pub add_memory : ℕ → DbWriteGuard → DbWriteGuard
add_memory bytes g = record g { memory = wrap64 (g.memory + bytes) }

unfoldable pub sub_memory : ℕ → DbWriteGuard → DbWriteGuard
sub_memory bytes g = record g { memory = g.memory - bytes }

-- From one size to another.
abbrev pub move_memory : ℕ → ℕ → DbWriteGuard → DbWriteGuard
move_memory old_mem new_mem g =
    if leb old_mem new_mem
    then add_memory (new_mem - old_mem) g
    else sub_memory (old_mem - new_mem) g

-- The maps of keys and of deadlines after an insertion.
abbrev pub store : Bytes → StoredValue → DbWriteGuard → DbWriteGuard
store key value g =
    let shard = sync_expires key (expire_at_ms value) g.shard in
    record g { shard = record shard { stored = Maps.insert key value shard.stored } }

abbrev pub drop_key : Bytes → DbWriteGuard → DbWriteGuard
drop_key key g = record g {
  shard = record (g.shard) {
    stored = Maps.remove key g.shard.stored;
    expires = Maps.remove key g.shard.expires;
  };
}

abbrev pub account : Bytes → StoredValue → Option StoredValue → DbWriteGuard → DbWriteGuard
account key value none g = add_memory (estimate_object_memory key value) g
account key value (some old) g =
    move_memory (estimate_object_memory key old) (estimate_object_memory key value) g

unfoldable pub insert : Bytes → StoredValue → DbWriteGuard → Option StoredValue × DbWriteGuard
insert key value g =
    let old = lookup key g.shard.stored in (old, account key value old (store key value g))

abbrev pub remove_entry : Bytes → DbWriteGuard → Option StoredValue → DbWriteGuard
remove_entry key g none = g
remove_entry key g (some value) = sub_memory (estimate_object_memory key value) (drop_key key g)

unfoldable pub remove : Bytes → DbWriteGuard → Option StoredValue × DbWriteGuard
remove key g = let old = lookup key g.shard.stored in (old, remove_entry key g old)

-- `rename` behind the removal of the source, whose value is `value`.
abbrev pub rename_found : Bytes → Bytes → DbWriteGuard → Option StoredValue → Bool × DbWriteGuard
rename_found source target g none = (false, g)
rename_found source target g (some value) = (
  true,
  store target value
      (move_memory (length source) (length target) (remove target (drop_key source g)).1),
)

unfoldable pub rename : Bytes → Bytes → DbWriteGuard → Bool × DbWriteGuard
unfolding remove
rename source target g = rename_found source target g (lookup source g.shard.stored)

abbrev pub estimated : Bytes → Option StoredValue → Option (StoredValue × ℕ)
estimated key none = none
estimated key (some value) = some (value, estimate_object_memory key value)

unfoldable pub take_with_estimate : Bytes → DbWriteGuard → Option (StoredValue × ℕ) × DbWriteGuard
take_with_estimate key g =
    let old = lookup key g.shard.stored in (estimated key old, remove_entry key g old)

unfoldable pub insert_with_estimate : Bytes → StoredValue → ℕ → DbWriteGuard → DbWriteGuard
insert_with_estimate key value estimate g = add_memory estimate (store key value g)

-- The last part of MOVE, on the target: nothing if the key is there, else the value with the estimate
-- that `take_with_estimate` computed for it.
abbrev pub put_taken : Bytes → StoredValue → DbWriteGuard → Option StoredValue → DbWriteGuard
put_taken key value g none = insert_with_estimate key value (estimate_object_memory key value) g
put_taken key value g (some old) = g

abbrev pub expiry_set : Bytes → Option ℤ → DbWriteGuard → Option StoredValue → Bool × DbWriteGuard
expiry_set key expire g none = (false, g)
expiry_set key expire g (some value) = (
  true,
  record g {
    shard = sync_expires key expire (record (g.shard) {
      stored = Maps.insert key (set_expire_at_ms expire value) g.shard.stored;
    });
  },
)

unfoldable pub set_key_expiry : Bytes → Option ℤ → DbWriteGuard → Bool × DbWriteGuard
set_key_expiry key expire g = expiry_set key expire g (lookup key g.shard.stored)

unfoldable pub note_modification : Bytes → DbWriteGuard → DbWriteGuard
note_modification key g =
    let r = record_modification key (g.next_key_version, g.shard) in
    record g { next_key_version = r.0; shard = r.1 }

-- Removal of a key, recorded for those who watch it.
abbrev pub remove_noted : Bytes → DbWriteGuard → DbWriteGuard
remove_noted key g = note_modification key (remove key g).1

abbrev pub is_due : ℤ → Option StoredValue → Bool
is_due now_ms none = false
is_due now_ms (some value) = reached now_ms (expire_at_ms value)

unfoldable pub purge_expired_key : Bytes → ℤ → DbWriteGuard → Bool × DbWriteGuard
purge_expired_key key now_ms g =
    if is_due now_ms (lookup key g.shard.stored) then (true, remove_noted key g) else (false, g)

abbrev pub expired_keys : ℤ → Map Bytes StoredValue → List Bytes
expired_keys now_ms [] = []
expired_keys now_ms ((key, value) ∷ m) =
    let rest = expired_keys now_ms m in
    if reached now_ms (expire_at_ms value) then key ∷ rest else rest

abbrev pub remove_each : List Bytes → DbWriteGuard → DbWriteGuard
remove_each [] g = g
remove_each (key ∷ keys) g = remove_each keys (remove_noted key g)

unfoldable pub purge_expired_keys : ℤ → DbWriteGuard → DbWriteGuard
purge_expired_keys now_ms g = remove_each (expired_keys now_ms g.shard.stored) g

-- The payload and encoding of a modified string.
abbrev pub edited : Bytes → Option ℤ → StoredValue → StoredValue
edited buf (some n) value = set_encoding int (record value { payload = string_int n })
edited buf none value = set_encoding raw (record value { payload = string buf })

-- A payload that `f` did not modify: a buffer that was edited in place is put back, another value is
-- put back as it was.
abbrev pub put_back : Bool → Bytes → ValueData → ValueData
put_back shared buf (string bytes) = if shared then string bytes else string buf
put_back shared buf payload = payload

abbrev pub replace : Bytes → StoredValue → StoredValue → DbWriteGuard → DbWriteGuard
replace key old value g =
    move_memory (estimate_object_memory key old) (estimate_object_memory key value)
      (record g { shard = record (g.shard) { stored = Maps.insert key value g.shard.stored } })

-- What `f` gives: its result, the buffer, and whether it modified it.
module _ {R : Type 0} where
  abbrev pub mutate_present :
      Bool → Bytes → StoredValue → R × Bytes × Bool → DbWriteGuard → R × DbWriteGuard
  mutate_present shared key value (result, buf, false) g = (
    result,
    record g {
      shard = record (g.shard) {
        stored =
            Maps.insert key (record value { payload = put_back shared buf value.payload })
              g.shard.stored;
      };
    },
  )
  mutate_present shared key value (result, buf, true) g =
      (result, replace key value (set_lru_clock 0 (edited buf (parse_int_string buf) value)) g)

  abbrev pub mutate_missing : Bytes → R × Bytes × Bool → DbWriteGuard → R × DbWriteGuard
  mutate_missing key (result, buf, false) g = (result, g)
  mutate_missing key (result, buf, true) g = (result, (insert key (stored_string buf none) g).1)

  abbrev pub given : R × DbWriteGuard → Option R × DbWriteGuard
  given (result, g) = (some result, g)

  abbrev pub mutate_string_bytes :
      Bool
      → Bytes
      → (Bytes → R × Bytes × Bool)
      → StoredValue
      → Option Bytes
      → DbWriteGuard
      → Option R × DbWriteGuard
  mutate_string_bytes shared key f value none g = (none, g)
  mutate_string_bytes shared key f value (some bytes) g =
      given (mutate_present shared key value (f bytes) g)

  abbrev pub mutate_by :
      Bool
      → Bytes
      → (Bytes → R × Bytes × Bool)
      → Option StoredValue
      → DbWriteGuard
      → Option R × DbWriteGuard
  mutate_by shared key f none g = given (mutate_missing key (f []) g)
  mutate_by shared key f (some value) g =
      mutate_string_bytes shared key f value (string_bytes value.payload) g

  -- `shared` is whether another handle to the buffer exists, so that it is copied first.
  unfoldable pub mutate_string :
      Bool → Bytes → (Bytes → R × Bytes × Bool) → DbWriteGuard → Option R × DbWriteGuard
  unfolding insert
  mutate_string shared key f g = mutate_by shared key f (lookup key g.shard.stored) g

-- An edit of a value in place, which the guard lends out by `DerefMut`: no memory is counted, and no
-- deadline is moved.
abbrev pub edit_found :
    Bytes → (StoredValue → StoredValue) → DbWriteGuard → Option StoredValue → DbWriteGuard
edit_found key f g none = g
edit_found key f g (some value) = record g {
  shard = record (g.shard) { stored = Maps.insert key (f value) g.shard.stored };
}

unfoldable pub edit_in_place : Bytes → (StoredValue → StoredValue) → DbWriteGuard → DbWriteGuard
edit_in_place key f g = edit_found key f g (lookup key g.shard.stored)

-- `clear_db` of `ServerState`, and `lazy_free_flush_db` but for the values handed to the thread that
-- frees them.
unfoldable pub clear_db : DbWriteGuard → DbWriteGuard
clear_db g =
    let r = record_watched_existing (g.next_key_version, g.shard) in
    record {
      next_key_version = r.0;
      memory = 0;
      shard = record (r.1) { stored = []; expires = [] };
    }

-- `lazy_free_del`, likewise
abbrev pub free_found : Bytes → DbWriteGuard → Option StoredValue → Bool × DbWriteGuard
free_found key g none = (false, g)
free_found key g (some value) = (true, note_modification key (remove_entry key g (some value)))

unfoldable pub lazy_free_del : Bytes → DbWriteGuard → Bool × DbWriteGuard
lazy_free_del key g = free_found key g (lookup key g.shard.stored)
