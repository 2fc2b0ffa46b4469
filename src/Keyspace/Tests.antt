-- ===== src/Keyspace/Tests.antt =====
-- Concrete runs of the keyspace model.
use ratatosk.Prelude.{ℕ, ◌≡◌, ◌↔◌, refl, true, false, some, [], ◌∷◌, arith}
use ratatosk.Prelude.Int.{pos}
use ratatosk.Prelude.Eq.{bytes_eq, list_eq}
use ratatosk.Keyspace.Renamed.{renamed_at, rename-renamed_at}
use ratatosk.Prelude.Maps.{lookup, contains_key}
use ratatosk.Prelude.Maps
use ratatosk.Prelude.Words.{Bytes}
use ratatosk.Keyspace.Value.{StoredValue, string, expire_at_ms}
use ratatosk.Keyspace.Memory.{value_size, estimate_object_memory}
use ratatosk.Keyspace.Agrees.{empty-Agrees}
use ratatosk.Keyspace.Synced.{IsSynced}
use ratatosk.Keyspace.Writes.{insert-IsSynced}
use ratatosk.Keyspace.Move.{Moved, insert_with_estimate-take}
use ratatosk.Keyspace.Shard.{record_modification, record_watched_existing, sync_expires}
use ratatosk.Keyspace.Versions.{key_version, IsBelow}
use ratatosk.Keyspace.Guard.{
  DbWriteGuard, note_modification, purge_expired_keys, rename, insert, add_memory,
  take_with_estimate, insert_with_estimate,
}
use ratatosk.Keyspace.Reach.{note}
use ratatosk.Keyspace.Purge.{Purged, purge_expired_keys-Purged, counted}
use ratatosk.Keyspace.Session.{
  quiet, then_event, Event, apply_event, write, elsewhere, swap_left, key_version-marks,
}
use ratatosk.Keyspace.State.{swap_shards}

abbrev key_a : Bytes
key_a = b'a' ∷ []

abbrev key_bc : Bytes
key_bc = b'b' ∷ b'c' ∷ []

abbrev hello : StoredValue
hello = record { payload = string (b'h' ∷ b'i' ∷ []); deadline = pos 70; encoding_and_lru = 0 }

abbrev longer : StoredValue
longer = record {
  payload = string (b'h' ∷ b'e' ∷ b'l' ∷ b'l' ∷ []);
  deadline = pos 0;
  encoding_and_lru = 0;
}

-- `bc` is watched and due.
abbrev due : DbWriteGuard
due = record {
  shard = record {
    stored = (key_a, longer) ∷ (key_bc, hello) ∷ [];
    key_versions = (key_bc, 4) ∷ [];
    watch_refs = (key_bc, 1) ∷ [];
    expires = (key_bc, pos 70) ∷ [];
  };
  memory = 185;
  next_key_version = 9;
}

due-IsBelow : IsBelow (counted due)
unfolding key_version lookup
due-IsBelow k = ground arith

purge_expired_keys-Purged_example : Purged (pos 99) due (purge_expired_keys (pos 99) due)
unfolding lookup bytes_eq
purge_expired_keys-Purged_example =
    purge_expired_keys-Purged (pos 99) due (refl, (refl, tt)) due-IsBelow (omega arith)

abbrev noted : Event ℕ
noted = write (note key_bc)

abbrev passed : Event ℕ
passed = elsewhere 5

-- `bc` is watched and missing.
abbrev waiting : DbWriteGuard
waiting = record {
  shard = record {
    stored = (key_a, longer) ∷ [];
    key_versions = (key_bc, 4) ∷ [];
    watch_refs = (key_bc, 1) ∷ [];
    expires = [];
  };
  memory = 93;
  next_key_version = 9;
}

-- A swap brings it, with other databases at work before.
abbrev brought : Event ℕ
brought = swap_left due

abbrev session_end : DbWriteGuard
session_end = apply_event noted (apply_event brought (apply_event passed waiting))

key_version-marks_example :
    (key_version key_bc session_end.shard ≡ key_version key_bc waiting.shard) ↔ (true ≡ false)
unfolding lookup bytes_eq Maps.insert note_modification record_modification key_version swap_shards
    record_watched_existing
key_version-marks_example =
    let first = apply_event passed waiting in
    let second = apply_event brought first in
    key_version-marks key_bc waiting session_end true
      (then_event passed waiting session_end true true (refl, tt) refl (omega arith)
        (then_event brought first session_end true true (refl, tt) refl (omega arith)
          (then_event noted second session_end false true (refl, (refl, tt)) refl (omega arith)
            (quiet session_end) refl)
          refl)
        refl)
      refl (omega arith)

abbrev other : DbWriteGuard
other = record {
  shard = record { stored = []; key_versions = []; watch_refs = []; expires = [] };
  memory = 0;
  next_key_version = 1;
}

abbrev one_key : DbWriteGuard
one_key = record {
  shard = record {
    stored = (key_a, longer) ∷ [];
    key_versions = [];
    watch_refs = [];
    expires = [];
  };
  memory = 93;
  next_key_version = 1;
}

other-IsSynced : IsSynced other
other-IsSynced = record { agrees = empty-Agrees; memory_exact = refl; fits = omega arith }

one_key-IsSynced : IsSynced one_key
unfolding insert Maps.insert lookup sync_expires expire_at_ms estimate_object_memory value_size
    add_memory Maps.remove
one_key-IsSynced = insert-IsSynced key_a longer other other-IsSynced (omega arith)

insert_with_estimate-take_example :
    ((take_with_estimate key_a one_key).0 ≡ some (longer, estimate_object_memory key_a longer))
    × Moved key_a longer one_key other
        (take_with_estimate key_a one_key).1
        (insert_with_estimate key_a longer (estimate_object_memory key_a longer) other)
unfolding lookup bytes_eq value_size Maps.insert
insert_with_estimate-take_example =
    insert_with_estimate-take key_a longer one_key other one_key-IsSynced other-IsSynced refl refl
      (omega arith)

rename-renamed_at_example :
    ((rename key_bc key_a due).0 ≡ contains_key key_bc due.shard.stored)
    × (lookup key_a (rename key_bc key_a due).1.shard.stored
        ≡ renamed_at key_bc key_a key_a due.shard.stored)
rename-renamed_at_example = rename-renamed_at key_bc key_a key_a due
