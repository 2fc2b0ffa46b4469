-- ===== src/Keyspace/Writes.antt =====
-- The writes of `DbWriteGuard` in keyspace.rs, each of which keeps the counter and the deadlines.
use ratatosk.Prelude.{
  ◌^◌, ◌<◌, ◌≡◌, refl, ap, Option, none, some, List, [], ◌∷◌, inl, inr, Bool-cases, Option-cases,
  arith,
}
use ratatosk.Prelude.Int.{ℤ}
use ratatosk.Prelude.Eq.{list_eq}
use ratatosk.Prelude.Maps.{Map, lookup, contains_key}
use ratatosk.Prelude.Maps
use ratatosk.Prelude.Sums.{total-insert}
use ratatosk.Prelude.Words.{Bytes}
use ratatosk.Keyspace.Value.{StoredValue, set_expire_at_ms}
use ratatosk.Keyspace.Memory.{exact_size, estimate_object_memory}
use ratatosk.Keyspace.Shard.{DbShard, record_modification, sync_expires}
use ratatosk.Keyspace.Agrees.{set-Agrees, store-Agrees, empty-Agrees}
use ratatosk.Keyspace.Synced.{
  live_size, IsSynced, drop-Synced, remove_entry-IsSynced, remove-IsSynced, moved-IsSynced,
  move-counted, shard-move,
}
use ratatosk.Keyspace.Guard.{
  DbWriteGuard, add_memory, sub_memory, store, account, insert, remove_entry, remove,
  note_modification, remove_noted, set_key_expiry, expiry_set, purge_expired_key,
  purge_expired_keys, remove_each, expired_keys, is_due, clear_db, lazy_free_del,
  take_with_estimate, insert_with_estimate, put_taken,
}

account-IsSynced :
    (key : Bytes) (value : StoredValue) (old : Option StoredValue) (g : DbWriteGuard)
    → IsSynced g
    → lookup key g.shard.stored ≡ old
    → live_size (Maps.insert key value g.shard.stored) < 2 ^ 64
    → IsSynced (account key value old (store key value g))
unfolding estimate_object_memory add_memory sync_expires
account-IsSynced key value none g s found small = record {
  agrees = store-Agrees key value s.agrees;
  memory_exact =
      ground
        (arith, total-insert exact_size key value g.shard.stored, found, s.fits, s.memory_exact);
  fits = small;
}
account-IsSynced key value (some old) g s found small =
    moved-IsSynced (estimate_object_memory key old) (estimate_object_memory key value)
      (store key value g) (store-Agrees key value s.agrees)
      (move-counted key old value (store key value g) s found small) small

stored-account :
    (key : Bytes) (value : StoredValue) (old : Option StoredValue) (g : DbWriteGuard)
    → (account key value old g).shard ≡ g.shard
unfolding add_memory
stored-account key value none g = refl
stored-account key value (some old) g =
    shard-move (estimate_object_memory key old) (estimate_object_memory key value) g

pub insert-IsSynced :
    (key : Bytes) (value : StoredValue) (g : DbWriteGuard)
    → IsSynced g
    → live_size (insert key value g).1.shard.stored < 2 ^ 64
    → IsSynced (insert key value g).1
unfolding insert sync_expires
insert-IsSynced key value g s small =
    let old = lookup key g.shard.stored in
    let same =
      ap (λ (d : DbShard). live_size d.stored) (stored-account key value old (store key value g)) in
    account-IsSynced key value old g s refl (omega (arith, small, same))

pub note_modification-IsSynced :
    (key : Bytes) (g : DbWriteGuard) → IsSynced g → IsSynced (note_modification key g)
unfolding note_modification record_modification
note_modification-IsSynced key g s = elim (Bool-cases (contains_key key g.shard.watch_refs)) [
  | inl h ↦ rw h s
  | inr h ↦ rw h s
]

remove_noted-IsSynced :
    (key : Bytes) (g : DbWriteGuard) → IsSynced g → IsSynced (remove_noted key g)
remove_noted-IsSynced key g s =
    note_modification-IsSynced key (remove key g).1 (remove-IsSynced key g s)

-- The expiry does not count in the size of a value.
expiry_set-IsSynced :
    (key : Bytes) (expire : Option ℤ) (old : Option StoredValue) (g : DbWriteGuard)
    → IsSynced g
    → lookup key g.shard.stored ≡ old
    → IsSynced (expiry_set key expire g old).1
unfolding sync_expires set_expire_at_ms
expiry_set-IsSynced key expire none g s found = s
expiry_set-IsSynced key expire (some old) g s found =
    let grown = total-insert exact_size key (set_expire_at_ms expire old) g.shard.stored in
    record {
      agrees = set-Agrees key expire old s.agrees;
      memory_exact = ground (arith, grown, found, s.memory_exact);
      fits = ground (arith, grown, found, s.fits);
    }

pub set_key_expiry-IsSynced :
    (key : Bytes) (expire : Option ℤ) (g : DbWriteGuard)
    → IsSynced g
    → IsSynced (set_key_expiry key expire g).1
unfolding set_key_expiry
set_key_expiry-IsSynced key expire g s =
    expiry_set-IsSynced key expire (lookup key g.shard.stored) g s refl

pub purge_expired_key-IsSynced :
    (key : Bytes) (now_ms : ℤ) (g : DbWriteGuard)
    → IsSynced g
    → IsSynced (purge_expired_key key now_ms g).1
unfolding purge_expired_key
purge_expired_key-IsSynced key now_ms g s =
    elim (Bool-cases (is_due now_ms (lookup key g.shard.stored))) [
      | inl h ↦ rw h (remove_noted-IsSynced key g s)
      | inr h ↦ rw h s
    ]

remove_each-IsSynced :
    (keys : List Bytes) (g : DbWriteGuard) → IsSynced g → IsSynced (remove_each keys g)
remove_each-IsSynced [] g s = s
remove_each-IsSynced (key ∷ keys) g s =
    remove_each-IsSynced keys (remove_noted key g) (remove_noted-IsSynced key g s)

pub purge_expired_keys-IsSynced :
    (now_ms : ℤ) (g : DbWriteGuard) → IsSynced g → IsSynced (purge_expired_keys now_ms g)
unfolding purge_expired_keys
purge_expired_keys-IsSynced now_ms g s =
    remove_each-IsSynced (expired_keys now_ms g.shard.stored) g s

pub lazy_free_del-IsSynced :
    (key : Bytes) (g : DbWriteGuard) → IsSynced g → IsSynced (lazy_free_del key g).1
unfolding lazy_free_del sub_memory
lazy_free_del-IsSynced key g s = elim (Option-cases (lookup key g.shard.stored)) [
  | inl n ↦ rw n s
  | inr (value, found) ↦ rw found (
      note_modification-IsSynced key (remove_entry key g (some value))
        (drop-Synced key value s found))
]

pub clear_db-IsSynced : (g : DbWriteGuard) → IsSynced (clear_db g)
unfolding clear_db
clear_db-IsSynced g = record { agrees = empty-Agrees; memory_exact = refl; fits = omega arith }

pub take_with_estimate-IsSynced :
    (key : Bytes) (g : DbWriteGuard) → IsSynced g → IsSynced (take_with_estimate key g).1
unfolding take_with_estimate
take_with_estimate-IsSynced key g s = remove_entry-IsSynced key g s

pub put_taken-IsSynced :
    (key : Bytes) (value : StoredValue) (old : Option StoredValue) (g : DbWriteGuard)
    → IsSynced g
    → lookup key g.shard.stored ≡ old
    → live_size (put_taken key value g old).shard.stored < 2 ^ 64
    → IsSynced (put_taken key value g old)
unfolding insert_with_estimate add_memory sync_expires
put_taken-IsSynced key value none g s found small = account-IsSynced key value none g s found small
put_taken-IsSynced key value (some old) g s found small = s
