-- ===== src/Keyspace/Reach.antt =====
-- The writes on one database: the methods of `DbWriteGuard` in keyspace.rs and the edits in place that
-- keep a value's size and deadline; and that each keeps the counter and the deadlines.
use ratatosk.Prelude.{◌^◌, ◌<◌, refl, Bool, Option}
use ratatosk.Prelude.Int.{ℤ}
use ratatosk.Prelude.Eq.{list_eq}
use ratatosk.Prelude.Maps.{lookup}
use ratatosk.Prelude.Words.{Bytes}
use ratatosk.Keyspace.Value.{StoredValue}
use ratatosk.Keyspace.Synced.{live_size, IsSynced, remove-IsSynced}
use ratatosk.Keyspace.Writes.{
  insert-IsSynced, note_modification-IsSynced, set_key_expiry-IsSynced, purge_expired_key-IsSynced,
  purge_expired_keys-IsSynced, lazy_free_del-IsSynced, clear_db-IsSynced,
  take_with_estimate-IsSynced, put_taken-IsSynced,
}
use ratatosk.Keyspace.Rename.{rename-IsSynced}
use ratatosk.Keyspace.Mutate.{Honest, mutate_string-IsSynced, IsSteady, edit_in_place-IsSynced}
use ratatosk.Keyspace.Guard.{
  DbWriteGuard, insert, remove, rename, note_modification, set_key_expiry, purge_expired_key,
  purge_expired_keys, mutate_string, clear_db, lazy_free_del, take_with_estimate, put_taken,
  edit_in_place,
}

-- The writes on one database.
pub data Write (R : Type 0) : Type 0 where
  insert_key : Bytes → StoredValue → Write R
  remove_key : Bytes → Write R
  rename_key : Bytes → Bytes → Write R
  expire_key : Bytes → Option ℤ → Write R
  purge_key : Bytes → ℤ → Write R
  purge_all : ℤ → Write R
  mutate : Bool → Bytes → (f : Bytes → R × Bytes × Bool) → Honest f → Write R
  note : Bytes → Write R
  free_key : Bytes → Write R
  clear : Write R
  take_key : Bytes → Write R
  put_key : Bytes → StoredValue → Write R
  edit : Bytes → (f : StoredValue → StoredValue) → IsSteady f → Write R

module _ {R : Type 0} where
  abbrev pub apply_write : Write R → DbWriteGuard → DbWriteGuard
  apply_write (insert_key key value) g = (insert key value g).1
  apply_write (remove_key key) g = (remove key g).1
  apply_write (rename_key source target) g = (rename source target g).1
  apply_write (expire_key key expire) g = (set_key_expiry key expire g).1
  apply_write (purge_key key now_ms) g = (purge_expired_key key now_ms g).1
  apply_write (purge_all now_ms) g = purge_expired_keys now_ms g
  apply_write (mutate shared key f honest) g = (mutate_string shared key f g).1
  apply_write (note key) g = note_modification key g
  apply_write (free_key key) g = (lazy_free_del key g).1
  apply_write clear g = clear_db g
  apply_write (take_key key) g = (take_with_estimate key g).1
  apply_write (put_key key value) g = put_taken key value g (lookup key g.shard.stored)
  apply_write (edit key f steady) g = edit_in_place key f g

  pub apply_write-IsSynced :
      (w : Write R) (g : DbWriteGuard)
      → IsSynced g
      → live_size (apply_write w g).shard.stored < 2 ^ 64
      → IsSynced (apply_write w g)
  apply_write-IsSynced (insert_key key value) g s small = insert-IsSynced key value g s small
  apply_write-IsSynced (remove_key key) g s small = remove-IsSynced key g s
  apply_write-IsSynced (rename_key source target) g s small =
      rename-IsSynced source target g s small
  apply_write-IsSynced (expire_key key expire) g s small = set_key_expiry-IsSynced key expire g s
  apply_write-IsSynced (purge_key key now_ms) g s small = purge_expired_key-IsSynced key now_ms g s
  apply_write-IsSynced (purge_all now_ms) g s small = purge_expired_keys-IsSynced now_ms g s
  apply_write-IsSynced (mutate shared key f honest) g s small =
      mutate_string-IsSynced shared key f g honest s small
  apply_write-IsSynced (note key) g s small = note_modification-IsSynced key g s
  apply_write-IsSynced (free_key key) g s small = lazy_free_del-IsSynced key g s
  apply_write-IsSynced clear g s small = clear_db-IsSynced g
  apply_write-IsSynced (take_key key) g s small = take_with_estimate-IsSynced key g s
  apply_write-IsSynced (put_key key value) g s small =
      put_taken-IsSynced key value (lookup key g.shard.stored) g s refl small
  apply_write-IsSynced (edit key f steady) g s small = edit_in_place-IsSynced key f g steady s
