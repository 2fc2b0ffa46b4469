-- ===== src/Keyspace/Session.antt =====
-- What one client's WATCH of a key sees while others work on its database, keyspace.rs.
use ratatosk.Prelude.{
  ℕ, ◌+◌, ◌^◌, ◌<◌, ◌≡◌, ◌↔◌, Bool, true, false, ◌&&◌, ◌||◌, Bool-cases, length, arith,
}
use ratatosk.Prelude.Eq.{list_eq, bytes_eq}
use ratatosk.Prelude.Maps.{Map, lookup, contains_key}
use ratatosk.Prelude.Words.{Bytes, wrap64}
use ratatosk.Keyspace.Value.{StoredValue}
use ratatosk.Keyspace.Versions.{key_version, Given, Given-then}
use ratatosk.Keyspace.Guard.{
  DbWriteGuard, is_due, insert, remove, rename, set_key_expiry, purge_expired_keys, mutate_string,
  take_with_estimate, put_taken, edit_in_place,
}
use ratatosk.Keyspace.Registered.{as_watched, elsewhere-Given, watch-Given, unwatch-Given}
use ratatosk.Keyspace.Exchange.{
  took_left, took_right, took_loaded, took_left-Given, took_right-Given, took_loaded-Given,
}
use ratatosk.Keyspace.Marks.{
  Untouched-Given, watched_note-Given, purge_expired_key-Given, lazy_free_del-Given, clear_db-Given,
  idle-Given,
}
use ratatosk.Keyspace.State.{watch_shard, unwatch_shard}
use ratatosk.Keyspace.Purge.{counted, purge_expired_keys-Given}
use ratatosk.Keyspace.Reach.{
  Write, insert_key, remove_key, rename_key, expire_key, purge_key, purge_all, mutate, note,
  free_key, clear, take_key, put_key, edit, apply_write,
}
use ratatosk.Prelude.Maps.{IsUnique}
use ratatosk.Keyspace.Untouched.{
  insert-Untouched, remove-Untouched, rename-Untouched, set_key_expiry-Untouched,
  mutate_string-Untouched, take_with_estimate-Untouched, put_taken-Untouched,
  edit_in_place-Untouched,
}

-- What happens to the database: a write, `swap_dbs` with another database, of which it is the left or
-- the right argument, a load, an edit of a value in place, versions that other databases take, and registrations of clients.
pub data Event (R : Type 0) : Type 0 where
  write : Write R → Event R
  swap_left : DbWriteGuard → Event R
  swap_right : DbWriteGuard → Event R
  load : Map Bytes StoredValue → Event R
  edit_value : Bytes → (StoredValue → StoredValue) → Event R
  elsewhere : ℕ → Event R
  watch : Bytes → Event R
  unwatch : Bytes → Event R

-- The most versions that a swap takes.
abbrev swap_cost : DbWriteGuard → DbWriteGuard → ℕ
swap_cost g h =
    length g.shard.watch_refs
    + length g.shard.watch_refs
    + length h.shard.watch_refs
    + length h.shard.watch_refs

module _ {R : Type 0} where
  abbrev pub apply_event : Event R → DbWriteGuard → DbWriteGuard
  apply_event (write w) g = apply_write w g
  apply_event (swap_left other) g = took_left other g
  apply_event (swap_right other) g = took_right other g
  apply_event (load stored) g = took_loaded stored g
  apply_event (edit_value key f) g = edit_in_place key f g
  apply_event (elsewhere n) g = record g { next_key_version = wrap64 (g.next_key_version + n) }
  apply_event (watch key) g = record g { shard = (watch_shard key g.shard).2 }
  apply_event (unwatch key) g = record g { shard = (unwatch_shard key g.shard).1 }

  -- Whether the write counts as a modification of `k`.
  abbrev pub write_marks : Bytes → Write R → DbWriteGuard → Bool
  write_marks k (note key) g = bytes_eq key k
  write_marks k (purge_key key now_ms) g = bytes_eq key k && is_due now_ms (lookup k g.shard.stored)
  write_marks k (purge_all now_ms) g = is_due now_ms (lookup k g.shard.stored)
  write_marks k (free_key key) g = bytes_eq key k && contains_key k g.shard.stored
  write_marks k clear g = contains_key k g.shard.stored
  write_marks k (insert_key key value) g = false
  write_marks k (remove_key key) g = false
  write_marks k (rename_key source target) g = false
  write_marks k (expire_key key expire) g = false
  write_marks k (mutate shared key f honest) g = false
  write_marks k (take_key key) g = false
  write_marks k (put_key key value) g = false
  write_marks k (edit key f steady) g = false

  abbrev pub marks : Bytes → Event R → DbWriteGuard → Bool
  marks k (write w) g = write_marks k w g
  marks k (swap_left other) g = contains_key k g.shard.stored || contains_key k other.shard.stored
  marks k (swap_right other) g = contains_key k g.shard.stored || contains_key k other.shard.stored
  marks k (load stored) g = contains_key k g.shard.stored || contains_key k stored
  marks k (edit_value key f) g = false
  marks k (elsewhere n) g = false
  marks k (watch key) g = false
  marks k (unwatch key) g = false

  -- The most versions that an event takes.
  abbrev pub cost : Event R → DbWriteGuard → ℕ
  cost (elsewhere n) g = n
  cost (swap_left other) g = swap_cost g other
  cost (swap_right other) g = swap_cost g other
  cost _ g = length g.shard.watch_refs + length g.shard.watch_refs + length g.shard.stored + 1

  write-Given :
      (k : Bytes) (w : Write R) (g : DbWriteGuard)
      → IsUnique g.shard.stored
      → contains_key k g.shard.watch_refs ≡ true
      → g.next_key_version + cost (write w) g < 2 ^ 64
      → Given (write_marks k w g) k (counted g) (counted (apply_write w g))
  write-Given k (insert_key key value) g u w small =
      Untouched-Given k g (insert key value g).1 (insert-Untouched key value g)
  write-Given k (remove_key key) g u w small =
      Untouched-Given k g (remove key g).1 (remove-Untouched key g)
  write-Given k (rename_key source target) g u w small =
      Untouched-Given k g (rename source target g).1 (rename-Untouched source target g)
  write-Given k (expire_key key expire) g u w small =
      Untouched-Given k g (set_key_expiry key expire g).1 (set_key_expiry-Untouched key expire g)
  write-Given k (purge_key key now_ms) g u w small =
      purge_expired_key-Given key k now_ms g w (omega (arith, small))
  write-Given k (purge_all now_ms) g u w small =
      let all = purge_expired_keys-Given now_ms k g u (omega (arith, small)) in
      as_watched k (is_due now_ms (lookup k g.shard.stored)) g (purge_expired_keys now_ms g) w all
  write-Given k (mutate shared key f honest) g u w small =
      Untouched-Given k g (mutate_string shared key f g).1 (mutate_string-Untouched shared key f g)
  write-Given k (note key) g u w small = watched_note-Given key k g w (omega (arith, small))
  write-Given k (free_key key) g u w small = lazy_free_del-Given key k g w (omega (arith, small))
  write-Given k (take_key key) g u w small =
      Untouched-Given k g (take_with_estimate key g).1 (take_with_estimate-Untouched key g)
  write-Given k (put_key key value) g u w small =
      let old = lookup key g.shard.stored in
      Untouched-Given k g (put_taken key value g old) (put_taken-Untouched key value g old)
  write-Given k (edit key f steady) g u w small =
      Untouched-Given k g (edit_in_place key f g) (edit_in_place-Untouched key f g)
  write-Given k clear g u w small = clear_db-Given k g w (omega (arith, small))

  event-Given :
      (k : Bytes) (e : Event R) (g : DbWriteGuard)
      → IsUnique g.shard.stored
      → contains_key k g.shard.watch_refs ≡ true
      → contains_key k (apply_event e g).shard.watch_refs ≡ true
      → g.next_key_version + cost e g < 2 ^ 64
      → Given (marks k e g) k (counted g) (counted (apply_event e g))
  event-Given k (write op) g u w still small = write-Given k op g u w small
  event-Given k (swap_left other) g u w still small =
      took_left-Given k other g w (omega (arith, small))
  event-Given k (swap_right other) g u w still small =
      took_right-Given k other g w (omega (arith, small))
  event-Given k (load stored) g u w still small =
      took_loaded-Given k stored g w (omega (arith, small))
  event-Given k (edit_value key f) g u w still small =
      Untouched-Given k g (edit_in_place key f g) (edit_in_place-Untouched key f g)
  event-Given k (elsewhere n) g u w still small = elsewhere-Given k n g small
  event-Given k (watch key) g u w still small = watch-Given k key g
  event-Given k (unwatch key) g u w still small = unwatch-Given k key g still

-- A run of events during which `k` stays watched, each key stands once in the database and the counter
-- stays below 2^64; and whether one of them counts as a modification of `k`.
pub data Session (R : Type 0) (k : Bytes) : DbWriteGuard → DbWriteGuard → Bool → Type 0 where
  quiet : (g : DbWriteGuard) → Session R k g g false
  then_event :
      (e : Event R) (g h : DbWriteGuard) (marked all : Bool)
      → IsUnique g.shard.stored
      → contains_key k (apply_event e g).shard.watch_refs ≡ true
      → g.next_key_version + cost e g < 2 ^ 64
      → Session R k (apply_event e g) h marked
      → all ≡ (marks k e g || marked)
      → Session R k g h all

Session-Given :
    {R : Type 0} (k : Bytes) (g h : DbWriteGuard) (all : Bool)
    → Session R k g h all
    → contains_key k g.shard.watch_refs ≡ true
    → Given all k (counted g) (counted h)
Session-Given k g h all (quiet _) w = idle-Given k (counted g)
Session-Given k g h all (then_event e _ _ marked _ u still small rest is) w = rw is (
    Given-then (marks k e g) marked k (counted g) (counted (apply_event e g)) (counted h)
      (event-Given k e g u w still small) (Session-Given k (apply_event e g) h marked rest still))

-- While a client watches `k`, whatever happens to its database, the version of `k` is the one that it
-- had exactly if nothing was recorded as a modification of `k`: no note, expiry or lazy deletion of it,
-- no flush while it exists, and no `swap_dbs` or load that takes or brings it. At the start the version
-- is below the counter; each key stands once in the database and the counter does not reach 2^64.
pub key_version-marks :
    {R : Type 0} (k : Bytes) (g h : DbWriteGuard) (all : Bool)
    → Session R k g h all
    → contains_key k g.shard.watch_refs ≡ true
    → key_version k g.shard < g.next_key_version
    → (key_version k h.shard ≡ key_version k g.shard) ↔ (all ≡ false)
key_version-marks k g h all run w below =
    let given = Session-Given k g h all run w in
    ground (arith, given.renewed, given.kept, below, Bool-cases all)
