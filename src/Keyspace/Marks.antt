-- ===== src/Keyspace/Marks.antt =====
-- What the writes of keyspace.rs that record modifications do to the version of a watched key.
use ratatosk.Prelude.{
  ℕ, ◌+◌, ◌^◌, ◌<◌, ◌≡◌, refl, sym, Bool, true, false, ◌&&◌, some, inl, inr, Bool-cases,
  Option-cases, length, arith,
}
use ratatosk.Prelude.Int.{ℤ}
use ratatosk.Prelude.Eq.{list_eq, bytes_eq, bytes_eq_iff}
use ratatosk.Prelude.Maps.{lookup, contains_key}
use ratatosk.Prelude.Words.{Bytes}
use ratatosk.Keyspace.Shard.{DbShard}
use ratatosk.Keyspace.Versions.{
  key_version, Given, Given-then, record_modification-Given, record_watched_existing-Given,
}
use ratatosk.Keyspace.Guard.{
  DbWriteGuard, remove_entry, note_modification, is_due, purge_expired_key, lazy_free_del, clear_db,
  remove_noted,
}
use ratatosk.Keyspace.Purge.{counted, remove_noted-Given}
use ratatosk.Keyspace.Untouched.{Untouched, remove_entry-Untouched}

-- No modification of `k`.
pub Untouched-Given :
    (k : Bytes) (g h : DbWriteGuard) → Untouched g h → Given false k (counted g) (counted h)
unfolding key_version
Untouched-Given k g h u = record {
  renewed = ground arith;
  kept = ground (arith, u.versions);
  below = ground (arith, u.versions, u.next);
  onward = ground (arith, u.next);
}

pub note_modification-Given :
    (key k : Bytes) (g : DbWriteGuard)
    → g.next_key_version + 1 < 2 ^ 64
    → Given
        (contains_key k g.shard.watch_refs && bytes_eq key k)
        k
        (counted g)
        (counted (note_modification key g))
unfolding note_modification
note_modification-Given key k g small = record_modification-Given key k (counted g) small

as_marked : (a b : Bool) (k : Bytes) (s t : ℕ × DbShard) → a ≡ b → Given a k s t → Given b k s t
as_marked a b k s t e g = rw (sym e) g

pub idle-Given : (k : Bytes) (s : ℕ × DbShard) → Given false k s s
idle-Given k s = record {
  renewed = ground arith;
  kept = λ (p : false ≡ false). refl;
  below = λ (p : key_version k s.1 < s.0). p;
  onward = omega arith;
}

-- `k` is watched, and no counter reaches 2^64 below.
pub watched_note-Given :
    (key k : Bytes) (g : DbWriteGuard)
    → contains_key k g.shard.watch_refs ≡ true
    → g.next_key_version + 1 < 2 ^ 64
    → Given (bytes_eq key k) k (counted g) (counted (note_modification key g))
watched_note-Given key k g w small =
    as_marked (contains_key k g.shard.watch_refs && bytes_eq key k) (bytes_eq key k) k (counted g)
      (counted (note_modification key g)) (ground (arith, w))
      (note_modification-Given key k g small)

pub purge_expired_key-Given :
    (key k : Bytes) (now_ms : ℤ) (g : DbWriteGuard)
    → contains_key k g.shard.watch_refs ≡ true
    → g.next_key_version + 1 < 2 ^ 64
    → Given
        (bytes_eq key k && is_due now_ms (lookup k g.shard.stored))
        k
        (counted g)
        (counted (purge_expired_key key now_ms g).1)
unfolding purge_expired_key
purge_expired_key-Given key k now_ms g w small =
    let mark = bytes_eq key k && is_due now_ms (lookup k g.shard.stored) in
    elim (Bool-cases (is_due now_ms (lookup key g.shard.stored))) [
      | inl h ↦ rw h (
          as_marked (contains_key k g.shard.watch_refs && bytes_eq key k) mark k (counted g)
            (counted (remove_noted key g)) (ground (arith, w, h, bytes_eq_iff key k))
            (remove_noted-Given key k g small))
      | inr h ↦ rw h (
          as_marked false mark k (counted g) (counted g) (ground (arith, h, bytes_eq_iff key k))
            (idle-Given k (counted g)))
    ]

pub lazy_free_del-Given :
    (key k : Bytes) (g : DbWriteGuard)
    → contains_key k g.shard.watch_refs ≡ true
    → g.next_key_version + 1 < 2 ^ 64
    → Given
        (bytes_eq key k && contains_key k g.shard.stored)
        k
        (counted g)
        (counted (lazy_free_del key g).1)
unfolding lazy_free_del
lazy_free_del-Given key k g w small =
    let mark = bytes_eq key k && contains_key k g.shard.stored in
    elim (Option-cases (lookup key g.shard.stored)) [
      | inl n ↦ rw n (
          as_marked false mark k (counted g) (counted g) (ground (arith, n, bytes_eq_iff key k))
            (idle-Given k (counted g)))
      | inr (value, found) ↦
          let gone = remove_entry key g (some value) in
          let u = remove_entry-Untouched key g (some value) in
          let note =
            watched_note-Given key k gone (ground (arith, u.watchers, w))
              (ground (arith, u.next, small)) in
          let both =
            Given-then false (bytes_eq key k) k (counted g) (counted gone)
              (counted (note_modification key gone)) (Untouched-Given k g gone u) note in
          rw found (
            as_marked (bytes_eq key k) mark k (counted g) (counted (note_modification key gone))
              (ground (arith, found, bytes_eq_iff key k)) both)
    ]

pub clear_db-Given :
    (k : Bytes) (g : DbWriteGuard)
    → contains_key k g.shard.watch_refs ≡ true
    → g.next_key_version + length g.shard.watch_refs < 2 ^ 64
    → Given (contains_key k g.shard.stored) k (counted g) (counted (clear_db g))
unfolding clear_db key_version
clear_db-Given k g w small =
    let all = record_watched_existing-Given k (counted g) small in
    record {
      renewed = ground (arith, all.renewed, w);
      kept = ground (arith, all.kept, w);
      below = ground (arith, all.below);
      onward = all.onward;
    }
