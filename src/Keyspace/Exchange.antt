-- ===== src/Keyspace/Exchange.antt =====
-- What a swap and a load do to one database and to the versions of its watched keys, keyspace.rs.
use ratatosk.Prelude.{ℕ, [], ◌+◌, ◌^◌, ◌≤◌, ◌<◌, ◌≡◌, ap, true, ◌||◌, Bool-cases, length, arith}
use mathlib.Core.Path.{subst}
use ratatosk.Prelude.Int.{ℤ}
use ratatosk.Prelude.Eq.{list_eq}
use ratatosk.Prelude.Maps.{Map, contains_key}
use ratatosk.Prelude.Words.{Bytes}
use ratatosk.Keyspace.Value.{StoredValue}
use ratatosk.Keyspace.Shard.{DbShard, record_watched_existing}
use ratatosk.Keyspace.Versions.{
  key_version, Given, record_watched_existing-Given, watchers-record_watched_existing,
  next-record_watched_existing,
}
use ratatosk.Keyspace.Guard.{DbWriteGuard}
use ratatosk.Keyspace.Purge.{counted}
use ratatosk.Keyspace.Watchers.{stored-record_watched_existing}
use ratatosk.Keyspace.State.{swap_shards, load_shard, loaded_memory}

-- The database after `swap_dbs` with another one, of which it is the left or the right argument.
abbrev pub took_left : DbWriteGuard → DbWriteGuard → DbWriteGuard
took_left other g =
    let r = swap_shards g.next_key_version g.shard other.shard in
    record { shard = r.1; memory = other.memory; next_key_version = r.0 }

abbrev pub took_right : DbWriteGuard → DbWriteGuard → DbWriteGuard
took_right other g =
    let r = swap_shards g.next_key_version other.shard g.shard in
    record { shard = r.2; memory = other.memory; next_key_version = r.0 }

-- The database after `load_from_snapshot`.
abbrev pub took_loaded : Map Bytes StoredValue → DbWriteGuard → DbWriteGuard
took_loaded stored g =
    let r = load_shard stored (counted g) in
    record { shard = r.1; memory = loaded_memory stored 0; next_key_version = r.0 }

-- Other contents between two marks of the watched keys that exist. Other databases may take versions
-- before, between and behind the two: `before`, `between` and `behind` are the counter's values.
marked_twice-Given :
    (k : Bytes) (s : ℕ × DbShard) (before between behind : ℕ) (stored : Map Bytes StoredValue)
    (expires : Map Bytes ℤ)
    → contains_key k s.1.watch_refs ≡ true
    → s.0 ≤ before
    → before + length s.1.watch_refs < 2 ^ 64
    → (record_watched_existing (before, s.1)).0 ≤ between
    → between + length s.1.watch_refs < 2 ^ 64
    → (record_watched_existing (
      between,
      record ((record_watched_existing (before, s.1)).1) { stored = stored; expires = expires },
    )).0
      ≤ behind
    → Given (contains_key k s.1.stored || contains_key k stored) k s (
      behind,
      (record_watched_existing (
        between,
        record ((record_watched_existing (before, s.1)).1) { stored = stored; expires = expires },
      )).1,
    )
unfolding key_version
marked_twice-Given k s before between behind stored expires w early first onward second late =
    let r = record_watched_existing (before, s.1) in
    let one = record_watched_existing-Given k (before, s.1) first in
    let same = watchers-record_watched_existing (before, s.1) in
    let u : ℕ × DbShard = (between, record (r.1) { stored = stored; expires = expires }) in
    let two = record_watched_existing-Given k u (omega (arith, second, ap length same)) in
    record {
      renewed = ground (
        arith,
        w,
        same,
        early,
        onward,
        one.renewed,
        one.onward,
        two.renewed,
        two.kept,
        Bool-cases (contains_key k stored),
      );
      kept = ground (arith, w, same, one.kept, two.kept);
      below = ground (arith, early, onward, late, one.below, two.below);
      onward = omega (arith, early, onward, late, one.onward, two.onward);
    }

onward_record :
    (s : ℕ × DbShard) → s.0 + length s.1.watch_refs < 2 ^ 64 → s.0 ≤ (record_watched_existing s).0
onward_record s small = (record_watched_existing-Given [] s small).onward

pub took_left-Given :
    (k : Bytes) (other g : DbWriteGuard)
    → contains_key k g.shard.watch_refs ≡ true
    → g.next_key_version
        + length g.shard.watch_refs
        + length g.shard.watch_refs
        + length other.shard.watch_refs
        + length other.shard.watch_refs
      < 2 ^ 64
    → Given
        (contains_key k g.shard.stored || contains_key k other.shard.stored)
        k
        (counted g)
        (counted (took_left other g))
unfolding swap_shards
took_left-Given k other g w small =
    let next = g.next_key_version in
    let a = record_watched_existing (next, g.shard) in
    let b = record_watched_existing (a.0, other.shard) in
    let x : ℕ × DbShard = (b.0, record (a.1) { stored = b.1.stored; expires = b.1.expires }) in
    let c = record_watched_existing x in
    let y : ℕ × DbShard = (c.0, record (b.1) { stored = a.1.stored; expires = a.1.expires }) in
    let d = record_watched_existing y in
    let len_a = next-record_watched_existing (next, g.shard) in
    let len_b = next-record_watched_existing (a.0, other.shard) in
    let len_c = next-record_watched_existing x in
    let mine = ap length (watchers-record_watched_existing (next, g.shard)) in
    let theirs = ap length (watchers-record_watched_existing (a.0, other.shard)) in
    let on_b = onward_record (a.0, other.shard) (omega (arith, small, len_a)) in
    let on_d = onward_record y (omega (arith, small, len_a, len_b, len_c, mine, theirs)) in
    let sb = (stored-record_watched_existing (a.0, other.shard)).0 in
    subst
      (λ (stored : Map Bytes StoredValue).
        Given (contains_key k g.shard.stored || contains_key k stored) k (counted g)
          (counted (took_left other g)))
      sb
      (marked_twice-Given k (next, g.shard) next b.0 d.0 b.1.stored b.1.expires w (omega arith)
        (omega (arith, small)) on_b (omega (arith, small, len_a, len_b)) on_d)

pub took_right-Given :
    (k : Bytes) (other g : DbWriteGuard)
    → contains_key k g.shard.watch_refs ≡ true
    → g.next_key_version
        + length g.shard.watch_refs
        + length g.shard.watch_refs
        + length other.shard.watch_refs
        + length other.shard.watch_refs
      < 2 ^ 64
    → Given
        (contains_key k g.shard.stored || contains_key k other.shard.stored)
        k
        (counted g)
        (counted (took_right other g))
unfolding swap_shards
took_right-Given k other g w small =
    let next = g.next_key_version in
    let a = record_watched_existing (next, other.shard) in
    let b = record_watched_existing (a.0, g.shard) in
    let x : ℕ × DbShard = (b.0, record (a.1) { stored = b.1.stored; expires = b.1.expires }) in
    let c = record_watched_existing x in
    let len_a = next-record_watched_existing (next, other.shard) in
    let len_b = next-record_watched_existing (a.0, g.shard) in
    let len_c = next-record_watched_existing x in
    let theirs = ap length (watchers-record_watched_existing (next, other.shard)) in
    let on_a = onward_record (next, other.shard) (omega (arith, small)) in
    let on_c = onward_record x (omega (arith, small, len_a, len_b, theirs)) in
    let sa = (stored-record_watched_existing (next, other.shard)).0 in
    subst
      (λ (stored : Map Bytes StoredValue).
        Given (contains_key k g.shard.stored || contains_key k stored) k (counted g)
          (counted (took_right other g)))
      sa
      (marked_twice-Given k (next, g.shard) a.0 c.0 (counted (took_right other g)).0 a.1.stored
        a.1.expires w on_a (omega (arith, small, len_a)) on_c
        (omega (arith, small, len_a, len_b, len_c, theirs)) (omega arith))

pub took_loaded-Given :
    (k : Bytes) (stored : Map Bytes StoredValue) (g : DbWriteGuard)
    → contains_key k g.shard.watch_refs ≡ true
    → g.next_key_version + length g.shard.watch_refs + length g.shard.watch_refs < 2 ^ 64
    → Given
        (contains_key k g.shard.stored || contains_key k stored)
        k
        (counted g)
        (counted (took_loaded stored g))
unfolding load_shard key_version
took_loaded-Given k stored g w small =
    let r = record_watched_existing (counted g) in
    let x : ℕ × DbShard = (r.0, record (r.1) { stored = stored }) in
    let all =
      marked_twice-Given k (counted g) g.next_key_version r.0 (record_watched_existing x).0 stored
        r.1.expires w (omega arith) (omega (arith, small)) (omega arith)
        (omega (arith, small, next-record_watched_existing (counted g))) (omega arith) in
    record { renewed = all.renewed; kept = all.kept; below = all.below; onward = all.onward }
