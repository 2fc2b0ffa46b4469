-- ===== src/Keyspace/Purge.antt =====
-- What the purge of expired keys of keyspace.rs leaves, and what clients that watch a key see of it.
use ratatosk.Prelude.{
  Bool, ℕ, ◌+◌, ◌^◌, ◌≤◌, ◌<◌, ◌≡◌, ◌∙◌, ap, refl, sym, true, false, ◌&&◌, none, List, [], ◌∷◌, inl,
  inr, if◌then◌else◌, Bool-cases, Option-cases, length, arith,
}
use ratatosk.Prelude.Int.{ℤ}
use ratatosk.Prelude.Eq.{list_eq, bytes_eq, bytes_eq_iff}
use ratatosk.Prelude.Maps.{Map, lookup, contains_key, lookup-remove, remove-missing, IsUnique}
use ratatosk.Prelude.Maps
use ratatosk.Prelude.Sets.{contains}
use ratatosk.Prelude.Words.{Bytes}
use ratatosk.Keyspace.Value.{StoredValue}
use ratatosk.Keyspace.Shard.{DbShard, record_modification}
use ratatosk.Keyspace.Versions.{key_version, IsBelow, Given, Given-then, record_modification-Given}
use ratatosk.Keyspace.Guard.{
  DbWriteGuard, sub_memory, remove, note_modification, remove_noted, remove_each, expired_keys,
  is_due, purge_expired_keys,
}

-- The shard with the counter of versions.
abbrev pub counted : DbWriteGuard → ℕ × DbShard
counted g = (g.next_key_version, g.shard)

-- What `remove` leaves alone.
record Kept (k : Bytes) (g h : DbWriteGuard) : Type 0 where
  watchers : h.shard.watch_refs ≡ g.shard.watch_refs
  version : key_version k h.shard ≡ key_version k g.shard
  next : h.next_key_version ≡ g.next_key_version

remove-Kept : (key k : Bytes) (g : DbWriteGuard) → Kept k g (remove key g).1
unfolding remove sub_memory key_version
remove-Kept key k g = elim (Option-cases (lookup key g.shard.stored)) [
  | inl n ↦ rw n (record { watchers = refl; version = refl; next = refl })
  | inr (value, found) ↦ rw found (record { watchers = refl; version = refl; next = refl })
]

lookup-removed :
    (key k : Bytes) (g : DbWriteGuard)
    → lookup k (remove key g).1.shard.stored
      ≡ (if bytes_eq key k then none else lookup k g.shard.stored)
unfolding remove sub_memory
lookup-removed key k g = elim (Option-cases (lookup key g.shard.stored)) [
  | inl n ↦ rw n (ground (arith, bytes_eq_iff key k, n))
  | inr (value, found) ↦ rw found (lookup-remove key k g.shard.stored)
]

-- What `note_modification` leaves alone, and that it advances the counter by one at most.
record Noted (g h : DbWriteGuard) : Type 0 where
  stored : h.shard.stored ≡ g.shard.stored
  watchers : h.shard.watch_refs ≡ g.shard.watch_refs
  next : h.next_key_version ≤ g.next_key_version + 1

note_modification-Noted : (key : Bytes) (g : DbWriteGuard) → Noted g (note_modification key g)
unfolding note_modification record_modification
note_modification-Noted key g = elim (Bool-cases (contains_key key g.shard.watch_refs)) [
  | inl h ↦ rw h (record { stored = refl; watchers = refl; next = omega arith })
  | inr h ↦ rw h (record { stored = refl; watchers = refl; next = omega arith })
]

pub stored-remove :
    (key : Bytes) (g : DbWriteGuard)
    → (remove key g).1.shard.stored ≡ Maps.remove key g.shard.stored
unfolding remove sub_memory
stored-remove key g = elim (Option-cases (lookup key g.shard.stored)) [
  | inl n ↦ rw n (sym (remove-missing key g.shard.stored n))
  | inr (value, found) ↦ rw found refl
]

pub stored-remove_noted :
    (key : Bytes) (g : DbWriteGuard)
    → (remove_noted key g).shard.stored ≡ Maps.remove key g.shard.stored
stored-remove_noted key g =
    (note_modification-Noted key (remove key g).1).stored ∙ stored-remove key g

pub lookup-remove_noted :
    (key : Bytes) (g : DbWriteGuard) → lookup key (remove_noted key g).shard.stored ≡ none
lookup-remove_noted key g =
    ap (lookup key) (note_modification-Noted key (remove key g).1).stored
    ∙ ground (arith, lookup-removed key key g, bytes_eq_iff key key)

pub remove_noted-Given :
    (key k : Bytes) (g : DbWriteGuard)
    → g.next_key_version + 1 < 2 ^ 64
    → Given
        (contains_key k g.shard.watch_refs && bytes_eq key k)
        k
        (counted g)
        (counted (remove_noted key g))
unfolding note_modification
remove_noted-Given key k g small =
    let r = (remove key g).1 in
    let w = remove-Kept key k g in
    let v = record_modification-Given key k (counted r) (ground (arith, small, w.next)) in
    record {
      renewed = ground (arith, v.renewed, w.watchers, w.version, w.next);
      kept = ground (arith, v.kept, w.watchers, w.version, w.next);
      below = ground (arith, v.below, w.watchers, w.version, w.next);
      onward = ground (arith, v.onward, w.next);
    }

-- The keys of a list are gone, and exactly the watched ones among them have new versions.
record RemovedEach (keys : List Bytes) (k : Bytes) (g h : DbWriteGuard) : Type 0 where
  left : lookup k h.shard.stored ≡ (if contains k keys then none else lookup k g.shard.stored)
  watchers : h.shard.watch_refs ≡ g.shard.watch_refs
  versions : Given (contains_key k g.shard.watch_refs && contains k keys) k (counted g) (counted h)

remove_each-RemovedEach :
    (keys : List Bytes) (k : Bytes) (g : DbWriteGuard)
    → g.next_key_version + length keys < 2 ^ 64
    → RemovedEach keys k g (remove_each keys g)
unfolding contains
remove_each-RemovedEach [] k g small = record {
  left = refl;
  watchers = refl;
  versions = record {
    renewed = ground arith;
    kept = λ (p : (contains_key k g.shard.watch_refs && false) ≡ false). refl;
    below = λ (p : key_version k g.shard < g.next_key_version). p;
    onward = omega arith;
  };
}
remove_each-RemovedEach (key ∷ keys) k g small =
    let r = (remove key g).1 in
    let once = remove_noted key g in
    let w = remove-Kept key k g in
    let n = note_modification-Noted key r in
    let one = remove_noted-Given key k g (omega (arith, small)) in
    let ih = remove_each-RemovedEach keys k once (omega (arith, small, n.next, w.next)) in
    let both =
      Given-then (contains_key k g.shard.watch_refs && bytes_eq key k)
        (contains_key k once.shard.watch_refs && contains k keys) k (counted g) (counted once)
        (counted (remove_each keys once)) one ih.versions in
    record {
      left = ground (arith, ih.left, n.stored, lookup-removed key k g);
      watchers = ih.watchers ∙ n.watchers ∙ w.watchers;
      versions = record {
        renewed = ground (arith, both.renewed, n.watchers, w.watchers);
        kept = ground (arith, both.kept, n.watchers, w.watchers);
        below = both.below;
        onward = both.onward;
      };
    }

contains-expired_keys :
    (now_ms : ℤ) (k : Bytes) (m : Map Bytes StoredValue)
    → IsUnique m
    → contains k (expired_keys now_ms m) ≡ is_due now_ms (lookup k m)
unfolding contains lookup
contains-expired_keys now_ms k [] u = refl
contains-expired_keys now_ms k ((key, value) ∷ m) (fresh, u) =
    ground (arith, bytes_eq_iff key k, fresh, contains-expired_keys now_ms k m u)

length-expired_keys :
    (now_ms : ℤ) (m : Map Bytes StoredValue) → length (expired_keys now_ms m) ≤ length m
length-expired_keys now_ms [] = omega arith
length-expired_keys now_ms ((key, value) ∷ m) = ground (arith, length-expired_keys now_ms m)

pub purge_expired_keys-Given :
    (now_ms : ℤ) (k : Bytes) (g : DbWriteGuard)
    → IsUnique g.shard.stored
    → g.next_key_version + length g.shard.stored < 2 ^ 64
    → Given
        (contains_key k g.shard.watch_refs && is_due now_ms (lookup k g.shard.stored))
        k
        (counted g)
        (counted (purge_expired_keys now_ms g))
unfolding purge_expired_keys
purge_expired_keys-Given now_ms k g u small =
    let keys = expired_keys now_ms g.shard.stored in
    let fits : g.next_key_version + length keys < 2 ^ 64 =
      omega (arith, small, length-expired_keys now_ms g.shard.stored) in
    rw (sym (contains-expired_keys now_ms k g.shard.stored u))
      ((remove_each-RemovedEach keys k g fits).versions)

version_moved :
    (k : Bytes) (watched listed due : Bool) (s t : ℕ × DbShard)
    → listed ≡ due
    → Given (watched && listed) k s t
    → key_version k s.1 < s.0
    → if watched && due
      then key_version k s.1 < key_version k t.1
      else (key_version k t.1 ≡ key_version k s.1)
version_moved k true true true s t is given below = omega (arith, given.renewed refl, below)
version_moved k true false false s t is given below = given.kept refl
version_moved k true true false s t is given below = absurd (ground (arith, is))
version_moved k true false true s t is given below = absurd (ground (arith, is))
version_moved k false listed due s t is given below = given.kept refl

-- What a purge at `now_ms` does: the values that are due are gone and all others stay; a key that a
-- client watches and that was due has a higher version, every other key the version it had.
pub record Purged (now_ms : ℤ) (g h : DbWriteGuard) : Type 0 where
  pub left :
      (k : Bytes)
      → lookup k h.shard.stored
        ≡ (if is_due now_ms (lookup k g.shard.stored) then none else lookup k g.shard.stored)
  pub versions :
      (k : Bytes)
      → if contains_key k g.shard.watch_refs && is_due now_ms (lookup k g.shard.stored)
        then key_version k g.shard < key_version k h.shard
        else (key_version k h.shard ≡ key_version k g.shard)
  pub below : IsBelow (counted h)

-- In a database whose keys stand once each and whose versions are below the counter, which does not
-- reach 2^64, `purge_expired_keys` removes exactly the keys whose deadline has come, and a client that
-- watches one of them sees a higher version; no other version changes.
pub purge_expired_keys-Purged :
    (now_ms : ℤ) (g : DbWriteGuard)
    → IsUnique g.shard.stored
    → IsBelow (counted g)
    → g.next_key_version + length g.shard.stored < 2 ^ 64
    → Purged now_ms g (purge_expired_keys now_ms g)
unfolding purge_expired_keys
purge_expired_keys-Purged now_ms g u below small =
    let keys = expired_keys now_ms g.shard.stored in
    let fits : g.next_key_version + length keys < 2 ^ 64 =
      omega (arith, small, length-expired_keys now_ms g.shard.stored) in
    let due = λ (k : Bytes). contains-expired_keys now_ms k g.shard.stored u in
    let all = λ (k : Bytes). remove_each-RemovedEach keys k g fits in
    record {
      left = λ (k : Bytes). ground (arith, due k, (all k).left);
      versions = λ (k : Bytes).
          version_moved k (contains_key k g.shard.watch_refs) (contains k keys)
            (is_due now_ms (lookup k g.shard.stored)) (counted g) (counted (remove_each keys g))
            (due k) (all k).versions (below k);
      below = λ (k : Bytes). (all k).versions.below (below k);
    }
