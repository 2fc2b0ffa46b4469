-- ===== src/Keyspace/Registered.antt =====
-- The version of a watched key under registrations and writes to other databases, keyspace.rs.
use ratatosk.Prelude.{
  ℕ, ◌+◌, ◌-◌, ◌^◌, ◌<◌, ◌≡◌, refl, Bool, true, false, ◌&&◌, inl, inr, Bool-cases, Option-cases,
  arith, ◌==◌,
}
use ratatosk.Prelude.Eq.{list_eq}
use ratatosk.Prelude.Maps.{lookup, contains_key, lookup-remove}
use ratatosk.Prelude.Words.{Bytes, wrap64}
use ratatosk.Keyspace.Shard.{DbShard}
use ratatosk.Keyspace.Versions.{key_version, Given}
use ratatosk.Keyspace.Guard.{DbWriteGuard}
use ratatosk.Keyspace.State.{watch_shard, unwatch_shard}
use ratatosk.Keyspace.Purge.{counted}

pub as_watched :
    (k : Bytes) (mark : Bool) (g h : DbWriteGuard)
    → contains_key k g.shard.watch_refs ≡ true
    → Given (contains_key k g.shard.watch_refs && mark) k (counted g) (counted h)
    → Given mark k (counted g) (counted h)
as_watched k mark g h w given = record {
  renewed = ground (arith, w, given.renewed);
  kept = ground (arith, w, given.kept);
  below = given.below;
  onward = given.onward;
}

pub elsewhere-Given :
    (k : Bytes) (n : ℕ) (g : DbWriteGuard)
    → g.next_key_version + n < 2 ^ 64
    → Given false k (counted g) (wrap64 (g.next_key_version + n), g.shard)
elsewhere-Given k n g small = record {
  renewed = ground arith;
  kept = λ (p : false ≡ false). refl;
  below = λ (p : key_version k g.shard < g.next_key_version). omega (arith, p, small);
  onward = omega (arith, small);
}

pub watch-Given :
    (k key : Bytes) (g : DbWriteGuard)
    → Given false k (counted g) (g.next_key_version, (watch_shard key g.shard).2)
unfolding watch_shard key_version
watch-Given k key g = record {
  renewed = ground arith;
  kept = λ (p : false ≡ false). refl;
  below = λ (p : key_version k g.shard < g.next_key_version). p;
  onward = omega arith;
}

-- Registrations of other clients for `k` remain.
unwatch-kept :
    (k key : Bytes) (shard : DbShard)
    → contains_key k (unwatch_shard key shard).1.watch_refs ≡ true
    → key_version k (unwatch_shard key shard).1 ≡ key_version k shard
unfolding unwatch_shard key_version
unwatch-kept k key shard = elim (Option-cases (lookup key shard.watch_refs)) [
  | inl n ↦ rw n (λ (still : contains_key k shard.watch_refs ≡ true). refl)
  | inr (refs, found) ↦ rw found (elim (Bool-cases (refs - 1 == 0)) [
    | inl h ↦ rw h (
        ground
          (arith, lookup-remove key k shard.watch_refs, lookup-remove key k shard.key_versions))
    | inr h ↦ rw h (ground arith)
  ])
]

pub unwatch-Given :
    (k key : Bytes) (g : DbWriteGuard)
    → contains_key k (unwatch_shard key g.shard).1.watch_refs ≡ true
    → Given false k (counted g) (g.next_key_version, (unwatch_shard key g.shard).1)
unwatch-Given k key g still = record {
  renewed = ground arith;
  kept = λ (p : false ≡ false). unwatch-kept k key g.shard still;
  below = λ (p : key_version k g.shard < g.next_key_version).
      omega (arith, p, unwatch-kept k key g.shard still);
  onward = omega arith;
}
