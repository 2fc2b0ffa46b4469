-- ===== src/Keyspace/Versions.antt =====
-- Versions of watched keys, keyspace.rs.
use ratatosk.Prelude.{
  ℕ, ◌+◌, ◌^◌, ◌≤◌, ◌<◌, ◌≡◌, refl, sym, Bool, true, false, ◌&&◌, ◌||◌, Option, none, some, List,
  [], ◌∷◌, inl, inr, if◌then◌else◌, Bool-cases, length, arith,
}
use ratatosk.Prelude.Eq.{list_eq, bytes_eq, bytes_eq_iff}
use ratatosk.Prelude.Maps.{Map, lookup, contains_key, lookup-insert}
use ratatosk.Prelude.Sets.{contains}
use ratatosk.Prelude.Words.{Bytes}
use ratatosk.Keyspace.Value.{StoredValue}
use ratatosk.Keyspace.Shard.{
  DbShard, give_version, give_versions, existing, record_watched_existing, record_modification,
}

abbrev pub version_in : Option ℕ → ℕ
version_in none = 0
version_in (some v) = v

-- `key_version`, on the shard
unfoldable pub key_version : Bytes → DbShard → ℕ
key_version key shard = version_in (lookup key shard.key_versions)

-- No version has been given that the counter still holds.
abbrev pub IsBelow : ℕ × DbShard → Type 0
IsBelow s = (k : Bytes) → key_version k s.1 < s.0

pub key_version-give :
    (key k : Bytes) (s : ℕ × DbShard)
    → key_version k (give_version key s).1 ≡ (if bytes_eq key k then s.0 else key_version k s.1)
unfolding key_version
key_version-give key k (next, shard) = ground (arith, lookup-insert key k next shard.key_versions)

-- What giving versions to some keys does to the version of `k`: listed keys have a version that was
-- not given before, the others keep theirs.
pub record Given (listed : Bool) (k : Bytes) (s t : ℕ × DbShard) : Type 0 where
  pub renewed : listed ≡ true → s.0 ≤ key_version k t.1
  pub kept : listed ≡ false → key_version k t.1 ≡ key_version k s.1
  pub below : key_version k s.1 < s.0 → key_version k t.1 < t.0
  pub onward : s.0 ≤ t.0

pub give_versions-Given :
    (keys : List Bytes) (k : Bytes) (s : ℕ × DbShard)
    → s.0 + length keys < 2 ^ 64
    → Given (contains k keys) k s (give_versions keys s)
unfolding contains
give_versions-Given [] k s small = record {
  renewed = ground arith;
  kept = λ (p : false ≡ false). refl;
  below = λ (p : key_version k s.1 < s.0). p;
  onward = omega arith;
}
give_versions-Given (key ∷ keys) k s small =
    let ih = give_versions-Given keys k (give_version key s) (omega (arith, small)) in
    record {
      renewed = ground (arith, small, ih.renewed, ih.kept, key_version-give key k s);
      kept = ground (arith, ih.kept, key_version-give key k s);
      below = ground (arith, small, ih.below, key_version-give key k s);
      onward = omega (arith, small, ih.onward);
    }

pub Given-then :
    (listed again : Bool) (k : Bytes) (s t u : ℕ × DbShard)
    → Given listed k s t
    → Given again k t u
    → Given (listed || again) k s u
Given-then listed again k s t u g h = record {
  renewed = ground (arith, g.renewed, h.renewed, h.kept, g.onward, Bool-cases again);
  kept = ground (arith, g.kept, h.kept);
  below = λ (p : key_version k s.1 < s.0). h.below (g.below p);
  onward = omega (arith, g.onward, h.onward);
}

contains-existing :
    (k : Bytes) (watched : Map Bytes ℕ) (stored : Map Bytes StoredValue)
    → contains k (existing watched stored) ≡ (contains_key k watched && contains_key k stored)
unfolding contains lookup
contains-existing k [] stored = refl
contains-existing k ((key, refs) ∷ watched) stored =
    ground (arith, bytes_eq_iff key k, contains-existing k watched stored)

length-existing :
    (watched : Map Bytes ℕ) (stored : Map Bytes StoredValue)
    → length (existing watched stored) ≤ length watched
length-existing [] stored = omega arith
length-existing ((key, refs) ∷ watched) stored = ground (arith, length-existing watched stored)

pub record_watched_existing-Given :
    (k : Bytes) (s : ℕ × DbShard)
    → s.0 + length s.1.watch_refs < 2 ^ 64
    → Given
        (contains_key k s.1.watch_refs && contains_key k s.1.stored)
        k
        s
        (record_watched_existing s)
unfolding record_watched_existing
record_watched_existing-Given k s small = rw (sym (contains-existing k s.1.watch_refs s.1.stored)) (
    give_versions-Given (existing s.1.watch_refs s.1.stored) k s
      (omega (arith, small, length-existing s.1.watch_refs s.1.stored)))

pub record_modification-Given :
    (key k : Bytes) (s : ℕ × DbShard)
    → s.0 + 1 < 2 ^ 64
    → Given (contains_key k s.1.watch_refs && bytes_eq key k) k s (record_modification key s)
unfolding record_modification
record_modification-Given key k s small = elim (Bool-cases (contains_key key s.1.watch_refs)) [
  | inl h ↦ rw h (record {
    renewed = ground (arith, small, key_version-give key k s, bytes_eq_iff key k);
    kept = ground (arith, h, key_version-give key k s, bytes_eq_iff key k);
    below = ground (arith, small, key_version-give key k s);
    onward = omega (arith, small);
  })
  | inr h ↦ rw h (record {
    renewed = ground (arith, h, bytes_eq_iff key k);
    kept = λ (p : (contains_key k s.1.watch_refs && bytes_eq key k) ≡ false). refl;
    below = λ (p : key_version k s.1 < s.0). p;
    onward = omega arith;
  })
]

watchers-give_versions :
    (keys : List Bytes) (s : ℕ × DbShard) → (give_versions keys s).1.watch_refs ≡ s.1.watch_refs
watchers-give_versions [] s = refl
watchers-give_versions (key ∷ keys) s = watchers-give_versions keys (give_version key s)

pub watchers-record_watched_existing :
    (s : ℕ × DbShard) → (record_watched_existing s).1.watch_refs ≡ s.1.watch_refs
unfolding record_watched_existing
watchers-record_watched_existing s = watchers-give_versions (existing s.1.watch_refs s.1.stored) s

next-give_versions :
    (keys : List Bytes) (s : ℕ × DbShard) → (give_versions keys s).0 ≤ s.0 + length keys
next-give_versions [] s = omega arith
next-give_versions (key ∷ keys) s = omega (arith, next-give_versions keys (give_version key s))

pub next-record_watched_existing :
    (s : ℕ × DbShard) → (record_watched_existing s).0 ≤ s.0 + length s.1.watch_refs
unfolding record_watched_existing
next-record_watched_existing s = omega (
  arith,
  next-give_versions (existing s.1.watch_refs s.1.stored) s,
  length-existing s.1.watch_refs s.1.stored,
)
