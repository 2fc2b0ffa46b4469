-- ===== src/Keyspace/Touch.antt =====
-- The early return of `touch_key_version`, keyspace.rs.
use ratatosk.Prelude.{
  ℕ, zero, suc, ◌^◌, ◌<◌, ◌≡◌, refl, sym, ap, ap₂, ◌∙◌, Bool, Option, none, some, List, [], ◌∷◌,
  length, get_elem?, inl, inr, Bool-cases, arith, if◌then◌else◌, nil_of_length, ◌≢◌, ltb,
}
use mathlib.Core.Option.{some_inj}
use ratatosk.Prelude.Eq.{list_eq}
use ratatosk.Prelude.Maps.{contains_key, lookup}
use ratatosk.Prelude.Words.{Bytes}
use ratatosk.Keyspace.Shard.{DbShard, give_version, record_modification}
use ratatosk.Keyspace.Guard.{DbWriteGuard, note_modification}
use ratatosk.Keyspace.Whole.{total_watched, IsSound, set-same, counter_at}
use ratatosk.Keyspace.Steps.{write_db}
use ratatosk.Keyspace.Server.{noted}
use ratatosk.Keyspace.State.{
  DataState, has_watched_keys, touch_key_version, with_db, db_mut, guard_of, written, put_guard,
  touched,
}

nobody_watches :
    (ds : List DbShard) (i : ℕ) (d : DbShard)
    → total_watched ds ≡ 0
    → get_elem? ds i ≡ some d
    → d.watch_refs ≡ []
nobody_watches [] i d h at = absurd (ground (arith, at))
nobody_watches (e ∷ ds) zero d h at =
    nil_of_length d.watch_refs
      (omega (arith, h, ap (λ (x : DbShard). length x.watch_refs) (some_inj.0 at)))
nobody_watches (e ∷ ds) (suc i) d h at = nobody_watches ds i d (omega (arith, h)) at

unnoted : (key : Bytes) (g : DbWriteGuard) → g.shard.watch_refs ≡ [] → note_modification key g ≡ g
unfolding note_modification record_modification lookup
unnoted key g h =
    ap
      (λ (b : Bool).
        let r =
          if◌then◌else◌ {A = ℕ × DbShard} b (give_version key (g.next_key_version, g.shard))
            (g.next_key_version, g.shard) in
        record g { next_key_version = r.0; shard = r.1 })
      (ap (contains_key key) h)

-- A guard that is put back as it was taken.
put_same :
    (idx : ℕ) (s : DataState) (d : DbShard) (b : ℕ)
    → get_elem? s.shards idx ≡ some d
    → get_elem? s.db_memory_bytes idx ≡ some b
    → put_guard idx (record { shard = d; memory = b; next_key_version = s.next_key_version }) s ≡ s
unfolding put_guard
put_same idx s d b at counter =
    ap₂ (λ (ds : List DbShard) (bs : List ℕ). record s { shards = ds; db_memory_bytes = bs })
      (set-same s.shards idx d at) (set-same s.db_memory_bytes idx b counter)

untouched_at :
    (idx : ℕ) (key : Bytes) (s : DataState) (d : DbShard) (ob : Option ℕ)
    → get_elem? s.shards idx ≡ some d
    → get_elem? s.db_memory_bytes idx ≡ ob
    → ob ≢ none
    → d.watch_refs ≡ []
    → touched (
        written idx
          (λ (g : DbWriteGuard). (tt, note_modification key g))
          s
          (guard_of s.next_key_version (some d) ob))
      ≡ some s
untouched_at idx key s d none at counter there quiet = absurd (there refl)
untouched_at idx key s d (some b) at counter there quiet =
    let g : DbWriteGuard = record {
      shard = d;
      memory = b;
      next_key_version = s.next_key_version;
    } in
    ap (λ (h : DbWriteGuard). some (put_guard idx h s)) (unnoted key g quiet)
    ∙ ap some (put_same idx s d b at counter)

untouched_write :
    (idx : ℕ) (key : Bytes) (s : DataState) (d : DbShard)
    → IsSound s
    → get_elem? s.shards idx ≡ some d
    → total_watched s.shards ≡ 0
    → write_db idx (noted key) s ≡ some s
unfolding with_db db_mut
untouched_write idx key s d sound at none_watched =
    ap
      (λ (o : Option DbShard). touched (
        written idx (λ (g : DbWriteGuard). (tt, note_modification key g)) s
          (guard_of s.next_key_version o (get_elem? s.db_memory_bytes idx))))
      at
    ∙ untouched_at idx key s d (get_elem? s.db_memory_bytes idx) at refl
        (counter_at s.shards s.db_memory_bytes idx d sound.each at)
        (nobody_watches s.shards idx d none_watched at)

-- On databases in order with fewer than 2^64 watched keys, and for a database that exists,
-- `touch_key_version` does what `record_modification` under the write lock does: the return before the
-- lock, where no key is watched anywhere, loses nothing.
pub touch_key_version-note :
    (idx : ℕ) (key : Bytes) (s : DataState) (d : DbShard)
    → IsSound s
    → get_elem? s.shards idx ≡ some d
    → total_watched s.shards < 2 ^ 64
    → touch_key_version idx key s ≡ write_db idx (noted key) s
unfolding touch_key_version has_watched_keys
touch_key_version-note idx key s d sound at few = elim (Bool-cases (ltb 0 s.watched_keys)) [
  | inl h ↦ rw h refl
  | inr h ↦
      rw h (sym (untouched_write idx key s d sound at (ground (arith, h, few, sound.counted))))
]
