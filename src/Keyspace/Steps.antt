-- ===== src/Keyspace/Steps.antt =====
-- The operations of keyspace.rs on all databases, and that they keep the invariant.
use ratatosk.Prelude.{
  ℕ, suc, ◌+◌, ◌-◌, ◌≡◌, refl, sym, ap, ◌∙◌, Bool, true, false, Option, none, some, List, length,
  set, get_elem?, inl, inr, Bool-cases, Option-cases, arith, if◌then◌else◌, ◌==◌,
}
use mathlib.Core.Path.{subst}
use ratatosk.Prelude.Eq.{list_eq}
use ratatosk.Prelude.Maps.{lookup}
use ratatosk.Prelude.Words.{Bytes, wrap64}
use ratatosk.Keyspace.Shard.{DbShard}
use ratatosk.Keyspace.Guard.{DbWriteGuard}
use ratatosk.Keyspace.Reach.{Write, apply_write, apply_write-IsSynced}
use ratatosk.Keyspace.Watchers.{
  IsWatched, watchers-apply_write, watch-counts, watch-IsWatched, unwatch-counts, unwatch-IsWatched,
}
use ratatosk.Keyspace.Whole.{
  Sound, AllSound, total_watched, IsSound, AllFit, database_at, AllSound-set, counter_at, set-same,
  total_watched-set, fit_at,
}
use ratatosk.Keyspace.State.{
  DataState, db_mut, guard_of, put_guard, with_db, written, watch_key, watch_found, watch_shard,
  count_watched, unwatch_key, unwatch_at, unwatch_shard, discount_watched, touched,
}

-- A result that did not panic has the property.
abbrev pub IfDone : {A : Type 0} → (A → Type 0) → Option A → Type 0
IfDone P none = Unit
IfDone P (some a) = P a

module _ {R : Type 0} where
  -- A write on the guard of one database.
  abbrev pub write_db : ℕ → Write R → DataState → Option DataState
  write_db idx w s = touched (with_db idx (λ (g : DbWriteGuard). (tt, apply_write w g)) s)

  write_found :
      (idx : ℕ) (w : Write R) (s : DataState) (d : DbShard) (b : ℕ)
      → IsSound s
      → get_elem? s.shards idx ≡ some d
      → get_elem? s.db_memory_bytes idx ≡ some b
      → AllFit
          (put_guard idx
            (apply_write w
              (record { shard = d; memory = b; next_key_version = s.next_key_version }))
            s).shards
      → IsSound (
          put_guard idx
            (apply_write w
              (record { shard = d; memory = b; next_key_version = s.next_key_version }))
            s)
  unfolding put_guard
  write_found idx w s d b sound at counter fit =
      let g : DbWriteGuard = record {
        shard = d;
        memory = b;
        next_key_version = s.next_key_version;
      } in
      let h = apply_write w g in
      let old = database_at s.shards s.db_memory_bytes idx d b sound.each at counter in
      let same = watchers-apply_write w g in
      record {
        each = AllSound-set s.shards s.db_memory_bytes idx h.shard h.memory sound.each (record {
          synced = apply_write-IsSynced w g old.synced (fit_at s.shards idx d h.shard at fit);
          watched = subst IsWatched (sym same) old.watched;
        });
        counted =
            sound.counted
            ∙ ap wrap64
                (omega (arith, total_watched-set s.shards idx d h.shard at, ap length same));
      }

  write_at :
      (idx : ℕ) (w : Write R) (s : DataState) (od : Option DbShard) (ob : Option ℕ)
      → IsSound s
      → get_elem? s.shards idx ≡ od
      → get_elem? s.db_memory_bytes idx ≡ ob
      → IfDone
          (λ (t : DataState). AllFit t.shards → IsSound t)
          (touched (
            written idx
              (λ (g : DbWriteGuard). (tt, apply_write w g))
              s
              (guard_of s.next_key_version od ob)))
  write_at idx w s none ob sound at counter = tt
  write_at idx w s (some d) none sound at counter = tt
  write_at idx w s (some d) (some b) sound at counter = write_found idx w s d b sound at counter

  pub write_db-IsSound :
      (idx : ℕ) (w : Write R) (s : DataState)
      → IsSound s
      → IfDone (λ (t : DataState). AllFit t.shards → IsSound t) (write_db idx w s)
  unfolding with_db db_mut
  write_db-IsSound idx w s sound =
      write_at idx w s (get_elem? s.shards idx) (get_elem? s.db_memory_bytes idx) sound refl refl

-- A shard with other registrations in place of one of the databases.
registered :
    (ds : List DbShard) (bs : List ℕ) (idx : ℕ) (d new : DbShard)
    → AllSound ds bs
    → get_elem? ds idx ≡ some d
    → new.stored ≡ d.stored
    → new.expires ≡ d.expires
    → IsWatched new.watch_refs
    → AllSound (set ds idx new) bs
registered ds bs idx d new all at same_stored same_expires w =
    elim (Option-cases (get_elem? bs idx)) [
      | inl n ↦ absurd (counter_at ds bs idx d all at n)
      | inr (b, counter) ↦
          let old = database_at ds bs idx d b all at counter in
          let sound : Sound new b = record {
            synced = rw (same_stored, same_expires) old.synced;
            watched = w;
          } in
          subst (AllSound (set ds idx new)) (set-same bs idx b counter)
            (AllSound-set ds bs idx new b all sound)
    ]

watchers_at :
    (ds : List DbShard) (bs : List ℕ) (idx : ℕ) (d : DbShard)
    → AllSound ds bs
    → get_elem? ds idx ≡ some d
    → IsWatched d.watch_refs
watchers_at ds bs idx d all at = elim (Option-cases (get_elem? bs idx)) [
  | inl n ↦ absurd (counter_at ds bs idx d all at n)
  | inr (b, counter) ↦ (database_at ds bs idx d b all at counter).watched
]

count_watched-counts :
    (fresh : Bool) (n before after old new : ℕ)
    → n ≡ wrap64 before
    → after + old ≡ before + new
    → new ≡ (if fresh then suc old else old)
    → count_watched fresh n ≡ wrap64 after
count_watched-counts true n before after old new is moved counts = omega (arith, is, moved, counts)
count_watched-counts false n before after old new is moved counts =
    is ∙ ap wrap64 (omega (arith, moved, counts))

discount_watched-counts :
    (gone : Bool) (n before after old new : ℕ)
    → n ≡ wrap64 before
    → after + old ≡ before + new
    → (if gone then suc new else new) ≡ old
    → discount_watched gone n ≡ wrap64 after
discount_watched-counts true n before after old new is moved counts =
    omega (arith, is, moved, counts)
discount_watched-counts false n before after old new is moved counts =
    is ∙ ap wrap64 (omega (arith, moved, counts))

stored-watch :
    (key : Bytes) (shard : DbShard)
    → ((watch_shard key shard).2.stored ≡ shard.stored)
      × ((watch_shard key shard).2.expires ≡ shard.expires)
unfolding watch_shard
stored-watch key shard = (refl, refl)

watch_found-IsSound :
    (idx : ℕ) (key : Bytes) (s : DataState) (od : Option DbShard)
    → IsSound s
    → get_elem? s.shards idx ≡ od
    → IfDone (λ (r : ℕ × DataState). IsSound r.1) (watch_found idx key s od)
watch_found-IsSound idx key s none sound at = tt
watch_found-IsSound idx key s (some d) sound at =
    let r = watch_shard key d in
    let w = watchers_at s.shards s.db_memory_bytes idx d sound.each at in
    let same = stored-watch key d in
    record {
      each =
          registered s.shards s.db_memory_bytes idx d r.2 sound.each at same.0 same.1
            (watch-IsWatched key d w);
      counted =
          count_watched-counts r.0 s.watched_keys (total_watched s.shards)
            (total_watched (set s.shards idx r.2)) (length d.watch_refs) (length r.2.watch_refs)
            sound.counted (total_watched-set s.shards idx d r.2 at) (watch-counts key d w);
    }

pub watch_key-IsSound :
    (idx : ℕ) (key : Bytes) (s : DataState)
    → IsSound s
    → IfDone (λ (r : ℕ × DataState). IsSound r.1) (watch_key idx key s)
unfolding watch_key
watch_key-IsSound idx key s sound =
    watch_found-IsSound idx key s (get_elem? s.shards idx) sound refl

stored-unwatch :
    (key : Bytes) (shard : DbShard)
    → ((unwatch_shard key shard).1.stored ≡ shard.stored)
      × ((unwatch_shard key shard).1.expires ≡ shard.expires)
unfolding unwatch_shard
stored-unwatch key shard = elim (Option-cases (lookup key shard.watch_refs)) [
  | inl n ↦ rw n (refl, refl)
  | inr (refs, found) ↦
      rw found (elim (Bool-cases (refs - 1 == 0)) [
        | inl h ↦ rw h (refl, refl)
        | inr h ↦ rw h (refl, refl)
      ])
]

unwatch_at-IsSound :
    (idx : ℕ) (key : Bytes) (s : DataState) (od : Option DbShard)
    → IsSound s
    → get_elem? s.shards idx ≡ od
    → IfDone IsSound (unwatch_at idx key s od)
unwatch_at-IsSound idx key s none sound at = tt
unwatch_at-IsSound idx key s (some d) sound at =
    let r = unwatch_shard key d in
    let w = watchers_at s.shards s.db_memory_bytes idx d sound.each at in
    let same = stored-unwatch key d in
    record {
      each =
          registered s.shards s.db_memory_bytes idx d r.1 sound.each at same.0 same.1
            (unwatch-IsWatched key d w);
      counted =
          discount_watched-counts r.0 s.watched_keys (total_watched s.shards)
            (total_watched (set s.shards idx r.1)) (length d.watch_refs) (length r.1.watch_refs)
            sound.counted (total_watched-set s.shards idx d r.1 at) (unwatch-counts key d w);
    }

pub unwatch_key-IsSound :
    (idx : ℕ) (key : Bytes) (s : DataState) → IsSound s → IfDone IsSound (unwatch_key idx key s)
unfolding unwatch_key
unwatch_key-IsSound idx key s sound =
    unwatch_at-IsSound idx key s (get_elem? s.shards idx) sound refl
