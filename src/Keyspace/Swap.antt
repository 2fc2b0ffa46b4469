-- ===== src/Keyspace/Swap.antt =====
-- Swap, flush and load of whole databases, keyspace.rs.
use ratatosk.Prelude.{
  ℕ, ◌^◌, ◌<◌, ◌≡◌, refl, sym, ap, ◌∙◌, false, Option, none, some, List, [], ◌∷◌, length, set,
  get_elem?, get_elem?-set_ne, replicate, inl, inr, Bool-cases, arith, ◌==◌,
}
use mathlib.Core.Path.{subst}
use ratatosk.Prelude.Eq.{list_eq}
use ratatosk.Prelude.Maps.{Map, IsUnique}
use ratatosk.Prelude.Words.{Bytes, wrap64}
use ratatosk.Keyspace.Value.{StoredValue}
use ratatosk.Keyspace.Shard.{DbShard, record_watched_existing}
use ratatosk.Keyspace.Versions.{watchers-record_watched_existing}
use ratatosk.Keyspace.Agrees.{empty-Agrees}
use ratatosk.Keyspace.Synced.{Synced, live_size}
use ratatosk.Keyspace.Watchers.{IsWatched, stored-record_watched_existing}
use ratatosk.Keyspace.Load.{loaded-Synced}
use ratatosk.Keyspace.Steps.{IfDone}
use ratatosk.Keyspace.Whole.{
  Sound, AllSound, total_watched, IsSound, AllFit, database_at, AllSound-set, total_watched-set,
}
use ratatosk.Keyspace.State.{
  DataState, db_mut, guard_of, swap_shards, swapped, swap_dbs, clear_each, clear_all_dbs,
  load_shard, load_each, load_from_snapshot, index_expires,
}

-- A shard that took the contents of another and kept its registrations.
pub record TookOver (new old from : DbShard) : Type 0 where
  pub stored : new.stored ≡ from.stored
  pub expires : new.expires ≡ from.expires
  pub watchers : new.watch_refs ≡ old.watch_refs

took-Sound :
    (new old from : DbShard) (memory : ℕ)
    → TookOver new old from
    → Synced from.stored from.expires memory
    → IsWatched old.watch_refs
    → Sound new memory
took-Sound new old from memory t s w = record {
  synced = rw (t.stored, t.expires) s;
  watched = subst IsWatched (sym t.watchers) w;
}

pub swap_shards-TookOver :
    (next : ℕ) (left right : DbShard)
    → TookOver (swap_shards next left right).1 left right
      × TookOver (swap_shards next left right).2 right left
unfolding swap_shards
swap_shards-TookOver next left right =
    let a = record_watched_existing (next, left) in
    let b = record_watched_existing (a.0, right) in
    let x : ℕ × DbShard = (b.0, record (a.1) { stored = b.1.stored; expires = b.1.expires }) in
    let c = record_watched_existing x in
    let y : ℕ × DbShard = (c.0, record (b.1) { stored = a.1.stored; expires = a.1.expires }) in
    let sa = stored-record_watched_existing (next, left) in
    let sb = stored-record_watched_existing (a.0, right) in
    let sc = stored-record_watched_existing x in
    let sd = stored-record_watched_existing y in
    (
      record {
        stored = sc.0 ∙ sb.0;
        expires = sc.1 ∙ sb.1;
        watchers =
            watchers-record_watched_existing x ∙ watchers-record_watched_existing (next, left);
      },
      record {
        stored = sd.0 ∙ sa.0;
        expires = sd.1 ∙ sa.1;
        watchers =
            watchers-record_watched_existing y ∙ watchers-record_watched_existing (a.0, right);
      },
    )

same_watched :
    (ds : List DbShard) (i : ℕ) (d new : DbShard)
    → get_elem? ds i ≡ some d
    → new.watch_refs ≡ d.watch_refs
    → total_watched (set ds i new) ≡ total_watched ds
same_watched ds i d new at w = omega (arith, total_watched-set ds i d new at, ap length w)

swap_found :
    (left right : ℕ) (s : DataState) (dl dr : DbShard) (bl br : ℕ)
    → (left == right) ≡ false
    → IsSound s
    → get_elem? s.shards left ≡ some dl
    → get_elem? s.shards right ≡ some dr
    → get_elem? s.db_memory_bytes left ≡ some bl
    → get_elem? s.db_memory_bytes right ≡ some br
    → IfDone IsSound (
        swapped left right s
          (guard_of s.next_key_version (some dl) (some bl))
          (guard_of s.next_key_version (some dr) (some br)))
swap_found left right s dl dr bl br apart sound at_l at_r mem_l mem_r =
    let r = swap_shards s.next_key_version dl dr in
    let t = swap_shards-TookOver s.next_key_version dl dr in
    let old_l = database_at s.shards s.db_memory_bytes left dl bl sound.each at_l mem_l in
    let old_r = database_at s.shards s.db_memory_bytes right dr br sound.each at_r mem_r in
    let first = set s.shards left r.1 in
    let at_r' : get_elem? first right ≡ some dr =
      get_elem?-set_ne s.shards r.1 (ground (arith, apart)) ∙ at_r in
    record {
      each =
          AllSound-set first (set s.db_memory_bytes left br) right r.2 bl
            (AllSound-set s.shards s.db_memory_bytes left r.1 br sound.each
              (took-Sound r.1 dl dr br t.0 old_r.synced old_l.watched))
            (took-Sound r.2 dr dl bl t.1 old_l.synced old_r.watched);
      counted =
          sound.counted
          ∙ ap wrap64 (
              sym (
                same_watched first right dr r.2 at_r' t.1.watchers
                ∙ same_watched s.shards left dl r.1 at_l t.0.watchers));
    }

swap_at :
    (left right : ℕ) (s : DataState) (ol or : Option DbShard) (ml mr : Option ℕ)
    → (left == right) ≡ false
    → IsSound s
    → get_elem? s.shards left ≡ ol
    → get_elem? s.shards right ≡ or
    → get_elem? s.db_memory_bytes left ≡ ml
    → get_elem? s.db_memory_bytes right ≡ mr
    → IfDone IsSound (
        swapped left right s
          (guard_of s.next_key_version ol ml)
          (guard_of s.next_key_version or mr))
swap_at left right s none or ml mr apart sound a b c d = tt
swap_at left right s (some dl) or none mr apart sound a b c d = tt
swap_at left right s (some dl) none (some bl) mr apart sound a b c d = tt
swap_at left right s (some dl) (some dr) (some bl) none apart sound a b c d = tt
swap_at left right s (some dl) (some dr) (some bl) (some br) apart sound a b c d =
    swap_found left right s dl dr bl br apart sound a b c d

pub swap_dbs-IsSound :
    (left right : ℕ) (s : DataState) → IsSound s → IfDone IsSound (swap_dbs left right s)
unfolding swap_dbs db_mut
swap_dbs-IsSound left right s sound = elim (Bool-cases (left == right)) [
  | inl h ↦ rw h tt
  | inr h ↦ rw h (
      swap_at left right s (get_elem? s.shards left) (get_elem? s.shards right)
        (get_elem? s.db_memory_bytes left) (get_elem? s.db_memory_bytes right) h sound refl refl
        refl refl)
]

cleared-Sound :
    (next : ℕ) (d : DbShard) (memory : ℕ)
    → Sound d memory
    → Sound (record ((record_watched_existing (next, d)).1) { stored = []; expires = [] }) 0
cleared-Sound next d memory sound = record {
  synced = record { agrees = empty-Agrees; memory_exact = refl; fits = omega arith };
  watched = subst IsWatched (sym (watchers-record_watched_existing (next, d))) sound.watched;
}

clear_each-AllSound :
    (next : ℕ) (ds : List DbShard) (bs : List ℕ)
    → AllSound ds bs
    → AllSound (clear_each next ds).1 (replicate (length bs) 0)
clear_each-AllSound next [] [] all = tt
clear_each-AllSound next [] (b ∷ bs) all = elim all [ ]
clear_each-AllSound next (d ∷ ds) [] all = elim all [ ]
clear_each-AllSound next (d ∷ ds) (b ∷ bs) (first, all) = (
  cleared-Sound next d b first,
  clear_each-AllSound (record_watched_existing (next, d)).0 ds bs all,
)

total_watched-clear :
    (next : ℕ) (ds : List DbShard) → total_watched (clear_each next ds).1 ≡ total_watched ds
total_watched-clear next [] = refl
total_watched-clear next (d ∷ ds) = omega (
  arith,
  ap length (watchers-record_watched_existing (next, d)),
  total_watched-clear (record_watched_existing (next, d)).0 ds,
)

pub clear_all_dbs-IsSound : (s : DataState) → IsSound s → IsSound (clear_all_dbs s)
unfolding clear_all_dbs
clear_all_dbs-IsSound s sound = record {
  each = clear_each-AllSound s.next_key_version s.shards s.db_memory_bytes sound.each;
  counted = sound.counted ∙ ap wrap64 (sym (total_watched-clear s.next_key_version s.shards));
}

-- The databases of a snapshot have each key once.
abbrev pub AllUnique : List (Map Bytes StoredValue) → Type 0
AllUnique [] = Unit
AllUnique (m ∷ ms) = IsUnique m × AllUnique ms

load_shard-TookOver :
    (m : Map Bytes StoredValue) (s : ℕ × DbShard)
    → ((load_shard m s).1.stored ≡ m)
      × ((load_shard m s).1.expires ≡ index_expires m [])
      × ((load_shard m s).1.watch_refs ≡ s.1.watch_refs)
unfolding load_shard
load_shard-TookOver m s =
    let r = record_watched_existing s in
    let x : ℕ × DbShard = (r.0, record (r.1) { stored = m }) in
    (
      (stored-record_watched_existing x).0,
      refl,
      watchers-record_watched_existing x ∙ watchers-record_watched_existing s,
    )

load_each-AllSound :
    (ms : List (Map Bytes StoredValue)) (next : ℕ) (ds : List DbShard) (bs : List ℕ)
    → AllUnique ms
    → AllSound ds bs
    → AllFit (load_each ms next ds bs).1
    → AllSound (load_each ms next ds bs).1 (load_each ms next ds bs).2
load_each-AllSound [] next ds bs u all fit = all
load_each-AllSound (m ∷ ms) next [] [] u all fit = tt
load_each-AllSound (m ∷ ms) next [] (b ∷ bs) u all fit = elim all [ ]
load_each-AllSound (m ∷ ms) next (d ∷ ds) [] u all fit = elim all [ ]
load_each-AllSound (m ∷ ms) next (d ∷ ds) (b ∷ bs) (once, u) (first, all) (small, fit) =
    let r = load_shard m (next, d) in
    let t = load_shard-TookOver m (next, d) in
    let fits : live_size m < 2 ^ 64 =
      subst (λ (stored : Map Bytes StoredValue). live_size stored < 2 ^ 64) t.0 small in
    (
      record {
        synced = rw (t.0, t.1) (loaded-Synced m once fits);
        watched = subst IsWatched (sym t.2) first.watched;
      },
      load_each-AllSound ms r.0 ds bs u all fit,
    )

total_watched-load :
    (ms : List (Map Bytes StoredValue)) (next : ℕ) (ds : List DbShard) (bs : List ℕ)
    → total_watched (load_each ms next ds bs).1 ≡ total_watched ds
total_watched-load [] next ds bs = refl
total_watched-load (m ∷ ms) next [] bs = refl
total_watched-load (m ∷ ms) next (d ∷ ds) [] = refl
total_watched-load (m ∷ ms) next (d ∷ ds) (b ∷ bs) = omega (
  arith,
  ap length (load_shard-TookOver m (next, d)).2,
  total_watched-load ms (load_shard m (next, d)).0 ds bs,
)

pub load_from_snapshot-IsSound :
    (ms : List (Map Bytes StoredValue)) (s : DataState)
    → AllUnique ms
    → IsSound s
    → AllFit (load_from_snapshot ms s).shards
    → IsSound (load_from_snapshot ms s)
unfolding load_from_snapshot
load_from_snapshot-IsSound ms s u sound fit = record {
  each = load_each-AllSound ms s.next_key_version s.shards s.db_memory_bytes u sound.each fit;
  counted =
      sound.counted
      ∙ ap wrap64 (sym (total_watched-load ms s.next_key_version s.shards s.db_memory_bytes));
}
