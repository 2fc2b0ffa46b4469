-- ===== src/Keyspace/Server.antt =====
-- Whatever is done to the databases of keyspace.rs, they stay in order.
use ratatosk.Prelude.{
  ℕ, zero, suc, ◌≡◌, refl, sym, ap, Bool, true, false, Option, none, some, List, replicate, inl,
  inr, Bool-cases, arith,
}
use mathlib.Core.Path.{subst}
use ratatosk.Prelude.Eq.{list_eq}
use ratatosk.Prelude.Maps.{Map, lookup}
use ratatosk.Prelude.Words.{Bytes, wrap64}
use ratatosk.Keyspace.Value.{StoredValue}
use ratatosk.Keyspace.Shard.{empty_shard}
use ratatosk.Keyspace.Agrees.{empty-Agrees}
use ratatosk.Keyspace.Reach.{Write, note}
use ratatosk.Keyspace.Whole.{AllSound, total_watched, IsSound, AllFit}
use ratatosk.Keyspace.Steps.{
  IfDone, write_db, write_db-IsSound, watch_key-IsSound, unwatch_key-IsSound,
}
use ratatosk.Keyspace.Swap.{
  AllUnique, swap_dbs-IsSound, clear_all_dbs-IsSound, load_from_snapshot-IsSound,
}
use ratatosk.Keyspace.State.{
  DataState, new_state, has_watched_keys, watch_key, unwatch_key, touch_key_version, swap_dbs,
  clear_all_dbs, load_from_snapshot, recompute_memory_estimates,
}
use ratatosk.Keyspace.Recount.{recount-IsSound}

-- The calls on the databases. A load is given a snapshot in which each key stands once.
pub data Call (R : Type 0) : Type 0 where
  write_to : ℕ → Write R → Call R
  watch_in : ℕ → Bytes → Call R
  unwatch_in : ℕ → Bytes → Call R
  touch_in : ℕ → Bytes → Call R
  swap_two : ℕ → ℕ → Call R
  clear_all : Call R
  recount : Call R
  load : (snapshot : List (Map Bytes StoredValue)) → AllUnique snapshot → Call R

abbrev pub watched_state : Option (ℕ × DataState) → Option DataState
watched_state none = none
watched_state (some (version, s)) = some s

abbrev pub noted : Bytes → Write Bool
noted key = note key

touch-IsSound :
    (idx : ℕ) (key : Bytes) (s : DataState)
    → IsSound s
    → IfDone (λ (t : DataState). AllFit t.shards → IsSound t) (touch_key_version idx key s)
unfolding touch_key_version
touch-IsSound idx key s sound = elim (Bool-cases (has_watched_keys s)) [
  | inl h ↦ rw h (write_db-IsSound idx (noted key) s sound)
  | inr h ↦ rw h (λ (fit : AllFit s.shards). sound)
]

whenever :
    (P : DataState → Type 0) (o : Option DataState)
    → IfDone P o
    → IfDone (λ (t : DataState). AllFit t.shards → P t) o
whenever P none p = tt
whenever P (some t) p = λ (fit : AllFit t.shards). p

watched-IfDone :
    (o : Option (ℕ × DataState))
    → IfDone (λ (r : ℕ × DataState). IsSound r.1) o
    → IfDone IsSound (watched_state o)
watched-IfDone none p = tt
watched-IfDone (some (version, s)) p = p

-- The state after a call, or `none` where it panics.
module _ {R : Type 0} where
  abbrev pub call : Call R → DataState → Option DataState
  call (write_to idx w) s = write_db idx w s
  call (watch_in idx key) s = watched_state (watch_key idx key s)
  call (unwatch_in idx key) s = unwatch_key idx key s
  call (touch_in idx key) s = touch_key_version idx key s
  call (swap_two left right) s = swap_dbs left right s
  call clear_all s = some (clear_all_dbs s)
  call recount s = some (recompute_memory_estimates s).1
  call (load snapshot once) s = some (load_from_snapshot snapshot s)

  call-IsSound :
      (c : Call R) (s : DataState)
      → IsSound s
      → IfDone (λ (t : DataState). AllFit t.shards → IsSound t) (call c s)
  call-IsSound (write_to idx w) s sound = write_db-IsSound idx w s sound
  call-IsSound (watch_in idx key) s sound =
      whenever IsSound (watched_state (watch_key idx key s))
        (watched-IfDone (watch_key idx key s) (watch_key-IsSound idx key s sound))
  call-IsSound (unwatch_in idx key) s sound =
      whenever IsSound (unwatch_key idx key s) (unwatch_key-IsSound idx key s sound)
  call-IsSound (touch_in idx key) s sound = touch-IsSound idx key s sound
  call-IsSound (swap_two left right) s sound =
      whenever IsSound (swap_dbs left right s) (swap_dbs-IsSound left right s sound)
  call-IsSound clear_all s sound =
      λ (fit : AllFit (clear_all_dbs s).shards). clear_all_dbs-IsSound s sound
  call-IsSound recount s sound = recount-IsSound s sound
  call-IsSound (load snapshot once) s sound = load_from_snapshot-IsSound snapshot s once sound

-- A run of calls, after each of which every database is smaller than 2^64 bytes. A call that panics
-- changes nothing.
pub data Calls (R : Type 0) : DataState → DataState → Type 0 where
  finished : (s : DataState) → Calls R s s
  then_call :
      (c : Call R) (s t u : DataState)
      → call c s ≡ some t
      → AllFit t.shards
      → Calls R t u
      → Calls R s u

Calls-IsSound_from : {R : Type 0} (s u : DataState) → Calls R s u → IsSound s → IsSound u
Calls-IsSound_from s u (finished _) sound = sound
Calls-IsSound_from s u (then_call c _ t _ is fit rest) sound = Calls-IsSound_from t u rest (
    subst (IfDone (λ (x : DataState). AllFit x.shards → IsSound x)) is (call-IsSound c s sound) fit)

new-AllSound : (n : ℕ) → AllSound (replicate n empty_shard) (replicate n 0)
unfolding lookup
new-AllSound zero = tt
new-AllSound (suc n) = (
  record {
    synced = record { agrees = empty-Agrees; memory_exact = refl; fits = omega arith };
    watched = record { unique = tt; positive = λ (k : Bytes) (h : false ≡ true). cc };
  },
  new-AllSound n,
)

total_watched-new : (n : ℕ) → total_watched (replicate n empty_shard) ≡ 0
total_watched-new zero = refl
total_watched-new (suc n) = omega (arith, total_watched-new n)

-- Whatever calls are made on a new server's databases in any order, each database's memory counter is the
-- sum of the sizes of its keys and values, its map of deadlines agrees with the values, and
-- `watched_keys` is the number of watched keys of all databases modulo 2^64. The calls are all methods of
-- the write guard, WATCH, UNWATCH, swaps, flushes, loads and recounts, and those edits of a value in place
-- that keep its size and deadline: the counter does not follow others. After each call every database is
-- smaller than 2^64 bytes; a loaded snapshot has each key once; a callback that reports no change makes
-- none; a value is put with the estimate it was taken with, and not over another.
pub Calls-IsSound :
    {R : Type 0} (db_count : ℕ) (s : DataState) → Calls R (new_state db_count) s → IsSound s
unfolding new_state
Calls-IsSound db_count s run = Calls-IsSound_from (new_state db_count) s run (record {
  each = new-AllSound db_count;
  counted = ap wrap64 (sym (total_watched-new db_count));
})
