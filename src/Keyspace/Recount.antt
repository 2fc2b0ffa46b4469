-- ===== src/Keyspace/Recount.antt =====
-- `recompute_memory_estimates` of eviction.rs.
use ratatosk.Prelude.{ℕ, ◌+◌, ◌^◌, ◌<◌, ◌≡◌, ap, ◌∙◌, List, [], ◌∷◌, map, arith}
use ratatosk.Prelude.Eq.{list_eq}
use ratatosk.Prelude.Maps.{Map}
use ratatosk.Prelude.Words.{Bytes, sat_add, wrap64}
use ratatosk.Keyspace.Value.{StoredValue}
use ratatosk.Keyspace.Memory.{exact_size, estimate_object_memory, fold_of}
use ratatosk.Keyspace.Shard.{DbShard}
use ratatosk.Keyspace.Agrees.{Agrees}
use ratatosk.Keyspace.Synced.{live_size, estimate-exact}
use ratatosk.Keyspace.Watchers.{IsWatched}
use ratatosk.Keyspace.Whole.{AllSound, AllFit, IsSound, total_watched}
use ratatosk.Keyspace.State.{
  DataState, counted_memory, estimate_shard_memory, recompute_memory_estimates,
}

-- What a database keeps whatever its memory counter says.
pub record Kept (shard : DbShard) : Type 0 where
  pub agrees : Agrees shard.stored shard.expires
  pub watched : IsWatched shard.watch_refs

abbrev pub AllKept : List DbShard → Type 0
AllKept [] = Unit
AllKept (d ∷ ds) = Kept d × AllKept ds

abbrev pub total_size : List DbShard → ℕ
total_size [] = 0
total_size (d ∷ ds) = live_size d.stored + total_size ds

AllSound-AllKept : (ds : List DbShard) (bs : List ℕ) → AllSound ds bs → AllKept ds
AllSound-AllKept [] bs all = tt
AllSound-AllKept (d ∷ ds) [] all = elim all [ ]
AllSound-AllKept (d ∷ ds) (b ∷ bs) (one, all) =
    (record { agrees = one.synced.agrees; watched = one.watched }, AllSound-AllKept ds bs all)

counted_memory-exact :
    (stored : Map Bytes StoredValue) (total : ℕ)
    → total + live_size stored < 2 ^ 64
    → counted_memory stored total ≡ total + live_size stored
counted_memory-exact [] total small = omega arith
counted_memory-exact ((key, value) ∷ stored) total small =
    let est = estimate-exact key value (omega (arith, small)) in
    let sum : sat_add total (estimate_object_memory key value) ≡ total + exact_size key value =
      omega (arith, est, small) in
    ap (counted_memory stored) sum
    ∙ counted_memory-exact stored (total + exact_size key value) (omega (arith, small))
    ∙ omega arith

shard_memory-exact :
    (d : DbShard) → live_size d.stored < 2 ^ 64 → estimate_shard_memory d ≡ live_size d.stored
unfolding estimate_shard_memory
shard_memory-exact d small = counted_memory-exact d.stored 0 (omega (arith, small)) ∙ omega arith

counted-AllSound :
    (ds : List DbShard) → AllKept ds → AllFit ds → AllSound ds (map estimate_shard_memory ds)
counted-AllSound [] all fit = tt
counted-AllSound (d ∷ ds) (one, all) (small, fit) = (
  record {
    synced = record {
      agrees = one.agrees;
      memory_exact = shard_memory-exact d small;
      fits = small;
    };
    watched = one.watched;
  },
  counted-AllSound ds all fit,
)

pub fold-exact :
    (ds : List DbShard) (total : ℕ)
    → total + total_size ds < 2 ^ 64
    → fold_of sat_add total (map estimate_shard_memory ds) ≡ total + total_size ds
fold-exact [] total small = omega arith
fold-exact (d ∷ ds) total small =
    let sum : sat_add total (estimate_shard_memory d) ≡ total + live_size d.stored =
      omega (arith, shard_memory-exact d (omega (arith, small)), small) in
    ap (λ n. fold_of sat_add n (map estimate_shard_memory ds)) sum
    ∙ fold-exact ds (total + live_size d.stored) (omega (arith, small))
    ∙ omega arith

-- A state whose counters may be wrong.
pub record IsKept (s : DataState) : Type 0 where
  pub each : AllKept s.shards
  pub counted : s.watched_keys ≡ wrap64 (total_watched s.shards)

pub recounted-IsSound :
    (s : DataState) → IsKept s → AllFit s.shards → IsSound (recompute_memory_estimates s).1
unfolding recompute_memory_estimates
recounted-IsSound s kept fit = record {
  each = counted-AllSound s.shards kept.each fit;
  counted = kept.counted;
}

pub IsSound-IsKept : (s : DataState) → IsSound s → IsKept s
IsSound-IsKept s sound = record {
  each = AllSound-AllKept s.shards s.db_memory_bytes sound.each;
  counted = sound.counted;
}

pub recount-IsSound :
    (s : DataState)
    → IsSound s
    → AllFit (recompute_memory_estimates s).1.shards
    → IsSound (recompute_memory_estimates s).1
unfolding recompute_memory_estimates
recount-IsSound s sound fit = recounted-IsSound s (IsSound-IsKept s sound) fit
