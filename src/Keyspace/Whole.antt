-- ===== src/Keyspace/Whole.antt =====
-- The invariant of all databases of keyspace.rs, database by database.
use ratatosk.Prelude.{
  ℕ, zero, suc, ◌+◌, ◌^◌, ◌<◌, ◌≡◌, ◌≢◌, refl, sym, ap, none, some, List, [], ◌∷◌, length, set,
  get_elem?, arith,
}
use mathlib.Core.Path.{subst₂}
use mathlib.Core.Option.{some_inj}
use ratatosk.Prelude.Words.{wrap64}
use ratatosk.Keyspace.Shard.{DbShard}
use ratatosk.Keyspace.Synced.{Synced, live_size}
use ratatosk.Keyspace.Watchers.{IsWatched}
use ratatosk.Keyspace.State.{DataState}

-- One database with its memory counter.
pub record Sound (shard : DbShard) (memory : ℕ) : Type 0 where
  pub synced : Synced shard.stored shard.expires memory
  pub watched : IsWatched shard.watch_refs

abbrev pub AllSound : List DbShard → List ℕ → Type 0
AllSound [] [] = Unit
AllSound (d ∷ ds) (b ∷ bs) = Sound d b × AllSound ds bs
AllSound [] (b ∷ bs) = ⊥
AllSound (d ∷ ds) [] = ⊥

-- The keys that are watched, in all databases.
abbrev pub total_watched : List DbShard → ℕ
total_watched [] = 0
total_watched (d ∷ ds) = length d.watch_refs + total_watched ds

pub record IsSound (s : DataState) : Type 0 where
  pub each : AllSound s.shards s.db_memory_bytes
  pub counted : s.watched_keys ≡ wrap64 (total_watched s.shards)

-- Every database is smaller than 2^64 bytes.
abbrev pub AllFit : List DbShard → Type 0
AllFit [] = Unit
AllFit (d ∷ ds) = (live_size d.stored < 2 ^ 64) × AllFit ds

pub database_at :
    (ds : List DbShard) (bs : List ℕ) (i : ℕ) (d : DbShard) (b : ℕ)
    → AllSound ds bs
    → get_elem? ds i ≡ some d
    → get_elem? bs i ≡ some b
    → Sound d b
database_at [] [] i d b all h k = absurd (ground (arith, h))
database_at [] (c ∷ bs) i d b all h k = elim all [ ]
database_at (e ∷ ds) [] i d b all h k = elim all [ ]
database_at (e ∷ ds) (c ∷ bs) zero d b (first, all) h k =
    subst₂ Sound (some_inj.0 h) (some_inj.0 k) first
database_at (e ∷ ds) (c ∷ bs) (suc i) d b (first, all) h k = database_at ds bs i d b all h k

pub AllSound-set :
    (ds : List DbShard) (bs : List ℕ) (i : ℕ) (d : DbShard) (b : ℕ)
    → AllSound ds bs
    → Sound d b
    → AllSound (set ds i d) (set bs i b)
AllSound-set [] [] i d b all new = tt
AllSound-set [] (c ∷ bs) i d b all new = elim all [ ]
AllSound-set (e ∷ ds) [] i d b all new = elim all [ ]
AllSound-set (e ∷ ds) (c ∷ bs) zero d b (first, all) new = (new, all)
AllSound-set (e ∷ ds) (c ∷ bs) (suc i) d b (first, all) new =
    (first, AllSound-set ds bs i d b all new)

-- There is a counter for each database.
pub counter_at :
    (ds : List DbShard) (bs : List ℕ) (i : ℕ) (d : DbShard)
    → AllSound ds bs
    → get_elem? ds i ≡ some d
    → get_elem? bs i ≢ none
counter_at [] [] i d all h n = cc
counter_at [] (c ∷ bs) i d all h n = elim all [ ]
counter_at (e ∷ ds) [] i d all h n = elim all [ ]
counter_at (e ∷ ds) (c ∷ bs) zero d (first, all) h n = cc
counter_at (e ∷ ds) (c ∷ bs) (suc i) d (first, all) h n = counter_at ds bs i d all h n

pub set-same :
    {A : Type 0} (xs : List A) (i : ℕ) (x : A) → get_elem? xs i ≡ some x → set xs i x ≡ xs
set-same [] i x h = refl
set-same (y ∷ xs) zero x h = ap (λ t. t ∷ xs) (sym (some_inj.0 h))
set-same (y ∷ xs) (suc i) x h = ap (λ t. y ∷ t) (set-same xs i x h)

pub total_watched-set :
    (ds : List DbShard) (i : ℕ) (d new : DbShard)
    → get_elem? ds i ≡ some d
    → total_watched (set ds i new) + length d.watch_refs ≡ total_watched ds + length new.watch_refs
total_watched-set [] i d new h = absurd (ground (arith, h))
total_watched-set (e ∷ ds) zero d new h =
    omega (arith, ap (λ (x : DbShard). length x.watch_refs) (some_inj.0 h))
total_watched-set (e ∷ ds) (suc i) d new h = omega (arith, total_watched-set ds i d new h)

pub fit_at :
    (ds : List DbShard) (i : ℕ) (d new : DbShard)
    → get_elem? ds i ≡ some d
    → AllFit (set ds i new)
    → live_size new.stored < 2 ^ 64
fit_at [] i d new h fit = absurd (ground (arith, h))
fit_at (e ∷ ds) zero d new h (small, fit) = small
fit_at (e ∷ ds) (suc i) d new h (small, fit) = fit_at ds i d new h fit
