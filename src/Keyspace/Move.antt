-- ===== src/Keyspace/Move.antt =====
-- A value that is taken from one database and put into another with the estimate that it had,
-- keyspace.rs.
use ratatosk.Prelude.{◌+◌, ◌^◌, ◌<◌, ◌≡◌, ap, none, some, arith}
use ratatosk.Prelude.Eq.{list_eq}
use ratatosk.Prelude.Maps.{Map, lookup}
use ratatosk.Prelude.Maps
use ratatosk.Prelude.Sums.{total-insert, total-remove}
use ratatosk.Prelude.Words.{Bytes}
use ratatosk.Keyspace.Value.{StoredValue}
use ratatosk.Keyspace.Memory.{exact_size, estimate_object_memory}
use ratatosk.Keyspace.Shard.{sync_expires}
use ratatosk.Keyspace.Agrees.{store-Agrees}
use ratatosk.Keyspace.Synced.{live_size, IsSynced, drop-Synced}
use ratatosk.Keyspace.Guard.{
  DbWriteGuard, add_memory, sub_memory, take_with_estimate, insert_with_estimate, estimated,
}

-- The two databases after the move: both are in order, the value stands in the target alone, and the
-- memory that the source gives up is the memory that the target takes.
pub record Moved (key : Bytes) (value : StoredValue) (source target left right : DbWriteGuard)
    : Type 0 where
  pub left_synced : IsSynced left
  pub right_synced : IsSynced right
  pub taken : lookup key left.shard.stored ≡ none
  pub put : lookup key right.shard.stored ≡ some value
  pub conserved : left.memory + right.memory ≡ source.memory + target.memory

-- Of two databases in order, with a key that the source has and the target lacks: `take_with_estimate`
-- gives its value with the estimate, and if the target still fits 64 bits with it, then after
-- `insert_with_estimate` of those both databases are in order, the value stands in the target alone,
-- and the sum of the two counters is what it was.
pub insert_with_estimate-take :
    (key : Bytes) (value : StoredValue) (source target : DbWriteGuard)
    → IsSynced source
    → IsSynced target
    → lookup key source.shard.stored ≡ some value
    → lookup key target.shard.stored ≡ none
    → live_size (Maps.insert key value target.shard.stored) < 2 ^ 64
    → ((take_with_estimate key source).0 ≡ some (value, estimate_object_memory key value))
      × Moved key value source target
          (take_with_estimate key source).1
          (insert_with_estimate key value (estimate_object_memory key value) target)
unfolding take_with_estimate insert_with_estimate add_memory sub_memory sync_expires
    estimate_object_memory
insert_with_estimate-take key value source target s t found free small =
    let grown = total-insert exact_size key value target.shard.stored in
    let split = total-remove exact_size key source.shard.stored s.agrees.stored_unique in
    (
      ap (estimated key) found,
      rw found (record {
        left_synced = drop-Synced key value s found;
        right_synced = record {
          agrees = store-Agrees key value t.agrees;
          memory_exact = ground (arith, grown, free, small, t.memory_exact);
          fits = small;
        };
        taken = Maps.lookup-remove_self key source.shard.stored;
        put = Maps.lookup-insert_self key value target.shard.stored;
        conserved =
            ground
              (arith, grown, split, free, found, small, s.memory_exact, s.fits, t.memory_exact);
      }),
    )
