-- ===== src/Keyspace/Rename.antt =====
-- `rename` of `DbWriteGuard` in keyspace.rs: the value moves and the counter with the lengths of the keys.
use ratatosk.Prelude.{
  ℕ, ◌-◌, ◌^◌, ◌≤◌, ◌<◌, ◌≡◌, refl, Option, none, some, inl, inr, Option-cases, length, arith,
}
use ratatosk.Prelude.Eq.{list_eq}
use ratatosk.Prelude.Maps.{Map, lookup, contains_key}
use ratatosk.Prelude.Maps
use ratatosk.Prelude.Sums.{total-insert, total-remove}
use ratatosk.Prelude.Words.{Bytes}
use ratatosk.Keyspace.Value.{StoredValue}
use ratatosk.Keyspace.Memory.{exact_size, estimate_object_memory}
use ratatosk.Keyspace.Shard.{sync_expires}
use ratatosk.Keyspace.Agrees.{store-Agrees, drop-Agrees}
use ratatosk.Keyspace.Synced.{live_size, Synced, IsSynced, memory-move, shard-move}
use ratatosk.Keyspace.Guard.{
  DbWriteGuard, sub_memory, move_memory, store, drop_key, remove, rename, rename_found,
}

-- A counter that is `surplus` above the sizes stays so when a key is removed.
record Above (surplus : ℕ) (g : DbWriteGuard) : Type 0 where
  enough : surplus ≤ g.memory
  rest : Synced g.shard.stored g.shard.expires (g.memory - surplus)

drop_key-Above :
    (key : Bytes) (value : StoredValue) (g : DbWriteGuard)
    → IsSynced g
    → lookup key g.shard.stored ≡ some value
    → Above (exact_size key value) (drop_key key g)
drop_key-Above key value g s found =
    let split = total-remove exact_size key g.shard.stored s.agrees.stored_unique in
    record {
      enough = ground (arith, split, found, s.memory_exact);
      rest = record {
        agrees = drop-Agrees key s.agrees;
        memory_exact = ground (arith, split, found, s.memory_exact);
        fits = omega (arith, split, s.fits);
      };
    }

remove-Above :
    (key : Bytes) (surplus : ℕ) (g : DbWriteGuard)
    → Above surplus g
    → Above surplus (remove key g).1
unfolding remove sub_memory estimate_object_memory
remove-Above key surplus g a =
    let split = total-remove exact_size key g.shard.stored a.rest.agrees.stored_unique in
    elim (Option-cases (lookup key g.shard.stored)) [
      | inl n ↦ rw n a
      | inr (value, found) ↦ rw found (record {
        enough = ground (arith, split, found, a.enough, a.rest.memory_exact, a.rest.fits);
        rest = record {
          agrees = drop-Agrees key a.rest.agrees;
          memory_exact = ground (arith, split, found, a.enough, a.rest.memory_exact, a.rest.fits);
          fits = omega (arith, split, a.rest.fits);
        };
      })
    ]

lookup-remove_target :
    (target : Bytes) (g : DbWriteGuard) → lookup target (remove target g).1.shard.stored ≡ none
unfolding remove sub_memory
lookup-remove_target target g = elim (Option-cases (lookup target g.shard.stored)) [
  | inl n ↦ rw n n
  | inr (value, found) ↦ rw found (Maps.lookup-remove_self target g.shard.stored)
]

-- The removed target is given the source's value, and the difference of the keys' lengths is counted.
moved_value-IsSynced :
    (source target : Bytes) (value : StoredValue) (g : DbWriteGuard)
    → Above (exact_size source value) g
    → lookup target g.shard.stored ≡ none
    → live_size
        (Maps.insert target value (move_memory (length source) (length target) g).shard.stored)
      < 2 ^ 64
    → IsSynced (store target value (move_memory (length source) (length target) g))
unfolding sync_expires
moved_value-IsSynced source target value g a free =
    rw (shard-move (length source) (length target) g)
      (λ (small : live_size (Maps.insert target value g.shard.stored) < 2 ^ 64).
        let grown = total-insert exact_size target value g.shard.stored in
        record {
          agrees = store-Agrees target value a.rest.agrees;
          memory_exact = ground (
            arith,
            grown,
            free,
            a.enough,
            a.rest.memory_exact,
            small,
            memory-move (length source) (length target) g,
          );
          fits = small;
        })

rename_found-IsSynced :
    (source target : Bytes) (old : Option StoredValue) (g : DbWriteGuard)
    → IsSynced g
    → lookup source g.shard.stored ≡ old
    → live_size (rename_found source target g old).1.shard.stored < 2 ^ 64
    → IsSynced (rename_found source target g old).1
unfolding sync_expires
rename_found-IsSynced source target none g s found small = s
rename_found-IsSynced source target (some value) g s found small =
    let left = (remove target (drop_key source g)).1 in
    let above =
      remove-Above target (exact_size source value) (drop_key source g)
        (drop_key-Above source value g s found) in
    moved_value-IsSynced source target value left above
      (lookup-remove_target target (drop_key source g)) small

pub rename-IsSynced :
    (source target : Bytes) (g : DbWriteGuard)
    → IsSynced g
    → live_size (rename source target g).1.shard.stored < 2 ^ 64
    → IsSynced (rename source target g).1
unfolding rename
rename-IsSynced source target g s small =
    rename_found-IsSynced source target (lookup source g.shard.stored) g s refl small
