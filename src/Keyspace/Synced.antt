-- ===== src/Keyspace/Synced.antt =====
-- The memory counter of a database against its values: the operations of `DbWriteGuard` in keyspace.rs
-- keep it equal to the sum of the estimates, and the two stores of deadlines equal.
use ratatosk.Prelude.{
  ℕ, ◌+◌, ◌-◌, ◌^◌, ◌≤◌, ◌<◌, ◌≡◌, refl, some, inl, inr, Bool-cases, Option-cases, arith, leb,
}
use ratatosk.Prelude.Int.{ℤ}
use ratatosk.Prelude.Eq.{list_eq}
use ratatosk.Prelude.Maps.{Map, lookup, contains_key}
use ratatosk.Prelude.Maps
use ratatosk.Prelude.Sums.{total, total-insert, total-remove}
use ratatosk.Prelude.Words.{Bytes}
use ratatosk.Keyspace.Value.{StoredValue}
use ratatosk.Keyspace.Memory.{exact_size, estimate_object_memory}
use ratatosk.Keyspace.Agrees.{Agrees, drop-Agrees}
use ratatosk.Keyspace.Guard.{
  DbWriteGuard, add_memory, sub_memory, move_memory, remove_entry, remove,
}

-- The memory of all keys and values, computed without a limit.
abbrev pub live_size : Map Bytes StoredValue → ℕ
live_size = total exact_size

pub record Synced (stored : Map Bytes StoredValue) (expires : Map Bytes ℤ) (memory : ℕ)
    : Type 0 where
  pub agrees : Agrees stored expires
  pub memory_exact : memory ≡ live_size stored
  pub fits : live_size stored < 2 ^ 64

abbrev pub IsSynced : DbWriteGuard → Type 0
IsSynced g = Synced g.shard.stored g.shard.expires g.memory

pub estimate-exact :
    (key : Bytes) (value : StoredValue)
    → exact_size key value < 2 ^ 64
    → estimate_object_memory key value ≡ exact_size key value
unfolding estimate_object_memory
estimate-exact key value small = omega arith

pub drop-Synced :
    {stored : Map Bytes StoredValue} {expires : Map Bytes ℤ} {memory : ℕ} (key : Bytes)
    (value : StoredValue)
    → Synced stored expires memory
    → lookup key stored ≡ some value
    → Synced
        (Maps.remove key stored)
        (Maps.remove key expires)
        (memory - estimate_object_memory key value)
unfolding estimate_object_memory
drop-Synced {stored} key value s found =
    let split = total-remove exact_size key stored s.agrees.stored_unique in
    record {
      agrees = drop-Agrees key s.agrees;
      memory_exact = ground (arith, split, found, s.fits, s.memory_exact);
      fits = omega (arith, split, s.fits);
    }

pub remove_entry-IsSynced :
    (key : Bytes) (g : DbWriteGuard)
    → IsSynced g
    → IsSynced (remove_entry key g (lookup key g.shard.stored))
unfolding sub_memory
remove_entry-IsSynced key g s = elim (Option-cases (lookup key g.shard.stored)) [
  | inl n ↦ rw n s
  | inr (value, found) ↦ rw found (drop-Synced key value s found)
]

pub remove-IsSynced : (key : Bytes) (g : DbWriteGuard) → IsSynced g → IsSynced (remove key g).1
unfolding remove
remove-IsSynced key g s = remove_entry-IsSynced key g s

pub shard-move : (a b : ℕ) (g : DbWriteGuard) → (move_memory a b g).shard ≡ g.shard
unfolding add_memory sub_memory
shard-move a b g = elim (Bool-cases (leb a b)) [ inl h ↦ rw h refl | inr h ↦ rw h refl ]

-- A change of size that neither wraps nor stops at 0.
pub memory-move :
    (a b : ℕ) (g : DbWriteGuard)
    → a ≤ g.memory
    → g.memory + b < 2 ^ 64 + a
    → (move_memory a b g).memory ≡ g.memory + b - a
unfolding add_memory sub_memory
memory-move a b g enough small = elim (Bool-cases (leb a b)) [
  | inl h ↦ rw h (ground (arith, h, enough, small))
  | inr h ↦ rw h (ground (arith, h, enough, small))
]

pub moved-IsSynced :
    (a b : ℕ) (g : DbWriteGuard)
    → Agrees g.shard.stored g.shard.expires
    → (move_memory a b g).memory ≡ live_size g.shard.stored
    → live_size g.shard.stored < 2 ^ 64
    → IsSynced (move_memory a b g)
moved-IsSynced a b g agrees exact small =
    rw (shard-move a b g) (record { agrees = agrees; memory_exact = exact; fits = small })

-- The counter after a value took the place of another, on a guard that still counts the old one.
pub move-counted :
    {stored : Map Bytes StoredValue} {expires : Map Bytes ℤ} (key : Bytes) (old value : StoredValue)
    (g : DbWriteGuard)
    → Synced stored expires g.memory
    → lookup key stored ≡ some old
    → live_size (Maps.insert key value stored) < 2 ^ 64
    → (move_memory (estimate_object_memory key old) (estimate_object_memory key value) g).memory
      ≡ live_size (Maps.insert key value stored)
unfolding estimate_object_memory
move-counted {stored} key old value g s found small =
    let grown = total-insert exact_size key value stored in
    let there = total-remove exact_size key stored s.agrees.stored_unique in
    ground (
      arith,
      found,
      grown,
      there,
      s.fits,
      s.memory_exact,
      memory-move (estimate_object_memory key old) (estimate_object_memory key value) g,
    )
