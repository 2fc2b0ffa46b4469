-- ===== src/Keyspace/Load.antt =====
-- A database that is loaded from a snapshot, keyspace.rs: its map of deadlines and its memory counter.
use ratatosk.Prelude.{
  ℕ, ◌+◌, ◌^◌, ◌<◌, ◌≡◌, refl, ap, ◌∙◌, Option, none, some, [], ◌∷◌, arith, if◌then◌else◌,
}
use ratatosk.Prelude.Int.{ℤ}
use ratatosk.Prelude.Eq.{list_eq, bytes_eq, bytes_eq_iff}
use ratatosk.Prelude.Maps.{Map, lookup, IsUnique, insert-IsUnique, lookup-insert}
use ratatosk.Prelude.Words.{Bytes, wrap64}
use ratatosk.Keyspace.Value.{StoredValue, expire_at_ms}
use ratatosk.Keyspace.Memory.{exact_size, estimate_object_memory}
use ratatosk.Keyspace.Agrees.{deadline_of}
use ratatosk.Keyspace.Synced.{Synced, live_size, estimate-exact}
use ratatosk.Keyspace.State.{index_deadline, index_expires, loaded_memory}

abbrev or_else : Option ℤ → Option ℤ → Option ℤ
or_else none b = b
or_else (some a) b = some a

lookup-index_deadline :
    (key k : Bytes) (e : Option ℤ) (m : Map Bytes ℤ)
    → lookup k (index_deadline key e m)
      ≡ (if bytes_eq key k then or_else e (lookup k m) else lookup k m)
lookup-index_deadline key k none m = ground (arith, bytes_eq_iff key k)
lookup-index_deadline key k (some ms) m = lookup-insert key k ms m

lookup-index_expires :
    (k : Bytes) (stored : Map Bytes StoredValue) (m : Map Bytes ℤ)
    → IsUnique stored
    → lookup k (index_expires stored m) ≡ or_else (deadline_of (lookup k stored)) (lookup k m)
unfolding lookup
lookup-index_expires k [] m u = refl
lookup-index_expires k ((key, value) ∷ stored) m (fresh, u) = ground (
  arith,
  bytes_eq_iff key k,
  fresh,
  lookup-index_deadline key k (expire_at_ms value) m,
  lookup-index_expires k stored (index_deadline key (expire_at_ms value) m) u,
)

index_deadline-IsUnique :
    (key : Bytes) (e : Option ℤ) (m : Map Bytes ℤ) → IsUnique m → IsUnique (index_deadline key e m)
index_deadline-IsUnique key none m u = u
index_deadline-IsUnique key (some ms) m u = insert-IsUnique key ms m u

index_expires-IsUnique :
    (stored : Map Bytes StoredValue) (m : Map Bytes ℤ)
    → IsUnique m
    → IsUnique (index_expires stored m)
index_expires-IsUnique [] m u = u
index_expires-IsUnique ((key, value) ∷ stored) m u =
    index_expires-IsUnique stored (index_deadline key (expire_at_ms value) m)
      (index_deadline-IsUnique key (expire_at_ms value) m u)

or_else-none : (o : Option ℤ) → or_else o none ≡ o
or_else-none none = refl
or_else-none (some a) = refl

loaded_memory-exact :
    (stored : Map Bytes StoredValue) (mem : ℕ)
    → mem + live_size stored < 2 ^ 64
    → loaded_memory stored mem ≡ mem + live_size stored
loaded_memory-exact [] mem small = omega arith
loaded_memory-exact ((key, value) ∷ stored) mem small =
    let est = estimate-exact key value (omega (arith, small)) in
    let sum : wrap64 (mem + estimate_object_memory key value) ≡ mem + exact_size key value =
      omega (arith, est, small) in
    ap (loaded_memory stored) sum
    ∙ loaded_memory-exact stored (mem + exact_size key value) (omega (arith, small))
    ∙ omega arith

-- A loaded database is in order.
pub loaded-Synced :
    (stored : Map Bytes StoredValue)
    → IsUnique stored
    → live_size stored < 2 ^ 64
    → Synced stored (index_expires stored []) (loaded_memory stored 0)
unfolding lookup
loaded-Synced stored u small = record {
  agrees = record {
    stored_unique = u;
    expires_unique = index_expires-IsUnique stored [] tt;
    same_deadline = λ (k : Bytes).
        lookup-index_expires k stored [] u ∙ or_else-none (deadline_of (lookup k stored));
  };
  memory_exact = loaded_memory-exact stored 0 (omega (arith, small)) ∙ omega arith;
  fits = small;
}
