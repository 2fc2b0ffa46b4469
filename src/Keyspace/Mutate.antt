-- ===== src/Keyspace/Mutate.antt =====
-- `mutate_string` of `DbWriteGuard` in keyspace.rs, and edits of a value in place.
use ratatosk.Prelude.{
  ◌^◌, ◌<◌, ◌≡◌, refl, ap, Bool, true, false, Option, none, some, [], inl, inr, Option-cases, arith,
}
use ratatosk.Prelude.Int.{ℤ}
use ratatosk.Prelude.Eq.{list_eq}
use ratatosk.Prelude.Maps.{Map, lookup, contains_key}
use ratatosk.Prelude.Maps
use ratatosk.Prelude.Sums.{total-insert}
use ratatosk.Prelude.Words.{Bytes}
use ratatosk.Keyspace.Value.{
  StoredValue, ValueData, string, string_int, hash, list, set, set_int, sorted_set, stream,
  expire_at_ms, stored_string, string_bytes, parse_int_string, set_encoding, set_lru_clock,
}
use ratatosk.Keyspace.Memory.{exact_size, estimate_object_memory}
use ratatosk.Keyspace.Shard.{DbShard}
use ratatosk.Keyspace.Agrees.{keep-Agrees}
use ratatosk.Keyspace.Synced.{live_size, Synced, IsSynced, moved-IsSynced, move-counted, shard-move}
use ratatosk.Keyspace.Writes.{insert-IsSynced}
use ratatosk.Keyspace.Guard.{
  DbWriteGuard, insert, edited, put_back, replace, mutate_present, mutate_missing, mutate_string,
  edit_in_place,
}

-- A value that takes the place of one with the same deadline, its size counted.
replace-IsSynced :
    (key : Bytes) (old value : StoredValue) (g : DbWriteGuard)
    → IsSynced g
    → lookup key g.shard.stored ≡ some old
    → expire_at_ms value ≡ expire_at_ms old
    → live_size (replace key old value g).shard.stored < 2 ^ 64
    → IsSynced (replace key old value g)
replace-IsSynced key old value g s found same small =
    let old_mem = estimate_object_memory key old in
    let new_mem = estimate_object_memory key value in
    let h : DbWriteGuard = record g {
      shard = record (g.shard) { stored = Maps.insert key value g.shard.stored };
    } in
    let moved = ap (λ (d : DbShard). live_size d.stored) (shard-move old_mem new_mem h) in
    let fits : live_size (Maps.insert key value g.shard.stored) < 2 ^ 64 =
      omega (arith, small, moved) in
    moved-IsSynced old_mem new_mem h (keep-Agrees key old value s.agrees found same)
      (move-counted key old value h s found fits) fits

-- A value in place of one of the same size with the same deadline.
steady-IsSynced :
    (key : Bytes) (old value : StoredValue) (g : DbWriteGuard)
    → IsSynced g
    → lookup key g.shard.stored ≡ some old
    → exact_size key value ≡ exact_size key old
    → expire_at_ms value ≡ expire_at_ms old
    → Synced (Maps.insert key value g.shard.stored) g.shard.expires g.memory
steady-IsSynced key old value g s found size deadline =
    let grown = total-insert exact_size key value g.shard.stored in
    record {
      agrees = keep-Agrees key old value s.agrees found deadline;
      memory_exact = ground (arith, grown, found, size, s.memory_exact);
      fits = ground (arith, grown, found, size, s.fits);
    }

-- An edit that keeps the size and the deadline of a value.
abbrev pub IsSteady : (StoredValue → StoredValue) → Type 0
IsSteady f =
    (key : Bytes) (value : StoredValue)
    → (exact_size key (f value) ≡ exact_size key value)
      × (expire_at_ms (f value) ≡ expire_at_ms value)

pub edit_in_place-IsSynced :
    (key : Bytes) (f : StoredValue → StoredValue) (g : DbWriteGuard)
    → IsSteady f
    → IsSynced g
    → IsSynced (edit_in_place key f g)
unfolding edit_in_place
edit_in_place-IsSynced key f g steady s = elim (Option-cases (lookup key g.shard.stored)) [
  | inl n ↦ rw n s
  | inr (value, found) ↦
      rw found
        (steady-IsSynced key value (f value) g s found (steady key value).0 (steady key value).1)
]

put_back-same :
    (shared : Bool) (buf bytes : Bytes) (payload : ValueData)
    → string_bytes payload ≡ some bytes
    → buf ≡ bytes
    → put_back shared buf payload ≡ payload
put_back-same shared buf bytes (string b) e same = ground (arith, e, same)
put_back-same shared buf bytes (string_int n) e same = refl
put_back-same shared buf bytes (hash h) e same = refl
put_back-same shared buf bytes (list l) e same = refl
put_back-same shared buf bytes (set l) e same = refl
put_back-same shared buf bytes (set_int l) e same = refl
put_back-same shared buf bytes (sorted_set z) e same = refl
put_back-same shared buf bytes (stream es groups meta) e same = refl

put_back-value :
    (shared : Bool) (buf bytes : Bytes) (value : StoredValue)
    → string_bytes value.payload ≡ some bytes
    → buf ≡ bytes
    → record value { payload = put_back shared buf value.payload } ≡ value
put_back-value shared buf bytes value e same =
    rw (put_back-same shared buf bytes value.payload e same) refl

edited-deadline :
    (buf : Bytes) (n : Option ℤ) (value : StoredValue)
    → expire_at_ms (set_lru_clock 0 (edited buf n value)) ≡ expire_at_ms value
unfolding expire_at_ms set_lru_clock set_encoding
edited-deadline buf none value = refl
edited-deadline buf (some n) value = refl

module _ {R : Type 0} where
  -- A callback that reports no change left the buffer as it was.
  abbrev pub Honest : (Bytes → R × Bytes × Bool) → Type 0
  Honest f = (bytes : Bytes) → (f bytes).2 ≡ false → (f bytes).1 ≡ bytes

  mutate_present-IsSynced :
      (shared : Bool) (key : Bytes) (value : StoredValue) (bytes : Bytes) (r : R × Bytes × Bool)
      (g : DbWriteGuard)
      → IsSynced g
      → lookup key g.shard.stored ≡ some value
      → string_bytes value.payload ≡ some bytes
      → (r.2 ≡ false → r.1 ≡ bytes)
      → live_size (mutate_present shared key value r g).1.shard.stored < 2 ^ 64
      → IsSynced (mutate_present shared key value r g).1
  mutate_present-IsSynced shared key value bytes (result, buf, false) g s found is honest small =
      let same = put_back-value shared buf bytes value is (honest refl) in
      steady-IsSynced key value (record value { payload = put_back shared buf value.payload }) g s
        found (ap (exact_size key) same) (ap expire_at_ms same)
  mutate_present-IsSynced shared key value bytes (result, buf, true) g s found is honest small =
      replace-IsSynced key value (set_lru_clock 0 (edited buf (parse_int_string buf) value)) g s
        found (edited-deadline buf (parse_int_string buf) value) small

  mutate_missing-IsSynced :
      (key : Bytes) (r : R × Bytes × Bool) (g : DbWriteGuard)
      → IsSynced g
      → live_size (mutate_missing key r g).1.shard.stored < 2 ^ 64
      → IsSynced (mutate_missing key r g).1
  unfolding insert
  mutate_missing-IsSynced key (result, buf, false) g s small = s
  mutate_missing-IsSynced key (result, buf, true) g s small =
      insert-IsSynced key (stored_string buf none) g s small

  pub mutate_string-IsSynced :
      (shared : Bool) (key : Bytes) (f : Bytes → R × Bytes × Bool) (g : DbWriteGuard)
      → Honest f
      → IsSynced g
      → live_size (mutate_string shared key f g).1.shard.stored < 2 ^ 64
      → IsSynced (mutate_string shared key f g).1
  unfolding mutate_string
  mutate_string-IsSynced shared key f g honest s = elim (Option-cases (lookup key g.shard.stored)) [
    | inl n ↦ rw n (mutate_missing-IsSynced key (f []) g s)
    | inr (value, found) ↦ rw found (elim (Option-cases (string_bytes value.payload)) [
      | inl n ↦ rw n (λ (small : live_size g.shard.stored < 2 ^ 64). s)
      | inr (bytes, is) ↦
          rw is
            (mutate_present-IsSynced shared key value bytes (f bytes) g s found is (honest bytes))
    ])
  ]
