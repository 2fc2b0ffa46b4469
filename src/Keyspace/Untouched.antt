-- ===== src/Keyspace/Untouched.antt =====
-- The writes of keyspace.rs that leave versions and watchers alone: their callers record the change.
use ratatosk.Prelude.{
  ℕ, ◌≡◌, ◌∙◌, refl, Bool, true, false, Option, none, some, inl, inr, Bool-cases, Option-cases, [],
  length, leb,
}
use ratatosk.Prelude.Int.{ℤ}
use ratatosk.Prelude.Eq.{list_eq}
use ratatosk.Prelude.Maps.{Map, lookup}
use ratatosk.Prelude.Maps
use ratatosk.Prelude.Words.{Bytes}
use ratatosk.Keyspace.Value.{
  StoredValue, string_bytes, set_lru_clock, stored_string, parse_int_string,
}
use ratatosk.Keyspace.Memory.{estimate_object_memory}
use ratatosk.Keyspace.Shard.{sync_expires}
use ratatosk.Keyspace.Guard.{
  DbWriteGuard, add_memory, sub_memory, move_memory, store, drop_key, account, insert, remove_entry,
  remove, rename, rename_found, set_key_expiry, edited, mutate_present, mutate_missing,
  mutate_string, take_with_estimate, insert_with_estimate, put_taken, edit_in_place,
}

pub record Untouched (g h : DbWriteGuard) : Type 0 where
  pub watchers : h.shard.watch_refs ≡ g.shard.watch_refs
  pub versions : h.shard.key_versions ≡ g.shard.key_versions
  pub next : h.next_key_version ≡ g.next_key_version

untouched :
    {g h : DbWriteGuard}
    → h.shard.watch_refs ≡ g.shard.watch_refs
    → h.shard.key_versions ≡ g.shard.key_versions
    → h.next_key_version ≡ g.next_key_version
    → Untouched g h
untouched w v n = record { watchers = w; versions = v; next = n }

pub Untouched-then : {f g h : DbWriteGuard} → Untouched f g → Untouched g h → Untouched f h
Untouched-then a b = record {
  watchers = b.watchers ∙ a.watchers;
  versions = b.versions ∙ a.versions;
  next = b.next ∙ a.next;
}

pub move_memory-Untouched : (a b : ℕ) (g : DbWriteGuard) → Untouched g (move_memory a b g)
unfolding add_memory sub_memory
move_memory-Untouched a b g = elim (Bool-cases (leb a b)) [
  | inl h ↦ rw h (untouched refl refl refl)
  | inr h ↦ rw h (untouched refl refl refl)
]

pub store-Untouched :
    (key : Bytes) (value : StoredValue) (g : DbWriteGuard) → Untouched g (store key value g)
unfolding sync_expires
store-Untouched key value g = untouched refl refl refl

account-Untouched :
    (key : Bytes) (value : StoredValue) (old : Option StoredValue) (g : DbWriteGuard)
    → Untouched g (account key value old g)
unfolding add_memory
account-Untouched key value none g = untouched refl refl refl
account-Untouched key value (some old) g =
    move_memory-Untouched (estimate_object_memory key old) (estimate_object_memory key value) g

pub insert-Untouched :
    (key : Bytes) (value : StoredValue) (g : DbWriteGuard) → Untouched g (insert key value g).1
unfolding insert
insert-Untouched key value g =
    Untouched-then (store-Untouched key value g)
      (account-Untouched key value (lookup key g.shard.stored) (store key value g))

pub remove_entry-Untouched :
    (key : Bytes) (g : DbWriteGuard) (old : Option StoredValue)
    → Untouched g (remove_entry key g old)
unfolding sub_memory
remove_entry-Untouched key g none = untouched refl refl refl
remove_entry-Untouched key g (some value) = untouched refl refl refl

pub remove-Untouched : (key : Bytes) (g : DbWriteGuard) → Untouched g (remove key g).1
unfolding remove
remove-Untouched key g = remove_entry-Untouched key g (lookup key g.shard.stored)

rename_found-Untouched :
    (source target : Bytes) (old : Option StoredValue) (g : DbWriteGuard)
    → Untouched g (rename_found source target g old).1
rename_found-Untouched source target none g = untouched refl refl refl
rename_found-Untouched source target (some value) g =
    let removed = (remove target (drop_key source g)).1 in
    let moved = move_memory (length source) (length target) removed in
    let r = remove-Untouched target (drop_key source g) in
    let first : Untouched g removed = untouched r.watchers r.versions r.next in
    Untouched-then first (
      Untouched-then (move_memory-Untouched (length source) (length target) removed)
        (store-Untouched target value moved))

pub rename-Untouched :
    (source target : Bytes) (g : DbWriteGuard) → Untouched g (rename source target g).1
unfolding rename
rename-Untouched source target g =
    rename_found-Untouched source target (lookup source g.shard.stored) g

pub set_key_expiry-Untouched :
    (key : Bytes) (expire : Option ℤ) (g : DbWriteGuard)
    → Untouched g (set_key_expiry key expire g).1
unfolding set_key_expiry sync_expires
set_key_expiry-Untouched key expire g = elim (Option-cases (lookup key g.shard.stored)) [
  | inl n ↦ rw n (untouched refl refl refl)
  | inr (value, found) ↦ rw found (untouched refl refl refl)
]

module _ {R : Type 0} where
  mutate_present-Untouched :
      (shared : Bool) (key : Bytes) (value : StoredValue) (r : R × Bytes × Bool) (g : DbWriteGuard)
      → Untouched g (mutate_present shared key value r g).1
  mutate_present-Untouched shared key value (result, buf, false) g = untouched refl refl refl
  mutate_present-Untouched shared key value (result, buf, true) g =
      let new = set_lru_clock 0 (edited buf (parse_int_string buf) value) in
      let stored : DbWriteGuard = record g {
        shard = record (g.shard) { stored = Maps.insert key new g.shard.stored };
      } in
      let moved =
        move_memory-Untouched (estimate_object_memory key value) (estimate_object_memory key new)
          stored in
      untouched moved.watchers moved.versions moved.next

  mutate_missing-Untouched :
      (key : Bytes) (r : R × Bytes × Bool) (g : DbWriteGuard)
      → Untouched g (mutate_missing key r g).1
  mutate_missing-Untouched key (result, buf, false) g = untouched refl refl refl
  mutate_missing-Untouched key (result, buf, true) g =
      insert-Untouched key (stored_string buf none) g

  pub mutate_string-Untouched :
      (shared : Bool) (key : Bytes) (f : Bytes → R × Bytes × Bool) (g : DbWriteGuard)
      → Untouched g (mutate_string shared key f g).1
  unfolding mutate_string
  mutate_string-Untouched shared key f g = elim (Option-cases (lookup key g.shard.stored)) [
    | inl n ↦ rw n (mutate_missing-Untouched key (f []) g)
    | inr (value, found) ↦ rw found (elim (Option-cases (string_bytes value.payload)) [
      | inl n ↦ rw n (untouched refl refl refl)
      | inr (bytes, is) ↦ rw is (mutate_present-Untouched shared key value (f bytes) g)
    ])
  ]

pub take_with_estimate-Untouched :
    (key : Bytes) (g : DbWriteGuard) → Untouched g (take_with_estimate key g).1
unfolding take_with_estimate
take_with_estimate-Untouched key g = remove_entry-Untouched key g (lookup key g.shard.stored)

pub put_taken-Untouched :
    (key : Bytes) (value : StoredValue) (g : DbWriteGuard) (old : Option StoredValue)
    → Untouched g (put_taken key value g old)
unfolding insert_with_estimate add_memory sync_expires
put_taken-Untouched key value g none = untouched refl refl refl
put_taken-Untouched key value g (some old) = untouched refl refl refl

pub edit_in_place-Untouched :
    (key : Bytes) (f : StoredValue → StoredValue) (g : DbWriteGuard)
    → Untouched g (edit_in_place key f g)
unfolding edit_in_place
edit_in_place-Untouched key f g = elim (Option-cases (lookup key g.shard.stored)) [
  | inl n ↦ rw n (untouched refl refl refl)
  | inr (value, found) ↦ rw found (untouched refl refl refl)
]
