-- ===== src/Keyspace/Watchers.antt =====
-- The registrations of watching clients, keyspace.rs: which operations keep them, and how WATCH and
-- UNWATCH change their number.
use ratatosk.Prelude.{
  ℕ, suc, ◌+◌, ◌-◌, ◌<◌, ◌≡◌, refl, ap, ◌∙◌, true, false, Option, none, some, List, [], ◌∷◌, inl,
  inr, Bool-cases, Option-cases, arith, length, if◌then◌else◌, ◌==◌,
}
use ratatosk.Prelude.Int.{ℤ}
use ratatosk.Prelude.Eq.{list_eq}
use ratatosk.Prelude.Maps.{
  Map, lookup, contains_key, is_some, remove, IsUnique, insert-IsUnique, remove-IsUnique,
  lookup-insert, lookup-remove, length-insert,
}
use ratatosk.Prelude.Sums.{total, share_of, total-remove}
use ratatosk.Prelude.Words.{Bytes}
use ratatosk.Keyspace.Shard.{
  DbShard, give_version, give_versions, existing, record_modification, record_watched_existing,
}
use ratatosk.Keyspace.Versions.{version_in, watchers-record_watched_existing}
use ratatosk.Keyspace.Guard
use ratatosk.Keyspace.Guard.{
  DbWriteGuard, rename, set_key_expiry, note_modification, remove_noted, remove_entry,
  purge_expired_key, purge_expired_keys, mutate_string, lazy_free_del, clear_db, is_due,
  expired_keys, remove_each,
}
use ratatosk.Keyspace.Untouched.{
  insert-Untouched, remove-Untouched, rename-Untouched, set_key_expiry-Untouched,
  mutate_string-Untouched, remove_entry-Untouched, take_with_estimate-Untouched,
  put_taken-Untouched, edit_in_place-Untouched,
}
use ratatosk.Keyspace.Reach.{
  Write, insert_key, remove_key, rename_key, expire_key, purge_key, purge_all, mutate, note,
  free_key, clear, take_key, put_key, edit, apply_write,
}
use ratatosk.Keyspace.State.{watch_shard, unwatch_shard}

stored-give_versions :
    (keys : List Bytes) (s : ℕ × DbShard)
    → ((give_versions keys s).1.stored ≡ s.1.stored)
      × ((give_versions keys s).1.expires ≡ s.1.expires)
stored-give_versions [] s = (refl, refl)
stored-give_versions (key ∷ keys) s = stored-give_versions keys (give_version key s)

pub stored-record_watched_existing :
    (s : ℕ × DbShard)
    → ((record_watched_existing s).1.stored ≡ s.1.stored)
      × ((record_watched_existing s).1.expires ≡ s.1.expires)
unfolding record_watched_existing
stored-record_watched_existing s = stored-give_versions (existing s.1.watch_refs s.1.stored) s

watchers-note :
    (key : Bytes) (g : DbWriteGuard)
    → (note_modification key g).shard.watch_refs ≡ g.shard.watch_refs
unfolding note_modification record_modification
watchers-note key g = elim (Bool-cases (contains_key key g.shard.watch_refs)) [
  | inl h ↦ rw h refl
  | inr h ↦ rw h refl
]

watchers-remove_noted :
    (key : Bytes) (g : DbWriteGuard) → (remove_noted key g).shard.watch_refs ≡ g.shard.watch_refs
watchers-remove_noted key g =
    watchers-note key (Guard.remove key g).1 ∙ (remove-Untouched key g).watchers

watchers-remove_each :
    (keys : List Bytes) (g : DbWriteGuard)
    → (remove_each keys g).shard.watch_refs ≡ g.shard.watch_refs
watchers-remove_each [] g = refl
watchers-remove_each (key ∷ keys) g =
    watchers-remove_each keys (remove_noted key g) ∙ watchers-remove_noted key g

watchers-purge_key :
    (key : Bytes) (now_ms : ℤ) (g : DbWriteGuard)
    → (purge_expired_key key now_ms g).1.shard.watch_refs ≡ g.shard.watch_refs
unfolding purge_expired_key
watchers-purge_key key now_ms g = elim (Bool-cases (is_due now_ms (lookup key g.shard.stored))) [
  | inl h ↦ rw h (watchers-remove_noted key g)
  | inr h ↦ rw h refl
]

watchers-purge_all :
    (now_ms : ℤ) (g : DbWriteGuard)
    → (purge_expired_keys now_ms g).shard.watch_refs ≡ g.shard.watch_refs
unfolding purge_expired_keys
watchers-purge_all now_ms g = watchers-remove_each (expired_keys now_ms g.shard.stored) g

watchers-lazy_free :
    (key : Bytes) (g : DbWriteGuard) → (lazy_free_del key g).1.shard.watch_refs ≡ g.shard.watch_refs
unfolding lazy_free_del
watchers-lazy_free key g = elim (Option-cases (lookup key g.shard.stored)) [
  | inl n ↦ rw n refl
  | inr (value, found) ↦ rw found (
      watchers-note key (remove_entry key g (some value))
      ∙ (remove_entry-Untouched key g (some value)).watchers)
]

watchers-clear : (g : DbWriteGuard) → (clear_db g).shard.watch_refs ≡ g.shard.watch_refs
unfolding clear_db
watchers-clear g = watchers-record_watched_existing (g.next_key_version, g.shard)

-- No write changes who watches what.
pub watchers-apply_write :
    {R : Type 0} (w : Write R) (g : DbWriteGuard)
    → (apply_write w g).shard.watch_refs ≡ g.shard.watch_refs
watchers-apply_write (insert_key key value) g = (insert-Untouched key value g).watchers
watchers-apply_write (remove_key key) g = (remove-Untouched key g).watchers
watchers-apply_write (rename_key source target) g = (rename-Untouched source target g).watchers
watchers-apply_write (expire_key key expire) g = (set_key_expiry-Untouched key expire g).watchers
watchers-apply_write (purge_key key now_ms) g = watchers-purge_key key now_ms g
watchers-apply_write (purge_all now_ms) g = watchers-purge_all now_ms g
watchers-apply_write (mutate shared key f honest) g =
    (mutate_string-Untouched shared key f g).watchers
watchers-apply_write (note key) g = watchers-note key g
watchers-apply_write (free_key key) g = watchers-lazy_free key g
watchers-apply_write clear g = watchers-clear g
watchers-apply_write (take_key key) g = (take_with_estimate-Untouched key g).watchers
watchers-apply_write (put_key key value) g =
    (put_taken-Untouched key value g (lookup key g.shard.stored)).watchers
watchers-apply_write (edit key f steady) g = (edit_in_place-Untouched key f g).watchers

-- Each watched key has one entry, with at least one registration.
pub record IsWatched (refs : Map Bytes ℕ) : Type 0 where
  pub unique : IsUnique refs
  pub positive : (k : Bytes) → contains_key k refs ≡ true → 0 < version_in (lookup k refs)

positive-is :
    (o : Option ℕ)
    → (is_some o ≡ true → 0 < version_in o)
    → (version_in o == 0) ≡ (if is_some o then false else true)
positive-is none h = refl
positive-is (some n) h = ground (arith, h refl)

pub watch-counts :
    (key : Bytes) (shard : DbShard)
    → IsWatched shard.watch_refs
    → length (watch_shard key shard).2.watch_refs ≡ (
        if (watch_shard key shard).0
        then suc (length shard.watch_refs)
        else length shard.watch_refs)
unfolding watch_shard
watch-counts key shard w =
    let fresh = positive-is (lookup key shard.watch_refs) (w.positive key) in
    ground (
      arith,
      fresh,
      length-insert key (version_in (lookup key shard.watch_refs) + 1) shard.watch_refs,
    )

pub watch-IsWatched :
    (key : Bytes) (shard : DbShard)
    → IsWatched shard.watch_refs
    → IsWatched (watch_shard key shard).2.watch_refs
unfolding watch_shard
watch-IsWatched key shard w =
    let refs = version_in (lookup key shard.watch_refs) + 1 in
    record {
      unique = insert-IsUnique key refs shard.watch_refs w.unique;
      positive =
          λ (k : Bytes). ground (arith, lookup-insert key k refs shard.watch_refs, w.positive k);
    }

total-length : (m : Map Bytes ℕ) → total (λ (k : Bytes) (n : ℕ). 1) m ≡ length m
total-length [] = refl
total-length ((k, n) ∷ m) = omega (arith, total-length m)

length-remove_found :
    (key : Bytes) (n : ℕ) (m : Map Bytes ℕ)
    → IsUnique m
    → lookup key m ≡ some n
    → suc (length (remove key m)) ≡ length m
length-remove_found key n m u found =
    let split = total-remove (λ (k : Bytes) (n : ℕ). 1) key m u in
    let one = ap (share_of (λ (k : Bytes) (n : ℕ). 1) key) found in
    omega (arith, split, one, total-length m, total-length (remove key m))

pub unwatch-counts :
    (key : Bytes) (shard : DbShard)
    → IsWatched shard.watch_refs
    → (if (unwatch_shard key shard).0
        then suc (length (unwatch_shard key shard).1.watch_refs)
        else length (unwatch_shard key shard).1.watch_refs)
      ≡ length shard.watch_refs
unfolding unwatch_shard
unwatch-counts key shard w = elim (Option-cases (lookup key shard.watch_refs)) [
  | inl n ↦ rw n refl
  | inr (refs, found) ↦ rw found (elim (Bool-cases (refs - 1 == 0)) [
    | inl h ↦ rw h (length-remove_found key refs shard.watch_refs w.unique found)
    | inr h ↦ rw h (ground (arith, found, length-insert key (refs - 1) shard.watch_refs))
  ])
]

pub unwatch-IsWatched :
    (key : Bytes) (shard : DbShard)
    → IsWatched shard.watch_refs
    → IsWatched (unwatch_shard key shard).1.watch_refs
unfolding unwatch_shard
unwatch-IsWatched key shard w = elim (Option-cases (lookup key shard.watch_refs)) [
  | inl n ↦ rw n w
  | inr (refs, found) ↦ rw found (elim (Bool-cases (refs - 1 == 0)) [
    | inl h ↦ rw h (record {
      unique = remove-IsUnique key shard.watch_refs w.unique;
      positive = λ (k : Bytes). ground (arith, lookup-remove key k shard.watch_refs, w.positive k);
    })
    | inr h ↦ rw h (record {
      unique = insert-IsUnique key (refs - 1) shard.watch_refs w.unique;
      positive = λ (k : Bytes).
          ground (arith, h, lookup-insert key k (refs - 1) shard.watch_refs, w.positive k);
    })
  ])
]
