-- ===== src/Keyspace/Drift.antt =====
-- Edits of values in place, whose sizes no memory counter follows, and `recompute_memory_estimates` of
-- eviction.rs, which repairs the counters.
use mathlib.Core.Path.{subst}
use mathlib.Core.Option.{some_inj}
use ratatosk.Prelude.{
  ℕ, zero, suc, ◌^◌, ◌<◌, ◌≡◌, refl, sym, ap, ◌∙◌, Option, none, some, List, [], ◌∷◌, length, set,
  get_elem?, arith, inl, inr, Option-cases,
}
use ratatosk.Prelude.Eq.{list_eq}
use ratatosk.Prelude.Maps.{lookup}
use ratatosk.Prelude.Words.{Bytes, wrap64}
use ratatosk.Keyspace.Value.{StoredValue, expire_at_ms}
use ratatosk.Keyspace.Shard.{DbShard}
use ratatosk.Keyspace.Agrees.{Agrees, keep-Agrees}
use ratatosk.Keyspace.Guard.{DbWriteGuard, edit_in_place}
use ratatosk.Keyspace.Untouched.{edit_in_place-Untouched}
use ratatosk.Keyspace.Watchers.{IsWatched}
use ratatosk.Keyspace.Whole.{AllFit, IsSound, total_watched-set}
use ratatosk.Keyspace.State.{
  DataState, recompute_memory_estimates, with_db, db_mut, guard_of, put_guard, written, touched,
}
use ratatosk.Keyspace.Steps.{IfDone}
use ratatosk.Keyspace.Recount.{
  Kept, AllKept, IsKept, total_size, recounted-IsSound, IsSound-IsKept, fold-exact,
}

-- An edit in place of any size keeps the deadlines in agreement, if it keeps that of the value.
edit_in_place-Agrees :
    (key : Bytes) (f : StoredValue → StoredValue) (g : DbWriteGuard)
    → ((value : StoredValue) → expire_at_ms (f value) ≡ expire_at_ms value)
    → Agrees g.shard.stored g.shard.expires
    → Agrees (edit_in_place key f g).shard.stored (edit_in_place key f g).shard.expires
unfolding edit_in_place
edit_in_place-Agrees key f g steady a = elim (Option-cases (lookup key g.shard.stored)) [
  | inl n ↦ rw n a
  | inr (value, found) ↦ rw found (keep-Agrees key value (f value) a found (steady value))
]

AllKept-set : (ds : List DbShard) (i : ℕ) (d : DbShard) → AllKept ds → Kept d → AllKept (set ds i d)
AllKept-set [] i d all new = tt
AllKept-set (e ∷ ds) zero d (first, all) new = (new, all)
AllKept-set (e ∷ ds) (suc i) d (first, all) new = (first, AllKept-set ds i d all new)

Kept-at : (ds : List DbShard) (i : ℕ) (d : DbShard) → AllKept ds → get_elem? ds i ≡ some d → Kept d
Kept-at [] i d all h = absurd (ground (arith, h))
Kept-at (e ∷ ds) zero d (first, all) h = subst Kept (some_inj.0 h) first
Kept-at (e ∷ ds) (suc i) d (first, all) h = Kept-at ds i d all h

total_size-AllFit : (ds : List DbShard) → total_size ds < 2 ^ 64 → AllFit ds
total_size-AllFit [] small = tt
total_size-AllFit (d ∷ ds) small =
    (omega (arith, small), total_size-AllFit ds (omega (arith, small)))

abbrev pub edit_value : Bytes → (StoredValue → StoredValue) → DbWriteGuard → Unit {0} × DbWriteGuard
edit_value key f g = (tt, edit_in_place key f g)

-- An edit of a value in one of the databases.
abbrev pub edit_db : ℕ → Bytes → (StoredValue → StoredValue) → DataState → Option DataState
edit_db idx key f s = touched (with_db idx (edit_value key f) s)

edit_at :
    (idx : ℕ) (key : Bytes) (f : StoredValue → StoredValue) (s : DataState) (od : Option DbShard)
    (ob : Option ℕ)
    → ((value : StoredValue) → expire_at_ms (f value) ≡ expire_at_ms value)
    → IsKept s
    → get_elem? s.shards idx ≡ od
    → IfDone IsKept (touched (written idx (edit_value key f) s (guard_of s.next_key_version od ob)))
unfolding put_guard
edit_at idx key f s none ob steady kept at = tt
edit_at idx key f s (some d) none steady kept at = tt
edit_at idx key f s (some d) (some b) steady kept at =
    let g : DbWriteGuard = record {
      shard = d;
      memory = b;
      next_key_version = s.next_key_version;
    } in
    let h = edit_in_place key f g in
    let old = Kept-at s.shards idx d kept.each at in
    let same = (edit_in_place-Untouched key f g).watchers in
    record {
      each = AllKept-set s.shards idx h.shard kept.each (record {
        agrees = edit_in_place-Agrees key f g steady old.agrees;
        watched = subst IsWatched (sym same) old.watched;
      });
      counted =
          kept.counted
          ∙ ap wrap64 (omega (arith, total_watched-set s.shards idx d h.shard at, ap length same));
    }

edit_db-IsKept :
    (idx : ℕ) (key : Bytes) (f : StoredValue → StoredValue) (s : DataState)
    → ((value : StoredValue) → expire_at_ms (f value) ≡ expire_at_ms value)
    → IsKept s
    → IfDone IsKept (edit_db idx key f s)
unfolding with_db db_mut
edit_db-IsKept idx key f s steady kept =
    edit_at idx key f s (get_elem? s.shards idx) (get_elem? s.db_memory_bytes idx) steady kept refl

-- Edits of values in place, of any size, which keep the deadlines of the values.
pub data Edits : DataState → DataState → Type 0 where
  finished : (s : DataState) → Edits s s
  then_edit :
      (idx : ℕ) (key : Bytes) (f : StoredValue → StoredValue) (s t u : DataState)
      → ((value : StoredValue) → expire_at_ms (f value) ≡ expire_at_ms value)
      → edit_db idx key f s ≡ some t
      → Edits t u
      → Edits s u

Edits-IsKept : (s u : DataState) → Edits s u → IsKept s → IsKept u
Edits-IsKept s u (finished _) kept = kept
Edits-IsKept s u (then_edit idx key f _ t _ steady is rest) kept =
    Edits-IsKept t u rest (subst (IfDone IsKept) is (edit_db-IsKept idx key f s steady kept))

-- After edits in place on databases in order, which keep the deadlines but change sizes that no counter
-- follows, `recompute_memory_estimates` puts all databases in order again and leaves their contents
-- alone; it returns the size of all keys and values, if that is below 2^64.
pub recompute_memory_estimates-IsSound :
    (s t : DataState)
    → IsSound s
    → Edits s t
    → total_size t.shards < 2 ^ 64
    → ((recompute_memory_estimates t).0 ≡ total_size t.shards)
      × IsSound (recompute_memory_estimates t).1
      × ((recompute_memory_estimates t).1.shards ≡ t.shards)
unfolding recompute_memory_estimates
recompute_memory_estimates-IsSound s t sound edits small = (
  fold-exact t.shards 0 (omega (arith, small)) ∙ omega arith,
  recounted-IsSound t (Edits-IsKept s t edits (IsSound-IsKept s sound))
      (total_size-AllFit t.shards small),
  refl,
)
