-- ===== src/Command/Delete.antt =====
-- DEL and UNLINK, command/cmd_key.rs.
use ratatosk.Prelude.{
  ℕ, ◌+◌, ◌≡◌, refl, sym, ap, ◌∙◌, Bool, true, false, not, ◌&&◌, ◌||◌, Option, none, some, List, [],
  ◌∷◌, inl, inr, Bool-cases, arith, if◌then◌else◌,
}
use mathlib.Core.Path.{subst}
use ratatosk.Prelude.Int.{ℤ, pos}
use ratatosk.Prelude.Eq.{list_eq, bytes_eq, bytes_eq_iff}
use ratatosk.Prelude.Maps.{
  Map, lookup, IsUnique, is_some, lookup-remove, lookup-remove_self, remove-missing,
  remove-IsUnique,
}
use ratatosk.Prelude.Maps
use ratatosk.Prelude.Sets.{contains}
use ratatosk.Prelude.Sums.{total}
use ratatosk.Prelude.Words.{Bytes}
use ratatosk.Keyspace.Value.{StoredValue, reached, expire_at_ms}
use ratatosk.Keyspace.Purge.{stored-remove_noted, stored-remove}
use ratatosk.Keyspace.Guard.{DbWriteGuard, is_due, purge_expired_key, remove_noted, remove}
use ratatosk.Command.Reply.{integer}
use ratatosk.Command.Key.{purged, one_if, delete_each, cmd_delete_like}
use ratatosk.Command.Ttl.{purged_live, purged_due}

-- Whether a value counts: its key is listed and it is not due.
abbrev pub listed : ℤ → List Bytes → Bytes → StoredValue → ℕ
listed now_ms keys k value = one_if (contains k keys && not (reached now_ms (expire_at_ms value)))

-- The live values under the listed keys, counted in the database.
abbrev pub live_among : ℤ → List Bytes → Map Bytes StoredValue → ℕ
live_among now_ms keys = total (listed now_ms keys)

abbrev live : ℤ → Option StoredValue → Bool
live now_ms none = false
live now_ms (some value) = not (reached now_ms (expire_at_ms value))

or_none :
    {A : Type 0} (a b : Bool) (o : Option A)
    → (if a then none else if b then none else o) ≡ (if b || a then none else o)
or_none true true o = refl
or_none true false o = refl
or_none false true o = refl
or_none false false o = refl

-- One listed key counts by itself, the others in the database without it.
live_among-cons :
    (now_ms : ℤ) (key : Bytes) (keys : List Bytes) (m : Map Bytes StoredValue)
    → IsUnique m
    → live_among now_ms (key ∷ keys) m
      ≡ one_if (live now_ms (lookup key m)) + live_among now_ms keys (Maps.remove key m)
unfolding contains lookup Maps.remove
live_among-cons now_ms key keys [] u = refl
live_among-cons now_ms key keys ((j, w) ∷ m) (fresh, u) =
    let ih = live_among-cons now_ms key keys m u in
    elim (Bool-cases (bytes_eq j key)) [
      | inl h ↦ ground (arith, h, bytes_eq_iff j key, bytes_eq_iff key j, fresh, ih)
      | inr h ↦ ground (arith, h, bytes_eq_iff j key, bytes_eq_iff key j, ih)
    ]

stored-purged_due :
    (key : Bytes) (now_ms : ℤ) (g : DbWriteGuard)
    → is_due now_ms (lookup key g.shard.stored) ≡ true
    → (purged key now_ms g).shard.stored ≡ Maps.remove key g.shard.stored
unfolding purge_expired_key
stored-purged_due key now_ms g due =
    ap
      (λ (b : Bool).
        (if◌then◌else◌ {A = Bool × DbWriteGuard} b (true, remove_noted key g)
          (false, g)).1.shard.stored)
      due
    ∙ stored-remove_noted key g

-- One round of the loop.
stored-round :
    (key : Bytes) (now_ms : ℤ) (g : DbWriteGuard)
    → (remove key (purged key now_ms g)).1.shard.stored ≡ Maps.remove key g.shard.stored
stored-round key now_ms g =
    stored-remove key (purged key now_ms g)
    ∙ elim (Bool-cases (is_due now_ms (lookup key g.shard.stored))) [
      | inl due ↦
          ap (Maps.remove key) (stored-purged_due key now_ms g due)
          ∙ remove-missing key (Maps.remove key g.shard.stored)
              (lookup-remove_self key g.shard.stored)
      | inr live ↦
          ap (λ (h : DbWriteGuard). Maps.remove key h.shard.stored) (purged_live key now_ms g live)
    ]

live-is :
    (now_ms : ℤ) (o : Option StoredValue) → is_due now_ms o ≡ false → is_some o ≡ live now_ms o
live-is now_ms none h = refl
live-is now_ms (some value) h = sym (ap not h)

dead-is : (now_ms : ℤ) (o : Option StoredValue) → is_due now_ms o ≡ true → live now_ms o ≡ false
dead-is now_ms none h = refl
dead-is now_ms (some value) h = ap not h

found-remove : (key : Bytes) (g : DbWriteGuard) → (remove key g).0 ≡ lookup key g.shard.stored
unfolding remove
found-remove key g = refl

removed-round :
    (key : Bytes) (now_ms : ℤ) (g : DbWriteGuard)
    → is_some (remove key (purged key now_ms g)).0 ≡ live now_ms (lookup key g.shard.stored)
removed-round key now_ms g =
    ap is_some (found-remove key (purged key now_ms g))
    ∙ elim (Bool-cases (is_due now_ms (lookup key g.shard.stored))) [
      | inl due ↦
          ap is_some (purged_due key now_ms g due)
          ∙ sym (dead-is now_ms (lookup key g.shard.stored) due)
      | inr h ↦
          ap (λ (g' : DbWriteGuard). is_some (lookup key g'.shard.stored))
            (purged_live key now_ms g h)
          ∙ live-is now_ms (lookup key g.shard.stored) h
    ]

-- What a deletion leaves and replies.
pub record Deleted (now_ms : ℤ) (keys : List Bytes) (before : ℕ) (g : DbWriteGuard)
    (r : ℕ × DbWriteGuard) : Type 0 where
  pub counted : r.0 ≡ before + live_among now_ms keys g.shard.stored
  pub left :
      (k : Bytes)
      → lookup k r.1.shard.stored ≡ (if contains k keys then none else lookup k g.shard.stored)

live_among-nil : (now_ms : ℤ) (m : Map Bytes StoredValue) → live_among now_ms [] m ≡ 0
unfolding contains
live_among-nil now_ms [] = refl
live_among-nil now_ms ((k, v) ∷ m) = omega (arith, live_among-nil now_ms m)

delete_each-Deleted :
    (keys : List Bytes) (now_ms : ℤ) (before : ℕ) (g : DbWriteGuard)
    → IsUnique g.shard.stored
    → Deleted now_ms keys before g (delete_each keys now_ms before g)
unfolding delete_each contains
delete_each-Deleted [] now_ms before g u = record {
  counted = omega (arith, live_among-nil now_ms g.shard.stored);
  left = λ (k : Bytes). refl;
}
delete_each-Deleted (key ∷ keys) now_ms before g u =
    let r = remove key (purged key now_ms g) in
    let same = stored-round key now_ms g in
    let ih = delete_each-Deleted keys now_ms (before + one_if (is_some r.0)) r.1 (
      subst (λ (m : Map Bytes StoredValue). IsUnique m) (sym same)
        (remove-IsUnique key g.shard.stored u)) in
    let one = ap one_if (removed-round key now_ms g) in
    let rest = ap (live_among now_ms keys) same in
    record {
      counted =
          omega (arith, ih.counted, one, rest, live_among-cons now_ms key keys g.shard.stored u);
      left = λ (k : Bytes).
          ih.left k
          ∙ ap (λ (o : Option StoredValue). if contains k keys then none else o)
              (ap (lookup k) same ∙ lookup-remove key k g.shard.stored)
          ∙ or_none (contains k keys) (bytes_eq key k) (lookup k g.shard.stored);
    }

-- DEL and UNLINK with at least one key, on a database whose keys stand once each, reply the number of
-- values in it that are not due and whose key is among the arguments, each counted once, and leave
-- exactly the values whose key is not among them.
pub cmd_delete_like-Deleted :
    (key : Bytes) (keys : List Bytes) (now_ms : ℤ) (g : DbWriteGuard)
    → IsUnique g.shard.stored
    → ((cmd_delete_like (key ∷ keys) now_ms g).0
        ≡ integer (pos (live_among now_ms (key ∷ keys) g.shard.stored)))
      × ((k : Bytes)
          → lookup k (cmd_delete_like (key ∷ keys) now_ms g).1.shard.stored
            ≡ (if contains k (key ∷ keys) then none else lookup k g.shard.stored))
unfolding cmd_delete_like
cmd_delete_like-Deleted key keys now_ms g u =
    let d = delete_each-Deleted (key ∷ keys) now_ms 0 g u in
    (ap (λ (n : ℕ). integer (pos n)) (omega (arith, d.counted)), d.left)
