-- ===== src/Command/Ttl.antt =====
-- EXPIRE and then TTL, command/cmd_key.rs.
use ratatosk.Prelude.{
  ◌-◌, ◌^◌, ◌≡◌, refl, sym, ap, ap₂, ◌∙◌, Bool, true, false, not, ◌&&◌, Option, none, some, [], ◌∷◌,
  inl, inr, Bool-cases, arith, if◌then◌else◌,
}
use mathlib.Core.Path.{subst}
use ratatosk.Prelude.Int.{ℤ, pos, negsuc, ◌-ℤ◌, ◌+ℤ◌, ◌*ℤ◌, ltb_ℤ}
use ratatosk.Prelude.Eq.{list_eq}
use ratatosk.Prelude.Decimal.{IsI64}
use ratatosk.Prelude.Maps.{contains_key, is_some, lookup, lookup-insert_self}
use ratatosk.Prelude.Words.{Bytes}
use ratatosk.Object.{parse_i64}
use ratatosk.Keyspace.Value.{StoredValue, expire_at_ms, set_expire_at_ms, is_positive, reached}
use ratatosk.Keyspace.Shard.{sync_expires}
use ratatosk.Keyspace.Purge.{lookup-remove_noted}
use ratatosk.Keyspace.Guard.{
  DbWriteGuard, is_due, purge_expired_key, remove_noted, set_key_expiry, expiry_set, remove,
}
use ratatosk.Command.Reply.{Reply, integer}
use ratatosk.Command.Expiry.{
  ExpireCondition, always, ExpireMode, relative_seconds, relative_milliseconds, absolute_seconds,
  absolute_milliseconds, milliseconds, sat_i64, saturating_add, saturating_mul, to_expire_target_ms,
  expire_condition_matches, saturating_sub,
}
use ratatosk.Command.Key.{
  purged, expire_key, expire_found, expire_parsed, cmd_expire_with_mode, set_reply, ttl_found,
  ttl_of, ttl_left, ttl_key, cmd_ttl_with_mode,
}

pub purged_live :
    (key : Bytes) (now_ms : ℤ) (g : DbWriteGuard)
    → is_due now_ms (lookup key g.shard.stored) ≡ false
    → purged key now_ms g ≡ g
unfolding purge_expired_key
purged_live key now_ms g live =
    ap
      (λ (b : Bool).
        (if◌then◌else◌ {A = Bool × DbWriteGuard} b (true, remove_noted key g) (false, g)).1)
      live

pub purged_due :
    (key : Bytes) (now_ms : ℤ) (g : DbWriteGuard)
    → is_due now_ms (lookup key g.shard.stored) ≡ true
    → lookup key (purged key now_ms g).shard.stored ≡ none
unfolding purge_expired_key
purged_due key now_ms g due =
    ap
      (λ (b : Bool).
        lookup key
          (if◌then◌else◌ {A = Bool × DbWriteGuard} b (true, remove_noted key g)
            (false, g)).1.shard.stored)
      due
    ∙ lookup-remove_noted key g

-- The database with a new deadline for `key`.
abbrev pub set_deadline : Bytes → ℤ → DbWriteGuard → DbWriteGuard
set_deadline key target g = (set_key_expiry key (some target) g).1

lookup-set_deadline :
    (key : Bytes) (target : ℤ) (g : DbWriteGuard) (value : StoredValue)
    → lookup key g.shard.stored ≡ some value
    → lookup key (set_deadline key target g).shard.stored
      ≡ some (set_expire_at_ms (some target) value)
unfolding set_key_expiry sync_expires
lookup-set_deadline key target g value found =
    ap (λ (o : Option StoredValue). lookup key (expiry_set key (some target) g o).1.shard.stored)
      found
    ∙ lookup-insert_self key (set_expire_at_ms (some target) value) g.shard.stored

set_reply-found :
    (key : Bytes) (expire : Option ℤ) (g : DbWriteGuard) (o : Option StoredValue)
    (value : StoredValue)
    → o ≡ some value
    → set_reply (expiry_set key expire g o) true ≡ (integer (pos 1), (expiry_set key expire g o).1)
set_reply-found key expire g none value h = absurd (ground (arith, h))
set_reply-found key expire g (some v) value h = refl

expire_key-live :
    (key : Bytes) (condition : ExpireCondition) (target now_ms : ℤ) (g : DbWriteGuard)
    (value : StoredValue)
    → lookup key g.shard.stored ≡ some value
    → reached now_ms (expire_at_ms value) ≡ false
    → expire_condition_matches condition (expire_at_ms value) target ≡ true
    → ltb_ℤ now_ms target ≡ true
    → expire_key key condition target now_ms g ≡ (integer (pos 1), set_deadline key target g)
unfolding expire_key set_key_expiry
expire_key-live key condition target now_ms g value found live matches ahead =
    ap
      (λ (h : DbWriteGuard). expire_found key condition target now_ms h (lookup key h.shard.stored))
      (purged_live key now_ms g (ap (is_due now_ms) found ∙ live))
    ∙ ap (expire_found key condition target now_ms g) found
    ∙ ap₂
        (λ (m a : Bool).
          if not m
          then (integer (pos 0), g)
          else if not a
          then (integer (pos 1), (remove key g).1)
          else set_reply (set_key_expiry key (some target) g) true)
        matches ahead
    ∙ set_reply-found key (some target) g (lookup key g.shard.stored) value found

deadline-is :
    (target : ℤ) (value : StoredValue)
    → is_positive target ≡ true
    → expire_at_ms (set_expire_at_ms (some target) value) ≡ some target
unfolding expire_at_ms set_expire_at_ms
deadline-is target value p = rw p refl

sub-exact :
    (target later : ℤ)
    → IsI64 target
    → ltb_ℤ later (pos 0) ≡ false
    → ltb_ℤ later target ≡ true
    → saturating_sub target later ≡ target -ℤ later
unfolding saturating_sub ◌-ℤ◌
sub-exact (pos t) (pos l) small p ahead = ground arith
sub-exact (pos t) (negsuc l) small p ahead = ground arith
sub-exact (negsuc t) (pos l) small p ahead = ground arith
sub-exact (negsuc t) (negsuc l) small p ahead = ground arith

sub-positive :
    (target later : ℤ) → ltb_ℤ later target ≡ true → ltb_ℤ (pos 0) (target -ℤ later) ≡ true
unfolding ◌-ℤ◌
sub-positive (pos t) (pos l) ahead = ground arith
sub-positive (pos t) (negsuc l) ahead = ground arith
sub-positive (negsuc t) (pos l) ahead = ground arith
sub-positive (negsuc t) (negsuc l) ahead = ground arith

-- TTL on a database where `key` has a deadline that lies ahead, and where it is due.
ttl_key-ahead :
    (key : Bytes) (target later : ℤ) (g : DbWriteGuard) (value : StoredValue)
    → lookup key g.shard.stored ≡ some value
    → expire_at_ms value ≡ some target
    → IsI64 target
    → ltb_ℤ later (pos 0) ≡ false
    → ltb_ℤ later target ≡ true
    → (ttl_key key milliseconds later g).0 ≡ integer (target -ℤ later)
unfolding ttl_key
ttl_key-ahead key target later g value found deadline small p ahead =
    let exact = sub-exact target later small p ahead in
    ap (λ (h : DbWriteGuard). (ttl_found key milliseconds later h (lookup key h.shard.stored)).0)
      (purged_live key later g
        (ap (is_due later) found ∙ ap (reached later) deadline ∙ ap not ahead))
    ∙ ap (λ (o : Option StoredValue). (ttl_found key milliseconds later g o).0) found
    ∙ ap (λ (o : Option ℤ). (ttl_of key milliseconds later g o).0) deadline
    ∙ ap (λ (z : ℤ). (ttl_left key milliseconds z g).0) exact
    ∙ ap
        (λ (b : Bool).
          (if◌then◌else◌ {A = Reply × DbWriteGuard} b (integer (target -ℤ later), g)
            (integer (negsuc 1), (remove key g).1)).0)
        (sub-positive target later ahead)

ttl_key-gone :
    (key : Bytes) (later : ℤ) (g : DbWriteGuard)
    → is_due later (lookup key g.shard.stored) ≡ true
    → ttl_key key milliseconds later g ≡ (integer (negsuc 1), purged key later g)
unfolding ttl_key
ttl_key-gone key later g due =
    ap (ttl_found key milliseconds later (purged key later g)) (purged_due key later g due)

-- What EXPIRE promises: the reply 1, TTL until the target, and no key from then on.
pub record Expiring (key : Bytes) (target later : ℤ) (r : Reply × DbWriteGuard) : Type 0 where
  pub accepted : r.0 ≡ integer (pos 1)
  pub answered :
      (cmd_ttl_with_mode (key ∷ []) milliseconds later r.1).0
      ≡ integer (if ltb_ℤ later target then target -ℤ later else negsuc 1)
  pub gone :
      (not (ltb_ℤ later target)
        && contains_key key (cmd_ttl_with_mode (key ∷ []) milliseconds later r.1).1.shard.stored)
      ≡ false

Expiring-set_deadline :
    (key : Bytes) (target later : ℤ) (g : DbWriteGuard) (value : StoredValue)
    → lookup key g.shard.stored ≡ some value
    → is_positive target ≡ true
    → IsI64 target
    → ltb_ℤ later (pos 0) ≡ false
    → Expiring key target later (integer (pos 1), set_deadline key target g)
unfolding cmd_ttl_with_mode
Expiring-set_deadline key target later g value found p small q =
    let h = set_deadline key target g in
    let v = set_expire_at_ms (some target) value in
    let there = lookup-set_deadline key target g value found in
    let deadline = deadline-is target value p in
    elim (Bool-cases (ltb_ℤ later target)) [
      | inl ahead ↦ record {
        accepted = refl;
        answered =
            ttl_key-ahead key target later h v there deadline small q ahead
            ∙ ap (λ (b : Bool). integer (if b then target -ℤ later else negsuc 1)) (sym ahead);
        gone =
            ap
              (λ (b : Bool).
                not b && contains_key key (ttl_key key milliseconds later h).1.shard.stored)
              ahead;
      }
      | inr past ↦
          let due = ap (is_due later) there ∙ ap (reached later) deadline ∙ ap not past in
          let is = ttl_key-gone key later h due in
          record {
            accepted = refl;
            answered =
                ap (λ (r : Reply × DbWriteGuard). r.0) is
                ∙ ap (λ (b : Bool). integer (if b then target -ℤ later else negsuc 1)) (sym past);
            gone =
                ap
                  (λ (b : Bool).
                    not b && contains_key key (ttl_key key milliseconds later h).1.shard.stored)
                  past
                ∙ ap (λ (r : Reply × DbWriteGuard). contains_key key r.1.shard.stored) is
                ∙ ap is_some (purged_due key later h due);
          }
    ]

always_matches :
    (current : Option ℤ) (target : ℤ) → expire_condition_matches always current target ≡ true
unfolding expire_condition_matches
always_matches current target = refl

positive_ahead :
    (now_ms target : ℤ)
    → ltb_ℤ now_ms (pos 0) ≡ false
    → ltb_ℤ now_ms target ≡ true
    → is_positive target ≡ true
positive_ahead (pos n) (pos t) p ahead = ground arith
positive_ahead (pos n) (negsuc t) p ahead = ground arith
positive_ahead (negsuc n) target p ahead = absurd (ground arith)

between :
    (z : ℤ) → ltb_ℤ (pos (2 ^ 63 - 1)) z ≡ false → ltb_ℤ z (negsuc (2 ^ 63 - 1)) ≡ false → IsI64 z
between (pos n) h l = ground arith
between (negsuc n) h l = ground arith

sat_i64-IsI64 : (z : ℤ) → IsI64 (sat_i64 z)
sat_i64-IsI64 z = elim (Bool-cases (ltb_ℤ (pos (2 ^ 63 - 1)) z)) [
  | inl h ↦ rw h (omega arith)
  | inr h ↦ rw h (elim (Bool-cases (ltb_ℤ z (negsuc (2 ^ 63 - 1)))) [
    | inl l ↦ rw l (omega arith)
    | inr l ↦ rw l (between z h l)
  ])
]

target-IsI64 :
    (n : ℤ) (mode : ExpireMode) (now_ms : ℤ) → IsI64 n → IsI64 (to_expire_target_ms n mode now_ms)
unfolding to_expire_target_ms saturating_add saturating_mul
target-IsI64 n relative_seconds now_ms small = sat_i64-IsI64 (now_ms +ℤ saturating_mul n (pos 1000))
target-IsI64 n relative_milliseconds now_ms small = sat_i64-IsI64 (now_ms +ℤ n)
target-IsI64 n absolute_seconds now_ms small = sat_i64-IsI64 (n *ℤ pos 1000)
target-IsI64 n absolute_milliseconds now_ms small = small

-- EXPIRE, in any of its modes, on a key that exists and is not due, with a number whose target lies
-- ahead, replies 1; from then on TTL in milliseconds replies the distance to the target at every instant
-- before it, and at every instant from the target on it replies -2 and the key is gone. Instants are not
-- negative.
pub cmd_expire-ttl :
    (key timeout : Bytes) (n now_ms later : ℤ) (mode : ExpireMode) (g : DbWriteGuard)
    (value : StoredValue)
    → parse_i64 timeout ≡ some n
    → lookup key g.shard.stored ≡ some value
    → reached now_ms (expire_at_ms value) ≡ false
    → ltb_ℤ now_ms (to_expire_target_ms n mode now_ms) ≡ true
    → IsI64 n
    → ltb_ℤ now_ms (pos 0) ≡ false
    → ltb_ℤ later (pos 0) ≡ false
    → Expiring key
        (to_expire_target_ms n mode now_ms)
        later
        (cmd_expire_with_mode (key ∷ timeout ∷ []) mode now_ms g)
unfolding cmd_expire_with_mode
cmd_expire-ttl key timeout n now_ms later mode g value parsed found live ahead small p q =
    let target = to_expire_target_ms n mode now_ms in
    let is =
      ap (λ (o : Option ℤ). expire_parsed key mode now_ms g o (some always)) parsed
      ∙ expire_key-live key always target now_ms g value found live
          (always_matches (expire_at_ms value) target) ahead in
    subst (Expiring key target later) (sym is) (
      Expiring-set_deadline key target later g value found (positive_ahead now_ms target p ahead)
        (target-IsI64 n mode now_ms small) q)
