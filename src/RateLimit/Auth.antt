-- ===== src/RateLimit/Auth.antt =====
-- The memory of the login limiter in auth_rate_limiter.rs stays bounded.
use mathlib.Core.Path.{subst}
use ratatosk.Prelude.{
  ℕ, ◌/◌, ◌^◌, ◌==◌, ◌≤◌, ◌<◌, Bool, true, false, ◌≡◌, ◌⊎◌, refl, sym, ap, ◌∙◌, arith, Option, none,
  some, List, [], ◌∷◌, ◌++◌, length, length-append, if◌then◌else◌, ltb, Bool-cases, Option-cases,
  inl, inr,
}
use ratatosk.Prelude.Maps.{
  Map, lookup, lookup-nil, insert, remove, retain, kept, is_some, contains_key, IsUnique,
  insert-IsUnique, remove-IsUnique, retain-IsUnique, lookup-insert, lookup-insert_self,
  lookup-remove, lookup-retain, length-insert, length-remove, length-retain,
}
use ratatosk.RateLimit.{
  IpAddr, ip_eq, canonical_ip, retain_recent, keep_recent, unless_empty, entry_or_default,
  recent_of, AuthRateLimiter, with_capacity, clear, cleanup, untracked, blocked_by, is_blocked_at,
  add_failure, recorded, v4, v6, record_failure_at,
}
use ratatosk.RateLimit.Recent.{length-retain_recent}

-- A map of no more than `cap` addresses, with no more than `threshold` times of each.
pub record Fits (cap threshold : ℕ) (m : Map IpAddr (List ℕ)) : Type 0 where
  pub unique : IsUnique m
  pub few : length m ≤ cap
  pub short : (a : IpAddr) (es : List ℕ) → lookup a m ≡ some es → length es ≤ threshold

abbrev pub IsBounded : AuthRateLimiter → Type 0
IsBounded l =
    Fits l.max_tracked_ips l.max_failures l.failures
    × (0 < l.max_failures)
    × (0 < l.max_tracked_ips)

unless_short : (r es : List ℕ) → unless_empty r ≡ some es → length es ≤ length r
unless_short [] es h = ground arith
unless_short (t ∷ r) es h = ground (arith, h)

kept_short :
    (now window n : ℕ) (o : Option (List ℕ)) (es : List ℕ)
    → ((xs : List ℕ) → o ≡ some xs → length xs ≤ n)
    → kept (keep_recent now window) o ≡ some es
    → length es ≤ n
kept_short now window n none es short h = ground arith
kept_short now window n (some xs) es short h = omega (
  arith,
  unless_short (retain_recent xs now window) es h,
  length-retain_recent xs now window,
  short xs refl,
)

module _ {cap threshold : ℕ} {m : Map IpAddr (List ℕ)} (k : Fits cap threshold m) where
  remove-Fits : (a : IpAddr) → Fits cap threshold (remove a m)
  remove-Fits a = record {
    unique = remove-IsUnique a m k.unique;
    few = omega (arith, length-remove a m, k.few);
    short = λ b es h. k.short b es (ground (arith, lookup-remove a b m, h));
  }

  insert-Fits :
      (a : IpAddr) (es : List ℕ)
      → length es ≤ threshold
      → (contains_key a m ≡ true) ⊎ (length m < cap)
      → Fits cap threshold (insert a es m)
  insert-Fits a es le room = record {
    unique = insert-IsUnique a es m k.unique;
    few = ground (arith, length-insert a es m, k.few, room);
    short = λ b xs h. ground (arith, lookup-insert a b es m, h, le, k.short b xs);
  }

  retain-Fits : (now window : ℕ) → Fits cap threshold (retain (keep_recent now window) m)
  retain-Fits now window = record {
    unique = retain-IsUnique (keep_recent now window) m k.unique;
    few = omega (arith, length-retain (keep_recent now window) m, k.few);
    short = λ a es h.
        kept_short now window threshold (lookup a m) es (k.short a)
          (sym (lookup-retain (keep_recent now window) a m k.unique) ∙ h);
  }

-- A test that says no leaves room for the address.
abbrev HasRoom : IpAddr → Bool × AuthRateLimiter → Type 0
HasRoom a (b, l) =
    b ≡ false → (contains_key a l.failures ≡ true) ⊎ (length l.failures < l.max_tracked_ips)

untracked-IsBounded :
    (a : IpAddr) (now : ℕ) (l : AuthRateLimiter)
    → IsBounded l
    → IsBounded (untracked now l).1 × HasRoom a (untracked now l)
unfolding cleanup
untracked-IsBounded a now l (k, one, some_room) =
    elim (Bool-cases (ltb (length l.failures) l.max_tracked_ips)) [
      | inl h ↦ rw h ((k, one, some_room), λ e. inr (ground (arith, h)))
      | inr h ↦ rw h ((retain-Fits k now l.window, one, some_room), λ e. inr (ground (arith, e)))
    ]

entry-IsBounded :
    (a : IpAddr) (now : ℕ) (l : AuthRateLimiter) (es r : List ℕ)
    → IsBounded l
    → lookup a l.failures ≡ some es
    → length r ≤ l.max_failures
    → IsBounded (blocked_by a now l (some r)).1 × HasRoom a (blocked_by a now l (some r))
entry-IsBounded a now l es [] (k, one, some_room) h le =
    untracked-IsBounded a now (record l { failures = remove a l.failures })
      (remove-Fits k a, one, some_room)
entry-IsBounded a now l es (t ∷ r) (k, one, some_room) h le = (
  (insert-Fits k a (t ∷ r) le (inl (ap is_some h)), one, some_room),
  λ e. inl (ap is_some (lookup-insert_self a (t ∷ r) l.failures)),
)

blocked_by-IsBounded :
    (a : IpAddr) (now : ℕ) (l : AuthRateLimiter) (o : Option (List ℕ))
    → IsBounded l
    → lookup a l.failures ≡ o
    → IsBounded (blocked_by a now l (recent_of now l.window o)).1
      × HasRoom a (blocked_by a now l (recent_of now l.window o))
blocked_by-IsBounded a now l none k h = untracked-IsBounded a now l k
blocked_by-IsBounded a now l (some es) k h =
    entry-IsBounded a now l es (retain_recent es now l.window) k h
      (omega (arith, length-retain_recent es now l.window, k.0.short a es h))

is_blocked_at-IsBounded :
    (raw : IpAddr) (now : ℕ) (l : AuthRateLimiter)
    → IsBounded l
    → IsBounded (is_blocked_at raw now l).1 × HasRoom (canonical_ip raw) (is_blocked_at raw now l)
unfolding is_blocked_at
is_blocked_at-IsBounded raw now l k =
    blocked_by-IsBounded (canonical_ip raw) now l (lookup (canonical_ip raw) l.failures) k refl

default_short :
    (a : IpAddr) (l : AuthRateLimiter)
    → IsBounded l
    → length (entry_or_default (lookup a l.failures)) ≤ l.max_failures
default_short a l k = elim (Option-cases (lookup a l.failures)) [
  | inl h ↦ rw h (omega arith)
  | inr (es, h) ↦ rw h (k.0.short a es h)
]

add_failure-IsBounded :
    (a : IpAddr) (now : ℕ) (l : AuthRateLimiter)
    → IsBounded l
    → (contains_key a l.failures ≡ true) ⊎ (length l.failures < l.max_tracked_ips)
    → IsBounded (add_failure a now l).1
unfolding add_failure
add_failure-IsBounded a now l (k, one, some_room) room =
    (insert-Fits k a _ short room, one, some_room)
  where
    short :
        let es = entry_or_default (lookup a l.failures) in
        length (if ltb (length es) l.max_failures then es ++ (now ∷ []) else es) ≤ l.max_failures
    short = ground (
      arith,
      default_short a l (k, one, some_room),
      length-append (entry_or_default (lookup a l.failures)) (now ∷ []),
    )

canonical_ip_twice : (raw : IpAddr) → canonical_ip (canonical_ip raw) ≡ canonical_ip raw
unfolding canonical_ip
canonical_ip_twice (v4 a) = refl
canonical_ip_twice (v6 a) = elim (Bool-cases (a / 2 ^ 32 == 65535)) [
  | inl h ↦ rw (h, canonical_ip) refl
  | inr h ↦ rw (h, canonical_ip) (rw h refl)
]

recorded-IsBounded :
    (a : IpAddr) (now : ℕ) (r : Bool × AuthRateLimiter)
    → IsBounded r.1
    → HasRoom a r
    → IsBounded (recorded a now r).1
recorded-IsBounded a now (true, l) k room = k
recorded-IsBounded a now (false, l) k room = add_failure-IsBounded a now l k (room refl)

record_failure_at-IsBounded :
    (raw : IpAddr) (now : ℕ) (l : AuthRateLimiter)
    → IsBounded l
    → IsBounded (record_failure_at raw now l).1
unfolding record_failure_at
record_failure_at-IsBounded raw now l k =
    let (kept_k, room) = is_blocked_at-IsBounded (canonical_ip raw) now l k in
    recorded-IsBounded (canonical_ip raw) now (is_blocked_at (canonical_ip raw) now l) kept_k (
      subst (λ a. HasRoom a (is_blocked_at (canonical_ip raw) now l)) (canonical_ip_twice raw) room)

clear-IsBounded : (raw : IpAddr) (l : AuthRateLimiter) → IsBounded l → IsBounded (clear raw l)
unfolding clear
clear-IsBounded raw l (k, one, some_room) = (remove-Fits k (canonical_ip raw), one, some_room)

pub data Call : Type 0 where
  is_blocked record_failure : IpAddr → ℕ → Call
  clear_failures : IpAddr → Call

abbrev pub after : List Call → AuthRateLimiter → AuthRateLimiter
after [] l = l
after (is_blocked a now ∷ calls) l = after calls (is_blocked_at a now l).1
after (record_failure a now ∷ calls) l = after calls (record_failure_at a now l).1
after (clear_failures a ∷ calls) l = after calls (clear a l)

after_lem : (calls : List Call) (l : AuthRateLimiter) → IsBounded l → IsBounded (after calls l)
after_lem [] l k = k
after_lem (is_blocked a now ∷ calls) l k =
    after_lem calls (is_blocked_at a now l).1 (is_blocked_at-IsBounded a now l k).0
after_lem (record_failure a now ∷ calls) l k =
    after_lem calls (record_failure_at a now l).1 (record_failure_at-IsBounded a now l k)
after_lem (clear_failures a ∷ calls) l k = after_lem calls (clear a l) (clear-IsBounded a l k)

-- Whatever is called at whatever instants, the limiter tracks each address once and no more
-- addresses than its capacity, and keeps no more times of an address than the threshold.
pub after-IsBounded :
    (window max_failures max_tracked : ℕ) (calls : List Call)
    → IsBounded (after calls (with_capacity window max_failures max_tracked))
unfolding with_capacity
after-IsBounded window max_failures max_tracked calls =
    after_lem calls (with_capacity window max_failures max_tracked) (
      record {
        unique = tt;
        few = omega arith;
        short = λ a es h. ground (arith, lookup-nil {V = List ℕ} a, h);
      },
      omega arith,
      omega arith,
    )
