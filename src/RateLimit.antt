-- ===== src/RateLimit.antt =====
-- The limiters of failed logins, crates/ratatosk-engine/src/auth_rate_limiter.rs, and of connections,
-- crates/ratatosk-server/src/rate_limiter.rs. An instant and a duration are numbers of one unit; the
-- time since a later instant is 0, as in both sources.
pub mod Recent
pub mod Auth
pub mod Connections
mod Tests
use ratatosk.Prelude.{
  ℕ, ◌+◌, ◌-◌, ◌*◌, ◌/◌, ◌%◌, ◌^◌, min, max, Bool, true, false, ◌&&◌, ◌≡◌, refl, ◌↔◌, arith, Option,
  none, some, List, [], ◌∷◌, ◌++◌, length, if◌then◌else◌, ltb, leb, ◌==◌,
}
use ratatosk.Prelude.Eq.{Eq}
use ratatosk.Prelude.Maps.{Map, lookup, insert, remove, retain}

-- An address as its bits.
pub data IpAddr : Type 0 where
  v4 v6 : ℕ → IpAddr

abbrev pub ip_beq : IpAddr → IpAddr → Bool
ip_beq (v4 a) (v4 b) = a == b
ip_beq (v6 a) (v6 b) = a == b
ip_beq _ _ = false

pub ip_beq_iff : (a b : IpAddr) → (ip_beq a b ≡ true) ↔ (a ≡ b)
ip_beq_iff (v4 a) (v4 b) = ground arith
ip_beq_iff (v4 a) (v6 b) = ground arith
ip_beq_iff (v6 a) (v4 b) = ground arith
ip_beq_iff (v6 a) (v6 b) = ground arith

instance abbrev pub ip_eq : Eq IpAddr
ip_eq = record { beq = ip_beq; beq_iff = ip_beq_iff }

-- `to_ipv4_mapped` of the standard library takes ::ffff:a.b.c.d to a.b.c.d.
unfoldable pub canonical_ip : IpAddr → IpAddr
canonical_ip (v4 a) = v4 a
canonical_ip (v6 a) = if a / 2 ^ 32 == 65535 then v4 (a % 2 ^ 32) else v6 a

unfoldable pub retain_recent : List ℕ → ℕ → ℕ → List ℕ
retain_recent [] now window = []
retain_recent (t ∷ entries) now window =
    let rest = retain_recent entries now window in if ltb (now - t) window then t ∷ rest else rest

-- An entry with its recent times, and no entry where there are none.
abbrev pub unless_empty : List ℕ → Option (List ℕ)
unless_empty [] = none
unless_empty (t ∷ entries) = some (t ∷ entries)

abbrev pub keep_recent : ℕ → ℕ → List ℕ → Option (List ℕ)
keep_recent now window entries = unless_empty (retain_recent entries now window)

pub record AuthRateLimiter : Type 0 where
  pub failures : Map IpAddr (List ℕ)
  pub window : ℕ
  pub max_failures : ℕ
  pub max_tracked_ips : ℕ

unfoldable pub with_capacity : ℕ → ℕ → ℕ → AuthRateLimiter
with_capacity window max_failures max_tracked = record {
  failures = [];
  window = window;
  max_failures = min (max max_failures 1) 20;
  max_tracked_ips = max max_tracked 1;
}

unfoldable pub clear : IpAddr → AuthRateLimiter → AuthRateLimiter
clear addr l = record l { failures = remove (canonical_ip addr) l.failures }

unfoldable pub cleanup : ℕ → AuthRateLimiter → AuthRateLimiter
cleanup now l = record l { failures = retain (keep_recent now l.window) l.failures }

-- The part of `is_blocked_at` for an address that has no recent failure.
abbrev pub untracked : ℕ → AuthRateLimiter → Bool × AuthRateLimiter
untracked now l =
    if ltb (length l.failures) l.max_tracked_ips
    then (false, l)
    else let cleaned = cleanup now l in
      (leb cleaned.max_tracked_ips (length cleaned.failures), cleaned)

-- By the entry of the address, whose old times are dropped.
abbrev pub blocked_by : IpAddr → ℕ → AuthRateLimiter → Option (List ℕ) → Bool × AuthRateLimiter
blocked_by addr now l none = untracked now l
blocked_by addr now l (some []) = untracked now (record l { failures = remove addr l.failures })
blocked_by addr now l (some (t ∷ entries)) = (
  leb l.max_failures (length (t ∷ entries)),
  record l { failures = insert addr (t ∷ entries) l.failures },
)

abbrev pub recent_of : ℕ → ℕ → Option (List ℕ) → Option (List ℕ)
recent_of now window none = none
recent_of now window (some entries) = some (retain_recent entries now window)

unfoldable pub is_blocked_at : IpAddr → ℕ → AuthRateLimiter → Bool × AuthRateLimiter
is_blocked_at raw now l =
    let addr = canonical_ip raw in
    blocked_by addr now l (recent_of now l.window (lookup addr l.failures))

abbrev pub entry_or_default : Option (List ℕ) → List ℕ
entry_or_default none = []
entry_or_default (some entries) = entries

-- The end of `record_failure_at`, behind the test.
unfoldable pub add_failure : IpAddr → ℕ → AuthRateLimiter → Bool × AuthRateLimiter
add_failure addr now l =
    let entries = entry_or_default (lookup addr l.failures) in
    let entries' = if ltb (length entries) l.max_failures then entries ++ (now ∷ []) else entries in
    (leb l.max_failures (length entries'), record l { failures = insert addr entries' l.failures })

abbrev pub recorded : IpAddr → ℕ → Bool × AuthRateLimiter → Bool × AuthRateLimiter
recorded addr now (true, l) = (true, l)
recorded addr now (false, l) = add_failure addr now l

unfoldable pub record_failure_at : IpAddr → ℕ → AuthRateLimiter → Bool × AuthRateLimiter
record_failure_at raw now l =
    let addr = canonical_ip raw in recorded addr now (is_blocked_at addr now l)

pub record ConnectionRateLimiter : Type 0 where
  pub attempts : Map IpAddr (List ℕ)
  pub window : ℕ
  pub max_attempts : ℕ
  pub last_cleanup : ℕ

-- The periodic cleanup at the head of `check_rate_limit`.
unfoldable pub periodic : ℕ → ConnectionRateLimiter → ConnectionRateLimiter
periodic now l =
    if ltb l.window (now - l.last_cleanup)
    then record l { attempts = retain (keep_recent now l.window) l.attempts; last_cleanup = now }
    else l

-- The rest of it.
unfoldable pub check_cleaned : IpAddr → ℕ → ConnectionRateLimiter → Bool × ConnectionRateLimiter
check_cleaned addr now l =
    let recent = retain_recent (entry_or_default (lookup addr l.attempts)) now l.window in
    if leb l.max_attempts (length recent)
    then (false, record l { attempts = insert addr recent l.attempts })
    else (true, record l { attempts = insert addr (recent ++ (now ∷ [])) l.attempts })

unfoldable pub check_rate_limit : IpAddr → ℕ → ConnectionRateLimiter → Bool × ConnectionRateLimiter
check_rate_limit addr now l = check_cleaned addr now (periodic now l)

-- `new`, at the instant of its call
unfoldable pub new : ℕ → ℕ → ℕ → ConnectionRateLimiter
new window max_attempts now = record {
  attempts = [];
  window = window;
  max_attempts = max_attempts;
  last_cleanup = now;
}
