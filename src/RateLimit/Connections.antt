-- ===== src/RateLimit/Connections.antt =====
-- The limiter of connections in rate_limiter.rs against a log that forgets nothing.
use ratatosk.Prelude.{
  ℕ, ◌-◌, ◌≤◌, ◌<◌, Bool, true, false, not, ◌≡◌, refl, sym, ap, ap₂, ◌∙◌, arith, List, [], ◌∷◌,
  ◌++◌, length, if◌then◌else◌, ltb, leb, Bool-cases, inl, inr,
}
use ratatosk.Prelude.Maps.{
  Map, lookup-nil, lookup, insert, retain, IsUnique, insert-IsUnique, retain-IsUnique,
}
use ratatosk.RateLimit.{
  IpAddr, ip_beq, ip_beq_iff, ip_eq, retain_recent, keep_recent, entry_or_default,
  ConnectionRateLimiter, periodic, check_cleaned, check_rate_limit, new,
}
use ratatosk.RateLimit.Recent.{
  recents, recents-retain, recents-insert, retain_recent_twice, retain_recent-append,
  retain_recent_later,
}

-- What a limiter of the given limits answers to connections at the given instants.
unfoldable pub run : List (IpAddr × ℕ) → ConnectionRateLimiter → List Bool
run [] l = []
run ((addr, now) ∷ calls) l = let r = check_rate_limit addr now l in r.0 ∷ run calls r.1

-- The specification: a log of the connections that were let in, oldest first.
unfoldable pub times_of : IpAddr → List (IpAddr × ℕ) → List ℕ
times_of b [] = []
times_of b ((a, t) ∷ log) = let rest = times_of b log in if ip_beq a b then t ∷ rest else rest

abbrev pub admits : ℕ → ℕ → IpAddr → ℕ → List (IpAddr × ℕ) → Bool
admits window max_attempts addr now log =
    ltb (length (retain_recent (times_of addr log) now window)) max_attempts

unfoldable pub run_log : ℕ → ℕ → List (IpAddr × ℕ) → List (IpAddr × ℕ) → List Bool
run_log window max_attempts [] log = []
run_log window max_attempts ((addr, now) ∷ calls) log =
    let admitted = admits window max_attempts addr now log in
    admitted
    ∷ run_log window max_attempts calls (if admitted then log ++ ((addr, now) ∷ []) else log)

-- The clock does not run backwards.
abbrev pub AreLater : ℕ → List (IpAddr × ℕ) → Type 0
AreLater t [] = Unit
AreLater t ((addr, now) ∷ calls) = (t ≤ now) × AreLater now calls

times_of-append :
    (b a : IpAddr) (t : ℕ) (log : List (IpAddr × ℕ))
    → times_of b (log ++ ((a, t) ∷ []))
      ≡ (if ip_beq a b then times_of b log ++ (t ∷ []) else times_of b log)
unfolding times_of
times_of-append b a t [] = ground arith
times_of-append b a t ((c, s) ∷ log) = ground (arith, times_of-append b a t log)

-- At instant `t` the limiter knows of each address what the log has in the window.
record Tracks (window t : ℕ) (m : Map IpAddr (List ℕ)) (log : List (IpAddr × ℕ)) : Type 0 where
  unique : IsUnique m
  same : (b : IpAddr) → recents t window b m ≡ retain_recent (times_of b log) t window

module _ (window : ℕ) where
  later-Tracks :
      (t now : ℕ) (m : Map IpAddr (List ℕ)) (log : List (IpAddr × ℕ))
      → t ≤ now
      → Tracks window t m log
      → Tracks window now m log
  later-Tracks t now m log h k = record {
    unique = k.unique;
    same = λ b.
        sym (retain_recent_later (entry_or_default (lookup b m)) t now window h)
        ∙ ap (λ es. retain_recent es now window) (k.same b)
        ∙ retain_recent_later (times_of b log) t now window h;
  }

  retain-Tracks :
      (now : ℕ) (m : Map IpAddr (List ℕ)) (log : List (IpAddr × ℕ))
      → Tracks window now m log
      → Tracks window now (retain (keep_recent now window) m) log
  retain-Tracks now m log k = record {
    unique = retain-IsUnique (keep_recent now window) m k.unique;
    same = λ b. recents-retain now window b m k.unique ∙ k.same b;
  }

  -- A refused connection drops old times, a connection let in adds its own.
  refused-Tracks :
      (addr : IpAddr) (now : ℕ) (m : Map IpAddr (List ℕ)) (log : List (IpAddr × ℕ))
      → Tracks window now m log
      → Tracks window now (insert addr (recents now window addr m) m) log
  refused-Tracks addr now m log k = record {
    unique = insert-IsUnique addr (recents now window addr m) m k.unique;
    same = λ b.
        recents-insert now window addr b (recents now window addr m) m
        ∙ elim (Bool-cases (ip_beq addr b)) [
          | inl h ↦ rw h (
              retain_recent_twice (entry_or_default (lookup addr m)) now window
              ∙ k.same addr
              ∙ ap (λ a. retain_recent (times_of a log) now window) ((ip_beq_iff addr b).0 h))
          | inr h ↦ rw h (k.same b)
        ];
  }

  admitted-Tracks :
      (addr : IpAddr) (now : ℕ) (m : Map IpAddr (List ℕ)) (log : List (IpAddr × ℕ))
      → 0 < window
      → Tracks window now m log
      → Tracks window now
          (insert addr (recents now window addr m ++ (now ∷ [])) m)
          (log ++ ((addr, now) ∷ []))
  admitted-Tracks addr now m log pos k = record {
    unique = insert-IsUnique addr (recents now window addr m ++ (now ∷ [])) m k.unique;
    same = λ b.
        recents-insert now window addr b (recents now window addr m ++ (now ∷ [])) m
        ∙ elim (Bool-cases (ip_beq addr b)) [
          | inl h ↦
              rw (h, times_of-append b addr now log, h)
                (retain_recent-append (recents now window addr m) now window pos
                  ∙ ap (λ es. es ++ (now ∷ []))
                      (retain_recent_twice (entry_or_default (lookup addr m)) now window
                        ∙ k.same addr
                        ∙ ap (λ a. retain_recent (times_of a log) now window)
                            ((ip_beq_iff addr b).0 h))
                  ∙ sym (retain_recent-append (times_of b log) now window pos))
          | inr h ↦ rw (h, times_of-append b addr now log, h) (k.same b)
        ];
  }

periodic-Tracks :
    (now : ℕ) (l : ConnectionRateLimiter) (log : List (IpAddr × ℕ))
    → Tracks l.window now l.attempts log
    → Tracks (periodic now l).window now (periodic now l).attempts log
      × ((periodic now l).window ≡ l.window)
      × ((periodic now l).max_attempts ≡ l.max_attempts)
unfolding periodic
periodic-Tracks now l log k = elim (Bool-cases (ltb l.window (now - l.last_cleanup))) [
  | inl h ↦ rw (h, periodic) (retain-Tracks l.window now l.attempts log k, refl, refl)
  | inr h ↦ rw (h, periodic) (k, refl, refl)
]

not-not : (b : Bool) → not (not b) ≡ b
not-not true = refl
not-not false = refl

ltb-leb : (a b : ℕ) → leb a b ≡ not (ltb b a)
ltb-leb a b = ground arith

-- One connection: the answer is the log's, and the limiter keeps tracking it.
check-Tracks :
    (addr : IpAddr) (now : ℕ) (l : ConnectionRateLimiter) (log : List (IpAddr × ℕ))
    → 0 < l.window
    → Tracks l.window now l.attempts log
    → let r = check_cleaned addr now l in
      let admitted = admits l.window l.max_attempts addr now log in
      (r.0 ≡ admitted)
      × Tracks r.1.window now r.1.attempts (if admitted then log ++ ((addr, now) ∷ []) else log)
      × (r.1.window ≡ l.window)
      × (r.1.max_attempts ≡ l.max_attempts)
unfolding check_cleaned
check-Tracks addr now l log pos k =
    elim (Bool-cases (admits l.window l.max_attempts addr now log)) [
      | inl h ↦
          rw (h, refused false h, check_cleaned)
            (refl, admitted-Tracks l.window addr now l.attempts log pos k, refl, refl)
      | inr h ↦
          rw (h, refused true h, check_cleaned)
            (refl, refused-Tracks l.window addr now l.attempts log k, refl, refl)
    ]
  where
    refused :
        (b : Bool)
        → admits l.window l.max_attempts addr now log ≡ not b
        → leb l.max_attempts (length (recents now l.window addr l.attempts)) ≡ b
    refused b h =
        ltb-leb l.max_attempts (length (recents now l.window addr l.attempts))
        ∙ ap (λ es. not (ltb (length es) l.max_attempts)) (k.same addr)
        ∙ ap not h
        ∙ not-not b

run_lem :
    (calls log : List (IpAddr × ℕ)) (t : ℕ) (l : ConnectionRateLimiter)
    → 0 < l.window
    → Tracks l.window t l.attempts log
    → AreLater t calls
    → run calls l ≡ run_log l.window l.max_attempts calls log
unfolding run run_log check_rate_limit
run_lem [] log t l pos k later = refl
run_lem ((addr, now) ∷ calls) log t l pos k (le, later) =
    let cleaned = periodic now l in
    let p = periodic-Tracks now l log (later-Tracks l.window t now l.attempts log le k) in
    let pos' : 0 < cleaned.window = omega (arith, p.1) in
    let r = check-Tracks addr now cleaned log pos' p.0 in
    let next : ℕ → ℕ → List (IpAddr × ℕ) =
      λ w m. if admits w m addr now log then log ++ ((addr, now) ∷ []) else log in
    ap₂ ◌∷◌ (r.0 ∙ ap₂ (λ w m. admits w m addr now log) p.1 p.2) (
      run_lem calls (next cleaned.window cleaned.max_attempts) now
        (check_cleaned addr now cleaned).1 (omega (arith, r.2)) r.1 later
      ∙ ap₂ (λ w m. run_log w m calls (next cleaned.window cleaned.max_attempts)) r.2 r.3
      ∙ ap₂ (λ w m. run_log w m calls (next w m)) p.1 p.2)

-- For instants in order, the limiter lets a connection in exactly if fewer than `max_attempts`
-- connections of its address were let in inside the window before it; what it forgets makes no
-- difference. The window is not zero.
pub run-run_log :
    (calls : List (IpAddr × ℕ)) (window max_attempts start : ℕ)
    → 0 < window
    → AreLater start calls
    → run calls (new window max_attempts start) ≡ run_log window max_attempts calls []
unfolding new times_of
run-run_log calls window max_attempts start pos later =
    run_lem calls [] start (new window max_attempts start) pos
      (record {
        unique = tt;
        same = λ b. ap (λ o. retain_recent (entry_or_default o) start window) (lookup-nil b);
      })
      later
