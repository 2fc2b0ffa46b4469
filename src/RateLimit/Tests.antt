-- ===== src/RateLimit/Tests.antt =====
-- Concrete runs of the limiters.
use native.Mathlib.Omega.{arith}
use ratatosk.Prelude.{ℕ, ◌≡◌, List, [], ◌∷◌}
use ratatosk.RateLimit.{IpAddr, v4, v6, with_capacity, new}
use ratatosk.RateLimit.Auth.{
  Call, is_blocked, record_failure, clear_failures, after, IsBounded, after-IsBounded,
}
use ratatosk.RateLimit.Connections.{run, run_log, run-run_log}

abbrev logins : List Call
logins =
    record_failure (v4 9) 1
    ∷ record_failure (v6 281470681743369) 2
    ∷ is_blocked (v4 9) 3
    ∷ record_failure (v4 7) 4
    ∷ clear_failures (v4 9)
    ∷ []

after-IsBounded_example : IsBounded (after logins (with_capacity 60 2 1))
after-IsBounded_example = after-IsBounded 60 2 1 logins

abbrev connections : List (IpAddr × ℕ)
connections = (v4 1, 5) ∷ (v4 1, 6) ∷ (v4 1, 7) ∷ (v4 2, 8) ∷ (v4 1, 17) ∷ []

run-run_log_example : run connections (new 10 2 5) ≡ run_log 10 2 connections []
run-run_log_example =
    run-run_log connections 10 2 5 (omega arith)
      (omega arith, (omega arith, (omega arith, (omega arith, (omega arith, tt)))))
