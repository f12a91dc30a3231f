-- ===== src/RateLimit/Tests.antt =====
-- Runs of the limiter, and the theorems at concrete inputs.
use surmount_server.Assoc.{insert, lookup, retain}
use surmount_server.Net.{ip_eq}
use surmount_server.Prelude.{
  List, [], arith, list_eq, nat_eq, refl, some, ℕ, ◌*◌, ◌-◌, ◌∷◌, ◌≡◌, ◌≤◌,
}
use surmount_server.RateLimit.{
  FixedWindowRateLimiter, admit, allowed, check, limited, with_max_keys,
}
use surmount_server.RateLimit.Invariant.{IsWellFormed, check-IsWellFormed, live_entry}
use surmount_server.RateLimit.Retry.{StartedBy, retry_after_honest}
use surmount_server.RateLimit.Window.{admitted, admitted-le-twice, check_isolated}

abbrev start : FixedWindowRateLimiter ℕ
start = record { max_requests = 2; window = 10; max_keys = 2; state = [] }

start_made : with_max_keys 2 10 2 ≡ some start
unfolding with_max_keys
start_made = refl

abbrev traffic : List (ℕ × ℕ)
traffic = (7, 1) ∷ (7, 2) ∷ (7, 3) ∷ (8, 4) ∷ (9, 5) ∷ []

traffic_admits :
    (admitted 7 traffic start ≡ 2) × (admitted 8 traffic start ≡ 1) × (admitted 9 traffic start ≡ 0)
unfolding admitted check admit lookup insert retain
traffic_admits = (refl, refl, refl)

start-IsWellFormed : IsWellFormed start
unfolding lookup
start-IsWellFormed = record {
  some_requests = omega arith;
  fits_u32 = omega arith;
  some_window = omega arith;
  some_keys = omega arith;
  distinct = tt;
  few_keys = omega arith;
  bounded = λ k w h. cc;
}

abbrev once : FixedWindowRateLimiter ℕ
once = record {
  max_requests = 1;
  window = 10;
  max_keys = 2;
  state = (7, record { window_start = 3; count = 1 }) ∷ [];
}

once-IsWellFormed : IsWellFormed once
unfolding lookup
once-IsWellFormed = record {
  some_requests = omega arith;
  fits_u32 = omega arith;
  some_window = omega arith;
  some_keys = omega arith;
  distinct = (refl, tt);
  few_keys = omega arith;
  bounded = λ k w h. ground arith;
}

once-StartedBy : StartedBy 5 once
unfolding lookup
once-StartedBy k w h = ground arith

once_limits : (check 7 5 once).0 ≡ limited 8
unfolding check admit lookup insert retain
once_limits = refl

check-IsWellFormed_example : IsWellFormed (check 7 1 start).1
check-IsWellFormed_example = check-IsWellFormed 7 1 start start-IsWellFormed

check_isolated_example : live_entry 8 4 (check 7 1 start).1 ≡ live_entry 8 4 start
check_isolated_example =
    check_isolated 7 8 1 4 start start-IsWellFormed (λ p. omega (arith, p)) (omega arith)

admitted-le-twice_example : admitted 7 traffic start ≤ 2 * 2
admitted-le-twice_example = admitted-le-twice 7 0 traffic start start-IsWellFormed (omega arith)

retry_after_honest_example : (check 7 13 (check 7 5 once).1).0 ≡ allowed (1 - 1)
retry_after_honest_example =
    retry_after_honest 7 5 13 8 once once-IsWellFormed once-StartedBy once_limits (omega arith)
