-- ===== src/RateLimit/Window.antt =====
-- crates/management-ui/src/rate_limit.rs: runs of `check` calls, and keys beside each other.
use surmount_server.Assoc.{lookup}
use surmount_server.Assoc.Laws.{keep}
use surmount_server.Prelude.{
  Bool-cases, Eq, List, Option, [], arith, if◌then◌else◌, inl, inr, leb, none, some, ℕ, ◌&&◌, ◌*◌,
  ◌+◌, ◌-◌, ◌<◌, ◌∷◌, ◌≡◌, ◌≢◌, ◌≤◌,
}
use surmount_server.RateLimit.{
  FixedWindowRateLimiter, WindowEntry, check, is_live, new, or_insert, u32_mod,
}
use surmount_server.RateLimit.Decision.{
  bump, decision-check, is_allowed, lookup-check, refused, settings-check, verdict,
}
use surmount_server.RateLimit.Invariant.{IsWellFormed, check-IsWellFormed, live_entry}

module _ {ℓ} {K : Type ℓ} ⦃e : Eq K⦄ where
  -- For a well-formed limiter, a request of one key, allowed or not, changes no other key's live
  -- entry, at that time or later.
  pub check_isolated :
      (key other : K) (now later : ℕ) (l : FixedWindowRateLimiter K)
      → IsWellFormed l
      → key ≢ other
      → now ≤ later
      → live_entry other later (check key now l).1 ≡ live_entry other later l
  check_isolated key other now later l v ne le =
      rw (lookup-check key now l other v, (settings-check key now l).1)
        (ground (arith, e.agrees_iff key other))

  -- the number of requests of `k` that a run of `check` calls allows
  unfoldable pub admitted : K → List (K × ℕ) → FixedWindowRateLimiter K → ℕ
  admitted k [] l = 0
  admitted k ((key, now) ∷ rest) l =
      (if e.agrees key k && is_allowed (check key now l).0 then 1 else 0)
      + admitted k rest (check key now l).1

  -- the times of a run lie in one window that begins at `start`
  abbrev pub AllWithin : ℕ → ℕ → List (K × ℕ) → Type 0
  AllWithin start window [] = Unit
  AllWithin start window ((key, now) ∷ rest) =
      (start ≤ now) × (now < start + window) × AllWithin start window rest

-- What an entry leaves for requests in the window that begins at `start`.
abbrev budget : ℕ → ℕ → Option WindowEntry → ℕ
budget most start none = most
budget most start (some w) =
    if leb start w.window_start then most - w.count else (most - w.count) + most

budget-keep :
    (most window start now : ℕ) (o : Option WindowEntry)
    → start ≤ now
    → now < start + window
    → budget most start (keep (is_live window now) o) ≤ budget most start o
budget-keep most window start now none h k = omega arith
budget-keep most window start now (some w) h k = ground arith

-- Counting up pays for the request that is allowed.
budget-bump :
    (most window start now : ℕ) (w : WindowEntry)
    → most < u32_mod
    → (if is_allowed (verdict most window now w) then 1 else 0)
        + budget most start (some (bump most w))
      ≤ budget most start (some w)
budget-bump most window start now w h = ground arith

budget-or_insert :
    (most start now : ℕ) (o : Option WindowEntry)
    → start ≤ now
    → budget most start (some (or_insert now o)) ≤ budget most start o
budget-or_insert most start now none h = ground arith
budget-or_insert most start now (some w) h = omega arith

module _ {ℓ} {K : Type ℓ} ⦃e : Eq K⦄ where
  budget-live :
      (k : K) (start now : ℕ) (l : FixedWindowRateLimiter K)
      → start ≤ now
      → now < start + l.window
      → budget l.max_requests start (live_entry k now l)
        ≤ budget l.max_requests start (lookup k l.state)
  budget-live k start now l ge lt =
      budget-keep l.max_requests l.window start now (lookup k l.state) ge lt

  -- the key's own part of a call that has room
  budget-own :
      (key : K) (start now : ℕ) (l : FixedWindowRateLimiter K)
      → IsWellFormed l
      → start ≤ now
      → now < start + l.window
      → (if is_allowed (verdict l.max_requests l.window now (or_insert now (live_entry key now l)))
            then 1
            else 0)
          + budget l.max_requests start
              (some (bump l.max_requests (or_insert now (live_entry key now l))))
        ≤ budget l.max_requests start (lookup key l.state)
  budget-own key start now l v ge lt = omega (
    arith,
    budget-bump l.max_requests l.window start now (or_insert now (live_entry key now l)) v.fits_u32,
    budget-or_insert l.max_requests start now (live_entry key now l) ge,
    budget-live key start now l ge lt,
  )

  -- One call of `check` spends the budget of the key that it allows, and no other.
  budget-check :
      (k key : K) (start now : ℕ) (l : FixedWindowRateLimiter K)
      → IsWellFormed l
      → start ≤ now
      → now < start + l.window
      → (if e.agrees key k && is_allowed (check key now l).0 then 1 else 0)
          + budget l.max_requests start (lookup k (check key now l).1.state)
        ≤ budget l.max_requests start (lookup k l.state)
  budget-check k key start now l v ge lt =
      rw (decision-check key now l v, lookup-check key now l k v)
        (elim (Bool-cases (refused key now l)) [
          | inl full ↦ rw full (ground (arith, budget-live k start now l ge lt))
          | inr free ↦ elim (Bool-cases (e.agrees key k)) [
            | inl same ↦
                rw (free, same, ← ((e.agrees_iff key k).0 same))
                  (budget-own key start now l v ge lt)
            | inr other ↦ rw (free, other) (omega (arith, budget-live k start now l ge lt))
          ]
        ])

  -- The budget of a key bounds what a run inside one window admits.
  admitted-le-budget :
      (k : K) (start : ℕ) (run : List (K × ℕ)) (l : FixedWindowRateLimiter K)
      → IsWellFormed l
      → AllWithin start l.window run
      → admitted k run l ≤ budget l.max_requests start (lookup k l.state)
  unfolding admitted
  admitted-le-budget k start [] l v h = omega arith
  admitted-le-budget k start ((key, now) ∷ rest) l v (ge, lt, h) =
      let (same_max, same_window, _) = settings-check key now l in
      let later =
        admitted-le-budget k start rest (check key now l).1 (check-IsWellFormed key now l v)
          (rw same_window h) in
      omega (arith, budget-check k key start now l v ge lt, rw same_max at later)

  -- For a well-formed limiter, a run of `check` calls whose times all lie within one window's
  -- length allows each key at most twice its limit, whatever the other keys do and in whatever
  -- order the times come.
  pub admitted-le-twice :
      (k : K) (start : ℕ) (run : List (K × ℕ)) (l : FixedWindowRateLimiter K)
      → IsWellFormed l
      → AllWithin start l.window run
      → admitted k run l ≤ 2 * l.max_requests
  admitted-le-twice k start run l v h = omega (
    arith,
    admitted-le-budget k start run l v h,
    budget-le l.max_requests start (lookup k l.state),
  )
    where
      budget-le : (most start : ℕ) (o : Option WindowEntry) → budget most start o ≤ 2 * most
      budget-le most start none = omega arith
      budget-le most start (some w) = ground arith

  -- For a well-formed limiter, a key without an entry at the start is allowed at most its limit by
  -- a run of `check` calls whose times all lie within one window's length.
  admitted-le-max_requests :
      (k : K) (start : ℕ) (run : List (K × ℕ)) (l : FixedWindowRateLimiter K)
      → IsWellFormed l
      → lookup k l.state ≡ none
      → AllWithin start l.window run
      → admitted k run l ≤ l.max_requests
  admitted-le-max_requests k start run l v new h =
      let most = admitted-le-budget k start run l v h in rw new at most
