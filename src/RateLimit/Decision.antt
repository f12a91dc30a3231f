-- ===== src/RateLimit/Decision.antt =====
-- crates/management-ui/src/rate_limit.rs: one call of `check`, by its decision and its entries.
use surmount_server.Assoc.{Assoc, is_some, lookup, retain}
use surmount_server.Assoc.Laws.{lookup-insert, lookup-retain}
use surmount_server.Prelude.{
  Bool, Bool-cases, Eq, arith, false, if◌then◌else◌, inl, inr, leb, length, map, not, refl, some,
  true, ℕ, ◌%◌, ◌&&◌, ◌+◌, ◌-◌, ◌≡◌,
}
use surmount_server.RateLimit.{
  FixedWindowRateLimiter, RateLimitDecision, WindowEntry, admit, allowed, check, is_live, limited,
  or_insert, u32_mod,
}
use surmount_server.RateLimit.Invariant.{IsWellFormed, check_by_live, live_entry}

abbrev pub is_allowed : RateLimitDecision → Bool
is_allowed (allowed remaining) = true
is_allowed (limited retry_after) = false

-- the entry after `admit`
abbrev pub bump : ℕ → WindowEntry → WindowEntry
bump most w = if leb most w.count then w else record w { count = (w.count + 1) % u32_mod }

-- the decision of `admit`
abbrev pub verdict : ℕ → ℕ → ℕ → WindowEntry → RateLimitDecision
verdict most window now w =
    if leb most w.count
    then limited (window - (now - w.window_start))
    else allowed (most - (w.count + 1) % u32_mod)

module _ {ℓ} {K : Type ℓ} ⦃e : Eq K⦄ where
  decision-admit :
      (key : K) (now : ℕ) (w : WindowEntry) (map : Assoc K WindowEntry)
      (l : FixedWindowRateLimiter K)
      → (admit key now w map l).0 ≡ verdict l.max_requests l.window now w
  unfolding admit
  decision-admit key now w map l = ground arith

  lookup-admit :
      (key : K) (now : ℕ) (w : WindowEntry) (map : Assoc K WindowEntry)
      (l : FixedWindowRateLimiter K) (k : K)
      → lookup k (admit key now w map l).1.state
        ≡ (if e.agrees key k then some (bump l.max_requests w) else lookup k map)
  unfolding admit
  lookup-admit key now w map l k = elim (Bool-cases (leb l.max_requests w.count)) [
    | inl full ↦ rw full (lookup-insert key k w map)
    | inr free ↦ rw free (lookup-insert key k _ map)
  ]

  pub max_requests-admit :
      (key : K) (now : ℕ) (w : WindowEntry) (map : Assoc K WindowEntry)
      (l : FixedWindowRateLimiter K)
      → ((admit key now w map l).1.max_requests ≡ l.max_requests)
        × ((admit key now w map l).1.window ≡ l.window)
        × ((admit key now w map l).1.max_keys ≡ l.max_keys)
  unfolding admit
  max_requests-admit key now w map l = ground arith

  -- No room for a key that has no live entry.
  abbrev pub refused : K → ℕ → FixedWindowRateLimiter K → Bool
  refused key now l =
      not (is_some (live_entry key now l))
      && leb l.max_keys (length (retain (is_live l.window now) l.state))

  pub settings-check :
      (key : K) (now : ℕ) (l : FixedWindowRateLimiter K)
      → ((check key now l).1.max_requests ≡ l.max_requests)
        × ((check key now l).1.window ≡ l.window)
        × ((check key now l).1.max_keys ≡ l.max_keys)
  unfolding check admit
  settings-check key now l = ground arith

  -- The decision of `check` by the key's live entry.
  pub decision-check :
      (key : K) (now : ℕ) (l : FixedWindowRateLimiter K)
      → IsWellFormed l
      → (check key now l).0 ≡ (
          if refused key now l
          then limited l.window
          else verdict l.max_requests l.window now (or_insert now (live_entry key now l)))
  decision-check key now l v =
      rw (check_by_live key now l v) (elim (Bool-cases (refused key now l)) [
        | inl full ↦ rw full refl
        | inr free ↦ rw free (decision-admit key now _ _ l)
      ])

  -- Each key's entry after `check`: the live entry, counted up for the key that was admitted.
  pub lookup-check :
      (key : K) (now : ℕ) (l : FixedWindowRateLimiter K) (k : K)
      → IsWellFormed l
      → lookup k (check key now l).1.state ≡ (
          if not (refused key now l) && e.agrees key k
          then some (bump l.max_requests (or_insert now (live_entry key now l)))
          else live_entry k now l)
  lookup-check key now l k v =
      rw (check_by_live key now l v) (elim (Bool-cases (refused key now l)) [
        | inl full ↦ rw full (lookup-retain _ k l.state v.distinct)
        | inr free ↦
            rw
              (
                free,
                lookup-admit key now (or_insert now (live_entry key now l)) _ l k,
                lookup-retain (is_live l.window now) k l.state v.distinct,
              )
              refl
      ])
