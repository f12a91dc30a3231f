-- ===== src/RateLimit.antt =====
-- crates/management-ui/src/rate_limit.rs: the fixed-window limiter of the Axum edge.
-- An `Instant` and a `Duration` are counts of nanoseconds; `duration_since` stops at 0, as `-` on ℕ
-- does. A method of the limiter returns its result and the limiter with the new map.
pub mod Invariant
pub mod Decision
pub mod Window
pub mod Retry
mod Tests
use surmount_server.Prelude.{
  ℕ, ◌+◌, ◌-◌, ◌^◌, ◌%◌, Bool, ◌&&◌, not, Option, none, some, List, [], Eq, ltb, leb, length,
  if◌then◌else◌,
}
use surmount_server.Assoc.{Assoc, lookup, contains_key, insert, retain}

abbrev pub u32_mod : ℕ
u32_mod = 2 ^ 32

abbrev pub default_max_keys : ℕ
default_max_keys = 50_000

pub record WindowEntry : Type 0 where
  pub window_start : ℕ
  pub count : ℕ

pub record FixedWindowRateLimiter {ℓ} (K : Type ℓ) : Type ℓ where
  pub max_requests : ℕ
  pub window : ℕ
  pub max_keys : ℕ
  pub state : Assoc K WindowEntry

pub data RateLimitDecision : Type 0 where
  allowed : ℕ → RateLimitDecision
  limited : ℕ → RateLimitDecision

-- `none` is the panic of a failed `assert!`.
unfoldable pub with_max_keys {ℓ} : {K : Type ℓ} → ℕ → ℕ → ℕ → Option (FixedWindowRateLimiter K)
with_max_keys max_requests window max_keys =
    if ltb 0 max_requests && ltb 0 window && ltb 0 max_keys
    then some
        (record { max_requests = max_requests; window = window; max_keys = max_keys; state = [] })
    else none

unfoldable pub new {ℓ} : {K : Type ℓ} → ℕ → ℕ → Option (FixedWindowRateLimiter K)
unfolding with_max_keys
new max_requests window = with_max_keys max_requests window default_max_keys

-- the closure of `retain`
abbrev pub is_live : ℕ → ℕ → WindowEntry → Bool
is_live window now entry = ltb (now - entry.window_start) window

-- `or_insert`
abbrev pub or_insert : ℕ → Option WindowEntry → WindowEntry
or_insert now none = record { window_start = now; count = 0 }
or_insert now (some entry) = entry

-- the reset of an entry whose window has passed
abbrev pub refresh : ℕ → ℕ → WindowEntry → WindowEntry
refresh window now entry =
    if leb window (now - entry.window_start)
    then record { window_start = now; count = 0 }
    else entry

module _ {ℓ} {K : Type ℓ} ⦃e : Eq K⦄ where
  -- the second half of `check`, from the count test on: `map` holds the retained windows
  unfoldable pub admit :
      K
      → ℕ
      → WindowEntry
      → Assoc K WindowEntry
      → FixedWindowRateLimiter K
      → RateLimitDecision × FixedWindowRateLimiter K
  admit key now entry map l =
      if leb l.max_requests entry.count
      then (
        limited (l.window - (now - entry.window_start)),
        record l { state = insert key entry map },
      )
      else (let count = (entry.count + 1) % u32_mod in
          (
            allowed (l.max_requests - count),
            record l { state = insert key (record entry { count = count }) map },
          ))

  -- `check`
  unfoldable pub check :
      K → ℕ → FixedWindowRateLimiter K → RateLimitDecision × FixedWindowRateLimiter K
  check key now l =
      let map = retain (is_live l.window now) l.state in
      if not (contains_key key map) && leb l.max_keys (length map)
      then (limited l.window, record l { state = map })
      else admit key now (refresh l.window now (or_insert now (lookup key map))) map l
