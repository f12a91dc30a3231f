-- ===== src/Edge/Steps.antt =====
-- crates/management-ui/src/main.rs: the two halves of the middleware.
use surmount_server.Ban.{SystemTime, apply_ban_signal, banned, decide_access, enforce, unauthorized}
use surmount_server.Ban.Guard.{BanGuard, on_request_allowed}
use surmount_server.Edge.{
  AppState, Headers, Request, Response, after_rate, banned_early, check_rate, client_ip, forbidden,
  from_next, peer_of, rate_limit_key, rate_limit_middleware, retry_secs, signal_unauthorized_of,
  too_many_requests,
}
use surmount_server.Net.{IpAddr, IpSyntax, ip_eq}
use surmount_server.Prelude.{
  Option, Result, ap, arith, err, false, guard, list_eq, nat_eq, none, ok, refl, some, sym, true, ℕ,
  ◌>>=◌, ◌↔◌, ◌∙◌, ◌≡◌, ◌≢◌, ◌≤◌,
}
use surmount_server.RateLimit.{FixedWindowRateLimiter, RateLimitDecision, check}
use surmount_server.Text.{Text}

module _ {S : Type 0} (guard : BanGuard S) where
  abbrev pub IsEnforcedBan : IpAddr → S → Type 0
  IsEnforcedBan ip bans =
      (guard.enforcement ≡ enforce)
      × (guard.backend.is_whitelisted bans ip ≡ false)
      × (guard.backend.is_banned bans ip ≡ true)

  pub banned_early_iff :
      (ip : IpAddr) (bans : S) → (banned_early guard ip bans ≡ true) ↔ IsEnforcedBan ip bans
  banned_early_iff ip bans = (ground arith, ground arith)

  pub not_early :
      (ip : IpAddr) (bans : S)
      → guard.backend.is_whitelisted bans ip ≡ true
      → banned_early guard ip bans ≡ false
  not_early ip bans home = ground arith

  pub banned-IsEnforcedBan :
      (ip : IpAddr) (rate : RateLimitDecision) (bans : S)
      → guard.enforcement ≡ enforce
      → decide_access guard.backend ip rate bans ≡ banned
      → IsEnforcedBan ip bans
  unfolding decide_access
  banned-IsEnforcedBan ip rate bans on h = (on, ground arith, ground arith)

module _ {S R A : Type 0} (guard : BanGuard S) where
  pub after_rate-whitelisted :
      (rate : RateLimitDecision) (next : Request R → AppState S → A × AppState S)
      (request : Request R)
      → (ip : IpAddr) (wall : SystemTime) (app : AppState S)
      → guard.backend.is_whitelisted app.bans ip ≡ true
      → (let (a, app') = next request app in
          after_rate guard rate next request ip wall app
          ≡ (from_next a, record app' { bans = on_request_allowed guard ip wall app'.bans }))
  unfolding after_rate decide_access
  after_rate-whitelisted rate next request ip wall app home = rw home refl

  pub after_rate-limited :
      (rate : RateLimitDecision) (next : Request R → AppState S → A × AppState S)
      (request : Request R)
      → (ip : IpAddr) (wall : SystemTime) (app : AppState S) (secs : ℕ)
      → (after_rate guard rate next request ip wall app).0 ≡ too_many_requests secs
      → (guard.backend.is_whitelisted app.bans ip ≡ false)
        × ((left : ℕ) × (rate ≡ RateLimitDecision.limited left) × (secs ≡ retry_secs left))
  unfolding after_rate decide_access
  after_rate-limited (RateLimitDecision.allowed n) next request ip wall app secs h =
      absurd (ground arith)
  after_rate-limited (RateLimitDecision.limited n) next request ip wall app secs h =
      (ground arith, (n, refl, ground arith))

  pub after_rate-forbidden :
      (rate : RateLimitDecision) (next : Request R → AppState S → A × AppState S)
      (request : Request R)
      → (ip : IpAddr) (wall : SystemTime) (app : AppState S)
      → banned_early guard ip app.bans ≡ false
      → (after_rate guard rate next request ip wall app).0 ≢ forbidden
  unfolding after_rate decide_access
  after_rate-forbidden rate next request ip wall app early = ground arith

pub check_rate-limited :
    (key : Text) (now : ℕ) (o : Option (FixedWindowRateLimiter Text)) (left : ℕ)
    → (check_rate key now o).0 ≡ RateLimitDecision.limited left
    → (limiter : FixedWindowRateLimiter Text) × (o ≡ some limiter)
      × ((check key now limiter).0 ≡ RateLimitDecision.limited left)
unfolding check_rate
check_rate-limited key now none left h = absurd (ground arith)
check_rate-limited key now (some limiter) left h = (limiter, refl, h)

pub retry_secs_pos : (left : ℕ) → 1 ≤ retry_secs left
retry_secs_pos left = ground arith

pub forbidden-not_limited :
    {A : Type 0} (secs : ℕ) → ◌≢◌ {A = Response A} forbidden (too_many_requests secs)
forbidden-not_limited secs h = cc

pub collapse :
    {E D O : Type 0} (d : D) (m : Result E O)
    → ((m >>= λ done. ok (d, done)) >>= λ (x : D × O). ok x.1) ≡ m
collapse d (ok o) = refl
collapse d (err e) = refl

-- the context's hook is the signal on the client's address
pub signal-apply_ban_signal :
    {S : Type 0} (syntax : IpSyntax) (guard : BanGuard S) (addr : IpAddr) (headers : Headers)
    (bans : S)
    → signal_unauthorized_of syntax guard addr headers bans
      ≡ apply_ban_signal guard.backend guard.enforcement
          (client_ip syntax addr headers)
          unauthorized
          bans
unfolding signal_unauthorized_of
signal-apply_ban_signal syntax guard addr headers bans =
    let (outcome, bans') =
      apply_ban_signal guard.backend guard.enforcement (client_ip syntax addr headers) unauthorized
        bans in
    ap (λ m. (m, bans')) (collapse _ outcome)

module _ {S R A : Type 0} (syntax : IpSyntax) (guard : BanGuard S) where
  pub early-middleware :
      (now : ℕ) (wall : SystemTime) (next : Request R → AppState S → A × AppState S)
      → (request : Request R) (app : AppState S)
      → banned_early guard (client_ip syntax (peer_of request) request.headers) app.bans ≡ true
      → rate_limit_middleware syntax guard now wall next request app ≡ (forbidden, app)
  unfolding rate_limit_middleware
  early-middleware now wall next request app early = rw early refl

  pub late-middleware :
      (now : ℕ) (wall : SystemTime) (next : Request R → AppState S → A × AppState S)
      → (request : Request R) (app : AppState S)
      → banned_early guard (client_ip syntax (peer_of request) request.headers) app.bans ≡ false
      → (let (rate, limiter) =
            check_rate
              (rate_limit_key syntax (peer_of request) request.headers)
              now
              app.rate_limiter in
          rate_limit_middleware syntax guard now wall next request app
          ≡ after_rate guard rate next request
              (client_ip syntax (peer_of request) request.headers)
              wall
              (record app { rate_limiter = limiter }))
  unfolding rate_limit_middleware
  late-middleware now wall next request app late = rw late refl

  pub not_forbidden :
      (now : ℕ) (wall : SystemTime) (next : Request R → AppState S → A × AppState S)
      → (request : Request R) (app : AppState S)
      → banned_early guard (client_ip syntax (peer_of request) request.headers) app.bans ≡ false
      → (rate_limit_middleware syntax guard now wall next request app).0 ≢ forbidden
  not_forbidden now wall next request app late h =
      after_rate-forbidden guard
        (check_rate (rate_limit_key syntax (peer_of request) request.headers) now
          app.rate_limiter).0
        next request (client_ip syntax (peer_of request) request.headers) wall
        (record app {
          rate_limiter =
              (check_rate (rate_limit_key syntax (peer_of request) request.headers) now
                app.rate_limiter).1;
        })
        late (ap (λ r. r.0) (sym (late-middleware now wall next request app late)) ∙ h)
