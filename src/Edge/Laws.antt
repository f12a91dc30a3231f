-- ===== src/Edge/Laws.antt =====
-- crates/management-ui/src/main.rs: the middleware, for each kind of client.
use surmount_server.Ban.{
  BackendLaws, BanReason, SystemTime, decide_access, enforce, recorded, unauthorized,
}
use surmount_server.Ban.Guard.{BanGuard, on_request_allowed}
use surmount_server.Ban.Signals.{recorded_then_rejected}
use surmount_server.Console.Unique.{elsewhere}
use surmount_server.Edge.{
  AppState, Request, banned_early, check_rate, client_ip, forbidden, from_next, peer_of,
  rate_limit_key, rate_limit_middleware, retry_secs, signal_unauthorized_of, too_many_requests,
}
use surmount_server.Edge.Steps.{
  IsEnforcedBan, after_rate-limited, after_rate-whitelisted, banned-IsEnforcedBan, banned_early_iff,
  check_rate-limited, early-middleware, forbidden-not_limited, late-middleware, not_early,
  not_forbidden, retry_secs_pos, signal-apply_ban_signal,
}
use surmount_server.Net.{IpAddr, IpSyntax, ip_eq}
use surmount_server.NftHelper.{answer}
use surmount_server.Prelude.{
  Bool-cases, ap, false, inl, inr, list_eq, nat_eq, ok, some, sym, true, ℕ, ◌↔◌, ◌∙◌, ◌≡◌, ◌≤◌,
}
use surmount_server.RateLimit.{FixedWindowRateLimiter, RateLimitDecision, check}
use surmount_server.Text.{Text}

module _ {S R A : Type 0} (syntax : IpSyntax) (guard : BanGuard S) where
  -- The rate limit and ban middleware itself answers a request with its 403 exactly when the policy
  -- enforces and the backend says that the client is banned and not whitelisted; it then changes
  -- neither the limiter nor the bans and does not run the router. What the router behind it
  -- answers, a 403 of the gate included, is passed on as the router's answer and is not this one.
  pub forbidden_iff_IsEnforcedBan :
      (now : ℕ) (wall : SystemTime) (next : Request R → AppState S → A × AppState S)
      → (request : Request R) (app : AppState S)
      → (((rate_limit_middleware syntax guard now wall next request app).0 ≡ forbidden)
          ↔ IsEnforcedBan guard (client_ip syntax (peer_of request) request.headers) app.bans)
        × ((rate_limit_middleware syntax guard now wall next request app).0 ≡ forbidden
            → (rate_limit_middleware syntax guard now wall next request app).1 ≡ app)
  forbidden_iff_IsEnforcedBan now wall next request app =
      let ip = client_ip syntax (peer_of request) request.headers in
      elim (Bool-cases (banned_early guard ip app.bans)) [
        | inl early ↦
            let same = early-middleware syntax guard now wall next request app early in
            (
              (λ h. (banned_early_iff guard ip app.bans).0 early, λ ban. ap (λ r. r.0) same),
              λ h. ap (λ r. r.1) same,
            )
        | inr late ↦
            let never = not_forbidden syntax guard now wall next request app late in
            (
              (λ h. absurd (never h), λ ban. cc (late, (banned_early_iff guard ip app.bans).1 ban)),
              λ h. absurd (never h),
            )
      ]

  middleware-whitelisted :
      (now : ℕ) (wall : SystemTime) (next : Request R → AppState S → A × AppState S)
      → (request : Request R) (app : AppState S)
      → guard.backend.is_whitelisted app.bans (client_ip syntax (peer_of request) request.headers)
        ≡ true
      → (let ip = client_ip syntax (peer_of request) request.headers in
          let (rate, limiter) =
            check_rate
              (rate_limit_key syntax (peer_of request) request.headers)
              now
              app.rate_limiter in
          let (a, app') = next request (record app { rate_limiter = limiter }) in
          rate_limit_middleware syntax guard now wall next request app
          ≡ (from_next a, record app' { bans = on_request_allowed guard ip wall app'.bans }))
  middleware-whitelisted now wall next request app home =
      late-middleware syntax guard now wall next request app (not_early guard _ _ home)
      ∙ after_rate-whitelisted guard
          (check_rate (rate_limit_key syntax (peer_of request) request.headers) now
            app.rate_limiter).0
          next request (client_ip syntax (peer_of request) request.headers) wall
          (record app {
            rate_limiter =
                (check_rate (rate_limit_key syntax (peer_of request) request.headers) now
                  app.rate_limiter).1;
          })
          home

  -- the router's answer to a request that the limiter has counted, and the state after it
  abbrev pub behind :
      ℕ → (Request R → AppState S → A × AppState S) → Request R → AppState S → A × AppState S
  behind now next request app = next request (record app {
    rate_limiter =
        (check_rate (rate_limit_key syntax (peer_of request) request.headers) now
          app.rate_limiter).1;
  })

  -- With a backend that keeps its promises, a client that is whitelisted before the router runs and
  -- after it gets the router's answer to the request, whatever its rate and even if it is banned.
  -- Afterwards the backend says that the client was last seen at the time of the request; the
  -- limiter is as the router left it, and so is whether any address is banned or whitelisted.
  pub whitelisted_served :
      BackendLaws guard.backend
      → (now : ℕ) (wall : SystemTime) (next : Request R → AppState S → A × AppState S)
      → (request : Request R) (app : AppState S) (elsewhere : IpAddr)
      → guard.backend.is_whitelisted app.bans (client_ip syntax (peer_of request) request.headers)
        ≡ true
      → guard.backend.is_whitelisted
          (behind now next request app).1.bans
          (client_ip syntax (peer_of request) request.headers)
        ≡ true
      → (let (a, app') = behind now next request app in
          let (response, after) = rate_limit_middleware syntax guard now wall next request app in
          (response ≡ from_next a)
          × (after.rate_limiter ≡ app'.rate_limiter)
          × (guard.backend.whitelist_last_used after.bans
                (client_ip syntax (peer_of request) request.headers)
              ≡ some wall)
          × (guard.backend.is_banned after.bans elsewhere
              ≡ guard.backend.is_banned app'.bans elsewhere)
          × (guard.backend.is_whitelisted after.bans elsewhere
              ≡ guard.backend.is_whitelisted app'.bans elsewhere))
  unfolding on_request_allowed
  whitelisted_served laws now wall next request app elsewhere home still =
      let ip = client_ip syntax (peer_of request) request.headers in
      let same = middleware-whitelisted now wall next request app home in
      let bans' = (behind now next request app).1.bans in
      let (banned_same, listed_same) = laws.touch_keeps ip elsewhere wall bans' in
      (
        ap (λ r. r.0) same,
        ap (λ r. r.1.rate_limiter) same,
        ap (λ r. guard.backend.whitelist_last_used r.1.bans ip) same
            ∙ laws.touch_stamps ip wall bans' still,
        ap (λ r. guard.backend.is_banned r.1.bans elsewhere) same ∙ banned_same,
        ap (λ r. guard.backend.is_whitelisted r.1.bans elsewhere) same ∙ listed_same,
      )

  -- With a backend that keeps its promises and under enforcement, once a failed login is recorded
  -- as a ban, the middleware answers the next request from the same peer with the same headers with
  -- its 403 and changes nothing.
  pub failed_login_blocks :
      BackendLaws guard.backend
      → (why : BanReason) (now : ℕ) (wall : SystemTime)
      → (next : Request R → AppState S → A × AppState S) (request : Request R) (app : AppState S)
      → guard.enforcement ≡ enforce
      → (signal_unauthorized_of syntax guard (peer_of request) request.headers app.bans).0
        ≡ ok (recorded why)
      → (let bans' =
            (signal_unauthorized_of syntax guard (peer_of request) request.headers app.bans).1 in
          rate_limit_middleware syntax guard now wall next request (record app { bans = bans' })
          ≡ (forbidden, record app { bans = bans' }))
  failed_login_blocks laws why now wall next request app on h =
      let ip = client_ip syntax (peer_of request) request.headers in
      let sig = signal-apply_ban_signal syntax guard (peer_of request) request.headers app.bans in
      let rate = RateLimitDecision.allowed 0 in
      let (_, felt, _) =
        recorded_then_rejected laws guard.enforcement ip unauthorized why app.bans rate
          (ap (λ r. r.0) (sym sig) ∙ h) in
      let bans' =
        (signal_unauthorized_of syntax guard (peer_of request) request.headers app.bans).1 in
      early-middleware syntax guard now wall next request (record app { bans = bans' })
        ((banned_early_iff guard ip bans').1 (
          banned-IsEnforcedBan guard ip rate bans' on
            (ap (λ r. decide_access guard.backend ip rate r.1) sig ∙ felt)))

  -- A request that the middleware answers with its 429 comes from a client that is not whitelisted
  -- and that the limiter, which is on, refused; the client is told to wait for the time that the
  -- limiter names in whole seconds, and at least one.
  pub limited_by_limiter :
      (now : ℕ) (wall : SystemTime) (next : Request R → AppState S → A × AppState S)
      → (request : Request R) (app : AppState S) (secs : ℕ)
      → (rate_limit_middleware syntax guard now wall next request app).0 ≡ too_many_requests secs
      → (guard.backend.is_whitelisted app.bans (client_ip syntax (peer_of request) request.headers)
          ≡ false)
        × (1 ≤ secs)
        × ((limiter : FixedWindowRateLimiter Text) × (left : ℕ) × (app.rate_limiter ≡ some limiter)
            × ((check (rate_limit_key syntax (peer_of request) request.headers) now limiter).0
                ≡ RateLimitDecision.limited left)
            × (secs ≡ retry_secs left))
  limited_by_limiter now wall next request app secs h =
      let ip = client_ip syntax (peer_of request) request.headers in
      let key = rate_limit_key syntax (peer_of request) request.headers in
      elim (Bool-cases (banned_early guard ip app.bans)) [
        | inl early ↦ absurd (
            forbidden-not_limited secs (
              ap (λ r. r.0) (sym (early-middleware syntax guard now wall next request app early))
              ∙ h))
        | inr late ↦
            let (away, (left, full, told)) =
              after_rate-limited guard (check_rate key now app.rate_limiter).0 next request ip wall
                (record app { rate_limiter = (check_rate key now app.rate_limiter).1 }) secs
                (ap (λ r. r.0) (sym (late-middleware syntax guard now wall next request app late))
                  ∙ h) in
            let (limiter, on, answer) = check_rate-limited key now app.rate_limiter left full in
            (away, rw told (retry_secs_pos left), (limiter, left, on, answer, told))
      ]
