-- ===== src/Edge.antt =====
-- crates/management-ui/src/main.rs: the rate limit and ban middleware in front of every route, and the
-- hook for failed logins. The router behind it is the function `next`.
pub mod Client
pub mod Steps
pub mod Laws
mod Tests
use mathlib.Core.Option
use surmount_server.Ban.{
  AccessDecision, BanError, BanSignalOutcome, SystemTime, applies_rejects, rate_limited,
  should_reject_banned, whitelisted,
}
use surmount_server.Ban.Guard.{BanGuard, decide, on_request_allowed, signal_unauthorized}
use surmount_server.ClientIp.{client_ip_for_rate_limit}
use surmount_server.Net.{IpAddr, IpSyntax, ip_eq, is_unspecified, v4}
use surmount_server.Prelude.{
  Bool, List, Option, Result, [], guard, if◌then◌else◌, list_eq, ltb, nat_eq, none, not, ok, some,
  true, ℕ, ◌&&◌, ◌-◌, ◌/◌, ◌>>=◌, ◌>>◌,
}
use surmount_server.RateLimit.{FixedWindowRateLimiter, RateLimitDecision, check, u32_mod}
use surmount_server.Redirect.Location.{
  as_u16, https_port_for_redirect, pass_through, permanent_redirect308, redirect,
  redirect_http_to_https,
}
use surmount_server.Text.{Text, text}

abbrev pub u32_max : ℕ
u32_max = u32_mod - 1

abbrev pub nanos_per_sec : ℕ
nanos_per_sec = 1_000_000_000

-- the three headers that are read, where they are text
pub record Headers : Type 0 where
  pub host : Option Text
  pub x_real_ip : Option Text
  pub x_forwarded_for : Option Text

-- The peer is the `ConnectInfo` of a TCP connection; a QUIC connection has none.
pub record Request (R : Type 0) : Type 0 where
  pub peer : Option IpAddr
  pub headers : Headers
  pub rest : R

pub data Response (A : Type 0) : Type 0 where
  forbidden : Response A
  too_many_requests : ℕ → Response A
  from_next : A → Response A

-- The parts of `AppState` that the middleware reads and writes.
pub record AppState (S : Type 0) : Type 0 where
  pub rate_limiter : Option (FixedWindowRateLimiter Text)
  pub bans : S

-- 0.0.0.0, where no peer is known
abbrev pub peer_of : {R : Type 0} → Request R → IpAddr
peer_of request = Option.get_or request.peer (v4 0)

module _ (syntax : IpSyntax) where
  unfoldable pub rate_limit_key : IpAddr → Headers → Text
  unfolding client_ip_for_rate_limit
  rate_limit_key addr headers =
      client_ip_for_rate_limit syntax addr headers.x_real_ip headers.x_forwarded_for

  -- the key read back as an address, or the peer
  unfoldable pub client_ip : IpAddr → Headers → IpAddr
  unfolding rate_limit_key
  client_ip addr headers = Option.get_or (syntax.parse (rate_limit_key addr headers)) addr

-- the limiter's answer and the limiter after it, or all allowed where it is off
unfoldable pub check_rate :
    Text
    → ℕ
    → Option (FixedWindowRateLimiter Text)
    → RateLimitDecision × Option (FixedWindowRateLimiter Text)
unfolding check
check_rate key now none = (RateLimitDecision.allowed u32_max, none)
check_rate key now (some limiter) =
    let (rate, limiter') = check key now limiter in (rate, some limiter')

-- `retry_after.as_secs().max(1)`
abbrev pub retry_secs : ℕ → ℕ
retry_secs retry_after =
    if ltb (retry_after / nanos_per_sec) 1 then 1 else retry_after / nanos_per_sec

module _ {S : Type 0} (guard : BanGuard S) where
  -- an enforced ban, found before the limiter counts the request
  abbrev pub banned_early : IpAddr → S → Bool
  banned_early ip bans =
      applies_rejects guard.enforcement
      && not (guard.backend.is_whitelisted bans ip)
      && guard.backend.is_banned bans ip

module _ {S R A : Type 0} (guard : BanGuard S) where
  -- What is left once a decision is made: `wall` is the time of `SystemTime::now`, and the router
  -- behind may change the state before a whitelisted address is stamped.
  abbrev respond :
      AccessDecision
      → (Request R → AppState S → A × AppState S)
      → Request R
      → IpAddr
      → SystemTime
      → AppState S
      → Response A × AppState S
  respond (rate_limited retry_after) next request ip wall app =
      (too_many_requests (retry_secs retry_after), app)
  respond whitelisted next request ip wall app =
      let (a, app') = next request app in
      (from_next a, record app' { bans = on_request_allowed guard ip wall app'.bans })
  respond _ next request ip wall app = (let (a, app') = next request app in (from_next a, app'))

  -- the end of the middleware: `rate` is the limiter's answer, which `app` already holds
  unfoldable pub after_rate :
      RateLimitDecision
      → (Request R → AppState S → A × AppState S)
      → Request R
      → IpAddr
      → SystemTime
      → AppState S
      → Response A × AppState S
  unfolding decide should_reject_banned on_request_allowed
  after_rate rate next request ip wall app =
      let decision = decide guard ip rate app.bans in
      if should_reject_banned guard.enforcement decision
      then (forbidden, app)
      else respond decision next request ip wall app

module _ {S R A : Type 0} (syntax : IpSyntax) (guard : BanGuard S) where
  unfoldable pub rate_limit_middleware :
      ℕ
      → SystemTime
      → (Request R → AppState S → A × AppState S)
      → Request R
      → AppState S
      → Response A × AppState S
  unfolding client_ip check_rate after_rate
  rate_limit_middleware now wall next request app =
      let addr = peer_of request in
      let key = rate_limit_key syntax addr request.headers in
      let ip = client_ip syntax addr request.headers in
      if banned_early guard ip app.bans
      then (forbidden, app)
      else (let (rate, limiter) = check_rate key now app.rate_limiter in
          after_rate guard rate next request ip wall (record app { rate_limiter = limiter }))

module _ {S : Type 0} (syntax : IpSyntax) (guard : BanGuard S) where
  -- `signal_unauthorized` of the request context
  unfoldable pub signal_unauthorized_of :
      IpAddr → Headers → S → Result BanError BanSignalOutcome × S
  unfolding client_ip signal_unauthorized
  signal_unauthorized_of addr headers bans =
      let (r, bans') = signal_unauthorized guard (client_ip syntax addr headers) bans in
      ((r >>= λ d. ok d.1), bans')

  unfoldable pub signal_unauthorized_known_peer : IpAddr → Headers → S → S
  unfolding signal_unauthorized_of
  signal_unauthorized_known_peer addr headers bans =
      if is_unspecified addr then bans else (signal_unauthorized_of addr headers bans).1

-- The answer of the plain HTTP listener: the redirect with its status, or 404.
pub data UpgradeResponse : Type 0 where
  permanent : ℕ → Text → UpgradeResponse
  not_found : UpgradeResponse

module _ (syntax : IpSyntax) where
  -- `http_redirect_handler`, with the configuration's fields that it reads; a missing path is `/`
  unfoldable pub http_redirect_handler :
      ℕ → List Text → Text → Text → Headers → Option Text → UpgradeResponse
  unfolding redirect_http_to_https
  http_redirect_handler listen_port allowed_hosts primary_domain services_hostname headers path =
      elim (redirect_http_to_https syntax true (Option.get_or headers.host [])
        (Option.get_or path (text "/")) (https_port_for_redirect listen_port) allowed_hosts
        primary_domain services_hostname) [
          | redirect location ↦ permanent (as_u16 permanent_redirect308) location
          | pass_through ↦ not_found
        ]
