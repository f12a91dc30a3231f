-- ===== src/Edge/Tests.antt =====
-- The theorems on the middleware at concrete inputs.
use mathlib.Core.Option
use surmount_server.Ban.Memory
use surmount_server.Assoc.{insert, lookup, retain}
use surmount_server.Ban.{
  SystemTime, after_epoch, apply_ban_signal, decide_access, enforce, recorded, unauthorized,
}
use surmount_server.Ban.Cidr.{contains_ip}
use surmount_server.Ban.Guard.{BanGuard}
use surmount_server.Ban.Memory.{MemoryBanBackend, match_whitelist, memory_backend, persist_locked}
use surmount_server.Ban.Memory.Laws.{memory_backend-laws}
use surmount_server.Ban.Samples.{
  fine_env, fresh_store, friend, neighbour, no_files, one_ban_json, one_banned,
  plain_syntax-ParsesPrinted, stranger,
}
use surmount_server.Edge.{
  AppState, Headers, Request, Response, client_ip, forbidden, from_next, rate_limit_key,
  rate_limit_middleware, retry_secs, signal_unauthorized_of, too_many_requests,
}
use surmount_server.Edge.Client.{client_ip_lem, trusted_ip}
use surmount_server.Edge.Laws.{
  behind, failed_login_blocks, forbidden_iff_IsEnforcedBan, limited_by_limiter, whitelisted_served,
}
use surmount_server.Edge.Steps.{IsEnforcedBan}
use surmount_server.Net.{IpAddr, ip_eq, localhost, plain_syntax}
use surmount_server.Prelude.{
  [], false, list_eq, nat_eq, none, ok, refl, some, true, ℕ, ◌↔◌, ◌∷◌, ◌≡◌, ◌≤◌,
}
use surmount_server.RateLimit.{FixedWindowRateLimiter, RateLimitDecision, admit, check}
use surmount_server.Text.{Text, is_whitespace, trim}

abbrev no_headers : Headers
no_headers = record { host = none; x_real_ip = none; x_forwarded_for = none }

-- a request through the proxy on the same machine for another client
abbrev proxied : IpAddr → Headers
proxied ip = record no_headers { x_real_ip = some (plain_syntax.to_string ip) }

abbrev request_of : Headers → Request (Unit {0})
request_of headers = record { peer = some localhost; headers = headers; rest = tt }

abbrev guard : BanGuard MemoryBanBackend
guard = record {
  enforcement = enforce;
  backend = memory_backend plain_syntax one_ban_json fine_env;
}

abbrev limiter : FixedWindowRateLimiter Text
limiter = record {
  max_requests = 1;
  window = 3_000_000_000;
  max_keys = 9;
  state = (plain_syntax.to_string neighbour, record { window_start = 0; count = 1 }) ∷ [];
}

-- `stranger` is banned, `friend` on the whitelist, and `neighbour` has used up its window.
abbrev app : AppState MemoryBanBackend
app = record { rate_limiter = some limiter; bans = record { inner = one_banned; disk = no_files } }

abbrev fresh_app : AppState MemoryBanBackend
fresh_app = record { rate_limiter = none; bans = fresh_store }

abbrev page : Request (Unit {0}) → AppState MemoryBanBackend → ℕ × AppState MemoryBanBackend
page request app = (200, app)

abbrev wall : SystemTime
wall = after_epoch 7

client_ip_lem_example :
    client_ip plain_syntax localhost (proxied stranger)
    ≡ trusted_ip plain_syntax localhost (proxied stranger).x_real_ip
client_ip_lem_example =
    client_ip_lem plain_syntax plain_syntax-ParsesPrinted localhost (proxied stranger)

forbidden_iff_IsEnforcedBan_example :
    (((rate_limit_middleware plain_syntax guard 5 wall page (request_of (proxied stranger)) app).0
        ≡ forbidden)
      ↔ IsEnforcedBan guard (client_ip plain_syntax localhost (proxied stranger)) app.bans)
    × ((rate_limit_middleware plain_syntax guard 5 wall page (request_of (proxied stranger)) app).0
          ≡ forbidden
        → (rate_limit_middleware plain_syntax guard 5 wall page
            (request_of (proxied stranger))
            app).1
          ≡ app)
forbidden_iff_IsEnforcedBan_example =
    forbidden_iff_IsEnforcedBan plain_syntax guard 5 wall page (request_of (proxied stranger)) app

friend_home :
    guard.backend.is_whitelisted app.bans (client_ip plain_syntax localhost (proxied friend)) ≡ true
unfolding memory_backend match_whitelist contains_ip client_ip Option.bind trim is_whitespace
friend_home = refl

friend_still_home :
    guard.backend.is_whitelisted
      (behind plain_syntax guard 5 page (request_of (proxied friend)) app).1.bans
      (client_ip plain_syntax localhost (proxied friend))
    ≡ true
unfolding memory_backend match_whitelist contains_ip client_ip Option.bind trim is_whitespace
friend_still_home = refl

abbrev friend_served : Response ℕ × AppState MemoryBanBackend
friend_served =
    rate_limit_middleware plain_syntax guard 5 wall page (request_of (proxied friend)) app

abbrev after_page : AppState MemoryBanBackend
after_page = (behind plain_syntax guard 5 page (request_of (proxied friend)) app).1

whitelisted_served_example :
    (friend_served.0 ≡ from_next 200)
    × (friend_served.1.rate_limiter ≡ after_page.rate_limiter)
    × (guard.backend.whitelist_last_used friend_served.1.bans
          (client_ip plain_syntax localhost (proxied friend))
        ≡ some wall)
    × (guard.backend.is_banned friend_served.1.bans stranger
        ≡ guard.backend.is_banned after_page.bans stranger)
    × (guard.backend.is_whitelisted friend_served.1.bans stranger
        ≡ guard.backend.is_whitelisted after_page.bans stranger)
whitelisted_served_example =
    whitelisted_served plain_syntax guard (memory_backend-laws plain_syntax one_ban_json fine_env) 5
      wall page (request_of (proxied friend)) app stranger friend_home friend_still_home

stranger_signalled :
    (signal_unauthorized_of plain_syntax guard localhost (proxied stranger) fresh_app.bans).0
    ≡ ok (recorded unauthorized)
unfolding signal_unauthorized_of apply_ban_signal memory_backend match_whitelist contains_ip
    client_ip Option.bind trim is_whitespace Memory.ban persist_locked lookup insert
    Memory.save_bans Memory.save_last_used
stranger_signalled = refl

failed_login_blocks_example :
    (let bans' =
        (signal_unauthorized_of plain_syntax guard localhost (proxied stranger) fresh_app.bans).1 in
      rate_limit_middleware plain_syntax guard 5 wall page
        (request_of (proxied stranger))
        (record fresh_app { bans = bans' })
      ≡ (forbidden, record fresh_app { bans = bans' }))
failed_login_blocks_example =
    failed_login_blocks plain_syntax guard (memory_backend-laws plain_syntax one_ban_json fine_env)
      unauthorized 5 wall page (request_of (proxied stranger)) fresh_app refl stranger_signalled

neighbour_limited :
    (rate_limit_middleware plain_syntax guard 5 wall page (request_of (proxied neighbour)) app).0
    ≡ too_many_requests 2
unfolding rate_limit_middleware memory_backend match_whitelist contains_ip Option.bind trim
    is_whitespace lookup insert retain decide_access check admit
neighbour_limited = refl

limited_by_limiter_example :
    (guard.backend.is_whitelisted app.bans (client_ip plain_syntax localhost (proxied neighbour))
      ≡ false)
    × (1 ≤ 2)
    × ((l : FixedWindowRateLimiter Text) × (left : ℕ) × (app.rate_limiter ≡ some l)
        × ((check (rate_limit_key plain_syntax localhost (proxied neighbour)) 5 l).0
            ≡ RateLimitDecision.limited left)
        × (2 ≡ retry_secs left))
limited_by_limiter_example =
    limited_by_limiter plain_syntax guard 5 wall page (request_of (proxied neighbour)) app 2
      neighbour_limited
