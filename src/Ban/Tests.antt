-- ===== src/Ban/Tests.antt =====
-- The theorems on the ban layer at concrete inputs.
mod Stores
mod Configs
use surmount_server.Ban.Memory
use surmount_server.Assoc.{insert, lookup}
use surmount_server.Ban.{
  BackendLaws, BanBackend, applies_rejects, apply_ban_signal, banned, decide_access,
  decide_ban_signal, dry_run, enforce, recorded, should_reject_banned, unauthorized, whitelisted,
}
use surmount_server.Ban.Cidr.{WhitelistEntry, contains_ip}
use surmount_server.Ban.Cidr.Laws.{AgreesOn, contains_ip_iff}
use surmount_server.Ban.Memory.{MemoryBanBackend, match_whitelist, memory_backend, persist_locked}
use surmount_server.Ban.Memory.Laws.{memory_backend-laws}
use surmount_server.Ban.Samples.{fine_env, fresh_store, friend, neighbour, one_ban_json, stranger}
use surmount_server.Ban.Signals.{
  Fits, decision-Fits-outcome, recorded_then_rejected, signals, whitelisted_never_banned,
}
use surmount_server.Net.{ip_eq, plain_syntax, v4}
use surmount_server.Prelude.{[], arith, list_eq, nat_eq, ok, refl, true, ◌↔◌, ◌∷◌, ◌≡◌}
use surmount_server.RateLimit.{RateLimitDecision}

abbrev backend : BanBackend MemoryBanBackend
backend = memory_backend plain_syntax one_ban_json fine_env

laws : BackendLaws backend
laws = memory_backend-laws plain_syntax one_ban_json fine_env

friend_home : backend.is_whitelisted fresh_store friend ≡ true
unfolding memory_backend match_whitelist contains_ip
friend_home = refl

whitelisted_never_banned_example :
    (backend.is_banned
        (signals backend enforce
          ((stranger, unauthorized) ∷ (friend, unauthorized) ∷ [])
          fresh_store)
        friend
      ≡ backend.is_banned fresh_store friend)
    × (decide_access backend friend (RateLimitDecision.limited 5) (
          signals backend enforce
            ((stranger, unauthorized) ∷ (friend, unauthorized) ∷ [])
            fresh_store)
        ≡ whitelisted)
whitelisted_never_banned_example =
    whitelisted_never_banned laws enforce ((stranger, unauthorized) ∷ (friend, unauthorized) ∷ [])
      friend (RateLimitDecision.limited 5) fresh_store friend_home

stranger_recorded :
    (apply_ban_signal backend enforce stranger unauthorized fresh_store).0
    ≡ ok (recorded unauthorized)
unfolding apply_ban_signal memory_backend match_whitelist contains_ip Memory.ban persist_locked
    lookup insert Memory.save_bans Memory.save_last_used
stranger_recorded = refl

recorded_then_rejected_example :
    (unauthorized ≡ unauthorized)
    × (decide_access backend stranger
          (RateLimitDecision.allowed 5)
          (apply_ban_signal backend enforce stranger unauthorized fresh_store).1
        ≡ banned)
    × (should_reject_banned enforce (
          decide_access backend stranger
            (RateLimitDecision.allowed 5)
            (apply_ban_signal backend enforce stranger unauthorized fresh_store).1)
        ≡ applies_rejects enforce)
recorded_then_rejected_example =
    recorded_then_rejected laws enforce stranger unauthorized unauthorized fresh_store
      (RateLimitDecision.allowed 5) stranger_recorded

decision-Fits-outcome_example :
    Fits
      (decide_ban_signal backend stranger unauthorized fresh_store)
      dry_run
      unauthorized
      fresh_store
      (apply_ban_signal backend dry_run stranger unauthorized fresh_store)
decision-Fits-outcome_example = decision-Fits-outcome laws dry_run stranger unauthorized fresh_store

-- 198.51.100.0/24
abbrev block : WhitelistEntry
block = record { network = v4 0xc6336400; prefix_len = 24; label = [] }

contains_ip_iff_example : (contains_ip block neighbour ≡ true) ↔ AgreesOn 24 block.network neighbour
contains_ip_iff_example = contains_ip_iff block neighbour (omega arith) (omega arith)
