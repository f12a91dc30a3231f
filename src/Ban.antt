-- ===== src/Ban.antt =====
-- crates/management-ui/src/ban.rs: decisions, signals and the interface of the ban backends.
-- An error is a constructor where the source builds a message.
pub mod Signals
pub mod Cidr
pub mod Memory
pub mod Nft
pub mod Config
pub mod Guard
pub mod Samples
mod Tests
use surmount_server.Net.{IpAddr, ip_eq}
use surmount_server.Prelude.{
  Bool, Option, Result, err, false, if◌then◌else◌, list_eq, nat_eq, not, ok, some, true, ℕ, ◌==◌,
  ◌||◌, ◌≡◌, ◌≢◌,
}
use surmount_server.RateLimit.{RateLimitDecision}
use surmount_server.Text.{Text, text, to_ascii_lowercase, trim}

pub data BanError : Type 0 where
  invalid_enforcement : Text → BanError
  invalid_backend : Text → BanError
  invalid_bool : Text → Text → BanError
  empty_whitelist_entry : BanError
  bad_ip : Text → BanError
  bad_prefix : Text → BanError
  prefix_too_long : Text → BanError
  not_absolute : Text → BanError
  helper_and_exec : BanError
  needs_nft_backend : BanError
  helper_missing : Text → BanError
  nft_bin_missing : Text → BanError
  nft_bin_unset : BanError
  set_names_empty : BanError
  read_failed : BanError
  state_corrupt : BanError
  bad_state_key : Text → BanError
  create_parent_failed : BanError
  serialize_failed : BanError
  write_failed : BanError
  rename_failed : BanError
  nft_sync_failed : Text → BanError

pub data BanEnforcement : Type 0 where
  off : BanEnforcement
  dry_run : BanEnforcement
  enforce : BanEnforcement

-- `BanEnforcement::parse`
unfoldable pub parse_enforcement : Text → Result BanError BanEnforcement
parse_enforcement raw =
    let word = to_ascii_lowercase (trim raw) in
    if word == text ""
      || word == text "off"
      || word == text "0"
      || word == text "false"
      || word == text "no"
    then ok off
    else if word == text "dry-run" || word == text "dryrun" || word == text "dry_run"
    then ok dry_run
    else if word == text "enforce"
        || word == text "on"
        || word == text "1"
        || word == text "true"
        || word == text "yes"
    then ok enforce
    else err (invalid_enforcement word)

abbrev pub applies_rejects : BanEnforcement → Bool
applies_rejects enforce = true
applies_rejects _ = false

abbrev pub records_bans : BanEnforcement → Bool
records_bans off = false
records_bans _ = true

pub data BanReason : Type 0 where
  unauthorized : BanReason
  rate_limit_escalation : BanReason

abbrev pub as_str : BanReason → Text
as_str unauthorized = text "unauthorized"
as_str rate_limit_escalation = text "rate_limit_escalation"

pub data AccessDecision : Type 0 where
  allowed : AccessDecision
  whitelisted : AccessDecision
  rate_limited : ℕ → AccessDecision
  banned : AccessDecision
  ban_candidate : BanReason → AccessDecision

pub data BanSignalOutcome : Type 0 where
  ignored_off : BanSignalOutcome
  skipped_whitelisted : BanSignalOutcome
  already_banned : BanSignalOutcome
  recorded : BanReason → BanSignalOutcome

-- Nanoseconds after or before the Unix epoch.
pub data SystemTime : Type 0 where
  after_epoch : ℕ → SystemTime
  before_epoch : ℕ → SystemTime

-- The trait `BanBackend`, over the backend's state. A call that writes returns the new state, also
-- where it fails.
pub record BanBackend (S : Type 0) : Type 0 where
  pub is_whitelisted : S → IpAddr → Bool
  pub is_banned : S → IpAddr → Bool
  pub ban : IpAddr → BanReason → S → Result BanError Bool × S
  pub touch_whitelist_last_used : IpAddr → SystemTime → S → Bool × S
  pub whitelist_last_used : S → IpAddr → Option SystemTime

-- the end of `apply_ban_signal`: what a call of `ban` reports
abbrev pub ban_outcome : BanReason → Result BanError Bool → Result BanError BanSignalOutcome
ban_outcome reason (ok wrote) = ok (if wrote then recorded reason else already_banned)
ban_outcome reason (err e) = err e

module _ {S : Type 0} (backend : BanBackend S) where
  unfoldable pub decide_access : IpAddr → RateLimitDecision → S → AccessDecision
  decide_access ip rate s =
      if backend.is_whitelisted s ip
      then whitelisted
      else if backend.is_banned s ip
      then banned
      else elim rate [
        | RateLimitDecision.allowed remaining ↦ allowed
        | RateLimitDecision.limited retry_after ↦ rate_limited retry_after
      ]

  unfoldable pub decide_ban_signal : IpAddr → BanReason → S → AccessDecision
  decide_ban_signal ip reason s =
      if backend.is_whitelisted s ip
      then whitelisted
      else if backend.is_banned s ip
      then banned
      else ban_candidate reason

  unfoldable pub apply_ban_signal :
      BanEnforcement → IpAddr → BanReason → S → Result BanError BanSignalOutcome × S
  apply_ban_signal enforcement ip reason s =
      if backend.is_whitelisted s ip
      then (ok skipped_whitelisted, s)
      else if not (records_bans enforcement)
      then (ok ignored_off, s)
      else (let (wrote, s') = backend.ban ip reason s in (ban_outcome reason wrote, s'))

-- `should_reject_banned`
unfoldable pub should_reject_banned : BanEnforcement → AccessDecision → Bool
should_reject_banned enforcement banned = applies_rejects enforcement
should_reject_banned enforcement _ = false

-- What a backend promises. A write may fail; it never touches another address or the whitelist.
pub record BackendLaws {S : Type 0} (backend : BanBackend S) : Type 0 where
  pub ban_whitelisted :
      (ip : IpAddr) (reason : BanReason) (s : S)
      → backend.is_whitelisted s ip ≡ true
      → backend.ban ip reason s ≡ (ok false, s)
  pub ban_banned :
      (ip : IpAddr) (reason : BanReason) (s : S)
      → backend.is_banned s ip ≡ true
      → backend.ban ip reason s ≡ (ok false, s)
  pub ban_wrote :
      (ip : IpAddr) (reason : BanReason) (s : S)
      → (backend.ban ip reason s).0 ≡ ok true
      → backend.is_banned (backend.ban ip reason s).1 ip ≡ true
  pub ban_new :
      (ip : IpAddr) (reason : BanReason) (s : S)
      → backend.is_whitelisted s ip ≡ false
      → backend.is_banned s ip ≡ false
      → (backend.ban ip reason s).0 ≢ ok false
  pub ban_others :
      (ip other : IpAddr) (reason : BanReason) (s : S)
      → ip ≢ other
      → backend.is_banned (backend.ban ip reason s).1 other ≡ backend.is_banned s other
  pub ban_keeps_whitelist :
      (ip other : IpAddr) (reason : BanReason) (s : S)
      → backend.is_whitelisted (backend.ban ip reason s).1 other ≡ backend.is_whitelisted s other
  pub touch_keeps :
      (ip other : IpAddr) (now : SystemTime) (s : S)
      → (backend.is_banned (backend.touch_whitelist_last_used ip now s).1 other
          ≡ backend.is_banned s other)
        × (backend.is_whitelisted (backend.touch_whitelist_last_used ip now s).1 other
            ≡ backend.is_whitelisted s other)
  pub touch_matches :
      (ip : IpAddr) (now : SystemTime) (s : S)
      → (backend.touch_whitelist_last_used ip now s).0 ≡ backend.is_whitelisted s ip
  pub touch_stamps :
      (ip : IpAddr) (now : SystemTime) (s : S)
      → backend.is_whitelisted s ip ≡ true
      → backend.whitelist_last_used (backend.touch_whitelist_last_used ip now s).1 ip ≡ some now
