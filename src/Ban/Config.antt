-- ===== src/Ban/Config.antt =====
-- crates/management-ui/src/ban.rs: the ban configuration, its gate and its parsing from the
-- environment. `exists` says which paths of the file system exist.
pub mod Laws
use surmount_server.Assoc.{is_some}
use surmount_server.Ban.{
  BanEnforcement, BanError, enforce, helper_and_exec, helper_missing, invalid_backend, invalid_bool,
  needs_nft_backend, nft_bin_missing, nft_bin_unset, not_absolute, off, parse_enforcement,
}
use surmount_server.Ban.Cidr.{WhitelistEntry, parse_whitelist_cidrs}
use surmount_server.Net.{IpSyntax, ip_eq}
use surmount_server.Prelude.{
  Bool, List, Option, Result, [], err, false, guard, if◌then◌else◌, is_empty, list_eq, nat_eq, none,
  not, ok, some, true, ◌&&◌, ◌==◌, ◌>>=◌, ◌>>◌, ◌||◌, ◌∷◌,
}
use surmount_server.Text.{Text, starts_with, text, to_ascii_lowercase, trim}

pub data BanBackendKind : Type 0 where
  memory : BanBackendKind
  nft : BanBackendKind

abbrev pub kind_beq : BanBackendKind → BanBackendKind → Bool
kind_beq memory memory = true
kind_beq nft nft = true
kind_beq _ _ = false

-- `BanBackendKind::parse`
unfoldable pub parse_kind : Text → Result BanError BanBackendKind
parse_kind raw =
    let word = to_ascii_lowercase (trim raw) in
    if word == text "" || word == text "memory" || word == text "mem"
    then ok memory
    else if word == text "nft" || word == text "nftables"
    then ok nft
    else err (invalid_backend word)

pub record BanConfig : Type 0 where
  pub enforcement : BanEnforcement
  pub backend_kind : BanBackendKind
  pub whitelist : List WhitelistEntry
  pub state_path : Option Text
  pub nft_exec_enabled : Bool
  pub nft_bin : Option Text
  pub nft_helper_sock : Option Text
  pub nft_helper_bin : Option Text

-- `Path::is_absolute`
abbrev pub is_absolute : Text → Bool
is_absolute path = starts_with (b'/' ∷ []) path

abbrev pub helper_configured : BanConfig → Bool
helper_configured c = is_some c.nft_helper_sock || is_some c.nft_helper_bin

abbrev pub nft_sync_on_enforce : BanConfig → Bool
nft_sync_on_enforce c = kind_beq c.backend_kind nft && (helper_configured c || c.nft_exec_enabled)

abbrev pub is_enforce : BanEnforcement → Bool
is_enforce enforce = true
is_enforce _ = false

module _ (exists : Text → Bool) where
  -- the socket's path has to be absolute
  abbrev check_sock : Option Text → Result BanError (Unit {0})
  check_sock none = ok tt
  check_sock (some s) = guard (not (is_empty s || not (is_absolute s))) (not_absolute s)

  -- the helper program's path has to be absolute, and to exist where there is no socket
  abbrev check_helper_bin : Option Text → Option Text → Result BanError (Unit {0})
  check_helper_bin sock none = ok tt
  check_helper_bin sock (some h) = do
    guard (not (is_empty h || not (is_absolute h))) (not_absolute h)
    guard (not (not (is_some sock) && not (exists h))) (helper_missing h)

  -- the helper's side needs `nft`
  abbrev check_helper_nft : Option Text → Result BanError (Unit {0})
  check_helper_nft none = err nft_bin_unset
  check_helper_nft (some p) =
      if not (is_empty p) && is_absolute p && exists p
      then ok tt
      else if is_absolute p
      then err (nft_bin_missing p)
      else err nft_bin_unset

  -- and so does the direct path
  abbrev check_exec_nft : Option Text → Result BanError (Unit {0})
  check_exec_nft none = err nft_bin_unset
  check_exec_nft (some p) =
      if not (is_empty p) && is_absolute p
      then guard (exists p) (nft_bin_missing p)
      else err nft_bin_unset

  unfoldable pub validate_capable : BanConfig → Result BanError (Unit {0})
  unfolding starts_with
  validate_capable c =
      if helper_configured c && c.nft_exec_enabled
      then err helper_and_exec
      else if not (kind_beq c.backend_kind nft)
      then guard (not (helper_configured c || c.nft_exec_enabled)) needs_nft_backend
      else if not (helper_configured c) && not c.nft_exec_enabled
      then ok tt
      else if not (is_enforce c.enforcement)
      then ok tt
      else if helper_configured c
      then (do
        check_sock c.nft_helper_sock
        check_helper_bin c.nft_helper_sock c.nft_helper_bin
        check_helper_nft c.nft_bin)
      else check_exec_nft c.nft_bin

-- `parse_env_bool_strict`
unfoldable pub parse_env_bool_strict : Text → Text → Result BanError Bool
parse_env_bool_strict raw var_name =
    let word = to_ascii_lowercase (trim raw) in
    if word == text "0" || word == text "false" || word == text "no" || word == text "off"
    then ok false
    else if word == text "1" || word == text "true" || word == text "yes" || word == text "on"
    then ok true
    else err (invalid_bool var_name word)

-- an optional value: unset and blank are no path
abbrev pub non_empty : Option Text → Option Text
non_empty none = none
non_empty (some s) = if is_empty (trim s) then none else some (trim s)

-- the same, and the path has to be absolute
abbrev pub absolute_path : Option Text → Result BanError (Option Text)
absolute_path value = elim (non_empty value) [
  | none ↦ ok none
  | some t ↦ if not (is_absolute t) then err (not_absolute t) else ok (some t)
]

-- a setting with a default for an unset variable
abbrev pub setting {ℓ} :
    {A : Type ℓ} → A → (Text → Result BanError A) → Option Text → Result BanError A
setting default parse none = ok default
setting default parse (some s) = parse s

-- the end of `ban_config_from_env`: the first failed variable, in the source's order, or the gate
abbrev pub assemble :
    (Text → Bool)
    → Option Text
    → Result BanError BanEnforcement
    → Result BanError BanBackendKind
    → Result BanError (List WhitelistEntry)
    → Result BanError (Option Text)
    → Result BanError Bool
    → Result BanError (Option Text)
    → Result BanError (Option Text)
    → Result BanError BanConfig
assemble exists nft_bin enforcement kind whitelist state_path exec helper sock = do
  enforcement ← enforcement
  backend_kind ← kind
  whitelist ← whitelist
  state_path ← state_path
  nft_exec_enabled ← exec
  nft_helper_bin ← helper
  nft_helper_sock ← sock
  let cfg : BanConfig = record {
    enforcement = enforcement;
    backend_kind = backend_kind;
    whitelist = whitelist;
    state_path = state_path;
    nft_exec_enabled = nft_exec_enabled;
    nft_bin = nft_bin;
    nft_helper_sock = nft_helper_sock;
    nft_helper_bin = nft_helper_bin;
  }
  validate_capable exists cfg
  ok cfg

module _ (syntax : IpSyntax) (exists : Text → Bool) where
  unfoldable pub ban_config_from_env : (Text → Option Text) → Result BanError BanConfig
  ban_config_from_env get =
      assemble exists (non_empty (get (text "SURMOUNT_BAN_NFT_BIN")))
        (setting off parse_enforcement (get (text "SURMOUNT_BAN_ENFORCEMENT")))
        (setting memory parse_kind (get (text "SURMOUNT_BAN_BACKEND")))
        (setting [] (parse_whitelist_cidrs syntax) (get (text "SURMOUNT_BAN_WHITELIST")))
        (absolute_path (get (text "SURMOUNT_BAN_STATE_PATH")))
        (setting false (λ s. parse_env_bool_strict s (text "SURMOUNT_BAN_NFT_EXEC"))
          (get (text "SURMOUNT_BAN_NFT_EXEC")))
        (absolute_path (get (text "SURMOUNT_BAN_NFT_HELPER")))
        (absolute_path (get (text "SURMOUNT_BAN_NFT_HELPER_SOCK")))
