-- ===== src/Ban/Tests/Configs.antt =====
-- The theorems on the configuration and the guard at concrete inputs.
use surmount_server.Ban.Memory
use surmount_server.Ban.{enforce, parse_enforcement}
use surmount_server.Ban.Config.{
  BanConfig, ban_config_from_env, helper_configured, is_absolute, kind_beq, nft,
  parse_env_bool_strict, parse_kind, validate_capable,
}
use surmount_server.Ban.Config.Laws.{Mutates, validate_capable_sound}
use surmount_server.Ban.Guard.{from_config, nft_backend_of, nft_exec}
use surmount_server.Ban.Samples.{no_files, one_ban_json}
use surmount_server.Net.{ip_eq, plain_syntax}
use surmount_server.Prelude.{
  Bool, Option, [], false, if◌then◌else◌, list_eq, nat_eq, none, ok, refl, some, true, ◌&&◌, ◌==◌,
  ◌≡◌,
}
use surmount_server.Text.{Text, text, to_ascii_lowercase, trim}

abbrev everywhere : Text → Bool
everywhere path = true

-- enforcing with the nft backend through the program at /n
abbrev direct : BanConfig
direct = record {
  enforcement = enforce;
  backend_kind = nft;
  whitelist = [];
  state_path = none;
  nft_exec_enabled = true;
  nft_bin = some (text "/n");
  nft_helper_sock = none;
  nft_helper_bin = none;
}

direct_passes : validate_capable everywhere direct ≡ ok tt
unfolding validate_capable
direct_passes = refl

validate_capable_sound_example :
    ((helper_configured direct && direct.nft_exec_enabled) ≡ false)
    × (kind_beq direct.backend_kind nft ≡ false
        → (helper_configured direct ≡ false) × (direct.nft_exec_enabled ≡ false))
    × (Mutates everywhere direct
        → (p : Text) × (direct.nft_bin ≡ some p) × (is_absolute p ≡ true) × (everywhere p ≡ true))
validate_capable_sound_example = validate_capable_sound everywhere direct direct_passes

abbrev settings : Text → Option Text
settings name =
    if name == text "SURMOUNT_BAN_ENFORCEMENT"
    then some (text "enforce")
    else if name == text "SURMOUNT_BAN_BACKEND"
    then some (text "nft")
    else if name == text "SURMOUNT_BAN_NFT_EXEC"
    then some (text "1")
    else if name == text "SURMOUNT_BAN_NFT_BIN"
    then some (text "/n")
    else none

settings_read : ban_config_from_env plain_syntax everywhere settings ≡ ok direct
unfolding ban_config_from_env parse_enforcement parse_kind parse_env_bool_strict validate_capable
    trim to_ascii_lowercase
settings_read = refl

direct_built :
    from_config plain_syntax one_ban_json false direct no_files
    ≡ ok (
      enforce,
      nft_backend_of (Memory.new plain_syntax one_ban_json [] no_files) (nft_exec (text "/n")) true,
    )
unfolding from_config
direct_built = refl
