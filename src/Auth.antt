-- ===== src/Auth.antt =====
-- crates/management-ui/src/auth.rs: the modes of authentication, its configuration and its errors,
-- and the allowlist of keys. A set of strings is a list; a key is its text in hexadecimal, which
-- `to_hex` prints. The library `nostr` is the parameter `Nostr`.
pub mod Listen
pub mod Cookie
pub mod Session
pub mod Csrf
pub mod Nip98
pub mod Next
pub mod Samples
mod Tests
use mathlib.Core.Option
use surmount_server.Net.{ip_eq}
use surmount_server.Prelude.{
  Bool, List, Option, Result, [], any, err, false, if◌then◌else◌, is_empty, list_eq, map_err,
  nat_eq, none, not, ok, ok_or, some, true, ℕ, ◌&&◌, ◌==◌, ◌>>=◌, ◌>>◌, ◌||◌, ◌∷◌,
}
use surmount_server.Text.{Text, is_whitespace, starts_with, text, to_ascii_lowercase, trim}
use surmount_server.Text.Chars.{Bytes, non_blank, split_where_from}

pub data AuthMode : Type 0 where
  mode_off mode_nostr : AuthMode

pub data ConfigError : Type 0 where
  invalid_mode : Text → ConfigError
  missing_secret public_listen invalid_npub nsec_refused : ConfigError
  allowlist_unreadable : Text → ConfigError
  allowlist_invalid : Text → ConfigError → ConfigError

unfoldable pub parse_mode : Text → Result ConfigError AuthMode
unfolding trim to_ascii_lowercase
parse_mode raw =
    let m = to_ascii_lowercase (trim raw) in
    if m == []
      || m == text "off"
      || m == text "none"
      || m == text "disabled"
      || m == text "0"
      || m == text "false"
    then ok mode_off
    else if m == text "nostr" || m == text "on" || m == text "1" || m == text "true"
    then ok mode_nostr
    else err (invalid_mode m)

abbrev pub is_nostr : AuthMode → Bool
is_nostr mode_nostr = true
is_nostr mode_off = false

unfoldable pub mode_as_str : AuthMode → Text
mode_as_str mode_off = text "off"
mode_as_str mode_nostr = text "nostr"

pub record AuthConfig : Type 0 where
  pub mode : AuthMode
  pub allowlist : List Text
  pub session_secret : Option Bytes
  pub session_ttl_secs : ℕ
  pub public_base_url : Option Text
  pub nip98_max_skew_secs : ℕ

abbrev pub auth_off_config : AuthConfig
auth_off_config = record {
  mode = mode_off;
  allowlist = [];
  session_secret = none;
  session_ttl_secs = 86400;
  public_base_url = none;
  nip98_max_skew_secs = 300;
}

abbrev pub has_secret : Option Bytes → Bool
has_secret none = false
has_secret (some s) = not (is_empty s)

unfoldable pub validate : AuthConfig → Result ConfigError (Unit {0})
validate config =
    if is_nostr config.mode && not (has_secret config.session_secret)
    then err missing_secret
    else ok tt

pub data AuthError : Type 0 where
  malformed wrong_kind bad_signature skew url_mismatch method_mismatch not_allowlisted : AuthError
  missing_tag : Text → AuthError
  session_invalid session_expired auth_off config_error csrf_error : AuthError

unfoldable pub auth_error_kind : AuthError → Text
auth_error_kind malformed = text "malformed"
auth_error_kind wrong_kind = text "wrong_kind"
auth_error_kind bad_signature = text "bad_signature"
auth_error_kind skew = text "skew"
auth_error_kind url_mismatch = text "url_mismatch"
auth_error_kind method_mismatch = text "method_mismatch"
auth_error_kind not_allowlisted = text "not_allowlisted"
auth_error_kind (missing_tag t) = text "missing_tag"
auth_error_kind session_invalid = text "session_invalid"
auth_error_kind session_expired = text "session_expired"
auth_error_kind auth_off = text "auth_off"
auth_error_kind config_error = text "config"
auth_error_kind csrf_error = text "csrf"

pub record Event : Type 0 where
  pub kind : ℕ
  pub created_at : ℕ
  pub tags : List (List Text)
  pub pubkey : Text
  pub id : Bytes
  pub sig : Bytes

-- A `Url` is its serialization, which is what its equality compares.
pub record Nostr : Type 0 where
  pub parse_key : Text → Option Text
  pub to_bech32 : Text → Option Text
  pub verify : Event → Bool
  pub event_from_json : Text → Option Event
  pub event_from_slice : Bytes → Option Event
  pub parse_url : Text → Option Text

module _ (lib : Nostr) where
  unfoldable pub normalize_pubkey_token : Text → Result ConfigError Text
  unfolding trim to_ascii_lowercase starts_with
  normalize_pubkey_token token =
      let t = trim token in
      if is_empty t
      then err invalid_npub
      else if starts_with (text "nsec1") (to_ascii_lowercase t)
      then err nsec_refused
      else ok_or (Option.map to_ascii_lowercase (lib.parse_key t)) invalid_npub

  -- each token by `normalize_pubkey_token`, up to the first that fails
  unfoldable pub normalize_all : List Text → Result ConfigError (List Text)
  unfolding normalize_pubkey_token trim
  normalize_all [] = ok []
  normalize_all (token ∷ tokens) =
      let rest = normalize_all tokens in
      if is_empty (trim token)
      then rest
      else do key ← normalize_pubkey_token (trim token); keys ← rest; ok (key ∷ keys)

  unfoldable pub parse_allowlist : Text → Result ConfigError (List Text)
  unfolding normalize_all split_where_from is_whitespace
  parse_allowlist raw = normalize_all (split_where_from (λ c. c == b',' || is_whitespace c) [] raw)

  -- `read` is `read_to_string`
  unfoldable pub parse_allowlist_file :
      (read : Text → Option Text) → Text → Result ConfigError (List Text)
  unfolding parse_allowlist
  parse_allowlist_file read path = do
    contents ← ok_or (read path) (allowlist_unreadable path)
    map_err (allowlist_invalid path) (parse_allowlist contents)

  -- a list from the environment wins, else the file's, else none
  unfoldable pub env_or_file :
      (read : Text → Option Text) → Option Text → List Text → Result ConfigError (List Text)
  unfolding parse_allowlist_file non_blank
  env_or_file read file_path from_env =
      if not (is_empty from_env)
      then ok from_env
      else elim (non_blank file_path) [ some path ↦ parse_allowlist_file read path | none ↦ ok [] ]

  unfoldable pub resolve_allowlist :
      (read : Text → Option Text) → Text → Option Text → Result ConfigError (List Text)
  unfolding parse_allowlist env_or_file
  resolve_allowlist read env_raw file_path = do
    from_env ← parse_allowlist env_raw
    env_or_file read file_path from_env

unfoldable pub allowlist_contains : List Text → Text → Bool
unfolding to_ascii_lowercase
allowlist_contains allowlist hex_pubkey = any (λ k. k == to_ascii_lowercase hex_pubkey) allowlist

pub record VerifiedIdentity : Type 0 where
  pub hex_pubkey : Text

-- the name that a login shows: the bech32 form of the key
unfoldable pub npub : Nostr → VerifiedIdentity → Option Text
npub lib id = elim (lib.parse_key id.hex_pubkey) [ some key ↦ lib.to_bech32 key | none ↦ none ]
