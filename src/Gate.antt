-- ===== src/Gate.antt =====
-- crates/management-ui/src/main.rs: who a request of the console comes from, and what the gate in
-- front of its routes answers. The router behind is the function `next`.
pub mod Login
pub mod Forgery
pub mod Laws
pub mod Sessions
pub mod Remembered
mod Tests
use surmount_server.Auth.{
  AuthConfig, AuthError, Nostr, VerifiedIdentity, auth_off, bad_signature, config_error, is_nostr,
  malformed, method_mismatch, not_allowlisted, session_expired, session_invalid, skew, url_mismatch,
  wrong_kind,
}
use surmount_server.Auth.Cookie.{cookie_value, session_cookie_name}
use surmount_server.Auth.Next.{is_html_path, is_public_path}
use surmount_server.Auth.Nip98.{
  Base64, absolute_request_url, parse_event_from_auth_header, verify_nip98_event_unlisted,
}
use surmount_server.Auth.Session.{Sealing, SessionPayload, decode_session_cookie}
use surmount_server.Ban.Guard.{BanGuard}
use surmount_server.Console.{
  ConsoleAccountFile, console_login_accepted, is_administrator, resolve_console_principal,
}
use surmount_server.Console.Store.{StoreError}
use surmount_server.Edge.{Headers, signal_unauthorized_of}
use surmount_server.Net.{IpAddr, IpSyntax, ip_eq, v4}
use surmount_server.Prelude.{
  Bool, Option, Result, [], err, false, guard, if◌then◌else◌, list_eq, ltb, map_err, nat_eq, none,
  not, ok, ok_or, some, true, ℕ, ◌%◌, ◌&&◌, ◌++◌, ◌+◌, ◌-◌, ◌/◌, ◌==◌, ◌>>=◌, ◌>>◌, ◌||◌, ◌∷◌,
}
use surmount_server.Redirect.{request_authority_host}
use surmount_server.Text.{Text, starts_with, text, to_ascii_lowercase}
use surmount_server.Text.Chars.{Bytes, as_bytes, is_ascii_alphanumeric}

pub record AuthHeaders : Type 0 where
  pub edge : Headers
  pub cookie : Option Text
  pub authorization : Option Text
  pub csrf_token : Option Text

pub record AuthRequest (R : Type 0) : Type 0 where
  pub peer : Option IpAddr
  pub method : Text
  pub path : Text
  pub path_and_query : Option Text
  pub uri_host : Option Text
  pub headers : AuthHeaders
  pub rest : R

-- What the gate reads: its configuration, the libraries, the time in seconds, and the map of
-- accounts as the two reads of its file find it. The proxies say which requests they take.
pub record Portal (Mac : Type 0) : Type 0 where
  pub config : AuthConfig
  pub is_https : Bool
  pub nostr : Nostr
  pub base64 : Base64
  pub sealing : Sealing Mac
  pub now_unix : ℕ
  pub login_map : Result StoreError ConsoleAccountFile
  pub role_map : Result StoreError ConsoleAccountFile
  pub vaultwarden_takes : Text → Bool
  pub splora_takes : Text → Text → Bool

abbrev pub request_scheme : {Mac : Type 0} → Portal Mac → Text
request_scheme portal = if portal.is_https then text "https" else text "http"

abbrev pub get_or {ℓ} : {A : Type ℓ} → Option A → A → A
get_or none a = a
get_or (some b) a = b

unfoldable pub session_of : AuthHeaders → Option Text
unfolding cookie_value
session_of headers = elim headers.cookie [
  | some header ↦ cookie_value header session_cookie_name
  | none ↦ none
]

-- the secret, where it is not empty
abbrev pub usable_secret : Option Bytes → Option Bytes
usable_secret none = none
usable_secret (some []) = none
usable_secret (some (b ∷ secret)) = some (b ∷ secret)

-- An expired or invalid session gives the event a chance; any other error ends here.
unfoldable pub after_session :
    Result AuthError SessionPayload
    → Result AuthError VerifiedIdentity
    → Result AuthError VerifiedIdentity
after_session (ok payload) event = ok (record { hex_pubkey = payload.sub })
after_session (err session_expired) event = event
after_session (err session_invalid) event = event
after_session (err e) event = err e

module _ {Mac : Type 0} (portal : Portal Mac) where
  -- the second way in: a signed event on the request itself
  unfoldable pub identity_from_event : AuthHeaders → Text → Text → Result AuthError VerifiedIdentity
  unfolding parse_event_from_auth_header absolute_request_url verify_nip98_event_unlisted
      console_login_accepted
  identity_from_event headers method path_and_query = do
    auth_hdr ← ok_or headers.authorization malformed
    event ← parse_event_from_auth_header portal.nostr portal.base64 auth_hdr
    identity ←
        verify_nip98_event_unlisted portal.nostr event
          (absolute_request_url portal.config.public_base_url (request_scheme portal)
            (get_or headers.edge.host (text "127.0.0.1")) path_and_query)
          method portal.now_unix portal.config.nip98_max_skew_secs
    accounts ← map_err (λ e. config_error) portal.login_map
    guard (console_login_accepted identity.hex_pubkey portal.config.allowlist accounts)
        not_allowlisted
    ok identity

  unfoldable pub identity_with_secret :
      Bytes → AuthHeaders → Text → Text → Result AuthError VerifiedIdentity
  unfolding session_of decode_session_cookie after_session identity_from_event
  identity_with_secret secret headers method path_and_query = elim (session_of headers) [
    | some val ↦
        after_session (decode_session_cookie portal.nostr portal.sealing val secret portal.now_unix)
          (identity_from_event headers method path_and_query)
    | none ↦ identity_from_event headers method path_and_query
  ]

  unfoldable pub identity_from_request :
      AuthHeaders → Text → Text → Result AuthError VerifiedIdentity
  unfolding identity_with_secret
  identity_from_request headers method path_and_query =
      if not (is_nostr portal.config.mode)
      then err auth_off
      else elim (usable_secret portal.config.session_secret) [
        | some secret ↦ identity_with_secret secret headers method path_and_query
        | none ↦ err config_error
      ]

unfoldable pub path_requires_administrator : Text → Text → Bool
unfolding is_public_path starts_with
path_requires_administrator method path =
    if is_public_path path
    then false
    else if path == text "/mail"
    then false
    else if starts_with (text "/api/v1/auth/") path
    then false
    else if path == text "/api/v1/accounts/password"
        && (method == text "POST" || method == text "PATCH")
    then false
    else if method == text "POST" && path == text "/api/v1/accounts/nwc"
    then false
    else true

-- `{b:02X}`
abbrev pub hex_digit_upper : ℕ → ℕ
hex_digit_upper n = if ltb n 10 then b'0' + n else b'A' + (n - 10)

unfoldable pub encode_byte : ℕ → Text
unfolding is_ascii_alphanumeric
encode_byte b =
    if is_ascii_alphanumeric b || b == b'-' || b == b'_' || b == b'.' || b == b'~' || b == b'/'
    then b ∷ []
    else b'%' ∷ hex_digit_upper (b / 16) ∷ hex_digit_upper (b % 16) ∷ []

abbrev pub concat_map : (ℕ → Text) → Bytes → Text
concat_map f [] = []
concat_map f (b ∷ bs) = f b ++ concat_map f bs

unfoldable pub urlencoding_path : Text → Text
unfolding as_bytes encode_byte
urlencoding_path s = concat_map encode_byte (as_bytes s)

-- The answers of the gate; whether a page or JSON is sent stands first.
pub data GateResponse (A : Type 0) : Type 0 where
  passed : A → GateResponse A
  map_unavailable : Bool → GateResponse A
  administrators_only : Bool → GateResponse A
  login_page : Text → GateResponse A
  unauthorized : AuthError → GateResponse A

-- credentials that were presented, and not merely absent
unfoldable pub is_credential_failure : AuthError → Bool
is_credential_failure bad_signature = true
is_credential_failure not_allowlisted = true
is_credential_failure wrong_kind = true
is_credential_failure skew = true
is_credential_failure url_mismatch = true
is_credential_failure method_mismatch = true
is_credential_failure _ = false

unfoldable pub presents_event : AuthHeaders → Bool
unfolding to_ascii_lowercase starts_with
presents_event headers = elim headers.authorization [
  | some h ↦ starts_with (text "nostr ") (to_ascii_lowercase h) || starts_with (text "Nostr ") h
  | none ↦ false
]

module _ {Mac R : Type 0} (portal : Portal Mac) where
  -- requests that no identity is asked for
  unfoldable pub is_open : AuthRequest R → Bool
  unfolding is_public_path request_authority_host
  is_open request =
      not (is_nostr portal.config.mode)
      || is_public_path request.path
      || portal.vaultwarden_takes request.path
      || portal.splora_takes (request_authority_host request.headers.edge.host request.uri_host)
          request.path

module _ {S R A : Type 0} (syntax : IpSyntax) (guard : BanGuard S) where
  unfoldable pub refuse : AuthError → AuthRequest R → S → GateResponse A × S
  unfolding presents_event is_credential_failure signal_unauthorized_of is_html_path
      urlencoding_path
  refuse error request bans =
      let response =
        if is_html_path request.path
        then login_page
            (text "/login?next=" ++ urlencoding_path (get_or request.path_and_query request.path))
        else unauthorized error in
      if presents_event request.headers && is_credential_failure error
      then (
        response,
        (signal_unauthorized_of syntax guard (get_or request.peer (v4 0)) request.headers.edge
            bans).1,
      )
      else (response, bans)

module _ {Mac S R A : Type 0} (portal : Portal Mac) where
  unfoldable pub admit_identity :
      VerifiedIdentity → (AuthRequest R → S → A × S) → AuthRequest R → S → GateResponse A × S
  unfolding resolve_console_principal path_requires_administrator is_html_path is_administrator
  admit_identity id next request bans = elim portal.role_map [
    | err e ↦ (map_unavailable (is_html_path request.path), bans)
    | ok accounts ↦
        if path_requires_administrator request.method request.path
          && not (
              is_administrator
                (resolve_console_principal id.hex_pubkey portal.config.allowlist accounts))
        then (administrators_only (is_html_path request.path), bans)
        else (let (a, bans') = next request bans in (passed a, bans'))
  ]

module _ {Mac S R A : Type 0} (portal : Portal Mac) (syntax : IpSyntax) (guard : BanGuard S) where
  unfoldable pub auth_middleware :
      (AuthRequest R → S → A × S) → AuthRequest R → S → GateResponse A × S
  unfolding is_open identity_from_request admit_identity refuse
  auth_middleware next request bans =
      if is_open portal request
      then (let (a, bans') = next request bans in (passed a, bans'))
      else elim (identity_from_request portal request.headers request.method
          (get_or request.path_and_query request.path)) [
            | ok id ↦ admit_identity portal id next request bans
            | err e ↦ refuse syntax guard e request bans
          ]
