-- ===== src/Gate/Login.antt =====
-- crates/management-ui/src/main.rs: the routes that open and close a session.
-- How a body reads as JSON: not at all, with an `event`, which is a string or is written out, or as another
-- value written out.
use surmount_server.Auth.{
  AuthError, Event, Nostr, VerifiedIdentity, config_error, is_nostr, malformed, mode_as_str,
  not_allowlisted,
}
use surmount_server.Auth.Cookie.{csrf_set_cookie_header, session_set_cookie_header}
use surmount_server.Auth.Nip98.{
  Base64, absolute_request_url, decode_event_b64_or_json, nip98_kind, parse_event_from_auth_header,
  verify_nip98_event_unlisted,
}
use surmount_server.Auth.Session.{encode_session_cookie}
use surmount_server.Ban.Guard.{BanGuard}
use surmount_server.Console.{RequestPrincipal, console_login_accepted, resolve_console_principal}
use surmount_server.Edge.{signal_unauthorized_known_peer}
use surmount_server.Gate.{AuthHeaders, Portal, get_or, request_scheme, usable_secret}
use surmount_server.Net.{IpAddr, IpSyntax, ip_eq}
use surmount_server.Prelude.{
  Bool, List, Option, Result, [], err, if◌then◌else◌, list_eq, ltb, nat_eq, none, not, ok, ok_or,
  some, ℕ, ◌+◌, ◌-◌, ◌>>=◌, ◌^◌, ◌||◌, ◌∷◌,
}
use surmount_server.Text.{Text, starts_with, text, to_ascii_lowercase}
use surmount_server.Text.Chars.{Bytes}

pub data BodyShape : Type 0 where
  no_json : BodyShape
  with_event : Text → BodyShape
  without_event : Text → BodyShape

-- Further libraries: the shape and the text of a body, the bytes of a random token, the printing of a
-- number, and the values that a header takes.
pub record Wire : Type 0 where
  pub body_shape : Bytes → BodyShape
  pub from_utf8 : Bytes → Option Text
  pub random_token : Option Text
  pub print : ℕ → Text
  pub is_header_value : Text → Bool

unfoldable pub names_event : Text → Bool
unfolding to_ascii_lowercase starts_with
names_event auth =
    starts_with (text "nostr ") (to_ascii_lowercase auth) || starts_with (text "Nostr ") auth

module _ (nostr : Nostr) (base64 : Base64) (wire : Wire) where
  unfoldable pub event_from_body : Bytes → Result AuthError Event
  unfolding decode_event_b64_or_json
  event_from_body [] = err malformed
  event_from_body (b ∷ body) = elim (wire.body_shape (b ∷ body)) [
    | with_event t ↦ decode_event_b64_or_json nostr base64 t
    | without_event t ↦ decode_event_b64_or_json nostr base64 t
    | no_json ↦ (do
      s ← ok_or (wire.from_utf8 (b ∷ body)) malformed
      decode_event_b64_or_json nostr base64 s)
  ]

  unfoldable pub resolve_session_event : AuthHeaders → Bytes → Result AuthError Event
  unfolding names_event parse_event_from_auth_header event_from_body
  resolve_session_event headers body = elim headers.authorization [
    | some auth ↦
        if names_event auth
        then parse_event_from_auth_header nostr base64 auth
        else event_from_body body
    | none ↦ event_from_body body
  ]

pub data LoginResponse : Type 0 where
  mode_is_off secret_not_configured accounts_unavailable : LoginResponse
  login_failed : AuthError → LoginResponse
  -- the key, its principal, the token, and the cookies that are set
  session_created : VerifiedIdentity → RequestPrincipal → Text → List Text → LoginResponse

abbrev pub settable : Wire → List Text → List Text
settable wire [] = []
settable wire (v ∷ vs) =
    let rest = settable wire vs in if wire.is_header_value v then v ∷ rest else rest

abbrev pub u64_max : ℕ
u64_max = 2 ^ 64 - 1

abbrev pub saturating_add : ℕ → ℕ → ℕ
saturating_add a b = if ltb u64_max (a + b) then u64_max else a + b

-- What of a login is answered without a signal, and what is signalled before the answer.
pub data LoginStep : Type 0 where
  answered_as : LoginResponse → LoginStep
  signalled : AuthError → LoginStep

module _ {Mac : Type 0} (portal : Portal Mac) where
  unfoldable pub session_url : AuthHeaders → Text
  unfolding absolute_request_url
  session_url headers =
      absolute_request_url portal.config.public_base_url (request_scheme portal)
        (get_or headers.edge.host (text "127.0.0.1")) (text "/api/v1/auth/session")

module _ {Mac : Type 0} (portal : Portal Mac) (wire : Wire) where
  -- the session of a key that was accepted
  unfoldable pub open_session : Bytes → VerifiedIdentity → LoginStep
  unfolding encode_session_cookie session_set_cookie_header csrf_set_cookie_header
      resolve_console_principal
  open_session secret verified = elim portal.role_map [
    | err e ↦ answered_as accounts_unavailable
    | ok accounts ↦
        elim (encode_session_cookie portal.sealing
          (record {
            sub = verified.hex_pubkey;
            exp = saturating_add portal.now_unix portal.config.session_ttl_secs;
          })
          secret) [
            | err e ↦ answered_as (login_failed e)
            | ok cookie_val ↦ elim wire.random_token [
              | none ↦ answered_as (login_failed config_error)
              | some token ↦ answered_as (
                  session_created verified
                    (resolve_console_principal verified.hex_pubkey portal.config.allowlist accounts)
                    token
                    (settable wire (
                      session_set_cookie_header wire.print cookie_val portal.config.session_ttl_secs
                        portal.is_https
                      ∷ csrf_set_cookie_header wire.print token portal.config.session_ttl_secs
                          portal.is_https
                      ∷ [])))
            ]
          ]
  ]

  unfoldable pub accept_verified : Bytes → VerifiedIdentity → LoginStep
  unfolding open_session console_login_accepted
  accept_verified secret verified = elim portal.login_map [
    | err e ↦ answered_as accounts_unavailable
    | ok accounts ↦
        if console_login_accepted verified.hex_pubkey portal.config.allowlist accounts
        then open_session secret verified
        else signalled not_allowlisted
  ]

  unfoldable pub verify_login : AuthHeaders → Bytes → Result AuthError VerifiedIdentity
  unfolding resolve_session_event verify_nip98_event_unlisted session_url
  verify_login headers body = do
    event ← resolve_session_event portal.nostr portal.base64 wire headers body
    verify_nip98_event_unlisted portal.nostr event (session_url portal headers) (text "POST")
        portal.now_unix portal.config.nip98_max_skew_secs

  unfoldable pub login_step : AuthHeaders → Bytes → LoginStep
  unfolding verify_login accept_verified
  login_step headers body =
      if not (is_nostr portal.config.mode)
      then answered_as mode_is_off
      else elim (usable_secret portal.config.session_secret) [
        | none ↦ answered_as secret_not_configured
        | some secret ↦ elim (verify_login headers body) [
          | err e ↦ signalled e
          | ok verified ↦ accept_verified secret verified
        ]
      ]

module _ {Mac S : Type 0} (portal : Portal Mac) (wire : Wire) (syntax : IpSyntax)
    (guard : BanGuard S) where
  -- A login that fails is a signal against its client.
  unfoldable pub auth_session_create : IpAddr → AuthHeaders → Bytes → S → LoginResponse × S
  unfolding login_step signal_unauthorized_known_peer
  auth_session_create addr headers body bans = elim (login_step portal wire headers body) [
    | answered_as r ↦ (r, bans)
    | signalled e ↦
        (login_failed e, signal_unauthorized_known_peer syntax guard addr headers.edge bans)
  ]

pub record ChallengeResponse : Type 0 where
  pub challenge_method : Text
  pub challenge_url : Text
  pub created_at_window_secs : ℕ
  pub challenge_kind : ℕ
  pub auth_mode : Text

unfoldable pub auth_challenge : {Mac : Type 0} → Portal Mac → AuthHeaders → ChallengeResponse
unfolding session_url mode_as_str
auth_challenge portal headers = record {
  challenge_method = text "POST";
  challenge_url = session_url portal headers;
  created_at_window_secs = portal.config.nip98_max_skew_secs;
  challenge_kind = nip98_kind;
  auth_mode = mode_as_str portal.config.mode;
}
