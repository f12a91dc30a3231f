-- ===== src/Gate/Forgery.antt =====
-- crates/management-ui/src/main.rs: the guard of the routes that change something, and the routes that it
-- stands in front of.
pub mod Laws
-- `body_csrf` is the field `csrf` of a body in JSON, where it is a string.
use surmount_server.Assoc.{is_some}
use surmount_server.Auth.{AuthError, csrf_error, npub}
use surmount_server.Auth.Cookie.{
  cookie_value, csrf_clear_cookie_header, csrf_cookie_name, session_clear_cookie_header,
}
use surmount_server.Auth.Csrf.{verify_csrf_double_submit, verify_csrf_session_bound}
use surmount_server.Auth.Session.{decode_session_cookie}
use surmount_server.Console.{RequestPrincipal, resolve_console_principal}
use surmount_server.Console.Store.{StoreError}
use surmount_server.Gate.{
  AuthHeaders, Portal, get_or, identity_from_request, session_of, usable_secret,
}
use surmount_server.Gate.Login.{settable}
use surmount_server.Net.{ip_eq}
use surmount_server.Prelude.{
  Bool, List, Option, Result, [], err, false, if◌then◌else◌, list_eq, nat_eq, none, not, ok, some,
  true, ◌&&◌, ◌>>=◌, ◌>>◌, ◌∷◌,
}
use surmount_server.Text.{Text, text}
use surmount_server.Text.Chars.{Bytes}

abbrev pub or_body : Option Text → Option Text → Option Text
or_body (some t) body_csrf = some t
or_body none body_csrf = body_csrf

unfoldable pub csrf_cookie_of : AuthHeaders → Option Text
unfolding cookie_value
csrf_cookie_of headers = elim headers.cookie [
  | some header ↦ cookie_value header csrf_cookie_name
  | none ↦ none
]

-- an error is answered 403
unfoldable pub require_csrf_double_submit :
    AuthHeaders → Option Text → Bool → Result AuthError (Unit {0})
unfolding session_of csrf_cookie_of verify_csrf_double_submit
require_csrf_double_submit headers body_csrf force =
    if not force && not (is_some (session_of headers))
    then ok tt
    else verify_csrf_double_submit (csrf_cookie_of headers) (or_body headers.csrf_token body_csrf)

module _ {Mac : Type 0} (portal : Portal Mac) where
  unfoldable pub csrf_of_session :
      Text → Bytes → AuthHeaders → Option Text → Result AuthError (Unit {0})
  unfolding decode_session_cookie verify_csrf_session_bound
  csrf_of_session session secret headers body_csrf =
      elim (decode_session_cookie portal.nostr portal.sealing session secret portal.now_unix) [
        | err e ↦ ok tt
        | ok payload ↦
            verify_csrf_session_bound portal.sealing (some session) secret
              (or_body headers.csrf_token body_csrf)
      ]

  unfoldable pub require_csrf_session_bound :
      AuthHeaders → Option Text → Result AuthError (Unit {0})
  unfolding session_of csrf_of_session
  require_csrf_session_bound headers body_csrf = elim (session_of headers) [
    | none ↦ ok tt
    | some session ↦ elim (usable_secret portal.config.session_secret) [
      | none ↦ err csrf_error
      | some secret ↦ csrf_of_session session secret headers body_csrf
    ]
  ]

  -- who asks, where the accounts can be read
  unfoldable pub request_principal :
      AuthHeaders → Text → Text → Result StoreError (Option RequestPrincipal)
  unfolding identity_from_request resolve_console_principal
  request_principal headers method path = elim (identity_from_request portal headers method path) [
    | err e ↦ ok none
    | ok id ↦ (do
      accounts ← portal.role_map
      ok (some (resolve_console_principal id.hex_pubkey portal.config.allowlist accounts)))
  ]

-- The answer of a route that changes something; `done` is the answer of the directory behind it.
pub data MutationResponse (A : Type 0) : Type 0 where
  csrf_forbidden : AuthError → MutationResponse A
  accounts_file_unavailable : MutationResponse A
  performed : A → MutationResponse A

module _ {Mac S A : Type 0} (portal : Portal Mac) where
  -- `accounts_create`, `accounts_grant_console`, `accounts_set_password` and `accounts_set_nwc`: the
  -- routes differ in the method and the address they are asked for, and in what the directory does
  unfoldable pub guarded_mutation :
      (run : Option RequestPrincipal → S → A × S)
      → AuthHeaders
      → (method path : Text) → Option Text
      → S
      → MutationResponse A × S
  unfolding require_csrf_session_bound request_principal
  guarded_mutation run headers method path body_csrf state =
      elim (require_csrf_session_bound portal headers body_csrf) [
        | err e ↦ (csrf_forbidden e, state)
        | ok done ↦ elim (request_principal portal headers method path) [
          | err e ↦ (accounts_file_unavailable, state)
          | ok principal ↦ (let (a, state') = run principal state in (performed a, state'))
        ]
      ]

  -- `accounts_update`, with the other guard and no principal
  unfoldable pub accounts_update :
      (run : S → A × S) → AuthHeaders → Option Text → S → MutationResponse A × S
  unfolding require_csrf_double_submit
  accounts_update run headers body_csrf state =
      elim (require_csrf_double_submit headers body_csrf false) [
        | err e ↦ (csrf_forbidden e, state)
        | ok done ↦ (let (a, state') = run state in (performed a, state'))
      ]

-- both cookies are cleared once the token matches
unfoldable pub auth_logout :
    (is_https : Bool)
    → (settable : List Text → List Text) → AuthHeaders
    → Option Text
    → MutationResponse (List Text)
unfolding require_csrf_double_submit session_clear_cookie_header csrf_clear_cookie_header
auth_logout is_https settable headers body_csrf =
    elim (require_csrf_double_submit headers body_csrf true) [
      | err e ↦ csrf_forbidden e
      | ok done ↦
          performed (
            settable
              (session_clear_cookie_header is_https ∷ csrf_clear_cookie_header is_https ∷ []))
    ]

-- what `auth_me` tells of whoever asks
pub data MeResponse : Type 0 where
  not_known : AuthError → MeResponse
  accounts_not_read : MeResponse
  known : Text → RequestPrincipal → MeResponse

unfoldable pub auth_me : {Mac : Type 0} → Portal Mac → AuthHeaders → MeResponse
unfolding identity_from_request resolve_console_principal npub
auth_me portal headers =
    elim (identity_from_request portal headers (text "GET") (text "/api/v1/auth/me")) [
      | err e ↦ not_known e
      | ok id ↦ elim portal.role_map [
        | err e ↦ accounts_not_read
        | ok accounts ↦
            known (get_or (npub portal.nostr id) id.hex_pubkey)
              (resolve_console_principal id.hex_pubkey portal.config.allowlist accounts)
      ]
    ]
