-- ===== src/Gate/Remembered.antt =====
-- crates/management-ui/src/main.rs: a login is remembered by its cookie, for as long as it says.
use mathlib.Core.Path.{subst}
use surmount_server.Auth.{AuthError, VerifiedIdentity, is_nostr, session_expired}
use surmount_server.Auth.Cookie.{
  cookie_text, cookie_value, csrf_set_cookie_header, session_cookie_name, session_set_cookie_header,
}
use surmount_server.Auth.Cookie.Laws.{cookie_value-own, is_cookie_char}
use surmount_server.Auth.Session.{
  Sealing, Seals, SessionPayload, decode_session_cookie, encode_session_cookie, is_subject,
}
use surmount_server.Auth.Session.Laws.{decode-encode_session_cookie, encoded_parts}
use surmount_server.Console.{ConsoleAccountFile, RequestPrincipal, console_login_accepted}
use surmount_server.Console.Store.{StoreError}
use surmount_server.Gate.{
  AuthHeaders, Portal, after_session, identity_from_event, identity_from_request,
  identity_with_secret, session_of, usable_secret,
}
use surmount_server.Gate.Login.{
  Wire, accept_verified, answered_as, login_step, open_session, saturating_add, session_created,
  verify_login,
}
use surmount_server.Gate.Sessions.{
  accepted_by, created_by, name_value_pair, name_value_pair-cut, opened_by-created, sealed-cookie,
  set_cookies, settable-both,
}
use surmount_server.Net.{ip_eq}
use surmount_server.Prelude.{
  Bool, List, Option, Result, [], all, ap, err, false, if◌then◌else◌, inl, inr, length, list_eq,
  ltb, nat_eq, none, ok, refl, some, sym, true, ℕ, ◌++◌, ◌∙◌, ◌∷◌, ◌≡◌,
}
use surmount_server.Text.{Text, is_whitespace}
use surmount_server.Text.Chars.{Bytes}

module _ {Mac : Type 0} (portal : Portal Mac) (wire : Wire) where
  -- the cookie that a login of a key sets, signed with a secret
  abbrev IsOpened : Bytes → VerifiedIdentity → Text → List Text → Type 0
  IsOpened secret id token cookies =
      (v : Text) × (encode_session_cookie portal.sealing
          (record {
            sub = id.hex_pubkey;
            exp = saturating_add portal.now_unix portal.config.session_ttl_secs;
          })
          secret
        ≡ ok v)
      × (cookies ≡ set_cookies portal wire v token)

  module _ {id : VerifiedIdentity} {principal : RequestPrincipal} {token : Text}
      {cookies : List Text} where
    open_created :
        (secret : Bytes) (verified : VerifiedIdentity)
        → open_session portal wire secret verified
          ≡ answered_as (session_created id principal token cookies)
        → IsOpened secret id token cookies
    unfolding open_session
    open_created secret verified h =
        let (v, encoded, same, set) =
          opened_by-created portal wire verified portal.role_map
            (encode_session_cookie portal.sealing
              (record {
                sub = verified.hex_pubkey;
                exp = saturating_add portal.now_unix portal.config.session_ttl_secs;
              })
              secret)
            wire.random_token h in
        (
          v,
          subst
              (λ (w : VerifiedIdentity).
                encode_session_cookie portal.sealing
                  (record {
                    sub = w.hex_pubkey;
                    exp = saturating_add portal.now_unix portal.config.session_ttl_secs;
                  })
                  secret
                ≡ ok v)
              same encoded,
          set,
        )

    accept_created :
        (secret : Bytes) (verified : VerifiedIdentity)
        → accept_verified portal wire secret verified
          ≡ answered_as (session_created id principal token cookies)
        → IsOpened secret id token cookies
    unfolding accept_verified
    accept_created secret verified h =
        elim (accepted_by portal wire secret verified portal.login_map
          (console_login_accepted verified.hex_pubkey portal.config.allowlist) h) [
            | inl unavailable ↦ absurd cc
            | inr opened ↦ open_created secret verified opened
          ]

    created_parts :
        (headers : AuthHeaders) (body : Bytes)
        → login_step portal wire headers body
          ≡ answered_as (session_created id principal token cookies)
        → (is_nostr portal.config.mode ≡ true)
          × ((s : Bytes) × (usable_secret portal.config.session_secret ≡ some s)
              × IsOpened s id token cookies)
    unfolding login_step
    created_parts headers body h =
        let (asks, (s, keyed, (v, verified, accepts))) =
          created_by portal wire (is_nostr portal.config.mode)
            (usable_secret portal.config.session_secret) (verify_login portal wire headers body)
            h in
        (asks, (s, keyed, accept_created s v accepts))

-- the server at a later time, whatever its map of accounts is by then
abbrev pub at_time :
    {Mac : Type 0}
    → Portal Mac
    → ℕ
    → Result StoreError ConsoleAccountFile
    → Result StoreError ConsoleAccountFile
    → Portal Mac
at_time portal now login_map role_map = record portal {
  now_unix = now;
  login_map = login_map;
  role_map = role_map;
}

module _ {Mac : Type 0} (portal : Portal Mac) where
  with_session :
      (secret : Bytes) (headers : AuthHeaders) (method path : Text) {v : Text}
      → session_of headers ≡ some v
      → identity_with_secret portal secret headers method path
        ≡ after_session
            (decode_session_cookie portal.nostr portal.sealing v secret portal.now_unix)
            (identity_from_event portal headers method path)
  unfolding identity_with_secret
  with_session secret headers method path session =
      ap
        (λ (o : Option Text). elim o [
          | some val ↦
              after_session
                (decode_session_cookie portal.nostr portal.sealing val secret portal.now_unix)
                (identity_from_event portal headers method path)
          | none ↦ identity_from_event portal headers method path
        ])
        session

  by_session :
      (headers : AuthHeaders) (method path : Text) {v : Text} {s : Bytes}
      → is_nostr portal.config.mode ≡ true
      → usable_secret portal.config.session_secret ≡ some s
      → session_of headers ≡ some v
      → identity_from_request portal headers method path
        ≡ after_session
            (decode_session_cookie portal.nostr portal.sealing v s portal.now_unix)
            (identity_from_event portal headers method path)
  unfolding identity_from_request
  by_session headers method path {s = s} asks keyed session =
      rw (asks, keyed) (with_session s headers method path session)

name_plain : all is_cookie_char session_cookie_name ≡ true
unfolding is_whitespace
name_plain = refl

session_of-pair :
    (headers : AuthHeaders) (v : Text)
    → all is_cookie_char v ≡ true
    → headers.cookie ≡ some (session_cookie_name ++ b'=' ∷ v)
    → session_of headers ≡ some v
unfolding session_of
session_of-pair headers v plain sent =
    ap
      (λ (o : Option Text). elim o [
        | some header ↦ cookie_value header session_cookie_name
        | none ↦ none
      ])
      sent
    ∙ (cookie_value-own session_cookie_name v [] name_plain plain).0

session_pair :
    (print : ℕ → Text) (v : Text) (max_age : ℕ) (is_https : Bool)
    → all is_cookie_char v ≡ true
    → name_value_pair (session_set_cookie_header print v max_age is_https)
      ≡ session_cookie_name ++ b'=' ∷ v
unfolding session_set_cookie_header cookie_text
session_pair print v max_age is_https plain =
    ap (λ (u : Text). session_cookie_name ++ b'=' ∷ u) (name_value_pair-cut v _ plain)

heads : {a b c d : Text} → ◌≡◌ {A = List Text} (a ∷ b ∷ []) (c ∷ d ∷ []) → a ≡ c
heads h = cc

after_session-until :
    (is_live : Bool) (payload : SessionPayload) (event : Result AuthError VerifiedIdentity)
    → after_session (if is_live then ok payload else err session_expired) event
      ≡ (if is_live then ok (record { hex_pubkey = payload.sub }) else event)
unfolding after_session
after_session-until true payload event = refl
after_session-until false payload event = refl

encoded-plain :
    {Mac : Type 0} (lib : Sealing Mac) (law : Seals lib) (payload : SessionPayload)
    → (secret : Bytes) {v : Text} → encode_session_cookie lib payload secret ≡ ok v
    → all is_cookie_char v ≡ true
encoded-plain lib law payload secret h =
    let (json, mac, stored, keyed, full, same) = encoded_parts lib law payload secret h in
    ap (all is_cookie_char) same ∙ sealed-cookie lib law mac json

module _ {Mac : Type 0} (portal : Portal Mac) (wire : Wire) (law : Seals portal.sealing) where
  -- Where base64, serde_json and HMAC do what they promise: after a login that created a session
  -- for a well-formed key and could set both cookies, a request that sends the session cookie back
  -- and comes before the login's time plus the session's length (which stops at the largest u64) is
  -- the same key's, whatever the account maps are by then; from that time on, it is whose signed
  -- event it carries.
  pub login_then_identity :
      (headers : AuthHeaders) (body : Bytes) {id : VerifiedIdentity} {principal : RequestPrincipal}
      → {token : Text} {set_cookie : Text} {more : Text}
      → login_step portal wire headers body
        ≡ answered_as (session_created id principal token (set_cookie ∷ more ∷ []))
      → is_subject portal.nostr id.hex_pubkey ≡ true
      → (now : ℕ) (login_map role_map : Result StoreError ConsoleAccountFile)
      → (later : AuthHeaders) (method path : Text)
      → later.cookie ≡ some (name_value_pair set_cookie)
      → identity_from_request (at_time portal now login_map role_map) later method path ≡ (
          if ltb now (saturating_add portal.now_unix portal.config.session_ttl_secs)
          then ok id
          else identity_from_event (at_time portal now login_map role_map) later method path)
  login_then_identity headers body {id} {token = token} h subject now lm rm later method path sent =
      let (asks, (s, keyed, (v, encoded, set))) = created_parts portal wire headers body h in
      let payload : SessionPayload = record {
        sub = id.hex_pubkey;
        exp = saturating_add portal.now_unix portal.config.session_ttl_secs;
      } in
      let plain = encoded-plain portal.sealing law payload s encoded in
      let first = heads (
        set
        ∙ settable-both wire
            (session_set_cookie_header wire.print v portal.config.session_ttl_secs portal.is_https)
            (csrf_set_cookie_header wire.print token portal.config.session_ttl_secs portal.is_https)
            (ap length (sym set))) in
      let returned =
        sent
        ∙ ap (λ (c : Text). some (name_value_pair c)) first
        ∙ ap some
            (session_pair wire.print v portal.config.session_ttl_secs portal.is_https plain) in
      by_session (at_time portal now lm rm) later method path asks keyed
        (session_of-pair later v plain returned)
      ∙ ap
          (λ (r : Result AuthError SessionPayload).
            after_session r (identity_from_event (at_time portal now lm rm) later method path))
          (decode-encode_session_cookie portal.nostr portal.sealing law payload s now encoded
            subject)
      ∙ after_session-until (ltb now payload.exp) payload _
