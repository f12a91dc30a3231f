-- ===== src/Gate/Forgery/Laws.antt =====
-- crates/management-ui/src/main.rs: a route that changes something is not run for a forged request.
use surmount_server.Auth.{AuthError, csrf_error}
use surmount_server.Auth.Cookie.Laws.{is_cookie_char, plain-no_space}
use surmount_server.Auth.Csrf.{verify_csrf_session_bound}
use surmount_server.Auth.Csrf.Laws.{token_input, verify_csrf_session_bound_iff}
use surmount_server.Auth.Session.{Sealing, Seals, SessionPayload, decode_session_cookie}
use surmount_server.Auth.Session.Laws.{IsSigned, session_needs_mac}
use surmount_server.Console.{RequestPrincipal}
use surmount_server.Console.Store.{StoreError}
use surmount_server.Gate.{AuthHeaders, Portal, session_of, usable_secret}
use surmount_server.Gate.Forgery.{
  MutationResponse, accounts_file_unavailable, csrf_forbidden, csrf_of_session, guarded_mutation,
  or_body, performed, request_principal, require_csrf_session_bound,
}
use surmount_server.Gate.Sessions.{dot_plain, safe-cookie}
use surmount_server.Net.{ip_eq}
use surmount_server.Prelude.{
  Option, Result, [], all, ap, err, false, if◌then◌else◌, is_empty, list_eq, nat_eq, none, ok, refl,
  some, sym, true, ◌++◌, ◌∙◌, ◌∷◌, ◌≡◌, ◌≢◌,
}
use surmount_server.Text.{Text}
use surmount_server.Text.Chars.{Bytes, non_blank}
use surmount_server.Text.Laws.{all-both, all-cons, trim-plain}

non_blank-plain :
    (v : Text) → all is_cookie_char v ≡ true → is_empty v ≡ false → non_blank (some v) ≡ some v
unfolding non_blank
non_blank-plain v plain full =
    ap (λ (t : Text). if is_empty t then none else some t) (trim-plain v (plain-no_space v plain))
    ∙ rw full refl

module _ {Mac : Type 0} (lib : Sealing Mac) (law : Seals lib) where
  -- a cookie that is signed is trimmed already
  signed-plain : (v : Text) (secret : Bytes) → IsSigned lib v secret → non_blank (some v) ≡ some v
  signed-plain v secret (body, sig, mac, same, safe, keyed, tagged) =
      ap (λ (t : Text). non_blank (some t)) same
      ∙ non_blank-plain (body ++ b'.' ∷ sig)
          (all-both is_cookie_char body (b'.' ∷ sig) (safe-cookie body safe) (
            all-cons is_cookie_char b'.' sig dot_plain
              (safe-cookie sig (law.decoded_safe sig _ tagged))))
          (dotted body sig)
      ∙ ap some (sym same)
    where
      dotted : (a b : Text) → is_empty (a ++ b'.' ∷ b) ≡ false
      dotted [] b = refl
      dotted (c ∷ a) b = refl

usable-full : (o : Option Bytes) {s : Bytes} → usable_secret o ≡ some s → s ≢ []
usable-full none h e = absurd cc
usable-full (some []) h e = absurd cc
usable-full (some (b ∷ s)) h e = cc

module _ {Mac : Type 0} (portal : Portal Mac) where
  of_valid :
      (session : Text) (secret : Bytes) (headers : AuthHeaders) (body_csrf : Option Text)
      → {p : SessionPayload}
      → decode_session_cookie portal.nostr portal.sealing session secret portal.now_unix ≡ ok p
      → csrf_of_session portal session secret headers body_csrf
        ≡ verify_csrf_session_bound portal.sealing
            (some session)
            secret
            (or_body headers.csrf_token body_csrf)
  unfolding csrf_of_session
  of_valid session secret headers body_csrf valid =
      ap
        (λ (r : Result AuthError SessionPayload). elim r [
          | err e ↦ ok tt
          | ok payload ↦
              verify_csrf_session_bound portal.sealing (some session) secret
                (or_body headers.csrf_token body_csrf)
        ])
        valid

  bound :
      (headers : AuthHeaders) (body_csrf : Option Text) {session : Text} {secret : Bytes}
      → {p : SessionPayload} → session_of headers ≡ some session
      → usable_secret portal.config.session_secret ≡ some secret
      → decode_session_cookie portal.nostr portal.sealing session secret portal.now_unix ≡ ok p
      → require_csrf_session_bound portal headers body_csrf
        ≡ verify_csrf_session_bound portal.sealing
            (some session)
            secret
            (or_body headers.csrf_token body_csrf)
  unfolding require_csrf_session_bound
  bound headers body_csrf {session} {secret} sent keyed valid =
      ap
        (λ (o : Option Text). elim o [
          | none ↦ ok tt
          | some v ↦ elim (usable_secret portal.config.session_secret) [
            | none ↦ err csrf_error
            | some s ↦ csrf_of_session portal v s headers body_csrf
          ]
        ])
        sent
      ∙ ap
          (λ (o : Option Bytes). elim o [
            | none ↦ err csrf_error
            | some s ↦ csrf_of_session portal session s headers body_csrf
          ])
          keyed
      ∙ of_valid session secret headers body_csrf valid

module _ {Mac S A : Type 0} (portal : Portal Mac) where
  -- what was asked of a request whose route was run
  performed_by :
      (csrf : Result AuthError (Unit {0})) (found : Result StoreError (Option RequestPrincipal))
      → (run : Option RequestPrincipal → S → A × S) (state : S) {a : A} {state' : S}
      → ◌≡◌ {A = MutationResponse A × S}
          (elim csrf [
            | err e ↦ (csrf_forbidden e, state)
            | ok done ↦ elim found [
              | err e ↦ (accounts_file_unavailable, state)
              | ok principal ↦ (let (b, after) = run principal state in (performed b, after))
            ]
          ])
          (performed a, state')
      → csrf ≡ ok tt
  performed_by (err e) found run state h = absurd cc
  performed_by (ok done) found run state h = refl

  -- Where base64, serde_json and HMAC do what they promise: with a usable secret and a cookie that
  -- opens a session, a guarded route is run only if the token that the request shows, in its header
  -- or else in its body, is the encoded MAC of the session cookie under the secret.
  pub performed_needs_token :
      (law : Seals portal.sealing) (run : Option RequestPrincipal → S → A × S)
      → (headers : AuthHeaders) (method path : Text) (body_csrf : Option Text) (state : S)
      → {session : Text} {secret : Bytes} {p : SessionPayload} {a : A} {state' : S}
      → session_of headers ≡ some session
      → usable_secret portal.config.session_secret ≡ some secret
      → decode_session_cookie portal.nostr portal.sealing session secret portal.now_unix ≡ ok p
      → guarded_mutation portal run headers method path body_csrf state ≡ (performed a, state')
      → (mac : Mac) × (portal.sealing.new_from_slice secret ≡ some mac)
        × (non_blank (or_body headers.csrf_token body_csrf)
            ≡ some (
                portal.sealing.encode
                  (portal.sealing.finalize (portal.sealing.update mac (token_input session)))))
  unfolding guarded_mutation
  performed_needs_token law run headers method path body_csrf state {session} {secret} sent keyed
        valid h =
      let passes =
        performed_by (require_csrf_session_bound portal headers body_csrf)
          (request_principal portal headers method path) run state h in
      let (signed, until, subject) =
        session_needs_mac portal.nostr portal.sealing law session secret portal.now_unix valid in
      let shown = signed-plain portal.sealing law session secret signed in
      let (mac', made, rule) =
        verify_csrf_session_bound_iff portal.sealing law (some session)
          (or_body headers.csrf_token body_csrf) secret shown (usable-full _ keyed) in
      (mac', made, rule.0 (sym (bound portal headers body_csrf sent keyed valid) ∙ passes))
