-- ===== src/Gate/Sessions.antt =====
-- crates/management-ui/src/main.rs: a login is remembered by its cookie, for as long as it says.
-- what a client sends back of a cookie: its name and value, which end at the first semicolon
use surmount_server.Auth.{AuthError, VerifiedIdentity, config_error, not_allowlisted}
use surmount_server.Auth.Cookie.{csrf_set_cookie_header, session_set_cookie_header}
use surmount_server.Auth.Cookie.Laws.{is_cookie_char}
use surmount_server.Auth.Session.{Sealing, Seals, is_url_safe, sealed}
use surmount_server.Console.{ConsoleAccountFile, RequestPrincipal, resolve_console_principal}
use surmount_server.Console.Store.{StoreError}
use surmount_server.Gate.{Portal}
use surmount_server.Gate.Login.{
  LoginResponse, LoginStep, Wire, accept_verified, accounts_unavailable, answered_as, login_failed,
  mode_is_off, open_session, secret_not_configured, session_created, settable, signalled,
}
use surmount_server.Net.{ip_eq}
use surmount_server.Prelude.{
  Bool, Bool-cases, List, Option, Result, [], all, arith, err, false, if◌then◌else◌, inl, inr,
  length, list_eq, nat_beq, nat_eq, none, not, ok, refl, some, sym, true, ℕ, ◌&&◌, ◌++◌, ◌==◌, ◌∙◌,
  ◌∷◌, ◌≡◌, ◌≢◌, ◌≤◌, ◌⊎◌,
}
use surmount_server.Text.{Text, is_ascii_digit, is_whitespace}
use surmount_server.Text.Chars.{Bytes, as_bytes, is_ascii_alphanumeric}
use surmount_server.Text.Laws.{all-both, all-cons}

abbrev pub name_value_pair : Text → Text
name_value_pair [] = []
name_value_pair (c ∷ s) = if c == b';' then [] else c ∷ name_value_pair s

pub name_value_pair-cut :
    (pair rest : Text)
    → all is_cookie_char pair ≡ true
    → name_value_pair (pair ++ b';' ∷ rest) ≡ pair
name_value_pair-cut [] rest h = refl
name_value_pair-cut (c ∷ pair) rest h = ground (arith, name_value_pair-cut pair rest)

both_true : (a b : Bool) → a && b ≡ true → (a ≡ true) × (b ≡ true)
both_true a b h = ground arith

safe_range : (c : ℕ) → is_url_safe c ≡ true → (45 ≤ c) × (c ≤ 122) × (nat_beq c 59 ≡ false)
unfolding is_ascii_alphanumeric is_ascii_digit
safe_range c h = (ground arith, ground arith, ground arith)

visible-whitespace : (c : ℕ) → 45 ≤ c → c ≤ 122 → is_whitespace c ≡ false
unfolding is_whitespace
visible-whitespace c low high = ground arith

safe_char : (c : ℕ) → is_url_safe c ≡ true → is_cookie_char c ≡ true
safe_char c h =
    let (low, high, no_end) = safe_range c h in rw (visible-whitespace c low high, no_end) refl

pub safe-cookie : (s : Text) → all is_url_safe s ≡ true → all is_cookie_char s ≡ true
safe-cookie [] h = refl
safe-cookie (c ∷ s) h =
    let (first, rest) = both_true (is_url_safe c) (all is_url_safe s) h in
    rw (safe_char c first, safe-cookie s rest) refl

pub settable-both :
    (wire : Wire) (a b : Text)
    → length (settable wire (a ∷ b ∷ [])) ≡ 2
    → settable wire (a ∷ b ∷ []) ≡ a ∷ b ∷ []
settable-both wire a b h = ground arith

no_answer : {e : AuthError} {r : LoginResponse} → signalled e ≢ answered_as r
no_answer h = cc

module _ {Mac : Type 0} (portal : Portal Mac) (wire : Wire) where
  abbrev pub opened_by :
      VerifiedIdentity
      → Result StoreError ConsoleAccountFile
      → Result AuthError Text
      → Option Text
      → LoginStep
  opened_by verified roles encoded random = elim roles [
    | err e ↦ answered_as accounts_unavailable
    | ok accounts ↦ elim encoded [
      | err e ↦ answered_as (login_failed e)
      | ok cookie_val ↦ elim random [
        | none ↦ answered_as (login_failed config_error)
        | some token ↦ answered_as (
            session_created verified
              (resolve_console_principal verified.hex_pubkey portal.config.allowlist accounts) token
              (settable wire (
                session_set_cookie_header wire.print cookie_val portal.config.session_ttl_secs
                  portal.is_https
                ∷ csrf_set_cookie_header wire.print token portal.config.session_ttl_secs
                    portal.is_https
                ∷ [])))
      ]
    ]
  ]

  abbrev pub set_cookies : Text → Text → List Text
  set_cookies v token = settable wire (
      session_set_cookie_header wire.print v portal.config.session_ttl_secs portal.is_https
      ∷ csrf_set_cookie_header wire.print token portal.config.session_ttl_secs portal.is_https
      ∷ [])

  pub opened_by-created :
      (verified : VerifiedIdentity) (roles : Result StoreError ConsoleAccountFile)
      → (encoded : Result AuthError Text) (random : Option Text) {id : VerifiedIdentity}
      → {principal : RequestPrincipal} {token : Text} {cookies : List Text}
      → opened_by verified roles encoded random
        ≡ answered_as (session_created id principal token cookies)
      → (v : Text) × (encoded ≡ ok v) × (verified ≡ id) × (cookies ≡ set_cookies v token)
  opened_by-created verified (err e) encoded random h = absurd cc
  opened_by-created verified (ok accounts) (err e) random h = absurd cc
  opened_by-created verified (ok accounts) (ok v) none h = absurd cc
  opened_by-created verified (ok accounts) (ok v) (some t) h = (v, refl, cc, cc)

  pub accepted_by :
      (secret : Bytes) (verified : VerifiedIdentity) {r : LoginResponse}
      → (maps : Result StoreError ConsoleAccountFile) (is_in : ConsoleAccountFile → Bool)
      → (elim maps [
        | err e ↦ answered_as accounts_unavailable
        | ok accounts ↦
            if is_in accounts
            then open_session portal wire secret verified
            else signalled not_allowlisted
      ])
        ≡ answered_as r
      → (r ≡ accounts_unavailable) ⊎ (open_session portal wire secret verified ≡ answered_as r)
  accepted_by secret verified (err e) is_in h = inl cc
  accepted_by secret verified (ok accounts) is_in h = elim (Bool-cases (is_in accounts)) [
    | inl is_one ↦ inr (sym (rw is_one refl) ∙ h)
    | inr not_in ↦ absurd (no_answer {e = not_allowlisted} (sym (rw not_in refl) ∙ h))
  ]

  pub created_by :
      (asks : Bool) (secret : Option Bytes) (verified : Result AuthError VerifiedIdentity)
      → {id : VerifiedIdentity} {principal : RequestPrincipal} {token : Text}
      → {cookies : List Text}
      → (if not asks then answered_as mode_is_off else elim secret [
        | none ↦ answered_as secret_not_configured
        | some s ↦ elim verified [ err e ↦ signalled e | ok v ↦ accept_verified portal wire s v ]
      ])
        ≡ answered_as (session_created id principal token cookies)
      → (asks ≡ true)
        × ((s : Bytes) × (secret ≡ some s)
            × ((v : VerifiedIdentity) × (verified ≡ ok v)
                × (accept_verified portal wire s v
                    ≡ answered_as (session_created id principal token cookies))))
  created_by false secret verified h = absurd cc
  created_by true none verified h = absurd cc
  created_by true (some s) (err e) h = absurd cc
  created_by true (some s) (ok v) h = (refl, (s, refl, (v, refl, h)))

pub dot_plain : is_cookie_char b'.' ≡ true
unfolding is_whitespace
dot_plain = refl

module _ {Mac : Type 0} (lib : Sealing Mac) (law : Seals lib) where
  pub sealed-cookie :
      (mac : Mac) (b : Bytes) → all is_cookie_char (sealed lib mac (lib.encode b)) ≡ true
  unfolding sealed
  sealed-cookie mac b =
      let tag = lib.finalize (lib.update mac (as_bytes (lib.encode b))) in
      all-both is_cookie_char (lib.encode b) (b'.' ∷ lib.encode tag)
        (safe-cookie (lib.encode b) (law.encoded_safe b))
        (all-cons is_cookie_char b'.' (lib.encode tag) dot_plain
          (safe-cookie (lib.encode tag) (law.encoded_safe tag)))
