-- ===== src/Gate/Laws.antt =====
-- crates/management-ui/src/main.rs: what the gate lets through, and whom it bans.
use surmount_server.Auth.{AuthError, VerifiedIdentity}
use surmount_server.Auth.Next.{is_html_path}
use surmount_server.Ban.Guard.{BanGuard}
use surmount_server.Console.{ConsoleAccountFile, is_administrator, resolve_console_principal}
use surmount_server.Console.Store.{StoreError}
use surmount_server.Gate.{
  AuthRequest, GateResponse, Portal, administrators_only, admit_identity, auth_middleware, get_or,
  identity_from_request, is_credential_failure, is_open, login_page, map_unavailable, passed,
  path_requires_administrator, presents_event, refuse, unauthorized,
}
use surmount_server.Net.{IpSyntax, ip_eq}
use surmount_server.Prelude.{
  Bool, Bool-cases, Result, Result-cases, err, false, if◌then◌else◌, inl, inr, list_eq, nat_eq, not,
  ok, refl, sym, true, ◌&&◌, ◌∙◌, ◌≡◌, ◌≢◌, ◌⊎◌,
}
use surmount_server.Text.{Text}

module _ {S A : Type 0} where
  admit_choice :
      (required admin page : Bool) (n : A × S) (bans : S) {a : A} {bans' : S}
      → ◌≡◌ {A = GateResponse A × S}
          (if required && not admin then (administrators_only page, bans) else (passed n.0, n.1))
          (passed a, bans')
      → ((required ≡ false) ⊎ (admin ≡ true)) × (n ≡ (a, bans'))
  admit_choice true false page n bans h = absurd cc
  admit_choice true true page n bans h = (inr refl, cc)
  admit_choice false admin page n bans h = (inl refl, cc)

  unavailable :
      (page : Bool) (bans : S) {a : A} {bans' : S}
      → ◌≢◌ {A = GateResponse A × S} (map_unavailable page, bans) (passed a, bans')
  unavailable page bans h = cc

  let_through :
      (n : A × S) {a : A} {bans' : S}
      → ◌≡◌ {A = GateResponse A × S} (passed n.0, n.1) (passed a, bans')
      → n ≡ (a, bans')
  let_through n h = cc

  refuse_choice :
      (page presented : Bool) (t : Text) (e : AuthError) (signalled_bans bans : S)
      → {a : A} {bans' : S}
      → ◌≢◌ {A = GateResponse A × S}
          (let response = if page then login_page t else unauthorized e in
            if presented then (response, signalled_bans) else (response, bans))
          (passed a, bans')
  refuse_choice true true t e b c h = cc
  refuse_choice true false t e b c h = cc
  refuse_choice false true t e b c h = cc
  refuse_choice false false t e b c h = cc

module _ {Mac S R A : Type 0} (portal : Portal Mac) (syntax : IpSyntax) (guard : BanGuard S)
    (next : AuthRequest R → S → A × S) (request : AuthRequest R) (bans : S) where
  -- a key that may ask for the path of the request
  abbrev pub MayAsk : VerifiedIdentity → Type 0
  MayAsk id =
      (accounts : ConsoleAccountFile) × (portal.role_map ≡ ok accounts)
      × ((path_requires_administrator request.method request.path ≡ false)
          ⊎ (is_administrator
                (resolve_console_principal id.hex_pubkey portal.config.allowlist accounts)
              ≡ true))

  admit_identity-passed :
      (id : VerifiedIdentity) {a : A} {bans' : S}
      → admit_identity portal id next request bans ≡ (passed a, bans')
      → MayAsk id × (next request bans ≡ (a, bans'))
  unfolding admit_identity
  admit_identity-passed id h = elim (Result-cases portal.role_map) [
    | inl (accounts, read) ↦
        (let (may, same) =
            admit_choice (path_requires_administrator request.method request.path)
              (is_administrator
                (resolve_console_principal id.hex_pubkey portal.config.allowlist accounts))
              (is_html_path request.path) (next request bans) bans (sym (rw read refl) ∙ h) in
          ((accounts, read, may), same))
    | inr (e, unread) ↦
        absurd (unavailable (is_html_path request.path) bans (sym (rw unread refl) ∙ h))
  ]

  refuse-passed :
      (e : AuthError) {a : A} {bans' : S} → refuse syntax guard e request bans ≢ (passed a, bans')
  unfolding refuse
  refuse-passed e h =
      refuse_choice (is_html_path request.path)
        (presents_event request.headers && is_credential_failure e) _ e _ bans h

  -- the gate's answer by what it knows of the request
  abbrev answer_by : Bool → Result AuthError VerifiedIdentity → GateResponse A × S
  answer_by is_free found =
      if is_free then (let (a, bans') = next request bans in (passed a, bans')) else elim found [
        | ok id ↦ admit_identity portal id next request bans
        | err e ↦ refuse syntax guard e request bans
      ]

  abbrev pub asked_identity : Result AuthError VerifiedIdentity
  asked_identity =
      identity_from_request portal request.headers request.method
        (get_or request.path_and_query request.path)

  passed_by :
      (is_free : Bool) (found : Result AuthError VerifiedIdentity) {a : A} {bans' : S}
      → answer_by is_free found ≡ (passed a, bans')
      → ((is_free ≡ true) ⊎ ((id : VerifiedIdentity) × (found ≡ ok id) × MayAsk id))
        × (next request bans ≡ (a, bans'))
  passed_by true found h = (inl refl, let_through (next request bans) h)
  passed_by false (ok id) h =
      let (may, same) = admit_identity-passed id h in (inr (id, refl, may), same)
  passed_by false (err e) h = absurd (refuse-passed e h)

  -- A request passes the gate only if it is open to all or is identified as a key for which the
  -- account map can be read, and which is an administrator's by it or asks for a path that does not
  -- require one; the answer and the bans are then the router's.
  pub passed_needs_identity :
      {a : A} {bans' : S}
      → auth_middleware portal syntax guard next request bans ≡ (passed a, bans')
      → ((is_open portal request ≡ true)
          ⊎ ((id : VerifiedIdentity) × (asked_identity ≡ ok id) × MayAsk id))
        × (next request bans ≡ (a, bans'))
  unfolding auth_middleware
  passed_needs_identity h = passed_by (is_open portal request) asked_identity h

  refuse_quiet :
      (e : AuthError)
      → presents_event request.headers && is_credential_failure e ≡ false
      → (refuse {A = A} syntax guard e request bans).1 ≡ bans
  unfolding refuse
  refuse_quiet e h = rw h refl

  -- nothing is banned, or the request goes on to the router
  abbrev IsQuiet : GateResponse A × S → Type 0
  IsQuiet r = (r.1 ≡ bans) ⊎ ((a : A) × (r.0 ≡ passed a))

  admit-IsQuiet :
      (id : VerifiedIdentity) (roles : Result StoreError ConsoleAccountFile)
      → (is_barred : ConsoleAccountFile → Bool)
      → IsQuiet (elim roles [
        | err e ↦ (map_unavailable (is_html_path request.path), bans)
        | ok accounts ↦
            if is_barred accounts
            then (administrators_only (is_html_path request.path), bans)
            else (let (a, bans') = next request bans in (passed a, bans'))
      ])
  admit-IsQuiet id (err e) is_barred = inl refl
  admit-IsQuiet id (ok accounts) is_barred = elim (Bool-cases (is_barred accounts)) [
    | inl barred ↦ rw barred (inl refl)
    | inr may ↦ rw may (inr (_, refl))
  ]

  admit_identity-IsQuiet :
      (id : VerifiedIdentity) → IsQuiet (admit_identity portal id next request bans)
  unfolding admit_identity
  admit_identity-IsQuiet id = admit-IsQuiet id portal.role_map (λ accounts.
      path_requires_administrator request.method request.path
      && not (
          is_administrator
            (resolve_console_principal id.hex_pubkey portal.config.allowlist accounts)))

  IsQuiet-by :
      (is_free : Bool) (found : Result AuthError VerifiedIdentity)
      → presents_event request.headers ≡ false
      → IsQuiet (answer_by is_free found)
  IsQuiet-by true found h = inr (_, refl)
  IsQuiet-by false (ok id) h = admit_identity-IsQuiet id
  IsQuiet-by false (err e) h = inl (refuse_quiet e (rw h refl))

  -- A request whose Authorization header is absent or not of the Nostr scheme is passed on to the
  -- router or leaves the bans as they were.
  pub absence_never_bans :
      presents_event request.headers ≡ false
      → ((auth_middleware portal syntax guard next request bans).1 ≡ bans)
        ⊎ ((a : A) × ((auth_middleware portal syntax guard next request bans).0 ≡ passed a))
  unfolding auth_middleware
  absence_never_bans h = IsQuiet-by (is_open portal request) asked_identity h
