-- ===== src/Gate/Tests.antt =====
-- The theorems on logins and the gate at concrete inputs.
use surmount_server.Auth.{AuthConfig, Event, Nostr, VerifiedIdentity, mode_nostr}
use surmount_server.Auth.Cookie.{csrf_set_cookie_header, session_set_cookie_header}
use surmount_server.Auth.Csrf.Laws.{token_input}
use surmount_server.Auth.Nip98.{Base64}
use surmount_server.Auth.Samples.{counting, counting-Seals, trusting, unary_encode}
use surmount_server.Auth.Session.{decode_session_cookie, is_subject, sealed}
use surmount_server.Ban.{enforce}
use surmount_server.Ban.Guard.{BanGuard}
use surmount_server.Ban.Memory.{MemoryBanBackend, memory_backend}
use surmount_server.Ban.Samples.{fine_env, no_files, one_ban_json, one_banned}
use surmount_server.Console.{RequestPrincipal, administrator, default_file}
use surmount_server.Gate.{
  AuthHeaders, AuthRequest, Portal, auth_middleware, identity_from_request, is_open, passed,
  presents_event, session_of,
}
use surmount_server.Gate.Forgery.{guarded_mutation, performed}
use surmount_server.Gate.Forgery.Laws.{performed_needs_token}
use surmount_server.Gate.Laws.{MayAsk, absence_never_bans, asked_identity, passed_needs_identity}
use surmount_server.Gate.Login.{Wire, answered_as, login_step, no_json, session_created}
use surmount_server.Gate.Remembered.{at_time, login_then_identity}
use surmount_server.Gate.Sessions.{name_value_pair}
use surmount_server.Net.{ip_eq, plain_syntax}
use surmount_server.Prelude.{
  Option, [], false, list_eq, nat_eq, none, ok, refl, some, suc, true, ℕ, ◌∷◌, ◌≡◌, ◌⊎◌,
}
use surmount_server.Text.{Text, text}
use surmount_server.Text.Chars.{Bytes, non_blank}

abbrev own_key : Text
own_key = text "ab"

abbrev own_config : AuthConfig
own_config = record {
  mode = mode_nostr;
  allowlist = own_key ∷ [];
  session_secret = some (7 ∷ []);
  session_ttl_secs = 4;
  public_base_url = none;
  nip98_max_skew_secs = 5;
}

-- one event, which is signed for the address of the login
abbrev own_event : Event
own_event = record {
  kind = 27235;
  created_at = 1;
  tags =
      (text "u" ∷ text "http://h/api/v1/auth/session" ∷ [])
      ∷ (text "method" ∷ text "POST" ∷ [])
      ∷ [];
  pubkey = own_key;
  id = [];
  sig = [];
}

abbrev one_event : Nostr
one_event = record trusting { event_from_json = λ t. some own_event }

abbrev no_base64 : Base64
no_base64 = record {
  standard = λ t. none;
  url_safe_no_pad = λ t. none;
  url_safe = λ t. none;
  standard_no_pad = λ t. none;
}

abbrev own_portal : Portal Bytes
own_portal = record {
  config = own_config;
  is_https = false;
  nostr = one_event;
  base64 = no_base64;
  sealing = counting;
  now_unix = 1;
  login_map = ok default_file;
  role_map = ok default_file;
  vaultwarden_takes = λ p. false;
  splora_takes = λ h p. false;
}

abbrev own_wire : Wire
own_wire = record {
  body_shape = λ b. no_json;
  from_utf8 = some;
  random_token = some (text "t");
  print = λ n. text "4";
  is_header_value = λ v. true;
}

abbrev no_headers : AuthHeaders
no_headers = record {
  edge = record { host = some (text "h"); x_real_ip = none; x_forwarded_for = none };
  cookie = none;
  authorization = none;
  csrf_token = none;
}

abbrev login_headers : AuthHeaders
login_headers = record no_headers { authorization = some (text "Nostr {}") }

abbrev own_cookie : Text
own_cookie = sealed counting (7 ∷ []) (unary_encode (5 ∷ own_key))

abbrev own_identity : VerifiedIdentity
own_identity = record { hex_pubkey = own_key }

abbrev own_principal : RequestPrincipal
own_principal = record {
  hex_pubkey = own_key;
  principal_role = some administrator;
  principal_mailbox = none;
}

login_opens :
    login_step own_portal own_wire login_headers []
    ≡ answered_as (
        session_created own_identity own_principal (text "t") (
          session_set_cookie_header own_wire.print own_cookie 4 false
          ∷ csrf_set_cookie_header own_wire.print (text "t") 4 false
          ∷ []))
unfolding login_step sealed
login_opens = refl

abbrev later_headers : AuthHeaders
later_headers = record no_headers {
  cookie = some (name_value_pair (session_set_cookie_header own_wire.print own_cookie 4 false));
}

own_subject : is_subject own_portal.nostr own_key ≡ true
unfolding is_subject
own_subject = refl

login_then_identity_example :
    identity_from_request
      (at_time own_portal 4 (ok default_file) (ok default_file))
      later_headers
      (text "GET")
      (text "/mail")
    ≡ ok own_identity
login_then_identity_example =
    login_then_identity own_portal own_wire counting-Seals login_headers [] {id = own_identity}
      {principal = own_principal} {token = text "t"} login_opens own_subject 4 (ok default_file)
      (ok default_file) later_headers (text "GET") (text "/mail") refl

abbrev guard : BanGuard MemoryBanBackend
guard = record {
  enforcement = enforce;
  backend = memory_backend plain_syntax one_ban_json fine_env;
}

abbrev bans : MemoryBanBackend
bans = record { inner = one_banned; disk = no_files }

abbrev request_with : AuthHeaders → AuthRequest (Unit {0})
request_with headers = record {
  peer = none;
  method = text "GET";
  path = text "/mail";
  path_and_query = none;
  uri_host = none;
  headers = headers;
  rest = tt;
}

-- the router answers with the path
abbrev router : AuthRequest (Unit {0}) → MemoryBanBackend → Text × MemoryBanBackend
router request state = (request.path, state)

session_passes :
    auth_middleware own_portal plain_syntax guard router (request_with later_headers) bans
    ≡ (passed (text "/mail"), bans)
unfolding auth_middleware sealed session_set_cookie_header
session_passes = refl

passed_needs_identity_example :
    ((is_open own_portal (request_with later_headers) ≡ true)
      ⊎ ((id : VerifiedIdentity) × (asked_identity own_portal plain_syntax guard router
              (request_with later_headers)
              bans
            ≡ ok id)
          × MayAsk own_portal plain_syntax guard router (request_with later_headers) bans id))
    × (router (request_with later_headers) bans ≡ (text "/mail", bans))
passed_needs_identity_example =
    passed_needs_identity own_portal plain_syntax guard router (request_with later_headers) bans
      {a = text "/mail"} {bans' = bans} session_passes

absence_never_bans_example :
    ((auth_middleware own_portal plain_syntax guard router (request_with no_headers) bans).1 ≡ bans)
    ⊎ ((a : Text) × ((auth_middleware own_portal plain_syntax guard router
            (request_with no_headers)
            bans).0
          ≡ passed a))
unfolding presents_event
absence_never_bans_example =
    absence_never_bans own_portal plain_syntax guard router (request_with no_headers) bans refl

abbrev own_token : Text
own_token = unary_encode (counting.finalize (counting.update (7 ∷ []) (token_input own_cookie)))

abbrev token_headers : AuthHeaders
token_headers = record later_headers { csrf_token = some own_token }

-- the directory answers with a mark
abbrev directory : Option RequestPrincipal → ℕ → ℕ × ℕ
directory principal state = (1, suc state)

session_sent : session_of token_headers ≡ some own_cookie
unfolding session_of session_set_cookie_header sealed
session_sent = refl

session_valid :
    decode_session_cookie one_event counting own_cookie (7 ∷ []) 1
    ≡ ok (record { sub = own_key; exp = 5 })
unfolding decode_session_cookie sealed
session_valid = refl

password_set :
    guarded_mutation own_portal directory token_headers
      (text "POST")
      (text "/api/v1/accounts/password")
      none
      0
    ≡ (performed 1, 1)
unfolding guarded_mutation session_set_cookie_header sealed
password_set = refl

performed_needs_token_example :
    (mac : Bytes) × (some (7 ∷ []) ≡ some mac)
    × (non_blank (some own_token)
        ≡ some (unary_encode (counting.finalize (counting.update mac (token_input own_cookie)))))
performed_needs_token_example =
    performed_needs_token own_portal counting-Seals directory token_headers (text "POST")
      (text "/api/v1/accounts/password") none 0 {session = own_cookie} {secret = 7 ∷ []}
      {p = record { sub = own_key; exp = 5 }} {a = 1} {state' = 1} session_sent refl session_valid
      password_set
