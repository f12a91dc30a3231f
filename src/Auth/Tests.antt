-- ===== src/Auth/Tests.antt =====
-- The theorems on authentication at concrete inputs.
use surmount_server.Auth.{
  Event, allowlist_contains, auth_off_config, mode_nostr, mode_off, public_listen, skew,
}
use surmount_server.Auth.Listen.{IsLabAddress, validate_for_listen, validate_for_listen-ok}
use surmount_server.Auth.Next.{sanitize_login_next}
use surmount_server.Auth.Next.Laws.{IsLocal, sanitize_login_next-IsLocal}
use surmount_server.Auth.Nip98.{verify_nip98_event}
use surmount_server.Auth.Nip98.Laws.{IsProof, verify_nip98_event_iff}
use surmount_server.Auth.Samples.{counting, counting-Seals, trusting, unary_encode}
use surmount_server.Auth.Session.{SessionPayload, decode_session_cookie, is_subject, sealed}
use surmount_server.Auth.Session.Laws.{IsSigned, session_needs_mac}
use surmount_server.Net.{ip_eq, v4}
use surmount_server.Prelude.{
  [], err, false, list_eq, nat_eq, ok, refl, some, true, ◌<◌, ◌↔◌, ◌∷◌, ◌≡◌, ◌≢◌, ◌⊎◌,
}
use surmount_server.Text.{Text, text, to_ascii_lowercase, trim}
use surmount_server.Text.Chars.{Bytes}

abbrev secret : Bytes
secret = 7 ∷ 8 ∷ []

abbrev payload : SessionPayload
payload = record { sub = text "k"; exp = 3 }

abbrev cookie : Text
cookie = sealed counting secret (unary_encode (3 ∷ text "k"))

cookie_opens : decode_session_cookie trusting counting cookie secret 2 ≡ ok payload
unfolding sealed decode_session_cookie
cookie_opens = refl

session_needs_mac_example :
    IsSigned counting cookie secret × (2 < 3) × (is_subject trusting (text "k") ≡ true)
session_needs_mac_example =
    session_needs_mac trusting counting counting-Seals cookie secret 2 {p = payload} cookie_opens

abbrev login_url : Text
login_url = text "https://console.test/login"

abbrev login_event : Event
login_event = record {
  kind = 27235;
  created_at = 100;
  tags = (text "u" ∷ login_url ∷ []) ∷ (text "method" ∷ text "post" ∷ []) ∷ [];
  pubkey = text "AB";
  id = [];
  sig = [];
}

verify_nip98_event_iff_example :
    (verify_nip98_event trusting login_event login_url (text "POST") 130 60 (text "ab" ∷ [])
      ≡ ok (record { hex_pubkey = text "ab" }))
    ↔ ((IsProof trusting login_event login_url (text "POST") 130 60
          × (text "ab" ≡ to_ascii_lowercase (text "AB")))
        × (allowlist_contains (text "ab" ∷ []) (text "ab") ≡ true))
verify_nip98_event_iff_example =
    verify_nip98_event_iff trusting login_event login_url (text "POST") 130 60 (text "ab" ∷ [])
      (record { hex_pubkey = text "ab" })

login_is_accepted :
    verify_nip98_event trusting login_event login_url (text "POST") 130 60 (text "ab" ∷ [])
    ≡ ok (record { hex_pubkey = text "ab" })
unfolding verify_nip98_event
login_is_accepted = refl

late_login :
    verify_nip98_event trusting login_event login_url (text "POST") 161 60 (text "ab" ∷ [])
    ≡ err skew
unfolding verify_nip98_event
late_login = refl

sanitize_login_next-IsLocal_example :
    IsLocal (sanitize_login_next (text " /mail "))
    × (IsLocal (trim (text " /mail "))
        ↔ (sanitize_login_next (text " /mail ") ≡ trim (text " /mail ")))
sanitize_login_next-IsLocal_example = sanitize_login_next-IsLocal (text " /mail ")

next_of_other_host : sanitize_login_next (text "//evil.test/") ≡ text "/"
unfolding sanitize_login_next
next_of_other_host = refl

validate_for_listen-ok_example :
    (validate_for_listen auth_off_config (v4 0x0a000001) false ≡ ok tt) ↔ (
      ((auth_off_config.mode ≡ mode_nostr)
        × ((s : Bytes) × (auth_off_config.session_secret ≡ some s) × (s ≢ [])))
      ⊎ ((auth_off_config.mode ≡ mode_off) × ((false ≡ true) ⊎ IsLabAddress (v4 0x0a000001))))
validate_for_listen-ok_example = validate_for_listen-ok auth_off_config (v4 0x0a000001) false

open_console_refused : validate_for_listen auth_off_config (v4 0) false ≡ err public_listen
unfolding validate_for_listen
open_console_refused = refl
