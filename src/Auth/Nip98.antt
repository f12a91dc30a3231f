-- ===== src/Auth/Nip98.antt =====
-- crates/management-ui/src/auth.rs: the signed event (NIP-98) that a client proves its key with.
pub mod Laws
use surmount_server.Auth.{
  AuthError, Event, Nostr, VerifiedIdentity, allowlist_contains, bad_signature, malformed,
  method_mismatch, missing_tag, not_allowlisted, skew, url_mismatch, wrong_kind,
}
use surmount_server.Net.{ip_eq}
use surmount_server.Prelude.{
  Bool, List, Option, Result, [], false, guard, if◌then◌else◌, is_empty, length, list_eq, ltb,
  nat_eq, none, not, ok, ok_or, some, ℕ, ◌&&◌, ◌++◌, ◌+◌, ◌-◌, ◌==◌, ◌>>=◌, ◌>>◌, ◌||◌, ◌∷◌,
}
use surmount_server.Text.{Text, eq_ignore_ascii_case, starts_with, text, to_ascii_lowercase, trim}
use surmount_server.Text.Chars.{Bytes, as_bytes, ends_with_char, strip_prefix, trim_end_matches}

abbrev pub nip98_kind : ℕ
nip98_kind = 27235

-- the decoders of the crate `base64`
pub record Base64 : Type 0 where
  pub standard : Text → Option Bytes
  pub url_safe_no_pad : Text → Option Bytes
  pub url_safe : Text → Option Bytes
  pub standard_no_pad : Text → Option Bytes

abbrev pub first_of {ℓ} : {A : Type ℓ} → Option A → Option A → Option A
first_of (some a) o = some a
first_of none o = o

module _ (nostr : Nostr) (base64 : Base64) where
  unfoldable pub decode_event_b64_or_json : Text → Result AuthError Event
  unfolding trim starts_with
  decode_event_b64_or_json input =
      let t = trim input in
      if starts_with (text "{") t then ok_or (nostr.event_from_json t) malformed else do
        bytes ←
            ok_or
              (first_of (base64.standard t) (
                first_of (base64.url_safe_no_pad t)
                  (first_of (base64.url_safe t) (base64.standard_no_pad t))))
              malformed
        ok_or (nostr.event_from_slice bytes) malformed

  unfoldable pub parse_event_from_auth_header : Text → Result AuthError Event
  unfolding decode_event_b64_or_json trim strip_prefix
  parse_event_from_auth_header header = do
    b64 ←
        ok_or
          (first_of (strip_prefix (text "Nostr ") (trim header))
            (strip_prefix (text "nostr ") (trim header)))
          malformed
    guard (not (is_empty (trim b64))) malformed
    decode_event_b64_or_json (trim b64)

-- `now_unix.abs_diff(created)`
abbrev pub abs_diff : ℕ → ℕ → ℕ
abs_diff a b = (a - b) + (b - a)

unfoldable pub tag_value : Text → List Text → Option Text
tag_value name (k ∷ v ∷ parts) = if k == name then some v else none
tag_value name _ = none

unfoldable pub nip98_tag_value : List (List Text) → Text → Option Text
unfolding tag_value
nip98_tag_value [] name = none
nip98_tag_value (tag ∷ tags) name = first_of (tag_value name tag) (nip98_tag_value tags name)

unfoldable pub norm : Text → Text
unfolding trim as_bytes trim_end_matches ends_with_char
norm s =
    let t = trim s in
    if ltb 1 (length (as_bytes t)) && ends_with_char b'/' t then trim_end_matches b'/' t else t

-- equal as parsed addresses, where both parse
abbrev pub same_url : Option Text → Option Text → Bool
same_url (some a) (some e) = a == e
same_url _ _ = false

unfoldable pub urls_match_for_nip98 : Nostr → Text → Text → Bool
unfolding norm trim
urls_match_for_nip98 nostr authorized expected =
    same_url (nostr.parse_url (trim authorized)) (nostr.parse_url (trim expected))
    || norm authorized == norm expected

module _ (nostr : Nostr) where
  unfoldable pub verify_nip98_event_unlisted :
      Event → Text → Text → ℕ → ℕ → Result AuthError VerifiedIdentity
  unfolding nip98_tag_value urls_match_for_nip98 eq_ignore_ascii_case to_ascii_lowercase
  verify_nip98_event_unlisted event expected_url expected_method now_unix max_skew_secs = do
    guard (event.kind == nip98_kind) wrong_kind
    guard (nostr.verify event) bad_signature
    guard (not (ltb max_skew_secs (abs_diff now_unix event.created_at))) skew
    authorized_url ← ok_or (nip98_tag_value event.tags (text "u")) (missing_tag (text "u"))
    guard (urls_match_for_nip98 nostr authorized_url expected_url) url_mismatch
    method ← ok_or (nip98_tag_value event.tags (text "method")) (missing_tag (text "method"))
    guard (eq_ignore_ascii_case method expected_method) method_mismatch
    ok (record { hex_pubkey = to_ascii_lowercase event.pubkey })

  unfoldable pub verify_nip98_event :
      Event → Text → Text → ℕ → ℕ → List Text → Result AuthError VerifiedIdentity
  unfolding verify_nip98_event_unlisted allowlist_contains
  verify_nip98_event event expected_url expected_method now_unix max_skew_secs allowlist = do
    identity ← verify_nip98_event_unlisted event expected_url expected_method now_unix max_skew_secs
    guard (allowlist_contains allowlist identity.hex_pubkey) not_allowlisted
    ok identity

-- the address that an event must name: a base address that is configured wins
unfoldable pub absolute_request_url : Option Text → Text → Text → Text → Text
unfolding trim trim_end_matches
absolute_request_url (some base) scheme host path_and_query =
    trim_end_matches b'/' (trim base) ++ path_and_query
absolute_request_url none scheme host path_and_query =
    scheme
    ++ text "://"
    ++ trim host
    ++ (if is_empty path_and_query then text "/" else path_and_query)
