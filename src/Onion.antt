-- ===== src/Onion.antt =====
-- crates/management-ui/src/onion_discovery.rs: the onion address of a public host, and the headers that
-- tell a browser of it.
pub mod Headers
pub mod Build
pub mod Laws
pub mod Mail
pub mod Tests
use mathlib.Core.Option
use surmount_server.Assoc.{is_some}
use surmount_server.Net.{ip_eq}
use surmount_server.Prelude.{
  Bool, List, Option, [], all, any, if◌then◌else◌, is_empty, leb, length, list_eq, ltb, nat_eq,
  none, not, some, suc, true, zero, ℕ, ◌&&◌, ◌++◌, ◌==◌, ◌||◌, ◌∷◌,
}
use surmount_server.Redirect.{host_for_url_authority}
use surmount_server.Redirect.Location.{show_u16}
use surmount_server.Text.{
  Text, contains_char, is_ascii_digit, split, starts_with, text, to_ascii_lowercase, trim,
}
use surmount_server.Text.Chars.{as_bytes, strip_prefix, trim_end_matches}

-- `split(c).next().unwrap_or(s)`
abbrev first_part : ℕ → Text → Text
first_part c s = elim (split c s) [ [] ↦ s | part ∷ parts ↦ part ]

-- `str::strip_suffix`
unfoldable pub strip_text_suffix : Text → Text → Option Text
strip_text_suffix suffix [] = if is_empty suffix then some [] else none
strip_text_suffix suffix (c ∷ s) =
    let rest = strip_text_suffix suffix s in
    if c ∷ s == suffix then some [] else Option.map (λ t. c ∷ t) rest

-- `str::join`
unfoldable pub join_with : Text → List Text → Text
join_with sep [] = []
join_with sep (p ∷ []) = p
join_with sep (p ∷ q ∷ parts) = p ++ sep ++ join_with sep (q ∷ parts)

unfoldable pub host_is_onion : Text → Bool
unfolding host_for_url_authority to_ascii_lowercase strip_text_suffix
host_is_onion host =
    is_some (strip_text_suffix (text ".onion") (to_ascii_lowercase (host_for_url_authority host)))

unfoldable pub normalize_clearnet_host : Text → Text
unfolding host_for_url_authority to_ascii_lowercase
normalize_clearnet_host host = to_ascii_lowercase (host_for_url_authority host)

abbrev is_onion_byte : ℕ → Bool
is_onion_byte b = (leb b'a' b && leb b b'z') || (leb b'2' b && leb b b'7')

-- the text after its scheme
abbrev without_scheme : Text → Text
without_scheme t = elim (strip_prefix (text "https://") t) [
  | some rest ↦ rest
  | none ↦ elim (strip_prefix (text "http://") t) [
    | some rest ↦ rest
    | none ↦ elim (strip_prefix (text "HTTPS://") t) [
      | some rest ↦ rest
      | none ↦ elim (strip_prefix (text "HTTP://") t) [ some rest ↦ rest | none ↦ t ]
    ]
  ]
]

-- the host of an address of the scheme, without its path, its query and its last dots
unfoldable pub host_only : Text → Text
unfolding trim trim_end_matches split strip_prefix
host_only t = trim_end_matches b'.' (trim (first_part b'?' (first_part b'/' (without_scheme t))))

unfoldable pub parse_v3_onion_host : Text → Option Text
unfolding trim host_only contains_char to_ascii_lowercase strip_text_suffix as_bytes
parse_v3_onion_host raw =
    let t = trim raw in
    if is_empty t
    then none
    else if contains_char b':' (host_only t)
    then none
    else elim (strip_text_suffix (text ".onion") (to_ascii_lowercase (host_only t))) [
      | none ↦ none
      | some label ↦
          if not (length (as_bytes label) == 56)
          then none
          else if not (all is_onion_byte (as_bytes label))
          then none
          else some (label ++ text ".onion")
    ]

unfoldable pub parse_onion_scheme : Text → Option Text
unfolding trim to_ascii_lowercase
parse_onion_scheme raw =
    let t = to_ascii_lowercase (trim raw) in
    if t == text "http"
    then some (text "http")
    else if t == text "https"
    then some (text "https")
    else none

unfoldable pub scheme_from_onion_url : Text → Text
unfolding trim to_ascii_lowercase starts_with
scheme_from_onion_url url =
    if starts_with (text "https://") (to_ascii_lowercase (trim url))
    then text "https"
    else text "http"

abbrev is_protocol_byte : ℕ → Bool
is_protocol_byte b = (leb b'a' b && leb b b'z') || is_ascii_digit b || b == b'-'

-- a protocol that is kept, in the form it is kept in
abbrev kept_protocol : Text → Bool
kept_protocol t =
    not (is_empty t || ltb 16 (length (as_bytes t))) && all is_protocol_byte (as_bytes t)

-- the loop over the protocols
unfoldable pub sanitize_from : List Text → List Text → List Text
unfolding trim to_ascii_lowercase as_bytes is_ascii_digit
sanitize_from [] out = out
sanitize_from (p ∷ ps) out =
    let t = to_ascii_lowercase (trim p) in
    sanitize_from ps (if kept_protocol t && not (any (λ e. e == t) out) then out ++ t ∷ [] else out)

unfoldable pub sanitize_protocols : List Text → List Text
unfolding sanitize_from
sanitize_protocols protocols = sanitize_from protocols []

pub record OnionMapping : Type 0 where
  pub clearnet_host : Text
  pub onion_host : Text
  pub onion_port : ℕ
  pub protocols : List Text
  pub onion_scheme : Text
  pub ma_seconds : ℕ
  pub onion_authority : Text
  pub onion_location_enabled : Bool
  pub alt_svc_enabled : Bool
  pub onion_path_prefix : Text

abbrev pub default_ma_seconds : ℕ
default_ma_seconds = 86400

abbrev pub default_onion_port : ℕ
default_onion_port = 443

-- a number above zero
abbrev port_of : ℕ → Option ℕ
port_of zero = none
port_of (suc n) = some (suc n)

unfoldable pub try_new :
    (clearnet_host onion_host : Text) (onion_port : ℕ) (protocols : List Text) (onion_scheme : Text)
    → (ma_seconds : ℕ) (onion_location_enabled alt_svc_enabled : Bool) → Option OnionMapping
unfolding normalize_clearnet_host host_is_onion parse_v3_onion_host parse_onion_scheme
    sanitize_protocols show_u16
try_new clearnet_host onion_host onion_port protocols onion_scheme ma_seconds on_location on_alt =
    let clearnet = normalize_clearnet_host clearnet_host in
    let kept = sanitize_protocols protocols in
    if is_empty clearnet || host_is_onion clearnet
    then none
    else elim (parse_v3_onion_host onion_host) [
      | none ↦ none
      | some host ↦ elim (port_of onion_port) [
        | none ↦ none
        | some port ↦ elim (parse_onion_scheme onion_scheme) [
          | none ↦ none
          | some scheme ↦
              if is_empty kept
              then none
              else some (record {
                clearnet_host = clearnet;
                onion_host = host;
                onion_port = port;
                protocols = kept;
                onion_scheme = scheme;
                ma_seconds = ma_seconds;
                onion_authority = host ++ b':' ∷ show_u16 port;
                onion_location_enabled = on_location;
                alt_svc_enabled = on_alt;
                onion_path_prefix = [];
              })
        ]
      ]
    ]

unfoldable pub auto_derived : Text → Text → Option OnionMapping
unfolding parse_v3_onion_host scheme_from_onion_url try_new
auto_derived clearnet_host onion_url = elim (parse_v3_onion_host onion_url) [
  | none ↦ none
  | some onion_host ↦
      try_new clearnet_host onion_host default_onion_port (text "h2" ∷ [])
        (scheme_from_onion_url onion_url) default_ma_seconds true true
]
