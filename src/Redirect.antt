-- ===== src/Redirect.antt =====
-- crates/management-ui/src/redirect.rs: the host of a request, and the tests on it.
pub mod Surface
pub mod Location
pub mod Upgrade
pub mod Routing
pub mod Port
pub mod Target
mod Tests
use mathlib.Core.Option
use surmount_server.Net.{IpSyntax, ip_eq}
use surmount_server.Prelude.{
  Bool, List, Option, [], all, any, false, if◌then◌else◌, is_empty, list_eq, nat_eq, none, not,
  some, ℕ, ◌&&◌, ◌++◌, ◌==◌, ◌||◌, ◌∷◌,
}
use surmount_server.Text.{
  Text, contains_char, eq_ignore_ascii_case, is_ascii_digit, rsplit_once, split_once, text,
  to_ascii_lowercase, trim,
}
use surmount_server.Text.Chars.{non_blank}

-- `strip_suffix(c)`
unfoldable pub strip_suffix : ℕ → Text → Option Text
strip_suffix c [] = none
strip_suffix c (d ∷ s) =
    let rest = strip_suffix c s in
    if is_empty s then (if d == c then some [] else none) else Option.map (λ t. d ∷ t) rest

-- `[v6]` or `[v6]:port`, after the bracket
abbrev bracketed : Text → Text
bracketed rest = elim (split_once b']' rest) [
  | some (inner, after) ↦ b'[' ∷ inner ++ b']' ∷ []
  | none ↦ b'[' ∷ rest
]

abbrev pub is_port : Text → Bool
is_port s = all is_ascii_digit s && not (is_empty s)

abbrev pub without_port : Text → Text
without_port host = elim (rsplit_once b':' host) [
  | some (name, port) ↦
      if is_port port then (if contains_char b':' name then host else name) else host
  | none ↦ host
]

abbrev pub trimmed_without_port : Text → Text
trimmed_without_port [] = []
trimmed_without_port (c ∷ rest) = if c == b'[' then bracketed rest else without_port (c ∷ rest)

unfoldable pub host_without_port : Text → Text
unfolding trim split_once rsplit_once is_ascii_digit contains_char
host_without_port host = trimmed_without_port (trim host)

abbrev pub unbracketed : Text → Text
unbracketed [] = []
unbracketed (c ∷ rest) =
    if c == b'[' then Option.get_or (strip_suffix b']' rest) (c ∷ rest) else c ∷ rest

unfoldable pub host_for_url_authority : Text → Text
unfolding host_without_port strip_suffix
host_for_url_authority host_header = unbracketed (host_without_port host_header)

module _ (syntax : IpSyntax) where
  -- both parse, to one address
  abbrev pub same_ip : Text → Text → Bool
  same_ip a b = elim (syntax.parse a) [
    | none ↦ false
    | some c ↦ elim (syntax.parse b) [ none ↦ false | some al ↦ c == al ]
  ]

  unfoldable pub allows : Text → Text → Bool
  unfolding host_for_url_authority to_ascii_lowercase
  allows candidate a =
      let allow = host_for_url_authority a in
      to_ascii_lowercase candidate == to_ascii_lowercase allow || same_ip candidate allow

  unfoldable pub host_is_allowlisted : Text → List Text → Bool
  unfolding allows
  host_is_allowlisted host_header allowed_hosts =
      if is_empty allowed_hosts
      then false
      else any (allows (host_for_url_authority host_header)) allowed_hosts

unfoldable pub is_apex_or_www : Text → Text → Bool
unfolding host_for_url_authority to_ascii_lowercase
is_apex_or_www host_header primary_domain =
    let primary = host_for_url_authority primary_domain in
    let h = to_ascii_lowercase (host_for_url_authority host_header) in
    let p = to_ascii_lowercase primary in
    if is_empty primary then false else h == p || h == text "www." ++ p

unfoldable pub is_services_host : Text → Text → Bool
unfolding host_for_url_authority eq_ignore_ascii_case
is_services_host host_header services_hostname =
    let services = host_for_url_authority services_hostname in
    if is_empty services
    then false
    else eq_ignore_ascii_case (host_for_url_authority host_header) services

unfoldable pub request_authority_host : Option Text → Option Text → Text
unfolding non_blank
request_authority_host host_header uri_host = elim (non_blank host_header) [
  | some h ↦ h
  | none ↦ Option.get_or (non_blank uri_host) []
]
