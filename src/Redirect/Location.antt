-- ===== src/Redirect/Location.antt =====
-- crates/management-ui/src/redirect.rs: the target of the upgrade from HTTP to HTTPS, and whether its
-- listener is bound.
use surmount_server.Net.{IpAddr, IpSyntax, ip_eq, v6}
use surmount_server.Prelude.{
  Bool, List, Option, [], false, if◌then◌else◌, is_empty, list_eq, nat_eq, none, not, some, suc,
  true, zero, ℕ, ◌%◌, ◌&&◌, ◌++◌, ◌+◌, ◌/◌, ◌==◌, ◌||◌, ◌∷◌,
}
use surmount_server.Redirect.{host_for_url_authority, host_is_allowlisted}
use surmount_server.Text.{Text, starts_with, text}

pub data HttpToHttps : Type 0 where
  redirect : Text → HttpToHttps
  pass_through : HttpToHttps

-- `Display for u16`: the digits before those already written
unfoldable pub digits : ℕ → ℕ → Text → Text
digits zero n shown = shown
digits (suc fuel) n shown =
    let more = digits fuel (n / 10) ((b'0' + n % 10) ∷ shown) in
    if n == 0 && not (is_empty shown) then shown else more

-- five digits are enough for a u16
unfoldable pub show_u16 : ℕ → Text
unfolding digits
show_u16 n = digits 5 n []

abbrev pub redirect_location_authority : Text → Text → Text → Text
redirect_location_authority host_header primary_domain services_hostname =
    host_for_url_authority host_header

-- nothing for a missing port and for 443
abbrev pub port_suffix : Option ℕ → Text
port_suffix none = []
port_suffix (some port) = if port == 443 then [] else b':' ∷ show_u16 port

abbrev pub is_v6 : Option IpAddr → Bool
is_v6 (some (v6 n)) = true
is_v6 _ = false

unfoldable pub normalize_redirect_path : Text → Option Text
unfolding starts_with
normalize_redirect_path [] = some (text "/")
normalize_redirect_path (c ∷ s) = if starts_with (text "/") (c ∷ s) then some (c ∷ s) else none

module _ (syntax : IpSyntax) where
  unfoldable pub https_location : Text → Text → Option ℕ → Text
  unfolding show_u16
  https_location authority_host path https_port =
      let authority =
        if is_v6 (syntax.parse authority_host)
        then b'[' ∷ authority_host ++ b']' ∷ []
        else authority_host in
      text "https://" ++ authority ++ port_suffix https_port ++ path

  unfoldable pub redirect_http_to_https :
      Bool → Text → Text → Option ℕ → List Text → Text → Text → HttpToHttps
  unfolding host_is_allowlisted host_for_url_authority normalize_redirect_path https_location
  redirect_http_to_https enabled host path_and_query https_port allowed_hosts primary_domain
        services_hostname =
      let host_only = redirect_location_authority host primary_domain services_hostname in
      if not enabled
      then pass_through
      else if is_empty allowed_hosts || not (host_is_allowlisted syntax host allowed_hosts)
      then pass_through
      else if is_empty host_only
      then pass_through
      else elim (normalize_redirect_path path_and_query) [
        | none ↦ pass_through
        | some path ↦ redirect (https_location host_only path https_port)
      ]

pub data RedirectStatus : Type 0 where
  permanent_redirect308 : RedirectStatus
  moved_permanently301 : RedirectStatus

abbrev pub as_u16 : RedirectStatus → ℕ
as_u16 permanent_redirect308 = 308
as_u16 moved_permanently301 = 301

-- a socket address: the address and its port
pub data RedirectBindDecision : Type 0 where
  bind : IpAddr × ℕ → RedirectBindDecision
  skip : RedirectBindDecision
  fail_closed : RedirectBindDecision

abbrev pub redirect_bind_decision : Bool → Option (IpAddr × ℕ) → List Text → RedirectBindDecision
redirect_bind_decision false listen allowed_hosts = skip
redirect_bind_decision true none allowed_hosts = skip
redirect_bind_decision true (some addr) allowed_hosts =
    if is_empty allowed_hosts then fail_closed else bind addr

abbrev pub https_port_for_redirect : ℕ → Option ℕ
https_port_for_redirect p = if p == 443 then none else some p
