-- ===== src/MtaSts.antt =====
-- crates/management-ui/src/mta_sts.rs: the MTA-STS policy and the host that it is served on.
use surmount_server.Assoc.{is_some}
use surmount_server.Net.{IpSyntax, ip_eq}
use surmount_server.Prelude.{
  Bool, List, Option, Result, [], err, false, if◌then◌else◌, is_empty, list_eq, nat_eq, none, not,
  ok, some, true, ℕ, ◌&&◌, ◌++◌, ◌==◌, ◌||◌, ◌∷◌,
}
use surmount_server.Redirect.{host_for_url_authority, host_is_allowlisted}
use surmount_server.Text.{Text, eq_ignore_ascii_case, text, to_ascii_lowercase, trim}

pub data MtaStsMode : Type 0 where
  sts_off sts_testing sts_enforce : MtaStsMode

-- the error carries the word that is no mode
unfoldable pub parse_sts_mode : Text → Result Text MtaStsMode
unfolding trim to_ascii_lowercase
parse_sts_mode raw =
    let m = to_ascii_lowercase (trim raw) in
    if m == []
      || m == text "off"
      || m == text "none"
      || m == text "disabled"
      || m == text "0"
      || m == text "false"
    then ok sts_off
    else if m == text "testing" || m == text "test"
    then ok sts_testing
    else if m == text "enforce" || m == text "enforcing"
    then ok sts_enforce
    else err m

unfoldable pub as_policy_mode : MtaStsMode → Option Text
as_policy_mode sts_off = none
as_policy_mode sts_testing = some (text "testing")
as_policy_mode sts_enforce = some (text "enforce")

unfoldable pub sts_is_enabled : MtaStsMode → Bool
unfolding as_policy_mode
sts_is_enabled mode = is_some (as_policy_mode mode)

unfoldable pub mta_sts_policy_hostname : Text → Text
unfolding host_for_url_authority
mta_sts_policy_hostname primary_domain =
    let primary = host_for_url_authority primary_domain in
    if is_empty primary then [] else text "mta-sts." ++ primary

unfoldable pub host_is_mta_sts_policy_host : Text → Text → Bool
unfolding mta_sts_policy_hostname host_for_url_authority eq_ignore_ascii_case
host_is_mta_sts_policy_host host_header primary_domain =
    let expect = mta_sts_policy_hostname primary_domain in
    if is_empty expect
    then false
    else eq_ignore_ascii_case (host_for_url_authority host_header) expect

-- `print` prints a u64; lines end in a line feed
unfoldable pub mta_sts_policy_body : (print : ℕ → Text) → MtaStsMode → Text → ℕ → Option Text
unfolding as_policy_mode host_for_url_authority
mta_sts_policy_body print mode mx max_age = elim (as_policy_mode mode) [
  | none ↦ none
  | some mode_s ↦
      if is_empty (host_for_url_authority mx)
      then none
      else some (
          text "version: STSv1"
          ++ 10 ∷ text "mode: "
          ++ mode_s
          ++ 10 ∷ text "mx: "
          ++ host_for_url_authority mx
          ++ 10 ∷ text "max_age: "
          ++ print max_age
          ++ 10 ∷ [])
]

unfoldable pub should_serve_mta_sts_policy : IpSyntax → MtaStsMode → Text → Text → List Text → Bool
unfolding sts_is_enabled host_is_mta_sts_policy_host host_is_allowlisted
should_serve_mta_sts_policy syntax mode host_header primary_domain allowed_hosts =
    if not (sts_is_enabled mode)
    then false
    else if not (host_is_mta_sts_policy_host host_header primary_domain)
    then false
    else if not (is_empty allowed_hosts)
        && not (host_is_allowlisted syntax host_header allowed_hosts)
    then false
    else true
