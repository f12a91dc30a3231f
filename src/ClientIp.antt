-- ===== src/ClientIp.antt =====
-- crates/management-ui/src/client_ip.rs: the client's identity for the rate limit and the bans.
use mathlib.Core.Option
use surmount_server.Net.{IpAddr, IpSyntax, ip_eq, is_loopback}
use surmount_server.Prelude.{Option, if◌then◌else◌, list_eq, nat_eq, none, some}
use surmount_server.Text.{Text, trim}

module _ (syntax : IpSyntax) where
  unfoldable pub parse_single_ip : Text → Option IpAddr
  parse_single_ip raw = syntax.parse (trim raw)

  unfoldable pub client_ip_for_rate_limit : IpAddr → Option Text → Option Text → Text
  unfolding parse_single_ip
  client_ip_for_rate_limit peer x_real_ip x_forwarded_for =
      if is_loopback peer
      then elim (Option.bind x_real_ip parse_single_ip) [
        | some ip ↦ syntax.to_string ip
        | none ↦ syntax.to_string peer
      ]
      else syntax.to_string peer
