-- ===== src/Edge/Client.antt =====
-- crates/management-ui/src/main.rs: whose request it is.
use mathlib.Core.Option
use surmount_server.ClientIp.{parse_single_ip}
use surmount_server.Edge.{Headers, client_ip}
use surmount_server.Net.{IpAddr, IpSyntax, ParsesPrinted, ip_eq, is_loopback}
use surmount_server.Prelude.{
  Bool-cases, Option, Option-cases, if◌then◌else◌, inl, inr, list_eq, nat_eq, refl, ◌≡◌,
}
use surmount_server.Text.{Text}

module _ (syntax : IpSyntax) where
  -- the address that the edge trusts: X-Real-IP from a loopback peer, else the peer
  abbrev pub trusted_ip : IpAddr → Option Text → IpAddr
  trusted_ip addr x_real_ip =
      if is_loopback addr
      then Option.get_or (Option.bind x_real_ip (parse_single_ip syntax)) addr
      else addr

  -- Where addresses are printed and read back, the client of a request is the address in X-Real-IP
  -- if the peer is loopback and the header parses, and else the peer: from another peer no header
  -- changes it, and X-Forwarded-For never does.
  pub client_ip_lem :
      ParsesPrinted syntax
      → (addr : IpAddr) (headers : Headers)
      → client_ip syntax addr headers ≡ trusted_ip addr headers.x_real_ip
  unfolding client_ip
  client_ip_lem printed addr headers = elim (Bool-cases (is_loopback addr)) [
    | inl home ↦ elim (Option-cases (Option.bind headers.x_real_ip (parse_single_ip syntax))) [
      | inl nothing ↦ rw (home, nothing, printed addr) refl
      | inr (ip, found) ↦ rw (home, found, printed ip) refl
    ]
    | inr away ↦ rw (away, printed addr) refl
  ]
