-- ===== src/Auth/Listen.antt =====
-- crates/management-ui/src/auth.rs: no open console on a public address.
-- 10.0.0.0/8, 172.16.0.0/12 and 192.168.0.0/16
use surmount_server.Auth.{
  AuthConfig, AuthMode, ConfigError, has_secret, is_nostr, missing_secret, mode_nostr, mode_off,
  public_listen, validate,
}
use surmount_server.Net.{IpAddr, ip_eq, is_loopback, is_unspecified, v4, v6}
use surmount_server.Prelude.{
  Bool, Option, Result, [], arith, err, false, if◌then◌else◌, inl, inr, list_eq, nat_eq, none, not,
  ok, refl, some, true, ℕ, ◌&&◌, ◌/◌, ◌==◌, ◌>>◌, ◌^◌, ◌||◌, ◌↔◌, ◌∷◌, ◌≡◌, ◌≢◌, ◌≤◌, ◌⊎◌,
}
use surmount_server.Text.Chars.{Bytes}

abbrev pub is_private_v4 : ℕ → Bool
is_private_v4 n = n / 2 ^ 24 == 10 || n / 2 ^ 20 == 0xac1 || n / 2 ^ 16 == 0xc0a8

-- 169.254.0.0/16
abbrev pub is_link_local_v4 : ℕ → Bool
is_link_local_v4 n = n / 2 ^ 16 == 0xa9fe

-- fc00::/7
abbrev pub is_unique_local_v6 : ℕ → Bool
is_unique_local_v6 n = n / 2 ^ 121 == 0x7e

-- fe80::/10
abbrev pub is_unicast_link_local_v6 : ℕ → Bool
is_unicast_link_local_v6 n = n / 2 ^ 118 == 0x3fa

unfoldable pub listen_is_public_primary_edge : IpAddr → Bool
listen_is_public_primary_edge (v4 n) =
    if is_unspecified (v4 n)
    then true
    else not (is_loopback (v4 n) || is_private_v4 n || is_link_local_v4 n)
listen_is_public_primary_edge (v6 n) =
    if is_unspecified (v6 n)
    then true
    else not (is_loopback (v6 n) || is_unique_local_v6 n || is_unicast_link_local_v6 n)

unfoldable pub require_auth_when_public_edge :
    AuthMode → IpAddr → Bool → Result ConfigError (Unit {0})
unfolding listen_is_public_primary_edge
require_auth_when_public_edge mode listen allow_public_auth_off =
    if is_nostr mode
    then ok tt
    else if allow_public_auth_off
    then ok tt
    else if not (listen_is_public_primary_edge listen)
    then ok tt
    else err public_listen

unfoldable pub validate_for_listen : AuthConfig → IpAddr → Bool → Result ConfigError (Unit {0})
unfolding validate require_auth_when_public_edge
validate_for_listen config listen allow_public_auth_off = do
  validate config
  require_auth_when_public_edge config.mode listen allow_public_auth_off

-- the steps of `validate_for_listen`
abbrev start_steps : (asks secret allow edge : Bool) → Result ConfigError (Unit {0})
start_steps asks secret allow edge =
    (if asks && not secret then err missing_secret else ok tt)
    >> (if asks
        then ok tt
        else if allow
        then ok tt
        else if not edge
        then ok tt
        else err public_listen)

starts :
    (asks secret allow edge : Bool)
    → (start_steps asks secret allow edge ≡ ok tt)
      ↔ (((asks ≡ true) × (secret ≡ true)) ⊎ ((asks ≡ false) × ((allow ≡ true) ⊎ (edge ≡ false))))
starts true true allow edge = (λ h. inl (refl, refl), λ h. refl)
starts true false allow edge = (λ h. absurd cc, λ h. ground arith)
starts false secret true edge = (λ h. inr (refl, inl refl), λ h. refl)
starts false secret false false = (λ h. inr (refl, inr refl), λ h. refl)
starts false secret false true = (λ h. absurd cc, λ h. ground arith)

-- between two addresses, both included
abbrev IsWithin : ℕ → ℕ → ℕ → Type 0
IsWithin first last n = (first ≤ n) × (n ≤ last)

-- An address that only the machine or its own network reaches: 127.0.0.0 to 127.255.255.255,
-- 10.0.0.0 to 10.255.255.255, 172.16.0.0 to 172.31.255.255, 192.168.0.0 to 192.168.255.255 and
-- 169.254.0.0 to 169.254.255.255; ::1, fc00:: to the last address of fdff, and fe80:: to the last
-- address of febf.
abbrev pub IsLabAddress : IpAddr → Type 0
IsLabAddress (v4 n) =
    IsWithin 0x7f000000 0x7fffffff n
    ⊎ IsWithin 0x0a000000 0x0affffff n
    ⊎ IsWithin 0xac100000 0xac1fffff n
    ⊎ IsWithin 0xc0a80000 0xc0a8ffff n
    ⊎ IsWithin 0xa9fe0000 0xa9feffff n
IsLabAddress (v6 n) =
    (n ≡ 1)
    ⊎ IsWithin 0xfc000000000000000000000000000000 0xfdffffffffffffffffffffffffffffff n
    ⊎ IsWithin 0xfe800000000000000000000000000000 0xfebfffffffffffffffffffffffffffff n

lab_v4 : (n : ℕ) → (listen_is_public_primary_edge (v4 n) ≡ false) ↔ IsLabAddress (v4 n)
unfolding listen_is_public_primary_edge
lab_v4 n = (ground arith, ground arith)

lab_v6 : (n : ℕ) → (listen_is_public_primary_edge (v6 n) ≡ false) ↔ IsLabAddress (v6 n)
unfolding listen_is_public_primary_edge
lab_v6 n = (ground arith, ground arith)

public-IsLabAddress : (ip : IpAddr) → (listen_is_public_primary_edge ip ≡ false) ↔ IsLabAddress ip
public-IsLabAddress (v4 n) = lab_v4 n
public-IsLabAddress (v6 n) = lab_v6 n

has_secret_iff :
    (o : Option Bytes) → (has_secret o ≡ true) ↔ ((s : Bytes) × (o ≡ some s) × (s ≢ []))
has_secret_iff none = (λ h. absurd cc, λ (s, e, full). absurd cc)
has_secret_iff (some []) = (λ h. absurd cc, λ (s, e, full). absurd (full cc))
has_secret_iff (some (b ∷ s)) = (λ h. (b ∷ s, refl, λ e. cc), λ h. refl)

mode_on : (m : AuthMode) → (is_nostr m ≡ true) ↔ (m ≡ mode_nostr)
mode_on mode_nostr = (λ h. refl, λ h. refl)
mode_on mode_off = (λ h. absurd cc, λ h. absurd cc)

mode_without : (m : AuthMode) → (is_nostr m ≡ false) ↔ (m ≡ mode_off)
mode_without mode_nostr = (λ h. absurd cc, λ h. absurd cc)
mode_without mode_off = (λ h. refl, λ h. refl)

-- The check of the authentication settings against the listen address passes exactly when
-- authentication is by nostr and has a secret that is not empty, or is off and either public use
-- was allowed or the address lies in one of the ranges of loopback, private and link-local
-- addresses of IPv4, or of loopback, unique local and link-local addresses of IPv6, which are
-- written out by their first and last address.
pub validate_for_listen-ok :
    (config : AuthConfig) (listen : IpAddr) (allow_public_auth_off : Bool)
    → (validate_for_listen config listen allow_public_auth_off ≡ ok tt) ↔ (
        ((config.mode ≡ mode_nostr) × ((s : Bytes) × (config.session_secret ≡ some s) × (s ≢ [])))
        ⊎ ((config.mode ≡ mode_off) × ((allow_public_auth_off ≡ true) ⊎ IsLabAddress listen)))
unfolding validate_for_listen
validate_for_listen-ok config listen allow =
    let mode = config.mode in
    let (there, back) =
      starts (is_nostr mode) (has_secret config.session_secret) allow
        (listen_is_public_primary_edge listen) in
    let edge = public-IsLabAddress listen in
    let secret = has_secret_iff config.session_secret in
    (
      λ h. elim (there h) [
        | inl (asks, has) ↦ inl ((mode_on mode).0 asks, secret.0 has)
        | inr (free, inl allowed_open) ↦ inr ((mode_without mode).0 free, inl allowed_open)
        | inr (free, inr lab) ↦ inr ((mode_without mode).0 free, inr (edge.0 lab))
      ],
      λ h. back (elim h [
        | inl (asks, has) ↦ inl ((mode_on mode).1 asks, secret.1 has)
        | inr (free, inl allowed_open) ↦ inr ((mode_without mode).1 free, inl allowed_open)
        | inr (free, inr lab) ↦ inr ((mode_without mode).1 free, inr (edge.1 lab))
      ]),
    )
