-- ===== src/Redirect/Target.antt =====
-- crates/management-ui/src/redirect.rs: where a redirect leads, read as a client reads it.
use mathlib.Core.List.{append-nil}
use mathlib.Core.Path.{subst}
use surmount_server.Net.{IpAddr, IpSyntax, ip_eq, v4, v6}
use surmount_server.Prelude.{
  Bool, Bool-cases, List, Option, [], all, ap, arith, contradictory, false, if◌then◌else◌, inl, inr,
  is_empty, list_eq, nat_beq_iff, nat_eq, none, not, refl, some, suc, sym, true, zero, ℕ, ◌%◌, ◌&&◌,
  ◌*◌, ◌++◌, ◌+◌, ◌-◌, ◌/◌, ◌<◌, ◌==◌, ◌∙◌, ◌∷◌, ◌≡◌, ◌≢◌, ◌⊎◌,
}
use surmount_server.Redirect.{host_for_url_authority, is_port}
use surmount_server.Redirect.Location.{
  digits, https_location, is_v6, port_suffix, redirect, redirect_http_to_https, show_u16,
}
use surmount_server.Redirect.Port.{authority-name, authority-port, is_name_char}
use surmount_server.Redirect.Upgrade.{IsAllowlisted, SameHost, redirect-https_location}
use surmount_server.Text.{Text, is_ascii_digit, starts_with, text}

-- the number that a text of digits writes, after the digits already read
abbrev decimal_from : ℕ → Text → ℕ
decimal_from read [] = read
decimal_from read (c ∷ s) = decimal_from (read * 10 + (c - b'0')) s

-- a number with at most so many digits
abbrev Fits : ℕ → ℕ → Type 0
Fits zero n = n ≡ 0
Fits (suc fuel) n = Fits fuel (n / 10)

digit_value : (n : ℕ) → n / 10 * 10 + (b'0' + n % 10 - b'0') ≡ n
digit_value n = omega arith

decimal_from-digits :
    (fuel n : ℕ) (shown : Text)
    → Fits fuel n
    → decimal_from 0 (digits fuel n shown) ≡ decimal_from n shown
unfolding digits
decimal_from-digits zero n shown fits = ap (λ k. decimal_from k shown) (sym fits)
decimal_from-digits (suc fuel) n shown fits = elim (Bool-cases (n == 0 && not (is_empty shown))) [
  | inl done ↦ rw done (ap (λ k. decimal_from k shown) (sym (ground arith)))
  | inr more ↦ rw more (
      decimal_from-digits fuel (n / 10) ((b'0' + n % 10) ∷ shown) fits
      ∙ ap (λ k. decimal_from k shown) (digit_value n))
]

digits-digits :
    (fuel n : ℕ) (shown : Text)
    → all is_ascii_digit shown ≡ true
    → all is_ascii_digit (digits fuel n shown) ≡ true
unfolding digits is_ascii_digit
digits-digits zero n shown h = h
digits-digits (suc fuel) n shown h =
    ground (arith, digits-digits fuel (n / 10) ((b'0' + n % 10) ∷ shown))

digits-full :
    (fuel n : ℕ) (shown : Text) → is_empty shown ≡ false → is_empty (digits fuel n shown) ≡ false
unfolding digits
digits-full zero n shown h = h
digits-full (suc fuel) n shown h =
    ground (arith, digits-full fuel (n / 10) ((b'0' + n % 10) ∷ shown))

show_u16-full : (n : ℕ) → is_empty (show_u16 n) ≡ false
unfolding show_u16 digits
show_u16-full n = ground (arith, digits-full 4 (n / 10) ((b'0' + n % 10) ∷ []))

show_u16-is_port : (n : ℕ) → is_port (show_u16 n) ≡ true
unfolding show_u16
show_u16-is_port n = rw (digits-digits 5 n [] refl) (ap not (show_u16-full n))

u16-Fits : (n : ℕ) → n < 65536 → Fits 5 n
u16-Fits n h = omega arith

show_u16-decimal : (n : ℕ) → n < 65536 → decimal_from 0 (show_u16 n) ≡ n
unfolding show_u16
show_u16-decimal n h = decimal_from-digits 5 n [] (u16-Fits n h)

-- the port of a target: none for the default port of HTTPS, and else its digits after a colon
abbrev pub IsPortOf : Option ℕ → Text → Text → Type 0
IsPortOf port name authority =
    (((port ≡ none) ⊎ (port ≡ some 443)) × (authority ≡ name))
    ⊎ ((p : ℕ) × (shown : Text) × (port ≡ some p)
        × (p ≢ 443)
        × (authority ≡ name ++ b':' ∷ shown)
        × (is_port shown ≡ true)
        × (decimal_from 0 shown ≡ p))

abbrev IsU16 : Option ℕ → Type 0
IsU16 none = Unit
IsU16 (some p) = p < 65536

port_suffix-IsPortOf :
    (name : Text) (port : Option ℕ) → IsU16 port → IsPortOf port name (name ++ port_suffix port)
port_suffix-IsPortOf name none h = inl (inl refl, append-nil name)
port_suffix-IsPortOf name (some p) h = elim (Bool-cases (p == 443)) [
  | inl standard ↦ inl (
    inr (ap some ((nat_beq_iff p 443).0 standard)),
    ap (λ (b : Bool). name ++ (if b then [] else b':' ∷ show_u16 p)) standard ∙ append-nil name,
  )
  | inr special ↦ inr (
    p,
    show_u16 p,
    refl,
    (λ e. contradictory ((nat_beq_iff p 443).1 e) special),
    ap (λ (b : Bool). name ++ (if b then [] else b':' ∷ show_u16 p)) special,
    show_u16-is_port p,
    show_u16-decimal p h,
  )
]

not_v6 : (o : Option IpAddr) → ((n : ℕ) → o ≢ some (v6 n)) → is_v6 o ≡ false
not_v6 none h = refl
not_v6 (some (v4 n)) h = refl
not_v6 (some (v6 n)) h = absurd (h n refl)

module _ (syntax : IpSyntax) where
  IsAllowlisted-same :
      (a b : Text) (hosts : List Text)
      → host_for_url_authority a ≡ host_for_url_authority b
      → IsAllowlisted syntax a hosts
      → IsAllowlisted syntax b hosts
  IsAllowlisted-same a b [] same h = h
  IsAllowlisted-same a b (c ∷ hosts) same (inl here) =
      inl (subst (λ (x : Text). SameHost syntax x (host_for_url_authority c)) same here)
  IsAllowlisted-same a b (c ∷ hosts) same (inr there) =
      inr (IsAllowlisted-same a b hosts same there)

  authority-IsPortOf :
      (port : Option ℕ) (name authority : Text)
      → all is_name_char name ≡ true
      → IsPortOf port name authority
      → host_for_url_authority authority ≡ name
  authority-IsPortOf port name authority named (inl (standard, same)) =
      ap host_for_url_authority same ∙ authority-name name named
  authority-IsPortOf port name authority named
        (inr (p, shown, set, special, same, digital, value)) =
      ap host_for_url_authority same
      ∙ authority-port name shown named digital
      ∙ authority-name name named

  https_location-name :
      (name path : Text) (port : Option ℕ)
      → ((n : ℕ) → syntax.parse name ≢ some (v6 n))
      → https_location syntax name path port ≡ text "https://" ++ name ++ port_suffix port ++ path
  unfolding https_location
  https_location-name name path port plain = rw (not_v6 (syntax.parse name) plain) refl

  -- With the upgrade on, a request whose host is on the allowlist and is a name, not empty, without
  -- spaces, colons and opening brackets and no IPv6 address, and whose path begins with a slash, is
  -- redirected to `https://`, an authority and that path. The authority is the name, followed by a
  -- colon and decimal digits that write the port if a port other than 443 is given; read as a host
  -- header, it is the same name and is on the allowlist again.
  pub IsAllowlisted-redirect :
      (host path name : Text) (port : Option ℕ) (hosts : List Text)
      → (primary_domain services_hostname : Text) → host_for_url_authority host ≡ name
      → all is_name_char name ≡ true
      → name ≢ []
      → ((n : ℕ) → syntax.parse name ≢ some (v6 n))
      → IsU16 port
      → IsAllowlisted syntax host hosts
      → starts_with (text "/") path ≡ true
      → (authority : Text) × (redirect_http_to_https syntax true host path port hosts primary_domain
            services_hostname
          ≡ redirect (text "https://" ++ authority ++ path))
        × IsPortOf port name authority
        × (host_for_url_authority authority ≡ name)
        × IsAllowlisted syntax authority hosts
  IsAllowlisted-redirect host path name port hosts primary services read named full plain fits
        listed slash =
      let authority = name ++ port_suffix port in
      let ported = port_suffix-IsPortOf name port fits in
      let back = authority-IsPortOf port name authority named ported in
      (
        authority,
        redirect-https_location syntax host path port hosts primary services listed
              (λ e. full (sym read ∙ e)) slash
            ∙ ap (λ (x : Text). redirect (https_location syntax x path port)) read
            ∙ ap redirect (https_location-name name path port plain),
        ported,
        back,
        IsAllowlisted-same host authority hosts (read ∙ sym back) listed,
      )
