-- ===== src/Redirect/Port.antt =====
-- crates/management-ui/src/redirect.rs: a port in the host header.
use surmount_server.Assoc.{is_some, lookup}
use surmount_server.Net.{IpSyntax, ip_eq}
use surmount_server.Prelude.{
  Bool, List, [], all, any, ap, arith, false, if◌then◌else◌, is_empty, list_eq, nat_eq, none, not,
  refl, some, sym, true, ℕ, ◌&&◌, ◌++◌, ◌==◌, ◌||◌, ◌∙◌, ◌∷◌, ◌≡◌,
}
use surmount_server.Redirect.{
  allows, host_for_url_authority, host_is_allowlisted, host_without_port, is_apex_or_www, is_port,
  is_services_host, trimmed_without_port, unbracketed, without_port,
}
use surmount_server.Redirect.Location.{digits}
use surmount_server.Redirect.Surface.{
  StaticVhosts, apex_public, classify_host_surface, other, services_console, static_vhost,
  static_vhost_mapped,
}
use surmount_server.Text.{
  Text, contains_char, eq_ignore_ascii_case, is_ascii_digit, is_whitespace, rsplit_once, text,
  to_ascii_lowercase,
}
use surmount_server.Text.Laws.{any-append, trim-plain}

-- The last separator is found where none follows it.
rsplit_once-none : (port : Text) → contains_char b':' port ≡ false → rsplit_once b':' port ≡ none
unfolding rsplit_once contains_char
rsplit_once-none [] h = refl
rsplit_once-none (c ∷ port) h = ground (arith, rsplit_once-none port)

rsplit_once-port :
    (name port : Text)
    → contains_char b':' port ≡ false
    → rsplit_once b':' (name ++ b':' ∷ port) ≡ some (name, port)
unfolding rsplit_once
rsplit_once-port [] port h = ground (arith, rsplit_once-none port h)
rsplit_once-port (c ∷ name) port h = ground (arith, rsplit_once-port name port h)

-- the characters of a host name: no space, colon or opening bracket
abbrev pub is_name_char : ℕ → Bool
is_name_char c = not (is_whitespace c) && not (c == b':') && not (c == b'[')

name-plain : (name : Text) → all is_name_char name ≡ true → any is_whitespace name ≡ false
name-plain [] h = refl
name-plain (c ∷ name) h = ground (arith, name-plain name)

digits-plain : (port : Text) → all is_ascii_digit port ≡ true → any is_whitespace port ≡ false
unfolding is_ascii_digit is_whitespace
digits-plain [] h = refl
digits-plain (c ∷ port) h = ground (arith, digits-plain port)

name-no_colon : (name : Text) → all is_name_char name ≡ true → contains_char b':' name ≡ false
unfolding contains_char
name-no_colon [] h = refl
name-no_colon (c ∷ name) h = ground (arith, name-no_colon name)

digits-no_colon : (port : Text) → all is_ascii_digit port ≡ true → contains_char b':' port ≡ false
unfolding contains_char is_ascii_digit
digits-no_colon [] h = refl
digits-no_colon (c ∷ port) h = ground (arith, digits-no_colon port)

is_port-digits : (port : Text) → is_port port ≡ true → all is_ascii_digit port ≡ true
is_port-digits port h = ground arith

space_free : (is_whitespace b':' || false) ≡ false
unfolding is_whitespace
space_free = refl

host_port-plain :
    (name port : Text)
    → all is_name_char name ≡ true
    → is_port port ≡ true
    → any is_whitespace (name ++ b':' ∷ port) ≡ false
host_port-plain name port named digits =
    any-append is_whitespace name (b':' ∷ port)
    ∙ rw (name-plain name named, digits-plain port (is_port-digits port digits)) space_free

without_port-cut :
    (name port : Text)
    → all is_name_char name ≡ true
    → is_port port ≡ true
    → without_port (name ++ b':' ∷ port) ≡ name
without_port-cut name port named digits = ground (
  arith,
  rsplit_once-port name port,
  digits-no_colon port,
  is_port-digits port,
  name-no_colon name,
)

not_bracket : (c : ℕ) (t u : Text) → is_name_char c ≡ true → (if c == b'[' then t else u) ≡ u
not_bracket c t u h = ground arith

trimmed_without_port-cut :
    (name port : Text)
    → all is_name_char name ≡ true
    → is_port port ≡ true
    → trimmed_without_port (name ++ b':' ∷ port) ≡ name
trimmed_without_port-cut [] port h digits = without_port-cut [] port h digits
trimmed_without_port-cut (c ∷ n) port h digits =
    not_bracket c _ _ (ground arith) ∙ without_port-cut (c ∷ n) port h digits

without_port-keep : (name : Text) → all is_name_char name ≡ true → without_port name ≡ name
without_port-keep name h = ground (arith, rsplit_once-none name, name-no_colon name)

trimmed_without_port-keep :
    (name : Text) → all is_name_char name ≡ true → trimmed_without_port name ≡ name
trimmed_without_port-keep [] h = refl
trimmed_without_port-keep (c ∷ n) h = not_bracket c _ _ (ground arith) ∙ without_port-keep (c ∷ n) h

-- `host:port` is read as `host`.
pub host_without_port-port :
    (name port : Text)
    → all is_name_char name ≡ true
    → is_port port ≡ true
    → host_without_port (name ++ b':' ∷ port) ≡ host_without_port name
unfolding host_without_port
host_without_port-port name port named digits =
    ap trimmed_without_port
      (trim-plain (name ++ b':' ∷ port) (host_port-plain name port named digits))
    ∙ trimmed_without_port-cut name port named digits
    ∙ sym (trimmed_without_port-keep name named)
    ∙ ap trimmed_without_port (sym (trim-plain name (name-plain name named)))

-- A name alone is read as it stands.
host_without_port-name :
    (name : Text) → all is_name_char name ≡ true → host_without_port name ≡ name
unfolding host_without_port
host_without_port-name name named =
    ap trimmed_without_port (trim-plain name (name-plain name named))
    ∙ trimmed_without_port-keep name named

unbracketed-name : (name : Text) → all is_name_char name ≡ true → unbracketed name ≡ name
unbracketed-name [] h = refl
unbracketed-name (c ∷ n) h = not_bracket c _ _ (ground arith)

pub authority-name :
    (name : Text) → all is_name_char name ≡ true → host_for_url_authority name ≡ name
unfolding host_for_url_authority
authority-name name named =
    ap unbracketed (host_without_port-name name named) ∙ unbracketed-name name named

module _ (a b : Text) (same : host_for_url_authority a ≡ host_for_url_authority b) where
  services_same : (services : Text) → is_services_host a services ≡ is_services_host b services
  unfolding is_services_host
  services_same services =
      ap
        (λ (x : Text).
          if is_empty (host_for_url_authority services)
          then false
          else eq_ignore_ascii_case x (host_for_url_authority services))
        same

  apex_same : (primary : Text) → is_apex_or_www a primary ≡ is_apex_or_www b primary
  unfolding is_apex_or_www
  apex_same primary =
      ap
        (λ (x : Text).
          if is_empty (host_for_url_authority primary)
          then false
          else to_ascii_lowercase x == to_ascii_lowercase (host_for_url_authority primary)
            || to_ascii_lowercase x
              == text "www." ++ to_ascii_lowercase (host_for_url_authority primary))
        same

  vhost_same : (vhosts : StaticVhosts) → static_vhost_mapped a vhosts ≡ static_vhost_mapped b vhosts
  unfolding static_vhost_mapped
  vhost_same vhosts =
      ap
        (λ (x : Text).
          if is_empty vhosts
          then false
          else not (is_empty (to_ascii_lowercase x))
            && is_some (lookup (to_ascii_lowercase x) vhosts))
        same

  allowlisted_same :
      (syntax : IpSyntax) (hosts : List Text)
      → host_is_allowlisted syntax a hosts ≡ host_is_allowlisted syntax b hosts
  unfolding host_is_allowlisted
  allowlisted_same syntax hosts =
      ap (λ (x : Text). if is_empty hosts then false else any (allows syntax x) hosts) same

  classify_same :
      (primary services : Text) (vhosts : StaticVhosts)
      → classify_host_surface a primary services vhosts
        ≡ classify_host_surface b primary services vhosts
  unfolding classify_host_surface
  classify_same primary services vhosts =
      ap
        (λ t.
          if t
          then services_console
          else if is_apex_or_www a primary
          then apex_public
          else if static_vhost_mapped a vhosts
          then static_vhost
          else other)
        (services_same services)
      ∙ ap
          (λ t.
            if is_services_host b services
            then services_console
            else if t
            then apex_public
            else if static_vhost_mapped a vhosts
            then static_vhost
            else other)
          (apex_same primary)
      ∙ ap
          (λ t.
            if is_services_host b services
            then services_console
            else if is_apex_or_www b primary
            then apex_public
            else if t
            then static_vhost
            else other)
          (vhost_same vhosts)

pub authority-port :
    (name port : Text)
    → all is_name_char name ≡ true
    → is_port port ≡ true
    → host_for_url_authority (name ++ b':' ∷ port) ≡ host_for_url_authority name
unfolding host_for_url_authority
authority-port name port named digits =
    ap unbracketed (host_without_port-port name port named digits)

-- For a host name without spaces, colons and opening brackets, a port of digits in the host header
-- changes neither the surface that a request reaches nor whether the upgrade to HTTPS takes the
-- host.
pub port_changes_nothing :
    (syntax : IpSyntax) (name port primary_domain services_hostname : Text)
    → (static_vhosts : StaticVhosts) (allowed_hosts : List Text) → all is_name_char name ≡ true
    → is_port port ≡ true
    → (classify_host_surface (name ++ b':' ∷ port) primary_domain services_hostname static_vhosts
        ≡ classify_host_surface name primary_domain services_hostname static_vhosts)
      × (host_is_allowlisted syntax (name ++ b':' ∷ port) allowed_hosts
          ≡ host_is_allowlisted syntax name allowed_hosts)
port_changes_nothing syntax name port primary services vhosts hosts named digits =
    let same = authority-port name port named digits in
    (classify_same _ _ same primary services vhosts, allowlisted_same _ _ same syntax hosts)
