-- ===== src/Redirect/Upgrade.antt =====
-- crates/management-ui/src/redirect.rs: what the upgrade to HTTPS does for which host.
use surmount_server.Net.{IpAddr, IpSyntax, ip_beq_iff, ip_eq}
use surmount_server.Prelude.{
  Bool, List, Option, Option-cases, [], any, ap, arith, false, if◌then◌else◌, inl, inr, is_empty,
  list_beq_iff, list_eq, nat_eq, none, not, refl, some, sym, true, ℕ, ◌||◌, ◌↔◌, ◌∙◌, ◌∷◌, ◌≡◌, ◌≢◌,
  ◌⊎◌,
}
use surmount_server.Redirect.{allows, host_for_url_authority, host_is_allowlisted, same_ip}
use surmount_server.Redirect.Location.{
  HttpToHttps, bind, https_location, normalize_redirect_path, pass_through, redirect,
  redirect_bind_decision, redirect_http_to_https,
}
use surmount_server.Text.{Text, starts_with, text, to_ascii_lowercase}

-- the decisions of `redirect_http_to_https`, on their results
abbrev steps : Bool → Bool → Bool → Bool → Option Text → (Text → Text) → HttpToHttps
steps enabled none_allowed listed host_empty normalized target =
    if not enabled
    then pass_through
    else if none_allowed || not listed
    then pass_through
    else if host_empty
    then pass_through
    else elim normalized [ none ↦ pass_through | some path ↦ redirect (target path) ]

answered :
    (enabled none_allowed listed host_empty : Bool) (normalized : Option Text)
    → (target : Text → Text) {location : Text}
    → steps enabled none_allowed listed host_empty normalized target ≡ redirect location
    → (enabled ≡ true)
      × (listed ≡ true)
      × (host_empty ≡ false)
      × ((path : Text) × (normalized ≡ some path) × (location ≡ target path))
answered true false true false (some path) target h = (refl, refl, refl, (path, refl, cc))
answered true false true false none target h = cc
answered true false true true normalized target h = cc
answered true false false host_empty normalized target h = cc
answered true true listed host_empty normalized target h = cc
answered false none_allowed listed host_empty normalized target h = cc

answers :
    (none_allowed listed host_empty : Bool) (normalized : Option Text) (target : Text → Text)
    → {path : Text} → none_allowed ≡ false
    → listed ≡ true
    → host_empty ≡ false
    → normalized ≡ some path
    → steps true none_allowed listed host_empty normalized target ≡ redirect (target path)
answers none_allowed listed host_empty normalized target a b c d = ground arith

is_empty-false : (s : Text) → is_empty s ≡ false → s ≢ []
is_empty-false [] h e = cc
is_empty-false (c ∷ s) h e = cc

full-is_empty : (s : Text) → s ≢ [] → is_empty s ≡ false
full-is_empty [] h = absurd (h refl)
full-is_empty (c ∷ s) h = refl

slash-normalize_redirect_path :
    (path : Text) → starts_with (text "/") path ≡ true → normalize_redirect_path path ≡ some path
unfolding normalize_redirect_path
slash-normalize_redirect_path [] h = ground arith
slash-normalize_redirect_path (c ∷ s) h = ground arith

module _ (syntax : IpSyntax) where
  -- Two hosts that the allowlist takes for one: equal but for the case of letters, or two spellings of
  -- one address.
  abbrev pub SameHost : Text → Text → Type 0
  SameHost a b =
      (to_ascii_lowercase a ≡ to_ascii_lowercase b)
      ⊎ ((ip : IpAddr) × (syntax.parse a ≡ some ip) × (syntax.parse b ≡ some ip))

  abbrev pub IsAllowlisted : Text → List Text → Type 0
  IsAllowlisted host [] = ⊥
  IsAllowlisted host (a ∷ hosts) =
      SameHost (host_for_url_authority host) (host_for_url_authority a) ⊎ IsAllowlisted host hosts

  same_ip_iff :
      (a b : Text)
      → (same_ip syntax a b ≡ true)
        ↔ ((ip : IpAddr) × (syntax.parse a ≡ some ip) × (syntax.parse b ≡ some ip))
  same_ip_iff a b = (there, λ (ip, p, q). back ip p q)
    where
      same :
          (c d : IpAddr)
          → syntax.parse a ≡ some c
          → syntax.parse b ≡ some d
          → same_ip syntax a b ≡ true
          → c ≡ d
      same c d some_a some_b h = ground (arith, ip_beq_iff c d)

      there :
          same_ip syntax a b ≡ true
          → (ip : IpAddr) × (syntax.parse a ≡ some ip) × (syntax.parse b ≡ some ip)
      there h = elim (Option-cases (syntax.parse a)) [
        | inl none_a ↦ absurd (ground arith)
        | inr (c, some_a) ↦ elim (Option-cases (syntax.parse b)) [
          | inl none_b ↦ absurd (ground arith)
          | inr (d, some_b) ↦ (c, some_a, some_b ∙ sym (ap some (same c d some_a some_b h)))
        ]
      ]

      back :
          (ip : IpAddr)
          → syntax.parse a ≡ some ip
          → syntax.parse b ≡ some ip
          → same_ip syntax a b ≡ true
      back ip p q = ground (arith, ip_beq_iff ip ip)

  allows_iff :
      (host a : Text)
      → (allows syntax (host_for_url_authority host) a ≡ true)
        ↔ SameHost (host_for_url_authority host) (host_for_url_authority a)
  unfolding allows
  allows_iff host a = ground (
    arith,
    list_beq_iff (to_ascii_lowercase (host_for_url_authority host))
        (to_ascii_lowercase (host_for_url_authority a)),
    same_ip_iff (host_for_url_authority host) (host_for_url_authority a),
  )

  any-allows_iff :
      (host : Text) (hosts : List Text)
      → (any (allows syntax (host_for_url_authority host)) hosts ≡ true) ↔ IsAllowlisted host hosts
  any-allows_iff host [] = ground arith
  any-allows_iff host (a ∷ hosts) = ground (arith, allows_iff host a, any-allows_iff host hosts)

  host_is_allowlisted_iff :
      (host : Text) (hosts : List Text)
      → (host_is_allowlisted syntax host hosts ≡ true) ↔ IsAllowlisted host hosts
  unfolding host_is_allowlisted
  host_is_allowlisted_iff host [] = ground arith
  host_is_allowlisted_iff host (a ∷ hosts) = any-allows_iff host (a ∷ hosts)

  normalize_redirect_path-slash :
      (path_and_query : Text) {path : Text}
      → normalize_redirect_path path_and_query ≡ some path
      → starts_with (text "/") path ≡ true
  unfolding normalize_redirect_path
  normalize_redirect_path-slash [] h = ground arith
  normalize_redirect_path-slash (c ∷ s) h = ground arith

  -- A redirect is sent only when the upgrade is on and the request's host is on the allowlist, up
  -- to the case of letters or the spelling of an address; its target is the same host over HTTPS,
  -- which is not empty, and a path that begins with a slash.
  pub redirect-same_host :
      (enabled : Bool) (host path_and_query : Text) (port : Option ℕ) (hosts : List Text)
      → (primary_domain services_hostname location : Text)
      → redirect_http_to_https syntax enabled host path_and_query port hosts primary_domain
          services_hostname
        ≡ redirect location
      → (enabled ≡ true)
        × IsAllowlisted host hosts
        × (host_for_url_authority host ≢ [])
        × ((path : Text) × (starts_with (text "/") path ≡ true)
            × (location ≡ https_location syntax (host_for_url_authority host) path port))
  unfolding redirect_http_to_https
  redirect-same_host enabled host path_and_query port hosts primary services location h =
      let (on, listed, full, (path, eq, target)) =
        answered enabled (is_empty hosts) (host_is_allowlisted syntax host hosts)
          (is_empty (host_for_url_authority host)) (normalize_redirect_path path_and_query)
          (λ path. https_location syntax (host_for_url_authority host) path port) h in
      (
        on,
        (host_is_allowlisted_iff host hosts).0 listed,
        is_empty-false (host_for_url_authority host) full,
        (path, normalize_redirect_path-slash path_and_query eq, target),
      )

  pub redirect-https_location :
      (host path : Text) (port : Option ℕ) (hosts : List Text)
      → (primary_domain services_hostname : Text) → IsAllowlisted host hosts
      → host_for_url_authority host ≢ []
      → starts_with (text "/") path ≡ true
      → redirect_http_to_https syntax true host path port hosts primary_domain services_hostname
        ≡ redirect (https_location syntax (host_for_url_authority host) path port)
  unfolding redirect_http_to_https
  redirect-https_location host path port hosts primary services listed full slash =
      answers (is_empty hosts) (host_is_allowlisted syntax host hosts)
        (is_empty (host_for_url_authority host)) (normalize_redirect_path path)
        (λ p. https_location syntax (host_for_url_authority host) p port) (listed_some hosts listed)
        ((host_is_allowlisted_iff host hosts).1 listed)
        (full-is_empty (host_for_url_authority host) full)
        (slash-normalize_redirect_path path slash)
    where
      listed_some : (hs : List Text) → IsAllowlisted host hs → is_empty hs ≡ false
      listed_some [] e = absurd e
      listed_some (a ∷ hs) e = refl

  -- Where a listen address is given and the decision is not to bind it, no request would be
  -- redirected.
  unbound_never_redirects :
      (enabled : Bool) (addr : IpAddr × ℕ) (host path : Text) (port : Option ℕ) (hosts : List Text)
      → (primary_domain services_hostname : Text)
      → redirect_bind_decision enabled (some addr) hosts ≢ bind addr
      → redirect_http_to_https syntax enabled host path port hosts primary_domain services_hostname
        ≡ pass_through
  unfolding redirect_http_to_https
  unbound_never_redirects false addr host path port hosts primary services unbound = refl
  unbound_never_redirects true addr host path port [] primary services unbound = refl
  unbound_never_redirects true addr host path port (a ∷ hosts) primary services unbound =
      absurd (unbound refl)
