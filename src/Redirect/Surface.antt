-- ===== src/Redirect/Surface.antt =====
-- crates/management-ui/src/redirect.rs: which surface of the product a host reaches, and what its
-- public pages keep open. A map from hosts to document roots is an association list.
use surmount_server.Assoc.{contains_key, lookup}
use surmount_server.Net.{ip_eq}
use surmount_server.Prelude.{
  Bool, List, Option, [], false, if◌then◌else◌, is_empty, list_eq, nat_eq, not, true, ◌&&◌, ◌==◌,
  ◌||◌, ◌∷◌,
}
use surmount_server.Redirect.{host_for_url_authority, is_apex_or_www, is_services_host}
use surmount_server.Text.{Text, starts_with, text, to_ascii_lowercase}

pub data HostSurface : Type 0 where
  apex_public : HostSurface
  static_vhost : HostSurface
  services_console : HostSurface
  other : HostSurface

abbrev pub StaticVhosts : Type 0
StaticVhosts = List (Text × Text)

unfoldable pub static_vhost_mapped : Text → StaticVhosts → Bool
unfolding host_for_url_authority to_ascii_lowercase lookup
static_vhost_mapped host_header static_vhosts =
    let host = to_ascii_lowercase (host_for_url_authority host_header) in
    if is_empty static_vhosts then false else not (is_empty host) && contains_key host static_vhosts

unfoldable pub static_vhost_document_root : Text → StaticVhosts → Option Text
unfolding host_for_url_authority to_ascii_lowercase lookup
static_vhost_document_root host_header static_vhosts =
    lookup (to_ascii_lowercase (host_for_url_authority host_header)) static_vhosts

unfoldable pub classify_host_surface : Text → Text → Text → StaticVhosts → HostSurface
unfolding is_services_host is_apex_or_www static_vhost_mapped
classify_host_surface host_header primary_domain services_hostname static_vhosts =
    if is_services_host host_header services_hostname
    then services_console
    else if is_apex_or_www host_header primary_domain
    then apex_public
    else if static_vhost_mapped host_header static_vhosts
    then static_vhost
    else other

unfoldable pub host_surface : Text → Text → Text → HostSurface
unfolding classify_host_surface
host_surface host_header primary_domain services_hostname =
    classify_host_surface host_header primary_domain services_hostname []

abbrev pub is_apex_public : HostSurface → Bool
is_apex_public apex_public = true
is_apex_public _ = false

abbrev pub is_public_static_surface : HostSurface → Bool
is_public_static_surface apex_public = true
is_public_static_surface static_vhost = true
is_public_static_surface _ = false

-- `path.split('?').next().unwrap_or(path)`
unfoldable pub path_only : Text → Text
path_only [] = []
path_only (c ∷ s) = if c == b'?' then [] else c ∷ path_only s

unfoldable pub apex_public_path_is_edge_exception : Text → Bool
unfolding path_only starts_with
apex_public_path_is_edge_exception path =
    let p = path_only path in
    p == text "/health" || p == text "/api/health" || starts_with (text "/.well-known/") p

unfoldable pub should_serve_apex_coming_soon : Text → Text → Text → Text → Bool
unfolding host_surface apex_public_path_is_edge_exception
should_serve_apex_coming_soon host_header primary_domain services_hostname path =
    if not (is_apex_public (host_surface host_header primary_domain services_hostname))
    then false
    else if apex_public_path_is_edge_exception (path_only path)
    then false
    else if starts_with (text "/api/") (path_only path)
    then false
    else true

unfoldable pub should_reject_public_static_api : Text → Text → Text → StaticVhosts → Text → Bool
unfolding classify_host_surface apex_public_path_is_edge_exception
should_reject_public_static_api host_header primary_domain services_hostname static_vhosts path =
    if not (
      is_public_static_surface
        (classify_host_surface host_header primary_domain services_hostname static_vhosts))
    then false
    else starts_with (text "/api/") (path_only path)
      && not (apex_public_path_is_edge_exception (path_only path))
