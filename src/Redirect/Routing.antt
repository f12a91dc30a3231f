-- ===== src/Redirect/Routing.antt =====
-- crates/management-ui/src/redirect.rs: where requests to the public hosts end up.
use surmount_server.Net.{ip_eq}
use surmount_server.Prelude.{arith, false, list_eq, nat_eq, true, ◌≡◌}
use surmount_server.Redirect.{is_services_host}
use surmount_server.Redirect.Surface.{
  StaticVhosts, classify_host_surface, host_surface, should_reject_public_static_api,
  should_serve_apex_coming_soon,
}
use surmount_server.Text.{Text}

module _ (primary_domain services_hostname : Text) (host path : Text) where
  -- The services host is answered neither by the public page nor by the closed API, whatever the
  -- other hosts are.
  services_never_public :
      (static_vhosts : StaticVhosts)
      → is_services_host host services_hostname ≡ true
      → (should_serve_apex_coming_soon host primary_domain services_hostname path ≡ false)
        × (should_reject_public_static_api host primary_domain services_hostname static_vhosts path
            ≡ false)
  unfolding should_reject_public_static_api should_serve_apex_coming_soon host_surface
      classify_host_surface
  services_never_public static_vhosts hs = ground arith
