-- ===== src/Sites/Apex.antt =====
-- crates/management-ui/src/main.rs: the public sites in front of the console, and the policy of MTA-STS.
-- The router behind is the function `next`.
-- the fields of the configuration that are read; `print` prints a u64
use surmount_server.MtaSts.{MtaStsMode, mta_sts_policy_body, should_serve_mta_sts_policy}
use surmount_server.Net.{IpSyntax, ip_eq}
use surmount_server.Prelude.{
  Bool, List, Option, false, if◌then◌else◌, list_eq, nat_eq, none, not, some, true, ℕ, ◌&&◌, ◌==◌,
}
use surmount_server.Redirect.{request_authority_host}
use surmount_server.Redirect.Surface.{
  HostSurface, StaticVhosts, apex_public_path_is_edge_exception, classify_host_surface,
  is_apex_public, path_only, should_reject_public_static_api, should_serve_apex_coming_soon,
  static_vhost, static_vhost_document_root,
}
use surmount_server.Sites.{FilePath, Files, document_root_is_ready, resolve_apex_static_path}
use surmount_server.Text.{Text, text}

pub record SiteConfig : Type 0 where
  pub primary_domain : Text
  pub services_hostname : Text
  pub mail_hostname : Text
  pub redirect_allowed_hosts : List Text
  pub static_vhosts : StaticVhosts
  pub apex_public_root : Option FilePath
  pub mta_sts_mode : MtaStsMode
  pub mta_sts_max_age : ℕ
  pub print : ℕ → Text
  -- the path that a document root of a static host is
  pub root_path : Text → FilePath

pub data SiteResponse (A : Type 0) : Type 0 where
  site_not_found : SiteResponse A
  policy : Text → SiteResponse A
  served_file : FilePath → SiteResponse A
  coming_soon : Text → SiteResponse A
  to_router : A → SiteResponse A

abbrev pub is_static_vhost : HostSurface → Bool
is_static_vhost static_vhost = true
is_static_vhost _ = false

module _ (config : SiteConfig) (files : Files) where
  unfoldable pub apex_root : HostSurface → Text → Option FilePath
  unfolding apex_public_path_is_edge_exception document_root_is_ready
  apex_root surface path = elim config.apex_public_root [
    | some root ↦
        if is_apex_public surface
          && not (apex_public_path_is_edge_exception path)
          && document_root_is_ready files root
        then some root
        else none
    | none ↦ none
  ]

module _ {A : Type 0} (syntax : IpSyntax) (config : SiteConfig) where
  unfoldable pub mta_sts_policy_handler : Text → SiteResponse A
  unfolding should_serve_mta_sts_policy mta_sts_policy_body
  mta_sts_policy_handler host =
      if not (
        should_serve_mta_sts_policy syntax config.mta_sts_mode host config.primary_domain
          config.redirect_allowed_hosts)
      then site_not_found
      else elim (mta_sts_policy_body config.print config.mta_sts_mode config.mail_hostname
          config.mta_sts_max_age) [ none ↦ site_not_found | some body ↦ policy body ]

  module _ (files : Files) where
    unfoldable pub file_response : FilePath → Text → SiteResponse A
    unfolding resolve_apex_static_path
    file_response root path = elim (resolve_apex_static_path files root path) [
      | some file ↦ served_file file
      | none ↦ site_not_found
    ]

    -- what is left once neither the policy nor the closed API has answered
    unfoldable pub page_or_next : Text → Text → A → SiteResponse A
    unfolding should_serve_apex_coming_soon
    page_or_next host path next =
        if should_serve_apex_coming_soon host config.primary_domain config.services_hostname path
        then coming_soon config.primary_domain
        else to_router next

    unfoldable pub vhost_response : Text → Text → A → SiteResponse A
    unfolding static_vhost_document_root document_root_is_ready file_response page_or_next
    vhost_response host path next = elim (static_vhost_document_root host config.static_vhosts) [
      | some root ↦
          if document_root_is_ready files (config.root_path root)
          then file_response (config.root_path root) path
          else site_not_found
      | none ↦ page_or_next host path next
    ]

    unfoldable pub site_response : Text → Text → A → SiteResponse A
    unfolding should_reject_public_static_api classify_host_surface vhost_response apex_root
        path_only
    site_response host path next =
        if should_reject_public_static_api host config.primary_domain config.services_hostname
          config.static_vhosts path
        then site_not_found
        else (let surface =
              classify_host_surface host config.primary_domain config.services_hostname
                config.static_vhosts in
            elim (apex_root config files surface path) [
              | some root ↦ file_response root path
              | none ↦
                  if is_static_vhost surface
                    && not (path_only path == text "/health")
                    && not (path_only path == text "/api/health")
                  then vhost_response host path next
                  else page_or_next host path next
            ])

    unfoldable pub apex_public_host_middleware :
        Option Text → Option Text → Text → A → SiteResponse A
    unfolding request_authority_host site_response mta_sts_policy_handler path_only
        should_serve_mta_sts_policy
    apex_public_host_middleware host_header uri_host path next =
        let host = request_authority_host host_header uri_host in
        if path_only path == text "/.well-known/mta-sts.txt"
          && should_serve_mta_sts_policy syntax config.mta_sts_mode host config.primary_domain
              config.redirect_allowed_hosts
        then mta_sts_policy_handler host
        else site_response host path next
