-- ===== src/Sites/Public.antt =====
-- crates/management-ui/src/main.rs and redirect.rs: what an apex host answers in place of the console.
use mathlib.Core.Path.{subst}
use surmount_server.Net.{IpSyntax, ip_eq}
use surmount_server.Prelude.{
  Bool, Bool-cases, Option, Option-cases, [], ap, arith, contradictory, false, if◌then◌else◌, inl,
  inr, list_beq_iff, list_eq, nat_eq, none, not, refl, some, sym, true, ◌&&◌, ◌==◌, ◌||◌, ◌∙◌, ◌∷◌,
  ◌≡◌, ◌⊎◌,
}
use surmount_server.Redirect.{is_apex_or_www, is_services_host, request_authority_host}
use surmount_server.Redirect.Surface.{
  HostSurface, StaticVhosts, apex_public, apex_public_path_is_edge_exception, classify_host_surface,
  host_surface, path_only, should_reject_public_static_api, should_serve_apex_coming_soon,
}
use surmount_server.Sites.{FilePath, Files, document_root_is_ready, resolve_apex_static_path}
use surmount_server.Sites.Apex.{
  SiteConfig, SiteResponse, apex_public_host_middleware, apex_root, coming_soon, file_response,
  is_static_vhost, page_or_next, served_file, site_not_found, site_response, to_router,
  vhost_response,
}
use surmount_server.Sites.Laws.{IsServed, resolve_apex_static_path-IsServed}
use surmount_server.Text.{Text, starts_with, text}

-- a path without a query is its own path
path_only-path_only : (path : Text) → path_only (path_only path) ≡ path_only path
unfolding path_only
path_only-path_only [] = refl
path_only-path_only (c ∷ s) = ground (arith, path_only-path_only s)

exception-path_only :
    (path : Text)
    → apex_public_path_is_edge_exception (path_only path) ≡ apex_public_path_is_edge_exception path
unfolding apex_public_path_is_edge_exception
exception-path_only path =
    ap
      (λ (p : Text).
        p == text "/health" || p == text "/api/health" || starts_with (text "/.well-known/") p)
      (path_only-path_only path)

exceptional :
    (p : Text)
    → p ≡ text "/.well-known/mta-sts.txt"
    → (p == text "/health" || p == text "/api/health" || starts_with (text "/.well-known/") p)
      ≡ true
unfolding starts_with
exceptional p e = rw e refl

not_policy :
    (path : Text)
    → apex_public_path_is_edge_exception path ≡ false
    → (path_only path == text "/.well-known/mta-sts.txt") ≡ false
unfolding apex_public_path_is_edge_exception
not_policy path h = elim (Bool-cases (path_only path == text "/.well-known/mta-sts.txt")) [
  | inl same ↦ absurd (
      contradictory
        (exceptional (path_only path)
          ((list_beq_iff (path_only path) (text "/.well-known/mta-sts.txt")).0 same))
        h)
  | inr apart ↦ apart
]

module _ (host path primary_domain services_hostname : Text)
    (away : is_services_host host services_hostname ≡ false)
    (home : is_apex_or_www host primary_domain ≡ true)
    (plain : apex_public_path_is_edge_exception path ≡ false) where
  surface-apex :
      (static_vhosts : StaticVhosts)
      → classify_host_surface host primary_domain services_hostname static_vhosts ≡ apex_public
  unfolding classify_host_surface
  surface-apex static_vhosts = rw (away, home) refl

  rejects-api :
      (static_vhosts : StaticVhosts)
      → should_reject_public_static_api host primary_domain services_hostname static_vhosts path
        ≡ starts_with (text "/api/") (path_only path)
  unfolding should_reject_public_static_api
  rejects-api static_vhosts =
      rw (surface-apex static_vhosts, exception-path_only path, plain) (ground arith)

  serves-page :
      should_serve_apex_coming_soon host primary_domain services_hostname path
      ≡ not (starts_with (text "/api/") (path_only path))
  unfolding should_serve_apex_coming_soon host_surface
  serves-page = rw (surface-apex [], exception-path_only path, plain) (ground arith)

module _ (config : SiteConfig) (files : Files) where
  -- no document root of the apex is ready
  abbrev pub HasNoRoot : Type 0
  HasNoRoot =
      (config.apex_public_root ≡ none)
      ⊎ ((root : FilePath) × (config.apex_public_root ≡ some root)
          × (document_root_is_ready files root ≡ false))

  apex_root_cases :
      (path : Text)
      → apex_public_path_is_edge_exception path ≡ false
      → ((root : FilePath) × (config.apex_public_root ≡ some root)
          × (document_root_is_ready files root ≡ true)
          × (apex_root config files apex_public path ≡ some root))
        ⊎ (HasNoRoot × (apex_root config files apex_public path ≡ none))
  unfolding apex_root
  apex_root_cases path plain = elim (Option-cases config.apex_public_root) [
    | inl unset ↦ inr (inl unset, rw unset refl)
    | inr (root, set) ↦ elim (Bool-cases (document_root_is_ready files root)) [
      | inl ready ↦ inl (root, set, ready, rw (set, plain, ready) refl)
      | inr unready ↦ inr (inr (root, set, unready), rw (set, plain, unready) refl)
    ]
  ]

module _ {A : Type 0} (syntax : IpSyntax) (config : SiteConfig) (files : Files) where
  -- a file below a document root, or nothing
  abbrev pub IsFileOrMissing : FilePath → SiteResponse A → Type 0
  IsFileOrMissing root r =
      (r ≡ site_not_found) ⊎ ((file : FilePath) × (r ≡ served_file file) × IsServed files root file)

  -- the answers of the public site: by the path, and by the document root
  abbrev pub IsPublicAnswer : Text → SiteResponse A → Type 0
  IsPublicAnswer path r =
      ((starts_with (text "/api/") (path_only path) ≡ true) × (r ≡ site_not_found))
      ⊎ ((starts_with (text "/api/") (path_only path) ≡ false)
          × (root : FilePath) × (config.apex_public_root ≡ some root)
          × (document_root_is_ready files root ≡ true)
          × IsFileOrMissing root r)
      ⊎ ((starts_with (text "/api/") (path_only path) ≡ false)
          × HasNoRoot config files
          × (r ≡ coming_soon config.primary_domain))

  file_response-IsFileOrMissing :
      (root : FilePath) (path : Text)
      → IsFileOrMissing root (file_response syntax config files root path)
  unfolding file_response
  file_response-IsFileOrMissing root path =
      elim (Option-cases (resolve_apex_static_path files root path)) [
        | inl nothing ↦ inl (rw (file_response, nothing) refl)
        | inr (file, found) ↦ inr (
          file,
          rw (file_response, found) refl,
          resolve_apex_static_path-IsServed files root path found,
        )
      ]

  module _ (host path : Text) (next : A)
      (away : is_services_host host config.services_hostname ≡ false)
      (home : is_apex_or_www host config.primary_domain ≡ true)
      (plain : apex_public_path_is_edge_exception path ≡ false) where
    -- the answer by what is known of the request
    abbrev site_by : Bool → HostSurface → Option FilePath → SiteResponse A
    site_by closed surface chosen = if closed then site_not_found else elim chosen [
      | some root ↦ file_response syntax config files root path
      | none ↦
          if is_static_vhost surface
            && not (path_only path == text "/health")
            && not (path_only path == text "/api/health")
          then vhost_response syntax config files host path next
          else page_or_next syntax config files host path next
    ]

    site_response-site_by :
        site_response syntax config files host path next
        ≡ site_by
            (starts_with (text "/api/") (path_only path))
            apex_public
            (apex_root config files apex_public path)
    unfolding site_response
    site_response-site_by =
        ap
          (λ (b : Bool).
            site_by b
              (classify_host_surface host config.primary_domain config.services_hostname
                config.static_vhosts)
              (apex_root config files
                (classify_host_surface host config.primary_domain config.services_hostname
                  config.static_vhosts)
                path))
          (rejects-api host path config.primary_domain config.services_hostname away home plain
            config.static_vhosts)
        ∙ ap
            (λ (s : HostSurface).
              site_by (starts_with (text "/api/") (path_only path)) s
                (apex_root config files s path))
            (surface-apex host path config.primary_domain config.services_hostname away home plain
              config.static_vhosts)

    page_or_next-ordinary :
        starts_with (text "/api/") (path_only path) ≡ false
        → page_or_next syntax config files host path next ≡ coming_soon config.primary_domain
    unfolding page_or_next
    page_or_next-ordinary ordinary =
        ap (λ (b : Bool). if b then coming_soon config.primary_domain else to_router next)
          (serves-page host path config.primary_domain config.services_hostname away home plain
            ∙ ap not ordinary)

    site_response-IsPublicAnswer :
        IsPublicAnswer path (site_response syntax config files host path next)
    site_response-IsPublicAnswer = elim (Bool-cases (starts_with (text "/api/") (path_only path))) [
      | inl api ↦ inl (
        api,
        site_response-site_by
            ∙ ap (λ (b : Bool). site_by b apex_public (apex_root config files apex_public path))
                api,
      )
      | inr ordinary ↦
          let open_site =
            site_response-site_by
            ∙ ap (λ (b : Bool). site_by b apex_public (apex_root config files apex_public path))
                ordinary in
          elim (apex_root_cases config files path plain) [
            | inl (root, set, ready, chosen) ↦
                let same = open_site ∙ ap (site_by false apex_public) chosen in
                inr (
                  inl (
                    ordinary,
                    root,
                    set,
                    ready,
                    subst (IsFileOrMissing root) (sym same)
                        (file_response-IsFileOrMissing root path),
                  ))
            | inr (unready, chosen) ↦ inr (
                inr (
                  ordinary,
                  unready,
                  open_site
                      ∙ ap (site_by false apex_public) chosen
                      ∙ page_or_next-ordinary ordinary,
                ))
          ]
    ]

  -- On an apex host that is not the services host, a path outside the health probes and
  -- `/.well-known/` never reaches the router behind the middleware: a path under `/api/` is
  -- answered 404; any other is answered with the public page if no document root is ready, and if
  -- one is, with 404 or with a file below it.
  pub apex_never_reaches_console :
      (host_header uri_host : Option Text) (path : Text) (next : A)
      → is_services_host (request_authority_host host_header uri_host) config.services_hostname
        ≡ false
      → is_apex_or_www (request_authority_host host_header uri_host) config.primary_domain ≡ true
      → apex_public_path_is_edge_exception path ≡ false
      → IsPublicAnswer path
          (apex_public_host_middleware syntax config files host_header uri_host path next)
  unfolding apex_public_host_middleware
  apex_never_reaches_console host_header uri_host path next away home plain =
      rw (not_policy path plain) (
        site_response-IsPublicAnswer (request_authority_host host_header uri_host) path next away
          home plain)
