-- ===== src/Sites/Tests.antt =====
-- The theorem on the files that are served, at a concrete request.
-- a root with a page and a directory
use surmount_server.MtaSts.{sts_off}
use surmount_server.Net.{ip_eq, plain_syntax}
use surmount_server.Prelude.{
  [], false, list_eq, nat_eq, none, refl, some, true, ℕ, ◌==◌, ◌||◌, ◌∷◌, ◌≡◌,
}
use surmount_server.Redirect.{is_apex_or_www, is_services_host, request_authority_host}
use surmount_server.Redirect.Surface.{apex_public_path_is_edge_exception, path_only}
use surmount_server.Sites.{Files, resolve_apex_static_path}
use surmount_server.Sites.Apex.{SiteConfig, apex_public_host_middleware, served_file}
use surmount_server.Sites.Laws.{IsServed, resolve_apex_static_path-IsServed}
use surmount_server.Sites.Public.{IsPublicAnswer, apex_never_reaches_console}
use surmount_server.Text.{Text, text}

abbrev one_page : Files
one_page = record {
  is_dir = λ p. p == text "srv" ∷ [];
  is_file = λ p. p == text "srv" ∷ text "a.html" ∷ [] || p == text "srv" ∷ text "index.html" ∷ [];
  canonicalize = some;
  from_utf8 = some;
}

page_found :
    resolve_apex_static_path one_page (text "srv" ∷ []) (text "/%61.html?x=1")
    ≡ some (text "srv" ∷ text "a.html" ∷ [])
unfolding resolve_apex_static_path
page_found = refl

climb_refused : resolve_apex_static_path one_page (text "srv" ∷ []) (text "/%2e./srv/a.html") ≡ none
unfolding resolve_apex_static_path
climb_refused = refl

resolve_apex_static_path-IsServed_example :
    IsServed one_page (text "srv" ∷ []) (text "srv" ∷ text "a.html" ∷ [])
resolve_apex_static_path-IsServed_example =
    resolve_apex_static_path-IsServed one_page (text "srv" ∷ []) (text "/%61.html?x=1")
      {served = text "srv" ∷ text "a.html" ∷ []} page_found

abbrev primary : Text
primary = text "example.test"

abbrev apex_config : SiteConfig
apex_config = record {
  primary_domain = primary;
  services_hostname = text "services.example.test";
  mail_hostname = text "mail.example.test";
  redirect_allowed_hosts = [];
  static_vhosts = [];
  apex_public_root = some (text "srv" ∷ []);
  mta_sts_mode = sts_off;
  mta_sts_max_age = 86400;
  print = λ n. [];
  root_path = λ t. t ∷ [];
}

-- the answer of the router behind
abbrev console : ℕ
console = 200

apex_away :
    is_services_host (request_authority_host (some primary) none) apex_config.services_hostname
    ≡ false
unfolding is_services_host request_authority_host
apex_away = refl

apex_home : is_apex_or_www (request_authority_host (some primary) none) primary ≡ true
unfolding is_apex_or_www request_authority_host
apex_home = refl

page_ordinary : apex_public_path_is_edge_exception (text "/%61.html?x=1") ≡ false
unfolding apex_public_path_is_edge_exception path_only
page_ordinary = refl

-- the page of the apex is served as a file
apex_page :
    apex_public_host_middleware plain_syntax apex_config one_page
      (some primary)
      none
      (text "/%61.html?x=1")
      console
    ≡ served_file (text "srv" ∷ text "a.html" ∷ [])
unfolding apex_public_host_middleware
apex_page = refl

apex_never_reaches_console_example :
    IsPublicAnswer plain_syntax apex_config one_page (text "/%61.html?x=1") (
      apex_public_host_middleware plain_syntax apex_config one_page
        (some primary)
        none
        (text "/%61.html?x=1")
        console)
apex_never_reaches_console_example =
    apex_never_reaches_console plain_syntax apex_config one_page (some primary) none
      (text "/%61.html?x=1") console apex_away apex_home page_ordinary
