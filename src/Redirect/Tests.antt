-- ===== src/Redirect/Tests.antt =====
-- The theorems on hosts and redirects at concrete inputs.
use surmount_server.Net.{ip_eq, plain_syntax}
use surmount_server.Prelude.{
  List, [], all, arith, inl, list_eq, nat_eq, none, refl, some, true, ◌++◌, ◌∷◌, ◌≡◌, ◌≢◌,
}
use surmount_server.Redirect.{host_for_url_authority, host_is_allowlisted, is_port}
use surmount_server.Redirect.Location.{https_location, redirect, redirect_http_to_https}
use surmount_server.Redirect.Port.{is_name_char, port_changes_nothing}
use surmount_server.Redirect.Surface.{classify_host_surface}
use surmount_server.Redirect.Target.{IsAllowlisted-redirect, IsPortOf}
use surmount_server.Redirect.Upgrade.{IsAllowlisted, redirect-same_host}
use surmount_server.Text.{
  Text, is_ascii_digit, is_whitespace, starts_with, text, to_ascii_lowercase,
}

abbrev hosts : List Text
hosts = text "example.test" ∷ []

abbrev primary : Text
primary = text "example.test"

abbrev services : Text
services = text "services.example.test"

apex_redirected :
    redirect_http_to_https plain_syntax true
      (text "Example.test:80")
      (text "/a")
      none
      hosts
      primary
      services
    ≡ redirect (text "https://Example.test/a")
unfolding redirect_http_to_https https_location
apex_redirected = refl

redirect-same_host_example :
    (true ≡ true)
    × IsAllowlisted plain_syntax (text "Example.test:80") hosts
    × (host_for_url_authority (text "Example.test:80") ≢ [])
    × ((path : Text) × (starts_with (text "/") path ≡ true)
        × (text "https://Example.test/a"
            ≡ https_location plain_syntax
                (host_for_url_authority (text "Example.test:80"))
                path
                none))
redirect-same_host_example =
    redirect-same_host plain_syntax true (text "Example.test:80") (text "/a") none hosts primary
      services (text "https://Example.test/a") apex_redirected

apex_listed : IsAllowlisted plain_syntax (text "EXAMPLE.test") hosts
unfolding host_for_url_authority to_ascii_lowercase
apex_listed = inl (inl refl)

apex_full : host_for_url_authority (text "EXAMPLE.test") ≢ []
unfolding host_for_url_authority
apex_full h = cc

slash : starts_with (text "/") (text "/a?b=c") ≡ true
unfolding starts_with
slash = refl

upper_name : host_for_url_authority (text "EXAMPLE.test") ≡ text "EXAMPLE.test"
unfolding host_for_url_authority
upper_name = refl

upper_plain : all is_name_char (text "EXAMPLE.test") ≡ true
unfolding is_whitespace
upper_plain = refl

IsAllowlisted-redirect_example :
    (authority : Text) × (redirect_http_to_https plain_syntax true
        (text "EXAMPLE.test")
        (text "/a?b=c")
        (some 8443)
        hosts
        primary
        services
      ≡ redirect (text "https://" ++ authority ++ text "/a?b=c"))
    × IsPortOf (some 8443) (text "EXAMPLE.test") authority
    × (host_for_url_authority authority ≡ text "EXAMPLE.test")
    × IsAllowlisted plain_syntax authority hosts
IsAllowlisted-redirect_example =
    IsAllowlisted-redirect plain_syntax (text "EXAMPLE.test") (text "/a?b=c") (text "EXAMPLE.test")
      (some 8443) hosts primary services upper_name upper_plain (λ e. cc) (λ n e. cc) (omega arith)
      apex_listed slash

upper_redirected :
    redirect_http_to_https plain_syntax true
      (text "EXAMPLE.test")
      (text "/a?b=c")
      (some 8443)
      hosts
      primary
      services
    ≡ redirect (text "https://EXAMPLE.test:8443/a?b=c")
unfolding redirect_http_to_https
upper_redirected = refl

plain_name : all is_name_char (text "www.example.test") ≡ true
unfolding is_whitespace
plain_name = refl

plain_port : is_port (text "8080") ≡ true
unfolding is_ascii_digit
plain_port = refl

port_changes_nothing_example :
    (classify_host_surface (text "www.example.test" ++ b':' ∷ text "8080") primary services []
      ≡ classify_host_surface (text "www.example.test") primary services [])
    × (host_is_allowlisted plain_syntax (text "www.example.test" ++ b':' ∷ text "8080") hosts
        ≡ host_is_allowlisted plain_syntax (text "www.example.test") hosts)
port_changes_nothing_example =
    port_changes_nothing plain_syntax (text "www.example.test") (text "8080") primary services []
      hosts plain_name plain_port
