-- ===== src/Auth/Next.antt =====
-- crates/management-ui/src/auth.rs: where a login leads, which paths are open to all, and the content
-- policy of the pages.
pub mod Laws
use surmount_server.Net.{ip_eq}
use surmount_server.Prelude.{
  Bool, any, if◌then◌else◌, is_empty, list_eq, nat_eq, not, ◌++◌, ◌==◌, ◌||◌,
}
use surmount_server.Text.{Text, contains, contains_char, starts_with, text, trim}
use surmount_server.Text.Chars.{filter_chars, is_ascii_alphanumeric, is_control}

unfoldable pub sanitize_login_next : Text → Text
unfolding trim contains starts_with contains_char is_control
sanitize_login_next raw =
    let t = trim raw in
    if is_empty t
    then text "/"
    else if contains (text "://") t
    then text "/"
    else if not (starts_with (text "/") t) || starts_with (text "//") t
    then text "/"
    else if contains_char b'\\' t
    then text "/"
    else if any is_control t
    then text "/"
    else t

unfoldable pub is_public_path : Text → Bool
is_public_path path =
    path == text "/health"
    || path == text "/api/health"
    || path == text "/api/v1/auth/challenge"
    || path == text "/api/v1/auth/session"
    || path == text "/api/v1/auth/logout"
    || path == text "/login"
    || path == text "/.well-known/mta-sts.txt"

unfoldable pub is_html_path : Text → Bool
unfolding starts_with
is_html_path path = not (starts_with (text "/api/") path)

unfoldable pub baseline_csp : Text → Text
unfolding filter_chars is_ascii_alphanumeric
baseline_csp script_nonce =
    text "default-src 'self'; script-src 'self' 'nonce-"
    ++ filter_chars (λ c. is_ascii_alphanumeric c || c == b'-' || c == b'_') script_nonce
    ++ text
        "'; style-src 'self' 'unsafe-inline'; img-src 'self' data:; connect-src 'self'; font-src 'self'; object-src 'none'; base-uri 'self'; form-action 'self'; frame-ancestors 'none'"
