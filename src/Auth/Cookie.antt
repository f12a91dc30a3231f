-- ===== src/Auth/Cookie.antt =====
-- crates/management-ui/src/auth.rs: cookies, as the server sets them and reads them back.
pub mod Laws
use surmount_server.Net.{ip_eq}
use surmount_server.Prelude.{
  Bool, List, Option, [], false, list_eq, nat_eq, none, some, true, ℕ, ◌++◌, ◌∷◌,
}
use surmount_server.Text.{Text, split, text, trim}
use surmount_server.Text.Chars.{strip_prefix}

abbrev pub session_cookie_name : Text
session_cookie_name = text "surmount_session"

abbrev pub csrf_cookie_name : Text
csrf_cookie_name = text "surmount_csrf"

abbrev pub secure_flag : Bool → Text
secure_flag true = text "; Secure"
secure_flag false = []

abbrev attributes : Text → Bool → Text
attributes max_age secure =
    text " Path=/; HttpOnly; SameSite=Lax; Max-Age=" ++ (max_age ++ secure_flag secure)

-- `name=value` with the attributes of every cookie here; `max_age` is printed
unfoldable pub cookie_text : Text → Text → Text → Bool → Text
cookie_text name value max_age secure = name ++ b'=' ∷ (value ++ b';' ∷ attributes max_age secure)

-- `print` prints a u64 in decimal
unfoldable pub session_set_cookie_header : (print : ℕ → Text) → Text → ℕ → Bool → Text
unfolding cookie_text
session_set_cookie_header print cookie_value max_age_secs secure =
    cookie_text session_cookie_name cookie_value (print max_age_secs) secure

unfoldable pub session_clear_cookie_header : Bool → Text
unfolding cookie_text
session_clear_cookie_header secure = cookie_text session_cookie_name [] (text "0") secure

unfoldable pub csrf_set_cookie_header : (print : ℕ → Text) → Text → ℕ → Bool → Text
unfolding cookie_text
csrf_set_cookie_header print token max_age_secs secure =
    cookie_text csrf_cookie_name token (print max_age_secs) secure

unfoldable pub csrf_clear_cookie_header : Bool → Text
unfolding cookie_text
csrf_clear_cookie_header secure = cookie_text csrf_cookie_name [] (text "0") secure

-- what follows `name=`, if the part begins so
unfoldable pub named_value : Text → Text → Option Text
unfolding strip_prefix
named_value name part = elim (strip_prefix name part) [
  | some rest ↦ strip_prefix (b'=' ∷ []) rest
  | none ↦ none
]

unfoldable pub first_named : Text → List Text → Option Text
unfolding named_value trim
first_named name [] = none
first_named name (part ∷ parts) = elim (named_value name (trim part)) [
  | some v ↦ some v
  | none ↦ first_named name parts
]

unfoldable pub cookie_value : Text → Text → Option Text
unfolding first_named split
cookie_value cookie_header name = first_named name (split b';' cookie_header)
