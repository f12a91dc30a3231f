-- ===== src/Console.antt =====
-- crates/management-ui/src/console_accounts.rs: who may log in to the console, and as what. The JSON
-- library is a parameter, and so is the file system.
pub mod Store
pub mod Unique
pub mod Fold
pub mod Laws
pub mod Grant
mod Tests
use mathlib.Core.Option
use surmount_server.Assoc.{is_some}
use surmount_server.Auth.{allowlist_contains, npub}
use surmount_server.Net.{ip_eq}
use surmount_server.Prelude.{
  Bool, List, Option, Result, [], err, false, if◌then◌else◌, is_empty, list_eq, nat_eq, none, not,
  ok, some, true, ℕ, ◌&&◌, ◌==◌, ◌||◌, ◌∷◌,
}
use surmount_server.Text.{Text, contains_char, text, to_ascii_lowercase, trim}
use surmount_server.Text.Chars.{non_blank}

pub data ConsoleRole : Type 0 where
  administrator user : ConsoleRole

unfoldable pub role_as_str : ConsoleRole → Text
role_as_str administrator = text "administrator"
role_as_str user = text "user"

-- the error carries the word that is no role
unfoldable pub parse_role : Text → Result Text ConsoleRole
unfolding trim to_ascii_lowercase
parse_role raw =
    let r = to_ascii_lowercase (trim raw) in
    if r == [] || r == text "user"
    then ok user
    else if r == text "administrator" || r == text "admin"
    then ok administrator
    else err r

pub record ConsoleAccountEntry : Type 0 where
  pub mailbox : Option Text
  pub npub_hex : Option Text
  pub role : ConsoleRole
  pub aliases : List Text
  pub password_set : Bool

-- trimmed, in lower case and not empty
unfoldable pub normalized : Option Text → Option Text
unfolding non_blank to_ascii_lowercase
normalized o = Option.map to_ascii_lowercase (non_blank o)

unfoldable pub mailbox_normalized : ConsoleAccountEntry → Option Text
unfolding normalized
mailbox_normalized entry = normalized entry.mailbox

unfoldable pub npub_normalized : ConsoleAccountEntry → Option Text
unfolding normalized
npub_normalized entry = normalized entry.npub_hex

abbrev pub console_accounts_version : ℕ
console_accounts_version = 1

pub record ConsoleAccountFile : Type 0 where
  pub version : ℕ
  pub accounts : List ConsoleAccountEntry

abbrev pub default_file : ConsoleAccountFile
default_file = record { version = console_accounts_version; accounts = [] }

-- `as_deref() == Some(want)`
abbrev pub is_some_of : Option Text → Text → Bool
is_some_of none want = false
is_some_of (some t) want = t == want

abbrev pub find {ℓ} : {A : Type ℓ} → (A → Bool) → List A → Option A
find p [] = none
find p (a ∷ rest) = if p a then some a else find p rest

abbrev pub has_mailbox : Text → ConsoleAccountEntry → Bool
has_mailbox want e = is_some_of (mailbox_normalized e) want

abbrev pub has_key : Text → ConsoleAccountEntry → Bool
has_key want e = is_some_of (npub_normalized e) want

unfoldable pub by_npub : ConsoleAccountFile → Text → Option ConsoleAccountEntry
unfolding trim to_ascii_lowercase
by_npub file hex =
    let want = to_ascii_lowercase (trim hex) in
    if is_empty want then none else find (has_key want) file.accounts

unfoldable pub by_mailbox : ConsoleAccountFile → Text → Option ConsoleAccountEntry
unfolding trim to_ascii_lowercase
by_mailbox file address =
    let want = to_ascii_lowercase (trim address) in
    if is_empty want then none else find (has_mailbox want) file.accounts

unfoldable pub has_npub : ConsoleAccountFile → Text → Bool
unfolding by_npub
has_npub file hex = is_some (by_npub file hex)

pub data UpsertError : Type 0 where
  mailbox_required npub_already_bound : UpsertError

-- The first row of the mailbox is changed, or else a row is added at the end.
unfoldable pub edit_row :
    Text
    → (ConsoleAccountEntry → ConsoleAccountEntry)
    → ConsoleAccountEntry
    → List ConsoleAccountEntry
    → List ConsoleAccountEntry
edit_row mailbox change added [] = added ∷ []
edit_row mailbox change added (e ∷ es) =
    let rest = edit_row mailbox change added es in
    if has_mailbox mailbox e then change e ∷ es else e ∷ rest

-- the key is on a row of another mailbox
unfoldable pub bound_elsewhere : ConsoleAccountFile → Text → Option Text → Bool
unfolding by_npub
bound_elsewhere file mailbox none = false
bound_elsewhere file mailbox (some hex) = elim (by_npub file hex) [
  | some existing ↦ not (has_mailbox mailbox existing)
  | none ↦ false
]

unfoldable pub is_address : Text → Bool
unfolding contains_char
is_address mailbox = not (is_empty mailbox) && contains_char b'@' mailbox

unfoldable pub upsert_mailbox :
    ConsoleAccountFile → Text → Option Text → ConsoleRole → Result UpsertError ConsoleAccountFile
unfolding normalized bound_elsewhere edit_row is_address trim to_ascii_lowercase
upsert_mailbox file address npub_hex role =
    let mailbox = to_ascii_lowercase (trim address) in
    let npub = normalized npub_hex in
    if not (is_address mailbox)
    then err mailbox_required
    else if bound_elsewhere file mailbox npub
    then err npub_already_bound
    else ok (record file {
      accounts =
          edit_row mailbox
            (λ row. record row { mailbox = some mailbox; npub_hex = npub; role = role })
            (record {
              mailbox = some mailbox;
              npub_hex = npub;
              role = role;
              aliases = [];
              password_set = false;
            })
            file.accounts;
    })

unfoldable pub mark_password_set : ConsoleAccountFile → Text → ConsoleAccountFile
unfolding edit_row is_address trim to_ascii_lowercase
mark_password_set file address =
    let mailbox = to_ascii_lowercase (trim address) in
    if not (is_address mailbox) then file else record file {
      accounts =
          edit_row mailbox (λ row. record row { password_set = true })
            (record {
              mailbox = some mailbox;
              npub_hex = none;
              role = user;
              aliases = [];
              password_set = true;
            })
            file.accounts;
    }

pub record RequestPrincipal : Type 0 where
  pub hex_pubkey : Text
  pub principal_role : Option ConsoleRole
  pub principal_mailbox : Option Text

unfoldable pub is_administrator : RequestPrincipal → Bool
is_administrator p = elim p.principal_role [ some administrator ↦ true | _ ↦ false ]

unfoldable pub console_login_accepted : Text → List Text → ConsoleAccountFile → Bool
unfolding allowlist_contains has_npub
console_login_accepted hex allowlist file = allowlist_contains allowlist hex || has_npub file hex

unfoldable pub resolve_console_role : Text → List Text → ConsoleAccountFile → Option ConsoleRole
unfolding by_npub allowlist_contains
resolve_console_role hex allowlist file = elim (by_npub file hex) [
  | some entry ↦ some entry.role
  | none ↦ if allowlist_contains allowlist hex then some administrator else none
]

unfoldable pub resolve_console_principal : Text → List Text → ConsoleAccountFile → RequestPrincipal
unfolding by_npub resolve_console_role mailbox_normalized trim to_ascii_lowercase
resolve_console_principal hex allowlist file =
    let key = to_ascii_lowercase (trim hex) in
    record {
      hex_pubkey = key;
      principal_role = resolve_console_role key allowlist file;
      principal_mailbox = elim (by_npub file key) [
        | some entry ↦ mailbox_normalized entry
        | none ↦ none
      ];
    }
