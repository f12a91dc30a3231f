-- ===== src/Console/Tests.antt =====
-- The theorems on the map of accounts at concrete inputs.
use surmount_server.Console.{
  ConsoleAccountEntry, ConsoleAccountFile, ConsoleRole, administrator, is_some_of,
  mailbox_normalized, normalized, npub_normalized, resolve_console_principal, upsert_mailbox, user,
}
use surmount_server.Console.Grant.{upsert_mailbox-principal}
use surmount_server.Console.Laws.{upsert_mailbox-unique_rows}
use surmount_server.Console.Store.{
  AccountsDisk, AccountsJson, Steps, StoreError, check_rows, load_console_accounts, missing,
  save_console_accounts_locked,
}
use surmount_server.Console.Store.Laws.{ReadsBack, saved_or_same}
use surmount_server.Console.Unique.{unique_rows}
use surmount_server.Net.{ip_eq}
use surmount_server.Prelude.{
  Bool, List, Option, [], ap, arith, err, false, if◌then◌else◌, is_empty, list_beq_iff, list_eq,
  nat_beq_iff, nat_eq, none, not, ok, refl, some, sym, true, ℕ, ◌&&◌, ◌==◌, ◌∙◌, ◌∷◌, ◌≡◌, ◌⊎◌,
}
use surmount_server.Text.{Text, text, to_ascii_lowercase, trim}

abbrev key_a : Text
key_a = text "aa"

abbrev mail_row : ConsoleAccountEntry
mail_row = record {
  mailbox = some (text "ann@host.test");
  npub_hex = none;
  role = user;
  aliases = [];
  password_set = false;
}

abbrev one_row : ConsoleAccountFile
one_row = record { version = 1; accounts = mail_row ∷ [] }

abbrev granted_row : ConsoleAccountFile
granted_row = record one_row {
  accounts = record mail_row { npub_hex = some key_a; role = administrator } ∷ [];
}

grant_succeeds :
    upsert_mailbox one_row (text "Ann@host.test") (some (text " AA")) administrator ≡ ok granted_row
unfolding upsert_mailbox npub_normalized mailbox_normalized
grant_succeeds = refl

key_normal : normalized (some (text " AA")) ≡ some key_a
unfolding normalized
key_normal = refl

one_row_unique : unique_rows one_row.accounts ≡ true
unfolding unique_rows npub_normalized mailbox_normalized
one_row_unique = refl

upsert_mailbox-unique_rows_example : unique_rows granted_row.accounts ≡ true
upsert_mailbox-unique_rows_example =
    upsert_mailbox-unique_rows one_row (text "Ann@host.test") (some (text " AA")) administrator
      {after = granted_row} one_row_unique grant_succeeds

upsert_mailbox-principal_example : resolve_console_principal key_a [] granted_row ≡ record {
  hex_pubkey = key_a;
  principal_role = some administrator;
  principal_mailbox = some (text "ann@host.test");
}
unfolding to_ascii_lowercase trim
upsert_mailbox-principal_example =
    upsert_mailbox-principal one_row (text "Ann@host.test") (some (text " AA")) administrator []
      {after = granted_row} {hex = key_a} key_normal grant_succeeds

-- Where two rows share a mailbox, an upsert gives its key to a second row.
shared : ConsoleAccountFile
shared = record one_row { accounts = mail_row ∷ record mail_row { npub_hex = some key_a } ∷ [] }

key_twice :
    upsert_mailbox shared (text "ann@host.test") (some key_a) user
    ≡ ok (record shared {
      accounts =
          record mail_row { npub_hex = some key_a }
          ∷ record mail_row { npub_hex = some key_a }
          ∷ [];
    })
unfolding upsert_mailbox shared npub_normalized mailbox_normalized
key_twice = refl

-- the tests of a row's fields
is_absent : Option Text → Bool
is_absent none = true
is_absent (some t) = false

is_user : ConsoleRole → Bool
is_user user = true
is_user administrator = false

abbrev is_mail_row : ConsoleAccountEntry → Bool
is_mail_row e =
    is_some_of e.mailbox (text "ann@host.test")
    && is_absent e.npub_hex
    && is_user e.role
    && is_empty e.aliases
    && not e.password_set

abbrev is_one_row : ConsoleAccountFile → Bool
is_one_row file = elim file.accounts [
  | [] ↦ false
  | e ∷ es ↦ file.version == 1 && is_empty es && is_mail_row e
]

-- a file of one row has a text, which is read back
abbrev one_json : AccountsJson
one_json = record {
  from_str = λ t. if t == text "one" then some one_row else none;
  to_string_pretty = λ file. if is_one_row file then some (text "one") else none;
}

all_five :
    (a b c d e : Bool)
    → (a && b && c && d && e) ≡ true
    → (a ≡ true) × (b ≡ true) × (c ≡ true) × (d ≡ true) × (e ≡ true)
all_five a b c d e h = ground arith

row_of :
    (m k : Option Text) (r : ConsoleRole) (a : List Text) (p : Bool)
    → is_some_of m (text "ann@host.test") ≡ true
    → is_absent k ≡ true
    → is_user r ≡ true
    → is_empty a ≡ true
    → not p ≡ true
    → ◌≡◌ {A = ConsoleAccountEntry}
        (record { mailbox = m; npub_hex = k; role = r; aliases = a; password_set = p })
        mail_row
unfolding is_absent is_user
row_of (some m) none user [] false named h r a p =
    ap
      (λ (t : Text). record {
        mailbox = some t;
        npub_hex = none;
        role = user;
        aliases = [];
        password_set = false;
      })
      ((list_beq_iff m (text "ann@host.test")).0 named)
row_of none k r a p named h x y z = absurd cc
row_of (some m) (some t) r a p named h x y z = absurd cc
row_of (some m) none administrator a p named h x y z = absurd cc
row_of (some m) none user (t ∷ a) p named h x y z = absurd cc
row_of (some m) none user [] true named h x y z = absurd cc

file_of :
    (v : ℕ) (e : ConsoleAccountEntry) (es : List ConsoleAccountEntry)
    → (v == 1 && is_empty es && is_mail_row e) ≡ true
    → ◌≡◌ {A = ConsoleAccountFile} (record { version = v; accounts = e ∷ es }) one_row
file_of v e (x ∷ es) h = absurd (ground arith)
file_of v e [] h =
    let first : (v == 1) ≡ true = ground arith in
    let row : is_mail_row e ≡ true = ground arith in
    let (m, k, r, a, p) =
      all_five (is_some_of e.mailbox (text "ann@host.test")) (is_absent e.npub_hex) (is_user e.role)
        (is_empty e.aliases) (not e.password_set) row in
    ap (λ (n : ℕ). record { version = n; accounts = e ∷ [] }) ((nat_beq_iff v 1).0 first)
    ∙ ap (λ (x : ConsoleAccountEntry). record { version = 1; accounts = x ∷ [] })
        (row_of e.mailbox e.npub_hex e.role e.aliases e.password_set m k r a p)

is_one_row-same :
    (v : ℕ) (rows : List ConsoleAccountEntry)
    → is_one_row (record { version = v; accounts = rows }) ≡ true
    → ◌≡◌ {A = ConsoleAccountFile} (record { version = v; accounts = rows }) one_row
is_one_row-same v [] h = absurd cc
is_one_row-same v (e ∷ es) h = file_of v e es h

written_text :
    (b : Bool) {t : Text}
    → (if b then some (text "one") else none) ≡ some t
    → (b ≡ true) × (text "one" ≡ t)
written_text true h = (refl, cc)
written_text false h = absurd cc

one_read :
    (file : ConsoleAccountFile) (t : Text)
    → one_row ≡ file
    → text "one" ≡ t
    → (one_json.from_str t ≡ some file) × (trim t ≡ t) × (is_empty t ≡ false)
unfolding trim
one_read file t same shown = rw (sym shown, sym same) (refl, refl, refl)

one_json-ReadsBack : ReadsBack one_json
one_json-ReadsBack = record {
  read_back = λ file t h.
      let (one, shown) = written_text (is_one_row file) h in
      one_read file t (sym (is_one_row-same file.version file.accounts one)) shown;
}

abbrev empty_disk : AccountsDisk
empty_disk = record { accounts_file = missing; temp_file = missing }

abbrev all_succeed : Steps
all_succeed = record {
  locks = true;
  opens = true;
  reads = true;
  creates = true;
  writes = true;
  syncs = true;
  renames = true;
}

row_checked : check_rows [] one_row.accounts ≡ ok tt
unfolding check_rows npub_normalized
row_checked = refl

-- the row is on the disk
row_saved : (save_console_accounts_locked one_json all_succeed one_row empty_disk).0 ≡ ok tt
unfolding save_console_accounts_locked is_absent is_user
row_saved = refl

saved_or_same_example :
    (((save_console_accounts_locked one_json all_succeed one_row empty_disk).0 ≡ ok tt)
      × (load_console_accounts one_json all_succeed
            (save_console_accounts_locked one_json all_succeed one_row empty_disk).1
          ≡ ok one_row))
    ⊎ ((e : StoreError) × ((save_console_accounts_locked one_json all_succeed one_row empty_disk).0
          ≡ err e)
        × ((save_console_accounts_locked one_json all_succeed one_row empty_disk).1.accounts_file
            ≡ empty_disk.accounts_file))
saved_or_same_example =
    saved_or_same one_json one_json-ReadsBack all_succeed all_succeed one_row empty_disk row_checked
      refl refl
