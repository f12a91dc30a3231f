-- ===== src/Console/Laws.antt =====
-- crates/management-ui/src/console_accounts.rs: what a grant of access does.
use surmount_server.Console.{
  ConsoleAccountEntry, ConsoleAccountFile, ConsoleRole, UpsertError, bound_elsewhere, by_npub,
  edit_row, find, has_key, has_mailbox, is_address, mailbox_normalized, mailbox_required,
  mark_password_set, normalized, npub_already_bound, npub_normalized, upsert_mailbox, user,
}
use surmount_server.Console.Fold.{
  folded, normalized-folded, normalized-none, normalized_own, normalized_twice,
}
use surmount_server.Console.Unique.{elsewhere, unique_rows}
use surmount_server.Console.Unique.Edit.{unique_rows-edit_row, unique_rows-mark}
use surmount_server.Net.{ip_eq}
use surmount_server.Prelude.{
  Bool, Option, Result, [], ap, err, false, if◌then◌else◌, is_empty, list_eq, nat_eq, none, not, ok,
  refl, some, sym, true, ◌∙◌, ◌∷◌, ◌≡◌,
}
use surmount_server.Text.{Text}

pub by_npub-folded :
    (file : ConsoleAccountFile) (hex : Text)
    → folded hex ≡ hex
    → is_empty hex ≡ false
    → by_npub file hex ≡ find (has_key hex) file.accounts
unfolding by_npub
by_npub-folded file hex same full =
    ap (λ (w : Text). if is_empty w then none else find (has_key w) file.accounts) same
    ∙ rw full refl

bound_step :
    (file : ConsoleAccountFile) (m : Text) (k : Option Text)
    → ((hex : Text) → k ≡ some hex → (folded hex ≡ hex) × (is_empty hex ≡ false))
    → bound_elsewhere file m k ≡ elsewhere m k file.accounts
unfolding bound_elsewhere
bound_step file m none normal = refl
bound_step file m (some hex) normal =
    let (same, full) = normal hex refl in
    ap
      (λ (o : Option ConsoleAccountEntry). elim o [
        | some existing ↦ not (has_mailbox m existing)
        | none ↦ false
      ])
      (by_npub-folded file hex same full)

-- the rows that an upsert writes for a mailbox, and for a key
abbrev pub granted : Text → Option Text → ConsoleRole → ConsoleAccountEntry → ConsoleAccountEntry
granted m k role row = record row { mailbox = some m; npub_hex = k; role = role }

abbrev pub fresh_row : Text → Option Text → ConsoleRole → ConsoleAccountEntry
fresh_row m k role = record {
  mailbox = some m;
  npub_hex = k;
  role = role;
  aliases = [];
  password_set = false;
}

upsert_steps :
    (address bound : Bool) (row : ConsoleAccountFile) {after : ConsoleAccountFile}
    → ◌≡◌ {A = Result UpsertError ConsoleAccountFile}
        (if not address
          then err mailbox_required
          else if bound
          then err npub_already_bound
          else ok row)
        (ok after)
    → (address ≡ true) × (bound ≡ false) × (after ≡ row)
upsert_steps true true row h = absurd cc
upsert_steps true false row h = (refl, refl, cc)
upsert_steps false bound row h = absurd cc

address-full : (m : Text) → is_address m ≡ true → is_empty m ≡ false
unfolding is_address
address-full [] h = absurd cc
address-full (c ∷ m) h = refl

pub upsert_parts :
    (file : ConsoleAccountFile) (address : Text) (key : Option Text) (role : ConsoleRole)
    → {after : ConsoleAccountFile} → upsert_mailbox file address key role ≡ ok after
    → (is_empty (folded address) ≡ false)
      × (elsewhere (folded address) (normalized key) file.accounts ≡ false)
      × (after.accounts
          ≡ edit_row
              (folded address)
              (granted (folded address) (normalized key) role)
              (fresh_row (folded address) (normalized key) role)
              file.accounts)
unfolding upsert_mailbox
upsert_parts file address key role h =
    let m = folded address in
    let k = normalized key in
    let (is_one, free, same) =
      upsert_steps (is_address m) (bound_elsewhere file m k)
        (record file {
          accounts = edit_row m (granted m k role) (fresh_row m k role) file.accounts;
        })
        h in
    (
      address-full m is_one,
      sym (bound_step file m k (λ hex. normalized-folded key)) ∙ free,
      ap ConsoleAccountFile.accounts same,
    )

pub granted_box :
    (address : Text) (k : Option Text) (role : ConsoleRole) (e : ConsoleAccountEntry)
    → is_empty (folded address) ≡ false
    → mailbox_normalized (granted (folded address) k role e) ≡ some (folded address)
unfolding mailbox_normalized
granted_box address k role e full = normalized_own address full

pub granted_key :
    (m : Text) (key : Option Text) (role : ConsoleRole) (e : ConsoleAccountEntry)
    → npub_normalized (granted m (normalized key) role e) ≡ normalized key
unfolding npub_normalized
granted_key m key role e = normalized_twice key

-- Where no two rows of an account file share a mailbox or a key, an upsert that succeeds leaves it
-- so.
pub upsert_mailbox-unique_rows :
    (file : ConsoleAccountFile) (address : Text) (key : Option Text) (role : ConsoleRole)
    → {after : ConsoleAccountFile} → unique_rows file.accounts ≡ true
    → upsert_mailbox file address key role ≡ ok after
    → unique_rows after.accounts ≡ true
upsert_mailbox-unique_rows file address key role unique h =
    let (full, free, same) = upsert_parts file address key role h in
    let m = folded address in
    let k = normalized key in
    ap unique_rows same
    ∙ unique_rows-edit_row m (granted m k role) (fresh_row m k role) k
        (λ e. granted_box address k role e full) (granted_key m key role)
        (granted_box address k role (fresh_row m k role) full)
        (granted_key m key role (fresh_row m k role)) file.accounts free unique

mark-unique_rows :
    (file : ConsoleAccountFile) (address : Text)
    → unique_rows file.accounts ≡ true
    → (is_one : Bool) → (is_one ≡ true → is_empty (folded address) ≡ false)
    → unique_rows
        (if not is_one then file else record file {
          accounts =
              edit_row
                (folded address)
                (λ row. record row { password_set = true })
                (record {
                  mailbox = some (folded address);
                  npub_hex = none;
                  role = user;
                  aliases = [];
                  password_set = true;
                })
                file.accounts;
        }).accounts
      ≡ true
unfolding mailbox_normalized npub_normalized
mark-unique_rows file address unique false full = unique
mark-unique_rows file address unique true full =
    unique_rows-mark (folded address) _ _ (λ e. refl) (λ e. refl)
      (normalized_own address (full refl)) normalized-none file.accounts unique

-- Recording that a password was set keeps mailboxes and keys unique.
pub mark_password_set-unique_rows :
    (file : ConsoleAccountFile) (address : Text)
    → unique_rows file.accounts ≡ true
    → unique_rows (mark_password_set file address).accounts ≡ true
unfolding mark_password_set
mark_password_set-unique_rows file address unique =
    mark-unique_rows file address unique (is_address (folded address))
      (address-full (folded address))
