-- ===== src/Console/Grant.antt =====
-- crates/management-ui/src/console_accounts.rs: whoever is granted a role has it at the next login.
use surmount_server.Auth.{allowlist_contains}
use surmount_server.Console.{
  ConsoleAccountEntry, ConsoleAccountFile, ConsoleRole, RequestPrincipal, administrator, by_npub,
  edit_row, find, has_key, has_mailbox, mailbox_normalized, normalized, npub_normalized,
  resolve_console_principal, resolve_console_role, upsert_mailbox,
}
use surmount_server.Console.Fold.{folded, normalized-folded, normalized_own}
use surmount_server.Console.Laws.{by_npub-folded, fresh_row, granted, granted_box, upsert_parts}
use surmount_server.Console.Unique.{elsewhere, no_key, pass}
use surmount_server.Net.{ip_eq}
use surmount_server.Prelude.{
  Bool-cases, List, Option, [], ap, beq_refl, false, if◌then◌else◌, inl, inr, is_empty, list_eq,
  nat_eq, none, ok, refl, some, sym, ◌∙◌, ◌∷◌, ◌≡◌,
}
use surmount_server.Text.{Text, to_ascii_lowercase, trim}

module _ (m hex : Text) (role : ConsoleRole) where
  -- the row that is found by the key after the grant
  abbrev Finds : List ConsoleAccountEntry → Type 0
  Finds es =
      (row : ConsoleAccountEntry) × (find (has_key hex) es ≡ some row)
      × (mailbox_normalized row ≡ some m)
      × (row.role ≡ role)

  module _
      (boxed : (e : ConsoleAccountEntry)
        → mailbox_normalized (granted m (some hex) role e) ≡ some m)
      (keyed : (e : ConsoleAccountEntry)
        → npub_normalized (granted m (some hex) role e) ≡ some hex) where
    Finds-here :
        (e : ConsoleAccountEntry) (es : List ConsoleAccountEntry)
        → Finds (granted m (some hex) role e ∷ es)
    Finds-here e es = (granted m (some hex) role e, rw (keyed e, beq_refl hex) refl, boxed e, refl)

    Finds-later :
        (e : ConsoleAccountEntry) (es : List ConsoleAccountEntry)
        → has_key hex e ≡ false
        → Finds es
        → Finds (e ∷ es)
    Finds-later e es unmet (row, there, box, same) = (row, rw unmet there, box, same)

    Finds-edit_row :
        (es : List ConsoleAccountEntry)
        → elsewhere m (some hex) es ≡ false
        → Finds (edit_row m (granted m (some hex) role) (fresh_row m (some hex) role) es)
    unfolding edit_row
    Finds-edit_row [] h = Finds-here (fresh_row m (some hex) role) []
    Finds-edit_row (e ∷ es) h = elim (Bool-cases (has_mailbox m e)) [
      | inl hit ↦ rw hit (Finds-here e es)
      | inr miss ↦
          rw miss (
            Finds-later e _ (no_key m hex e es miss h) (Finds-edit_row es (pass m hex e es miss h)))
    ]

-- the principal, from the row that is found for its key
abbrev principal_of : List Text → Text → Option ConsoleAccountEntry → RequestPrincipal
principal_of allowlist key o = record {
  hex_pubkey = key;
  principal_role = elim o [
    | some entry ↦ some entry.role
    | none ↦ if allowlist_contains allowlist key then some administrator else none
  ];
  principal_mailbox = elim o [ some entry ↦ mailbox_normalized entry | none ↦ none ];
}

resolve_console_principal_lem :
    (hex : Text) (allowlist : List Text) (file : ConsoleAccountFile)
    → resolve_console_principal hex allowlist file
      ≡ principal_of allowlist (folded hex) (by_npub file (folded hex))
unfolding resolve_console_principal resolve_console_role
resolve_console_principal_lem hex allowlist file = refl

abbrev principal : Text → ConsoleRole → Option Text → RequestPrincipal
principal hex role mailbox = record {
  hex_pubkey = hex;
  principal_role = some role;
  principal_mailbox = mailbox;
}

hex_keyed :
    (hex : Text) (role : ConsoleRole) (m : Text) (e : ConsoleAccountEntry)
    → folded hex ≡ hex
    → is_empty hex ≡ false
    → npub_normalized (granted m (some hex) role e) ≡ some hex
unfolding npub_normalized
hex_keyed hex role m e normal present =
    ap normalized (ap some (sym normal))
    ∙ normalized_own hex (ap is_empty normal ∙ present)
    ∙ ap some normal

-- After an upsert that succeeds and names a key, that key is resolved, whatever the allowlist, to
-- exactly the role and the mailbox that were given, the mailbox trimmed and in lower case.
pub upsert_mailbox-principal :
    (file : ConsoleAccountFile) (address : Text) (key : Option Text) (role : ConsoleRole)
    → (allowlist : List Text) {after : ConsoleAccountFile} {hex : Text} → normalized key ≡ some hex
    → upsert_mailbox file address key role ≡ ok after
    → resolve_console_principal hex allowlist after ≡ record {
      hex_pubkey = hex;
      principal_role = some role;
      principal_mailbox = some (to_ascii_lowercase (trim address));
    }
upsert_mailbox-principal file address key role allowlist {after} {hex} some_key h =
    let (full, free, same) = upsert_parts file address key role h in
    let (normal, present) = normalized-folded key some_key in
    let m = folded address in
    let (row, there, box, named) =
      Finds-edit_row m hex role (λ e. granted_box address (some hex) role e full)
        (λ e. hex_keyed hex role m e normal present) file.accounts
        (ap (λ (k : Option Text). elsewhere m k file.accounts) (sym some_key) ∙ free) in
    resolve_console_principal_lem hex allowlist after
    ∙ ap (λ (t : Text). principal_of allowlist t (by_npub after t)) normal
    ∙ ap (principal_of allowlist hex) (
        by_npub-folded after hex normal present
        ∙ ap (find (has_key hex)) (
            same
            ∙ ap
                (λ (k : Option Text).
                  edit_row m (granted m k role) (fresh_row m k role) file.accounts)
                some_key)
        ∙ there)
    ∙ ap (λ (b : Option Text). principal hex row.role b) box
    ∙ ap (λ (r : ConsoleRole). principal hex r (some m)) named
