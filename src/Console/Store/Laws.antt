-- ===== src/Console/Store/Laws.antt =====
-- crates/management-ui/src/console_accounts.rs: a map is saved whole or not at all, and loads again.
-- What serde_json does: it reads back what it writes, which no blank surrounds.
use surmount_server.Console.{ConsoleAccountFile, console_accounts_version, default_file}
use surmount_server.Console.Store.{
  AccountsJson, AccountsDisk, Inode, Steps, StoreError, check_rows, clear_temp, contains_nsec,
  create_failed, directory, json_invalid, load_console_accounts, load_contents, mentions_nsec,
  missing, mode_private, parse_console_accounts_json, prepare, refuse_insecure_inode, regular,
  rename_failed, save_console_accounts_locked, secure_target, special, symlink, sync_failed,
  temp_irregular, unsupported_version, write_failed, write_out,
}
use surmount_server.Net.{ip_eq}
use surmount_server.Prelude.{
  >>=-eq-ok, Bool, Result, [], ap, arith, err, false, guard, guard-chain, if◌then◌else◌, inl, inr,
  is_empty, list_eq, nat_beq, nat_eq, not, ok, ok-injective, ok_or, ok_or-chain, refl, some, sym,
  true, ◌==◌, ◌>>=◌, ◌>>◌, ◌∙◌, ◌≡◌, ◌⊎◌,
}
use surmount_server.Text.{Text, trim}

pub record ReadsBack (json : AccountsJson) : Type 0 where
  pub read_back :
      (file : ConsoleAccountFile) (t : Text)
      → json.to_string_pretty file ≡ some t
      → (json.from_str t ≡ some file) × (trim t ≡ t) × (is_empty t ≡ false)

-- how a write ends: with all of the new text in place, or with an error and the file as it was
abbrev IsAtomic : Text → AccountsDisk → Result StoreError (Unit {0}) × AccountsDisk → Type 0
IsAtomic t disk r =
    ((r.0 ≡ ok tt) × (r.1.accounts_file ≡ regular mode_private t))
    ⊎ ((e : StoreError) × (r.0 ≡ err e) × (r.1.accounts_file ≡ disk.accounts_file))

write_by :
    (creates writes syncs renames : Bool) (t : Text) (disk : AccountsDisk)
    → IsAtomic t disk (
        if not creates
        then (err create_failed, disk)
        else if not writes
        then (err write_failed, record disk { temp_file = regular mode_private [] })
        else if not syncs
        then (err sync_failed, record disk { temp_file = regular mode_private t })
        else if not renames
        then (err rename_failed, record disk { temp_file = missing })
        else (ok tt, record { accounts_file = regular mode_private t; temp_file = missing }))
write_by false writes syncs renames t disk = inr (create_failed, refl, refl)
write_by true false syncs renames t disk = inr (write_failed, refl, refl)
write_by true true false renames t disk = inr (sync_failed, refl, refl)
write_by true true true false t disk = inr (rename_failed, refl, refl)
write_by true true true true t disk = inl (refl, refl)

write_out-IsAtomic :
    (steps : Steps) (t : Text) (disk : AccountsDisk) → IsAtomic t disk (write_out steps t disk)
unfolding write_out
write_out-IsAtomic steps t disk =
    write_by steps.creates steps.writes steps.syncs steps.renames t disk

cleared_by :
    (temp : Inode) (disk after : AccountsDisk)
    → ◌≡◌ {A = Result StoreError AccountsDisk}
        (elim temp [
          | symlink ↦ err temp_irregular
          | directory ↦ err temp_irregular
          | _ ↦ ok (record disk { temp_file = missing })
        ])
        (ok after)
    → after.accounts_file ≡ disk.accounts_file
cleared_by missing disk after h = sym (ap AccountsDisk.accounts_file (ok-injective h))
cleared_by symlink disk after h = absurd cc
cleared_by directory disk after h = absurd cc
cleared_by special disk after h = sym (ap AccountsDisk.accounts_file (ok-injective h))
cleared_by (regular mode contents) disk after h =
    sym (ap AccountsDisk.accounts_file (ok-injective h))

cleared_same :
    (disk after : AccountsDisk)
    → clear_temp disk ≡ ok after
    → after.accounts_file ≡ disk.accounts_file
unfolding clear_temp
cleared_same disk after h = cleared_by disk.temp_file disk after h

not-true : (b : Bool) → not b ≡ true → b ≡ false
not-true b h = ground arith

module _ (json : AccountsJson) where
  prepared :
      (file : ConsoleAccountFile) (disk : AccountsDisk) {t : Text} {cleared : AccountsDisk}
      → prepare json file disk ≡ ok (t, cleared)
      → (nat_beq file.version console_accounts_version ≡ true)
        × (json.to_string_pretty file ≡ some t)
        × (not (mentions_nsec t) ≡ true)
        × (cleared.accounts_file ≡ disk.accounts_file)
  unfolding prepare
  prepared file disk h =
      let (version, h1) = guard-chain _ (nat_beq file.version console_accounts_version) _ h in
      let (t, encoded, h2) = ok_or-chain _ (json.to_string_pretty file) _ h1 in
      let (no_nsec, h3) = guard-chain _ (not (mentions_nsec t)) _ h2 in
      let (u, secure, h4) = >>=-eq-ok (secure_target disk) _ h3 in
      let (cleared, made, h5) = >>=-eq-ok (clear_temp disk) _ h4 in
      let same = ok-injective h5 in
      (
        version,
        encoded ∙ ap some (ap (λ (q : Text × AccountsDisk). q.0) same),
        sym (ap (λ (q : Text × AccountsDisk). not (mentions_nsec q.0)) same) ∙ no_nsec,
        sym (ap (λ (q : Text × AccountsDisk). q.1.accounts_file) same)
            ∙ cleared_same disk cleared made,
      )

  abbrev parse_trimmed : Text → Result StoreError ConsoleAccountFile
  parse_trimmed t =
      if is_empty t then ok default_file else if mentions_nsec t then err contains_nsec else do
        parsed ← ok_or (json.from_str t) json_invalid
        guard (parsed.version == console_accounts_version) (unsupported_version parsed.version)
        check_rows [] parsed.accounts
        ok parsed

  parse_back :
      (law : ReadsBack json) (file : ConsoleAccountFile) (t : Text)
      → json.to_string_pretty file ≡ some t
      → nat_beq file.version console_accounts_version ≡ true
      → not (mentions_nsec t) ≡ true
      → check_rows [] file.accounts ≡ ok tt
      → parse_console_accounts_json json t ≡ ok file
  unfolding parse_console_accounts_json
  parse_back law file t encoded version no_nsec rows =
      let (reads, trimmed, full) = law.read_back file t encoded in
      ap parse_trimmed trimmed
      ∙ rw (full, not-true (mentions_nsec t) no_nsec, reads, version, rows) refl

  load_written :
      (again : Steps) (disk : AccountsDisk) (t : Text)
      → disk.accounts_file ≡ regular mode_private t
      → again.opens ≡ true
      → again.reads ≡ true
      → load_console_accounts json again disk ≡ parse_console_accounts_json json t
  unfolding load_console_accounts refuse_insecure_inode load_contents
  load_written again disk t there opens reads = rw (there, opens, reads) refl

  -- how a save ends: the map loads as it was saved, or there is an error and the file as it was
  abbrev IsSaved :
      Steps
      → ConsoleAccountFile
      → AccountsDisk
      → Result StoreError (Unit {0}) × AccountsDisk
      → Type 0
  IsSaved again file disk r =
      ((r.0 ≡ ok tt) × (load_console_accounts json again r.1 ≡ ok file))
      ⊎ ((e : StoreError) × (r.0 ≡ err e) × (r.1.accounts_file ≡ disk.accounts_file))

  IsSaved-by :
      (law : ReadsBack json) (steps again : Steps) (file : ConsoleAccountFile) (disk : AccountsDisk)
      → check_rows [] file.accounts ≡ ok tt
      → again.opens ≡ true
      → again.reads ≡ true
      → (ready : Result StoreError (Text × AccountsDisk)) → prepare json file disk ≡ ready
      → IsSaved again file disk
          (elim ready [ err e ↦ (err e, disk) | ok (t, cleared) ↦ write_out steps t cleared ])
  IsSaved-by law steps again file disk rows opens reads (err e) h = inr (e, refl, refl)
  IsSaved-by law steps again file disk rows opens reads (ok (t, cleared)) h =
      let (version, encoded, no_nsec, same) = prepared file disk h in
      elim (write_out-IsAtomic steps t cleared) [
        | inl (done, there) ↦ inl (
          done,
          load_written again _ t there opens reads
              ∙ parse_back law file t encoded version no_nsec rows,
        )
        | inr (e, failed, left) ↦ inr (e, failed, left ∙ same)
      ]

  -- Where serde_json reads back what it writes: saving an account file whose rows pass the checks,
  -- whichever steps of the write fail, either succeeds, and a later load that can open and read the
  -- file yields the same rows, or fails and leaves the file as it was.
  pub saved_or_same :
      (law : ReadsBack json) (steps again : Steps) (file : ConsoleAccountFile) (disk : AccountsDisk)
      → check_rows [] file.accounts ≡ ok tt
      → again.opens ≡ true
      → again.reads ≡ true
      → (((save_console_accounts_locked json steps file disk).0 ≡ ok tt)
          × (load_console_accounts json again (save_console_accounts_locked json steps file disk).1
              ≡ ok file))
        ⊎ ((e : StoreError) × ((save_console_accounts_locked json steps file disk).0 ≡ err e)
            × ((save_console_accounts_locked json steps file disk).1.accounts_file
                ≡ disk.accounts_file))
  unfolding save_console_accounts_locked
  saved_or_same law steps again file disk rows opens reads =
      IsSaved-by law steps again file disk rows opens reads (prepare json file disk) refl
