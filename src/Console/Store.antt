-- ===== src/Console/Store.antt =====
-- crates/management-ui/src/console_accounts.rs: the map of accounts on disk. An inode is seen without
-- following links; `Steps` says which calls of the file system succeed; the lock is held throughout.
pub mod Laws
use surmount_server.Console.{
  ConsoleAccountEntry, ConsoleAccountFile, UpsertError, console_accounts_version, default_file,
  npub_normalized,
}
use surmount_server.Net.{ip_eq}
use surmount_server.Prelude.{
  Bool, List, Option, Result, [], all, any, err, false, guard, if◌then◌else◌, is_empty, length,
  list_eq, map_err, nat_eq, none, not, ok, ok_or, some, true, ℕ, ◌%◌, ◌&&◌, ◌/◌, ◌==◌, ◌>>=◌, ◌>>◌,
  ◌∷◌,
}
use surmount_server.Text.{Text, contains, text, to_ascii_lowercase, trim}
use surmount_server.Text.Chars.{as_bytes, is_ascii_hexdigit}

pub data StoreError : Type 0 where
  contains_nsec json_invalid duplicate_npub bad_npub : StoreError
  unsupported_version : ℕ → StoreError
  symlink_refused directory_refused irregular_refused world_writable : StoreError
  lock_failed stat_failed open_failed read_failed : StoreError
  refuses_version unencodable refuses_nsec temp_irregular : StoreError
  create_failed write_failed sync_failed rename_failed : StoreError
  edit_failed : UpsertError → StoreError

pub record AccountsJson : Type 0 where
  pub from_str : Text → Option ConsoleAccountFile
  pub to_string_pretty : ConsoleAccountFile → Option Text

-- What is there at a path; a regular file has its mode and its text.
pub data Inode : Type 0 where
  missing symlink directory special : Inode
  regular : ℕ → Text → Inode

pub record Steps : Type 0 where
  pub locks : Bool
  pub opens : Bool
  pub reads : Bool
  pub creates : Bool
  pub writes : Bool
  pub syncs : Bool
  pub renames : Bool

-- the map and the temporary file beside it
pub record AccountsDisk : Type 0 where
  pub accounts_file : Inode
  pub temp_file : Inode

abbrev pub mode_private : ℕ
mode_private = 384

-- `mode & 0o002 != 0`
abbrev pub is_world_writable : ℕ → Bool
is_world_writable mode = (mode / 2) % 2 == 1

unfoldable pub refuse_insecure_inode : Inode → Result StoreError (Unit {0})
refuse_insecure_inode missing = err stat_failed
refuse_insecure_inode symlink = err symlink_refused
refuse_insecure_inode directory = err directory_refused
refuse_insecure_inode special = err irregular_refused
refuse_insecure_inode (regular mode contents) = guard (not (is_world_writable mode)) world_writable

abbrev pub is_key_text : Text → Bool
is_key_text hex = length (as_bytes hex) == 64 && all is_ascii_hexdigit hex

-- the loop over the rows, with the keys that it has seen
unfoldable pub check_rows : List Text → List ConsoleAccountEntry → Result StoreError (Unit {0})
unfolding npub_normalized as_bytes is_ascii_hexdigit
check_rows seen [] = ok tt
check_rows seen (e ∷ es) = elim (npub_normalized e) [
  | none ↦ check_rows seen es
  | some hex ↦
      if any (λ k. k == hex) seen
      then err duplicate_npub
      else if not (is_key_text hex)
      then err bad_npub
      else check_rows (hex ∷ seen) es
]

abbrev pub mentions_nsec : Text → Bool
mentions_nsec t = contains (text "nsec1") (to_ascii_lowercase t)

abbrev pub is_missing : Inode → Bool
is_missing missing = true
is_missing _ = false

-- a file that is there is not replaced if it is insecure
abbrev pub secure_target : AccountsDisk → Result StoreError (Unit {0})
secure_target disk =
    if is_missing disk.accounts_file then ok tt else refuse_insecure_inode disk.accounts_file

-- An old temporary file is removed; a link or a directory in its place is refused.
unfoldable pub clear_temp : AccountsDisk → Result StoreError AccountsDisk
clear_temp disk = elim disk.temp_file [
  | symlink ↦ err temp_irregular
  | directory ↦ err temp_irregular
  | _ ↦ ok (record disk { temp_file = missing })
]

-- the temporary file is written and renamed; a rename that fails removes it
unfoldable pub write_out : Steps → Text → AccountsDisk → Result StoreError (Unit {0}) × AccountsDisk
write_out steps encoded disk =
    if not steps.creates
    then (err create_failed, disk)
    else if not steps.writes
    then (err write_failed, record disk { temp_file = regular mode_private [] })
    else if not steps.syncs
    then (err sync_failed, record disk { temp_file = regular mode_private encoded })
    else if not steps.renames
    then (err rename_failed, record disk { temp_file = missing })
    else (ok tt, record { accounts_file = regular mode_private encoded; temp_file = missing })

module _ (json : AccountsJson) where
  unfoldable pub parse_console_accounts_json : Text → Result StoreError ConsoleAccountFile
  unfolding trim contains to_ascii_lowercase check_rows
  parse_console_accounts_json raw =
      let t = trim raw in
      if is_empty t then ok default_file else if mentions_nsec t then err contains_nsec else do
        parsed ← ok_or (json.from_str t) json_invalid
        guard (parsed.version == console_accounts_version) (unsupported_version parsed.version)
        check_rows [] parsed.accounts
        ok parsed

  unfoldable pub load_contents : Steps → Inode → Result StoreError ConsoleAccountFile
  unfolding parse_console_accounts_json
  load_contents steps (regular mode contents) = do
    guard steps.opens open_failed
    guard steps.reads read_failed
    parse_console_accounts_json contents
  load_contents steps _ = err open_failed

  unfoldable pub load_console_accounts : Steps → AccountsDisk → Result StoreError ConsoleAccountFile
  unfolding refuse_insecure_inode load_contents
  load_console_accounts steps disk =
      if is_missing disk.accounts_file
      then ok default_file
      else do refuse_insecure_inode disk.accounts_file; load_contents steps disk.accounts_file

  -- what is done before anything is written: the text, and the disk with room for it
  unfoldable pub prepare :
      ConsoleAccountFile → AccountsDisk → Result StoreError (Text × AccountsDisk)
  unfolding contains to_ascii_lowercase refuse_insecure_inode clear_temp
  prepare file disk = do
    guard (file.version == console_accounts_version) refuses_version
    encoded ← ok_or (json.to_string_pretty file) unencodable
    guard (not (mentions_nsec encoded)) refuses_nsec
    secure_target disk
    cleared ← clear_temp disk
    ok (encoded, cleared)

  unfoldable pub save_console_accounts_locked :
      Steps → ConsoleAccountFile → AccountsDisk → Result StoreError (Unit {0}) × AccountsDisk
  unfolding prepare write_out
  save_console_accounts_locked steps file disk = elim (prepare file disk) [
    | err e ↦ (err e, disk)
    | ok (encoded, cleared) ↦ write_out steps encoded cleared
  ]

  unfoldable pub save_console_accounts :
      Steps → ConsoleAccountFile → AccountsDisk → Result StoreError (Unit {0}) × AccountsDisk
  unfolding save_console_accounts_locked
  save_console_accounts steps file disk =
      if steps.locks then save_console_accounts_locked steps file disk else (err lock_failed, disk)

  -- the file that `edit` makes of the one on disk
  unfoldable pub edited :
      Steps
      → (ConsoleAccountFile → Result UpsertError ConsoleAccountFile)
      → AccountsDisk
      → Result StoreError ConsoleAccountFile
  unfolding load_console_accounts
  edited steps edit disk = do
    guard steps.locks lock_failed
    before ← load_console_accounts steps disk
    map_err edit_failed (edit before)

  unfoldable pub update_console_accounts :
      Steps
      → (ConsoleAccountFile → Result UpsertError ConsoleAccountFile)
      → AccountsDisk
      → Result StoreError ConsoleAccountFile × AccountsDisk
  unfolding edited save_console_accounts_locked
  update_console_accounts steps edit disk = elim (edited steps edit disk) [
    | err e ↦ (err e, disk)
    | ok after ↦
        (let (r, disk') = save_console_accounts_locked steps after disk in
          ((r >>= λ done. ok after), disk'))
  ]
