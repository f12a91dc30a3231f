-- ===== src/Ban/Memory.antt =====
-- crates/management-ui/src/ban.rs: the in-memory store, its JSON state file, and the file's loading.
pub mod Laws
pub mod Restart
use surmount_server.Assoc.{Assoc, contains_key, insert, lookup, remove}
use surmount_server.Ban.{
  BanBackend, BanError, BanReason, SystemTime, after_epoch, bad_state_key, before_epoch,
  create_parent_failed, read_failed, rename_failed, serialize_failed, state_corrupt, write_failed,
}
use surmount_server.Ban.Cidr.{WhitelistEntry, contains_ip}
use surmount_server.Net.{IpAddr, IpSyntax, ip_eq}
use surmount_server.Prelude.{
  Bool, List, Option, Result, [], any, err, false, guard, if◌then◌else◌, list_eq, nat_eq, none, not,
  ok, ok_or, some, true, ℕ, ◌&&◌, ◌*◌, ◌/◌, ◌==◌, ◌>>=◌, ◌>>◌, ◌^◌, ◌∷◌, ◌≡◌,
}
use surmount_server.Text.{Text}

pub record BanRecord : Type 0 where
  pub reason : BanReason
  pub at_unix : ℕ

pub record BanStateFile : Type 0 where
  pub bans : Assoc Text BanRecord
  pub whitelist_last_used : Assoc Text ℕ

-- serde_json over the state file
pub record StateJson : Type 0 where
  pub to_string_pretty : BanStateFile → Option Text
  pub from_str : Text → Option BanStateFile

-- What is written is read back.
abbrev pub ReadsWritten : StateJson → Type 0
ReadsWritten json =
    (file : BanStateFile) (raw : Text)
    → json.to_string_pretty file ≡ some raw
    → json.from_str raw ≡ some file

-- The files at the state path and beside it, as far as they exist.
pub record Disk : Type 0 where
  pub state : Option Text
  pub temp : Option Text

-- What the operating system answers during one call: the time, which steps fail, and what a failed
-- write leaves in the temporary file.
pub record Env : Type 0 where
  pub now : SystemTime
  pub create_fails : Bool
  pub write_fails : Bool
  pub rename_fails : Bool
  pub left_over : Option Text

abbrev pub system_time_to_unix : SystemTime → ℕ
system_time_to_unix (after_epoch n) = n / 10 ^ 9
system_time_to_unix (before_epoch n) = 0

abbrev pub unix_to_system_time : ℕ → SystemTime
unix_to_system_time secs = after_epoch (secs * 10 ^ 9)

pub record MemoryInner : Type 0 where
  pub whitelist : List WhitelistEntry
  pub bans : Assoc IpAddr BanRecord
  pub whitelist_last_used : Assoc IpAddr SystemTime
  pub state_path : Option Text

-- The backend's memory together with the files that it writes.
pub record MemoryBanBackend : Type 0 where
  pub inner : MemoryInner
  pub disk : Disk

-- `path.parent()` is there unless the path is empty or the root
abbrev has_parent : Text → Bool
has_parent path = any (λ c. not (c == b'/')) path

-- `match_whitelist`
unfoldable pub match_whitelist : MemoryInner → IpAddr → Bool
match_whitelist inner ip = any (λ entry. contains_ip entry ip) inner.whitelist

-- a backend with nothing recorded
abbrev pub empty_inner : List WhitelistEntry → Option Text → MemoryInner
empty_inner whitelist state_path = record {
  whitelist = whitelist;
  bans = [];
  whitelist_last_used = [];
  state_path = state_path;
}

module _ (syntax : IpSyntax) where
  -- the loops of `load` over the two maps of the file
  unfoldable pub load_bans :
      Assoc Text BanRecord → Assoc IpAddr BanRecord → Result BanError (Assoc IpAddr BanRecord)
  load_bans [] bans = ok bans
  load_bans ((k, rec) ∷ rest) bans =
      ok_or (syntax.parse k) (bad_state_key k) >>= λ ip. load_bans rest (insert ip rec bans)

  unfoldable pub load_last_used :
      Assoc Text ℕ → Assoc IpAddr SystemTime → Result BanError (Assoc IpAddr SystemTime)
  load_last_used [] used = ok used
  load_last_used ((k, secs) ∷ rest) used = ok_or (syntax.parse k) (bad_state_key k) >>= λ ip.
      load_last_used rest (insert ip (unix_to_system_time secs) used)

  -- the maps of the file, as `persist_locked` fills them
  unfoldable pub save_bans : Assoc IpAddr BanRecord → Assoc Text BanRecord → Assoc Text BanRecord
  save_bans [] out = out
  save_bans ((ip, rec) ∷ rest) out = save_bans rest (insert (syntax.to_string ip) rec out)

  unfoldable pub save_last_used : Assoc IpAddr SystemTime → Assoc Text ℕ → Assoc Text ℕ
  save_last_used [] out = out
  save_last_used ((ip, t) ∷ rest) out =
      save_last_used rest (insert (syntax.to_string ip) (system_time_to_unix t) out)

  abbrev pub state_file : MemoryInner → BanStateFile
  state_file inner = record {
    bans = save_bans inner.bans [];
    whitelist_last_used = save_last_used inner.whitelist_last_used [];
  }

  module _ (json : StateJson) where
    -- `MemoryInner::load`; `read_fails` says whether reading the file fails
    unfoldable pub load :
        Bool → List WhitelistEntry → Option Text → Disk → Result BanError MemoryInner
    load read_fails whitelist none disk = ok (empty_inner whitelist none)
    load read_fails whitelist (some path) disk = elim disk.state [
      | none ↦ ok (empty_inner whitelist (some path))
      | some raw ↦ do
        guard (not read_fails) read_failed
        file ← ok_or (json.from_str raw) state_corrupt
        bans ← load_bans file.bans []
        used ← load_last_used file.whitelist_last_used []
        ok (record {
          whitelist = whitelist;
          bans = bans;
          whitelist_last_used = used;
          state_path = some path;
        })
    ]

    -- the writes of `persist_locked`, once the text is there
    abbrev write_state : Env → Text → Disk → Result BanError (Unit {0}) × Disk
    write_state env raw disk =
        if env.write_fails
        then (err write_failed, record disk { temp = env.left_over })
        else if env.rename_fails
        then (err rename_failed, record disk { temp = some raw })
        else (ok tt, record { state = some raw; temp = none })

    -- `persist_locked`
    unfoldable pub persist_locked : Env → MemoryInner → Disk → Result BanError (Unit {0}) × Disk
    persist_locked env inner disk = elim inner.state_path [
      | none ↦ (ok tt, disk)
      | some path ↦
          if has_parent path && env.create_fails
          then (err create_parent_failed, disk)
          else elim (json.to_string_pretty (state_file inner)) [
            | none ↦ (err serialize_failed, disk)
            | some raw ↦ write_state env raw disk
          ]
    ]

    -- `MemoryBanBackend::new`
    unfoldable pub new : List WhitelistEntry → Disk → MemoryBanBackend
    new whitelist disk = record { inner = empty_inner whitelist none; disk = disk }

    -- `with_state_path`
    unfoldable pub with_state_path :
        Bool → List WhitelistEntry → Text → Disk → Result BanError MemoryBanBackend
    with_state_path read_fails whitelist path disk = do
      inner ← load read_fails whitelist (some path) disk
      ok (record { inner = inner; disk = disk })

    -- the store after a write to memory: the file is written, and the memory stays as it is
    abbrev pub persisted : Env → MemoryInner → Disk → Result BanError (Unit {0}) × MemoryBanBackend
    persisted env inner disk =
        let (done, disk') = persist_locked env inner disk in
        (done, record { inner = inner; disk = disk' })

    -- `unban`
    unfoldable pub unban :
        Env → IpAddr → MemoryBanBackend → Result BanError (Unit {0}) × MemoryBanBackend
    unban env ip s = persisted env (record s.inner { bans = remove ip s.inner.bans }) s.disk

    unfoldable pub ban :
        Env → IpAddr → BanReason → MemoryBanBackend → Result BanError Bool × MemoryBanBackend
    ban env ip reason s =
        if match_whitelist s.inner ip
        then (ok false, s)
        else if contains_key ip s.inner.bans
        then (ok false, s)
        else (let rec : BanRecord = record {
          reason = reason;
          at_unix = system_time_to_unix env.now;
        } in
            let (done, s') =
              persisted env (record s.inner { bans = insert ip rec s.inner.bans }) s.disk in
            (done >>= (λ _. ok true), s'))

    -- the result of the write is dropped
    unfoldable pub touch_whitelist_last_used :
        Env → IpAddr → SystemTime → MemoryBanBackend → Bool × MemoryBanBackend
    touch_whitelist_last_used env ip now s =
        if not (match_whitelist s.inner ip) then (false, s) else (
          true,
          (persisted env
              (record s.inner { whitelist_last_used = insert ip now s.inner.whitelist_last_used })
              s.disk).1,
        )

    -- `impl BanBackend for MemoryBanBackend`
    unfoldable pub memory_backend : Env → BanBackend MemoryBanBackend
    memory_backend env = record {
      is_whitelisted = λ s ip. match_whitelist s.inner ip;
      is_banned = λ s ip. contains_key ip s.inner.bans;
      ban = ban env;
      touch_whitelist_last_used = touch_whitelist_last_used env;
      whitelist_last_used = λ s ip. lookup ip s.inner.whitelist_last_used;
    }
