-- ===== src/Ban/Nft.antt =====
-- crates/management-ui/src/ban.rs: the nft commands, what their errors mean, and the backend that
-- applies a ban on the host before it writes it. The traits `NftExec` and `BanNftApply` and their
-- adapters (nft_helper.rs) are here too. `H` is the state of the host's firewall.
pub mod Laws
pub mod Host
use surmount_server.Ban.Memory
use surmount_server.Assoc.{contains_key, lookup}
use surmount_server.Ban.{BanBackend, BanError, BanReason, SystemTime, nft_sync_failed}
use surmount_server.Ban.Memory.{
  Env, MemoryBanBackend, StateJson, match_whitelist, touch_whitelist_last_used,
}
use surmount_server.Net.{IpAddr, IpSyntax, ip_eq, v4, v6}
use surmount_server.Prelude.{
  Bool, List, Result, [], err, false, if◌then◌else◌, list_eq, nat_eq, ok, true, ◌&&◌, ◌||◌, ◌∷◌,
}
use surmount_server.Text.{Text, contains, text, to_ascii_lowercase}

abbrev pub nft_table : Text
nft_table = text "surmount_guard"

abbrev pub nft_set_ban4 : Text
nft_set_ban4 = text "surmount-ban4"

abbrev pub nft_set_ban6 : Text
nft_set_ban6 = text "surmount-ban6"

abbrev pub nft_set_whitelist4 : Text
nft_set_whitelist4 = text "surmount-whitelist4"

abbrev pub nft_set_whitelist6 : Text
nft_set_whitelist6 = text "surmount-whitelist6"

-- `nft_product_set_names`
abbrev pub nft_product_set_names : List (Text × Text)
nft_product_set_names =
    (nft_table, text "table")
    ∷ (nft_set_ban4, text "ban4")
    ∷ (nft_set_ban6, text "ban6")
    ∷ (nft_set_whitelist4, text "whitelist4")
    ∷ (nft_set_whitelist6, text "whitelist6")
    ∷ []

abbrev pub ban_set : IpAddr → Text
ban_set (v4 n) = nft_set_ban4
ban_set (v6 n) = nft_set_ban6

module _ (syntax : IpSyntax) where
  unfoldable pub nft_add_ban_args : IpAddr → List Text
  nft_add_ban_args ip =
      text "add"
      ∷ text "element"
      ∷ text "inet"
      ∷ nft_table
      ∷ ban_set ip
      ∷ text "{"
      ∷ syntax.to_string ip
      ∷ text "}"
      ∷ []

  unfoldable pub nft_remove_ban_args : IpAddr → List Text
  nft_remove_ban_args ip =
      text "delete"
      ∷ text "element"
      ∷ text "inet"
      ∷ nft_table
      ∷ ban_set ip
      ∷ text "{"
      ∷ syntax.to_string ip
      ∷ text "}"
      ∷ []

unfoldable pub nft_element_already_present : Text → Bool
unfolding contains to_ascii_lowercase
nft_element_already_present message =
    let lowered = to_ascii_lowercase message in
    contains (text "file exists") lowered
    || contains (text "already exists") lowered
    || contains (text "element already") lowered
    || contains (text "eexist") lowered

-- the messages about a table or a set that is not there
abbrev pub infrastructure_missing : Text → Bool
infrastructure_missing lowered =
    contains (text "table does not exist") lowered
    || contains (text "set does not exist") lowered
    || contains (text "no such table") lowered
    || contains (text "no such set") lowered
    || contains (text "did you mean table") lowered

abbrev pub element_missing : Text → Bool
element_missing lowered =
    contains (text "no such element") lowered
    || contains (text "element does not exist") lowered
    || contains (text "element not found") lowered
    || contains (text "element is not in") lowered

unfoldable pub nft_element_already_absent : Text → Bool
unfolding contains to_ascii_lowercase
nft_element_already_absent message =
    let lowered = to_ascii_lowercase message in
    if infrastructure_missing lowered
    then false
    else if element_missing lowered
    then true
    else contains (text "process rule") lowered
      && (contains (text "no such file") lowered || contains (text "enoent") lowered)

-- The trait `NftExec`: one run of `nft` on the host.
pub record NftExec (H : Type 0) : Type 0 where
  pub run_nft : List Text → H → Result Text (Unit {0}) × H

-- The trait `BanNftApply`.
pub record BanNftApply (H : Type 0) : Type 0 where
  pub add_ban_element : IpAddr → H → Result Text (Unit {0}) × H
  pub remove_ban_element : IpAddr → H → Result Text (Unit {0}) × H

-- an error that means that the work was done already
abbrev pub forgive : (Text → Bool) → Result Text (Unit {0}) → Result Text (Unit {0})
forgive harmless (ok u) = ok tt
forgive harmless (err e) = if harmless e then ok tt else err e

module _ {H : Type 0} where
  -- `impl BanNftApply for NftExecApply`
  unfoldable pub nft_exec_apply : IpSyntax → NftExec H → BanNftApply H
  nft_exec_apply syntax exec = record {
    add_ban_element = λ ip h.
        let (r, h') = exec.run_nft (nft_add_ban_args syntax ip) h in
        (forgive nft_element_already_present r, h');
    remove_ban_element = λ ip h.
        let (r, h') = exec.run_nft (nft_remove_ban_args syntax ip) h in
        (forgive nft_element_already_absent r, h');
  }

  -- `impl BanNftApply for NoopNftApply`
  unfoldable pub noop_nft_apply : BanNftApply H
  noop_nft_apply = record {
    add_ban_element = λ ip h. (ok tt, h);
    remove_ban_element = λ ip h. (ok tt, h);
  }

-- The state of `NftBanBackend`: the memory, and the host that it mirrors bans to.
pub record NftBanBackend (H : Type 0) : Type 0 where
  pub memory : MemoryBanBackend
  pub host : H

module _ {H : Type 0} (syntax : IpSyntax) (json : StateJson) (apply : BanNftApply H)
    (nft_sync : Bool) where
  -- the end of `ban`: the durable write, after the host
  abbrev write_memory :
      Env → IpAddr → BanReason → MemoryBanBackend → H → Result BanError Bool × NftBanBackend H
  write_memory env ip reason memory host =
      let (r, memory') = Memory.ban syntax json env ip reason memory in
      (r, record { memory = memory'; host = host })

  abbrev after_apply :
      Env
      → IpAddr
      → BanReason
      → MemoryBanBackend
      → Result Text (Unit {0})
      → H
      → Result BanError Bool × NftBanBackend H
  after_apply env ip reason memory (ok u) host = write_memory env ip reason memory host
  after_apply env ip reason memory (err e) host =
      (err (nft_sync_failed e), record { memory = memory; host = host })

  -- `NftBanBackend::ban`
  unfoldable pub ban :
      Env → IpAddr → BanReason → NftBanBackend H → Result BanError Bool × NftBanBackend H
  ban env ip reason s =
      if match_whitelist s.memory.inner ip
      then (ok false, s)
      else if contains_key ip s.memory.inner.bans
      then (ok false, s)
      else if nft_sync
      then (let (r, host) = apply.add_ban_element ip s.host in
          after_apply env ip reason s.memory r host)
      else write_memory env ip reason s.memory s.host

  -- `touch_whitelist_last_used`
  unfoldable pub touch : Env → IpAddr → SystemTime → NftBanBackend H → Bool × NftBanBackend H
  touch env ip now s =
      let (r, memory) = Memory.touch_whitelist_last_used syntax json env ip now s.memory in
      (r, record s { memory = memory })

  -- `impl BanBackend for NftBanBackend`
  unfoldable pub nft_backend : Env → BanBackend (NftBanBackend H)
  nft_backend env = record {
    is_whitelisted = λ s ip. match_whitelist s.memory.inner ip;
    is_banned = λ s ip. contains_key ip s.memory.inner.bans;
    ban = ban env;
    touch_whitelist_last_used = touch env;
    whitelist_last_used = λ s ip. lookup ip s.memory.inner.whitelist_last_used;
  }
