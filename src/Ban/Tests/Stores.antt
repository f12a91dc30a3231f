-- ===== src/Ban/Tests/Stores.antt =====
-- The theorems on the backends at concrete inputs.
use surmount_server.Ban.Memory
use surmount_server.Ban.Nft
use surmount_server.Assoc.{contains_key, insert, is_some, lookup}
use surmount_server.Ban.{BackendLaws, BanError, rename_failed, unauthorized}
use surmount_server.Ban.Cidr.{contains_ip}
use surmount_server.Ban.Memory.{
  MemoryBanBackend, match_whitelist, memory_backend, persist_locked, save_bans, save_last_used,
  state_file, with_state_path,
}
use surmount_server.Ban.Memory.Laws.{failed_ban_stays, memory_backend-laws}
use surmount_server.Ban.Memory.Restart.{persist_locked-atomic, restart_keeps_bans}
use surmount_server.Ban.Nft.{
  BanNftApply, nft_add_ban_args, nft_backend, nft_element_already_present, nft_exec_apply,
}
use surmount_server.Ban.Nft.Host.{AddsElements, IsMirrored, ban-IsMirrored}
use surmount_server.Ban.Nft.Laws.{nft_backend-laws}
use surmount_server.Ban.Samples.{
  fine_env, fresh, fresh_host, fresh_store, no_files, one_ban_json, one_ban_json-ReadsWritten,
  one_banned, plain_syntax-ParsesPrinted, recording_exec, refusing_exec, rename_env, stranger,
}
use surmount_server.Net.{IpAddr, ip_eq, plain_syntax}
use surmount_server.Prelude.{
  List, [], any, arith, beq_refl, err, false, list_eq, nat_eq, ok, refl, some, true, ◌==◌, ◌≡◌,
}
use surmount_server.Text.{Text, text}

memory_backend-laws_example : BackendLaws (memory_backend plain_syntax one_ban_json rename_env)
memory_backend-laws_example = memory_backend-laws plain_syntax one_ban_json rename_env

written_once : (persist_locked plain_syntax one_ban_json fine_env one_banned no_files).0 ≡ ok tt
unfolding persist_locked save_bans save_last_used insert
written_once = refl

restart_keeps_bans_example :
    (s : MemoryBanBackend) × (with_state_path plain_syntax one_ban_json false one_banned.whitelist
        (text "/b")
        (persist_locked plain_syntax one_ban_json fine_env one_banned no_files).1
      ≡ ok s)
    × (s.inner.whitelist ≡ one_banned.whitelist)
    × ((ip : IpAddr) → lookup ip s.inner.bans ≡ lookup ip one_banned.bans)
unfolding lookup
restart_keeps_bans_example =
    restart_keeps_bans plain_syntax one_ban_json plain_syntax-ParsesPrinted
      one_ban_json-ReadsWritten fine_env one_banned no_files (text "/b") (refl, tt) refl
      written_once

persist_locked-atomic_example :
    ((e : BanError)
      → (persist_locked plain_syntax one_ban_json rename_env one_banned no_files).0 ≡ err e
      → (persist_locked plain_syntax one_ban_json rename_env one_banned no_files).1.state
        ≡ no_files.state)
    × ((path : Text)
        → one_banned.state_path ≡ some path
        → (persist_locked plain_syntax one_ban_json rename_env one_banned no_files).0 ≡ ok tt
        → (is_some (persist_locked plain_syntax one_ban_json rename_env one_banned no_files).1.state
            ≡ true)
          × ((persist_locked plain_syntax one_ban_json rename_env one_banned no_files).1.state
              ≡ one_ban_json.to_string_pretty (state_file plain_syntax one_banned)))
persist_locked-atomic_example =
    persist_locked-atomic plain_syntax one_ban_json rename_env one_banned no_files

abbrev through : BanNftApply (List (List Text))
through = nft_exec_apply plain_syntax recording_exec

abbrev blocked : BanNftApply (List (List Text))
blocked = nft_exec_apply plain_syntax refusing_exec

stranger_away : match_whitelist fresh stranger ≡ false
unfolding match_whitelist contains_ip
stranger_away = refl

stranger_clean : contains_key stranger fresh.bans ≡ false
unfolding lookup
stranger_clean = refl

blocked_refuses : (blocked.add_ban_element stranger []).0 ≡ err (text "permission denied")
unfolding nft_exec_apply nft_element_already_present
blocked_refuses = refl

stranger_banned :
    contains_key stranger
      (Nft.ban plain_syntax one_ban_json through true fine_env stranger unauthorized
        fresh_host).1.memory.inner.bans
    ≡ true
unfolding Nft.ban nft_exec_apply match_whitelist contains_ip Memory.ban persist_locked lookup insert
stranger_banned = refl

nft_backend-laws_example :
    BackendLaws (nft_backend plain_syntax one_ban_json blocked true rename_env)
nft_backend-laws_example = nft_backend-laws plain_syntax one_ban_json blocked true rename_env

-- a host that was given an address's command drops it
abbrev Given : IpAddr → List (List Text) → Type 0
Given ip host = any (λ args. args == nft_add_ban_args plain_syntax ip) host ≡ true

recording_exec-AddsElements : AddsElements plain_syntax recording_exec Given
recording_exec-AddsElements = record {
  added = λ ip h e. rw (beq_refl (nft_add_ban_args plain_syntax ip)) refl;
  present = λ ip h message e there. cc;
  kept = λ ip other h d. ground arith;
}

fresh_host-IsMirrored :
    IsMirrored plain_syntax one_ban_json recording_exec Given recording_exec-AddsElements fresh_host
unfolding lookup
fresh_host-IsMirrored = record { drops = λ ip h. h }

ban-IsMirrored_example :
    IsMirrored plain_syntax one_ban_json recording_exec Given recording_exec-AddsElements
      (Nft.ban plain_syntax one_ban_json through true fine_env stranger unauthorized fresh_host).1
ban-IsMirrored_example =
    ban-IsMirrored plain_syntax one_ban_json recording_exec Given recording_exec-AddsElements
      fine_env stranger unauthorized fresh_host fresh_host-IsMirrored

stranger_unwritten :
    (Memory.ban plain_syntax one_ban_json rename_env stranger unauthorized fresh_store).0
    ≡ err rename_failed
unfolding Memory.ban match_whitelist contains_ip persist_locked lookup insert Memory.save_bans
    Memory.save_last_used
stranger_unwritten = refl

failed_ban_stays_example :
    (contains_key stranger
        (Memory.ban plain_syntax one_ban_json rename_env stranger unauthorized
          fresh_store).1.inner.bans
      ≡ true)
    × (Memory.ban plain_syntax one_ban_json fine_env stranger unauthorized
          (Memory.ban plain_syntax one_ban_json rename_env stranger unauthorized fresh_store).1
        ≡ (
          ok false,
          (Memory.ban plain_syntax one_ban_json rename_env stranger unauthorized fresh_store).1,
        ))
failed_ban_stays_example =
    failed_ban_stays plain_syntax one_ban_json rename_env fine_env stranger unauthorized
      unauthorized fresh_store rename_failed stranger_unwritten
