-- ===== src/Ban/Samples.antt =====
-- Concrete addresses, files and hosts on which the tests run.
use surmount_server.Assoc.{Assoc}
use surmount_server.Ban.{BanReason, after_epoch, rate_limit_escalation, unauthorized}
use surmount_server.Ban.Memory.{
  BanRecord, BanStateFile, Disk, Env, MemoryBanBackend, MemoryInner, ReadsWritten, StateJson,
}
use surmount_server.Ban.Nft.{NftBanBackend, NftExec}
use surmount_server.Net.{IpAddr, ParsesPrinted, ip_eq, plain_syntax, v4, v6}
use surmount_server.Prelude.{
  List, Option, [], err, false, if◌then◌else◌, list_eq, nat_eq, none, ok, refl, some, true, ℕ, ◌==◌,
  ◌∷◌, ◌≡◌,
}
use surmount_server.Text.{Text, text}

-- 203.0.113.9, 198.51.100.40 and 198.51.100.41
abbrev pub stranger : IpAddr
stranger = v4 0xcb007109

abbrev pub friend : IpAddr
friend = v4 0xc6336428

abbrev pub neighbour : IpAddr
neighbour = v4 0xc6336429

pub plain_syntax-ParsesPrinted : ParsesPrinted plain_syntax
plain_syntax-ParsesPrinted (v4 n) = refl
plain_syntax-ParsesPrinted (v6 n) = refl

-- A state file of at most one ban as text: the reason, the time and the address.
abbrev encode_ban : Text → BanReason → ℕ → Option Text
encode_ban k unauthorized t = some (0 ∷ t ∷ k)
encode_ban k rate_limit_escalation t = some (1 ∷ t ∷ k)

abbrev encode : Assoc Text BanRecord → Assoc Text ℕ → Option Text
encode [] [] = some []
encode ((k, r) ∷ []) [] = encode_ban k r.reason r.at_unix
encode _ _ = none

abbrev decode : Text → Option BanStateFile
decode [] = some (record { bans = []; whitelist_last_used = [] })
decode (c ∷ []) = none
decode (c ∷ t ∷ k) =
    let reason = if c == 0 then unauthorized else rate_limit_escalation in
    some (record {
      bans = (k, record { reason = reason; at_unix = t }) ∷ [];
      whitelist_last_used = [];
    })

abbrev pub one_ban_json : StateJson
one_ban_json = record {
  to_string_pretty = λ file. encode file.bans file.whitelist_last_used;
  from_str = decode;
}

-- a call at which every step succeeds, one second after the epoch, and one whose rename fails
abbrev pub fine_env : Env
fine_env = record {
  now = after_epoch 1_000_000_000;
  create_fails = false;
  write_fails = false;
  rename_fails = false;
  left_over = none;
}

abbrev pub rename_env : Env
rename_env = record fine_env { rename_fails = true }

abbrev pub no_files : Disk
no_files = record { state = none; temp = none }

-- nobody banned, `friend` on the whitelist, the state at /b
abbrev pub fresh : MemoryInner
fresh = record {
  whitelist = record { network = friend; prefix_len = 32; label = [] } ∷ [];
  bans = [];
  whitelist_last_used = [];
  state_path = some (text "/b");
}

abbrev pub fresh_store : MemoryBanBackend
fresh_store = record { inner = fresh; disk = no_files }

abbrev pub one_banned : MemoryInner
one_banned = record fresh { bans = (stranger, record { reason = unauthorized; at_unix = 1 }) ∷ [] }

-- a host whose firewall keeps the commands that it was given
abbrev pub recording_exec : NftExec (List (List Text))
recording_exec = record { run_nft = λ args host. (ok tt, args ∷ host) }

-- a host that refuses every command
abbrev pub refusing_exec : NftExec (List (List Text))
refusing_exec = record { run_nft = λ args host. (err (text "permission denied"), host) }

abbrev pub fresh_host : NftBanBackend (List (List Text))
fresh_host = record { memory = fresh_store; host = [] }

pub one_ban_json-ReadsWritten : ReadsWritten one_ban_json
one_ban_json-ReadsWritten file raw h = read file.bans file.whitelist_last_used raw h
  where
    one :
        (k : Text) (reason : BanReason) (t : ℕ) (raw : Text)
        → encode_ban k reason t ≡ some raw
        → decode raw
          ≡ some (record {
            bans = (k, record { reason = reason; at_unix = t }) ∷ [];
            whitelist_last_used = [];
          })
    one k unauthorized t raw h = cc
    one k rate_limit_escalation t raw h = cc

    read :
        (bans : Assoc Text BanRecord) (used : Assoc Text ℕ) (raw : Text)
        → encode bans used ≡ some raw
        → decode raw ≡ some (record { bans = bans; whitelist_last_used = used })
    read [] [] raw h = cc
    read ((k, r) ∷ []) [] raw h = one k r.reason r.at_unix raw h
    read [] (u ∷ used) raw h = cc
    read ((k, r) ∷ []) (u ∷ used) raw h = cc
    read ((k, r) ∷ b ∷ bans) used raw h = cc
