-- ===== src/NftHelper/Tests.antt =====
-- The theorems on the helper and its client at concrete inputs.
use surmount_server.Ban.Config.{is_absolute}
use surmount_server.Ban.Nft.{BanNftApply, nft_exec_apply}
use surmount_server.Ban.Samples.{plain_syntax-ParsesPrinted, recording_exec, stranger}
use surmount_server.Net.{ip_eq, plain_syntax}
use surmount_server.NftHelper.{
  WireJson, add_ban_request, apply_helper_request, nft_failed, op_add_ban, op_remove_ban, refused,
  remove_ban_request, retries_exhausted, success,
}
use surmount_server.NftHelper.Client.{
  SpawnOutcome, attempts, roundtrip_unix, spawn_nft_helper, spawned, text_busy,
}
use surmount_server.NftHelper.Client.Laws.{StartsWithin, spawn_nft_helper_lem}
use surmount_server.NftHelper.Wire.{Carries, helper_socket, socket_bans_like_exec}
use surmount_server.Prelude.{
  List, [], err, if◌then◌else◌, list_eq, ltb, map_err, nat_eq, ok, refl, some, true, ℕ, ◌==◌, ◌↔◌,
  ◌≡◌, ◌≢◌, ◌≤◌,
}
use surmount_server.Text.{Text, contains_char, starts_with, text}

abbrev busy_twice : ℕ → SpawnOutcome
busy_twice n = if ltb n 2 then text_busy else spawned

spawn_nft_helper_lem_example :
    (((spawn_nft_helper busy_twice).0 ≡ ok tt) ↔ StartsWithin attempts 0 busy_twice)
    × ((spawn_nft_helper busy_twice).0 ≢ err retries_exhausted)
    × ((spawn_nft_helper busy_twice).1 ≤ 200)
spawn_nft_helper_lem_example = spawn_nft_helper_lem busy_twice

-- A wire format for the requests about one address and for the answer of success: one object each.
abbrev add_line : Text
add_line = text "{a}"

abbrev small_json : WireJson
small_json = record {
  write_request = λ req. if req.op == op_add_ban then some add_line else some (text "{r}");
  read_request = λ line.
      if line == add_line
      then some (add_ban_request plain_syntax stranger)
      else some (remove_ban_request plain_syntax stranger);
  write_response = λ resp. some (text "{}");
  read_response = λ line. some success;
}

add_carried :
    Carries small_json
      (add_ban_request plain_syntax stranger)
      (apply_helper_request plain_syntax recording_exec
        (add_ban_request plain_syntax stranger)
        []).0
unfolding apply_helper_request contains_char
add_carried =
    ((add_line, (text "a", refl, refl), refl, refl), (text "{}", ([], refl, refl), refl, refl))

remove_carried :
    Carries small_json
      (remove_ban_request plain_syntax stranger)
      (apply_helper_request plain_syntax recording_exec
        (remove_ban_request plain_syntax stranger)
        []).0
unfolding apply_helper_request contains_char
remove_carried =
    ((text "{r}", (text "r", refl, refl), refl, refl), (text "{}", ([], refl, refl), refl, refl))

sock_absolute : is_absolute (text "/s") ≡ true
unfolding starts_with
sock_absolute = refl

abbrev direct : BanNftApply (List (List Text))
direct = nft_exec_apply plain_syntax recording_exec

socket_bans_like_exec_example :
    (roundtrip_unix small_json
        (helper_socket plain_syntax small_json recording_exec)
        (text "/s")
        (add_ban_request plain_syntax stranger)
        []
      ≡ (
        map_err (λ e. refused (nft_failed op_add_ban e)) (direct.add_ban_element stranger []).0,
        (direct.add_ban_element stranger []).1,
      ))
    × (roundtrip_unix small_json
          (helper_socket plain_syntax small_json recording_exec)
          (text "/s")
          (remove_ban_request plain_syntax stranger)
          []
        ≡ (
          map_err
              (λ e. refused (nft_failed op_remove_ban e))
              (direct.remove_ban_element stranger []).0,
          (direct.remove_ban_element stranger []).1,
        ))
socket_bans_like_exec_example =
    socket_bans_like_exec plain_syntax small_json recording_exec plain_syntax-ParsesPrinted
      (text "/s") stranger [] add_carried remove_carried sock_absolute
