-- ===== src/NftHelper/Client.antt =====
-- crates/management-ui/src/nft_helper.rs: the UI's client of the helper, over its socket or as a
-- child process.
pub mod Laws
use surmount_server.Ban.Config.{is_absolute}
use surmount_server.Net.{IpAddr, IpSyntax, ip_eq}
use surmount_server.NftHelper.{
  HelperError, HelperRequest, WireJson, add_ban_request, bad_path, connect_failed, exited,
  into_result, missing_program, ping_request, read_failed, read_line, refused, remove_ban_request,
  response_from_json_line, retries_exhausted, serialize_failed, spawn_failed, timed_out,
  unparseable, wait_failed, write_failed,
}
use surmount_server.Prelude.{
  Bool, Option, Result, [], err, false, if◌then◌else◌, is_empty, list_eq, ltb, map_err, nat_eq,
  none, not, ok, ok_or, some, suc, true, zero, ℕ, ◌*◌, ◌++◌, ◌+◌, ◌>>=◌, ◌>>◌, ◌||◌, ◌∷◌,
}
use surmount_server.Text.{Text, starts_with}

pub data HelperTransport : Type 0 where
  unix_socket : Text → HelperTransport
  process : Text → HelperTransport

pub record HelperNftClient : Type 0 where
  pub transport : HelperTransport
  pub nft_bin : Option Text
  pub timeout : ℕ

-- two seconds, in nanoseconds
abbrev pub default_helper_timeout : ℕ
default_helper_timeout = 2_000_000_000

-- `HelperNftClient::unix_socket`, `process` and `with_nft_bin`
abbrev pub socket_client : Text → HelperNftClient
socket_client sock = record {
  transport = unix_socket sock;
  nft_bin = none;
  timeout = default_helper_timeout;
}

abbrev pub process_client : Text → HelperNftClient
process_client bin = record {
  transport = process bin;
  nft_bin = none;
  timeout = default_helper_timeout;
}

abbrev pub with_nft_bin : Option Text → HelperNftClient → HelperNftClient
with_nft_bin nft_bin client = record client { nft_bin = nft_bin }

-- One attempt to start a program: it runs, its file is busy (ETXTBSY), or another error.
pub data SpawnOutcome : Type 0 where
  spawned : SpawnOutcome
  text_busy : SpawnOutcome
  spawn_error : SpawnOutcome

abbrev pub attempts : ℕ
attempts = 5

-- The loop of `spawn_nft_helper` from an attempt on, with the attempts left; the second component is
-- the time slept, in milliseconds.
unfoldable pub spawn_from : ℕ → ℕ → (ℕ → SpawnOutcome) → ℕ → Result HelperError (Unit {0}) × ℕ
spawn_from zero attempt outcome slept = (err retries_exhausted, slept)
spawn_from (suc left) attempt outcome slept =
    let again = spawn_from left (attempt + 1) outcome (slept + 20 * (attempt + 1)) in
    elim (outcome attempt) [
      | spawned ↦ (ok tt, slept)
      | text_busy ↦ if ltb (attempt + 1) attempts then again else (err spawn_failed, slept)
      | spawn_error ↦ (err spawn_failed, slept)
    ]

unfoldable pub spawn_nft_helper : (ℕ → SpawnOutcome) → Result HelperError (Unit {0}) × ℕ
unfolding spawn_from
spawn_nft_helper outcome = spawn_from attempts 0 outcome 0

-- The two ends of the socket: whether the client's steps fail, and how the peer answers the line
-- that is sent: the bytes it writes back, if reading them succeeds.
pub record Socket (H : Type 0) : Type 0 where
  pub connect_fails : Bool
  pub send_fails : Bool
  pub peer : Text → H → Option Text × H

-- How a child process fares.
pub data StdinWrite : Type 0 where
  written : StdinWrite
  broken_pipe : StdinWrite
  other_error : StdinWrite

pub record ChildRun (H : Type 0) : Type 0 where
  pub exists : Bool
  pub spawn : ℕ → SpawnOutcome
  pub stdin_write : StdinWrite
  pub times_out : Bool
  pub wait_fails : Bool
  pub run : Text → H → Text × Bool × H

-- the client's reading of a response line
abbrev pub read_reply : WireJson → Text → Result HelperError (Unit {0})
read_reply json line = do
  resp ← response_from_json_line json line
  map_err refused (into_result resp)

module _ (json : WireJson) where
  -- the end of `roundtrip_process`: standard output first, then the exit status
  unfoldable pub read_output : Text → Bool → Result HelperError (Unit {0})
  read_output stdout exit_success = elim (response_from_json_line json stdout) [
    | ok resp ↦ map_err refused (into_result resp)
    | err e ↦ if exit_success then err unparseable else err exited
  ]

abbrev is_fatal : StdinWrite → Bool
is_fatal other_error = true
is_fatal _ = false

module _ {H : Type 0} (json : WireJson) where
  -- the line that comes back, and its reading
  abbrev pub received : Option Text × H → Result HelperError (Unit {0}) × H
  received (back, h) = ((ok_or back read_failed >>= λ bytes. read_reply json (read_line bytes)), h)

  abbrev exchange : Socket H → Text → H → Result HelperError (Unit {0}) × H
  exchange socket payload h = received (socket.peer (payload ++ 10 ∷ []) h)

  -- `roundtrip_unix`
  unfoldable pub roundtrip_unix :
      Socket H → Text → HelperRequest → H → Result HelperError (Unit {0}) × H
  unfolding starts_with read_line
  roundtrip_unix socket sock req h =
      if is_empty sock || not (is_absolute sock)
      then (err (bad_path sock), h)
      else if socket.connect_fails
      then (err connect_failed, h)
      else elim (json.write_request req) [
        | none ↦ (err serialize_failed, h)
        | some payload ↦
            if socket.send_fails then (err write_failed, h) else exchange socket payload h
      ]

  abbrev wait_output : ChildRun H → Text → H → Result HelperError (Unit {0}) × H
  wait_output child payload h =
      let (stdout, exit_success, h') = child.run payload h in
      if child.times_out
      then (err timed_out, h')
      else if child.wait_fails
      then (err wait_failed, h')
      else (read_output json stdout exit_success, h')

  abbrev talk :
      ChildRun H → Text → Result HelperError (Unit {0}) → H → Result HelperError (Unit {0}) × H
  talk child payload (err e) h = (err e, h)
  talk child payload (ok u) h =
      if is_fatal child.stdin_write then (err write_failed, h) else wait_output child payload h

  -- `roundtrip_process`
  unfoldable pub roundtrip_process :
      ChildRun H → Text → HelperRequest → H → Result HelperError (Unit {0}) × H
  unfolding starts_with spawn_nft_helper read_output
  roundtrip_process child bin req h =
      if is_empty bin || not (is_absolute bin)
      then (err (bad_path bin), h)
      else if not child.exists
      then (err (missing_program bin), h)
      else elim (json.write_request req) [
        | none ↦ (err serialize_failed, h)
        | some payload ↦ talk child payload (spawn_nft_helper child.spawn).0 h
      ]

  -- `roundtrip`
  unfoldable pub roundtrip :
      Socket H
      → ChildRun H
      → HelperNftClient
      → HelperRequest
      → H
      → Result HelperError (Unit {0}) × H
  unfolding roundtrip_unix roundtrip_process
  roundtrip socket child client req h = elim client.transport [
    | unix_socket sock ↦ roundtrip_unix socket sock req h
    | process bin ↦ roundtrip_process child bin req h
  ]

module _ {H : Type 0} (json : WireJson) (socket : Socket H) (child : ChildRun H)
    (client : HelperNftClient) where
  -- `add_ban`, `remove_ban` and `ping`
  abbrev pub add_ban : IpSyntax → IpAddr → H → Result HelperError (Unit {0}) × H
  add_ban syntax ip h = roundtrip json socket child client (add_ban_request syntax ip) h

  abbrev pub remove_ban : IpSyntax → IpAddr → H → Result HelperError (Unit {0}) × H
  remove_ban syntax ip h = roundtrip json socket child client (remove_ban_request syntax ip) h

  abbrev pub ping : H → Result HelperError (Unit {0}) × H
  ping h = roundtrip json socket child client ping_request h
