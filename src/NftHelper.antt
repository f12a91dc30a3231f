-- ===== src/NftHelper.antt =====
-- crates/management-ui/src/nft_helper.rs: the protocol between the management UI and the privileged
-- helper, the helper's side of it, and its command line. An error is a constructor where the source
-- builds a message.
pub mod Client
pub mod Wire
mod Tests
use surmount_server.Ban.Config.{is_absolute, non_empty}
use surmount_server.Ban.Nft.{
  NftExec, nft_add_ban_args, nft_element_already_absent, nft_element_already_present,
  nft_remove_ban_args,
}
use surmount_server.Net.{IpAddr, IpSyntax, ip_eq}
use surmount_server.Prelude.{
  Bool, List, Option, Result, [], err, false, if◌then◌else◌, is_empty, list_eq, nat_eq, none, not,
  ok, ok_or, some, true, ◌++◌, ◌==◌, ◌||◌, ◌∷◌,
}
use surmount_server.Text.{Text, starts_with, text, trim}

abbrev pub op_add_ban : Text
op_add_ban = text "add_ban"

abbrev pub op_remove_ban : Text
op_remove_ban = text "remove_ban"

abbrev pub op_ping : Text
op_ping = text "ping"

pub data HelperError : Type 0 where
  empty_request : HelperError
  bad_request : HelperError
  empty_response : HelperError
  bad_response : HelperError
  requires_ip : Text → HelperError
  bad_ip : Text → Text → HelperError
  nft_failed : Text → Text → HelperError
  unknown_op : Text → HelperError
  refused : HelperError → HelperError
  no_error_given : HelperError
  serialize_failed : HelperError
  read_failed : HelperError
  write_failed : HelperError
  no_command : HelperError
  extra_argument : Text → HelperError
  missing_argument : Text → HelperError
  stream_mode : HelperError
  unknown_command : Text → HelperError
  no_nft_bin : HelperError
  bad_path : Text → HelperError
  missing_program : Text → HelperError
  connect_failed : HelperError
  spawn_failed : HelperError
  retries_exhausted : HelperError
  timed_out : HelperError
  wait_failed : HelperError
  exited : HelperError
  unparseable : HelperError

pub record HelperRequest : Type 0 where
  pub op : Text
  pub ip : Option Text

-- `is_ok` is the source's field `ok`.
pub record HelperResponse : Type 0 where
  pub is_ok : Bool
  pub error : Option HelperError

-- serde_json over the two kinds of line
pub record WireJson : Type 0 where
  pub write_request : HelperRequest → Option Text
  pub read_request : Text → Option HelperRequest
  pub write_response : HelperResponse → Option Text
  pub read_response : Text → Option HelperResponse

abbrev pub ping_request : HelperRequest
ping_request = record { op = op_ping; ip = none }

abbrev pub success : HelperResponse
success = record { is_ok = true; error = none }

abbrev pub failure : HelperError → HelperResponse
failure e = record { is_ok = false; error = some e }

-- `HelperResponse::into_result`
abbrev pub into_result : HelperResponse → Result HelperError (Unit {0})
into_result r =
    if r.is_ok then ok tt else (elim r.error [ some e ↦ err e | none ↦ err no_error_given ])

module _ (json : WireJson) where
  -- `HelperRequest::from_json_line`
  unfoldable pub request_from_json_line : Text → Result HelperError HelperRequest
  unfolding trim
  request_from_json_line raw =
      if is_empty (trim raw)
      then err empty_request
      else ok_or (json.read_request (trim raw)) bad_request

  -- `HelperResponse::from_json_line`
  unfoldable pub response_from_json_line : Text → Result HelperError HelperResponse
  unfolding trim
  response_from_json_line raw =
      if is_empty (trim raw)
      then err empty_response
      else ok_or (json.read_response (trim raw)) bad_response

-- how an operation answers after its run of `nft`
abbrev pub answer : (Text → Bool) → Text → Result Text (Unit {0}) → HelperResponse
answer harmless op (ok u) = success
answer harmless op (err e) = if harmless e then success else failure (nft_failed op e)

module _ (syntax : IpSyntax) where
  -- `HelperRequest::add_ban` and `HelperRequest::remove_ban`
  abbrev pub add_ban_request : IpAddr → HelperRequest
  add_ban_request ip = record { op = op_add_ban; ip = some (syntax.to_string ip) }

  abbrev pub remove_ban_request : IpAddr → HelperRequest
  remove_ban_request ip = record { op = op_remove_ban; ip = some (syntax.to_string ip) }

module _ {H : Type 0} (syntax : IpSyntax) (exec : NftExec H) where
  -- one operation on an address: the address has to be there and to parse
  abbrev on_ip : Text → (Text → Bool) → (IpAddr → List Text) → Option Text → H → HelperResponse × H
  on_ip op harmless args none h = (failure (requires_ip op), h)
  on_ip op harmless args (some ip_s) h = elim (syntax.parse ip_s) [
    | none ↦ (failure (bad_ip op ip_s), h)
    | some ip ↦ (let (r, h') = exec.run_nft (args ip) h in (answer harmless op r, h'))
  ]

  unfoldable pub apply_helper_request : HelperRequest → H → HelperResponse × H
  apply_helper_request req h =
      if req.op == op_ping
      then (success, h)
      else if req.op == op_add_ban
      then on_ip op_add_ban nft_element_already_present (nft_add_ban_args syntax) req.ip h
      else if req.op == op_remove_ban
      then on_ip op_remove_ban nft_element_already_absent (nft_remove_ban_args syntax) req.ip h
      else (failure (unknown_op req.op), h)

-- `read_line`: through the first newline
unfoldable pub read_line : Text → Text
read_line [] = []
read_line (c ∷ s) = if c == 10 then c ∷ [] else c ∷ read_line s

-- What a stream does to one exchange: the bytes that come in, and whether the write succeeds.
pub record Stream : Type 0 where
  pub input : Option Text
  pub write_fails : Bool

-- `serve_helper_once`: the result, the bytes written to the stream, and the host
abbrev pub reply : Stream → HelperResponse → Option Text → Result HelperError HelperResponse × Text
reply stream resp none = (err serialize_failed, [])
reply stream resp (some line) =
    if stream.write_fails then (err write_failed, []) else (ok resp, line ++ 10 ∷ [])

module _ {H : Type 0} (syntax : IpSyntax) (json : WireJson) (exec : NftExec H) where
  abbrev serve_request :
      Stream → Result HelperError HelperRequest → H → Result HelperError HelperResponse × Text × H
  serve_request stream (err e) h = (err e, [], h)
  serve_request stream (ok req) h =
      let (resp, h') = apply_helper_request syntax exec req h in
      let (r, out) = reply stream resp (json.write_response resp) in (r, out, h')

  unfoldable pub serve_helper_once : Stream → H → Result HelperError HelperResponse × Text × H
  unfolding read_line
  serve_helper_once stream h = elim stream.input [
    | none ↦ (err read_failed, [], h)
    | some bytes ↦ serve_request stream (request_from_json_line json (read_line bytes)) h
  ]

module _ (json : WireJson) where
  -- `request_from_argv`; the option is what standard input holds, if it can be read
  abbrev one_ip : Text → List Text → Result HelperError HelperRequest
  one_ip op [] = err (missing_argument op)
  one_ip op (ip ∷ []) = ok (record { op = op; ip = some ip })
  one_ip op (ip ∷ extra ∷ more) = err (extra_argument op)

  abbrev from_stdin : Option Text → List Text → Result HelperError HelperRequest
  from_stdin stdin (extra ∷ more) = err (extra_argument (text "apply-json"))
  from_stdin none [] = err read_failed
  from_stdin (some buf) [] = request_from_json_line json buf

  unfoldable pub request_from_argv : Option Text → List Text → Result HelperError HelperRequest
  request_from_argv stdin [] = err no_command
  request_from_argv stdin (cmd ∷ rest) =
      if cmd == text "ping"
      then (if is_empty rest then ok ping_request else err (extra_argument cmd))
      else if cmd == text "add-ban" || cmd == text "add_ban"
      then one_ip op_add_ban rest
      else if cmd == text "remove-ban" || cmd == text "remove_ban" || cmd == text "unban"
      then one_ip op_remove_ban rest
      else if cmd == text "apply-json"
      then from_stdin stdin rest
      else if cmd == text "apply-systemd-socket"
      then err stream_mode
      else err (unknown_command cmd)

-- `helper_nft_bin_from_env`
unfoldable pub helper_nft_bin_from_env : Option Text → Result HelperError (Option Text)
unfolding starts_with
helper_nft_bin_from_env value = elim (non_empty value) [
  | none ↦ ok none
  | some t ↦ if not (is_absolute t) then err (bad_path t) else ok (some t)
]
