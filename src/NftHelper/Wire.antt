-- ===== src/NftHelper/Wire.antt =====
-- crates/management-ui/src/nft_helper.rs: the client at one end of the socket and the helper at the
-- other.
use mathlib.Core.List.{append_assoc}
use surmount_server.Ban.Config.{is_absolute}
use surmount_server.Ban.Nft.{
  NftExec, forgive, nft_add_ban_args, nft_element_already_absent, nft_element_already_present,
  nft_exec_apply, nft_remove_ban_args,
}
use surmount_server.Net.{IpAddr, IpSyntax, ParsesPrinted, ip_eq}
use surmount_server.NftHelper.{
  HelperError, HelperRequest, HelperResponse, Stream, WireJson, add_ban_request, answer,
  apply_helper_request, into_result, nft_failed, op_add_ban, op_remove_ban, read_line, refused,
  remove_ban_request, reply, request_from_json_line, response_from_json_line, serve_helper_once,
}
use surmount_server.NftHelper.Client.{Socket, received, roundtrip_unix}
use surmount_server.Prelude.{
  Bool, Option, Result, [], ap, arith, err, false, is_empty, list_eq, map_err, nat_eq, not, ok,
  refl, some, true, ℕ, ◌++◌, ◌>>=◌, ◌||◌, ◌∙◌, ◌∷◌, ◌≡◌,
}
use surmount_server.Text.{
  Text, contains_char, is_whitespace, starts_with, trim, trim_end, trim_start,
}

-- one object on a line, as serde_json writes it: raw newlines are escaped
abbrev pub IsObjectLine : Text → Type 0
IsObjectLine line = (mid : Text) × (line ≡ b'{' ∷ mid ++ b'}' ∷ []) × (contains_char 10 mid ≡ false)

-- What the program needs of serde_json for one exchange: the request and its response are each written
-- as an object on a line, which is read back.
abbrev pub Carries : WireJson → HelperRequest → HelperResponse → Type 0
Carries json req resp =
    ((line : Text) × IsObjectLine line
      × (json.write_request req ≡ some line)
      × (json.read_request line ≡ some req))
    × ((line : Text) × IsObjectLine line
        × (json.write_response resp ≡ some line)
        × (json.read_response line ≡ some resp))

-- The helper behind the socket: it reads the line, and what it writes comes back.
abbrev pub helper_peer : {H : Type 0} → IpSyntax → WireJson → NftExec H → Text → H → Option Text × H
helper_peer syntax json exec line h =
    let (r, out, h') =
      serve_helper_once syntax json exec (record { input = some line; write_fails = false }) h in
    (some out, h')

abbrev pub helper_socket : {H : Type 0} → IpSyntax → WireJson → NftExec H → Socket H
helper_socket syntax json exec = record {
  connect_fails = false;
  send_fails = false;
  peer = helper_peer syntax json exec;
}

read_line-newline :
    (s : Text) → contains_char 10 s ≡ false → read_line (s ++ 10 ∷ []) ≡ s ++ 10 ∷ []
unfolding read_line contains_char
read_line-newline [] h = refl
read_line-newline (c ∷ s) h = ground (arith, read_line-newline s)

contains_char-append :
    (c : ℕ) (s t : Text)
    → contains_char c s ≡ false
    → contains_char c t ≡ false
    → contains_char c (s ++ t) ≡ false
unfolding contains_char
contains_char-append c [] t h k = k
contains_char-append c (d ∷ s) t h k = ground (arith, contains_char-append c s t)

is_empty-append : (s : Text) (c : ℕ) (t : Text) → is_empty (s ++ c ∷ t) ≡ false
is_empty-append [] c t = refl
is_empty-append (d ∷ s) c t = refl

trim_end-brace : (s : Text) → trim_end (s ++ b'}' ∷ 10 ∷ []) ≡ s ++ b'}' ∷ []
unfolding trim_end is_whitespace
trim_end-brace [] = refl
trim_end-brace (c ∷ s) = rw (trim_end-brace s, is_empty-append s b'}' []) (ground arith)

trim-frame : (mid : Text) → trim (b'{' ∷ mid ++ b'}' ∷ 10 ∷ []) ≡ b'{' ∷ mid ++ b'}' ∷ []
unfolding trim trim_start is_whitespace
trim-frame mid = trim_end-brace (b'{' ∷ mid)

one_line :
    (mid : Text) → contains_char 10 mid ≡ false → contains_char 10 (b'{' ∷ mid ++ b'}' ∷ []) ≡ false
unfolding contains_char
one_line mid h = contains_char-append 10 mid (b'}' ∷ []) h refl

-- The line that is read is the object that was sent.
frame :
    (line : Text)
    → IsObjectLine line
    → (trim (read_line (line ++ 10 ∷ [])) ≡ line) × (is_empty line ≡ false)
frame line (mid, shape, single) = rw shape (
  ap trim (read_line-newline (b'{' ∷ mid ++ b'}' ∷ []) (one_line mid single))
      ∙ ap trim (ap (λ t. b'{' ∷ t) (append_assoc mid (b'}' ∷ []) (10 ∷ [])))
      ∙ trim-frame mid,
  refl,
)

module _ (json : WireJson) where
  request-frame :
      (line : Text) (req : HelperRequest)
      → IsObjectLine line
      → json.read_request line ≡ some req
      → request_from_json_line json (read_line (line ++ 10 ∷ [])) ≡ ok req
  unfolding request_from_json_line
  request-frame line req obj reads =
      let (same, some_text) = frame line obj in rw (same, some_text, reads) refl

  response-frame :
      (line : Text) (resp : HelperResponse)
      → IsObjectLine line
      → json.read_response line ≡ some resp
      → response_from_json_line json (read_line (line ++ 10 ∷ [])) ≡ ok resp
  unfolding response_from_json_line
  response-frame line resp obj reads =
      let (same, some_text) = frame line obj in rw (same, some_text, reads) refl

-- the helper's answer says what the direct call would have returned
told :
    (harmless : Text → Bool) (op : Text) (r : Result Text (Unit {0}))
    → map_err refused (into_result (answer harmless op r))
      ≡ map_err (λ e. refused (nft_failed op e)) (forgive harmless r)
told harmless op (ok u) = refl
told harmless op (err e) = ground arith

path_fine : (s : Text) → is_absolute s ≡ true → (is_empty s || not (is_absolute s)) ≡ false
unfolding starts_with
path_fine [] h = ground arith
path_fine (c ∷ s) h = ground arith

module _ {H : Type 0} (syntax : IpSyntax) (json : WireJson) (exec : NftExec H) where
  -- the helper answers a line that holds a request with the line of its response
  peer-request :
      (line : Text) (req : HelperRequest) (h : H)
      → Carries json req (apply_helper_request syntax exec req h).0
      → request_from_json_line json (read_line line) ≡ ok req
      → (out : Text) × IsObjectLine out
        × (json.read_response out ≡ some (apply_helper_request syntax exec req h).0)
        × (helper_peer syntax json exec line h
            ≡ (some (out ++ 10 ∷ []), (apply_helper_request syntax exec req h).1))
  unfolding serve_helper_once
  peer-request line req h carries reads =
      let (out, obj, wrote, back) = carries.1 in
      let stream : Stream = record { input = some line; write_fails = false } in
      let h' = (apply_helper_request syntax exec req h).1 in
      let resp = (apply_helper_request syntax exec req h).0 in
      (out, obj, back, rw reads (ap (λ o. (some (reply stream resp o).1, h')) wrote))

  -- Where serde_json reads back the request and its response, and the socket is at an absolute path
  -- and does not fail, a request sent over it is carried out by the helper, once, and the client
  -- gets the helper's answer to it.
  socket_runs_request :
      (sock : Text) (req : HelperRequest) (h : H)
      → Carries json req (apply_helper_request syntax exec req h).0
      → is_absolute sock ≡ true
      → (let (resp, h') = apply_helper_request syntax exec req h in
          roundtrip_unix json (helper_socket syntax json exec) sock req h
          ≡ (map_err refused (into_result resp), h'))
  unfolding roundtrip_unix
  socket_runs_request sock req h carries absolute =
      let (line, obj, wrote, reads) = carries.0 in
      let (out, obj', back, said) =
        peer-request (line ++ 10 ∷ []) req h carries (request-frame json line req obj reads) in
      let resp = (apply_helper_request syntax exec req h).0 in
      let h' = (apply_helper_request syntax exec req h).1 in
      rw (path_fine sock absolute, wrote)
        (ap (received json) said
          ∙ ap
              (λ (m : Result HelperError HelperResponse).
                ((m >>= λ r. map_err refused (into_result r)), h'))
              (response-frame json out resp obj' back))

  -- Where serde_json reads back the requests and their responses, addresses are printed and read
  -- back, and the socket is at an absolute path and does not fail, a ban or an unban asked for over
  -- the socket does to the host what running `nft` in the process itself does, and succeeds when
  -- that does.
  pub socket_bans_like_exec :
      ParsesPrinted syntax
      → (sock : Text) (ip : IpAddr) (h : H)
      → Carries json
          (add_ban_request syntax ip)
          (apply_helper_request syntax exec (add_ban_request syntax ip) h).0
      → Carries json
          (remove_ban_request syntax ip)
          (apply_helper_request syntax exec (remove_ban_request syntax ip) h).0
      → is_absolute sock ≡ true
      → (let direct = (nft_exec_apply syntax exec).add_ban_element ip h in
          roundtrip_unix json (helper_socket syntax json exec) sock (add_ban_request syntax ip) h
          ≡ (map_err (λ e. refused (nft_failed op_add_ban e)) direct.0, direct.1))
        × (let direct = (nft_exec_apply syntax exec).remove_ban_element ip h in
            roundtrip_unix json
              (helper_socket syntax json exec)
              sock
              (remove_ban_request syntax ip)
              h
            ≡ (map_err (λ e. refused (nft_failed op_remove_ban e)) direct.0, direct.1))
  unfolding nft_exec_apply apply_helper_request
  socket_bans_like_exec printed sock ip h adds removes absolute = (
    socket_runs_request sock (add_ban_request syntax ip) h adds absolute
        ∙ rw (printed ip) (
            ap (λ r. (r, (exec.run_nft (nft_add_ban_args syntax ip) h).1))
              (told nft_element_already_present op_add_ban
                (exec.run_nft (nft_add_ban_args syntax ip) h).0)),
    socket_runs_request sock (remove_ban_request syntax ip) h removes absolute
        ∙ rw (printed ip) (
            ap (λ r. (r, (exec.run_nft (nft_remove_ban_args syntax ip) h).1))
              (told nft_element_already_absent op_remove_ban
                (exec.run_nft (nft_remove_ban_args syntax ip) h).0)),
  )
