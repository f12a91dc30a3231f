-- ===== src/Sites.antt =====
-- crates/management-ui/src/apex_static.rs: the file of a document root that a request path names.
-- A path is the list of its components; the file system is a parameter.
pub mod Apex
pub mod Laws
pub mod Public
mod Tests
use mathlib.Core.Option
use surmount_server.Net.{ip_eq}
use surmount_server.Prelude.{
  Bool, List, Option, [], and_then, false, if◌then◌else◌, is_empty, leb, list_eq, nat_eq, none, not,
  some, true, ℕ, ◌&&◌, ◌*◌, ◌++◌, ◌+◌, ◌-◌, ◌==◌, ◌||◌, ◌∷◌,
}
use surmount_server.Redirect.Surface.{path_only}
use surmount_server.Text.{Text, split, starts_with, text, to_ascii_lowercase}
use surmount_server.Text.Chars.{Bytes, as_bytes, trim_start_matches}

abbrev pub FilePath : Type 0
FilePath = List Text

pub record Files : Type 0 where
  pub is_dir : FilePath → Bool
  pub is_file : FilePath → Bool
  pub canonicalize : FilePath → Option FilePath
  -- `String::from_utf8`
  pub from_utf8 : Bytes → Option Text

unfoldable pub hex_nibble : ℕ → Option ℕ
hex_nibble b =
    if leb b'0' b && leb b b'9'
    then some (b - b'0')
    else if leb b'a' b && leb b b'f'
    then some (b - b'a' + 10)
    else if leb b'A' b && leb b b'F'
    then some (b - b'A' + 10)
    else none

-- the byte of two digits, unless it is 0
unfoldable pub escaped : ℕ → ℕ → Option ℕ
unfolding hex_nibble
escaped h l =
    and_then (hex_nibble h) (λ hi.
      and_then (hex_nibble l) (λ lo. if hi * 16 + lo == 0 then none else some (hi * 16 + lo)))

-- A percent sign with fewer than two bytes after it, and a byte 0, are refused.
unfoldable pub percent_decode : Bytes → Option Bytes
unfolding escaped
percent_decode [] = some []
percent_decode (b ∷ []) = if b == b'%' then none else if b == 0 then none else some (b ∷ [])
percent_decode (b ∷ h ∷ []) =
    let rest = percent_decode (h ∷ []) in
    if b == b'%' then none else if b == 0 then none else Option.map (◌∷◌ b) rest
percent_decode (b ∷ h ∷ l ∷ bytes) =
    let after = percent_decode bytes in
    let rest = percent_decode (h ∷ l ∷ bytes) in
    if b == b'%'
    then elim (escaped h l) [ none ↦ none | some e ↦ Option.map (◌∷◌ e) after ]
    else if b == 0
    then none
    else Option.map (◌∷◌ b) rest

pub data Component : Type 0 where
  root_dir cur_dir parent_dir : Component
  normal : Text → Component

-- one part of a path between slashes: an empty part and a dot that is not the first are skipped
unfoldable pub component_of : Bool → Text → Option Component
component_of is_first part =
    if is_empty part
    then none
    else if part == text "."
    then (if is_first then some cur_dir else none)
    else if part == text ".."
    then some parent_dir
    else some (normal part)

unfoldable pub components_from : Bool → List Text → List Component
unfolding component_of
components_from is_first [] = []
components_from is_first (part ∷ parts) = elim (component_of is_first part) [
  | none ↦ components_from false parts
  | some c ↦ c ∷ components_from false parts
]

-- `Path::new(s).components()` on Unix
unfoldable pub components : Text → List Component
unfolding components_from split starts_with
components s =
    if starts_with (text "/") s
    then root_dir ∷ components_from false (split b'/' s)
    else components_from true (split b'/' s)

-- the loop over the components
unfoldable pub join_components : FilePath → List Component → Option FilePath
join_components joined [] = some joined
join_components joined (normal part ∷ cs) = join_components (joined ++ part ∷ []) cs
join_components joined (cur_dir ∷ cs) = join_components joined cs
join_components joined (root_dir ∷ cs) = none
join_components joined (parent_dir ∷ cs) = none

-- the path relative to the root that is looked for
unfoldable pub relative : Text → Option Text
unfolding trim_start_matches
relative decoded =
    let rel =
      if is_empty decoded || decoded == text "/"
      then text "index.html"
      else trim_start_matches b'/' decoded in
    if is_empty rel then none else some rel

-- `Path::starts_with`
abbrev pub path_starts_with : FilePath → FilePath → Bool
path_starts_with [] path = true
path_starts_with (c ∷ cs) [] = false
path_starts_with (c ∷ cs) (d ∷ ds) = d == c && path_starts_with cs ds

module _ (files : Files) where
  unfoldable pub percent_decode_path : Text → Option Text
  unfolding percent_decode as_bytes
  percent_decode_path input = and_then (percent_decode (as_bytes input)) files.from_utf8

  unfoldable pub with_index : FilePath → FilePath
  with_index joined = if files.is_dir joined then joined ++ text "index.html" ∷ [] else joined

  -- what is left once the path is joined to the root
  unfoldable pub locate : FilePath → FilePath → Option FilePath
  unfolding with_index
  locate root joined =
      if not (files.is_file (with_index joined))
      then none
      else and_then (files.canonicalize root) (λ root_canon.
        and_then (files.canonicalize (with_index joined))
          (λ file_canon. if path_starts_with root_canon file_canon then some file_canon else none))

  unfoldable pub resolve_apex_static_path : FilePath → Text → Option FilePath
  unfolding percent_decode_path relative components join_components locate path_only
  resolve_apex_static_path root req_path =
      and_then (percent_decode_path (path_only req_path)) (λ decoded.
        and_then (relative decoded)
          (λ rel. and_then (join_components root (components rel)) (locate root)))

  unfoldable pub document_root_is_ready : FilePath → Bool
  document_root_is_ready root = files.is_file (root ++ text "index.html" ∷ [])

unfoldable pub content_type_for_extension : Text → Text
unfolding to_ascii_lowercase
content_type_for_extension extension =
    let e = to_ascii_lowercase extension in
    if e == text "html" || e == text "htm"
    then text "text/html; charset=utf-8"
    else if e == text "css"
    then text "text/css; charset=utf-8"
    else if e == text "js"
    then text "text/javascript; charset=utf-8"
    else if e == text "svg"
    then text "image/svg+xml"
    else if e == text "ico"
    then text "image/x-icon"
    else if e == text "png"
    then text "image/png"
    else if e == text "jpg" || e == text "jpeg"
    then text "image/jpeg"
    else if e == text "woff2"
    then text "font/woff2"
    else if e == text "woff"
    then text "font/woff"
    else if e == text "txt"
    then text "text/plain; charset=utf-8"
    else if e == text "xml"
    then text "application/xml"
    else text "application/octet-stream"
