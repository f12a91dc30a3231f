-- ===== src/Text/Chars.antt =====
-- Further methods of Rust's `str` and `char`, and the UTF-8 bytes of a text.
use surmount_server.Prelude.{
  Bool, List, Option, [], false, if◌then◌else◌, is_empty, leb, list_eq, ltb, nat_eq, none, some, ℕ,
  ◌%◌, ◌&&◌, ◌++◌, ◌+◌, ◌/◌, ◌==◌, ◌||◌, ◌∷◌,
}
use surmount_server.Text.{Text, is_ascii_digit, trim}

abbrev pub Bytes : Type 0
Bytes = List ℕ

unfoldable pub strip_prefix : Text → Text → Option Text
strip_prefix [] s = some s
strip_prefix (p ∷ ps) [] = none
strip_prefix (p ∷ ps) (c ∷ s) = if c == p then strip_prefix ps s else none

-- `char::is_control`: the category Cc
unfoldable pub is_control : ℕ → Bool
is_control c = ltb c 0x20 || (leb 0x7f c && ltb c 0xa0)

unfoldable pub is_ascii_alphanumeric : ℕ → Bool
unfolding is_ascii_digit
is_ascii_alphanumeric c =
    is_ascii_digit c || (leb b'A' c && leb c b'Z') || (leb b'a' c && leb c b'z')

unfoldable pub is_ascii_hexdigit : ℕ → Bool
unfolding is_ascii_digit
is_ascii_hexdigit c = is_ascii_digit c || (leb b'A' c && leb c b'F') || (leb b'a' c && leb c b'f')

-- `trim_start_matches(c)`
unfoldable pub trim_start_matches : ℕ → Text → Text
trim_start_matches m [] = []
trim_start_matches m (c ∷ s) = if c == m then trim_start_matches m s else c ∷ s

-- `trim_end_matches(c)`
unfoldable pub trim_end_matches : ℕ → Text → Text
trim_end_matches m [] = []
trim_end_matches m (c ∷ s) =
    let rest = trim_end_matches m s in if c == m && is_empty rest then [] else c ∷ rest

-- `ends_with(c)`
unfoldable pub ends_with_char : ℕ → Text → Bool
ends_with_char m [] = false
ends_with_char m (c ∷ s) = if is_empty s then c == m else ends_with_char m s

unfoldable pub filter_chars : (ℕ → Bool) → Text → Text
filter_chars p [] = []
filter_chars p (c ∷ s) = let rest = filter_chars p s in if p c then c ∷ rest else rest

-- `split` at the characters that a test picks
unfoldable pub split_where_from : (ℕ → Bool) → Text → Text → List Text
split_where_from p part [] = part ∷ []
split_where_from p part (d ∷ s) =
    if p d then part ∷ split_where_from p [] s else split_where_from p (part ++ d ∷ []) s

-- the UTF-8 bytes of a character
unfoldable pub encode_utf8 : ℕ → Bytes
encode_utf8 c =
    if ltb c 0x80
    then c ∷ []
    else if ltb c 0x800
    then (0xc0 + c / 64) ∷ (0x80 + c % 64) ∷ []
    else if ltb c 0x10000
    then (0xe0 + c / 4096) ∷ (0x80 + (c / 64) % 64) ∷ (0x80 + c % 64) ∷ []
    else (0xf0 + c / 262144)
      ∷ (0x80 + (c / 4096) % 64)
      ∷ (0x80 + (c / 64) % 64)
      ∷ (0x80 + c % 64)
      ∷ []

unfoldable pub as_bytes : Text → Bytes
unfolding encode_utf8
as_bytes [] = []
as_bytes (c ∷ s) = encode_utf8 c ++ as_bytes s

-- `map(str::trim).filter(|s| !s.is_empty())`
unfoldable pub non_blank : Option Text → Option Text
unfolding trim
non_blank none = none
non_blank (some s) = if is_empty (trim s) then none else some (trim s)
