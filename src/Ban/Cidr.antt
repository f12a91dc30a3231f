-- ===== src/Ban/Cidr.antt =====
-- crates/management-ui/src/ban.rs: whitelist entries in CIDR notation.
pub mod Laws
use Prim.Native.Nat.{bit_and}
use surmount_server.Ban.{BanError, bad_ip, bad_prefix, empty_whitelist_entry, prefix_too_long}
use surmount_server.Net.{IpAddr, IpSyntax, ip_eq, v4, v6}
use surmount_server.Prelude.{
  Bool, List, Option, Result, [], false, guard, if◌then◌else◌, is_empty, leb, list_eq, ltb, nat_eq,
  none, not, ok, ok_or, some, ℕ, ◌%◌, ◌&&◌, ◌*◌, ◌+◌, ◌-◌, ◌==◌, ◌>>=◌, ◌>>◌, ◌^◌, ◌∷◌,
}
use surmount_server.Text.{Text, is_ascii_digit, split, split_once, trim}

pub record WhitelistEntry : Type 0 where
  pub network : IpAddr
  pub prefix_len : ℕ
  pub label : Text

-- The widest prefix of an address family.
abbrev pub max_prefix : IpAddr → ℕ
max_prefix (v4 n) = 32
max_prefix (v6 n) = 128

abbrev digits_value : ℕ → Text → Option ℕ
digits_value n [] = some n
digits_value n (c ∷ s) =
    let rest = digits_value (n * 10 + (c - b'0')) s in if is_ascii_digit c then rest else none

-- `str::parse::<u8>`: an optional `+`, then digits, at least one, of a value below 256
unfoldable pub parse_u8 : Text → Option ℕ
unfolding is_ascii_digit
parse_u8 [] = none
parse_u8 (c ∷ s) =
    let value =
      if c == b'+' && not (is_empty s) then digits_value 0 s else digits_value 0 (c ∷ s) in
    elim value [ none ↦ none | some n ↦ if ltb n 256 then some n else none ]

-- the address part and the prefix part, trimmed
abbrev split_entry : Text → Text × Option Text
split_entry raw = elim (split_once b'/' raw) [
  | some (a, p) ↦ (trim a, some (trim p))
  | none ↦ (raw, none)
]

abbrev prefix_of : Text → IpAddr → Option Text → Result BanError ℕ
prefix_of raw network none = ok (max_prefix network)
prefix_of raw network (some p) = ok_or (parse_u8 p) (bad_prefix raw)

module _ (syntax : IpSyntax) where
  -- `WhitelistEntry::parse`
  unfoldable pub parse_entry : Text → Result BanError WhitelistEntry
  unfolding split_once trim parse_u8
  parse_entry untrimmed =
      let raw = trim untrimmed in
      do
        guard (not (is_empty raw)) empty_whitelist_entry
        network ← ok_or (syntax.parse (split_entry raw).0) (bad_ip raw)
        prefix_len ← prefix_of raw network (split_entry raw).1
        guard (leb prefix_len (max_prefix network)) (prefix_too_long raw)
        ok (record { network = network; prefix_len = prefix_len; label = raw })

  -- the loop of `parse_whitelist_cidrs` over the parts between commas
  unfoldable pub parse_parts : List Text → Result BanError (List WhitelistEntry)
  unfolding trim
  parse_parts [] = ok []
  parse_parts (part ∷ parts) =
      let rest = parse_parts parts in
      if is_empty (trim part)
      then rest
      else do entry ← parse_entry (trim part); entries ← rest; ok (entry ∷ entries)

  unfoldable pub parse_whitelist_cidrs : Text → Result BanError (List WhitelistEntry)
  unfolding split parse_parts
  parse_whitelist_cidrs raw = parse_parts (split b',' raw)

-- the mask of a prefix over w-bit addresses: `MAX << shift`, and 0 where the shift is the width
abbrev pub mask : ℕ → ℕ → ℕ
mask w shift = if leb w shift then 0 else ((2 ^ w - 1) * 2 ^ shift) % 2 ^ w

abbrev pub same_network : ℕ → ℕ → ℕ → ℕ → Bool
same_network w prefix_len n a =
    bit_and n (mask w (w - prefix_len)) == bit_and a (mask w (w - prefix_len))

-- `WhitelistEntry::contains`
abbrev pub contains_in : IpAddr → ℕ → IpAddr → Bool
contains_in (v4 n) prefix_len (v4 a) = same_network 32 prefix_len n a
contains_in (v6 n) prefix_len (v6 a) = same_network 128 prefix_len n a
contains_in _ prefix_len _ = false

unfoldable pub contains_ip : WhitelistEntry → IpAddr → Bool
contains_ip entry ip = contains_in entry.network entry.prefix_len ip
