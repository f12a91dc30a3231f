-- ===== src/Net.antt =====
-- std::net::IpAddr: a v4 address is its u32, a v6 address its u128.
use surmount_server.Prelude.{
  Bool, Eq, Option, [], arith, false, if◌then◌else◌, list_eq, nat_beq, nat_eq, none, some, true, ℕ,
  ◌/◌, ◌==◌, ◌^◌, ◌↔◌, ◌∷◌, ◌≡◌,
}
use surmount_server.Text.{Text}

pub data IpAddr : Type 0 where
  v4 : ℕ → IpAddr
  v6 : ℕ → IpAddr

abbrev ip_beq : IpAddr → IpAddr → Bool
ip_beq (v4 a) (v4 b) = nat_beq a b
ip_beq (v6 a) (v6 b) = nat_beq a b
ip_beq _ _ = false

pub ip_beq_iff : (a b : IpAddr) → (ip_beq a b ≡ true) ↔ (a ≡ b)
ip_beq_iff (v4 a) (v4 b) = ground arith
ip_beq_iff (v6 a) (v6 b) = ground arith
ip_beq_iff (v4 a) (v6 b) = ground arith
ip_beq_iff (v6 a) (v4 b) = ground arith

instance abbrev pub ip_eq : Eq IpAddr
ip_eq = record { agrees = ip_beq; agrees_iff = ip_beq_iff }

-- 127.0.0.0/8, and ::1
abbrev pub is_loopback : IpAddr → Bool
is_loopback (v4 n) = n / 2 ^ 24 == 127
is_loopback (v6 n) = n == 1

abbrev pub is_unspecified : IpAddr → Bool
is_unspecified (v4 n) = n == 0
is_unspecified (v6 n) = n == 0

-- 127.0.0.1
abbrev pub localhost : IpAddr
localhost = v4 0x7f000001

-- The grammar of addresses as text, `str::parse::<IpAddr>` and `Display for IpAddr`.
pub record IpSyntax : Type 0 where
  pub parse : Text → Option IpAddr
  pub to_string : IpAddr → Text

-- What is printed is parsed back.
abbrev pub ParsesPrinted : IpSyntax → Type 0
ParsesPrinted syntax = (ip : IpAddr) → syntax.parse (syntax.to_string ip) ≡ some ip

-- An instance for runs: the family's digit, then the number as one code point.
abbrev pub plain_syntax : IpSyntax
plain_syntax = record { parse = parse; to_string = to_string }
  where
    parse : Text → Option IpAddr
    parse (f ∷ n ∷ []) = if f == b'4' then some (v4 n) else if f == b'6' then some (v6 n) else none
    parse _ = none

    to_string : IpAddr → Text
    to_string (v4 n) = b'4' ∷ n ∷ []
    to_string (v6 n) = b'6' ∷ n ∷ []
