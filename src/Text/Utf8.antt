-- ===== src/Text/Utf8.antt =====
-- Texts with the same UTF-8 bytes are the same, and so are bytes that differ in no bit.
-- The bytes of a character, followed by others, tell the character.
use Prim.Native.Nat.{digits, differ, bit_xor, bit_or, bit_xor-bitwise, bit_or-bitwise, max}
use surmount_server.Prelude.{
  [], arith, list_eq, nat_eq, refl, suc, sym, zero, ℕ, ◌%◌, ◌++◌, ◌/◌, ◌∙◌, ◌∷◌, ◌≡◌, ◌≢◌, ◌≤◌,
}
use surmount_server.Text.{Text}
use surmount_server.Text.Chars.{Bytes, as_bytes, encode_utf8}

encode_utf8-injective :
    (c d : ℕ) (s t : Bytes) → encode_utf8 c ++ s ≡ encode_utf8 d ++ t → (c ≡ d) × (s ≡ t)
unfolding encode_utf8
encode_utf8-injective c d s t h = ground arith

full : (c : ℕ) (s : Bytes) → encode_utf8 c ++ s ≢ []
unfolding encode_utf8
full c s h = ground arith

pub as_bytes-injective : (s t : Text) → as_bytes s ≡ as_bytes t → s ≡ t
unfolding as_bytes
as_bytes-injective [] [] h = refl
as_bytes-injective [] (d ∷ t) h = absurd (full d (as_bytes t) (sym h))
as_bytes-injective (c ∷ s) [] h = absurd (full c (as_bytes s) h)
as_bytes-injective (c ∷ s) (d ∷ t) h =
    let (p, q) = encode_utf8-injective c d (as_bytes s) (as_bytes t) h in
    cc (p, as_bytes-injective s t q)

differ_zero : (a b : ℕ) → differ a b ≡ 0 → a ≡ b
differ_zero zero b h = sym h
differ_zero (suc a) zero h = absurd (omega arith)
differ_zero (suc a) (suc b) h = omega (arith, differ_zero a b h)

max_zero : (a b : ℕ) → max a b ≡ 0 → (a ≡ 0) × (b ≡ 0)
max_zero a b h = ground arith

xor_zero : (n a b : ℕ) → a ≤ n → digits (λ c. c) differ n a b ≡ 0 → a ≡ b
xor_zero zero zero b le h = sym h
xor_zero zero (suc a) b le h = absurd (omega arith)
xor_zero (suc n) zero b le h = sym h
xor_zero (suc n) (suc a) b le h = omega (
  arith,
  xor_zero n (suc a / 2) (b / 2) (omega arith) (omega (arith, h)),
  differ_zero (suc a % 2) (b % 2) (omega (arith, h)),
)

or_zero : (n a b : ℕ) → a ≤ n → digits (λ c. c) max n a b ≡ 0 → (a ≡ 0) × (b ≡ 0)
or_zero zero zero b le h = (refl, h)
or_zero zero (suc a) b le h = absurd (omega arith)
or_zero (suc n) zero b le h = (refl, h)
or_zero (suc n) (suc a) b le h =
    let (p, q) = or_zero n (suc a / 2) (b / 2) (omega arith) (omega (arith, h)) in
    let (u, v) = max_zero (suc a % 2) (b % 2) (omega (arith, h)) in (omega arith, omega arith)

pub bit_xor_eq_zero : (a b : ℕ) → bit_xor a b ≡ 0 → a ≡ b
bit_xor_eq_zero a b h = xor_zero a a b (omega arith) (sym (bit_xor-bitwise a b) ∙ h)

pub bit_xor_self : (a : ℕ) → bit_xor a a ≡ 0
bit_xor_self a = bit_xor-bitwise a a ∙ self a a (omega arith)
  where
    differ_self : (x : ℕ) → differ x x ≡ 0
    differ_self zero = refl
    differ_self (suc x) = differ_self x

    self : (n x : ℕ) → x ≤ n → digits (λ c. c) differ n x x ≡ 0
    self zero zero le = refl
    self zero (suc x) le = absurd (omega arith)
    self (suc n) zero le = refl
    self (suc n) (suc x) le =
        omega (arith, self n (suc x / 2) (omega arith), differ_self (suc x % 2))

pub bit_or_eq_zero : (a b : ℕ) → bit_or a b ≡ 0 → (a ≡ 0) × (b ≡ 0)
bit_or_eq_zero a b h = or_zero a a b (omega arith) (sym (bit_or-bitwise a b) ∙ h)
