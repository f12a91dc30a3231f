-- ===== src/Ban/Cidr/Laws.antt =====
-- crates/management-ui/src/ban.rs: the CIDR match and the leading bits of addresses.
use Prim.Native.Nat.{bit_and, bit_and-bitwise, digits, min}
use surmount_server.Ban.Cidr.{WhitelistEntry, contains_in, contains_ip, mask, same_network}
use surmount_server.Net.{IpAddr, ip_eq, v4, v6}
use surmount_server.Prelude.{
  Bool, Bool-cases, ap, arith, inl, inr, list_eq, nat_beq, nat_beq_iff, nat_eq, refl, suc, sym,
  true, zero, ℕ, ◌%◌, ◌&&◌, ◌*◌, ◌+◌, ◌-◌, ◌/◌, ◌<◌, ◌==◌, ◌^◌, ◌↔◌, ◌∙◌, ◌≡◌, ◌≤◌,
}

-- `a` without its last bits, halved once for each
abbrev pub halved : ℕ → ℕ → ℕ
halved zero a = a
halved (suc s) a = halved s (a / 2)

abbrev doubled : ℕ → ℕ → ℕ
doubled zero a = a
doubled (suc s) a = doubled s a * 2

-- the number of k ones
abbrev ones : ℕ → ℕ
ones zero = 0
ones (suc k) = ones k * 2 + 1

common : ℕ → ℕ → ℕ → ℕ
common fuel a b = digits (λ z. zero) min fuel a b

common-stable : (b a : ℕ) (more less : ℕ) → a ≤ less → a ≤ more → common more a b ≡ common less a b
unfolding common
common-stable b zero zero zero u v = refl
common-stable b zero zero (suc less) u v = refl
common-stable b zero (suc more) zero u v = refl
common-stable b zero (suc more) (suc less) u v = refl
common-stable b (suc a) zero less u v = absurd (omega arith)
common-stable b (suc a) (suc more) zero u v = absurd (omega arith)
common-stable b (suc a) (suc more) (suc less) u v =
    let half = common-stable (b / 2) (suc a / 2) more less (omega arith) (omega arith) in
    ap (λ h. h * 2 + min (suc a % 2) (b % 2)) half

bit_and-common : (a b fuel : ℕ) → a ≤ fuel → bit_and a b ≡ common fuel a b
unfolding common
bit_and-common a b fuel u = bit_and-bitwise a b ∙ common-stable b a a fuel u (omega arith)

-- the lowest bit apart
bit_and-halves : (a b : ℕ) → bit_and a b ≡ bit_and (a / 2) (b / 2) * 2 + min (a % 2) (b % 2)
unfolding common
bit_and-halves zero b = omega (arith, bit_and-bitwise 0 b, bit_and-bitwise 0 (b / 2))
bit_and-halves (suc a) b =
    bit_and-bitwise (suc a) b
    ∙ ap (λ h. h * 2 + min (suc a % 2) (b % 2))
        (sym (bit_and-common (suc a / 2) (b / 2) a (omega arith)))

bit_and-doubled : (s a m : ℕ) → bit_and a (doubled s m) ≡ doubled s (bit_and (halved s a) m)
bit_and-doubled zero a m = refl
bit_and-doubled (suc s) a m =
    let half : doubled s m * 2 / 2 ≡ doubled s m = omega arith in
    bit_and-halves a (doubled s m * 2) ∙ rw half (omega (arith, bit_and-doubled s (a / 2) m))

bit_and-ones : (k a : ℕ) → a ≤ ones k → bit_and a (ones k) ≡ a
bit_and-ones zero zero h = refl
bit_and-ones zero (suc a) h = absurd (omega arith)
bit_and-ones (suc k) a h =
    let half : (ones k * 2 + 1) / 2 ≡ ones k = omega arith in
    bit_and-halves a (ones k * 2 + 1)
    ∙ rw half (omega (arith, bit_and-ones k (a / 2) (omega arith)))

halved-ones : (s k w a : ℕ) → s + k ≡ w → a ≤ ones w → halved s a ≤ ones k
halved-ones zero k w a e h = (let same : w ≡ k = omega (arith, e) in rw same at h)
halved-ones (suc s) k zero a e h = absurd (omega arith)
halved-ones (suc s) k (suc w) a e h = halved-ones s k w (a / 2) (omega arith) (omega arith)

doubled-injective : (s a b : ℕ) → doubled s a ≡ doubled s b → a ≡ b
doubled-injective zero a b h = h
doubled-injective (suc s) a b h = doubled-injective s a b (omega arith)

-- A mask of w bits keeps the bits above its shift.
abbrev all_masks : ℕ → ℕ → Bool
all_masks w zero = mask w 0 == doubled 0 (ones (w - 0))
all_masks w (suc s) = mask w (suc s) == doubled (suc s) (ones (w - suc s)) && all_masks w s

v4_masks : all_masks 32 32 ≡ true
v4_masks = refl

v6_masks : all_masks 128 128 ≡ true
v6_masks = refl

one_mask : (w most s : ℕ) → all_masks w most ≡ true → s ≤ most → mask w s ≡ doubled s (ones (w - s))
one_mask w zero zero h le = (nat_beq_iff _ _).0 h
one_mask w zero (suc s) h le = absurd (omega arith)
one_mask w (suc most) s h le = elim (Bool-cases (nat_beq s (suc most))) [
  | inl same ↦ rw ((nat_beq_iff s (suc most)).0 same) ((nat_beq_iff _ _).0 (ground arith))
  | inr less ↦ one_mask w most s (ground arith) (ground arith)
]

masked :
    (w s n : ℕ)
    → all_masks w w ≡ true
    → s ≤ w
    → n ≤ ones w
    → bit_and n (mask w s) ≡ doubled s (halved s n)
masked w s n table le small =
    ap (bit_and n) (one_mask w w s table le)
    ∙ bit_and-doubled s n (ones (w - s))
    ∙ ap (doubled s)
        (bit_and-ones (w - s) (halved s n) (halved-ones s (w - s) w n (omega arith) small))

same_network_iff :
    (w p n a : ℕ)
    → all_masks w w ≡ true
    → n ≤ ones w
    → a ≤ ones w
    → (same_network w p n a ≡ true) ↔ (halved (w - p) n ≡ halved (w - p) a)
same_network_iff w p n a table small_n small_a = (
  λ h. doubled-injective (w - p) _ _ (
      sym (masked w (w - p) n table (omega arith) small_n)
      ∙ (nat_beq_iff _ _).0 h
      ∙ masked w (w - p) a table (omega arith) small_a),
  λ e. (nat_beq_iff _ _).1 (
      masked w (w - p) n table (omega arith) small_n
      ∙ ap (doubled (w - p)) e
      ∙ sym (masked w (w - p) a table (omega arith) small_a)),
)

-- the range of an address
abbrev pub IsAddress : IpAddr → Type 0
IsAddress (v4 n) = n < 2 ^ 32
IsAddress (v6 n) = n < 2 ^ 128

-- Two addresses of one family agree on their first p bits: what is left when the others are halved
-- away.
abbrev pub AgreesOn : ℕ → IpAddr → IpAddr → Type 0
AgreesOn p (v4 n) (v4 a) = halved (32 - p) n ≡ halved (32 - p) a
AgreesOn p (v6 n) (v6 a) = halved (128 - p) n ≡ halved (128 - p) a
AgreesOn p _ _ = ⊥

-- For addresses in range, a whitelist entry contains an address exactly when both are of one family
-- and agree on the first `prefix_len` bits.
pub contains_ip_iff :
    (entry : WhitelistEntry) (ip : IpAddr)
    → IsAddress entry.network
    → IsAddress ip
    → (contains_ip entry ip ≡ true) ↔ AgreesOn entry.prefix_len entry.network ip
unfolding contains_ip
contains_ip_iff entry ip small_n small_a = agree entry.network ip small_n small_a
  where
    agree :
        (network address : IpAddr)
        → IsAddress network
        → IsAddress address
        → (contains_in network entry.prefix_len address ≡ true)
          ↔ AgreesOn entry.prefix_len network address
    agree (v4 n) (v4 a) u v =
        same_network_iff 32 entry.prefix_len n a v4_masks (omega arith) (omega arith)
    agree (v6 n) (v6 a) u v =
        same_network_iff 128 entry.prefix_len n a v6_masks (omega arith) (omega arith)
    agree (v4 n) (v6 a) u v = ground arith
    agree (v6 n) (v4 a) u v = ground arith
