-- ===== src/Auth/Samples.antt =====
-- Libraries that the tests run with: a number is written in unary, and a MAC is a count.
use mathlib.Core.List.{append_assoc}
use surmount_server.Auth.{Nostr}
use surmount_server.Auth.Session.{Sealing, Seals, SessionPayload, is_url_safe}
use surmount_server.Net.{ip_eq}
use surmount_server.Prelude.{
  Bool-cases, Option, [], all, ap, arith, if◌then◌else◌, inl, inr, length, list_beq_iff, list_eq,
  nat_eq, none, refl, some, suc, sym, true, zero, ℕ, ◌++◌, ◌+◌, ◌==◌, ◌∙◌, ◌∷◌, ◌≡◌, ◌≢◌,
}
use surmount_server.Text.{Text, is_ascii_digit}
use surmount_server.Text.Chars.{Bytes, is_ascii_alphanumeric}
use surmount_server.Text.Laws.{all-both, all-cons}

abbrev pub write_number : ℕ → Text
write_number zero = b'-' ∷ []
write_number (suc n) = b'a' ∷ write_number n

abbrev pub unary_encode : Bytes → Text
unary_encode [] = []
unary_encode (b ∷ bytes) = write_number b ++ unary_encode bytes

abbrev push_number : ℕ → Option Bytes → Option Bytes
push_number n none = none
push_number n (some bytes) = some (n ∷ bytes)

abbrev pub unary_decode_from : ℕ → Text → Option Bytes
unary_decode_from zero [] = some []
unary_decode_from (suc n) [] = none
unary_decode_from n (c ∷ s) =
    let more = unary_decode_from (suc n) s in
    let rest = unary_decode_from 0 s in
    if c == b'a' then more else if c == b'-' then push_number n rest else none

decode-number :
    (n k : ℕ) (s : Text)
    → unary_decode_from k (write_number n ++ s) ≡ push_number (n + k) (unary_decode_from 0 s)
decode-number zero zero s = refl
decode-number zero (suc k) s = ap (λ (m : ℕ). push_number m (unary_decode_from 0 s)) (omega arith)
decode-number (suc n) zero s =
    decode-number n 1 s ∙ ap (λ (m : ℕ). push_number m (unary_decode_from 0 s)) (omega arith)
decode-number (suc n) (suc k) s =
    decode-number n (suc (suc k)) s
    ∙ ap (λ (m : ℕ). push_number m (unary_decode_from 0 s)) (omega arith)

unary_decoded : (b : Bytes) → unary_decode_from 0 (unary_encode b) ≡ some b
unary_decoded [] = refl
unary_decoded (b ∷ bytes) =
    decode-number b 0 (unary_encode bytes)
    ∙ ap (push_number (b + 0)) (unary_decoded bytes)
    ∙ ap (λ (m : ℕ). some (m ∷ bytes)) (omega arith)

all-both-safe :
    (s t : Text)
    → all is_url_safe s ≡ true
    → all is_url_safe t ≡ true
    → all is_url_safe (s ++ t) ≡ true
all-both-safe s t = all-both is_url_safe s t

number-safe : (n : ℕ) → all is_url_safe (write_number n) ≡ true
unfolding is_ascii_alphanumeric is_ascii_digit
number-safe zero = refl
number-safe (suc n) = number-safe n

unary_safe : (b : Bytes) → all is_url_safe (unary_encode b) ≡ true
unary_safe [] = refl
unary_safe (b ∷ bytes) =
    all-both-safe (write_number b) (unary_encode bytes) (number-safe b) (unary_safe bytes)

push_number-some :
    (n : ℕ) (o : Option Bytes) {b : Bytes} → push_number n o ≡ some b → (d : Bytes) × (o ≡ some d)
push_number-some n none h = absurd cc
push_number-some n (some d) h = (d, refl)

-- a mark that is read is in the alphabet
mark_safe :
    (c n : ℕ) (s : Text) (more rest : Option Bytes) {b : Bytes}
    → ((d : Bytes) → more ≡ some d → all is_url_safe s ≡ true)
    → ((d : Bytes) → rest ≡ some d → all is_url_safe s ≡ true)
    → (if c == b'a' then more else if c == b'-' then push_number n rest else none) ≡ some b
    → all is_url_safe (c ∷ s) ≡ true
unfolding is_ascii_alphanumeric is_ascii_digit
mark_safe c n s more rest f g h = elim (Bool-cases (c == b'a')) [
  | inl is_a ↦ all-cons is_url_safe c s (ground (arith, is_a)) (f _ (sym (rw is_a refl) ∙ h))
  | inr not_a ↦ elim (Bool-cases (c == b'-')) [
    | inl is_dash ↦
        all-cons is_url_safe c s (ground (arith, is_dash))
          (pushed n rest refl (sym (rw (not_a, is_dash) refl) ∙ h))
    | inr other_mark ↦ absurd (no_bytes (sym (rw (not_a, other_mark) refl) ∙ h))
  ]
]
  where
    no_bytes : {b : Bytes} → ◌≢◌ {A = Option Bytes} none (some b)
    no_bytes e = cc

    pushed :
        (m : ℕ) (o : Option Bytes) {b : Bytes}
        → rest ≡ o
        → push_number m o ≡ some b
        → all is_url_safe s ≡ true
    pushed m o same e = (let (d, read) = push_number-some m o e in g d (same ∙ read))

decoded-safe :
    (n : ℕ) (s : Text) {b : Bytes} → unary_decode_from n s ≡ some b → all is_url_safe s ≡ true
decoded-safe zero [] h = refl
decoded-safe (suc n) [] h = refl
decoded-safe zero (c ∷ s) h =
    mark_safe c 0 s (unary_decode_from 1 s) (unary_decode_from 0 s) (λ d. decoded-safe 1 s)
      (λ d. decoded-safe 0 s) h
decoded-safe (suc n) (c ∷ s) h =
    mark_safe c (suc n) s (unary_decode_from (suc (suc n)) s) (unary_decode_from 0 s)
      (λ d. decoded-safe (suc (suc n)) s) (λ d. decoded-safe 0 s) h

-- A key is taken as it is, a MAC counts what it is given, and the JSON of a payload is its number and its
-- name.
abbrev pub counting : Sealing Bytes
counting = record {
  new_from_slice = some;
  update = ◌++◌;
  finalize = λ m. suc (length m) ∷ [];
  verify_slice = λ m b. suc (length m) ∷ [] == b;
  encode = unary_encode;
  decode = unary_decode_from 0;
  to_vec = λ p. some (p.exp ∷ p.sub);
  from_slice = λ b. elim b [ [] ↦ none | e ∷ sub ↦ some (record { sub = sub; exp = e }) ];
}

pub counting-Seals : Seals counting
counting-Seals = record {
  keyed = λ key. (key, refl);
  updated = append_assoc;
  verifies = λ m b. list_beq_iff (suc (length m) ∷ []) b;
  tagged = λ m e. cc;
  decoded = unary_decoded;
  encoded_safe = unary_safe;
  decoded_safe = λ s b. decoded-safe 0 s;
  encoded_full = full;
  read_back = λ p b h. read p b h;
}
  where
    full : (b : Bytes) → b ≢ [] → unary_encode b ≢ []
    full [] h e = h refl
    full (zero ∷ b) h e = cc
    full (suc n ∷ b) h e = cc

    read :
        (p : SessionPayload) (b : Bytes)
        → some (p.exp ∷ p.sub) ≡ some b
        → (counting.from_slice b ≡ some p) × (b ≢ [])
    read p [] h = absurd cc
    read p (e ∷ sub) h = (cc, λ f. cc)

-- every text is a key, and every event of kind 27235 is signed
abbrev pub trusting : Nostr
trusting = record {
  parse_key = some;
  to_bech32 = some;
  verify = λ event. event.kind == 27235;
  event_from_json = λ t. none;
  event_from_slice = λ b. none;
  parse_url = λ t. none;
}
