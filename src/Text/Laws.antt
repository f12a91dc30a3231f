-- ===== src/Text/Laws.antt =====
-- Laws of the text methods.
use mathlib.Core.List.{append-nil, append_assoc}
use surmount_server.Prelude.{
  Bool, [], all, any, ap, arith, beq_refl, false, list_eq, nat_eq, refl, some, sym, true, ℕ, ◌&&◌,
  ◌++◌, ◌==◌, ◌||◌, ◌∙◌, ◌∷◌, ◌≡◌,
}
use surmount_server.Text.{
  Text, contains_char, is_whitespace, lower, split, split_from, to_ascii_lowercase, trim, trim_end,
  trim_start,
}
use surmount_server.Text.Chars.{strip_prefix}

pub to_ascii_lowercase_idem :
    (s : Text) → to_ascii_lowercase (to_ascii_lowercase s) ≡ to_ascii_lowercase s
unfolding to_ascii_lowercase
to_ascii_lowercase_idem [] = refl
to_ascii_lowercase_idem (c ∷ s) = cc (lower_idem c, to_ascii_lowercase_idem s)
  where
    lower_idem : (d : ℕ) → lower (lower d) ≡ lower d
    lower_idem d = ground arith

trim_end-plain : (s : Text) → any is_whitespace s ≡ false → trim_end s ≡ s
unfolding trim_end
trim_end-plain [] h = refl
trim_end-plain (c ∷ s) h = ground (arith, trim_end-plain s)

trim_start-plain : (s : Text) → any is_whitespace s ≡ false → trim_start s ≡ s
unfolding trim_start
trim_start-plain [] h = refl
trim_start-plain (c ∷ s) h = ground arith

pub trim-plain : (s : Text) → any is_whitespace s ≡ false → trim s ≡ s
unfolding trim
trim-plain s h = ap trim_end (trim_start-plain s h) ∙ trim_end-plain s h

pub any-append : (p : ℕ → Bool) (s t : Text) → any p (s ++ t) ≡ any p s || any p t
any-append p [] t = refl
any-append p (c ∷ s) t = ground (arith, any-append p s t)

pub all-append : (p : ℕ → Bool) (s t : Text) → all p (s ++ t) ≡ all p s && all p t
all-append p [] t = refl
all-append p (c ∷ s) t = ground (arith, all-append p s t)

pub strip_prefix-append : (p s : Text) → strip_prefix p (p ++ s) ≡ some s
unfolding strip_prefix
strip_prefix-append [] s = refl
strip_prefix-append (c ∷ p) s = rw (beq_refl c) (strip_prefix-append p s)

or-false : (a b : Bool) → a || b ≡ false → (a ≡ false) × (b ≡ false)
or-false a b h = ground arith

-- A part without the separator is split off whole.
split_from-part :
    (c : ℕ) (part p s : Text)
    → contains_char c p ≡ false
    → split_from c part (p ++ c ∷ s) ≡ (part ++ p) ∷ split c s
unfolding split split_from contains_char
split_from-part c part [] s h = rw (beq_refl c, append-nil part) refl
split_from-part c part (d ∷ p) s h =
    let (other, later) = or-false (d == c) (contains_char c p) h in
    rw other (
      split_from-part c (part ++ d ∷ []) p s later
      ∙ ap (λ (u : Text). u ∷ split c s) (append_assoc part (d ∷ []) p))

split_from-whole :
    (c : ℕ) (part p : Text) → contains_char c p ≡ false → split_from c part p ≡ (part ++ p) ∷ []
unfolding split_from contains_char
split_from-whole c part [] h = ap (λ (u : Text). u ∷ []) (sym (append-nil part))
split_from-whole c part (d ∷ p) h =
    let (other, later) = or-false (d == c) (contains_char c p) h in
    rw other (
      split_from-whole c (part ++ d ∷ []) p later
      ∙ ap (λ (u : Text). u ∷ []) (append_assoc part (d ∷ []) p))

pub split-part :
    (c : ℕ) (p s : Text) → contains_char c p ≡ false → split c (p ++ c ∷ s) ≡ p ∷ split c s
unfolding split
split-part c p s h = split_from-part c [] p s h

pub split-whole : (c : ℕ) (p : Text) → contains_char c p ≡ false → split c p ≡ p ∷ []
unfolding split
split-whole c p h = split_from-whole c [] p h

pub all-cons :
    (p : ℕ → Bool) (c : ℕ) (s : Text) → p c ≡ true → all p s ≡ true → all p (c ∷ s) ≡ true
all-cons p c s h k = rw (h, k) refl

pub all-both : (p : ℕ → Bool) (s t : Text) → all p s ≡ true → all p t ≡ true → all p (s ++ t) ≡ true
all-both p s t h k = all-append p s t ∙ rw (h, k) refl
