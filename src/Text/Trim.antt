-- ===== src/Text/Trim.antt =====
-- Trimming and lower case: each is done once, in either order.
use surmount_server.Prelude.{
  Bool, Bool-cases, [], ap, arith, false, if◌then◌else◌, inl, inr, is_empty, list_eq, nat_eq, refl,
  true, ℕ, ◌&&◌, ◌∙◌, ◌∷◌, ◌≡◌,
}
use surmount_server.Text.{
  Text, is_whitespace, lower, to_ascii_lowercase, trim, trim_end, trim_start,
}

whitespace-lower : (c : ℕ) → is_whitespace (lower c) ≡ is_whitespace c
unfolding is_whitespace lower
whitespace-lower c = ground arith

is_empty-lower : (s : Text) → is_empty (to_ascii_lowercase s) ≡ is_empty s
unfolding to_ascii_lowercase
is_empty-lower [] = refl
is_empty-lower (c ∷ s) = refl

trim_start-lower :
    (s : Text) → trim_start (to_ascii_lowercase s) ≡ to_ascii_lowercase (trim_start s)
unfolding trim_start to_ascii_lowercase
trim_start-lower [] = refl
trim_start-lower (c ∷ s) = elim (Bool-cases (is_whitespace c)) [
  | inl e ↦ rw (whitespace-lower c, e) (trim_start-lower s)
  | inr e ↦ rw (whitespace-lower c, e) refl
]

end_step :
    (space : Bool) (c : ℕ) (rest : Text)
    → (if space && is_empty (to_ascii_lowercase rest)
        then []
        else lower c ∷ to_ascii_lowercase rest)
      ≡ to_ascii_lowercase (if space && is_empty rest then [] else c ∷ rest)
unfolding to_ascii_lowercase
end_step false c rest = refl
end_step true c [] = refl
end_step true c (d ∷ rest) = refl

trim_end-lower : (s : Text) → trim_end (to_ascii_lowercase s) ≡ to_ascii_lowercase (trim_end s)
unfolding trim_end to_ascii_lowercase
trim_end-lower [] = refl
trim_end-lower (c ∷ s) =
    rw (whitespace-lower c, trim_end-lower s) (end_step (is_whitespace c) c (trim_end s))

pub trim-to_ascii_lowercase : (s : Text) → trim (to_ascii_lowercase s) ≡ to_ascii_lowercase (trim s)
unfolding trim
trim-to_ascii_lowercase s = ap trim_end (trim_start-lower s) ∙ trim_end-lower (trim_start s)

trim_end_idem : (s : Text) → trim_end (trim_end s) ≡ trim_end s
unfolding trim_end
trim_end_idem [] = refl
trim_end_idem (c ∷ s) = ground (arith, trim_end_idem s)

-- what begins with no space still does so when its end is trimmed
trim_start-trim_end : (s : Text) → trim_start (trim_end (trim_start s)) ≡ trim_end (trim_start s)
unfolding trim_start trim_end
trim_start-trim_end [] = refl
trim_start-trim_end (c ∷ s) = ground (arith, trim_start-trim_end s)

pub trim_idem : (s : Text) → trim (trim s) ≡ trim s
unfolding trim
trim_idem s = ap trim_end (trim_start-trim_end s) ∙ trim_end_idem (trim_start s)
