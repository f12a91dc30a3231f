-- ===== src/Console/Fold.antt =====
-- crates/management-ui/src/console_accounts.rs: mailboxes and keys are compared trimmed and in lower case.
use mathlib.Core.Option
use surmount_server.Console.{normalized}
use surmount_server.Net.{ip_eq}
use surmount_server.Prelude.{
  Option, Option-cases, [], ap, arith, false, if◌then◌else◌, inl, inr, is_empty, list_eq, nat_eq,
  none, refl, some, sym, ◌∙◌, ◌∷◌, ◌≡◌, ◌≢◌,
}
use surmount_server.Text.{Text, to_ascii_lowercase, trim}
use surmount_server.Text.Chars.{non_blank}
use surmount_server.Text.Laws.{to_ascii_lowercase_idem}
use surmount_server.Text.Trim.{trim-to_ascii_lowercase, trim_idem}

abbrev lowered_full : Text → Option Text
lowered_full u = Option.map to_ascii_lowercase (if is_empty u then none else some u)

normalized_lem : (s : Text) → normalized (some s) ≡ lowered_full (trim s)
unfolding normalized non_blank
normalized_lem s = refl

lowered_full-some : (u : Text) → is_empty u ≡ false → lowered_full u ≡ some (to_ascii_lowercase u)
lowered_full-some [] h = absurd (ground arith)
lowered_full-some (c ∷ u) h = refl

lowered_full-inv :
    (u : Text) {t : Text}
    → lowered_full u ≡ some t
    → (t ≡ to_ascii_lowercase u) × (is_empty (to_ascii_lowercase u) ≡ false)
unfolding to_ascii_lowercase
lowered_full-inv [] h = absurd cc
lowered_full-inv (c ∷ u) h = (cc, refl)

-- the text that a mailbox or a key is compared as
abbrev pub folded : Text → Text
folded s = to_ascii_lowercase (trim s)

trim-folded : (s : Text) → trim (folded s) ≡ folded s
trim-folded s = trim-to_ascii_lowercase (trim s) ∙ ap to_ascii_lowercase (trim_idem s)

pub folded_idem : (s : Text) → folded (folded s) ≡ folded s
folded_idem s = ap to_ascii_lowercase (trim-folded s) ∙ to_ascii_lowercase_idem (trim s)

nothing : {u : Text} → normalized none ≢ some u
unfolding normalized non_blank
nothing e = cc

pub normalized-folded :
    (o : Option Text) {t : Text} → normalized o ≡ some t → (folded t ≡ t) × (is_empty t ≡ false)
normalized-folded none h = absurd (nothing h)
normalized-folded (some s) h =
    let (same, full) = lowered_full-inv (trim s) (sym (normalized_lem s) ∙ h) in
    (ap folded same ∙ folded_idem s ∙ sym same, ap is_empty same ∙ full)

pub normalized_own :
    (s : Text) → is_empty (folded s) ≡ false → normalized (some (folded s)) ≡ some (folded s)
normalized_own s full =
    normalized_lem (folded s)
    ∙ ap lowered_full (trim-folded s)
    ∙ lowered_full-some (folded s) full
    ∙ ap some (to_ascii_lowercase_idem (trim s))

pub normalized-none : normalized none ≡ none
unfolding normalized non_blank
normalized-none = refl

-- a key that is normal already is kept as it is
pub normalized_twice : (key : Option Text) → normalized (normalized key) ≡ normalized key
normalized_twice key = elim (Option-cases (normalized key)) [
  | inl none_key ↦ ap normalized none_key ∙ normalized-none ∙ sym none_key
  | inr (hex, some_key) ↦
      (let (same, full) = normalized-folded key some_key in
        ap normalized (some_key ∙ ap some (sym same))
        ∙ normalized_own hex (ap is_empty same ∙ full)
        ∙ ap some same
        ∙ sym some_key)
]
