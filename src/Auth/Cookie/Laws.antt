-- ===== src/Auth/Cookie/Laws.antt =====
-- crates/management-ui/src/auth.rs: a cookie that the server sets is read back from it.
-- a character that neither ends a cookie nor is trimmed
use surmount_server.Auth.Cookie.{cookie_value, first_named, named_value}
use surmount_server.Net.{ip_eq}
use surmount_server.Prelude.{
  Bool, List, Option, [], all, any, ap, arith, false, list_eq, nat_eq, none, not, refl, some, true,
  ℕ, ◌&&◌, ◌++◌, ◌==◌, ◌∙◌, ◌∷◌, ◌≡◌,
}
use surmount_server.Text.{Text, contains_char, is_whitespace}
use surmount_server.Text.Chars.{strip_prefix}
use surmount_server.Text.Laws.{all-append, split-part, split-whole, strip_prefix-append, trim-plain}

abbrev pub is_cookie_char : ℕ → Bool
is_cookie_char c = not (is_whitespace c) && not (c == b';')

pub plain-no_space : (s : Text) → all is_cookie_char s ≡ true → any is_whitespace s ≡ false
plain-no_space [] h = refl
plain-no_space (c ∷ s) h = ground (arith, plain-no_space s)

plain-no_separator : (s : Text) → all is_cookie_char s ≡ true → contains_char b';' s ≡ false
unfolding contains_char
plain-no_separator [] h = refl
plain-no_separator (c ∷ s) h = ground (arith, plain-no_separator s)

equals_plain : is_cookie_char b'=' && true ≡ true
unfolding is_whitespace
equals_plain = refl

named_plain :
    (name v : Text)
    → all is_cookie_char name ≡ true
    → all is_cookie_char v ≡ true
    → all is_cookie_char (name ++ b'=' ∷ v) ≡ true
named_plain name v n h = all-append is_cookie_char name (b'=' ∷ v) ∙ rw (n, h) equals_plain

named_value-own : (name v : Text) → named_value name (name ++ b'=' ∷ v) ≡ some v
unfolding named_value
named_value-own name v =
    ap (λ (o : Option Text). elim o [ some rest ↦ strip_prefix (b'=' ∷ []) rest | none ↦ none ])
      (strip_prefix-append name (b'=' ∷ v))

first_named-own :
    (name v : Text) (parts : List Text)
    → all is_cookie_char name ≡ true
    → all is_cookie_char v ≡ true
    → first_named name ((name ++ b'=' ∷ v) ∷ parts) ≡ some v
unfolding first_named
first_named-own name v parts n h =
    ap (λ (o : Option Text). elim o [ some u ↦ some u | none ↦ first_named name parts ])
      (ap (named_value name) (
          trim-plain (name ++ b'=' ∷ v)
            (plain-no_space (name ++ b'=' ∷ v) (named_plain name v n h)))
        ∙ named_value-own name v)

pub cookie_value-own :
    (name v attributes : Text)
    → all is_cookie_char name ≡ true
    → all is_cookie_char v ≡ true
    → (cookie_value (name ++ b'=' ∷ v) name ≡ some v)
      × (cookie_value ((name ++ b'=' ∷ v) ++ b';' ∷ attributes) name ≡ some v)
unfolding cookie_value
cookie_value-own name v attributes n h = (
  rw (split-whole b';' (name ++ b'=' ∷ v) whole) (first_named-own name v [] n h),
  rw (split-part b';' (name ++ b'=' ∷ v) attributes whole) (first_named-own name v _ n h),
)
  where
    whole : contains_char b';' (name ++ b'=' ∷ v) ≡ false
    whole = plain-no_separator _ (named_plain name v n h)
