-- ===== src/Auth/Next/Laws.antt =====
-- crates/management-ui/src/auth.rs: a login leads to a path of this server alone.
use mathlib.Core.Path.{subst}
use surmount_server.Auth.Next.{sanitize_login_next}
use surmount_server.Net.{ip_eq}
use surmount_server.Prelude.{
  Bool, [], any, false, if◌then◌else◌, inl, inr, is_empty, list_eq, nat_eq, not, refl, sym, true,
  ◌||◌, ◌↔◌, ◌∷◌, ◌≡◌, ◌⊎◌,
}
use surmount_server.Text.{Text, contains, contains_char, starts_with, text, trim}
use surmount_server.Text.Chars.{is_control}

-- A path on the origin that serves it: it begins with one slash, names no scheme, and has no
-- backslash and no control character.
pub record IsLocal (path : Text) : Type 0 where
  pub rooted : starts_with (text "/") path ≡ true
  pub no_authority : starts_with (text "//") path ≡ false
  pub no_scheme : contains (text "://") path ≡ false
  pub no_backslash : contains_char b'\\' path ≡ false
  pub no_control : any is_control path ≡ false

slash-IsLocal : IsLocal (text "/")
unfolding starts_with contains contains_char is_control
slash-IsLocal = record {
  rooted = refl;
  no_authority = refl;
  no_scheme = refl;
  no_backslash = refl;
  no_control = refl;
}

abbrev sanitize_steps : Text → (empty scheme rooted authority backslash control : Bool) → Text
sanitize_steps t empty scheme rooted authority backslash control =
    if empty
    then text "/"
    else if scheme
    then text "/"
    else if not rooted || authority
    then text "/"
    else if backslash
    then text "/"
    else if control
    then text "/"
    else t

sanitize_cases :
    (t : Text) (empty scheme rooted authority backslash control : Bool)
    → (sanitize_steps t empty scheme rooted authority backslash control ≡ text "/")
      ⊎ ((sanitize_steps t empty scheme rooted authority backslash control ≡ t)
          × (scheme ≡ false)
          × (rooted ≡ true)
          × (authority ≡ false)
          × (backslash ≡ false)
          × (control ≡ false))
sanitize_cases t true b2 b3 b4 b5 b6 = inl refl
sanitize_cases t false true b3 b4 b5 b6 = inl refl
sanitize_cases t false false false b4 b5 b6 = inl refl
sanitize_cases t false false true true b5 b6 = inl refl
sanitize_cases t false false true false true b6 = inl refl
sanitize_cases t false false true false false true = inl refl
sanitize_cases t false false true false false false = inr (refl, refl, refl, refl, refl, refl)

rooted-full : (t : Text) → starts_with (text "/") t ≡ true → is_empty t ≡ false
unfolding starts_with
rooted-full [] h = absurd cc
rooted-full (c ∷ t) h = refl

-- The address to go to after a login begins with a slash and not with two, and has no scheme
-- separator, no backslash and no control character; a trimmed input is kept exactly when it is such
-- an address.
pub sanitize_login_next-IsLocal :
    (raw : Text)
    → IsLocal (sanitize_login_next raw)
      × (IsLocal (trim raw) ↔ (sanitize_login_next raw ≡ trim raw))
unfolding sanitize_login_next
sanitize_login_next-IsLocal raw = (safe, (kept, (λ e. subst IsLocal e safe)))
  where
    safe : IsLocal (sanitize_login_next raw)
    safe =
        elim (sanitize_cases (trim raw) (is_empty (trim raw)) (contains (text "://") (trim raw))
          (starts_with (text "/") (trim raw)) (starts_with (text "//") (trim raw))
          (contains_char b'\\' (trim raw)) (any is_control (trim raw))) [
            | inl e ↦ subst IsLocal (sym e) slash-IsLocal
            | inr (e, scheme, rooted, authority, backslash, control) ↦
                subst IsLocal (sym e) (record {
                  rooted = rooted;
                  no_authority = authority;
                  no_scheme = scheme;
                  no_backslash = backslash;
                  no_control = control;
                })
          ]

    kept : IsLocal (trim raw) → sanitize_login_next raw ≡ trim raw
    kept l =
        rw
          (
            rooted-full (trim raw) l.rooted,
            l.no_scheme,
            l.rooted,
            l.no_authority,
            l.no_backslash,
            l.no_control,
          )
          refl
