-- ===== src/Auth/Csrf/Laws.antt =====
-- crates/management-ui/src/auth.rs: which tokens pass.
-- No difference is found exactly where there is none and none was found before.
use Prim.Native.Nat.{bit_or, bit_xor}
use surmount_server.Auth.{csrf_error}
use surmount_server.Auth.Csrf.{
  both_equal, constant_time_eq_str, csrf_mac, csrf_session_mac_purpose, difference, matches_bound,
  session_bound_csrf_token, verify_csrf_double_submit, verify_csrf_session_bound,
}
use surmount_server.Auth.Session.{Sealing, Seals, is_url_safe}
use surmount_server.Net.{ip_eq}
use surmount_server.Prelude.{
  >>=-eq-ok, Bool, Option, [], all, ap, arith, beq_refl, false, guard, if◌then◌else◌, is_empty,
  length, list_eq, nat_eq, none, ok, ok-injective, refl, some, sym, true, ℕ, ◌++◌, ◌↔◌, ◌∙◌, ◌∷◌,
  ◌≡◌, ◌≢◌,
}
use surmount_server.Text.{Text, trim}
use surmount_server.Text.Chars.{Bytes, as_bytes, is_ascii_alphanumeric, non_blank}
use surmount_server.Text.Utf8.{as_bytes-injective, bit_or_eq_zero, bit_xor_eq_zero, bit_xor_self}

difference-zero :
    (diff : ℕ) (a b : Bytes) → length a ≡ length b → difference diff a b ≡ 0 → (diff ≡ 0) × (a ≡ b)
unfolding difference
difference-zero diff [] [] same h = (h, refl)
difference-zero diff [] (y ∷ b) same h = absurd (omega arith)
difference-zero diff (x ∷ a) [] same h = absurd (omega arith)
difference-zero diff (x ∷ a) (y ∷ b) same h =
    let (zero_left, tail) = difference-zero (bit_or diff (bit_xor x y)) a b (omega arith) h in
    let (p, q) = bit_or_eq_zero diff (bit_xor x y) zero_left in
    (p, cc (bit_xor_eq_zero x y q, tail))

difference_self : (a : Bytes) → difference 0 a a ≡ 0
unfolding difference
difference_self [] = refl
difference_self (x ∷ a) =
    ap (λ (d : ℕ). difference (bit_or 0 d) a a) (bit_xor_self x) ∙ difference_self a

pub constant_time_eq_str_iff : (a b : Text) → (constant_time_eq_str a b ≡ true) ↔ (a ≡ b)
unfolding constant_time_eq_str
constant_time_eq_str_iff a b = (there, back)
  where
    self : constant_time_eq_str a a ≡ true
    self = rw (beq_refl (length (as_bytes a)), difference_self (as_bytes a)) refl

    there : constant_time_eq_str a b ≡ true → a ≡ b
    there h =
        as_bytes-injective a b
          (difference-zero 0 (as_bytes a) (as_bytes b) (ground arith) (ground arith)).1

    back : a ≡ b → constant_time_eq_str a b ≡ true
    back h = ap (constant_time_eq_str a) (sym h) ∙ self

guard-ok : {E : Type 0} (b : Bool) (e : E) → guard b e ≡ ok tt → b ≡ true
guard-ok true e h = refl
guard-ok false e h = absurd cc

both_equal_iff :
    (c s : Option Text)
    → (both_equal c s ≡ ok tt) ↔ ((token : Text) × (c ≡ some token) × (s ≡ some token))
unfolding both_equal
both_equal_iff none s = (λ h. absurd cc, λ (t, p, q). absurd cc)
both_equal_iff (some c) none = (λ h. absurd cc, λ (t, p, q). absurd cc)
both_equal_iff (some c) (some s) = (
  λ h. (c, refl, sym (ap some ((constant_time_eq_str_iff c s).0 (guard-ok _ csrf_error h)))),
  λ (t, p, q). rw ((constant_time_eq_str_iff c s).1 cc) refl,
)

pub verify_csrf_double_submit_iff :
    (cookie_token submitted_token : Option Text)
    → (verify_csrf_double_submit cookie_token submitted_token ≡ ok tt) ↔ (
        (token : Text) × (non_blank cookie_token ≡ some token)
        × (non_blank submitted_token ≡ some token))
unfolding verify_csrf_double_submit
verify_csrf_double_submit_iff c s = both_equal_iff (non_blank c) (non_blank s)

not_both : (b : Bool) → b ≡ true → b ≢ false
not_both b h e = absurd cc

safe-as_bytes : (s : Text) → all is_url_safe s ≡ true → as_bytes s ≡ s
unfolding as_bytes is_ascii_alphanumeric
safe-as_bytes [] h = refl
safe-as_bytes (c ∷ s) h = ground (arith, safe-as_bytes s)

-- what the MAC of a token reads
abbrev pub token_input : Text → Bytes
token_input session_cookie = csrf_session_mac_purpose ++ 0 ∷ as_bytes session_cookie

purpose_unsafe : (b : Bytes) → all is_url_safe (csrf_session_mac_purpose ++ 0 ∷ b) ≡ false
unfolding is_ascii_alphanumeric
purpose_unsafe b = refl

pub other_input :
    (body sess : Text) → all is_url_safe body ≡ true → as_bytes body ≢ token_input sess
other_input body sess safe h =
    not_both (all is_url_safe (token_input sess))
      (ap (all is_url_safe) (sym h ∙ safe-as_bytes body safe) ∙ safe)
      (purpose_unsafe (as_bytes sess))

module _ {Mac : Type 0} (lib : Sealing Mac) (law : Seals lib) where
  matches_bound_iff :
      (sess : Text) (secret : Bytes) (submitted : Option Text)
      → (matches_bound lib (some sess) secret submitted ≡ ok tt) ↔ (
          (token : Text) × (session_bound_csrf_token lib sess secret ≡ ok token)
          × (submitted ≡ some token))
  unfolding matches_bound
  matches_bound_iff sess secret none = (λ h. absurd cc, λ (t, p, q). absurd cc)
  matches_bound_iff sess secret (some got) = (
    λ h.
        (let (token, made, same) = >>=-eq-ok (session_bound_csrf_token lib sess secret) _ h in
          (
            token,
            made,
            sym (ap some ((constant_time_eq_str_iff token got).0 (guard-ok _ csrf_error same))),
          )),
    λ (token, made, q). rw (made, (constant_time_eq_str_iff token got).1 cc) refl,
  )

  csrf_mac_input :
      (mac : Mac) (sess : Text)
      → csrf_mac lib mac sess ≡ lib.finalize (lib.update mac (token_input sess))
  unfolding csrf_mac
  csrf_mac_input mac sess = ap lib.finalize (
      ap (λ m. lib.update m (as_bytes sess)) (law.updated mac csrf_session_mac_purpose (0 ∷ []))
      ∙ law.updated mac (csrf_session_mac_purpose ++ 0 ∷ []) (as_bytes sess))

  token_made :
      (sess : Text) (secret : Bytes) (mac : Mac)
      → secret ≢ []
      → sess ≢ []
      → lib.new_from_slice secret ≡ some mac
      → session_bound_csrf_token lib sess secret
        ≡ ok (lib.encode (lib.finalize (lib.update mac (token_input sess))))
  unfolding session_bound_csrf_token
  token_made sess [] mac full present keyed = absurd (full refl)
  token_made [] (k ∷ secret) mac full present keyed = absurd (present refl)
  token_made (c ∷ sess) (k ∷ secret) mac full present keyed =
      rw (keyed, csrf_mac_input mac (c ∷ sess)) refl

  is_empty-clash : (u : Text) {s : Text} → (if is_empty u then none else some u) ≡ some s → s ≢ []
  is_empty-clash [] h e = absurd cc
  is_empty-clash (c ∷ u) h e = absurd cc

  non_blank-full : (t : Option Text) {s : Text} → non_blank t ≡ some s → s ≢ []
  unfolding non_blank
  non_blank-full none h e = absurd cc
  non_blank-full (some t) h e = is_empty-clash (trim t) h e

  pub verify_csrf_session_bound_iff :
      (session_cookie submitted_token : Option Text) (secret : Bytes) {sess : Text}
      → non_blank session_cookie ≡ some sess
      → secret ≢ []
      → (mac : Mac) × (lib.new_from_slice secret ≡ some mac)
        × ((verify_csrf_session_bound lib session_cookie secret submitted_token ≡ ok tt) ↔ (
            non_blank submitted_token
            ≡ some (lib.encode (lib.finalize (lib.update mac (token_input sess))))))
  unfolding verify_csrf_session_bound
  verify_csrf_session_bound_iff session submitted secret {sess} shown full =
      let (mac, keyed) = law.keyed secret in
      let made = token_made sess secret mac full (non_blank-full session shown) keyed in
      let step = ap (λ o. matches_bound lib o secret (non_blank submitted)) shown in
      let rule = matches_bound_iff sess secret (non_blank submitted) in
      (
        mac,
        keyed,
        (
          λ h.
              (let (token, made', same) = rule.0 (sym step ∙ h) in
                same ∙ ap some (ok-injective (sym made' ∙ made))),
          λ h. step ∙ rule.1 (_, made, h),
        ),
      )
