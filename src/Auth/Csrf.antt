-- ===== src/Auth/Csrf.antt =====
-- crates/management-ui/src/auth.rs: tokens against forged requests, compared in constant time.
pub mod Laws
-- the loop over the bytes of both
use Prim.Native.Nat.{bit_or, bit_xor}
use surmount_server.Auth.{AuthError, config_error, csrf_error}
use surmount_server.Auth.Session.{Sealing}
use surmount_server.Net.{ip_eq}
use surmount_server.Prelude.{
  Bool, Option, Result, [], err, false, guard, if◌then◌else◌, is_empty, length, list_eq, nat_eq,
  not, ok, ok_or, some, ℕ, ◌==◌, ◌>>=◌, ◌>>◌, ◌||◌, ◌∷◌,
}
use surmount_server.Text.{Text, text}
use surmount_server.Text.Chars.{Bytes, as_bytes, non_blank}

unfoldable pub difference : ℕ → Bytes → Bytes → ℕ
difference diff (x ∷ a) (y ∷ b) = difference (bit_or diff (bit_xor x y)) a b
difference diff _ _ = diff

unfoldable pub constant_time_eq_str : Text → Text → Bool
unfolding as_bytes difference
constant_time_eq_str a b =
    let x = as_bytes a in
    let y = as_bytes b in if not (length x == length y) then false else difference 0 x y == 0

unfoldable pub both_equal : Option Text → Option Text → Result AuthError (Unit {0})
unfolding constant_time_eq_str
both_equal (some c) (some s) = guard (constant_time_eq_str c s) csrf_error
both_equal _ _ = err csrf_error

unfoldable pub verify_csrf_double_submit : Option Text → Option Text → Result AuthError (Unit {0})
unfolding non_blank both_equal
verify_csrf_double_submit cookie_token submitted_token =
    both_equal (non_blank cookie_token) (non_blank submitted_token)

abbrev pub csrf_session_mac_purpose : Bytes
csrf_session_mac_purpose = text "surmount-csrf-session-v1"

module _ {Mac : Type 0} (lib : Sealing Mac) where
  unfoldable pub csrf_mac : Mac → Text → Bytes
  unfolding as_bytes
  csrf_mac mac session_cookie = lib.finalize (
      lib.update (lib.update (lib.update mac csrf_session_mac_purpose) (0 ∷ []))
        (as_bytes session_cookie))

  unfoldable pub session_bound_csrf_token : Text → Bytes → Result AuthError Text
  unfolding csrf_mac
  session_bound_csrf_token session_cookie secret =
      if is_empty secret || is_empty session_cookie then err config_error else do
        mac ← ok_or (lib.new_from_slice secret) config_error
        ok (lib.encode (csrf_mac mac session_cookie))

  unfoldable pub matches_bound : Option Text → Bytes → Option Text → Result AuthError (Unit {0})
  unfolding session_bound_csrf_token constant_time_eq_str
  matches_bound (some sess) secret (some got) = do
    expected ← session_bound_csrf_token sess secret
    guard (constant_time_eq_str expected got) csrf_error
  matches_bound _ _ _ = err csrf_error

  unfoldable pub verify_csrf_session_bound :
      Option Text → Bytes → Option Text → Result AuthError (Unit {0})
  unfolding non_blank matches_bound
  verify_csrf_session_bound session_cookie secret submitted_token =
      matches_bound (non_blank session_cookie) secret (non_blank submitted_token)
