-- ===== src/Auth/Session.antt =====
-- crates/management-ui/src/auth.rs: sessions, which are cookies sealed by a MAC. HMAC-SHA256, base64url
-- without padding and serde_json are parameters.
pub mod Laws
use surmount_server.Auth.{
  AuthError, Nostr, config_error, malformed, normalize_pubkey_token, session_expired,
  session_invalid,
}
use surmount_server.Net.{ip_eq}
use surmount_server.Prelude.{
  Bool, Option, Result, [], all, err, guard, is_empty, length, list_eq, ltb, nat_eq, not, ok, ok_or,
  some, true, ℕ, ◌&&◌, ◌++◌, ◌==◌, ◌>>=◌, ◌>>◌, ◌||◌, ◌↔◌, ◌∷◌, ◌≡◌, ◌≢◌,
}
use surmount_server.Text.{Text, split_once}
use surmount_server.Text.Chars.{Bytes, as_bytes, is_ascii_alphanumeric, is_ascii_hexdigit}

pub record SessionPayload : Type 0 where
  pub sub : Text
  pub exp : ℕ

-- `Mac` is the state of a MAC on its way.
pub record Sealing (Mac : Type 0) : Type 0 where
  pub new_from_slice : Bytes → Option Mac
  pub update : Mac → Bytes → Mac
  pub finalize : Mac → Bytes
  pub verify_slice : Mac → Bytes → Bool
  pub encode : Bytes → Text
  pub decode : Text → Option Bytes
  pub to_vec : SessionPayload → Option Bytes
  pub from_slice : Bytes → Option SessionPayload

-- the alphabet of base64url
abbrev pub is_url_safe : ℕ → Bool
is_url_safe c = is_ascii_alphanumeric c || c == b'-' || c == b'_'

-- What is documented of the three libraries: a MAC takes keys of every length, digests what it is
-- given in order and verifies its own output alone; base64url is undone by decoding, and both sides
-- keep to its alphabet; serde_json reads back what it writes, which is never empty.
pub record Seals {Mac : Type 0} (lib : Sealing Mac) : Type 0 where
  pub keyed : (key : Bytes) → (m : Mac) × (lib.new_from_slice key ≡ some m)
  pub updated : (m : Mac) (a b : Bytes) → lib.update (lib.update m a) b ≡ lib.update m (a ++ b)
  pub verifies : (m : Mac) (b : Bytes) → (lib.verify_slice m b ≡ true) ↔ (lib.finalize m ≡ b)
  pub tagged : (m : Mac) → lib.finalize m ≢ []
  pub decoded : (b : Bytes) → lib.decode (lib.encode b) ≡ some b
  pub encoded_safe : (b : Bytes) → all is_url_safe (lib.encode b) ≡ true
  pub decoded_safe : (s : Text) (b : Bytes) → lib.decode s ≡ some b → all is_url_safe s ≡ true
  pub encoded_full : (b : Bytes) → b ≢ [] → lib.encode b ≢ []
  pub read_back :
      (p : SessionPayload) (b : Bytes)
      → lib.to_vec p ≡ some b
      → (lib.from_slice b ≡ some p) × (b ≢ [])

module _ {Mac : Type 0} (lib : Sealing Mac) where
  -- the MAC of a body under a key, in base64url
  unfoldable pub sealed : Mac → Text → Text
  unfolding as_bytes
  sealed mac body = body ++ b'.' ∷ lib.encode (lib.finalize (lib.update mac (as_bytes body)))

  unfoldable pub encode_session_cookie : SessionPayload → Bytes → Result AuthError Text
  unfolding sealed
  encode_session_cookie payload [] = err config_error
  encode_session_cookie payload (k ∷ secret) = do
    json ← ok_or (lib.to_vec payload) malformed
    mac ← ok_or (lib.new_from_slice (k ∷ secret)) config_error
    ok (sealed mac (lib.encode json))

module _ (nostr : Nostr) where
  -- Text that is no key still passes if it is 64 hexadecimal digits.
  unfoldable pub is_subject : Text → Bool
  unfolding normalize_pubkey_token as_bytes is_ascii_hexdigit
  is_subject sub = elim (normalize_pubkey_token nostr sub) [
    | ok key ↦ true
    | err e ↦ length (as_bytes sub) == 64 && all is_ascii_hexdigit sub
  ]

module _ {Mac : Type 0} (nostr : Nostr) (lib : Sealing Mac) where
  -- the payload of a body whose MAC was right
  unfoldable pub open_body : Text → ℕ → Result AuthError SessionPayload
  unfolding is_subject
  open_body body now_unix = do
    json ← ok_or (lib.decode body) session_invalid
    payload ← ok_or (lib.from_slice json) session_invalid
    guard (ltb now_unix payload.exp) session_expired
    guard (is_subject nostr payload.sub) session_invalid
    ok payload

  unfoldable pub open_sealed : Text × Text → Bytes → ℕ → Result AuthError SessionPayload
  unfolding open_body as_bytes
  open_sealed (body, sig_b64) secret now_unix = do
    guard (not (is_empty body || is_empty sig_b64)) session_invalid
    got ← ok_or (lib.decode sig_b64) session_invalid
    mac ← ok_or (lib.new_from_slice secret) config_error
    guard (lib.verify_slice (lib.update mac (as_bytes body)) got) session_invalid
    open_body body now_unix

  unfoldable pub decode_session_cookie : Text → Bytes → ℕ → Result AuthError SessionPayload
  unfolding open_sealed split_once
  decode_session_cookie cookie [] now_unix = err config_error
  decode_session_cookie cookie (k ∷ secret) now_unix = do
    parts ← ok_or (split_once b'.' cookie) session_invalid
    open_sealed parts (k ∷ secret) now_unix
