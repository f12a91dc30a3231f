-- ===== src/Auth/Session/Laws.antt =====
-- crates/management-ui/src/auth.rs: what a session cookie proves, and for how long.
use mathlib.Core.Path.{subst}
use surmount_server.Auth.{Nostr, session_expired}
use surmount_server.Auth.Session.{
  Sealing, Seals, SessionPayload, decode_session_cookie, encode_session_cookie, is_subject,
  is_url_safe, open_body, open_sealed, sealed,
}
use surmount_server.Net.{ip_eq}
use surmount_server.Prelude.{
  Bool-cases, Option-cases, [], all, ap, arith, err, false, guard-chain, guard-if, if◌then◌else◌,
  inl, inr, is_empty, list_eq, ltb, ltb→lt, nat_beq_iff, nat_eq, not, ok, ok-injective, ok_or-chain,
  refl, some, sym, true, ℕ, ◌++◌, ◌<◌, ◌==◌, ◌||◌, ◌∙◌, ◌∷◌, ◌≡◌, ◌≢◌,
}
use surmount_server.Text.{Text, contains_char, is_ascii_digit, split_once}
use surmount_server.Text.Chars.{Bytes, as_bytes, is_ascii_alphanumeric}

pub split_once-append :
    (c : ℕ) (body rest : Text)
    → contains_char c body ≡ false
    → split_once c (body ++ c ∷ rest) ≡ some (body, rest)
unfolding split_once contains_char
split_once-append c [] rest h = ground arith
split_once-append c (d ∷ body) rest h = ground (arith, split_once-append c body rest)

pub split_once-some :
    (c : ℕ) (s : Text) {a b : Text}
    → split_once c s ≡ some (a, b)
    → (s ≡ a ++ c ∷ b) × (contains_char c a ≡ false)
unfolding split_once contains_char
split_once-some c [] h = absurd cc
split_once-some c (d ∷ s) h = elim (Bool-cases (d == c)) [
  | inl e ↦ ground (arith, nat_beq_iff d c)
  | inr e ↦ elim (Option-cases (split_once c s)) [
    | inl none_left ↦ absurd (ground arith)
    | inr ((x, y), rest) ↦ ground (arith, split_once-some c s rest)
  ]
]

is_empty-nonempty : (s : Text) → s ≢ [] → is_empty s ≡ false
is_empty-nonempty [] h = absurd (h refl)
is_empty-nonempty (c ∷ s) h = refl

safe-no_dot : (s : Text) → all is_url_safe s ≡ true → contains_char b'.' s ≡ false
unfolding contains_char is_ascii_alphanumeric is_ascii_digit
safe-no_dot [] h = refl
safe-no_dot (c ∷ s) h = ground (arith, safe-no_dot s)

module _ {Mac : Type 0} (lib : Sealing Mac) (law : Seals lib) where
  encoded-no_dot : (b : Bytes) → contains_char b'.' (lib.encode b) ≡ false
  encoded-no_dot b = safe-no_dot (lib.encode b) (law.encoded_safe b)

  no_secret :
      (payload : SessionPayload) {cookie : Text} → encode_session_cookie lib payload [] ≢ ok cookie
  unfolding encode_session_cookie
  no_secret payload h = cc

  -- What is seen of a cookie that was encoded: the seal on a body that opens to the payload.
  pub encoded_parts :
      (payload : SessionPayload) (secret : Bytes) {cookie : Text}
      → encode_session_cookie lib payload secret ≡ ok cookie
      → (json : Bytes) × (mac : Mac) × (lib.to_vec payload ≡ some json)
        × (lib.new_from_slice secret ≡ some mac)
        × (secret ≢ [])
        × (cookie ≡ sealed lib mac (lib.encode json))
  unfolding encode_session_cookie
  encoded_parts payload [] h = absurd cc
  encoded_parts payload (k ∷ secret) h =
      let (json, stored, h1) = ok_or-chain _ (lib.to_vec payload) _ h in
      let (mac, keyed, h2) = ok_or-chain _ (lib.new_from_slice (k ∷ secret)) _ h1 in
      (json, mac, stored, keyed, (λ e. cc), sym (ok-injective h2))

module _ {Mac : Type 0} (lib : Sealing Mac) where
  -- A cookie that the server takes at a time for a session: it is signed under the secret.
  abbrev pub IsSigned : Text → Bytes → Type 0
  IsSigned cookie secret =
      (body sig : Text) × (mac : Mac) × (cookie ≡ body ++ b'.' ∷ sig)
      × (all is_url_safe body ≡ true)
      × (lib.new_from_slice secret ≡ some mac)
      × (lib.decode sig ≡ some (lib.finalize (lib.update mac (as_bytes body))))

module _ {Mac : Type 0} (nostr : Nostr) (lib : Sealing Mac) (law : Seals lib) where
  -- What the server does with a body and the MAC of its own on it.
  open_own :
      (secret : Bytes) (mac : Mac) (body : Text) (now : ℕ)
      → lib.new_from_slice secret ≡ some mac
      → body ≢ []
      → open_sealed nostr lib
          (body, lib.encode (lib.finalize (lib.update mac (as_bytes body))))
          secret
          now
        ≡ open_body nostr lib body now
  unfolding open_sealed
  open_own secret mac body now keyed full =
      rw
        (
          is_empty-nonempty body full,
          is_empty-nonempty (lib.encode tag) (law.encoded_full tag (law.tagged _)),
          law.decoded tag,
          keyed,
          (law.verifies (lib.update mac (as_bytes body)) tag).1 refl,
        )
        refl
    where
      tag : Bytes
      tag = lib.finalize (lib.update mac (as_bytes body))

  -- A body that was encoded opens to its payload until it expires.
  open_encoded :
      (payload : SessionPayload) (json : Bytes) (now : ℕ)
      → lib.to_vec payload ≡ some json
      → is_subject nostr payload.sub ≡ true
      → open_body nostr lib (lib.encode json) now
        ≡ (if ltb now payload.exp then ok payload else err session_expired)
  unfolding open_body
  open_encoded payload json now stored subject =
      rw (law.decoded json, (law.read_back payload json stored).0, subject)
        (guard-if (ltb now payload.exp) session_expired (ok payload))

  pub decode-encode_session_cookie :
      (payload : SessionPayload) (secret : Bytes) (now : ℕ) {cookie : Text}
      → encode_session_cookie lib payload secret ≡ ok cookie
      → is_subject nostr payload.sub ≡ true
      → decode_session_cookie nostr lib cookie secret now
        ≡ (if ltb now payload.exp then ok payload else err session_expired)
  unfolding decode_session_cookie sealed
  decode-encode_session_cookie payload [] now h subject = absurd (no_secret lib law payload h)
  decode-encode_session_cookie payload (k ∷ secret) now h subject =
      let (json, mac, stored, keyed, full, same) = encoded_parts lib law payload (k ∷ secret) h in
      rw (same, split_once-append b'.' (lib.encode json) _ (encoded-no_dot lib law json))
        (open_own (k ∷ secret) mac (lib.encode json) now keyed
            (law.encoded_full json (law.read_back payload json stored).1)
          ∙ open_encoded payload json now stored subject)

  open_body-ok :
      (body : Text) (now : ℕ) {p : SessionPayload}
      → open_body nostr lib body now ≡ ok p
      → (all is_url_safe body ≡ true) × (now < p.exp) × (is_subject nostr p.sub ≡ true)
  unfolding open_body
  open_body-ok body now h =
      let (json, decodes, h1) = ok_or-chain _ (lib.decode body) _ h in
      let (p, reads, h2) = ok_or-chain _ (lib.from_slice json) _ h1 in
      let (fresh, h3) = guard-chain _ (ltb now p.exp) _ h2 in
      let (subject, h4) = guard-chain _ (is_subject nostr p.sub) _ h3 in
      let same = ok-injective h4 in
      (
        law.decoded_safe body json decodes,
        subst (λ (q : SessionPayload). now < q.exp) same (ltb→lt now p.exp fresh),
        sym (ap (λ q. is_subject nostr q.sub) same) ∙ subject,
      )

  open_sealed-ok :
      (body sig : Text) (secret : Bytes) (now : ℕ) {p : SessionPayload}
      → open_sealed nostr lib (body, sig) secret now ≡ ok p
      → (mac : Mac) × (lib.new_from_slice secret ≡ some mac)
        × (lib.decode sig ≡ some (lib.finalize (lib.update mac (as_bytes body))))
        × (open_body nostr lib body now ≡ ok p)
  unfolding open_sealed
  open_sealed-ok body sig secret now h =
      let (full, h1) = guard-chain _ (not (is_empty body || is_empty sig)) _ h in
      let (tag, decodes, h2) = ok_or-chain _ (lib.decode sig) _ h1 in
      let (mac, keyed, h3) = ok_or-chain _ (lib.new_from_slice secret) _ h2 in
      let (right, h4) =
        guard-chain _ (lib.verify_slice (lib.update mac (as_bytes body)) tag) _ h3 in
      (
        mac,
        keyed,
        decodes ∙ ap some (sym ((law.verifies (lib.update mac (as_bytes body)) tag).0 right)),
        h4,
      )

  -- Where base64, serde_json and HMAC do what they promise, a session cookie opens only if it is a
  -- body of URL-safe characters, a dot, and a text that decodes to the body's MAC under the secret,
  -- and if the session ends after now and is for a well-formed key.
  pub session_needs_mac :
      (cookie : Text) (secret : Bytes) (now : ℕ) {p : SessionPayload}
      → decode_session_cookie nostr lib cookie secret now ≡ ok p
      → IsSigned lib cookie secret × (now < p.exp) × (is_subject nostr p.sub ≡ true)
  unfolding decode_session_cookie
  session_needs_mac cookie [] now h = absurd cc
  session_needs_mac cookie (k ∷ secret) now h =
      let ((body, sig), parts, h1) = ok_or-chain _ (split_once b'.' cookie) _ h in
      let (mac, keyed, tagged, h2) = open_sealed-ok body sig (k ∷ secret) now h1 in
      let (safe, fresh, subject) = open_body-ok body now h2 in
      ((body, sig, mac, (split_once-some b'.' cookie parts).0, safe, keyed, tagged), fresh, subject)
