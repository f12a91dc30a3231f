-- ===== src/Auth/Nip98/Laws.antt =====
-- crates/management-ui/src/auth.rs: which events prove a key.
use surmount_server.Auth.{Event, Nostr, VerifiedIdentity, allowlist_contains}
use surmount_server.Auth.Nip98.{
  abs_diff, nip98_kind, nip98_tag_value, urls_match_for_nip98, verify_nip98_event,
  verify_nip98_event_unlisted,
}
use surmount_server.Net.{ip_eq}
use surmount_server.Prelude.{
  >>=-eq-ok, List, ap, arith, guard-chain, list_eq, ltb, nat_beq_iff, nat_eq, not, ok, ok-injective,
  ok_or-chain, refl, some, sym, true, ℕ, ◌+◌, ◌==◌, ◌↔◌, ◌∙◌, ◌≡◌, ◌≤◌,
}
use surmount_server.Text.{Text, eq_ignore_ascii_case, text, to_ascii_lowercase}

module _ (nostr : Nostr) where
  -- The event is signed by its key for this address and method, and dated within the skew of now.
  abbrev pub IsProof : Event → Text → Text → ℕ → ℕ → Type 0
  IsProof event url method now max_skew =
      (event.kind ≡ nip98_kind)
      × (nostr.verify event ≡ true)
      × (now ≤ event.created_at + max_skew)
      × (event.created_at ≤ now + max_skew)
      × ((u : Text) × (nip98_tag_value event.tags (text "u") ≡ some u)
          × (urls_match_for_nip98 nostr u url ≡ true))
      × ((m : Text) × (nip98_tag_value event.tags (text "method") ≡ some m)
          × (eq_ignore_ascii_case m method ≡ true))

  skew_iff :
      (now created max_skew : ℕ)
      → (not (ltb max_skew (abs_diff now created)) ≡ true)
        ↔ ((now ≤ created + max_skew) × (created ≤ now + max_skew))
  skew_iff now created max_skew = ground arith

  pub verify_nip98_event_unlisted_iff :
      (event : Event) (url method : Text) (now max_skew : ℕ) (id : VerifiedIdentity)
      → (verify_nip98_event_unlisted nostr event url method now max_skew ≡ ok id) ↔ (
          IsProof event url method now max_skew × (id.hex_pubkey ≡ to_ascii_lowercase event.pubkey))
  unfolding verify_nip98_event_unlisted
  verify_nip98_event_unlisted_iff event url method now max_skew id = (there, back)
    where
      there :
          verify_nip98_event_unlisted nostr event url method now max_skew ≡ ok id
          → IsProof event url method now max_skew
            × (id.hex_pubkey ≡ to_ascii_lowercase event.pubkey)
      there h =
          let (kind, h1) = guard-chain _ (event.kind == nip98_kind) _ h in
          let (signed, h2) = guard-chain _ (nostr.verify event) _ h1 in
          let (near, h3) =
            guard-chain _ (not (ltb max_skew (abs_diff now event.created_at))) _ h2 in
          let (u, has_u, h4) = ok_or-chain _ (nip98_tag_value event.tags (text "u")) _ h3 in
          let (same_u, h5) = guard-chain _ (urls_match_for_nip98 nostr u url) _ h4 in
          let (m, has_m, h6) = ok_or-chain _ (nip98_tag_value event.tags (text "method")) _ h5 in
          let (same_m, h7) = guard-chain _ (eq_ignore_ascii_case m method) _ h6 in
          let (after, before) = (skew_iff now event.created_at max_skew).0 near in
          (
            (
              (nat_beq_iff event.kind nip98_kind).0 kind,
              signed,
              after,
              before,
              (u, has_u, same_u),
              (m, has_m, same_m),
            ),
            sym (ap VerifiedIdentity.hex_pubkey (ok-injective h7)),
          )

      back :
          IsProof event url method now max_skew × (id.hex_pubkey ≡ to_ascii_lowercase event.pubkey)
          → verify_nip98_event_unlisted nostr event url method now max_skew ≡ ok id
      back ((kind, signed, after, before, (u, has_u, same_u), (m, has_m, same_m)), key) =
          rw
            (
              (nat_beq_iff event.kind nip98_kind).1 kind,
              signed,
              (skew_iff now event.created_at max_skew).1 (after, before),
              has_u,
              same_u,
              has_m,
              same_m,
            )
            (ap (λ (k : Text). ok (record { hex_pubkey = k })) (sym key))

  -- An event is accepted for a key exactly when it is of the HTTP kind, its signature verifies, its
  -- time is within the skew of now on both sides, its first tags for the address and for the method
  -- match the request, and the key is the event's in lower case and on the allowlist.
  pub verify_nip98_event_iff :
      (event : Event) (url method : Text) (now max_skew : ℕ) (allowlist : List Text)
      → (id : VerifiedIdentity)
      → (verify_nip98_event nostr event url method now max_skew allowlist ≡ ok id) ↔ (
          (IsProof event url method now max_skew
            × (id.hex_pubkey ≡ to_ascii_lowercase event.pubkey))
          × (allowlist_contains allowlist id.hex_pubkey ≡ true))
  unfolding verify_nip98_event
  verify_nip98_event_iff event url method now max_skew allowlist id = (there, back)
    where
      there :
          verify_nip98_event nostr event url method now max_skew allowlist ≡ ok id
          → (IsProof event url method now max_skew
              × (id.hex_pubkey ≡ to_ascii_lowercase event.pubkey))
            × (allowlist_contains allowlist id.hex_pubkey ≡ true)
      there h =
          let (key, proof, h1) =
            >>=-eq-ok (verify_nip98_event_unlisted nostr event url method now max_skew) _ h in
          let (listed, h2) = guard-chain _ (allowlist_contains allowlist key.hex_pubkey) _ h1 in
          let same = ok-injective h2 in
          (
            (verify_nip98_event_unlisted_iff event url method now max_skew id).0
                (proof ∙ ap ok same),
            sym (ap (λ (k : VerifiedIdentity). allowlist_contains allowlist k.hex_pubkey) same)
                ∙ listed,
          )

      back :
          (IsProof event url method now max_skew
              × (id.hex_pubkey ≡ to_ascii_lowercase event.pubkey))
            × (allowlist_contains allowlist id.hex_pubkey ≡ true)
          → verify_nip98_event nostr event url method now max_skew allowlist ≡ ok id
      back (proof, listed) =
          rw ((verify_nip98_event_unlisted_iff event url method now max_skew id).1 proof, listed)
            refl
