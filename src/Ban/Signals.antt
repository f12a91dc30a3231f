-- ===== src/Ban/Signals.antt =====
-- crates/management-ui/src/ban.rs: ban signals and access decisions over any backend.
use surmount_server.Ban.{
  AccessDecision, BackendLaws, BanBackend, BanEnforcement, BanError, BanReason, BanSignalOutcome,
  already_banned, applies_rejects, apply_ban_signal, ban_candidate, ban_outcome, banned,
  decide_access, decide_ban_signal, dry_run, enforce, ignored_off, off, recorded,
  should_reject_banned, skipped_whitelisted, whitelisted,
}
use surmount_server.Net.{IpAddr, ip_eq}
use surmount_server.Prelude.{
  Bool, Bool-cases, List, Result, [], ap, arith, err, false, inl, inr, list_eq, nat_eq, ok, refl,
  true, ◌∙◌, ◌∷◌, ◌≡◌, ◌≢◌, ◌⊎◌,
}
use surmount_server.RateLimit.{RateLimitDecision}

module _ {S : Type 0} (backend : BanBackend S) where
  -- the state after a sequence of signals, whether they succeed or fail
  unfoldable pub signals : BanEnforcement → List (IpAddr × BanReason) → S → S
  signals enforcement [] s = s
  signals enforcement ((ip, reason) ∷ rest) s =
      signals enforcement rest (apply_ban_signal backend enforcement ip reason s).1

-- Which outcomes of a signal go with the decision that it shows.
abbrev pub Fits :
    {S : Type 0}
    → AccessDecision
    → BanEnforcement
    → BanReason
    → S
    → Result BanError BanSignalOutcome × S
    → Type 0
Fits whitelisted enforcement reason s r = r ≡ (ok skipped_whitelisted, s)
Fits banned off reason s r = r ≡ (ok ignored_off, s)
Fits banned _ reason s r = r ≡ (ok already_banned, s)
Fits (ban_candidate why) off reason s r = (why ≡ reason) × (r ≡ (ok ignored_off, s))
Fits (ban_candidate why) _ reason s r =
    (why ≡ reason) × ((r.0 ≡ ok (recorded reason)) ⊎ ((e : BanError) × (r.0 ≡ err e)))
Fits _ enforcement reason s r = ⊥

-- a call of `ban` that does not report an old ban reports a record or an error
reported :
    {reason : BanReason} (r : Result BanError Bool)
    → r ≢ ok false
    → (ban_outcome reason r ≡ ok (recorded reason))
      ⊎ ((e : BanError) × (ban_outcome reason r ≡ err e))
reported (ok true) h = inl refl
reported (ok false) h = absurd (h refl)
reported (err e) h = inr (e, refl)

module _ {S : Type 0} (backend : BanBackend S) (ip : IpAddr) (reason : BanReason) (s : S) where
  decides_whitelisted :
      backend.is_whitelisted s ip ≡ true → decide_ban_signal backend ip reason s ≡ whitelisted
  unfolding decide_ban_signal
  decides_whitelisted home = rw home refl

  decides_banned :
      backend.is_whitelisted s ip ≡ false
      → backend.is_banned s ip ≡ true
      → decide_ban_signal backend ip reason s ≡ banned
  unfolding decide_ban_signal
  decides_banned away old = rw (away, old) refl

  decides_candidate :
      backend.is_whitelisted s ip ≡ false
      → backend.is_banned s ip ≡ false
      → decide_ban_signal backend ip reason s ≡ ban_candidate reason
  unfolding decide_ban_signal
  decides_candidate away clean = rw (away, clean) refl

module _ {S : Type 0} {backend : BanBackend S} (laws : BackendLaws backend) where
  -- Whatever is signalled, the whitelist stays as it is.
  pub whitelist-apply_ban_signal :
      (enforcement : BanEnforcement) (ip other : IpAddr) (reason : BanReason) (s : S)
      → backend.is_whitelisted (apply_ban_signal backend enforcement ip reason s).1 other
        ≡ backend.is_whitelisted s other
  unfolding apply_ban_signal
  whitelist-apply_ban_signal enforcement ip other reason s =
      ground (arith, laws.ban_keeps_whitelist ip other reason s)

  -- A signal about one address changes no other address's ban.
  banned-apply_ban_signal_other :
      (enforcement : BanEnforcement) (ip other : IpAddr) (reason : BanReason) (s : S)
      → ip ≢ other
      → backend.is_banned (apply_ban_signal backend enforcement ip reason s).1 other
        ≡ backend.is_banned s other
  unfolding apply_ban_signal
  banned-apply_ban_signal_other enforcement ip other reason s ne =
      ground (arith, laws.ban_others ip other reason s)

  -- A whitelisted address keeps its state under a signal about itself.
  banned-apply_ban_signal_whitelisted :
      (enforcement : BanEnforcement) (ip : IpAddr) (reason : BanReason) (s : S)
      → backend.is_whitelisted s ip ≡ true
      → apply_ban_signal backend enforcement ip reason s ≡ (ok skipped_whitelisted, s)
  unfolding apply_ban_signal
  banned-apply_ban_signal_whitelisted enforcement ip reason s h = rw h

  -- With a backend that keeps its promises, no sequence of signals changes whether a whitelisted
  -- address is banned, and a request from it is decided as whitelisted afterwards, whatever the
  -- limiter says.
  pub whitelisted_never_banned :
      (enforcement : BanEnforcement) (signalled : List (IpAddr × BanReason)) (home : IpAddr)
      (rate : RateLimitDecision) (s : S)
      → backend.is_whitelisted s home ≡ true
      → (backend.is_banned (signals backend enforcement signalled s) home
          ≡ backend.is_banned s home)
        × (decide_access backend home rate (signals backend enforcement signalled s) ≡ whitelisted)
  unfolding signals decide_access
  whitelisted_never_banned enforcement [] home rate s h = (refl, rw h)
  whitelisted_never_banned enforcement ((ip, reason) ∷ rest) home rate s h =
      let s' = (apply_ban_signal backend enforcement ip reason s).1 in
      let (same, decided) =
        whitelisted_never_banned enforcement rest home rate s'
          (whitelist-apply_ban_signal enforcement ip home reason s ∙ h) in
      (same ∙ kept, decided)
    where
      kept :
          backend.is_banned (apply_ban_signal backend enforcement ip reason s).1 home
          ≡ backend.is_banned s home
      kept = elim (Bool-cases (ip_eq.agrees ip home)) [
        | inl same ↦
            let p = (ip_eq.agrees_iff ip home).0 same in
            ap (λ r. backend.is_banned r.1 home)
              (banned-apply_ban_signal_whitelisted enforcement ip reason s (rw p h))
        | inr other ↦
            banned-apply_ban_signal_other enforcement ip home reason s
              (λ p. cc (other, (ip_eq.agrees_iff ip home).1 p))
      ]

  -- With a backend that keeps its promises, a signal that reports a record reports its own reason,
  -- the next request of the address is decided as banned, and it is rejected exactly when the
  -- policy rejects.
  pub recorded_then_rejected :
      (enforcement : BanEnforcement) (ip : IpAddr) (reason why : BanReason) (s : S)
      (rate : RateLimitDecision)
      → (apply_ban_signal backend enforcement ip reason s).0 ≡ ok (recorded why)
      → (why ≡ reason)
        × (decide_access backend ip rate (apply_ban_signal backend enforcement ip reason s).1
            ≡ banned)
        × (should_reject_banned enforcement
              (decide_access backend ip rate (apply_ban_signal backend enforcement ip reason s).1)
            ≡ applies_rejects enforcement)
  unfolding apply_ban_signal decide_access should_reject_banned
  recorded_then_rejected enforcement ip reason why s rate h =
      ground (arith, laws.ban_wrote ip reason s, laws.ban_keeps_whitelist ip ip reason s)

  -- With recording off no signal changes anything.
  pub apply_ban_signal-off :
      (ip : IpAddr) (reason : BanReason) (s : S) → (apply_ban_signal backend off ip reason s).1 ≡ s
  unfolding apply_ban_signal
  apply_ban_signal-off ip reason s = ground arith

  Fits-banned :
      (enforcement : BanEnforcement) (ip : IpAddr) (reason : BanReason) (s : S)
      → backend.is_whitelisted s ip ≡ false
      → backend.is_banned s ip ≡ true
      → Fits banned enforcement reason s (apply_ban_signal backend enforcement ip reason s)
  unfolding apply_ban_signal
  Fits-banned off ip reason s away old = rw away refl
  Fits-banned dry_run ip reason s away old = rw (away, laws.ban_banned ip reason s old) refl
  Fits-banned enforce ip reason s away old = rw (away, laws.ban_banned ip reason s old) refl

  Fits-candidate :
      (enforcement : BanEnforcement) (ip : IpAddr) (reason : BanReason) (s : S)
      → backend.is_whitelisted s ip ≡ false
      → backend.is_banned s ip ≡ false
      → Fits
          (ban_candidate reason)
          enforcement
          reason
          s
          (apply_ban_signal backend enforcement ip reason s)
  unfolding apply_ban_signal
  Fits-candidate off ip reason s away new = (refl, rw away refl)
  Fits-candidate dry_run ip reason s away new =
      (refl, rw away (reported _ (laws.ban_new ip reason s away new)))
  Fits-candidate enforce ip reason s away new =
      (refl, rw away (reported _ (laws.ban_new ip reason s away new)))

  -- With a backend that keeps its promises, the decision that a signal shows fits the outcome that
  -- it reports: a candidate is ignored, recorded or failed; a banned address is ignored or already
  -- banned and a whitelisted one is skipped, and neither of these changes the state.
  pub decision-Fits-outcome :
      (enforcement : BanEnforcement) (ip : IpAddr) (reason : BanReason) (s : S)
      → Fits
          (decide_ban_signal backend ip reason s)
          enforcement
          reason
          s
          (apply_ban_signal backend enforcement ip reason s)
  decision-Fits-outcome enforcement ip reason s = elim (Bool-cases (backend.is_whitelisted s ip)) [
    | inl home ↦
        rw (decides_whitelisted backend ip reason s home)
          (banned-apply_ban_signal_whitelisted enforcement ip reason s home)
    | inr away ↦ elim (Bool-cases (backend.is_banned s ip)) [
      | inl old ↦
          rw (decides_banned backend ip reason s away old)
            (Fits-banned enforcement ip reason s away old)
      | inr clean ↦
          rw (decides_candidate backend ip reason s away clean)
            (Fits-candidate enforcement ip reason s away clean)
    ]
  ]
