-- ===== src/RateLimit/Retry.antt =====
-- crates/management-ui/src/rate_limit.rs: the waiting time that a refusal names.
use surmount_server.Assoc.{Assoc, IsDistinct, lookup, retain}
use surmount_server.Assoc.Laws.{keep, length-retain, lookup-retain}
use surmount_server.Prelude.{
  Bool, Bool-cases, Eq, Option, Option-cases, [], ap, arith, beq_refl, false, inl, inr, length,
  none, refl, some, ℕ, ◌+◌, ◌-◌, ◌<◌, ◌∙◌, ◌∷◌, ◌≡◌, ◌≤◌,
}
use surmount_server.RateLimit.{
  FixedWindowRateLimiter, WindowEntry, allowed, check, is_live, limited, or_insert,
}
use surmount_server.RateLimit.Decision.{
  bump, decision-check, lookup-check, refused, settings-check, verdict,
}
use surmount_server.RateLimit.Invariant.{
  IsWellFormed, check-IsWellFormed, check_by_live, live_entry, retain-IsWellFormed,
}

-- The entry behind a refusal by count has passed when the wait is over.
spent-dead :
    (most window now later r : ℕ) (o : Option WindowEntry)
    → 0 < most
    → ((w : WindowEntry) → o ≡ some w → w.window_start ≤ now)
    → verdict most window now (or_insert now (keep (is_live window now) o)) ≡ limited r
    → now + r ≤ later
    → is_live window later (bump most (or_insert now (keep (is_live window now) o))) ≡ false
spent-dead most window now later r none h by full wait = absurd (ground arith)
spent-dead most window now later r (some w) h by full wait = ground (arith, by w refl)

module _ {ℓ} {K : Type ℓ} ⦃e : Eq K⦄ where
  -- no window starts after `now`
  abbrev pub StartedBy : ℕ → FixedWindowRateLimiter K → Type ℓ
  StartedBy now l = (k : K) (w : WindowEntry) → lookup k l.state ≡ some w → w.window_start ≤ now

  -- An entry that is not live any more makes room for its key.
  dead-length :
      (p : WindowEntry → Bool) (key : K) (w : WindowEntry) (m : Assoc K WindowEntry)
      → lookup key m ≡ some w
      → p w ≡ false
      → length (retain p m) < length m
  unfolding lookup retain
  dead-length p key w [] h d = cc
  dead-length p key w ((k, x) ∷ m) h d = elim (Bool-cases (e.agrees k key)) [
    | inl here ↦ ground (arith, length-retain p m)
    | inr later ↦ ground (arith, dead-length p key w m (rw (later, lookup) at h) d)
  ]

  all-dead :
      (p : WindowEntry → Bool) (m : Assoc K WindowEntry)
      → IsDistinct m
      → ((k : K) (w : WindowEntry) → lookup k m ≡ some w → p w ≡ false)
      → retain p m ≡ []
  unfolding lookup retain
  all-dead p [] d h = refl
  all-dead p ((k, x) ∷ m) (fresh, d) h =
      let dead : p x ≡ false = h k x (rw (beq_refl k)) in
      rw dead (all-dead p m d (λ j w found. h j w (ground (arith, e.agrees_iff k j))))

  -- A key with no live entry is allowed where a slot is free.
  allowed_when_free :
      (key : K) (t : ℕ) (l : FixedWindowRateLimiter K)
      → IsWellFormed l
      → live_entry key t l ≡ none
      → length (retain (is_live l.window t) l.state) < l.max_keys
      → (check key t l).0 ≡ allowed (l.max_requests - 1)
  allowed_when_free key t l v gone room =
      let some_requests = v.some_requests in rw (decision-check key t l v, gone) (ground arith)

  started-retain :
      (p : WindowEntry → Bool) (now : ℕ) (l : FixedWindowRateLimiter K) (k : K) (w : WindowEntry)
      → IsWellFormed l
      → StartedBy now l
      → lookup k (retain p l.state) ≡ some w
      → w.window_start ≤ now
  started-retain p now l k w v started h =
      ground (arith, lookup-retain p k l.state v.distinct, started k w)

  -- After a refusal for want of room, every window has passed when the wait is over.
  retry_refused :
      (key : K) (now later : ℕ) (l : FixedWindowRateLimiter K)
      → IsWellFormed l
      → StartedBy now l
      → now + l.window ≤ later
      → (check key later (record l { state = retain (is_live l.window now) l.state })).0
        ≡ allowed (l.max_requests - 1)
  retry_refused key now later l v started wait =
      allowed_when_free key later l' v' gone
        (rw (all-dead (is_live l.window later) l'.state v'.distinct dead) v.some_keys)
    where
      l' : FixedWindowRateLimiter K
      l' = record l { state = retain (is_live l.window now) l.state }

      v' : IsWellFormed l'
      v' = retain-IsWellFormed (is_live l.window now) l v

      dead :
          (k : K) (w : WindowEntry) → lookup k l'.state ≡ some w → is_live l.window later w ≡ false
      dead k w h =
          let before = started-retain (is_live l.window now) now l k w v started h in ground arith

      gone : live_entry key later l' ≡ none
      gone = elim (Option-cases (lookup key l'.state)) [
        | inl e' ↦ rw e' refl
        | inr (w, e') ↦ rw (e', dead key w e') refl
      ]

  retry_limited :
      (key : K) (now later r : ℕ) (l : FixedWindowRateLimiter K)
      → IsWellFormed l
      → StartedBy now l
      → refused key now l ≡ false
      → (check key now l).0 ≡ limited r
      → now + r ≤ later
      → (check key later (check key now l).1).0 ≡ allowed (l.max_requests - 1)
  retry_limited key now later r l v started free h wait =
      let (same_max, same_window, same_keys) = settings-check key now l in
      let v' = check-IsWellFormed key now l v in
      let full = rw (decision-check key now l v, free) at h in
      let held : lookup key (check key now l).1.state
          ≡ some (bump l.max_requests (or_insert now (live_entry key now l))) =
        rw (lookup-check key now l key v, free, beq_refl key) refl in
      let dead =
        spent-dead l.max_requests l.window now later r (lookup key l.state) v.some_requests
          (started key) full wait in
      allowed_when_free key later (check key now l).1 v' (rw (held, same_window, dead) refl) (
        omega (
          arith,
          dead-length (is_live (check key now l).1.window later) key _ (check key now l).1.state
              held (rw same_window dead),
          v'.few_keys,
        ))
      ∙ ap (λ most. allowed (most - 1)) same_max

  -- For a well-formed limiter whose windows began by now: a client that is refused, and whose next
  -- request is the next call and comes after the time that the refusal names, is allowed with a
  -- whole new window.
  pub retry_after_honest :
      (key : K) (now later r : ℕ) (l : FixedWindowRateLimiter K)
      → IsWellFormed l
      → StartedBy now l
      → (check key now l).0 ≡ limited r
      → now + r ≤ later
      → (check key later (check key now l).1).0 ≡ allowed (l.max_requests - 1)
  retry_after_honest key now later r l v started h wait = elim (Bool-cases (refused key now l)) [
    | inl full ↦
        let waited : limited l.window ≡ limited r = rw (decision-check key now l v, full) at h in
        rw (check_by_live key now l v, full)
          (retry_refused key now later l v started (ground arith))
    | inr free ↦ retry_limited key now later r l v started free h wait
  ]
