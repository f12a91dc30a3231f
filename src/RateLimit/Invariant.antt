-- ===== src/RateLimit/Invariant.antt =====
-- crates/management-ui/src/rate_limit.rs: the well-formedness of a limiter.
use surmount_server.Assoc.{Assoc, IsDistinct, contains_key, insert, is_some, lookup, retain}
use surmount_server.Assoc.Laws.{
  IsDistinct-insert, IsDistinct-retain, keep, length-insert, length-retain, lookup-insert,
  lookup-retain,
}
use surmount_server.Prelude.{
  Bool, Bool-cases, Eq, Option, [], all, arith, false, if◌then◌else◌, inl, inr, leb, length,
  list_eq, map, nat_eq, none, not, refl, some, suc, ℕ, ◌%◌, ◌&&◌, ◌+◌, ◌<◌, ◌≡◌, ◌≤◌,
}
use surmount_server.RateLimit.{
  FixedWindowRateLimiter, WindowEntry, admit, check, is_live, limited, or_insert, refresh, u32_mod,
  with_max_keys,
}

-- A retained entry is live, so the second expiry test of `check` never fires.
pub refresh-keep :
    (window now : ℕ) (o : Option WindowEntry)
    → 0 < window
    → refresh window now (or_insert now (keep (is_live window now) o))
      ≡ or_insert now (keep (is_live window now) o)
refresh-keep window now none h = ground arith
refresh-keep window now (some w) h = ground arith

or_insert-bounded :
    (now : ℕ) (o : Option WindowEntry) (most : ℕ)
    → ((w : WindowEntry) → o ≡ some w → w.count ≤ most)
    → (or_insert now o).count ≤ most
or_insert-bounded now none most h = omega arith
or_insert-bounded now (some w) most h = h w refl

module _ {ℓ} {K : Type ℓ} ⦃e : Eq K⦄ where
  -- One entry for each key, no more keys than allowed, and no count above the limit.
  pub record IsWellFormed (l : FixedWindowRateLimiter K) : Type ℓ where
    pub some_requests : 0 < l.max_requests
    pub fits_u32 : l.max_requests < u32_mod
    pub some_window : 0 < l.window
    pub some_keys : 0 < l.max_keys
    pub distinct : IsDistinct l.state
    pub few_keys : length l.state ≤ l.max_keys
    pub bounded : (k : K) (w : WindowEntry) → lookup k l.state ≡ some w → w.count ≤ l.max_requests

  -- What is kept of a key's entry at the time `now`.
  abbrev pub live_entry : K → ℕ → FixedWindowRateLimiter K → Option WindowEntry
  live_entry key now l = keep (is_live l.window now) (lookup key l.state)

  -- `check` by the key's live entry: the second half gets that entry or a new one.
  pub check_by_live :
      (key : K) (now : ℕ) (l : FixedWindowRateLimiter K)
      → IsWellFormed l
      → check key now l ≡ (
          if not (is_some (live_entry key now l))
            && leb l.max_keys (length (retain (is_live l.window now) l.state))
          then (limited l.window, record l { state = retain (is_live l.window now) l.state })
          else admit key now
              (or_insert now (live_entry key now l))
              (retain (is_live l.window now) l.state)
              l)
  unfolding check
  check_by_live key now l v =
      rw
        (
          lookup-retain (is_live l.window now) key l.state v.distinct,
          refresh-keep l.window now (lookup key l.state) v.some_window,
        )
        refl

  pub retain-bounded :
      (p : WindowEntry → Bool) (l : FixedWindowRateLimiter K) (k : K) (w : WindowEntry)
      → IsWellFormed l
      → lookup k (retain p l.state) ≡ some w
      → w.count ≤ l.max_requests
  retain-bounded p l k w v h = ground (arith, lookup-retain p k l.state v.distinct, v.bounded k w)

  -- a map with room for the key, whose counts are in range
  abbrev HasRoom : K → Assoc K WindowEntry → FixedWindowRateLimiter K → Type 0
  HasRoom key map l = (if contains_key key map then length map else suc (length map)) ≤ l.max_keys

  abbrev InRange : Assoc K WindowEntry → FixedWindowRateLimiter K → Type ℓ
  InRange map l = (k : K) (x : WindowEntry) → lookup k map ≡ some x → x.count ≤ l.max_requests

  put-IsWellFormed :
      (key : K) (w : WindowEntry) (map : Assoc K WindowEntry) (l : FixedWindowRateLimiter K)
      → IsWellFormed l
      → IsDistinct map
      → HasRoom key map l
      → w.count ≤ l.max_requests
      → InRange map l
      → IsWellFormed (record l { state = insert key w map })
  put-IsWellFormed key w map l v d room fits all = record {
    some_requests = v.some_requests;
    fits_u32 = v.fits_u32;
    some_window = v.some_window;
    some_keys = v.some_keys;
    distinct = IsDistinct-insert key w map d;
    few_keys = rw length-insert room;
    bounded = λ k x h. ground (arith, lookup-insert key k w map, all k x);
  }

  admit-IsWellFormed :
      (key : K) (now : ℕ) (w : WindowEntry) (map : Assoc K WindowEntry)
      (l : FixedWindowRateLimiter K)
      → IsWellFormed l
      → IsDistinct map
      → HasRoom key map l
      → w.count ≤ l.max_requests
      → InRange map l
      → IsWellFormed (admit key now w map l).1
  unfolding admit
  admit-IsWellFormed key now w map l v d room fits all =
      elim (Bool-cases (leb l.max_requests w.count)) [
        | inl full ↦ rw full (put-IsWellFormed key w map l v d room fits all)
        | inr free ↦ rw free (put-IsWellFormed key _ map l v d room (less free) all)
      ]
    where
      less : leb l.max_requests w.count ≡ false → (w.count + 1) % u32_mod ≤ l.max_requests
      less free = let top = v.fits_u32 in ground arith

  pub retain-IsWellFormed :
      (p : WindowEntry → Bool) (l : FixedWindowRateLimiter K)
      → IsWellFormed l
      → IsWellFormed (record l { state = retain p l.state })
  retain-IsWellFormed p l v = record {
    some_requests = v.some_requests;
    fits_u32 = v.fits_u32;
    some_window = v.some_window;
    some_keys = v.some_keys;
    distinct = IsDistinct-retain p l.state v.distinct;
    few_keys = omega (arith, length-retain p l.state, v.few_keys);
    bounded = λ k x h. retain-bounded p l k x v h;
  }

  -- Every call of `check` on a well-formed limiter, whether it allows or limits, leaves it well
  -- formed: positive limits, distinct keys of at most `max_keys`, and no count above the limit.
  pub check-IsWellFormed :
      (key : K) (now : ℕ) (l : FixedWindowRateLimiter K)
      → IsWellFormed l
      → IsWellFormed (check key now l).1
  check-IsWellFormed key now l v =
      let p = is_live l.window now in
      let map = retain p l.state in
      let same = lookup-retain p key l.state v.distinct in
      let few = (retain-IsWellFormed p l v).few_keys in
      rw (check_by_live key now l v)
        (elim (Bool-cases (not (is_some (live_entry key now l)) && leb l.max_keys (length map))) [
          | inl full ↦ rw full (retain-IsWellFormed p l v)
          | inr free ↦ rw free (
              admit-IsWellFormed key now _ map l v (IsDistinct-retain p l.state v.distinct)
                (rw same (ground arith))
                (or_insert-bounded now _ l.max_requests
                  (λ w h. retain-bounded p l key w v (rw same h)))
                (λ k x h. retain-bounded p l k x v h))
        ])

  -- What the constructor returns is well formed, and its map is empty.
  pub with_max_keys-IsWellFormed :
      (max_requests window max_keys : ℕ) (l : FixedWindowRateLimiter K)
      → max_requests < u32_mod
      → with_max_keys max_requests window max_keys ≡ some l
      → IsWellFormed l × (l.state ≡ [])
  unfolding with_max_keys lookup
  with_max_keys-IsWellFormed max_requests window max_keys l h made =
      let empty : l.state ≡ [] = ground arith in
      (
        record {
          some_requests = ground arith;
          fits_u32 = ground arith;
          some_window = ground arith;
          some_keys = ground arith;
          distinct = rw empty tt;
          few_keys = rw empty (omega arith);
          bounded = λ k w found. cc (rw empty at found);
        },
        empty,
      )
