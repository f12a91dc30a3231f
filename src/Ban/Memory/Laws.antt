-- ===== src/Ban/Memory/Laws.antt =====
-- crates/management-ui/src/ban.rs: `MemoryBanBackend`, call by call.
use surmount_server.Assoc.{contains_key, insert, lookup}
use surmount_server.Assoc.Laws.{lookup-insert}
use surmount_server.Ban.{BackendLaws, BanError, BanReason, SystemTime}
use surmount_server.Ban.Memory.{
  Env, MemoryBanBackend, StateJson, ban, match_whitelist, memory_backend, system_time_to_unix,
  touch_whitelist_last_used,
}
use surmount_server.Net.{IpAddr, IpSyntax, ip_eq}
use surmount_server.Prelude.{
  Bool-cases, arith, beq_refl, err, false, if◌then◌else◌, inl, inr, list_eq, nat_eq, not, ok, refl,
  some, true, ◌&&◌, ◌||◌, ◌≡◌,
}

module _ (syntax : IpSyntax) (json : StateJson) (env : Env) where
  -- What `ban` leaves in memory, on every branch.
  inner-ban :
      (ip : IpAddr) (reason : BanReason) (s : MemoryBanBackend)
      → (ban syntax json env ip reason s).1.inner ≡ (
          if match_whitelist s.inner ip || contains_key ip s.inner.bans
          then s.inner
          else record s.inner {
            bans =
                insert ip
                  (record { reason = reason; at_unix = system_time_to_unix env.now })
                  s.inner.bans;
          })
  unfolding ban
  inner-ban ip reason s = ground arith

  result-ban :
      (ip : IpAddr) (reason : BanReason) (s : MemoryBanBackend)
      → (ban syntax json env ip reason s).0 ≡ ok false
      → (match_whitelist s.inner ip || contains_key ip s.inner.bans) ≡ true
  unfolding ban
  result-ban ip reason s = ground arith

  pub inner-touch :
      (ip : IpAddr) (now : SystemTime) (s : MemoryBanBackend)
      → (touch_whitelist_last_used syntax json env ip now s).1.inner ≡ (
          if match_whitelist s.inner ip
          then record s.inner { whitelist_last_used = insert ip now s.inner.whitelist_last_used }
          else s.inner)
  unfolding touch_whitelist_last_used
  inner-touch ip now s = ground arith

  pub bans-ban :
      (ip other : IpAddr) (reason : BanReason) (s : MemoryBanBackend)
      → contains_key other (ban syntax json env ip reason s).1.inner.bans ≡ (
          if ip_eq.agrees ip other && not (match_whitelist s.inner ip)
          then true
          else contains_key other s.inner.bans)
  bans-ban ip other reason s = rw (inner-ban ip reason s) (
      ground (
        arith,
        ip_eq.agrees_iff ip other,
        lookup-insert ip other (record { reason = reason; at_unix = system_time_to_unix env.now })
            s.inner.bans,
      ))

  pub whitelist-ban :
      (ip other : IpAddr) (reason : BanReason) (s : MemoryBanBackend)
      → match_whitelist (ban syntax json env ip reason s).1.inner other
        ≡ match_whitelist s.inner other
  unfolding match_whitelist
  whitelist-ban ip other reason s = rw (inner-ban ip reason s) (ground arith)

  ban_whitelisted :
      (ip : IpAddr) (reason : BanReason) (s : MemoryBanBackend)
      → match_whitelist s.inner ip ≡ true
      → ban syntax json env ip reason s ≡ (ok false, s)
  unfolding ban
  ban_whitelisted ip reason s h = rw h refl

  ban_banned :
      (ip : IpAddr) (reason : BanReason) (s : MemoryBanBackend)
      → contains_key ip s.inner.bans ≡ true
      → ban syntax json env ip reason s ≡ (ok false, s)
  unfolding ban
  ban_banned ip reason s h = elim (Bool-cases (match_whitelist s.inner ip)) [
    | inl home ↦ rw home refl
    | inr away ↦ rw (away, h) refl
  ]

  ban_wrote :
      (ip : IpAddr) (reason : BanReason) (s : MemoryBanBackend)
      → (ban syntax json env ip reason s).0 ≡ ok true
      → match_whitelist s.inner ip ≡ false
  unfolding ban
  ban_wrote ip reason s h = ground arith

  touch-lookup :
      (ip : IpAddr) (now : SystemTime) (s : MemoryBanBackend)
      → match_whitelist s.inner ip ≡ true
      → lookup ip (touch_whitelist_last_used syntax json env ip now s).1.inner.whitelist_last_used
        ≡ some now
  touch-lookup ip now s h =
      rw (inner-touch ip now s, h, lookup-insert ip ip now s.inner.whitelist_last_used, beq_refl ip)
        refl

  touch-matches :
      (ip : IpAddr) (now : SystemTime) (s : MemoryBanBackend)
      → (touch_whitelist_last_used syntax json env ip now s).0 ≡ match_whitelist s.inner ip
  unfolding touch_whitelist_last_used
  touch-matches ip now s = ground arith

  touch-whitelist :
      (ip other : IpAddr) (now : SystemTime) (s : MemoryBanBackend)
      → match_whitelist (touch_whitelist_last_used syntax json env ip now s).1.inner other
        ≡ match_whitelist s.inner other
  unfolding match_whitelist
  touch-whitelist ip other now s = rw (inner-touch ip now s) (ground arith)

  -- The memory backend implements the interface of the ban backends: every promise holds, whichever
  -- steps of writing the state file fail.
  pub memory_backend-laws : BackendLaws (memory_backend syntax json env)
  unfolding memory_backend
  memory_backend-laws = record {
    ban_whitelisted = ban_whitelisted;
    ban_banned = ban_banned;
    ban_wrote =
        λ ip reason s h. rw (bans-ban ip ip reason s, beq_refl ip, ban_wrote ip reason s h) refl;
    ban_new = λ ip reason s h k p. cc (h, k, result-ban ip reason s p);
    ban_others = λ ip other reason s ne.
        rw (bans-ban ip other reason s) (ground (arith, ip_eq.agrees_iff ip other));
    ban_keeps_whitelist = whitelist-ban;
    touch_keeps = λ ip other now s.
        (rw (inner-touch ip now s) (ground arith), touch-whitelist ip other now s);
    touch_matches = touch-matches;
    touch_stamps = touch-lookup;
  }

module _ (syntax : IpSyntax) (json : StateJson) where
  failed_ban-away :
      (env : Env) (ip : IpAddr) (reason : BanReason) (s : MemoryBanBackend) (e : BanError)
      → (ban syntax json env ip reason s).0 ≡ err e
      → match_whitelist s.inner ip ≡ false
  unfolding ban
  failed_ban-away env ip reason s e h = ground arith

  -- A call of `ban` of the memory store that fails, since the state file was not written, leaves
  -- the ban in force in memory; a second call for the address then reports that nothing was
  -- written, without another attempt, whatever the file system does.
  pub failed_ban_stays :
      (env retry_env : Env) (ip : IpAddr) (reason again : BanReason) (s : MemoryBanBackend)
      → (e : BanError) → (ban syntax json env ip reason s).0 ≡ err e
      → (contains_key ip (ban syntax json env ip reason s).1.inner.bans ≡ true)
        × (ban syntax json retry_env ip again (ban syntax json env ip reason s).1
            ≡ (ok false, (ban syntax json env ip reason s).1))
  failed_ban_stays env retry_env ip reason again s e h =
      let held : contains_key ip (ban syntax json env ip reason s).1.inner.bans ≡ true =
        rw
          (
            bans-ban syntax json env ip ip reason s,
            beq_refl ip,
            failed_ban-away env ip reason s e h,
          )
          refl in
      (held, ban_banned syntax json retry_env ip again (ban syntax json env ip reason s).1 held)
