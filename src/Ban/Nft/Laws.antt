-- ===== src/Ban/Nft/Laws.antt =====
-- crates/management-ui/src/ban.rs: `NftBanBackend`, call by call.
use surmount_server.Ban.Memory
use surmount_server.Assoc.{contains_key}
use surmount_server.Ban.{BackendLaws, BanError, BanReason, nft_sync_failed}
use surmount_server.Ban.Memory.{Env, StateJson, match_whitelist, memory_backend}
use surmount_server.Ban.Memory.Laws.{bans-ban, memory_backend-laws}
use surmount_server.Ban.Nft.{BanNftApply, NftBanBackend, ban, nft_backend, touch}
use surmount_server.Net.{IpAddr, IpSyntax, ip_eq}
use surmount_server.Prelude.{
  Bool, Bool-cases, Result, arith, err, false, inl, inr, list_eq, nat_eq, ok, refl, sym, true, ◌∙◌,
  ◌≡◌, ◌≢◌, ◌⊎◌,
}
use surmount_server.Text.{Text}

module _ {H : Type 0} (syntax : IpSyntax) (json : StateJson) (apply : BanNftApply H)
    (nft_sync : Bool) (env : Env) where
  -- What `ban` does to the memory: nothing, or what the memory's own `ban` does.
  abbrev SameOrBanned :
      IpAddr → BanReason → NftBanBackend H → Result BanError Bool × NftBanBackend H → Type 0
  SameOrBanned ip reason s r =
      (r.1.memory ≡ s.memory) × (r.0 ≢ ok true)
      ⊎ (r.1.memory ≡ (Memory.ban syntax json env ip reason s.memory).1)
        × (r.0 ≡ (Memory.ban syntax json env ip reason s.memory).0)

  ban-SameOrBanned :
      (ip : IpAddr) (reason : BanReason) (s : NftBanBackend H)
      → SameOrBanned ip reason s (ban syntax json apply nft_sync env ip reason s)
  unfolding ban
  ban-SameOrBanned ip reason s = ground arith

  -- With syncing on, a ban of an address that is neither whitelisted nor banned and that the host
  -- refuses fails with the host's message, and the memory and its file stay as they were.
  refused_host_keeps_memory :
      (ip : IpAddr) (reason : BanReason) (s : NftBanBackend H) (e : Text)
      → nft_sync ≡ true
      → match_whitelist s.memory.inner ip ≡ false
      → contains_key ip s.memory.inner.bans ≡ false
      → (apply.add_ban_element ip s.host).0 ≡ err e
      → ((ban syntax json apply nft_sync env ip reason s).0 ≡ err (nft_sync_failed e))
        × ((ban syntax json apply nft_sync env ip reason s).1.memory ≡ s.memory)
  unfolding ban
  refused_host_keeps_memory ip reason s e sync away clean h = rw (away, clean, sync, h) (refl, refl)

  -- With syncing on, an address that becomes banned in memory by a call of `ban` is the one that
  -- was asked for, and the host's call for it succeeded and left the host as it now is.
  pub new_ban_was_applied :
      (ip other : IpAddr) (reason : BanReason) (s : NftBanBackend H)
      → nft_sync ≡ true
      → contains_key other s.memory.inner.bans ≡ false
      → contains_key other (ban syntax json apply nft_sync env ip reason s).1.memory.inner.bans
        ≡ true
      → (ip ≡ other)
        × ((apply.add_ban_element ip s.host).0 ≡ ok tt)
        × ((ban syntax json apply nft_sync env ip reason s).1.host
            ≡ (apply.add_ban_element ip s.host).1)
  unfolding ban
  new_ban_was_applied ip other reason s sync before after =
      ground (arith, bans-ban syntax json env ip other reason s.memory, ip_eq.agrees_iff ip other)

  -- The host is as it was, or as the apply path left it.
  pub host-ban :
      (ip : IpAddr) (reason : BanReason) (s : NftBanBackend H)
      → ((ban syntax json apply nft_sync env ip reason s).1.host ≡ s.host)
        ⊎ ((ban syntax json apply nft_sync env ip reason s).1.host
            ≡ (apply.add_ban_element ip s.host).1)
  unfolding ban
  host-ban ip reason s = ground arith

  -- Without syncing the host is never touched.
  pub host-ban_no_sync :
      (ip : IpAddr) (reason : BanReason) (s : NftBanBackend H)
      → nft_sync ≡ false
      → (ban syntax json apply nft_sync env ip reason s).1.host ≡ s.host
  unfolding ban
  host-ban_no_sync ip reason s still = ground arith

module _ {H : Type 0} (syntax : IpSyntax) (json : StateJson) (apply : BanNftApply H)
    (nft_sync : Bool) (env : Env) where
  nft-ban_whitelisted :
      (ip : IpAddr) (reason : BanReason) (s : NftBanBackend H)
      → match_whitelist s.memory.inner ip ≡ true
      → ban syntax json apply nft_sync env ip reason s ≡ (ok false, s)
  unfolding ban
  nft-ban_whitelisted ip reason s h = rw h refl

  nft-ban_banned :
      (ip : IpAddr) (reason : BanReason) (s : NftBanBackend H)
      → contains_key ip s.memory.inner.bans ≡ true
      → ban syntax json apply nft_sync env ip reason s ≡ (ok false, s)
  unfolding ban
  nft-ban_banned ip reason s h = elim (Bool-cases (match_whitelist s.memory.inner ip)) [
    | inl home ↦ rw home refl
    | inr away ↦ rw (away, h) refl
  ]

  nft-ban_new :
      (ip : IpAddr) (reason : BanReason) (s : NftBanBackend H)
      → match_whitelist s.memory.inner ip ≡ false
      → contains_key ip s.memory.inner.bans ≡ false
      → (ban syntax json apply nft_sync env ip reason s).0 ≢ ok false
  unfolding ban memory_backend
  nft-ban_new ip reason s away clean =
      let written = (memory_backend-laws syntax json env).ban_new ip reason s.memory away clean in
      ground arith

  -- The nft backend implements the interface of the ban backends: every promise holds, with any way
  -- to reach the host, syncing or not, and whichever steps of writing the state file fail.
  pub nft_backend-laws : BackendLaws (nft_backend syntax json apply nft_sync env)
  unfolding nft_backend memory_backend touch
  nft_backend-laws =
      let laws = memory_backend-laws syntax json env in
      record {
        ban_whitelisted = nft-ban_whitelisted;
        ban_banned = nft-ban_banned;
        ban_wrote = λ ip reason s h.
            elim (ban-SameOrBanned syntax json apply nft_sync env ip reason s) [
              | inl (same, not_ok) ↦ absurd (not_ok h)
              | inr (memory, result) ↦
                  rw memory (laws.ban_wrote ip reason s.memory (sym result ∙ h))
            ];
        ban_new = nft-ban_new;
        ban_others = λ ip other reason s ne.
            elim (ban-SameOrBanned syntax json apply nft_sync env ip reason s) [
              | inl (same, not_ok) ↦ rw same refl
              | inr (memory, result) ↦ rw memory (laws.ban_others ip other reason s.memory ne)
            ];
        ban_keeps_whitelist = λ ip other reason s.
            elim (ban-SameOrBanned syntax json apply nft_sync env ip reason s) [
              | inl (same, not_ok) ↦ rw same refl
              | inr (memory, result) ↦ rw memory (laws.ban_keeps_whitelist ip other reason s.memory)
            ];
        touch_keeps = λ ip other now s. laws.touch_keeps ip other now s.memory;
        touch_matches = λ ip now s. laws.touch_matches ip now s.memory;
        touch_stamps = λ ip now s h. laws.touch_stamps ip now s.memory h;
      }
