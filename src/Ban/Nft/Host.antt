-- ===== src/Ban/Nft/Host.antt =====
-- crates/management-ui/src/ban.rs: the nft backend together with the host that it syncs to.
use surmount_server.Assoc.{contains_key}
use surmount_server.Ban.{BanReason}
use surmount_server.Ban.Memory.{Env, StateJson}
use surmount_server.Ban.Nft.{
  BanNftApply, NftBanBackend, NftExec, ban, forgive, nft_add_ban_args, nft_element_already_present,
  nft_exec_apply,
}
use surmount_server.Ban.Nft.Laws.{host-ban, new_ban_was_applied}
use surmount_server.Net.{IpAddr, IpSyntax, ip_eq}
use surmount_server.Prelude.{
  Bool-cases, Result, err, inl, inr, list_eq, nat_eq, ok, refl, true, ◌≡◌, ◌⊎◌,
}
use surmount_server.Text.{Text}

-- What is relied on of `nft add element`: when it succeeds, or says that the element is there, the
-- address is in the ban set, and no other address leaves it.
pub record AddsElements {H : Type 0} (syntax : IpSyntax) (exec : NftExec H)
    (Dropped : IpAddr → H → Type 0) : Type 0 where
  pub added :
      (ip : IpAddr) (h : H)
      → (exec.run_nft (nft_add_ban_args syntax ip) h).0 ≡ ok tt
      → Dropped ip (exec.run_nft (nft_add_ban_args syntax ip) h).1
  pub present :
      (ip : IpAddr) (h : H) (message : Text)
      → (exec.run_nft (nft_add_ban_args syntax ip) h).0 ≡ err message
      → nft_element_already_present message ≡ true
      → Dropped ip (exec.run_nft (nft_add_ban_args syntax ip) h).1
  pub kept :
      (ip other : IpAddr) (h : H)
      → Dropped other h
      → Dropped other (exec.run_nft (nft_add_ban_args syntax ip) h).1

module _ {H : Type 0} (syntax : IpSyntax) (json : StateJson) (exec : NftExec H)
    (Dropped : IpAddr → H → Type 0) (adds : AddsElements syntax exec Dropped) where
  -- every address that the application bans is dropped by the host
  pub record IsMirrored (s : NftBanBackend H) : Type 0 where
    pub drops : (ip : IpAddr) → contains_key ip s.memory.inner.bans ≡ true → Dropped ip s.host

  -- the apply path reports success only where the host drops the address
  applied-Dropped :
      (ip : IpAddr) (h : H)
      → ((nft_exec_apply syntax exec).add_ban_element ip h).0 ≡ ok tt
      → Dropped ip ((nft_exec_apply syntax exec).add_ban_element ip h).1
  unfolding nft_exec_apply
  applied-Dropped ip h fine = go (exec.run_nft (nft_add_ban_args syntax ip) h).0 refl fine
    where
      go :
          (r : Result Text (Unit {0}))
          → (exec.run_nft (nft_add_ban_args syntax ip) h).0 ≡ r
          → forgive nft_element_already_present r ≡ ok tt
          → Dropped ip (exec.run_nft (nft_add_ban_args syntax ip) h).1
      go (ok u) e f = adds.added ip h e
      go (err message) e f = elim (Bool-cases (nft_element_already_present message)) [
        | inl there ↦ adds.present ip h message e there
        | inr other ↦ absurd (cc (rw other at f))
      ]

  kept-Dropped :
      (ip other : IpAddr) (h : H)
      → Dropped other h
      → Dropped other ((nft_exec_apply syntax exec).add_ban_element ip h).1
  unfolding nft_exec_apply
  kept-Dropped ip other h d = adds.kept ip other h d

  -- Syncing to a host whose `nft add element` does what it reports, every call of `ban` of the nft
  -- backend, whether it succeeds or fails, keeps this true: the host drops every address that the
  -- application bans.
  pub ban-IsMirrored :
      (env : Env) (ip : IpAddr) (reason : BanReason) (s : NftBanBackend H)
      → IsMirrored s
      → IsMirrored (ban syntax json (nft_exec_apply syntax exec) true env ip reason s).1
  ban-IsMirrored env ip reason s mirrored = record {
    drops = λ other after. elim (Bool-cases (contains_key other s.memory.inner.bans)) [
      | inl before ↦
          still-Dropped other (mirrored.drops other before)
            (host-ban syntax json apply true env ip reason s)
      | inr clean ↦
          let (same, fine, host) =
            new_ban_was_applied syntax json apply true env ip other reason s refl clean after in
          rw (host, ← same) (applied-Dropped ip s.host fine)
    ];
  }
    where
      apply : BanNftApply H
      apply = nft_exec_apply syntax exec

      still-Dropped :
          (other : IpAddr)
          → Dropped other s.host
          → ((ban syntax json apply true env ip reason s).1.host ≡ s.host)
            ⊎ ((ban syntax json apply true env ip reason s).1.host
                ≡ (apply.add_ban_element ip s.host).1)
          → Dropped other (ban syntax json apply true env ip reason s).1.host
      still-Dropped other d (inl same) = rw same d
      still-Dropped other d (inr moved) = rw moved (kept-Dropped ip other s.host d)
