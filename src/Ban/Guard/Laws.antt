-- ===== src/Ban/Guard/Laws.antt =====
-- crates/management-ui/src/ban.rs: the construction of the guard.
use surmount_server.Ban.Memory
use surmount_server.Ban.{BanEnforcement, applies_rejects}
use surmount_server.Ban.Config.{
  BanConfig, helper_configured, kind_beq, nft, nft_sync_on_enforce, validate_capable,
}
use surmount_server.Ban.Config.Laws.{Mutates, validate_capable_sound}
use surmount_server.Ban.Guard.{
  Backend, choose_apply, choose_backend, from_config, helper_process, helper_sock,
  memory_backend_of, nft_backend_of, nft_exec, no_apply, open_memory,
}
use surmount_server.Ban.Memory.{Disk, MemoryBanBackend, StateJson}
use surmount_server.Net.{IpSyntax, ip_eq}
use surmount_server.Prelude.{
  >>=-eq-ok, Bool, Bool-cases, Option-cases, ap, arith, false, inl, inr, list_eq, nat_eq, none, ok,
  ok-injective, refl, sym, true, ◌&&◌, ◌>>=◌, ◌||◌, ◌∙◌, ◌≡◌,
}
use surmount_server.Text.{Text}

-- the backend changes the host's firewall when it bans
abbrev pub is_synced : Backend → Bool
is_synced (memory_backend_of store) = false
is_synced (nft_backend_of store no_apply nft_sync) = false
is_synced (nft_backend_of store path nft_sync) = nft_sync

choose_apply-is_synced :
    (cfg : BanConfig) (store : MemoryBanBackend) (b : Backend)
    → (helper_configured cfg || cfg.nft_exec_enabled) ≡ true
    → choose_apply cfg store ≡ ok b
    → is_synced b ≡ true
choose_apply-is_synced cfg store b some_way h = ground arith

choose_backend-is_synced :
    (cfg : BanConfig) (store : MemoryBanBackend) (b : Backend)
    → choose_backend cfg store ≡ ok b
    → is_synced b ≡ nft_sync_on_enforce cfg && applies_rejects cfg.enforcement
choose_backend-is_synced cfg store b h = ground (arith, choose_apply-is_synced cfg store b)

choose_apply-total :
    (exists : Text → Bool) (cfg : BanConfig) (store : MemoryBanBackend)
    → validate_capable exists cfg ≡ ok tt
    → Mutates exists cfg
    → (b : Backend) × (choose_apply cfg store ≡ ok b)
choose_apply-total exists cfg store fine on =
    let (one_way, backend, ready) = validate_capable_sound exists cfg fine in
    let (bin, set, at, there) = ready on in
    elim (Option-cases cfg.nft_helper_sock) [
      | inr (sock, has) ↦ (nft_backend_of store (helper_sock sock) true, rw has refl)
      | inl no_sock ↦ elim (Option-cases cfg.nft_helper_bin) [
        | inr (helper, has) ↦
            (nft_backend_of store (helper_process helper cfg.nft_bin) true, rw (no_sock, has) refl)
        | inl no_helper ↦ elim (Bool-cases cfg.nft_exec_enabled) [
          | inl direct ↦
              (nft_backend_of store (nft_exec bin) true, rw (no_sock, no_helper, direct, set) refl)
          | inr plain ↦ (nft_backend_of store no_apply false, rw (no_sock, no_helper, plain) refl)
        ]
      ]
    ]

sync-Mutates :
    (exists : Text → Bool) (cfg : BanConfig)
    → (nft_sync_on_enforce cfg && applies_rejects cfg.enforcement) ≡ true
    → Mutates exists cfg
sync-Mutates exists cfg on = ground arith

choose_synced :
    (cfg : BanConfig) (store : MemoryBanBackend)
    → (nft_sync_on_enforce cfg && applies_rejects cfg.enforcement) ≡ true
    → choose_backend cfg store ≡ choose_apply cfg store
choose_synced cfg store on = ground arith

choose_idle :
    (cfg : BanConfig) (store : MemoryBanBackend)
    → (nft_sync_on_enforce cfg && applies_rejects cfg.enforcement) ≡ false
    → (b : Backend) × (choose_backend cfg store ≡ ok b)
choose_idle cfg store idle = elim (Bool-cases (kind_beq cfg.backend_kind nft)) [
  | inl is_nft ↦ (nft_backend_of store no_apply false, ground arith)
  | inr other ↦ (memory_backend_of store, ground arith)
]

choose_backend-total :
    (exists : Text → Bool) (cfg : BanConfig) (store : MemoryBanBackend)
    → validate_capable exists cfg ≡ ok tt
    → (b : Backend) × (choose_backend cfg store ≡ ok b)
choose_backend-total exists cfg store fine =
    elim (Bool-cases (nft_sync_on_enforce cfg && applies_rejects cfg.enforcement)) [
      | inl on ↦
          let (b, chosen) = choose_apply-total exists cfg store fine (sync-Mutates exists cfg on) in
          (b, choose_synced cfg store on ∙ chosen)
      | inr idle ↦ choose_idle cfg store idle
    ]

module _ (syntax : IpSyntax) (json : StateJson) where
  -- A guard that is built enforces as configured, and its backend changes the host's firewall
  -- exactly when the configuration enforces with the nft backend and a way to the host.
  from_config-is_synced :
      (read_fails : Bool) (cfg : BanConfig) (disk : Disk) (e : BanEnforcement) (b : Backend)
      → from_config syntax json read_fails cfg disk ≡ ok (e, b)
      → (e ≡ cfg.enforcement)
        × (is_synced b ≡ nft_sync_on_enforce cfg && applies_rejects cfg.enforcement)
  unfolding from_config
  from_config-is_synced read_fails cfg disk e b h =
      let (store, p, h1) =
        >>=-eq-ok (open_memory syntax json read_fails cfg disk)
          (λ store. choose_backend cfg store >>= λ backend. ok (cfg.enforcement, backend)) h in
      let (backend, q, h2) =
        >>=-eq-ok (choose_backend cfg store) (λ backend. ok (cfg.enforcement, backend)) h1 in
      let same : ◌≡◌ {A = BanEnforcement × Backend} (cfg.enforcement, backend) (e, b) =
        ok-injective h2 in
      (
        ap (λ (r : BanEnforcement × Backend). r.0) (sym same),
        ap (λ (r : BanEnforcement × Backend). is_synced r.1) (sym same)
            ∙ choose_backend-is_synced cfg store backend q,
      )

  -- A configuration without a state file that passed the gate always yields a guard, with its own
  -- enforcement.
  from_config-total :
      (exists : Text → Bool) (read_fails : Bool) (cfg : BanConfig) (disk : Disk)
      → cfg.state_path ≡ none
      → validate_capable exists cfg ≡ ok tt
      → (b : Backend) × (from_config syntax json read_fails cfg disk ≡ ok (cfg.enforcement, b))
  unfolding from_config
  from_config-total exists read_fails cfg disk unset fine =
      let store = Memory.new syntax json cfg.whitelist disk in
      let (b, chosen) = choose_backend-total exists cfg store fine in (b, rw (unset, chosen) refl)
