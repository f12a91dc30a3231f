-- ===== src/Ban/Guard.antt =====
-- crates/management-ui/src/ban.rs: `BanGuard`, the runtime object of the edge, and its construction.
pub mod Laws
use surmount_server.Ban.Memory
use surmount_server.Ban.{
  AccessDecision, BanBackend, BanEnforcement, BanError, BanReason, BanSignalOutcome, SystemTime,
  applies_rejects, apply_ban_signal, decide_access, decide_ban_signal, nft_bin_unset,
  set_names_empty, unauthorized,
}
use surmount_server.Ban.Config.{BanConfig, kind_beq, nft, nft_sync_on_enforce}
use surmount_server.Ban.Memory.{Disk, MemoryBanBackend, StateJson, with_state_path}
use surmount_server.Ban.Nft.{nft_product_set_names}
use surmount_server.Net.{IpAddr, IpSyntax, ip_eq}
use surmount_server.Prelude.{
  Bool, Option, Result, err, false, guard, if◌then◌else◌, is_empty, list_eq, nat_eq, none, not, ok,
  some, true, ◌&&◌, ◌>>=◌, ◌>>◌,
}
use surmount_server.RateLimit.{RateLimitDecision}
use surmount_server.Text.{Text}

-- How the guard's backend reaches the host: `NoopNftApply`, `HelperNftClient` over a socket or a
-- process, or `NftExecApply` over the `nft` program at a path.
pub data ApplyPath : Type 0 where
  no_apply : ApplyPath
  helper_sock : Text → ApplyPath
  helper_process : Text → Option Text → ApplyPath
  nft_exec : Text → ApplyPath

-- The boxed backend that `from_config` builds.
pub data Backend : Type 0 where
  memory_backend_of : MemoryBanBackend → Backend
  nft_backend_of : MemoryBanBackend → ApplyPath → Bool → Backend

-- the choice of the apply path where the host is synced, in the source's order
abbrev pub choose_apply : BanConfig → MemoryBanBackend → Result BanError Backend
choose_apply cfg store = elim cfg.nft_helper_sock [
  | some sock ↦ ok (nft_backend_of store (helper_sock sock) true)
  | none ↦ elim cfg.nft_helper_bin [
    | some helper ↦ ok (nft_backend_of store (helper_process helper cfg.nft_bin) true)
    | none ↦
        if cfg.nft_exec_enabled
        then (elim cfg.nft_bin [
          | some bin ↦ ok (nft_backend_of store (nft_exec bin) true)
          | none ↦ err nft_bin_unset
        ])
        else ok (nft_backend_of store no_apply false)
  ]
]

abbrev pub choose_backend : BanConfig → MemoryBanBackend → Result BanError Backend
choose_backend cfg store =
    if not (kind_beq cfg.backend_kind nft)
    then ok (memory_backend_of store)
    else if nft_sync_on_enforce cfg && applies_rejects cfg.enforcement
    then choose_apply cfg store
    else ok (nft_backend_of store no_apply false)

module _ (syntax : IpSyntax) (json : StateJson) where
  abbrev pub open_memory : Bool → BanConfig → Disk → Result BanError MemoryBanBackend
  open_memory read_fails cfg disk = elim cfg.state_path [
    | some path ↦ with_state_path syntax json read_fails cfg.whitelist path disk
    | none ↦ ok (Memory.new syntax json cfg.whitelist disk)
  ]

  -- `BanGuard::from_config`: the enforcement and the backend
  unfoldable pub from_config : Bool → BanConfig → Disk → Result BanError (BanEnforcement × Backend)
  from_config read_fails cfg disk = do
    guard (not (is_empty nft_product_set_names)) set_names_empty
    store ← open_memory read_fails cfg disk
    backend ← choose_backend cfg store
    ok (cfg.enforcement, backend)

-- `BanGuard` over a backend's state. Each method takes the state and returns the new one.
pub record BanGuard (S : Type 0) : Type 0 where
  pub enforcement : BanEnforcement
  pub backend : BanBackend S

module _ {S : Type 0} (g : BanGuard S) where
  unfoldable pub decide : IpAddr → RateLimitDecision → S → AccessDecision
  decide ip rate s = decide_access g.backend ip rate s

  unfoldable pub on_request_allowed : IpAddr → SystemTime → S → S
  on_request_allowed ip now s = (g.backend.touch_whitelist_last_used ip now s).1

  unfoldable pub signal_ban : IpAddr → BanReason → S → Result BanError BanSignalOutcome × S
  signal_ban ip reason s = apply_ban_signal g.backend g.enforcement ip reason s

  -- `signal_unauthorized`: the decision before, and the outcome
  unfoldable pub signal_unauthorized :
      IpAddr → S → Result BanError (AccessDecision × BanSignalOutcome) × S
  signal_unauthorized ip s =
      let decision = decide_ban_signal g.backend ip unauthorized s in
      let (outcome, s') = apply_ban_signal g.backend g.enforcement ip unauthorized s in
      (outcome >>= (λ done. ok (decision, done)), s')
