-- ===== src/Ban/Config/Laws.antt =====
-- crates/management-ui/src/ban.rs: configurations that pass the gate.
use surmount_server.Ban.{
  BanEnforcement, BanError, dry_run, enforce, helper_and_exec, needs_nft_backend, off,
  parse_enforcement,
}
use surmount_server.Ban.Cidr.{WhitelistEntry, parse_whitelist_cidrs}
use surmount_server.Ban.Config.{
  BanBackendKind, BanConfig, absolute_path, assemble, ban_config_from_env, helper_configured,
  is_absolute, is_enforce, kind_beq, memory, nft, nft_sync_on_enforce, non_empty,
  parse_env_bool_strict, parse_kind, setting, validate_capable,
}
use surmount_server.Net.{IpSyntax, ip_eq}
use surmount_server.Prelude.{
  >>=-eq-ok, Bool, List, Option, Option-cases, Result, [], ap, arith, err, false, if◌then◌else◌,
  inl, inr, list_eq, nat_eq, none, not, ok, ok-injective, refl, some, sym, true, ◌&&◌, ◌||◌, ◌∙◌,
  ◌≡◌, ◌≢◌,
}
use surmount_server.Text.{Text, text}

is_enforce-false : (e : BanEnforcement) → e ≢ enforce → is_enforce e ≡ false
is_enforce-false enforce h = absurd (h refl)
is_enforce-false off h = refl
is_enforce-false dry_run h = refl

module _ (exists : Text → Bool) where
  -- A configuration that would change the host's firewall: synced, and enforcing.
  abbrev pub Mutates : BanConfig → Type 0
  Mutates c = (nft_sync_on_enforce c ≡ true) × (c.enforcement ≡ enforce)

  -- A configuration that passes the gate has not both ways to the host, and none without the nft
  -- backend; where it would change the host's firewall, `nft` is there at an absolute path.
  pub validate_capable_sound :
      (c : BanConfig)
      → validate_capable exists c ≡ ok tt
      → ((helper_configured c && c.nft_exec_enabled) ≡ false)
        × (kind_beq c.backend_kind nft ≡ false
            → (helper_configured c ≡ false) × (c.nft_exec_enabled ≡ false))
        × (Mutates c
            → (p : Text) × (c.nft_bin ≡ some p) × (is_absolute p ≡ true) × (exists p ≡ true))
  unfolding validate_capable
  validate_capable_sound c h = (ground arith, λ k. ground arith, λ m. ready m)
    where
      ready :
          Mutates c → (p : Text) × (c.nft_bin ≡ some p) × (is_absolute p ≡ true) × (exists p ≡ true)
      ready (sync, on) = elim (Option-cases c.nft_bin) [
        | inl unset ↦ absurd (ground arith)
        | inr (p, set) ↦ (p, set, ground arith, ground arith)
      ]

  -- Without enforcement the gate asks nothing of the file system.
  pub validate_capable-no_enforce :
      (c : BanConfig)
      → c.enforcement ≢ enforce
      → validate_capable exists c ≡ (
          if helper_configured c && c.nft_exec_enabled
          then err helper_and_exec
          else if not (kind_beq c.backend_kind nft) && (helper_configured c || c.nft_exec_enabled)
          then err needs_nft_backend
          else ok tt)
  unfolding validate_capable
  validate_capable-no_enforce c h = let idle = is_enforce-false c.enforcement h in ground arith

abbrev pub AbsoluteIfSet : Option Text → Type 0
AbsoluteIfSet none = Unit
AbsoluteIfSet (some p) = is_absolute p ≡ true

absolute_path-AbsoluteIfSet :
    (value path : Option Text) → absolute_path value ≡ ok path → AbsoluteIfSet path
absolute_path-AbsoluteIfSet value none h = tt
absolute_path-AbsoluteIfSet value (some p) h = ground arith

-- what holds of every configuration that is assembled
record IsSound (exists : Text → Bool) (state_path helper sock : Result BanError (Option Text))
    (c : BanConfig) : Type 0 where
  passed : validate_capable exists c ≡ ok tt
  from_state : state_path ≡ ok c.state_path
  from_helper : helper ≡ ok c.nft_helper_bin
  from_sock : sock ≡ ok c.nft_helper_sock

assemble-IsSound :
    (exists : Text → Bool) (nft_bin : Option Text) (enforcement : Result BanError BanEnforcement)
    (kind : Result BanError BanBackendKind) (whitelist : Result BanError (List WhitelistEntry))
    (state_path : Result BanError (Option Text)) (exec : Result BanError Bool)
    (helper sock : Result BanError (Option Text)) (c : BanConfig)
    → assemble exists nft_bin enforcement kind whitelist state_path exec helper sock ≡ ok c
    → IsSound exists state_path helper sock c
assemble-IsSound exists nft_bin (ok e) (ok k) (ok w) (ok p) (ok x) (ok h) (ok s) c made =
    let (passed, fine, same) = >>=-eq-ok (validate_capable exists _) (λ _. ok _) made in
    let built = ok-injective same in
    record {
      passed = ap (λ (b : BanConfig). validate_capable exists b) (sym built) ∙ fine;
      from_state = ap (λ (b : BanConfig). ok b.state_path) built;
      from_helper = ap (λ (b : BanConfig). ok b.nft_helper_bin) built;
      from_sock = ap (λ (b : BanConfig). ok b.nft_helper_sock) built;
    }
assemble-IsSound exists nft_bin _ _ _ _ _ _ _ c made = cc

module _ (syntax : IpSyntax) (exists : Text → Bool) where
  -- A configuration that the environment yields has passed the gate, and its state file, its helper
  -- and its socket are absolute paths where they are set.
  ban_config_from_env_sound :
      (get : Text → Option Text) (c : BanConfig)
      → ban_config_from_env syntax exists get ≡ ok c
      → (validate_capable exists c ≡ ok tt)
        × AbsoluteIfSet c.state_path
        × AbsoluteIfSet c.nft_helper_bin
        × AbsoluteIfSet c.nft_helper_sock
  unfolding ban_config_from_env
  ban_config_from_env_sound get c h =
      let exec : Result BanError Bool =
        setting false (λ s. parse_env_bool_strict s (text "SURMOUNT_BAN_NFT_EXEC"))
          (get (text "SURMOUNT_BAN_NFT_EXEC")) in
      let sound =
        assemble-IsSound exists (non_empty (get (text "SURMOUNT_BAN_NFT_BIN")))
          (setting off parse_enforcement (get (text "SURMOUNT_BAN_ENFORCEMENT")))
          (setting memory parse_kind (get (text "SURMOUNT_BAN_BACKEND")))
          (setting [] (parse_whitelist_cidrs syntax) (get (text "SURMOUNT_BAN_WHITELIST")))
          (absolute_path (get (text "SURMOUNT_BAN_STATE_PATH"))) exec
          (absolute_path (get (text "SURMOUNT_BAN_NFT_HELPER")))
          (absolute_path (get (text "SURMOUNT_BAN_NFT_HELPER_SOCK"))) c h in
      (
        sound.passed,
        absolute_path-AbsoluteIfSet (get (text "SURMOUNT_BAN_STATE_PATH")) c.state_path
            sound.from_state,
        absolute_path-AbsoluteIfSet (get (text "SURMOUNT_BAN_NFT_HELPER")) c.nft_helper_bin
            sound.from_helper,
        absolute_path-AbsoluteIfSet (get (text "SURMOUNT_BAN_NFT_HELPER_SOCK")) c.nft_helper_sock
            sound.from_sock,
      )
