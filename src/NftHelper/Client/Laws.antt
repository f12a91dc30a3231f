-- ===== src/NftHelper/Client/Laws.antt =====
-- crates/management-ui/src/nft_helper.rs: starting the helper as a process.
use surmount_server.Net.{ip_eq}
use surmount_server.NftHelper.{retries_exhausted}
use surmount_server.NftHelper.Client.{
  SpawnOutcome, attempts, spawn_from, spawn_nft_helper, spawned, text_busy,
}
use surmount_server.Prelude.{
  arith, err, list_eq, nat_eq, ok, refl, suc, zero, ℕ, ◌*◌, ◌+◌, ◌↔◌, ◌≡◌, ◌≢◌, ◌≤◌, ◌⊎◌,
}

-- some attempt starts the program, and those before it found it busy
abbrev pub StartsWithin : ℕ → ℕ → (ℕ → SpawnOutcome) → Type 0
StartsWithin zero attempt outcome = ⊥
StartsWithin (suc left) attempt outcome =
    (outcome attempt ≡ spawned)
    ⊎ (outcome attempt ≡ text_busy) × StartsWithin left (attempt + 1) outcome

spawn_from_iff :
    (left attempt : ℕ) (outcome : ℕ → SpawnOutcome) (slept : ℕ)
    → left + attempt ≡ attempts
    → ((spawn_from left attempt outcome slept).0 ≡ ok tt) ↔ StartsWithin left attempt outcome
unfolding spawn_from
spawn_from_iff zero attempt outcome slept e = ground arith
spawn_from_iff (suc zero) attempt outcome slept e = ground arith
spawn_from_iff (suc (suc left)) attempt outcome slept e =
    ground (arith, spawn_from_iff (suc left) (attempt + 1) outcome (slept + 20 * (attempt + 1)))

-- the sleeps of the attempts that are left
abbrev naps : ℕ → ℕ → ℕ
naps zero attempt = 0
naps (suc left) attempt = 20 * (attempt + 1) + naps left (attempt + 1)

spawn_from-bound :
    (left attempt : ℕ) (outcome : ℕ → SpawnOutcome) (slept : ℕ)
    → suc left + attempt ≡ attempts
    → ((spawn_from (suc left) attempt outcome slept).0 ≢ err retries_exhausted)
      × ((spawn_from (suc left) attempt outcome slept).1 ≤ slept + naps left attempt)
unfolding spawn_from
spawn_from-bound zero attempt outcome slept e = ground arith
spawn_from-bound (suc left) attempt outcome slept e =
    ground (arith, spawn_from-bound left (attempt + 1) outcome (slept + 20 * (attempt + 1)))

-- The helper is started exactly when one of the first five attempts starts it and those before
-- found the file busy. In all at most 200 ms are slept, and no outcome reaches the error after the
-- loop.
pub spawn_nft_helper_lem :
    (outcome : ℕ → SpawnOutcome)
    → (((spawn_nft_helper outcome).0 ≡ ok tt) ↔ StartsWithin attempts 0 outcome)
      × ((spawn_nft_helper outcome).0 ≢ err retries_exhausted)
      × ((spawn_nft_helper outcome).1 ≤ 200)
unfolding spawn_nft_helper
spawn_nft_helper_lem outcome =
    let (never, short) = spawn_from-bound 4 0 outcome 0 refl in
    (spawn_from_iff 5 0 outcome 0 refl, never, short)
