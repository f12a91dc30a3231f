-- ===== src/Ban/Memory/Restart.antt =====
-- crates/management-ui/src/ban.rs: the state file across a restart.
use surmount_server.Assoc.{Assoc, IsDistinct, insert, is_some, lookup}
use surmount_server.Assoc.Laws.{IsDistinct-insert, lookup-insert}
use surmount_server.Ban.{BanError, SystemTime}
use surmount_server.Ban.Cidr.{WhitelistEntry}
use surmount_server.Ban.Memory.{
  BanRecord, Disk, Env, MemoryBanBackend, MemoryInner, ReadsWritten, StateJson, load, load_bans,
  load_last_used, new, persist_locked, save_bans, save_last_used, state_file, system_time_to_unix,
  unix_to_system_time, with_state_path,
}
use surmount_server.Net.{IpAddr, IpSyntax, ParsesPrinted, ip_eq}
use surmount_server.Prelude.{
  Bool-cases, List, Option, Option-cases, [], ap, arith, err, false, if◌then◌else◌, inl, inr,
  list_beq, list_beq_iff, list_eq, nat_eq, none, ok, refl, some, sym, true, ℕ, ◌∙◌, ◌∷◌, ◌≡◌,
}
use surmount_server.Text.{Text}

-- the first answer that is there
abbrev or_else {ℓ} : {A : Type ℓ} → Option A → Option A → Option A
or_else none b = b
or_else (some a) b = some a

or_else-none {ℓ} : {A : Type ℓ} (o : Option A) → or_else (or_else o none) none ≡ o
or_else-none none = refl
or_else-none (some a) = refl

module _ (syntax : IpSyntax) (printed : ParsesPrinted syntax) where
  to_string-injective : (a b : IpAddr) → syntax.to_string a ≡ syntax.to_string b → a ≡ b
  to_string-injective a b h = cc (printed a, printed b, h)

  to_string-beq :
      (a b : IpAddr) → list_beq (syntax.to_string a) (syntax.to_string b) ≡ ip_eq.agrees a b
  to_string-beq a b = ground (
    arith,
    list_beq_iff (syntax.to_string a) (syntax.to_string b),
    ip_eq.agrees_iff a b,
    to_string-injective a b,
  )

  -- every key of a map in the file is an address as it is printed
  abbrev AllPrinted {κ} : {V : Type κ} → Assoc Text V → Type 0
  AllPrinted [] = Unit
  AllPrinted ((k, v) ∷ m) = ((ip : IpAddr) × (k ≡ syntax.to_string ip)) × AllPrinted m

  AllPrinted-insert {κ} :
      {V : Type κ} (ip : IpAddr) (v : V) (m : Assoc Text V)
      → AllPrinted m
      → AllPrinted (insert (syntax.to_string ip) v m)
  unfolding insert
  AllPrinted-insert ip v [] h = ((ip, refl), tt)
  AllPrinted-insert ip v ((k, w) ∷ m) (at, h) =
      elim (Bool-cases (list_beq k (syntax.to_string ip))) [
        | inl same ↦ rw same ((ip, refl), h)
        | inr other ↦ rw other (at, AllPrinted-insert ip v m h)
      ]

  -- one entry of the file, before the rest
  load-step :
      (at ip : IpAddr) (rec : BanRecord) (file : Assoc Text BanRecord)
      (bans : Assoc IpAddr BanRecord)
      → lookup (syntax.to_string at) file ≡ none
      → or_else (lookup (syntax.to_string ip) file) (lookup ip (insert at rec bans))
        ≡ or_else
            (if list_beq (syntax.to_string at) (syntax.to_string ip)
              then some rec
              else lookup (syntax.to_string ip) file)
            (lookup ip bans)
  load-step at ip rec file bans fresh = elim (Bool-cases (ip_eq.agrees at ip)) [
    | inl same ↦
        let gone : lookup (syntax.to_string ip) file ≡ none =
          ap (λ a. lookup (syntax.to_string a) file) (sym ((ip_eq.agrees_iff at ip).0 same))
          ∙ fresh in
        rw (to_string-beq at ip, lookup-insert at ip rec bans, same, gone) refl
    | inr other ↦ rw (to_string-beq at ip, lookup-insert at ip rec bans, other) refl
  ]

  -- Loading adds the file's bans to those that are there.
  load_bans-lookup :
      (file : Assoc Text BanRecord) (bans : Assoc IpAddr BanRecord)
      → IsDistinct file
      → AllPrinted file
      → (m : Assoc IpAddr BanRecord) × (load_bans syntax file bans ≡ ok m)
        × ((ip : IpAddr)
            → lookup ip m ≡ or_else (lookup (syntax.to_string ip) file) (lookup ip bans))
  unfolding load_bans lookup
  load_bans-lookup [] bans d p = (bans, refl, λ ip. refl)
  load_bans-lookup ((k, rec) ∷ file) bans (fresh, d) ((at, same), p) =
      let (m, loaded, found) = load_bans-lookup file (insert at rec bans) d p in
      (
        m,
        rw (same, printed at) loaded,
        λ ip. rw same (found ip ∙ load-step at ip rec file bans (rw same at fresh)),
      )

  load_last_used-total :
      (file : Assoc Text ℕ) (used : Assoc IpAddr SystemTime)
      → AllPrinted file
      → (m : Assoc IpAddr SystemTime) × (load_last_used syntax file used ≡ ok m)
  unfolding load_last_used
  load_last_used-total [] used p = (used, refl)
  load_last_used-total ((k, secs) ∷ file) used ((at, same), p) =
      let (m, loaded) = load_last_used-total file (insert at (unix_to_system_time secs) used) p in
      (m, rw (same, printed at) loaded)

  save_last_used-AllPrinted :
      (used : Assoc IpAddr SystemTime) (out : Assoc Text ℕ)
      → AllPrinted out
      → AllPrinted (save_last_used syntax used out)
  unfolding save_last_used
  save_last_used-AllPrinted [] out p = p
  save_last_used-AllPrinted ((ip, t) ∷ used) out p =
      save_last_used-AllPrinted used _ (AllPrinted-insert ip (system_time_to_unix t) out p)

  save_bans-AllPrinted :
      (bans : Assoc IpAddr BanRecord) (out : Assoc Text BanRecord)
      → AllPrinted out
      → IsDistinct out
      → AllPrinted (save_bans syntax bans out) × IsDistinct (save_bans syntax bans out)
  unfolding save_bans
  save_bans-AllPrinted [] out p d = (p, d)
  save_bans-AllPrinted ((ip, rec) ∷ bans) out p d =
      save_bans-AllPrinted bans _ (AllPrinted-insert ip rec out p)
        (IsDistinct-insert (syntax.to_string ip) rec out d)

  save-step :
      (at ip : IpAddr) (rec : BanRecord) (bans : Assoc IpAddr BanRecord)
      (out : Assoc Text BanRecord)
      → lookup at bans ≡ none
      → or_else
          (lookup ip bans)
          (lookup (syntax.to_string ip) (insert (syntax.to_string at) rec out))
        ≡ or_else
            (if ip_eq.agrees at ip then some rec else lookup ip bans)
            (lookup (syntax.to_string ip) out)
  save-step at ip rec bans out fresh =
      rw (lookup-insert (syntax.to_string at) (syntax.to_string ip) rec out, to_string-beq at ip)
        (elim (Bool-cases (ip_eq.agrees at ip)) [
          | inl same ↦
              let gone : lookup ip bans ≡ none =
                ap (λ a. lookup a bans) (sym ((ip_eq.agrees_iff at ip).0 same)) ∙ fresh in
              rw (same, gone) refl
          | inr other ↦ rw other refl
        ])

  -- Saving writes every ban under its printed address.
  save_bans-lookup :
      (bans : Assoc IpAddr BanRecord) (out : Assoc Text BanRecord) (ip : IpAddr)
      → IsDistinct bans
      → lookup (syntax.to_string ip) (save_bans syntax bans out)
        ≡ or_else (lookup ip bans) (lookup (syntax.to_string ip) out)
  unfolding save_bans lookup
  save_bans-lookup [] out ip d = refl
  save_bans-lookup ((at, rec) ∷ bans) out ip (fresh, d) =
      save_bans-lookup bans (insert (syntax.to_string at) rec out) ip d
      ∙ save-step at ip rec bans out fresh

module _ (syntax : IpSyntax) (json : StateJson) (env : Env) (inner : MemoryInner)
    (disk : Disk) where
  -- A write of the state file is whole or not at all: where it fails, the file is as it was; where
  -- it succeeds at a path, the file is there and holds the text of the memory.
  pub persist_locked-atomic :
      ((e : BanError)
        → (persist_locked syntax json env inner disk).0 ≡ err e
        → (persist_locked syntax json env inner disk).1.state ≡ disk.state)
      × ((path : Text)
          → inner.state_path ≡ some path
          → (persist_locked syntax json env inner disk).0 ≡ ok tt
          → (is_some (persist_locked syntax json env inner disk).1.state ≡ true)
            × ((persist_locked syntax json env inner disk).1.state
                ≡ json.to_string_pretty (state_file syntax inner)))
  unfolding persist_locked
  persist_locked-atomic = (λ e h. ground arith, λ path at h. (ground arith, ground arith))

module _ (syntax : IpSyntax) (json : StateJson) (printed : ParsesPrinted syntax)
    (written : ReadsWritten json) where
  -- The loader's result on a file that `persist_locked` wrote.
  load-state_file :
      (inner : MemoryInner) (whitelist : List WhitelistEntry) (path raw : Text) (disk : Disk)
      → IsDistinct inner.bans
      → json.to_string_pretty (state_file syntax inner) ≡ some raw
      → disk.state ≡ some raw
      → (new : MemoryInner) × (load syntax json false whitelist (some path) disk ≡ ok new)
        × (new.whitelist ≡ whitelist)
        × ((ip : IpAddr) → lookup ip new.bans ≡ lookup ip inner.bans)
  unfolding load lookup
  load-state_file inner whitelist path raw disk d texted stored =
      let (p, d') = save_bans-AllPrinted syntax printed inner.bans [] tt tt in
      let (bans, loaded, found) = load_bans-lookup syntax printed _ [] d' p in
      let (used, marked) =
        load_last_used-total syntax printed _ []
          (save_last_used-AllPrinted syntax printed inner.whitelist_last_used [] tt) in
      (
        record {
          whitelist = whitelist;
          bans = bans;
          whitelist_last_used = used;
          state_path = some path;
        },
        rw (stored, written (state_file syntax inner) raw texted, loaded, marked) refl,
        refl,
        λ ip. found ip ∙ saved ip,
      )
    where
      saved :
          (ip : IpAddr)
          → or_else
              (lookup (syntax.to_string ip) (save_bans syntax inner.bans []))
              (lookup {V = BanRecord} ip [])
            ≡ lookup ip inner.bans
      saved ip =
          ap (λ o. or_else o none) (save_bans-lookup syntax printed inner.bans [] ip d)
          ∙ or_else-none (lookup ip inner.bans)

  -- Where addresses are printed and read back and serde_json reads what it writes, a store with
  -- distinct bans whose state file was written comes back from that file with every ban, its reason
  -- and its time, and with no other, for the same whitelist.
  pub restart_keeps_bans :
      (env : Env) (inner : MemoryInner) (disk : Disk) (path : Text)
      → IsDistinct inner.bans
      → inner.state_path ≡ some path
      → (persist_locked syntax json env inner disk).0 ≡ ok tt
      → (s : MemoryBanBackend) × (with_state_path syntax json false inner.whitelist path
            (persist_locked syntax json env inner disk).1
          ≡ ok s)
        × (s.inner.whitelist ≡ inner.whitelist)
        × ((ip : IpAddr) → lookup ip s.inner.bans ≡ lookup ip inner.bans)
  unfolding with_state_path
  restart_keeps_bans env inner disk path d at done =
      let (there, same) = (persist_locked-atomic syntax json env inner disk).1 path at done in
      let disk' = (persist_locked syntax json env inner disk).1 in
      elim (Option-cases disk'.state) [
        | inl gone ↦ absurd (cc (there, gone))
        | inr (raw, stored) ↦
            let (new, loaded, listed, kept) =
              load-state_file inner inner.whitelist path raw disk' d (sym same ∙ stored) stored in
            (record { inner = new; disk = disk' }, rw loaded refl, listed, kept)
      ]
