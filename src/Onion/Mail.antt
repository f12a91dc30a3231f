-- ===== src/Onion/Mail.antt =====
-- crates/management-ui/src/onion_discovery.rs: no mail host is given an onion address.
use surmount_server.Assoc.{Assoc, contains_key, insert, lookup}
use surmount_server.Assoc.Laws.{lookup-insert}
use surmount_server.Net.{ip_eq}
use surmount_server.Onion.{
  OnionMapping, auto_derived, default_ma_seconds, default_onion_port, normalize_clearnet_host,
  parse_onion_scheme, parse_v3_onion_host, scheme_from_onion_url, try_new,
}
use surmount_server.Onion.Build.{
  build_onion_discovery_with_mail, host_is_blocked_mail, insert_extras, insert_services,
  mail_hosts_blocked, switch_off, without_alt_svc, without_location,
}
use surmount_server.Onion.Headers.{lookup_host}
use surmount_server.Prelude.{
  Bool, Bool-cases, List, Option, Option-cases, [], ap, arith, contradictory, false, if◌then◌else◌,
  inl, inr, is_empty, list_beq_iff, list_eq, nat_eq, none, refl, some, sym, true, ℕ, ◌==◌, ◌||◌,
  ◌∙◌, ◌∷◌, ◌≡◌, ◌≢◌,
}
use surmount_server.Text.{Text, text}

-- no blocked host has a mapping
abbrev IsUnblocked : List Text → Assoc Text OnionMapping → Type 0
IsUnblocked mail_block table =
    (k : Text) → host_is_blocked_mail k mail_block ≡ true → lookup k table ≡ none

not_mapped : {o : Option OnionMapping} {m : OnionMapping} → o ≡ none → o ≢ some m
not_mapped h g = cc

or_parts : (a b c : Bool) → (a || b || c) ≡ false → b ≡ false
or_parts a b c h = ground arith

empty_or : (b : Bool) {o : Option OnionMapping} → o ≡ none → (if b then none else o) ≡ none
empty_or true h = refl
empty_or false h = h

built_by :
    (bad : Bool) (o : Option Text) (p : Option ℕ) (q : Option Text) (few : Bool)
    → (f : Text → ℕ → Text → OnionMapping) {m : OnionMapping}
    → (if bad then none else elim o [
      | none ↦ none
      | some a ↦ elim p [
        | none ↦ none
        | some b ↦ elim q [ none ↦ none | some c ↦ if few then none else some (f a b c) ]
      ]
    ])
      ≡ some m
    → (a : Text) × (b : ℕ) × (c : Text) × (m ≡ f a b c)
built_by true o p q few f h = absurd cc
built_by false none p q few f h = absurd cc
built_by false (some a) none q few f h = absurd cc
built_by false (some a) (some b) none few f h = absurd cc
built_by false (some a) (some b) (some c) true f h = absurd cc
built_by false (some a) (some b) (some c) false f h = (a, b, c, sym cc)

try_new-clearnet :
    (clearnet onion : Text) (port : ℕ) (protocols : List Text) (scheme : Text) (ma : ℕ)
    → (on_location on_alt : Bool) {m : OnionMapping}
    → try_new clearnet onion port protocols scheme ma on_location on_alt ≡ some m
    → m.clearnet_host ≡ normalize_clearnet_host clearnet
unfolding try_new
try_new-clearnet clearnet onion port protocols scheme ma on_location on_alt h =
    let (a, b, c, same) =
      built_by _ (parse_v3_onion_host onion) _ (parse_onion_scheme scheme) _ _ h in
    ap (λ (m : OnionMapping). m.clearnet_host) same

derived_by :
    (o : Option Text) (f : Text → Option OnionMapping) {m : OnionMapping}
    → elim o [ none ↦ none | some a ↦ f a ] ≡ some m
    → (a : Text) × (f a ≡ some m)
derived_by none f h = absurd cc
derived_by (some a) f h = (a, h)

auto_derived-clearnet :
    (clearnet url : Text) {m : OnionMapping}
    → auto_derived clearnet url ≡ some m
    → m.clearnet_host ≡ normalize_clearnet_host clearnet
unfolding auto_derived
auto_derived-clearnet clearnet url h =
    let (a, made) = derived_by (parse_v3_onion_host url) _ h in
    try_new-clearnet clearnet a default_onion_port (text "h2" ∷ []) (scheme_from_onion_url url)
      default_ma_seconds true true made

module _ (mail_block : List Text) where
  insert-IsUnblocked :
      (host : Text) (m : OnionMapping) (table : Assoc Text OnionMapping)
      → host_is_blocked_mail host mail_block ≡ false
      → IsUnblocked mail_block table
      → IsUnblocked mail_block (insert host m table)
  insert-IsUnblocked host m table fine free k blocked =
      lookup-insert host k m table ∙ elim (Bool-cases (host == k)) [
        | inl same ↦ absurd (
            let e = (list_beq_iff host k).0 same in
            contradictory (ap (λ h. host_is_blocked_mail h mail_block) e ∙ blocked) fine)
        | inr apart ↦ rw apart (free k blocked)
      ]

  insert_extras-IsUnblocked :
      (ms : List OnionMapping) (table : Assoc Text OnionMapping)
      → IsUnblocked mail_block table
      → IsUnblocked mail_block (insert_extras mail_block ms table)
  unfolding insert_extras
  insert_extras-IsUnblocked [] table free = free
  insert_extras-IsUnblocked (m ∷ ms) table free =
      insert_extras-IsUnblocked ms _
        (elim (Bool-cases (host_is_blocked_mail m.clearnet_host mail_block)) [
          | inl blocked ↦ rw blocked free
          | inr fine ↦ rw fine (insert-IsUnblocked m.clearnet_host m table fine free)
        ])

  switch_off-IsUnblocked :
      (change : OnionMapping → OnionMapping) (hosts : List Text) (table : Assoc Text OnionMapping)
      → IsUnblocked mail_block table
      → IsUnblocked mail_block (switch_off change hosts table)
  unfolding switch_off
  switch_off-IsUnblocked change [] table free = free
  switch_off-IsUnblocked change (host ∷ hosts) table free =
      let key = normalize_clearnet_host host in
      switch_off-IsUnblocked change hosts _ (elim (Option-cases (lookup key table)) [
        | inl unmapped ↦ rw unmapped free
        | inr (m, mapped) ↦ rw mapped (
            insert-IsUnblocked key (change m) table
              (elim (Bool-cases (host_is_blocked_mail key mail_block)) [
                | inl blocked ↦ absurd (not_mapped (free key blocked) mapped)
                | inr fine ↦ fine
              ])
              free)
      ])

  insert_services-IsUnblocked :
      (services : Text) (onion_url : Option Text) (table : Assoc Text OnionMapping)
      → normalize_clearnet_host services ≡ services
      → IsUnblocked mail_block table
      → IsUnblocked mail_block (insert_services mail_block services onion_url table)
  unfolding insert_services
  insert_services-IsUnblocked services none table plain free = free
  insert_services-IsUnblocked services (some url) table plain free =
      elim (Bool-cases (
        is_empty services
        || host_is_blocked_mail services mail_block
        || contains_key services table)) [
          | inl skipped ↦ rw skipped free
          | inr tried ↦ elim (Option-cases (auto_derived services url)) [
            | inl underived ↦ rw (tried, underived) free
            | inr (m, derived) ↦
                rw (tried, derived)
                  (insert-IsUnblocked m.clearnet_host m table
                    (ap (λ h. host_is_blocked_mail h mail_block)
                        (auto_derived-clearnet services url derived ∙ plain)
                      ∙ (or_parts (is_empty services) (host_is_blocked_mail services mail_block)
                          (contains_key services table) tried))
                    free)
          ]
        ]

-- A host that is blocked as a mail host, `mail.` under the apex or one of the further mail hosts,
-- is found in no table of onion addresses that the process builds, whatever was configured and
-- whatever the process-wide address is, where the services host stays the same when it is
-- normalized again.
pub mail_never_mapped :
    (primary_domain services_hostname : Text) (onion_url : Option Text) (on_location on_alt : Bool)
    → (extra : List OnionMapping) (location_off alt_off mail_hosts : List Text) (host : Text)
    → normalize_clearnet_host (normalize_clearnet_host services_hostname)
      ≡ normalize_clearnet_host services_hostname
    → host_is_blocked_mail
        (normalize_clearnet_host host)
        (mail_hosts_blocked (normalize_clearnet_host primary_domain) mail_hosts)
      ≡ true
    → lookup_host
        (build_onion_discovery_with_mail primary_domain services_hostname onion_url on_location
          on_alt extra location_off alt_off mail_hosts)
        host
      ≡ none
unfolding build_onion_discovery_with_mail lookup_host
mail_never_mapped primary services url on_location on_alt extra location_off alt_off mail_hosts host
      plain blocked =
    let mail_block = mail_hosts_blocked (normalize_clearnet_host primary) mail_hosts in
    empty_or (is_empty (normalize_clearnet_host host)) (
      switch_off-IsUnblocked mail_block without_alt_svc alt_off _
        (switch_off-IsUnblocked mail_block without_location location_off _ (
          insert_services-IsUnblocked mail_block (normalize_clearnet_host services) url _ plain
            (insert_extras-IsUnblocked mail_block extra [] (λ k h. refl))))
        (normalize_clearnet_host host) blocked)
