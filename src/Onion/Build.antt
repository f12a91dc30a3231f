-- ===== src/Onion/Build.antt =====
-- crates/management-ui/src/onion_discovery.rs: the table of onion addresses that the process holds.
use surmount_server.Assoc.{Assoc, contains_key, insert, lookup}
use surmount_server.Net.{ip_eq}
use surmount_server.Onion.{OnionMapping, auto_derived, normalize_clearnet_host}
use surmount_server.Onion.Headers.{OnionDiscoveryConfig}
use surmount_server.Prelude.{
  Bool, List, Option, [], any, false, if◌then◌else◌, is_empty, list_eq, nat_eq, none, some, ◌++◌,
  ◌==◌, ◌||◌, ◌∷◌,
}
use surmount_server.Text.{Text, text}

-- `push` of what is not there yet
abbrev push_new : List Text → Text → List Text
push_new out host = if any (λ h. h == host) out then out else out ++ host ∷ []

-- the loop over the further mail hosts
unfoldable pub block_more : List Text → List Text → List Text
unfolding normalize_clearnet_host
block_more [] out = out
block_more (raw ∷ rest) out =
    let host = normalize_clearnet_host raw in
    block_more rest (if is_empty host then out else push_new out host)

unfoldable pub mail_hosts_blocked : Text → List Text → List Text
unfolding block_more
mail_hosts_blocked apex extra_mail_hosts =
    block_more extra_mail_hosts (if is_empty apex then [] else (text "mail." ++ apex) ∷ [])

unfoldable pub host_is_blocked_mail : Text → List Text → Bool
host_is_blocked_mail host mail_block = any (λ m. m == host) mail_block

-- the loop over the mappings that were configured
unfoldable pub insert_extras :
    List Text → List OnionMapping → Assoc Text OnionMapping → Assoc Text OnionMapping
unfolding host_is_blocked_mail insert
insert_extras mail_block [] table = table
insert_extras mail_block (m ∷ ms) table = insert_extras mail_block ms (
    if host_is_blocked_mail m.clearnet_host mail_block
    then table
    else insert m.clearnet_host m table)

-- the mapping of the services host by the process-wide address
unfoldable pub insert_services :
    List Text → Text → Option Text → Assoc Text OnionMapping → Assoc Text OnionMapping
unfolding host_is_blocked_mail insert lookup auto_derived
insert_services mail_block services none table = table
insert_services mail_block services (some url) table =
    if is_empty services || host_is_blocked_mail services mail_block || contains_key services table
    then table
    else elim (auto_derived services url) [ none ↦ table | some m ↦ insert m.clearnet_host m table ]

-- the two loops that switch a header off for some hosts: `get_mut`, where the host has a mapping
unfoldable pub switch_off :
    (OnionMapping → OnionMapping) → List Text → Assoc Text OnionMapping → Assoc Text OnionMapping
unfolding normalize_clearnet_host lookup insert
switch_off change [] table = table
switch_off change (host ∷ hosts) table =
    let key = normalize_clearnet_host host in
    switch_off change hosts
      (elim (lookup key table) [ none ↦ table | some m ↦ insert key (change m) table ])

abbrev pub without_location : OnionMapping → OnionMapping
without_location m = record m { onion_location_enabled = false }

abbrev pub without_alt_svc : OnionMapping → OnionMapping
without_alt_svc m = record m { alt_svc_enabled = false }

unfoldable pub build_onion_discovery_with_mail :
    (primary_domain services_hostname : Text) (onion_url : Option Text) (on_location on_alt : Bool)
    → (extra : List OnionMapping)
    → (location_disabled_hosts alt_svc_disabled_hosts extra_mail_hosts : List Text)
    → OnionDiscoveryConfig
unfolding normalize_clearnet_host mail_hosts_blocked insert_extras insert_services switch_off
build_onion_discovery_with_mail primary_domain services_hostname onion_url on_location on_alt extra
      location_off alt_off extra_mail_hosts =
    let mail_block = mail_hosts_blocked (normalize_clearnet_host primary_domain) extra_mail_hosts in
    let table =
      insert_services mail_block (normalize_clearnet_host services_hostname) onion_url
        (insert_extras mail_block extra []) in
    record {
      emits_location = on_location;
      emits_alt_svc = on_alt;
      mappings =
          switch_off without_alt_svc alt_off (switch_off without_location location_off table);
    }
