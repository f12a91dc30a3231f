-- ===== src/Onion/Tests.antt =====
-- crates/management-ui/src/onion_discovery.rs on concrete inputs.
use surmount_server.Net.{ip_eq}
use surmount_server.Onion.{OnionMapping, auto_derived, host_is_onion, normalize_clearnet_host}
use surmount_server.Onion.Build.{
  build_onion_discovery_with_mail, host_is_blocked_mail, mail_hosts_blocked,
}
use surmount_server.Onion.Headers.{
  HeaderMap, HeaderValues, OnionDiscoveryConfig, Uri, apply_onion_discovery_headers, lookup_host,
}
use surmount_server.Onion.Laws.{IsToldBy, told_if_eligible}
use surmount_server.Onion.Mail.{mail_never_mapped}
use surmount_server.Prelude.{
  [], false, list_eq, nat_eq, none, refl, some, true, ◌++◌, ◌<◌, ◌∷◌, ◌≡◌, ◌≤◌, ◌⊎◌,
}
use surmount_server.Text.{Text, text}

abbrev onion_name : Text
onion_name = text "abcdefghijklmnopqrstuvwxyz234567abcdefghijklmnopqrstuvwx.onion"

abbrev home : Text
home = text "home.test"

-- every text is a header's value
abbrev any_value : HeaderValues Text
any_value = record { from_str = λ t. some t; to_str = λ v. some v }

abbrev bare : HeaderMap Text
bare = record { onion_location = none; alt_svc = none }

abbrev home_mapping : OnionMapping
home_mapping = record {
  clearnet_host = home;
  onion_host = onion_name;
  onion_port = 443;
  protocols = text "h2" ∷ [];
  onion_scheme = text "http";
  ma_seconds = 86400;
  onion_authority = onion_name ++ text ":443";
  onion_location_enabled = true;
  alt_svc_enabled = true;
  onion_path_prefix = [];
}

home_derived :
    auto_derived (text "Home.Test:443") (text "http://" ++ onion_name ++ text "/")
    ≡ some home_mapping
unfolding auto_derived
home_derived = refl

abbrev home_config : OnionDiscoveryConfig
home_config =
    build_onion_discovery_with_mail (text "test") (text "services.test") none true true
      (home_mapping ∷ []) [] (home ∷ []) []

abbrev asked : Uri
asked = record { path = text "/a"; query = some (text "x=1") }

home_is_told :
    apply_onion_discovery_headers any_value bare home_config true false home asked 200
    ≡ (true, record bare { onion_location = some (text "http://" ++ onion_name ++ text "/a?x=1") })
unfolding apply_onion_discovery_headers build_onion_discovery_with_mail
home_is_told = refl

told_if_eligible_example :
    (apply_onion_discovery_headers any_value bare home_config true false home asked 200
      ≡ (false, bare))
    ⊎ (((true ≡ true) × (false ≡ false) × (host_is_onion home ≡ false) × (200 ≤ 200) × (200 < 400))
        × (mapping : OnionMapping) × (lookup_host home_config home ≡ some mapping)
        × IsToldBy any_value home_config mapping asked bare
            (apply_onion_discovery_headers any_value bare home_config true false home asked 200).1)
told_if_eligible_example = told_if_eligible any_value bare home_config true false home asked 200

services_plain :
    normalize_clearnet_host (normalize_clearnet_host (text "services.test"))
    ≡ normalize_clearnet_host (text "services.test")
unfolding normalize_clearnet_host
services_plain = refl

mail_blocked :
    host_is_blocked_mail
      (normalize_clearnet_host (text "Mail.Test"))
      (mail_hosts_blocked (normalize_clearnet_host (text "test")) [])
    ≡ true
unfolding normalize_clearnet_host mail_hosts_blocked host_is_blocked_mail
mail_blocked = refl

mail_never_mapped_example :
    lookup_host
      (build_onion_discovery_with_mail
        (text "test")
        (text "services.test")
        (some onion_name)
        true
        true
        (record home_mapping { clearnet_host = text "mail.test" } ∷ [])
        []
        []
        [])
      (text "Mail.Test")
    ≡ none
mail_never_mapped_example =
    mail_never_mapped (text "test") (text "services.test") (some onion_name) true true
      (record home_mapping { clearnet_host = text "mail.test" } ∷ []) [] [] [] (text "Mail.Test")
      services_plain mail_blocked
