-- ===== src/Onion/Headers.antt =====
-- crates/management-ui/src/onion_discovery.rs: the headers of a response that name the onion address.
use surmount_server.Assoc.{Assoc, lookup}
use surmount_server.Net.{ip_eq}
use surmount_server.Onion.{OnionMapping, host_is_onion, join_with, normalize_clearnet_host}
use surmount_server.Prelude.{
  Bool, Option, [], false, if◌then◌else◌, is_empty, leb, list_eq, ltb, map, nat_eq, none, not, some,
  true, ℕ, ◌&&◌, ◌++◌, ◌||◌, ◌∷◌,
}
use surmount_server.Redirect.Location.{digits}
use surmount_server.Text.{Text, contains_char, text, trim}
use surmount_server.Text.Chars.{trim_end_matches}

-- `HeaderValue`
pub record HeaderValues (V : Type 0) : Type 0 where
  pub from_str : Text → Option V
  pub to_str : V → Option Text

-- the two headers of a response that this code reads and writes
pub record HeaderMap (V : Type 0) : Type 0 where
  pub onion_location : Option V
  pub alt_svc : Option V

pub record OnionDiscoveryConfig : Type 0 where
  pub emits_location : Bool
  pub emits_alt_svc : Bool
  pub mappings : Assoc Text OnionMapping

unfoldable pub lookup_host : OnionDiscoveryConfig → Text → Option OnionMapping
unfolding normalize_clearnet_host lookup
lookup_host cfg host =
    let key = normalize_clearnet_host host in if is_empty key then none else lookup key cfg.mappings

-- an address of the request: its path and its query
pub record Uri : Type 0 where
  pub path : Text
  pub query : Option Text

abbrev pub query_part : Option Text → Text
query_part none = []
query_part (some q) = if is_empty q then [] else b'?' ∷ q

abbrev pub location_text : OnionMapping → Uri → Text
location_text mapping uri =
    mapping.onion_scheme
    ++ text "://"
    ++ mapping.onion_host
    ++ trim_end_matches b'/' mapping.onion_path_prefix
    ++ (if is_empty uri.path then text "/" else uri.path)
    ++ query_part uri.query

unfoldable pub onion_location_value : OnionMapping → Uri → Option Text
unfolding trim_end_matches contains_char
onion_location_value mapping uri =
    let loc = location_text mapping uri in
    if contains_char b'\r' loc || contains_char b'\n' loc || contains_char 0 loc
    then none
    else some loc

-- `Display for u64`, which has at most twenty digits
unfoldable pub show_u64 : ℕ → Text
unfolding digits
show_u64 n = digits 20 n []

-- the quotation mark
abbrev quote : ℕ
quote = 34

-- one protocol of the header's value
abbrev alt_svc_part : OnionMapping → Text → Text
alt_svc_part mapping proto =
    proto
    ++ b'=' ∷ quote ∷ mapping.onion_authority
    ++ quote ∷ text "; ma="
    ++ show_u64 mapping.ma_seconds
    ++ text "; persist=1"

unfoldable pub alt_svc_value : OnionMapping → Option Text
unfolding contains_char join_with show_u64
alt_svc_value mapping =
    if is_empty mapping.protocols
    then none
    else if contains_char quote mapping.onion_authority
        || contains_char b'\\' mapping.onion_authority
        || contains_char b'\n' mapping.onion_authority
    then none
    else some (join_with (text ", ") (map (alt_svc_part mapping) mapping.protocols))

unfoldable pub discovery_eligible : (listen_is_https cleartext_socket : Bool) → Text → ℕ → Bool
unfolding host_is_onion
discovery_eligible listen_is_https cleartext_socket host status =
    if not listen_is_https || cleartext_socket
    then false
    else if host_is_onion host
    then false
    else leb 200 status && ltb status 400

module _ {V : Type 0} (values : HeaderValues V) where
  -- the value that is there already, as text
  abbrev pub existing_text : Option V → Option Text
  existing_text none = none
  existing_text (some v) = values.to_str v

  abbrev pub merged_with : Option Text → Text → Text
  merged_with none extra = extra
  merged_with (some existing) extra =
      if is_empty (trim existing) then extra else existing ++ text ", " ++ extra

  unfoldable pub merge_alt_svc_token : HeaderMap V → Text → Bool × HeaderMap V
  unfolding contains_char trim
  merge_alt_svc_token headers extra =
      if is_empty extra || contains_char b'\n' extra || contains_char b'\r' extra
      then (false, headers)
      else elim (values.from_str (merged_with (existing_text headers.alt_svc) extra)) [
        | none ↦ (false, headers)
        | some hv ↦ (true, record headers { alt_svc = some hv })
      ]

  unfoldable pub put_location : Bool → OnionMapping → Uri → HeaderMap V → Bool × HeaderMap V
  unfolding onion_location_value
  put_location emit_ol mapping uri headers =
      if emit_ol
      then elim (onion_location_value mapping uri) [
        | none ↦ (false, headers)
        | some val ↦ elim (values.from_str val) [
          | none ↦ (false, headers)
          | some hv ↦ (true, record headers { onion_location = some hv })
        ]
      ]
      else (false, headers)

  unfoldable pub put_alt_svc : Bool → OnionMapping → HeaderMap V → Bool × HeaderMap V
  unfolding alt_svc_value merge_alt_svc_token
  put_alt_svc emit_alt mapping headers =
      if emit_alt
      then elim (alt_svc_value mapping) [
        | none ↦ (false, headers)
        | some val ↦ merge_alt_svc_token headers val
      ]
      else (false, headers)

  -- the headers of a mapping, one after the other
  unfoldable pub put_headers :
      OnionDiscoveryConfig → OnionMapping → Uri → HeaderMap V → Bool × HeaderMap V
  unfolding put_location put_alt_svc
  put_headers cfg mapping uri headers =
      let (located, headers1) =
        put_location (cfg.emits_location && mapping.onion_location_enabled) mapping uri headers in
      let (offered, headers2) =
        put_alt_svc (cfg.emits_alt_svc && mapping.alt_svc_enabled) mapping headers1 in
      (located || offered, headers2)

  unfoldable pub apply_onion_discovery_headers :
      HeaderMap V
      → OnionDiscoveryConfig
      → (listen_is_https cleartext_socket : Bool) → (host : Text) → Uri
      → (status : ℕ) → Bool × HeaderMap V
  unfolding discovery_eligible lookup_host put_headers
  apply_onion_discovery_headers headers cfg listen_is_https cleartext_socket host uri status =
      if not (discovery_eligible listen_is_https cleartext_socket host status)
      then (false, headers)
      else elim (lookup_host cfg host) [
        | none ↦ (false, headers)
        | some mapping ↦ put_headers cfg mapping uri headers
      ]
