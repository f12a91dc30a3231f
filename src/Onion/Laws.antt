-- ===== src/Onion/Laws.antt =====
-- crates/management-ui/src/onion_discovery.rs: who is told of an onion address, and of which.
use mathlib.Core.Path.{subst}
use surmount_server.Net.{ip_eq}
use surmount_server.Onion.{OnionMapping, host_is_onion}
use surmount_server.Onion.Headers.{
  HeaderMap, HeaderValues, OnionDiscoveryConfig, Uri, alt_svc_value, apply_onion_discovery_headers,
  discovery_eligible, existing_text, location_text, lookup_host, merge_alt_svc_token, merged_with,
  onion_location_value, put_alt_svc, put_headers, put_location, query_part,
}
use surmount_server.Prelude.{
  Bool, Bool-cases, Option, Option-cases, [], ap, arith, false, if◌then◌else◌, inl, inr, is_empty,
  leb, list_eq, ltb, nat_eq, none, not, refl, some, sym, true, ℕ, ◌&&◌, ◌++◌, ◌<◌, ◌||◌, ◌∙◌, ◌∷◌,
  ◌≡◌, ◌≢◌, ◌≤◌, ◌⊎◌,
}
use surmount_server.Text.{Text, contains_char, text}
use surmount_server.Text.Chars.{trim_end_matches}

-- the path that is shown for a request: its own, or the root
abbrev IsShownPath : Text → Text → Type 0
IsShownPath path shown = ((path ≢ []) × (shown ≡ path)) ⊎ ((path ≡ []) × (shown ≡ text "/"))

-- the query that is shown for a request, after its mark
abbrev IsShownQuery : Option Text → Text → Type 0
IsShownQuery query shown =
    (((query ≡ none) ⊎ (query ≡ some [])) × (shown ≡ []))
    ⊎ ((q : Text) × (query ≡ some q) × (q ≢ []) × (shown ≡ b'?' ∷ q))

-- The onion address for a request: the scheme and the host of the mapping, and the path and the query
-- of the request, all on one line.
abbrev pub IsAddressOf : OnionMapping → Uri → Text → Type 0
IsAddressOf mapping uri t =
    (shown query : Text) × (t
      ≡ mapping.onion_scheme
        ++ text "://"
        ++ mapping.onion_host
        ++ trim_end_matches b'/' mapping.onion_path_prefix
        ++ shown
        ++ query)
    × IsShownPath uri.path shown
    × IsShownQuery uri.query query
    × (contains_char b'\r' t ≡ false)
    × (contains_char b'\n' t ≡ false)

shown_path : (path : Text) → IsShownPath path (if is_empty path then text "/" else path)
shown_path [] = inr (refl, refl)
shown_path (c ∷ path) = inl ((λ e. cc), refl)

shown_query : (query : Option Text) → IsShownQuery query (query_part query)
shown_query none = inl (inl refl, refl)
shown_query (some []) = inl (inr refl, refl)
shown_query (some (c ∷ q)) = inr (c ∷ q, refl, (λ e. cc), refl)

safe_text :
    (r n z : Bool) (loc : Text) {t : Text}
    → (if r || n || z then none else some loc) ≡ some t
    → (loc ≡ t) × (r ≡ false) × (n ≡ false)
safe_text true n z loc h = absurd cc
safe_text false true z loc h = absurd cc
safe_text false false true loc h = absurd cc
safe_text false false false loc h = (cc, refl, refl)

onion_location-IsAddressOf :
    (mapping : OnionMapping) (uri : Uri) {t : Text}
    → onion_location_value mapping uri ≡ some t
    → IsAddressOf mapping uri t
unfolding onion_location_value
onion_location-IsAddressOf mapping uri h =
    let loc = location_text mapping uri in
    let (same, no_return, no_feed) =
      safe_text (contains_char b'\r' loc) (contains_char b'\n' loc) (contains_char 0 loc) loc h in
    (
      if is_empty uri.path then text "/" else uri.path,
      query_part uri.query,
      sym same,
      shown_path uri.path,
      shown_query uri.query,
      ap (contains_char b'\r') (sym same) ∙ no_return,
      ap (contains_char b'\n') (sym same) ∙ no_feed,
    )

module _ {V : Type 0} (values : HeaderValues V) where
  put_location_cases :
      (emit_ol : Bool) (mapping : OnionMapping) (uri : Uri) (headers : HeaderMap V)
      → (put_location values emit_ol mapping uri headers ≡ (false, headers))
        ⊎ ((emit_ol ≡ true)
            × (t : Text) × (onion_location_value mapping uri ≡ some t)
            × (v : V) × (values.from_str t ≡ some v)
            × (put_location values emit_ol mapping uri headers
                ≡ (true, record headers { onion_location = some v })))
  unfolding put_location
  put_location_cases false mapping uri headers = inl refl
  put_location_cases true mapping uri headers =
      elim (Option-cases (onion_location_value mapping uri)) [
        | inl unsafe ↦ inl (rw unsafe refl)
        | inr (t, valued) ↦ elim (Option-cases (values.from_str t)) [
          | inl refused_value ↦ inl (rw (valued, refused_value) refl)
          | inr (v, made) ↦ inr (refl, t, valued, v, made, rw (valued, made) refl)
        ]
      ]

  merge_cases :
      (headers : HeaderMap V) (extra : Text)
      → (merge_alt_svc_token values headers extra ≡ (false, headers))
        ⊎ ((v : V) × (merge_alt_svc_token values headers extra
              ≡ (true, record headers { alt_svc = some v })))
  unfolding merge_alt_svc_token
  merge_cases headers extra =
      elim (Bool-cases (is_empty extra || contains_char b'\n' extra || contains_char b'\r' extra)) [
        | inl bad ↦ inl (rw bad refl)
        | inr fine ↦
            elim (Option-cases
              (values.from_str (merged_with values (existing_text values headers.alt_svc) extra))) [
                | inl refused_value ↦ inl (rw (fine, refused_value) refl)
                | inr (v, made) ↦ inr (v, rw (fine, made) refl)
              ]
      ]

  put_alt_svc_cases :
      (emit_alt : Bool) (mapping : OnionMapping) (headers : HeaderMap V)
      → (put_alt_svc values emit_alt mapping headers ≡ (false, headers))
        ⊎ ((emit_alt ≡ true)
            × (v : V) × (put_alt_svc values emit_alt mapping headers
                ≡ (true, record headers { alt_svc = some v })))
  unfolding put_alt_svc
  put_alt_svc_cases false mapping headers = inl refl
  put_alt_svc_cases true mapping headers = elim (Option-cases (alt_svc_value mapping)) [
    | inl nothing ↦ inl (rw nothing refl)
    | inr (val, valued) ↦ elim (merge_cases headers val) [
      | inl same ↦ inl (rw valued same)
      | inr (v, merged) ↦ inr (refl, v, rw valued merged)
    ]
  ]

  -- what a mapping may change of the headers, given the answer
  abbrev pub IsToldBy :
      OnionDiscoveryConfig → OnionMapping → Uri → HeaderMap V → HeaderMap V → Type 0
  IsToldBy cfg mapping uri headers after =
      ((after.onion_location ≡ headers.onion_location)
        ⊎ ((cfg.emits_location && mapping.onion_location_enabled ≡ true)
            × (t : Text) × (onion_location_value mapping uri ≡ some t)
            × (after.onion_location ≡ values.from_str t)
            × IsAddressOf mapping uri t))
      × ((after.alt_svc ≡ headers.alt_svc) ⊎ (cfg.emits_alt_svc && mapping.alt_svc_enabled ≡ true))

  -- two steps on the headers, of which either may do nothing
  abbrev both_steps : Bool × HeaderMap V → (HeaderMap V → Bool × HeaderMap V) → Bool × HeaderMap V
  both_steps r offer = (r.0 || (offer r.1).0, (offer r.1).1)

  module _ (cfg : OnionDiscoveryConfig) (mapping : OnionMapping) (uri : Uri) (headers : HeaderMap V)
      (offer : HeaderMap V → Bool × HeaderMap V) where
    abbrev IsQuietOrTold : Bool × HeaderMap V → Type 0
    IsQuietOrTold r = (r ≡ (false, headers)) ⊎ IsToldBy cfg mapping uri headers r.1

    abbrev OffersIn : HeaderMap V → Type 0
    OffersIn h =
        (offer h ≡ (false, h))
        ⊎ ((cfg.emits_alt_svc && mapping.alt_svc_enabled ≡ true)
            × (v : V) × (offer h ≡ (true, record h { alt_svc = some v })))

    unlocated_cases : OffersIn headers → IsQuietOrTold (both_steps (false, headers) offer)
    unlocated_cases (inl unoffered) = inl (rw unoffered refl)
    unlocated_cases (inr (on_alt, v, offered)) = inr (rw offered (inl refl, inr on_alt))

    located_cases :
        (v : V) (t : Text)
        → (cfg.emits_location && mapping.onion_location_enabled ≡ true)
        → onion_location_value mapping uri ≡ some t
        → values.from_str t ≡ some v
        → OffersIn (record headers { onion_location = some v })
        → IsQuietOrTold (both_steps (true, record headers { onion_location = some v }) offer)
    located_cases v t on_location valued made (inl unoffered) = inr (
        rw unoffered (
          inr (on_location, t, valued, sym made, onion_location-IsAddressOf mapping uri valued),
          inl refl,
        ))
    located_cases v t on_location valued made (inr (on_alt, w, offered)) = inr (
        rw offered (
          inr (on_location, t, valued, sym made, onion_location-IsAddressOf mapping uri valued),
          inr on_alt,
        ))

  put_headers_cases :
      (cfg : OnionDiscoveryConfig) (mapping : OnionMapping) (uri : Uri) (headers : HeaderMap V)
      → (put_headers values cfg mapping uri headers ≡ (false, headers))
        ⊎ IsToldBy cfg mapping uri headers (put_headers values cfg mapping uri headers).1
  unfolding put_headers
  put_headers_cases cfg mapping uri headers =
      let emit_alt = cfg.emits_alt_svc && mapping.alt_svc_enabled in
      let offer : HeaderMap V → Bool × HeaderMap V = put_alt_svc values emit_alt mapping in
      let goal : Bool × HeaderMap V → Type 0 =
        λ r. IsQuietOrTold cfg mapping uri headers offer (both_steps r offer) in
      elim (put_location_cases (cfg.emits_location && mapping.onion_location_enabled) mapping uri
        headers) [
          | inl same ↦ subst goal (sym same) (
              unlocated_cases cfg mapping uri headers offer
                (put_alt_svc_cases emit_alt mapping headers))
          | inr (on_location, t, valued, v, made, located) ↦ subst goal (sym located) (
              located_cases cfg mapping uri headers offer v t on_location valued made
                (put_alt_svc_cases emit_alt mapping (record headers { onion_location = some v })))
        ]

eligible_parts :
    (listen_is_https cleartext_socket onion : Bool) (status : ℕ)
    → (if not listen_is_https || cleartext_socket
        then false
        else if onion
        then false
        else leb 200 status && ltb status 400)
      ≡ true
    → (listen_is_https ≡ true)
      × (cleartext_socket ≡ false)
      × (onion ≡ false)
      × (200 ≤ status)
      × (status < 400)
eligible_parts false cleartext onion status h = absurd cc
eligible_parts true true onion status h = absurd cc
eligible_parts true false true status h = absurd cc
eligible_parts true false false status h = ground arith

module _ {V : Type 0} (values : HeaderValues V) where
  -- A response's headers are left as they were and nothing is reported, or the response goes over
  -- HTTPS and not over a cleartext socket, the host is not an onion one, the status is from 200 to
  -- 399 and the host has a mapping; then Onion-Location is as it was, or both its switches are on
  -- and it is made of a text without line breaks: the mapping's scheme and host, the request's path
  -- or the root for an empty one, and the query if it is not empty; and Alt-Svc is as it was or
  -- both its switches are on.
  pub told_if_eligible :
      (headers : HeaderMap V) (cfg : OnionDiscoveryConfig) (listen_is_https cleartext_socket : Bool)
      → (host : Text) (uri : Uri) (status : ℕ)
      → (apply_onion_discovery_headers values headers cfg listen_is_https cleartext_socket host uri
            status
          ≡ (false, headers))
        ⊎ (((listen_is_https ≡ true)
              × (cleartext_socket ≡ false)
              × (host_is_onion host ≡ false)
              × (200 ≤ status)
              × (status < 400))
            × (mapping : OnionMapping) × (lookup_host cfg host ≡ some mapping)
            × IsToldBy values cfg mapping uri headers
                (apply_onion_discovery_headers values headers cfg listen_is_https cleartext_socket
                  host uri status).1)
  unfolding apply_onion_discovery_headers discovery_eligible
  told_if_eligible headers cfg https cleartext host uri status =
      elim (Bool-cases (discovery_eligible https cleartext host status)) [
        | inr barred ↦ inl (rw barred refl)
        | inl eligible ↦ elim (Option-cases (lookup_host cfg host)) [
          | inl unmapped ↦ inl (rw (eligible, unmapped) refl)
          | inr (mapping, mapped) ↦ elim (put_headers_cases values cfg mapping uri headers) [
            | inl same ↦ inl (rw (eligible, mapped) same)
            | inr told ↦ inr (
              eligible_parts https cleartext (host_is_onion host) status eligible,
              mapping,
              mapped,
              rw (eligible, mapped) told,
            )
          ]
        ]
      ]
