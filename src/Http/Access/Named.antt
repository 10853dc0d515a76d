-- ===== src/Http/Access/Named.antt =====
-- lib/httpapi/server.go: which Host headers pass the check of the host.
use agentapi_plusplus.Http.Hosts.{
  finish_hosts, prepend_url, Url, allowed, ParsedUrls, urls, bad, star, contains_text, first_error,
  separator_error, scheme_error, parse_urls, first_port, parse_allowed_hosts, is_host_allowed,
}
use agentapi_plusplus.Prelude.{
  ◌≡◌, ◌⊎◌, refl, sym, ap, ◌∙◌, inl, inr, true, false, List, [], ◌∷◌, ◌++◌, map, Option, none, some,
  Bool-cases, Option-cases, arith, is_nil, Text, text_eq, text_eq_iff, text_eq_refl, codes,
}
use agentapi_plusplus.Strings.{trim_space}

module _ (parse : Text → Option Url) (to_lower : Text → Text) where
  -- An item of the list whose URL has a text.
  abbrev pub From : Text → List Text → (Url → Text) → Text → Type 0
  From prefix input field s =
      (item : Text) × (u : Url) × (contains_text input item ≡ true)
      × (parse (prefix ++ trim_space item) ≡ some u)
      × (field u ≡ s)

  From-cons :
      (prefix x : Text) (input : List Text) (field : Url → Text) (s : Text)
      → From prefix input field s
      → From prefix (x ∷ input) field s
  unfolding contains_text
  From-cons prefix x input field s (item, u, m, p, e) = (item, u, ground (arith, m), p, e)

  prepend_url-urls :
      (u : Url) (r : ParsedUrls) (us : List Url)
      → prepend_url u r ≡ urls us
      → (vs : List Url) × (r ≡ urls vs) × (us ≡ u ∷ vs)
  prepend_url-urls u (bad s) us h = cc
  prepend_url-urls u (urls vs) us h = (vs, refl, cc)

  parse_urls-none :
      (prefix x : Text) (input : List Text)
      → parse (prefix ++ trim_space x) ≡ none
      → parse_urls parse to_lower prefix (x ∷ input) ≡ bad x
  unfolding parse_urls
  parse_urls-none prefix x input e = rw (e, parse_urls) refl

  parse_urls-some :
      (prefix x : Text) (input : List Text) (u : Url)
      → parse (prefix ++ trim_space x) ≡ some u
      → parse_urls parse to_lower prefix (x ∷ input)
        ≡ prepend_url u (parse_urls parse to_lower prefix input)
  unfolding parse_urls
  parse_urls-some prefix x input u e = rw (e, parse_urls) refl

  parse_urls-From :
      (prefix : Text) (input : List Text) (us : List Url) (field : Url → Text) (s : Text)
      → parse_urls parse to_lower prefix input ≡ urls us
      → contains_text (map field us) s ≡ true
      → From prefix input field s
  unfolding parse_urls contains_text
  parse_urls-From prefix [] [] field s h k = cc
  parse_urls-From prefix [] (u ∷ us) field s h k = cc
  parse_urls-From prefix (x ∷ input) us field s h k =
      elim (Option-cases (parse (prefix ++ trim_space x))) [
        | inl e ↦ (let g = parse_urls-none prefix x input e in cc)
        | inr (u, e) ↦
            let (vs, p, q) =
              prepend_url-urls u (parse_urls parse to_lower prefix input) us
                (sym (parse_urls-some prefix x input u e) ∙ h) in
            elim (Bool-cases (text_eq (field u) s)) [
              | inl same ↦ (x, u, ground (arith, text_eq_refl x), e, (text_eq_iff _ _).0 same)
              | inr other ↦
                  From-cons prefix x input field s
                    (parse_urls-From prefix input vs field s p (rw (q, other) at k))
            ]
      ]

  -- What an allowed host header means for the configured list: the list has the star, or an item that is
  -- parsed to the star, or one with the same host name up to case.
  abbrev pub IsNamed : List Text → Text → Type 0
  IsNamed input header =
      (contains_text input star ≡ true)
      ⊎ (From (codes "http://") input (λ u. u.hostname) star
          ⊎ ((v : Url) × (parse (codes "http://" ++ header) ≡ some v)
              × From (codes "http://") input (λ u. to_lower u.hostname) (to_lower v.hostname)))

  finish_hosts-allowed :
      (r : ParsedUrls) (hs : List Text)
      → finish_hosts parse to_lower r ≡ allowed hs
      → (us : List Url) × (r ≡ urls us) × (hs ≡ map (λ u. u.hostname) us)
  finish_hosts-allowed (bad s) hs h = cc
  finish_hosts-allowed (urls us) hs h = elim (Option-cases (first_port parse to_lower us)) [
    | inr (err, e) ↦ (let g = rw (e, finish_hosts) at h in cc)
    | inl e ↦ (us, refl, (let g = rw (e, finish_hosts) at h in cc))
  ]

  -- The list that the server keeps, by the list that was configured.
  parse_allowed_hosts-allowed :
      (input hs : List Text)
      → parse_allowed_hosts parse to_lower input ≡ allowed hs
      → (contains_text input star ≡ true)
        ⊎ ((us : List Url) × (parse_urls parse to_lower (codes "http://") input ≡ urls us)
            × (hs ≡ map (λ u. u.hostname) us))
  unfolding parse_allowed_hosts
  parse_allowed_hosts-allowed input hs h = elim (Bool-cases (is_nil input)) [
    | inl e ↦ (let g = rw e at h in cc)
    | inr e ↦ elim (Bool-cases (contains_text input star)) [
      | inl f ↦ inl f
      | inr f ↦ elim (Option-cases (first_error separator_error input)) [
        | inr (err, k) ↦ (let g = rw (e, f, k) at h in cc)
        | inl k ↦ elim (Option-cases (first_error scheme_error input)) [
          | inr (err, l) ↦ (let g = rw (e, f, k, l) at h in cc)
          | inl l ↦ inr (finish_hosts-allowed _ hs (rw (e, f, k, l) at h))
        ]
      ]
    ]
  ]

  map-map :
      (us : List Url) → map to_lower (map (λ u. u.hostname) us) ≡ map (λ u. to_lower u.hostname) us
  map-map [] = refl
  map-map (u ∷ us) = ap (◌∷◌ (to_lower u.hostname)) (map-map us)

  is_host_allowed-some :
      (hs : List Text) (header : Text)
      → contains_text hs star ≡ false
      → is_host_allowed parse to_lower hs header ≡ true
      → (v : Url) × (parse (codes "http://" ++ header) ≡ some v)
        × (contains_text (map to_lower hs) (to_lower v.hostname) ≡ true)
  unfolding is_host_allowed
  is_host_allowed-some hs header h k = elim (Bool-cases (is_nil header)) [
    | inl e ↦ (let g = rw (h, e) at k in cc)
    | inr e ↦ elim (Option-cases (parse (codes "http://" ++ header))) [
      | inl f ↦ (let g = rw (h, e, f) at k in cc)
      | inr (v, f) ↦ (v, f, rw (h, e, f) at k)
    ]
  ]

  pub is_host_allowed-IsNamed :
      (input hs : List Text) (header : Text)
      → parse_allowed_hosts parse to_lower input ≡ allowed hs
      → is_host_allowed parse to_lower hs header ≡ true
      → IsNamed input header
  is_host_allowed-IsNamed input hs header h k = elim (parse_allowed_hosts-allowed input hs h) [
    | inl stars ↦ inl stars
    | inr (us, p, q) ↦ elim (Bool-cases (contains_text hs star)) [
      | inl s ↦
          inr
            (inl (parse_urls-From (codes "http://") input us (λ u. u.hostname) star p (rw q at s)))
      | inr s ↦
          let (v, e, m) = is_host_allowed-some hs header s k in
          inr (
            inr (
              v,
              e,
              parse_urls-From (codes "http://") input us (λ u. to_lower u.hostname)
                  (to_lower v.hostname) p (rw (q, map-map us) at m),
            ))
    ]
  ]
