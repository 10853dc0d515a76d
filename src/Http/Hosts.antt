-- ===== src/Http/Hosts.antt =====
-- lib/httpapi/server.go: the lists of allowed hosts and origins, and the check of the Host header. `url.Parse`
-- and `strings.ToLower` are parameters.
use agentapi_plusplus.Prelude.{
  Bool, true, false, ◌||◌, List, [], ◌∷◌, ◌++◌, map, Option, none, some, if◌then◌else◌, is_nil,
  Text, text_eq, codes,
}
use agentapi_plusplus.Strings.{contains, is_space, trim_space}

-- A parsed URL: its fields `Scheme` and `Host`, and what `Hostname` and `Port` give.
pub record Url : Type 0 where
  pub scheme : Text
  pub host : Text
  pub hostname : Text
  pub port : Text

pub data ListError : Type 0 where
  is_empty : ListError
  has_white_space has_comma has_scheme is_invalid has_port : Text → ListError

-- The lists of the configuration, or the first error.
pub data Parsed : Type 0 where
  refused : ListError → Parsed
  allowed : List Text → Parsed

abbrev pub star : Text
star = codes "*"

-- `slices.Contains`.
unfoldable pub contains_text : List Text → Text → Bool
contains_text [] s = false
contains_text (t ∷ ts) s = text_eq t s || contains_text ts s

-- A loop that returns at the first item with an error.
unfoldable pub first_error : (Text → Option ListError) → List Text → Option ListError
first_error check [] = none
first_error check (s ∷ ss) = elim (check s) [ some e ↦ some e | none ↦ first_error check ss ]

unfoldable pub has_space : Text → Bool
has_space [] = false
has_space (r ∷ s) = is_space r || has_space s

unfoldable pub separator_error : Text → Option ListError
unfolding has_space contains
separator_error item =
    if has_space item
    then some (has_white_space item)
    else if contains item (codes ",")
    then some (has_comma item)
    else none

unfoldable pub scheme_error : Text → Option ListError
unfolding contains
scheme_error item =
    if contains item (codes "http://") || contains item (codes "https://")
    then some (has_scheme item)
    else none

-- What the passes give for a list: the URLs, or the first item that does not parse.
pub data ParsedUrls : Type 0 where
  bad : Text → ParsedUrls
  urls : List Url → ParsedUrls

abbrev pub prepend_url : Url → ParsedUrls → ParsedUrls
prepend_url u (bad s) = bad s
prepend_url u (urls us) = urls (u ∷ us)

module _ (parse : Text → Option Url) (to_lower : Text → Text) where
  -- `url.Parse(prefix + trimmed)` for each item.
  unfoldable pub parse_urls : Text → List Text → ParsedUrls
  parse_urls prefix [] = urls []
  parse_urls prefix (s ∷ ss) = elim (parse (prefix ++ trim_space s)) [
    | none ↦ bad s
    | some u ↦ prepend_url u (parse_urls prefix ss)
  ]

  unfoldable pub first_port : List Url → Option ListError
  first_port [] = none
  first_port (u ∷ us) = if is_nil u.port then first_port us else some (has_port u.host)

  abbrev pub finish_hosts : ParsedUrls → Parsed
  finish_hosts (bad s) = refused (is_invalid s)
  finish_hosts (urls us) = elim (first_port us) [
    | some e ↦ refused e
    | none ↦ allowed (map (λ u. u.hostname) us)
  ]

  unfoldable pub parse_allowed_hosts : List Text → Parsed
  unfolding first_error separator_error scheme_error parse_urls first_port
  parse_allowed_hosts input =
      if is_nil input
      then refused is_empty
      else if contains_text input star
      then allowed (star ∷ [])
      else elim (first_error separator_error input) [
        | some e ↦ refused e
        | none ↦ elim (first_error scheme_error input) [
          | some e ↦ refused e
          | none ↦ finish_hosts (parse_urls (codes "http://") input)
        ]
      ]

  abbrev pub finish_origins : ParsedUrls → Parsed
  finish_origins (bad s) = refused (is_invalid s)
  finish_origins (urls us) = allowed (map (λ u. u.scheme ++ codes "://" ++ u.host) us)

  unfoldable pub parse_allowed_origins : List Text → Parsed
  unfolding first_error separator_error parse_urls
  parse_allowed_origins input =
      if is_nil input
      then refused is_empty
      else if contains_text input star
      then allowed (star ∷ [])
      else elim (first_error separator_error input) [
        | some e ↦ refused e
        | none ↦ finish_origins (parse_urls [] input)
      ]

  -- `hostAuthorizationMiddleware`: whether the next handler serves a request with this Host header.
  unfoldable pub is_host_allowed : List Text → Text → Bool
  unfolding contains_text
  is_host_allowed allowed_hosts host_header =
      if contains_text allowed_hosts star
      then true
      else if is_nil host_header
      then false
      else elim (parse (codes "http://" ++ host_header)) [
        | none ↦ false
        | some u ↦ contains_text (map to_lower allowed_hosts) (to_lower u.hostname)
      ]
