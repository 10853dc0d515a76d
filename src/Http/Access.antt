-- ===== src/Http/Access.antt =====
-- lib/httpapi/server.go: the routes, and what a request has to pass before its handler runs.
pub mod Named
pub mod Keys
pub mod Served
use agentapi_plusplus.Http.Auth.{
  bearer, constant_time_equal, Unauthorized, write_unauthorized, api_key_auth,
}
use agentapi_plusplus.Http.Hosts.{
  finish_hosts, prepend_url, Url, Parsed, allowed, ParsedUrls, urls, bad, star, contains_text,
  first_error, separator_error, scheme_error, parse_urls, first_port, parse_allowed_hosts,
  is_host_allowed,
}
use agentapi_plusplus.Prelude.{
  ℕ, ◌≡◌, ◌↔◌, ◌⊎◌, refl, sym, ap, ◌∙◌, inl, inr, Bool, true, false, not, ◌&&◌, ◌||◌, List, [], ◌∷◌,
  ◌++◌, map, Option, none, some, leb, ◌==◌, if◌then◌else◌, Bool-cases, Option-cases, arith, length,
  take, drop, take-append-drop, is_nil, Text, text_eq, text_eq_iff, text_eq_refl, codes,
}
use agentapi_plusplus.Strings.{trim_space}

-- The routes of `registerRoutes`.
pub data Route : Type 0 where
  get_status get_messages create_message upload_files clear_messages get_messages_count : Route
  get_timeline get_links get_mcp update_mcp get_info get_config get_logs get_rate_limit : Route
  get_health get_version get_ready subscribe_events subscribe_screen redirect_to_chat chat : Route

-- The routes with the middleware of the key.
unfoldable pub requires_key : Route → Bool
requires_key create_message = true
requires_key upload_files = true
requires_key clear_messages = true
requires_key update_mcp = true
requires_key _ = false

pub data Answer : Type 0 where
  bad_host handled : Answer
  unauthorized : Unauthorized → Answer

-- The headers of a request that are read.
pub record Request : Type 0 where
  pub host : Text
  pub authorization : Text

abbrev pub answer_of : Option Unauthorized → Answer
answer_of none = handled
answer_of (some u) = unauthorized u

module _ (parse : Text → Option Url) (to_lower : Text → Text) where
  unfoldable pub serve : List Text → Text → Request → Route → Answer
  serve allowed_hosts api_key r route =
      if not (is_host_allowed parse to_lower allowed_hosts r.host)
      then bad_host
      else if requires_key route
      then answer_of (api_key_auth api_key r.authorization)
      else handled
