-- ===== src/Http/Auth.antt =====
-- internal/middleware/auth.go: the check of the API key. The header and the key are lists of bytes.
use agentapi_plusplus.Prelude.{
  ℕ, Bool, false, not, ◌||◌, Option, none, some, leb, ◌==◌, if◌then◌else◌, length, take, drop,
  is_nil, Text, text_eq, codes,
}

abbrev pub bearer : Text
bearer = codes "Bearer "

unfoldable pub constant_time_equal : Text → Text → ℕ → Bool
unfolding text_eq
constant_time_equal a b expected_len =
    if not (length a == expected_len) || not (length b == expected_len) then false else text_eq a b

-- The response of a refusal: the challenge, the type of the content and the status.
pub record Unauthorized : Type 0 where
  pub www_authenticate : Text
  pub content_type : Text
  pub status : ℕ

unfoldable pub write_unauthorized : Unauthorized
write_unauthorized = record {
  www_authenticate = codes "Bearer realm=\"agentapi\"";
  content_type = codes "application/json";
  status = 401;
}

-- `HumaAPIKeyAuth`, and `APIKeyAuth` for the router: `none` where the next handler is called. The header
-- is empty where the request has none.
unfoldable pub api_key_auth : Text → Text → Option Unauthorized
unfolding constant_time_equal write_unauthorized
api_key_auth expected_key authz =
    if is_nil expected_key
    then none
    else if leb (length authz) (length bearer) || not (text_eq (take (length bearer) authz) bearer)
    then some write_unauthorized
    else if not
        (constant_time_equal (drop (length bearer) authz) expected_key (length expected_key))
    then some write_unauthorized
    else none
