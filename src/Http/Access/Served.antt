-- ===== src/Http/Access/Served.antt =====
-- lib/httpapi/server.go: which requests are served.
use agentapi_plusplus.Http.Access.{Route, Request, requires_key, handled, answer_of, serve}
use agentapi_plusplus.Http.Access.Keys.{api_key_auth-none_iff}
use agentapi_plusplus.Http.Access.Named.{IsNamed, is_host_allowed-IsNamed}
use agentapi_plusplus.Http.Auth.{bearer, Unauthorized, api_key_auth}
use agentapi_plusplus.Http.Hosts.{Url, allowed, parse_allowed_hosts, is_host_allowed}
use agentapi_plusplus.Prelude.{
  ◌≡◌, ◌⊎◌, refl, inl, inr, true, false, List, [], ◌++◌, Option, none, some, Bool-cases, Text,
}

answer_of-handled : (o : Option Unauthorized) → answer_of o ≡ handled → o ≡ none
answer_of-handled none h = refl
answer_of-handled (some u) h = cc

serve-handled :
    (parse : Text → Option Url) (to_lower : Text → Text) (hs : List Text) (key : Text) (r : Request)
    (route : Route)
    → serve parse to_lower hs key r route ≡ handled
    → (is_host_allowed parse to_lower hs r.host ≡ true)
      × ((requires_key route ≡ false) ⊎ ((key ≡ []) ⊎ (r.authorization ≡ bearer ++ key)))
unfolding serve
serve-handled parse to_lower hs key r route h =
    elim (Bool-cases (is_host_allowed parse to_lower hs r.host)) [
      | inr e ↦ (let g = rw e at h in cc)
      | inl e ↦ elim (Bool-cases (requires_key route)) [
        | inr k ↦ (e, inl k)
        | inl k ↦
            let passed = answer_of-handled (api_key_auth key r.authorization) (rw (e, k) at h) in
            (e, inr ((api_key_auth-none_iff key r.authorization).0 passed))
      ]
    ]

handled-serve :
    (parse : Text → Option Url) (to_lower : Text → Text) (hs : List Text) (key : Text) (r : Request)
    (route : Route)
    → is_host_allowed parse to_lower hs r.host ≡ true
    → (requires_key route ≡ false) ⊎ ((key ≡ []) ⊎ (r.authorization ≡ bearer ++ key))
    → serve parse to_lower hs key r route ≡ handled
unfolding serve
handled-serve parse to_lower hs key r route e (inl k) = rw (e, k) refl
handled-serve parse to_lower hs key r route e (inr p) =
    let passed = (api_key_auth-none_iff key r.authorization).1 p in
    elim (Bool-cases (requires_key route)) [
      | inl k ↦ rw (e, k, passed) refl
      | inr k ↦ rw (e, k) refl
    ]

-- A server whose host list was accepted serves a request only if its Host header is named by the list, and
-- on a route with the middleware of the key only if no key is configured or the Authorization header is the bearer
-- scheme with exactly the key; and it serves a request on every route that passes both checks.
pub serve_lem :
    (parse : Text → Option Url) (to_lower : Text → Text) (input hs : List Text) (key : Text)
    (r : Request) (route : Route)
    → parse_allowed_hosts parse to_lower input ≡ allowed hs
    → (serve parse to_lower hs key r route ≡ handled
        → IsNamed parse to_lower input r.host
          × ((requires_key route ≡ false) ⊎ ((key ≡ []) ⊎ (r.authorization ≡ bearer ++ key))))
      × (is_host_allowed parse to_lower hs r.host ≡ true
          → (requires_key route ≡ false) ⊎ ((key ≡ []) ⊎ (r.authorization ≡ bearer ++ key))
          → serve parse to_lower hs key r route ≡ handled)
serve_lem parse to_lower input hs key r route h = (
  λ served.
      let (host, passed) = serve-handled parse to_lower hs key r route served in
      (is_host_allowed-IsNamed parse to_lower input hs r.host h host, passed),
  handled-serve parse to_lower hs key r route,
)
