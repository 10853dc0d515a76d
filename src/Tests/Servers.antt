-- ===== src/Tests/Servers.antt =====
-- lib/httpapi/server.go, internal/middleware/auth.go and lib/mcpconfig/codex.go at concrete inputs.
use agentapi_plusplus.Http.Hosts.{contains_text}
use agentapi_plusplus.Prelude.{text_eq}
use agentapi_plusplus.Strings.{is_space, join_lines, split_lines, trim_right, trim_space}
use agentapi_plusplus.Http.Auth.{api_key_auth}
use agentapi_plusplus.McpConfig.Patterns.{is_header, is_marker, is_mcp_header, is_root_assign}
use agentapi_plusplus.Http.Access.{
  create_message, get_status, Request, handled, bad_host, requires_key, serve,
}
use agentapi_plusplus.Http.Access.Named.{IsNamed}
use agentapi_plusplus.Http.Access.Served.{serve_lem}
use agentapi_plusplus.Http.Auth.{bearer}
use agentapi_plusplus.Http.Hosts.{
  Url, Parsed, allowed, has_port, parse_allowed_hosts, parse_allowed_origins, is_host_allowed,
}
use agentapi_plusplus.McpConfig.Codex.{put_servers, replace}
use agentapi_plusplus.McpConfig.Codex.Outside.{outside}
use agentapi_plusplus.McpConfig.Codex.Again.{IsEncoded, replace_again}
use agentapi_plusplus.Prelude.{
  ◌≡◌, ◌⊎◌, refl, inr, true, false, List, [], ◌∷◌, ◌++◌, Option, some, ◌==◌, if◌then◌else◌, drop,
  Text, codes,
}

-- The host up to a colon, and the port behind it, of a URL with the scheme http.
abbrev before_colon : Text → Text
before_colon [] = []
before_colon (c ∷ s) = if c == b':' then [] else c ∷ before_colon s

abbrev after_colon : Text → Text
after_colon [] = []
after_colon (c ∷ s) = if c == b':' then s else after_colon s

abbrev parse : Text → Option Url
parse s =
    let host = drop 7 s in
    some (record {
      scheme = codes "http";
      host = host;
      hostname = before_colon host;
      port = after_colon host;
    })

abbrev same_case : Text → Text
same_case s = s

abbrev listed : List Text
listed = codes "localhost" ∷ []

hosts_run : parse_allowed_hosts parse same_case listed ≡ allowed listed
unfolding parse_allowed_hosts contains_text text_eq is_space trim_space
hosts_run = refl

port_run :
    parse_allowed_hosts parse same_case (codes "a:1" ∷ []) ≡ Parsed.refused (has_port (codes "a:1"))
unfolding parse_allowed_hosts contains_text text_eq is_space trim_space
port_run = refl

origins_run :
    parse_allowed_origins parse same_case (codes "http://a" ∷ []) ≡ allowed (codes "http://a" ∷ [])
unfolding parse_allowed_origins contains_text text_eq is_space trim_space
origins_run = refl

abbrev request : Request
request = record { host = codes "localhost:3284"; authorization = codes "Bearer key" }

serve_run : serve parse same_case listed (codes "key") request create_message ≡ handled
unfolding serve is_host_allowed text_eq requires_key api_key_auth
serve_run = refl

bad_host_run : serve parse same_case listed [] (record request { host = [] }) get_status ≡ bad_host
unfolding serve is_host_allowed text_eq
bad_host_run = refl

serve_lem_example :
    (serve parse same_case listed (codes "key") request create_message ≡ handled
      → IsNamed parse same_case listed request.host
        × ((requires_key create_message ≡ false)
            ⊎ ((codes "key" ≡ []) ⊎ (request.authorization ≡ bearer ++ codes "key"))))
    × (is_host_allowed parse same_case listed request.host ≡ true
        → (requires_key create_message ≡ false)
          ⊎ ((codes "key" ≡ []) ⊎ (request.authorization ≡ bearer ++ codes "key"))
        → serve parse same_case listed (codes "key") request create_message ≡ handled)
serve_lem_example =
    serve_lem parse same_case listed listed (codes "key") request create_message hosts_run

abbrev config : Text
config = codes "model = 1\n[mcp_servers.old]\ncommand = 2\n[other]\nx = 3\n"

abbrev server : Text
server = codes "[mcp_servers.a]\ncommand = 4\n"

replace_run :
    replace config server
    ≡ codes "model = 1\n[other]\nx = 3\n\n# >>> managed by agentapi (PUT /mcp) >>>\n"
      ++ codes "[mcp_servers.a]\ncommand = 4\n# <<< managed by agentapi <<<\n"
unfolding replace trim_right join_lines split_lines is_marker is_header is_root_assign is_mcp_header
replace_run = refl

server-IsEncoded : IsEncoded server
unfolding split_lines is_marker is_header is_mcp_header
server-IsEncoded = record {
  lines = codes "[mcp_servers.a]\ncommand = 4";
  ended = refl;
  first = codes "[mcp_servers.a]";
  others = codes "command = 4" ∷ [];
  split = refl;
  opens = (refl, refl, refl);
  stays = ((λ e. cc), tt);
}

replace_again_example :
    (replace config (codes "[mcp_servers.b]\n")
      ≡ put_servers (outside config) (codes "[mcp_servers.b]\n"))
    × (replace (replace config server) (codes "[mcp_servers.b]\n")
        ≡ put_servers (outside config) (codes "[mcp_servers.b]\n"))
replace_again_example =
    replace_again config server (codes "[mcp_servers.b]\n") (inr server-IsEncoded)

-- A dotted key of the root table is kept.
dotted_run : replace (codes "mcp_servers.a.command = 1\n") [] ≡ codes "mcp_servers.a.command = 1\n"
unfolding replace trim_right join_lines split_lines is_marker is_header is_root_assign
dotted_run = refl
