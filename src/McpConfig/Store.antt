-- ===== src/McpConfig/Store.antt =====
-- lib/mcpconfig/mcpconfig.go: the interface of a store of servers, and its two implementations. For Codex
-- the decoding of the TOML file and the encoding of the servers are arguments.
use agentapi_plusplus.McpConfig.Claude
use agentapi_plusplus.McpConfig.Claude.{RawMap, JsonMaps}
use agentapi_plusplus.McpConfig.Codex.{
  ConfigFile, Replaced, content, absent, unreadable, encode_codex_servers, replace_file,
}
use agentapi_plusplus.Msgfmt.Agents.{AgentType, claude, codex}
use agentapi_plusplus.Prelude.{
  Bool, true, false, List, [], ◌∷◌, Option, none, some, ◌>>=◌, is_nil, Text,
}

-- `Path`, `Read` and `Replace`, on what the file system gives for the file.
pub record Store : Type 0 where
  pub path : Text
  pub read : ConfigFile → Option RawMap
  pub replace : ConfigFile → RawMap → Option Replaced

unfoldable pub new_claude_store : Text → JsonMaps → Store
unfolding Claude.read Claude.replace
new_claude_store path json = record {
  path = path;
  read = Claude.read json;
  replace = λ file servers. Claude.replace json file (some servers);
}

-- `Read` of Codex: each server of the decoded file, as JSON.
module _ {C : Type 0} (decode : Text → Option (List (Text × C))) (marshal : C → Option Text) where
  abbrev pub marshal_all : List (Text × C) → Option RawMap
  marshal_all [] = some []
  marshal_all ((name, cfg) ∷ servers) = do
    raw ← marshal cfg
    rest ← marshal_all servers
    some ((name, raw) ∷ rest)

  unfoldable pub read_codex : ConfigFile → Option RawMap
  read_codex absent = some []
  read_codex unreadable = none
  read_codex (content text) = do servers ← decode text; marshal_all servers

  unfoldable pub new_codex_store : Text → (RawMap → Option Text) → Store
  unfolding read_codex replace_file encode_codex_servers
  new_codex_store path encode = record {
    path = path;
    read = read_codex;
    replace = λ file servers.
        some (replace_file file (encode_codex_servers (is_nil servers) (encode servers)));
  }

-- `SupportedAgent`
unfoldable pub supported_agent : AgentType → Bool
supported_agent claude = true
supported_agent codex = true
supported_agent _ = false

-- `NewStore`, for the two constructors.
unfoldable pub new_store : Store → Store → AgentType → Option Store
new_store for_claude for_codex claude = some for_claude
new_store for_claude for_codex codex = some for_codex
new_store for_claude for_codex _ = none
