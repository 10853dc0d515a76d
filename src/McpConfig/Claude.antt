-- ===== src/McpConfig/Claude.antt =====
-- lib/mcpconfig/claude.go: the store of a project's .mcp.json. The encoders and decoders of the JSON package
-- are arguments. A map is a list of its entries, and the nil map is `none`; `none` for a result of `Replace`
-- is a panic of Go.
pub mod Rereads
use agentapi_plusplus.McpConfig.Codex.{
  ConfigFile, content, absent, unreadable, Replaced, read_failed, encode_failed, writes,
}
use agentapi_plusplus.Prelude.{
  Bool, List, [], ◌∷◌, ◌++◌, Option, none, some, ◌>>=◌, if◌then◌else◌, Text, text_eq, codes,
}

-- A map from names to raw JSON.
abbrev pub RawMap : Type 0
RawMap = List (Text × Text)

abbrev pub find : Text → RawMap → Option Text
find k [] = none
find k ((j, v) ∷ m) = if text_eq j k then some v else find k m

abbrev pub put : Text → Text → RawMap → RawMap
put k v [] = (k, v) ∷ []
put k v ((j, w) ∷ m) = if text_eq j k then (k, v) ∷ m else (j, w) ∷ put k v m

-- The maps that `Unmarshal` makes of a text, and the texts that `Marshal` makes.
pub record JsonMaps : Type 0 where
  pub decode : Text → Option (Option RawMap)
  pub encode : RawMap → Option Text
  pub encode_indent : RawMap → Option Text

abbrev pub servers_key : Text
servers_key = codes "mcpServers"

abbrev pub or_empty : Option RawMap → RawMap
or_empty none = []
or_empty (some m) = m

module _ (json : JsonMaps) where
  unfoldable pub read_doc : ConfigFile → Option (Option RawMap)
  read_doc (content s) = json.decode s
  read_doc absent = some (some [])
  read_doc unreadable = none

  -- The servers under the key, or none of them; the nil map has no keys.
  abbrev pub read_servers : Option Text → Option RawMap
  read_servers none = some []
  read_servers (some raw) = do m ← json.decode raw; some (or_empty m)

  -- `Read`; a nil map of servers is returned as it would be iterated, without entries.
  unfoldable pub read : ConfigFile → Option RawMap
  unfolding read_doc
  read file = do doc ← read_doc file; read_servers (find servers_key (or_empty doc))

  abbrev pub encode_doc : Option Text → Replaced
  encode_doc none = encode_failed
  encode_doc (some out) = writes (out ++ b'\n' ∷ [])

  -- The document with the servers, where an assignment to a nil map panics.
  abbrev pub with_servers : Option RawMap → Option Text → Option Replaced
  with_servers doc none = some encode_failed
  with_servers none (some raw) = none
  with_servers (some doc) (some raw) =
      some (encode_doc (json.encode_indent (put servers_key raw doc)))

  abbrev pub replace_in : Option (Option RawMap) → Option RawMap → Option Replaced
  replace_in none servers = some read_failed
  replace_in (some doc) servers = with_servers doc (json.encode (or_empty servers))

  -- `Replace`, for servers that may be nil.
  unfoldable pub replace : ConfigFile → Option RawMap → Option Replaced
  unfolding read_doc
  replace file servers = replace_in (read_doc file) servers
