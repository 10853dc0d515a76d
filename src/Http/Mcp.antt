-- ===== src/Http/Mcp.antt =====
-- lib/httpapi/mcp.go: the two handlers over the store of the agent, on the file of the store and the state
-- of whatever restarts the agent. The conversions of a server's configuration are arguments, and so are the
-- result of the write and the file that a failed write leaves. `none` is a panic of the store.
pub mod Updates
use agentapi_plusplus.McpConfig.Claude.{RawMap}
use agentapi_plusplus.McpConfig.Codex.{
  ConfigFile, content, Replaced, read_failed, encode_failed, writes,
}
use agentapi_plusplus.McpConfig.Store.{Store}
use agentapi_plusplus.Prelude.{
  Bool, true, false, not, ◌&&◌, List, [], ◌∷◌, Option, none, some, ◌>>=◌, if◌then◌else◌, is_some,
  Text,
}

module _ {C : Type 0} (marshal : C → Option Text) where
  unfoldable pub to_config_servers : List (Text × C) → Option RawMap
  to_config_servers [] = some []
  to_config_servers ((name, cfg) ∷ servers) = do
    raw ← marshal cfg
    rest ← to_config_servers servers
    some ((name, raw) ∷ rest)

module _ {C : Type 0} (unmarshal : Text → Option C) where
  unfoldable pub from_config_servers : RawMap → Option (List (Text × C))
  from_config_servers [] = some []
  from_config_servers ((name, raw) ∷ servers) = do
    cfg ← unmarshal raw
    rest ← from_config_servers servers
    some ((name, cfg) ∷ rest)

-- The answers of the two handlers; those to an update say where it was written, and whether the agent was
-- restarted.
pub data McpAnswer (C : Type 0) : Type 0 where
  not_supported read_error decode_error : McpAnswer C
  got : List (Text × C) → Text → McpAnswer C
  no_restart bad_servers write_error : McpAnswer C
  restart_error : Text → McpAnswer C
  updated : Text → Bool → McpAnswer C

module _ {C : Type 0} (unmarshal : Text → Option C) where
  abbrev pub decoded : Store → Option (List (Text × C)) → McpAnswer C
  decoded store none = decode_error
  decoded store (some servers) = got servers store.path

  abbrev pub read_store : Store → Option RawMap → McpAnswer C
  read_store store none = read_error
  read_store store (some servers) = decoded store (from_config_servers unmarshal servers)

  unfoldable pub get_mcp : Option Store → ConfigFile → McpAnswer C
  unfolding from_config_servers
  get_mcp none file = not_supported
  get_mcp (some store) file = read_store store (store.read file)

module _ {C S : Type 0} where
  -- After the write: the restart, if it was asked for.
  abbrev pub apply_restart : Text → S × Bool → McpAnswer C × S
  apply_restart path (agent, true) = (updated path true, agent)
  apply_restart path (agent, false) = (restart_error path, agent)

  abbrev pub finish_update : Text → Bool → Option (S → S × Bool) → S → McpAnswer C × S
  finish_update path false restart agent = (updated path false, agent)
  finish_update path true none agent = (no_restart, agent)
  finish_update path true (some restart) agent = apply_restart path (restart agent)

  -- What `Replace` of the store comes to, with the write; the file afterwards stands last.
  abbrev pub write_servers :
      Store
      → Bool
      → Option (S → S × Bool)
      → Option ConfigFile
      → Replaced
      → ConfigFile
      → S
      → McpAnswer C × S × ConfigFile
  write_servers store asked restart torn read_failed file agent = (write_error, agent, file)
  write_servers store asked restart torn encode_failed file agent = (write_error, agent, file)
  write_servers store asked restart (some torn) (writes text) file agent =
      (write_error, agent, torn)
  write_servers store asked restart none (writes text) file agent =
      let done = finish_update store.path asked restart agent in (done.0, done.1, content text)

  abbrev pub replace_servers :
      Store
      → Bool
      → Option (S → S × Bool)
      → Option ConfigFile
      → Option RawMap
      → ConfigFile
      → S
      → Option (McpAnswer C × S × ConfigFile)
  replace_servers store asked restart torn none file agent = some (bad_servers, agent, file)
  replace_servers store asked restart torn (some servers) file agent = do
    replaced ← store.replace file servers
    some (write_servers store asked restart torn replaced file agent)

module _ {C S : Type 0} (marshal : C → Option Text) where
  -- `updateMcp`; the option of a file is what a failed write leaves.
  unfoldable pub update_mcp :
      Option Store
      → Bool
      → Option (S → S × Bool)
      → Option ConfigFile
      → List (Text × C)
      → ConfigFile
      → S
      → Option (McpAnswer C × S × ConfigFile)
  unfolding to_config_servers
  update_mcp none asked restart torn servers file agent = some (not_supported, agent, file)
  update_mcp (some store) asked restart torn servers file agent =
      if asked && not (is_some restart)
      then some (no_restart, agent, file)
      else replace_servers store asked restart torn (to_config_servers marshal servers) file agent
