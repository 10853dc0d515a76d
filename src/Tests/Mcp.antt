-- ===== src/Tests/Mcp.antt =====
-- lib/mcpconfig and lib/httpapi/mcp.go at concrete inputs, with cmd/server/server.go behind the restart.
use agentapi_plusplus.Http.Mcp.{updated, update_mcp}
use agentapi_plusplus.Http.Mcp.Updates.{IsUpdate, update_mcp_lem}
use agentapi_plusplus.McpConfig.Claude
use agentapi_plusplus.McpConfig.Claude.{RawMap, JsonMaps, find, put, read_doc, read, servers_key}
use agentapi_plusplus.McpConfig.Claude.Rereads.{value_of, AreSame, replace-read}
use agentapi_plusplus.McpConfig.Codex.{encode_failed, ConfigFile, content, absent, Replaced, writes}
use agentapi_plusplus.McpConfig.Store.{Store}
use agentapi_plusplus.Supervisor.{
  failed_to_start, ServerRun, start_server, restart, monitor, exit_zero, restarts, shut_down,
}
use agentapi_plusplus.Supervisor.Follows.{QuietRun, QuietStep, IsServing, QuietRun-IsServing}
use agentapi_plusplus.Supervisor.Follows
use agentapi_plusplus.Supervisor.Shutdown.{Reach, shut_down_lem}
use agentapi_plusplus.Supervisor.Shutdown
use agentapi_plusplus.Prelude.{
  ◌==◌, ◌||◌, ◌++◌, subst, ℕ, ◌≡◌, ◌≤◌, refl, true, false, [], ◌∷◌, Option, none, some,
  if◌then◌else◌, arith, Text, codes, text_eq,
}

-- One set of servers, one document, and their texts: the document is indented, and so are the servers in it.
abbrev servers : RawMap
servers = (codes "a", codes "1") ∷ []

abbrev document : RawMap
document = (codes "k", codes "2") ∷ []

abbrev raw_servers : Text
raw_servers = codes "{\"a\":1}"

abbrev indented : Text
indented = codes "{\n  \"k\": 2,\n  \"mcpServers\": {\n    \"a\": 1\n  }\n}"

abbrev rewritten : RawMap
rewritten = (codes "k", codes "2") ∷ (codes "mcpServers", codes "{\n    \"a\": 1\n  }") ∷ []

-- The value of a text here: the text without its spaces.
abbrev compact : Text → Text
compact [] = []
compact (c ∷ t) = if c == b' ' || c == b'\n' then compact t else c ∷ compact t

abbrev decode_compact : Text → Option (Option RawMap)
decode_compact t =
    if text_eq t raw_servers
    then some (some servers)
    else if text_eq t (codes "{\"k\":2,\"mcpServers\":{\"a\":1}}")
    then some (some rewritten)
    else if text_eq t (codes "null")
    then some none
    else some (some document)

-- Decoders and encoders that know these texts only.
abbrev json : JsonMaps
json = record {
  decode = λ t. decode_compact (compact t);
  encode = λ m. some raw_servers;
  encode_indent = λ m. some indented;
}

rewritten-AreSame : AreSame compact rewritten (put servers_key raw_servers document)
unfolding text_eq
rewritten-AreSame k = ground arith

replace-read_example :
    (Claude.replace json (content (codes "{\"k\": 2}")) (some servers)
      ≡ some (writes (indented ++ b'\n' ∷ [])))
    × ((found : RawMap) × (read json (content (indented ++ b'\n' ∷ [])) ≡ some found)
        × AreSame compact found servers)
    × (read_doc json (content (indented ++ b'\n' ∷ [])) ≡ some (some rewritten))
    × ((k : Text)
        → text_eq servers_key k ≡ false
        → value_of compact (find k rewritten) ≡ value_of compact (find k document))
unfolding read_doc text_eq
replace-read_example =
    replace-read compact json (content (codes "{\"k\": 2}")) document servers servers rewritten
      raw_servers indented refl refl refl (λ k. refl) refl refl rewritten-AreSame
      (λ a b m p d. (m, subst (λ v. decode_compact v ≡ some (some m)) p d, λ k. refl))

-- A file that holds null, and a set of servers: Go panics.
null_run : Claude.replace json (content (codes "null")) (some servers) ≡ none
unfolding Claude.replace text_eq
null_run = refl

-- A store of one server, whose file is the server's text.
abbrev write_one : RawMap → Replaced
write_one ((n, t) ∷ []) = if text_eq n (codes "a") then writes t else encode_failed
write_one _ = encode_failed

abbrev read_one : ConfigFile → Option RawMap
read_one (content t) = some ((codes "a", t) ∷ [])
read_one _ = some []

abbrev small_store : Store
small_store = record {
  path = codes ".mcp.json";
  read = read_one;
  replace = λ file m. some (write_one m);
}

update_mcp_lem_example :
    IsUpdate {C = Text} {S = ServerRun} some small_store none
      ((codes "a", codes "x") ∷ [])
      absent
      (start_server 7)
      true
      (some (restart true true))
      (updated (codes ".mcp.json") true)
      (restart true true (start_server 7)).0
      (content (codes "x"))
unfolding update_mcp text_eq restart start_server
update_mcp_lem_example =
    update_mcp_lem some small_store none ((codes "a", codes "x") ∷ []) absent (start_server 7) true
      (some (restart true true)) (updated (codes ".mcp.json") true)
      (restart true true (start_server 7)).0 (content (codes "x")) refl

QuietRun-IsServing_example : IsServing (monitor exit_zero [] (restart true true (start_server 7)).0)
unfolding restart start_server
QuietRun-IsServing_example = QuietRun-IsServing 7 (
    Follows.next (Follows.next Follows.here (Follows.restarts_well true (start_server 7)))
      (Follows.wait_returns exit_zero [] (restart true true (start_server 7)).0 refl refl))

-- After a restart, only the process of the start is closed when the server ends.
abbrev restarted : ServerRun
restarted = (restart true true (start_server 7)).0

shut_down_lem_example :
    (7 ≤ 8)
    × (shut_down true false true restarted ≡ (some failed_to_start, restarted.running))
    × ((shut_down false false true restarted).0 ≡ none)
    × ((q : ℕ)
        → (shut_down false false true restarted).1 q
          ≡ (if q == 7 then false else restarted.running q))
unfolding restart start_server
shut_down_lem_example =
    shut_down_lem 7 8 restarted (Shutdown.next Shutdown.here (restarts true true (start_server 7)))
      refl refl

left_running_run : (shut_down false false true restarted).1 8 ≡ true
unfolding restart start_server
left_running_run = refl
