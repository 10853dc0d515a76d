-- ===== src/McpConfig/Codex.antt =====
-- lib/mcpconfig/codex.go: `Replace`. The encoding of the servers as TOML is a parameter.
pub mod Kept
pub mod Contents
pub mod Outside
pub mod Again
use agentapi_plusplus.McpConfig.Patterns.{is_header, is_mcp_header, is_root_assign, is_marker}
use agentapi_plusplus.Prelude.{
  ℕ, Bool, true, false, not, ◌&&◌, ◌||◌, List, [], ◌∷◌, ◌++◌, Option, none, some, ◌==◌,
  if◌then◌else◌, is_nil, Text, codes,
}
use agentapi_plusplus.Strings.Newlines.{is_newline}
use agentapi_plusplus.Strings.{split_lines, join_lines, has_suffix, trim_right}

-- The loop over the lines, with `inMcpSection` and `inRootTable`: the lines that are kept.
unfoldable pub keep_lines : Bool → Bool → List Text → List Text
keep_lines in_mcp in_root [] = []
keep_lines in_mcp in_root (line ∷ lines) =
    let same = keep_lines in_mcp in_root lines in
    let headed = keep_lines (is_mcp_header line) false lines in
    if is_marker line
    then same
    else if is_header line
    then (if is_mcp_header line then headed else line ∷ headed)
    else if in_root && is_root_assign line
    then same
    else if in_mcp
    then same
    else line ∷ same

-- Everything outside the sections of the servers, without newlines at the end.
unfoldable pub keep_content : Text → Text
unfolding keep_lines
keep_content text = trim_right is_newline (join_lines (keep_lines false true (split_lines text)))

abbrev pub start_marker : Text
start_marker = codes "# >>> managed by agentapi (PUT /mcp) >>>"

abbrev pub end_marker : Text
end_marker = codes "# <<< managed by agentapi <<<"

-- The content with the encoded servers behind it.
unfoldable pub put_servers : Text → Text → Text
put_servers content encoded =
    let block = b'\n' ∷ (start_marker ++ b'\n' ∷ (encoded ++ end_marker)) in
    let separated = if is_nil content then content else content ++ b'\n' ∷ [] in
    (if is_nil encoded then content else separated ++ block) ++ b'\n' ∷ []

-- What `Replace` writes for the content of the file, which is empty where there is no file.
unfoldable pub replace : Text → Text → Text
unfolding keep_content put_servers
replace text encoded = put_servers (keep_content text) encoded

-- `encodeCodexServers`, for what the encoder gives: `none` for its error.
unfoldable pub encode_codex_servers : Bool → Option Text → Option Text
unfolding has_suffix
encode_codex_servers no_servers encoder = if no_servers then some [] else elim encoder [
  | none ↦ none
  | some out ↦ if has_suffix out (b'\n' ∷ []) then some out else some (out ++ b'\n' ∷ [])
]

-- What the file system gives for a file: its content, none, or another error.
pub data ConfigFile : Type 0 where
  content : Text → ConfigFile
  absent unreadable : ConfigFile

-- What `Replace` does: an error before anything is written, or what it writes.
pub data Replaced : Type 0 where
  read_failed encode_failed : Replaced
  writes : Text → Replaced

abbrev pub read_file : ConfigFile → Option Text
read_file (content s) = some s
read_file absent = some []
read_file unreadable = none

unfoldable pub replace_file : ConfigFile → Option Text → Replaced
unfolding replace
replace_file file encoded = elim (read_file file) [
  | none ↦ read_failed
  | some text ↦ elim encoded [ none ↦ encode_failed | some out ↦ writes (replace text out) ]
]
