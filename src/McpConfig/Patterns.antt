-- ===== src/McpConfig/Patterns.antt =====
-- lib/mcpconfig/codex.go: the regular expressions, as functions on a line.
use agentapi_plusplus.Prelude.{
  ℕ, Bool, false, ◌&&◌, ◌||◌, [], ◌∷◌, Option, none, some, ◌==◌, if◌then◌else◌, length, drop, Text,
  codes,
}
use agentapi_plusplus.Strings.{has_prefix, trim_left}

-- The class \s of Go's regular expressions.
unfoldable pub is_re_space : ℕ → Bool
is_re_space c = c == 0x9 || c == 0xa || c == 0xc || c == 0xd || c == 0x20

unfoldable pub skip_space : Text → Text
unfolding is_re_space trim_left
skip_space = trim_left is_re_space

-- The rest of a text after a prefix, and after the first of two that it has.
unfoldable pub after_prefix : Text → Text → Option Text
unfolding has_prefix
after_prefix t s = if has_prefix s t then some (drop (length t) s) else none

-- (?:"mcp_servers"|mcp_servers)
unfoldable pub after_name : Text → Option Text
unfolding after_prefix
after_name s = elim (after_prefix (codes "\"mcp_servers\"") s) [
  | some rest ↦ some rest
  | none ↦ after_prefix (codes "mcp_servers") s
]

abbrev pub starts_with : (ℕ → Bool) → Text → Bool
starts_with test [] = false
starts_with test (c ∷ s) = test c

abbrev ends_name : ℕ → Bool
ends_name c = c == b']' || c == b'.'

-- \s*(?:"mcp_servers"|mcp_servers)\s*[\].]
unfoldable pub names_servers : Text → Bool
unfolding after_name skip_space
names_servers s = elim (after_name (skip_space s)) [
  | none ↦ false
  | some rest ↦ starts_with ends_name (skip_space rest)
]

-- What stands after the first bracket and, if there is one, the second.
abbrev after_brackets : Text → Text
after_brackets [] = []
after_brackets (c ∷ s) = if c == b'[' then s else c ∷ s

-- `anyHeaderRe`
unfoldable pub is_header : Text → Bool
unfolding skip_space
is_header line = starts_with (λ c. c == b'[') (skip_space line)

-- `mcpHeaderRe`
unfoldable pub is_mcp_header : Text → Bool
unfolding skip_space names_servers is_header
is_mcp_header line = is_header line && names_servers (after_brackets (drop 1 (skip_space line)))

-- `rootMcpAssignRe`
unfoldable pub is_root_assign : Text → Bool
unfolding after_name skip_space
is_root_assign line = elim (after_name (skip_space line)) [
  | none ↦ false
  | some rest ↦ starts_with (λ c. c == b'=') (skip_space rest)
]

-- `managedMarkerRe`
unfoldable pub is_marker : Text → Bool
unfolding skip_space has_prefix
is_marker line =
    let s = skip_space line in
    has_prefix s (codes "# >>> managed by agentapi")
    || has_prefix s (codes "# <<< managed by agentapi")
