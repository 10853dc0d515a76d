-- ===== src/McpConfig/Codex/Outside.antt =====
-- lib/mcpconfig/codex.go: what is outside the sections of the servers, by the section of each line.
use agentapi_plusplus.McpConfig.Codex.{keep_lines, keep_content}
use agentapi_plusplus.McpConfig.Patterns.{is_header, is_mcp_header, is_root_assign, is_marker}
use agentapi_plusplus.Prelude.{
  ◌≡◌, refl, ap, Bool, true, false, not, ◌&&◌, ◌||◌, List, [], ◌∷◌, Option, none, some,
  if◌then◌else◌, Text, arith,
}
use agentapi_plusplus.Strings.{split_lines, join_lines, trim_right}
use agentapi_plusplus.Strings.Newlines.{is_newline}

-- The header of the section in which a line stands, which is the line itself if it is a header, for the
-- section before it; `none` is the root table. A marker is a comment.
abbrev pub section_at : Option Text → Text → Option Text
section_at section line = if is_header line && not (is_marker line) then some line else section

-- Whether a line of a section defines servers.
abbrev pub is_of_servers : Option Text → Text → Bool
is_of_servers none line = is_root_assign line
is_of_servers (some header) line = is_mcp_header header

-- The lines that are neither markers nor define servers.
abbrev pub outside_lines : Option Text → List Text → List Text
outside_lines section [] = []
outside_lines section (line ∷ lines) =
    let here = section_at section line in
    let rest = outside_lines here lines in
    if is_marker line || is_of_servers here line then rest else line ∷ rest

-- The content of a text outside the sections of servers, without newlines at its end.
abbrev pub outside : Text → Text
outside text = trim_right is_newline (join_lines (outside_lines none (split_lines text)))

abbrev in_mcp : Option Text → Bool
in_mcp none = false
in_mcp (some header) = is_mcp_header header

abbrev in_root : Option Text → Bool
in_root none = true
in_root (some header) = false

keep_lines-outside :
    (section : Option Text) (lines : List Text)
    → keep_lines (in_mcp section) (in_root section) lines ≡ outside_lines section lines
unfolding keep_lines
keep_lines-outside section [] = refl
keep_lines-outside none (line ∷ lines) =
    ground (arith, keep_lines-outside none lines, keep_lines-outside (some line) lines)
keep_lines-outside (some header) (line ∷ lines) =
    ground (arith, keep_lines-outside (some header) lines, keep_lines-outside (some line) lines)

pub keep_content-outside : (text : Text) → keep_content text ≡ outside text
unfolding keep_content
keep_content-outside text =
    ap (λ ls. trim_right is_newline (join_lines ls)) (keep_lines-outside none (split_lines text))
