-- ===== src/ScreenDiff.antt =====
-- lib/screentracker/diff.go: the part of a screen that is new since an older screen.
-- `none` is a panic of Go: a slice out of range.
pub mod Trimmed
pub mod Describes
pub mod Panics
use agentapi_plusplus.Msgfmt.Agents.{AgentType, is_opencode}
use agentapi_plusplus.Prelude.{
  ℕ, ◌-◌, Bool, true, false, not, ◌&&◌, ◌||◌, List, [], ◌∷◌, Option, some, leb, if◌then◌else◌,
  ◌>>=◌, length, slice, first_index, last_index, Text, text_eq,
}
use agentapi_plusplus.Strings.{split_lines, join_lines, is_blank}

-- `oldLinesMap[line]`.
unfoldable pub has_line : List Text → Text → Bool
has_line [] line = false
has_line (l ∷ ls) line = text_eq l line || has_line ls line

-- `dynamicHeaderEnd + 1`: the lines of the header, which are not compared.
unfoldable pub header_lines : List Text → AgentType → ℕ
unfolding is_opencode
header_lines new_lines agent_type =
    if leb 2 (length new_lines) && is_opencode agent_type then 3 else 0

-- `endLine` is kept as `endLine + 1`, which is the form that the code slices with: it starts at -1
-- on an empty section.
unfoldable pub trim_section : List Text → Option Text
trim_section section = do
  let start_line = first_index (λ l. not (is_blank l)) section 0 0
  let end_line = last_index (λ l. not (is_blank l)) section [] (length section) (length section)
  body ← slice section start_line end_line
  some (join_lines body)

unfoldable pub screen_diff : Text → Text → AgentType → Option Text
unfolding trim_section header_lines
screen_diff old_screen new_screen agent_type = do
  let old_lines = split_lines old_screen
  let new_lines = split_lines new_screen
  let header = header_lines new_lines agent_type
  compared ← slice new_lines header (length new_lines)
  let first_new = first_index (λ l. not (has_line old_lines l)) compared header (length new_lines)
  section ← slice new_lines first_new (length new_lines)
  trim_section section
