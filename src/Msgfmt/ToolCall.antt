-- ===== src/Msgfmt/ToolCall.antt =====
-- lib/msgfmt/format_tool_call.go: the calls of the report_task tool, which are cut out of a message.
-- `none` is a panic of Go: a slice out of range.
pub mod Ranges
pub mod Codex
use agentapi_plusplus.Msgfmt.Agents.{AgentType, claude, codex}
use agentapi_plusplus.Prelude.{
  ℕ, zero, suc, ◌+◌, ◌-◌, Bool, true, false, ◌&&◌, List, [], ◌∷◌, ◌++◌, Option, none, some, min,
  ltb, ◌==◌, if◌then◌else◌, ◌>>=◌, length, get_or, slice, drop, is_nil, Text, text_eq, codes,
}
use agentapi_plusplus.Strings.{
  split_lines, join_lines, contains, has_suffix, trim, trim_left, trim_right, trim_space, is_blank,
}

abbrev pub is_newline : ℕ → Bool
is_newline c = c == b'\n'

pub record ToolCallRange : Type 0 where
  pub start : ℕ
  pub stop : ℕ
  pub malformed : Bool

-- The removal of the ranges from the last to the first: the list has them in this order. The result has
-- the lines that are left and the calls, which a malformed one is not among.
unfoldable pub cut_ranges : List Text → List ToolCallRange → Option (List Text × List Text)
cut_ranges lines [] = some (lines, [])
cut_ranges lines (r ∷ ranges) = do
  call ← if r.malformed then some [] else slice lines r.start r.stop
  before ← slice lines 0 r.start
  after ← slice lines r.stop (length lines)
  (left, calls) ← cut_ranges (before ++ after) ranges
  some (left, if r.malformed then calls else join_lines call ∷ calls)

-- The variables of the loop over the lines; the ranges are kept last first.
pub record Scan : Type 0 where
  pub tool_call_start : Option ℕ
  pub new_line_after : Option ℕ
  pub ranges : List ToolCallRange

abbrev pub no_scan : Scan
no_scan = record { tool_call_start = none; new_line_after = none; ranges = [] }

abbrev pub thanks : Text
thanks = codes "\"message\": \"Thanks for reporting!\""

unfoldable pub claude_line : List Text → ℕ → Scan → Scan
claude_line lines i s =
    let prev_line = trim_space (get_or lines (i - 1) []) in
    let line = trim is_newline (trim_space (get_or lines i [])) in
    let next_line = trim_space (get_or lines (i + 1) []) in
    if contains line (codes "coder - coder_report_task (MCP)")
    then record s { tool_call_start = some i }
    else elim s.tool_call_start [
      | none ↦ s
      | some start ↦
          if text_eq line thanks
            && text_eq next_line (codes "}")
            && has_suffix prev_line (codes "{")
          then record {
            tool_call_start = none;
            new_line_after = none;
            ranges =
                record { start = start; stop = min (length lines) (i + 2); malformed = false }
                ∷ s.ranges;
          }
          else if is_nil line
          then record s { new_line_after = some (i + 1) }
          else s
    ]

-- `for i := 1; i < len(lines)-1; i++`, with the rounds left.
unfoldable pub claude_lines : List Text → ℕ → ℕ → Scan → Scan
unfolding claude_line
claude_lines lines zero i s = s
claude_lines lines (suc rounds) i s = claude_lines lines rounds (i + 1) (claude_line lines i s)

-- The ranges with the call that did not end, if there is one.
unfoldable pub claude_ranges : List Text → Scan → List ToolCallRange
claude_ranges lines s = elim s.tool_call_start [
  | none ↦ s.ranges
  | some start ↦
      record {
        start = start;
        stop = elim s.new_line_after [ none ↦ length lines | some i ↦ i ];
        malformed = true;
      }
      ∷ s.ranges
]

unfoldable pub remove_claude_report_task_tool_call : Text → Option (Text × List Text)
unfolding claude_lines claude_ranges cut_ranges
remove_claude_report_task_tool_call raw =
    let msg = b'\n' ∷ raw in
    let lines = split_lines msg in
    let ranges = claude_ranges lines (claude_lines lines (length lines - 2) 1 no_scan) in
    if is_nil ranges
    then some (trim_left is_newline msg, [])
    else (cut_ranges lines ranges >>= λ cut. some (trim_left is_newline (join_lines cut.0), cut.1))

-- `for endIdx < len(lines) && strings.TrimSpace(lines[endIdx]) == ""`, on the lines from `end_idx` on.
unfoldable pub skip_blank_lines : List Text → ℕ → ℕ
skip_blank_lines [] end_idx = end_idx
skip_blank_lines (l ∷ rest) end_idx =
    if is_blank l then skip_blank_lines rest (end_idx + 1) else end_idx

-- `strings.Replace(s, " ", "", -1)`.
unfoldable pub remove_spaces : Text → Text
remove_spaces [] = []
remove_spaces (c ∷ s) = let rest = remove_spaces s in if c == b' ' then rest else c ∷ rest

unfoldable pub codex_start : List Text → ℕ → Option ℕ → Option ℕ
unfolding remove_spaces
codex_start lines idx start =
    if ltb (idx + 1) (length lines)
      && text_eq (remove_spaces (trim_space (get_or lines idx []))) (codes "•Called")
      && contains (trim_space (get_or lines (idx + 1) [])) (codes "Coder.coder_report_task")
    then some idx
    else start

unfoldable pub codex_line : List Text → ℕ → Scan → Scan
unfolding codex_start skip_blank_lines
codex_line lines idx s = elim (codex_start lines idx s.tool_call_start) [
  | none ↦ s
  | some start ↦
      if text_eq (trim_space (get_or lines idx []))
        (codes "{\"message\": \"Thanks for reporting!\"}")
      then record {
        tool_call_start = none;
        new_line_after = none;
        ranges =
            record {
              start = start;
              stop = skip_blank_lines (drop (idx + 1) lines) (idx + 1);
              malformed = false;
            }
            ∷ s.ranges;
      }
      else record s { tool_call_start = some start }
]

unfoldable pub codex_lines : List Text → ℕ → ℕ → Scan → Scan
unfolding codex_line
codex_lines lines zero idx s = s
codex_lines lines (suc rounds) idx s = codex_lines lines rounds (idx + 1) (codex_line lines idx s)

unfoldable pub remove_codex_report_task_tool_call : Text → Option (Text × List Text)
unfolding codex_lines cut_ranges
remove_codex_report_task_tool_call msg =
    let lines = split_lines msg in
    let ranges = (codex_lines lines (length lines) 0 no_scan).ranges in
    if is_nil ranges
    then some (trim_right is_newline msg, [])
    else (cut_ranges lines ranges >>= λ cut. some (trim_right is_newline (join_lines cut.0), cut.1))

unfoldable pub format_tool_call : AgentType → Text → Option (Text × List Text)
unfolding remove_claude_report_task_tool_call remove_codex_report_task_tool_call
format_tool_call claude message = remove_claude_report_task_tool_call message
format_tool_call codex message = remove_codex_report_task_tool_call message
format_tool_call _ message = some (message, [])
