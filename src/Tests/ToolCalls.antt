-- ===== src/Tests/ToolCalls.antt =====
-- lib/msgfmt/format_tool_call.go at concrete inputs.
use agentapi_plusplus.Prelude.{slice, text_eq}
use agentapi_plusplus.Strings.{contains, is_blank, trim, trim_space}
use agentapi_plusplus.Msgfmt.ToolCall.{
  remove_codex_report_task_tool_call, remove_claude_report_task_tool_call, is_newline,
}
use agentapi_plusplus.Msgfmt.ToolCall.Codex.{codex_ranges, remove_codex_lem}
use agentapi_plusplus.Msgfmt.ToolCall.Ranges.{AreApart, call_of, outside}
use agentapi_plusplus.Prelude.{◌≡◌, refl, ◌⊎◌, [], ◌∷◌, some, map, length, Text, codes}
use agentapi_plusplus.Strings.{split_lines, join_lines, trim_right}

abbrev called : Text
called =
    codes
      "hi\n• Called\n  Coder.coder_report_task\n{\"message\": \"Thanks for reporting!\"}\n\nbye\n"

remove_codex_lem_example :
    AreApart (length (split_lines called)) (codex_ranges called)
    × (((codex_ranges called ≡ [])
          × (remove_codex_report_task_tool_call called ≡ some (trim_right is_newline called, [])))
        ⊎ (remove_codex_report_task_tool_call called
            ≡ some (
              trim_right is_newline
                  (join_lines (outside (split_lines called) (codex_ranges called))),
              map (call_of (split_lines called)) (codex_ranges called),
            )))
remove_codex_lem_example = remove_codex_lem called

codex_run :
    remove_codex_report_task_tool_call called
    ≡ some (
      codes "hi\nbye",
      codes "• Called\n  Coder.coder_report_task\n{\"message\": \"Thanks for reporting!\"}\n" ∷ [],
    )
unfolding remove_codex_report_task_tool_call split_lines text_eq trim_space contains slice is_blank
    join_lines
codex_run = refl

-- Two starts without an end, with an empty line after the first: a line of the message is doubled.
abbrev started_twice : Text
started_twice = codes "coder - coder_report_task (MCP)\n\ny\ncoder - coder_report_task (MCP)\nz"

doubled_run :
    remove_claude_report_task_tool_call started_twice
    ≡ some (codes "coder - coder_report_task (MCP)\n\ny\ny\ncoder - coder_report_task (MCP)\nz", [])
unfolding remove_claude_report_task_tool_call split_lines contains trim trim_space slice text_eq
    join_lines
doubled_run = refl
