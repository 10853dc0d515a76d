-- ===== src/Msgfmt/Format.antt =====
-- lib/msgfmt/msgfmt.go: `FormatAgentMessage`. `none` is a panic of Go.
pub mod Total
use agentapi_plusplus.Msgfmt.Agents.{
  AgentType, claude, goose, aider, codex, gemini, copilot, amp, cursor, auggie, amazonq, opencode,
  custom, other,
}
use agentapi_plusplus.Msgfmt.Box.{
  remove_message_box, remove_codex_message_box, remove_opencode_message_box, remove_amp_message_box,
}
use agentapi_plusplus.Msgfmt.Echo.{remove_user_input}
use agentapi_plusplus.Msgfmt.Empty.{trim_empty_lines}
use agentapi_plusplus.Prelude.{Option, some, ◌>>=◌, Text}

unfoldable pub format_generic_message : Text → Text → AgentType → Option Text
format_generic_message message user_input agent_type = do
  unechoed ← remove_user_input message user_input agent_type
  unboxed ← remove_message_box unechoed
  trim_empty_lines unboxed

unfoldable pub format_codex_message : Text → Text → Option Text
format_codex_message message user_input = do
  unechoed ← remove_user_input message user_input codex
  unboxed ← remove_codex_message_box unechoed
  trim_empty_lines unboxed

unfoldable pub format_opencode_message : Text → Text → Option Text
format_opencode_message message user_input = do
  unechoed ← remove_user_input message user_input opencode
  unboxed ← remove_opencode_message_box unechoed
  trim_empty_lines unboxed

unfoldable pub format_amp_message : Text → Text → Option Text
format_amp_message message user_input = do
  unechoed ← remove_user_input message user_input amp
  unboxed ← remove_amp_message_box unechoed
  trim_empty_lines unboxed

unfoldable pub format_agent_message : AgentType → Text → Text → Option Text
unfolding format_generic_message format_codex_message format_opencode_message format_amp_message
format_agent_message claude message user_input = format_generic_message message user_input claude
format_agent_message goose message user_input = format_generic_message message user_input goose
format_agent_message aider message user_input = format_generic_message message user_input aider
format_agent_message codex message user_input = format_codex_message message user_input
format_agent_message gemini message user_input = format_generic_message message user_input gemini
format_agent_message copilot message user_input = format_generic_message message user_input copilot
format_agent_message amp message user_input = format_amp_message message user_input
format_agent_message cursor message user_input = format_generic_message message user_input cursor
format_agent_message auggie message user_input = format_generic_message message user_input auggie
format_agent_message amazonq message user_input = format_generic_message message user_input amazonq
format_agent_message opencode message user_input = format_opencode_message message user_input
format_agent_message custom message user_input = format_generic_message message user_input custom
format_agent_message (other name) message user_input = some message
