-- ===== src/Msgfmt/Readiness.antt =====
-- lib/msgfmt/agent_readiness.go: `IsAgentReadyForInitialPrompt`. `none` is a panic of Go.
pub mod Decides
use agentapi_plusplus.Msgfmt.Agents.{
  AgentType, claude, goose, aider, codex, gemini, copilot, amp, cursor, auggie, amazonq, opencode,
  custom, other,
}
use agentapi_plusplus.Msgfmt.Box.{
  remove_message_box, remove_codex_message_box, remove_opencode_message_box, remove_amp_message_box,
}
use agentapi_plusplus.Msgfmt.Empty.{trim_empty_lines}
use agentapi_plusplus.Prelude.{Bool, true, not, Option, some, ◌==◌, ◌>>=◌, Text, byte_length}

unfoldable pub is_generic_agent_ready : Text → Option Bool
is_generic_agent_ready message = do
  trimmed ← trim_empty_lines message
  without_input_box ← remove_message_box trimmed
  some (not (byte_length without_input_box == byte_length trimmed))

unfoldable pub is_opencode_agent_ready : Text → Option Bool
is_opencode_agent_ready message = do
  trimmed ← trim_empty_lines message
  without_input_box ← remove_opencode_message_box trimmed
  some (not (byte_length without_input_box == byte_length trimmed))

unfoldable pub is_codex_agent_ready : Text → Option Bool
is_codex_agent_ready message = do
  trimmed ← trim_empty_lines message
  without_input_box ← remove_codex_message_box trimmed
  some (not (byte_length without_input_box == byte_length trimmed))

unfoldable pub is_amp_agent_ready : Text → Option Bool
is_amp_agent_ready message = do
  trimmed ← trim_empty_lines message
  without_input_box ← remove_amp_message_box trimmed
  some (not (byte_length without_input_box == byte_length trimmed))

unfoldable pub is_agent_ready_for_initial_prompt : AgentType → Text → Option Bool
is_agent_ready_for_initial_prompt claude message = is_generic_agent_ready message
is_agent_ready_for_initial_prompt goose message = is_generic_agent_ready message
is_agent_ready_for_initial_prompt aider message = is_generic_agent_ready message
is_agent_ready_for_initial_prompt codex message = is_codex_agent_ready message
is_agent_ready_for_initial_prompt gemini message = is_generic_agent_ready message
is_agent_ready_for_initial_prompt copilot message = is_generic_agent_ready message
is_agent_ready_for_initial_prompt amp message = is_amp_agent_ready message
is_agent_ready_for_initial_prompt cursor message = is_generic_agent_ready message
is_agent_ready_for_initial_prompt auggie message = is_generic_agent_ready message
is_agent_ready_for_initial_prompt amazonq message = is_generic_agent_ready message
is_agent_ready_for_initial_prompt opencode message = is_opencode_agent_ready message
is_agent_ready_for_initial_prompt custom message = is_generic_agent_ready message
is_agent_ready_for_initial_prompt (other name) message = some true
