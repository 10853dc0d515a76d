-- ===== src/Msgfmt/Agents.antt =====
-- lib/msgfmt/msgfmt.go: the agent types. The Go type is a string: `other` is every string that is
-- not one of the constants.
use agentapi_plusplus.Prelude.{Bool, true, false, Text}

pub data AgentType : Type 0 where
  claude goose aider codex gemini copilot amp cursor auggie amazonq opencode custom : AgentType
  other : Text → AgentType

unfoldable pub is_opencode : AgentType → Bool
is_opencode opencode = true
is_opencode _ = false
