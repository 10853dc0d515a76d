-- ===== src/Msgfmt/Format/Total.antt =====
-- lib/msgfmt/msgfmt.go: the result of `FormatAgentMessage`.
use agentapi_plusplus.Msgfmt.Agents.{AgentType, other}
use agentapi_plusplus.Msgfmt.Empty.Laws.{HasTextEnds}
use agentapi_plusplus.Prelude.{[], List, ◌≡◌, ◌⊎◌, Option, some, ◌>>=◌, Text}
use agentapi_plusplus.Strings.{join_lines}

-- The lines of a text that the program made: it has none, or the first and the last have text.
abbrev pub IsTrimmed : Option Text → Type 0
IsTrimmed r = (ls : List Text) × (r ≡ some (join_lines ls)) × ((ls ≡ []) ⊎ HasTextEnds ls)

-- The result for an agent type: the message itself for one that the program does not know, trimmed
-- lines for all others.
abbrev pub IsFormatted : AgentType → Text → Option Text → Type 0
IsFormatted (other name) message r = r ≡ some message
IsFormatted _ message r = IsTrimmed r
