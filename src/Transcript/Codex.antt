-- ===== src/Transcript/Codex.antt =====
-- lib/transcript/codex.go: the parser of the lines of a Codex session, which remembers the session's id.
-- The functions of `encoding/json` and the parser of times are a parameter.
use agentapi_plusplus.Events.Types.{TimelineEvent}
use agentapi_plusplus.Prelude.{
  ℕ, Bool, ◌||◌, List, [], ◌∷◌, ◌++◌, Option, none, some, if◌then◌else◌, is_nil, Text, text_eq,
  codes,
}
use agentapi_plusplus.Strings.{is_blank, join_lines, trim_space}

pub record CodexLine : Type 0 where
  pub timestamp : Text
  pub type : Text
  pub payload : Text

-- Without the block's type, which no code reads.
pub record CodexTextBlock : Type 0 where
  pub text : Text

pub record CodexPayload : Type 0 where
  pub type : Text
  pub id : Text
  pub session_id : Text
  pub cwd : Text
  pub cli_version : Text
  pub summary : List CodexTextBlock
  pub content : Text
  pub name : Text
  pub arguments : Text
  pub input : Text
  pub call_id : Text
  pub output : Text
  pub action : Text
  pub message : Text

-- What `json.Unmarshal` gives for each type, whether `json.Valid` accepts a text, what `json.Marshal`
-- gives for a string, and what `time.Parse` gives.
pub record CodexDecoder : Type 0 where
  pub line : Text → Option CodexLine
  pub payload : Text → Option CodexPayload
  pub blocks : Text → Option (List CodexTextBlock)
  pub valid : Text → Bool
  pub quote : Text → Option Text
  pub time : Text → Option ℕ

unfoldable pub no_payload : CodexPayload
no_payload = record {
  type = [];
  id = [];
  session_id = [];
  cwd = [];
  cli_version = [];
  summary = [];
  content = [];
  name = [];
  arguments = [];
  input = [];
  call_id = [];
  output = [];
  action = [];
  message = [];
}

unfoldable pub codex_args_to_json : CodexDecoder → Text → Text
codex_args_to_json d args =
    if is_nil args
    then []
    else if d.valid args
    then args
    else elim (d.quote args) [ none ↦ [] | some quoted ↦ quoted ]

unfoldable pub text_parts : List CodexTextBlock → List Text
text_parts [] = []
text_parts (b ∷ blocks) = (if is_blank b.text then [] else b.text ∷ []) ++ text_parts blocks

unfoldable pub join_text_blocks : List CodexTextBlock → Text
unfolding text_parts
join_text_blocks blocks = join_lines (text_parts blocks)

unfoldable pub join_codex_text_blocks : CodexDecoder → Text → Text
unfolding join_text_blocks
join_codex_text_blocks d raw =
    if is_nil raw
    then []
    else elim (d.blocks raw) [ none ↦ [] | some blocks ↦ join_text_blocks blocks ]

unfoldable pub line_time : CodexDecoder → ℕ → Text → ℕ
line_time d now ts = elim (d.time ts) [ some t ↦ t | none ↦ now ]

abbrev pub is_type : CodexPayload → Text → Bool
is_type payload name = text_eq payload.type name

-- A call of a tool by the assistant.
unfoldable pub tool_call : CodexPayload → TimelineEvent → Text → Text → List TimelineEvent
tool_call payload base name input =
    record base {
      kind = codes "tool_call";
      role = codes "assistant";
      tool_name = name;
      tool_use_id = payload.call_id;
      tool_input = input;
    }
    ∷ []

-- The case of `reasoning`.
unfoldable pub reasoning : CodexDecoder → CodexPayload → TimelineEvent → List TimelineEvent
unfolding join_codex_text_blocks join_text_blocks
reasoning d payload base =
    let written = join_codex_text_blocks d payload.content in
    let text = if is_nil written then join_text_blocks payload.summary else written in
    if is_nil text
    then []
    else record base { kind = codes "thinking"; role = codes "assistant"; content = text } ∷ []

unfoldable pub parse_response_item :
    CodexDecoder → CodexPayload → TimelineEvent → List TimelineEvent
unfolding reasoning tool_call codex_args_to_json
parse_response_item d payload base =
    if is_type payload (codes "reasoning")
    then reasoning d payload base
    else if is_type payload (codes "function_call")
    then tool_call payload base payload.name (codex_args_to_json d payload.arguments)
    else if is_type payload (codes "custom_tool_call")
    then tool_call payload base payload.name (codex_args_to_json d payload.input)
    else if is_type payload (codes "local_shell_call")
    then tool_call payload base (codes "shell") payload.action
    else if is_type payload (codes "function_call_output")
        || is_type payload (codes "custom_tool_call_output")
    then record base {
      kind = codes "tool_result";
      tool_use_id = payload.call_id;
      content = payload.output;
    }
      ∷ []
    else []

unfoldable pub spoken : Text → Text → TimelineEvent → List TimelineEvent
spoken role message base =
    if is_nil message
    then []
    else record base { kind = codes "text"; role = role; content = message } ∷ []

unfoldable pub parse_event_msg : CodexPayload → TimelineEvent → List TimelineEvent
unfolding spoken
parse_event_msg payload base =
    if is_type payload (codes "agent_message")
    then spoken (codes "assistant") payload.message base
    else if is_type payload (codes "user_message")
    then spoken (codes "user") payload.message base
    else []

-- The parser's state is its `sessionId`.
unfoldable pub session_of : CodexPayload → Text
session_of payload = if is_nil payload.session_id then payload.id else payload.session_id

unfoldable pub session_started : CodexPayload → TimelineEvent → TimelineEvent
unfolding session_of
session_started payload base = record base {
  session_id = session_of payload;
  kind = codes "system";
  role = codes "system";
  content = trim_space (
      codes "session started: "
      ++ payload.cwd
      ++ codes " (codex "
      ++ payload.cli_version
      ++ codes ")");
}

unfoldable pub base_event : CodexDecoder → ℕ → Text → CodexLine → CodexPayload → TimelineEvent
unfolding line_time
base_event d now session_id l payload = record {
  kind = [];
  role = [];
  time = line_time d now l.timestamp;
  session_id = session_id;
  content = [];
  tool_name = [];
  tool_input = [];
  tool_use_id = [];
  source_id = payload.id;
}

unfoldable pub parse_payload :
    CodexDecoder → ℕ → Text → CodexLine → CodexPayload → Text × List TimelineEvent
unfolding base_event session_of session_started parse_response_item parse_event_msg
parse_payload d now session_id l payload =
    let base = base_event d now session_id l payload in
    if text_eq l.type (codes "session_meta")
    then (session_of payload, session_started payload base ∷ [])
    else if text_eq l.type (codes "response_item")
    then (session_id, parse_response_item d payload base)
    else if text_eq l.type (codes "event_msg")
    then (session_id, parse_event_msg payload base)
    else (session_id, [])

-- `ParseLine`, whose error is always nil, with the session's id after it.
unfoldable pub parse_line : CodexDecoder → ℕ → Text → Text → Text × List TimelineEvent
unfolding parse_payload no_payload
parse_line d now session_id line = elim (d.line line) [
  | none ↦ (session_id, [])
  | some l ↦
      if is_nil l.payload
      then parse_payload d now session_id l no_payload
      else elim (d.payload l.payload) [
        | none ↦ (session_id, [])
        | some payload ↦ parse_payload d now session_id l payload
      ]
]
