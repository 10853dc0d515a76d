-- ===== src/Transcript/Claude.antt =====
-- lib/transcript/claude.go: the parser of the lines of a Claude session. `json.Unmarshal` and the parser
-- of times are a parameter; a raw JSON value is its text.
pub mod Events
use agentapi_plusplus.Events.Types.{TimelineEvent}
use agentapi_plusplus.Prelude.{
  ℕ, Bool, true, false, ◌||◌, List, [], ◌∷◌, ◌++◌, Option, none, some, if◌then◌else◌, is_nil, Text,
  text_eq, codes,
}
use agentapi_plusplus.Strings.{has_prefix, is_blank, join_lines, trim_space}

pub record ClaudeEntry : Type 0 where
  pub type : Text
  pub uuid : Text
  pub timestamp : Text
  pub session_id : Text
  pub is_sidechain : Bool
  pub is_meta : Bool
  pub message : Text
  pub content : Text
  pub subtype : Text

-- Without `role`, which no code reads.
pub record ClaudeMessage : Type 0 where
  pub content : Text

pub record ClaudeContentBlock : Type 0 where
  pub type : Text
  pub thinking : Text
  pub text : Text
  pub id : Text
  pub name : Text
  pub input : Text
  pub tool_use_id : Text
  pub content : Text

-- What `json.Unmarshal` gives for each type that the parser asks for, and what `time.Parse` gives.
pub record ClaudeDecoder : Type 0 where
  pub entry : Text → Option ClaudeEntry
  pub message : Text → Option ClaudeMessage
  pub blocks : Text → Option (List ClaudeContentBlock)
  pub string : Text → Option Text
  pub time : Text → Option ℕ

unfoldable pub is_claude_command_meta : Text → Bool
is_claude_command_meta text =
    let trimmed = trim_space text in
    has_prefix trimmed (codes "<command-name>")
    || has_prefix trimmed (codes "<local-command-stdout>")

-- `p.now()` gives `now`.
unfoldable pub entry_time : ClaudeDecoder → ℕ → Text → ℕ
entry_time d now ts = elim (d.time ts) [ some t ↦ t | none ↦ now ]

-- The parts of a tool's result that are text.
unfoldable pub result_part : ClaudeContentBlock → List Text
result_part b =
    if text_eq b.type (codes "text")
    then b.text ∷ []
    else if text_eq b.type (codes "image")
    then codes "[image]" ∷ []
    else []

unfoldable pub result_parts : List ClaudeContentBlock → List Text
unfolding result_part
result_parts [] = []
result_parts (b ∷ blocks) = result_part b ++ result_parts blocks

unfoldable pub flatten_claude_tool_result : ClaudeDecoder → Text → Text
unfolding result_parts
flatten_claude_tool_result d raw = if is_nil raw then [] else elim (d.string raw) [
  | some s ↦ s
  | none ↦ elim (d.blocks raw) [ none ↦ [] | some blocks ↦ join_lines (result_parts blocks) ]
]

-- A zero event of an entry: `base`.
unfoldable pub base_event : ClaudeDecoder → ℕ → ClaudeEntry → TimelineEvent
unfolding entry_time
base_event d now entry = record {
  kind = [];
  role = [];
  time = entry_time d now entry.timestamp;
  session_id = entry.session_id;
  content = [];
  tool_name = [];
  tool_input = [];
  tool_use_id = [];
  source_id = entry.uuid;
}

-- One block of an assistant's message.
unfoldable pub assistant_block : TimelineEvent → ClaudeContentBlock → List TimelineEvent
assistant_block base b =
    let ev = record base { role = codes "assistant" } in
    if text_eq b.type (codes "thinking")
    then (if is_blank b.thinking
        then []
        else record ev { kind = codes "thinking"; content = b.thinking } ∷ [])
    else if text_eq b.type (codes "text")
    then (if is_nil b.text then [] else record ev { kind = codes "text"; content = b.text } ∷ [])
    else if text_eq b.type (codes "tool_use")
    then record ev {
      kind = codes "tool_call";
      tool_name = b.name;
      tool_input = b.input;
      tool_use_id = b.id;
    }
      ∷ []
    else []

unfoldable pub assistant_blocks : TimelineEvent → List ClaudeContentBlock → List TimelineEvent
unfolding assistant_block
assistant_blocks base [] = []
assistant_blocks base (b ∷ blocks) = assistant_block base b ++ assistant_blocks base blocks

unfoldable pub parse_assistant : ClaudeDecoder → ClaudeEntry → TimelineEvent → List TimelineEvent
unfolding assistant_blocks
parse_assistant d entry base = elim (d.message entry.message) [
  | none ↦ []
  | some msg ↦ elim (d.blocks msg.content) [
    | none ↦ []
    | some blocks ↦ assistant_blocks base blocks
  ]
]

-- One block of a user's message.
unfoldable pub user_block : ClaudeDecoder → TimelineEvent → ClaudeContentBlock → List TimelineEvent
unfolding flatten_claude_tool_result is_claude_command_meta
user_block d base b =
    if text_eq b.type (codes "tool_result")
    then record base {
      kind = codes "tool_result";
      role = codes "user";
      tool_use_id = b.tool_use_id;
      content = flatten_claude_tool_result d b.content;
    }
      ∷ []
    else if text_eq b.type (codes "text")
    then (if is_nil b.text || is_claude_command_meta b.text
        then []
        else record base { kind = codes "text"; role = codes "user"; content = b.text } ∷ [])
    else []

unfoldable pub user_blocks :
    ClaudeDecoder → TimelineEvent → List ClaudeContentBlock → List TimelineEvent
unfolding user_block
user_blocks d base [] = []
user_blocks d base (b ∷ blocks) = user_block d base b ++ user_blocks d base blocks

unfoldable pub user_text : TimelineEvent → Text → List TimelineEvent
unfolding is_claude_command_meta
user_text base text =
    if is_nil text || is_claude_command_meta text
    then []
    else record base { kind = codes "text"; role = codes "user"; content = text } ∷ []

unfoldable pub parse_user : ClaudeDecoder → ClaudeEntry → TimelineEvent → List TimelineEvent
unfolding user_blocks user_text
parse_user d entry base = elim (d.message entry.message) [
  | none ↦ []
  | some msg ↦ elim (d.string msg.content) [
    | some text ↦ user_text base text
    | none ↦ elim (d.blocks msg.content) [ none ↦ [] | some blocks ↦ user_blocks d base blocks ]
  ]
]

-- The case of a `system` entry.
unfoldable pub parse_system : ClaudeEntry → TimelineEvent → List TimelineEvent
unfolding is_claude_command_meta
parse_system entry base =
    let content = if is_nil entry.content then entry.subtype else entry.content in
    if is_nil content || is_claude_command_meta content
    then []
    else record base { kind = codes "system"; role = codes "system"; content = content } ∷ []

unfoldable pub parse_entry : ClaudeDecoder → ℕ → ClaudeEntry → List TimelineEvent
unfolding base_event parse_assistant parse_user parse_system
parse_entry d now entry =
    let base = base_event d now entry in
    if entry.is_sidechain || entry.is_meta
    then []
    else if text_eq entry.type (codes "assistant")
    then parse_assistant d entry base
    else if text_eq entry.type (codes "user")
    then parse_user d entry base
    else if text_eq entry.type (codes "system")
    then parse_system entry base
    else []

-- `ParseLine`, whose error is always nil.
unfoldable pub parse_line : ClaudeDecoder → ℕ → Text → List TimelineEvent
unfolding parse_entry
parse_line d now line = elim (d.entry line) [ none ↦ [] | some entry ↦ parse_entry d now entry ]
