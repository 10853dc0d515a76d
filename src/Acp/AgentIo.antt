-- ===== src/Acp/AgentIo.antt =====
-- x/acpio/acpio.go: the connection to the agent. The prompt of the ACP library is a parameter; what it
-- calls back is an argument.
pub mod Prompts
pub mod Delivery
pub mod Updates
use agentapi_plusplus.Prelude.{
  ℕ, Bool, true, false, List, [], ◌∷◌, ◌++◌, Option, none, some, if◌then◌else◌, length, is_nil,
  drop, take, ◌-◌, Text, codes, byte_length,
}
use agentapi_plusplus.Strings.{has_prefix, has_suffix, trim_space}

-- `on_chunk` tells whether the callback is set.
pub record AgentIo : Type 0 where
  pub response : Text
  pub on_chunk : Bool

-- A notification: the text of a message chunk, a tool call, and the status of a tool call. Each is there or
-- not; a chunk may have no text, and an update of a tool call no status.
pub record ToolCall : Type 0 where
  pub kind : Text
  pub title : Text

pub record SessionUpdate : Type 0 where
  pub agent_message_chunk : Option (Option Text)
  pub tool_call : Option ToolCall
  pub tool_call_update : Option (Option Text)

-- A piece of an update is appended to the response under the lock; the callback that was read there, if there
-- is one, is then due for it, outside the lock.
unfoldable pub respond : AgentIo → Text → AgentIo × Option Text
respond a piece =
    (record a { response = a.response ++ piece }, if a.on_chunk then some piece else none)

unfoldable pub format_tool : ToolCall → Text
format_tool tc = (b'\n' ∷ codes "[Tool: ") ++ tc.kind ++ codes "] " ++ tc.title ++ b'\n' ∷ []

unfoldable pub format_status : Text → Text
format_status status = codes "[Tool Status: " ++ status ++ codes "]" ++ b'\n' ∷ []

unfoldable pub chunk_pieces : Option (Option Text) → List Text
chunk_pieces (some (some text)) = text ∷ []
chunk_pieces _ = []

unfoldable pub tool_pieces : Option ToolCall → List Text
unfolding format_tool
tool_pieces none = []
tool_pieces (some tc) = format_tool tc ∷ []

unfoldable pub status_pieces : Option (Option Text) → List Text
unfolding format_status
status_pieces (some (some status)) = format_status status ∷ []
status_pieces _ = []

-- The pieces that `SessionUpdate` responds with, one after the other.
unfoldable pub session_update : SessionUpdate → List Text
unfolding chunk_pieces tool_pieces status_pieces
session_update u =
    chunk_pieces u.agent_message_chunk
    ++ tool_pieces u.tool_call
    ++ status_pieces u.tool_call_update

-- `strings.TrimPrefix` and `strings.TrimSuffix`.
unfoldable pub trim_prefix : Text → Text → Text
unfolding has_prefix
trim_prefix s t = if has_prefix s t then drop (length t) s else s

unfoldable pub trim_suffix : Text → Text → Text
unfolding has_suffix
trim_suffix s t = if has_suffix s t then take (length s - length t) s else s

abbrev pub paste_start : Text
paste_start = 0x1b ∷ codes "[200~"

abbrev pub paste_end : Text
paste_end = 0x1b ∷ codes "[201~"

abbrev pub type_and_erase : Text
type_and_erase = b'x' ∷ 0x8 ∷ []

-- The text that `Write` sends.
unfoldable pub prompt_text : Text → Text
unfolding trim_prefix trim_suffix
prompt_text text =
    trim_space (trim_prefix (trim_suffix (trim_prefix text paste_start) paste_end) type_and_erase)

-- What `Write` returns: the number of bytes, with the prompt that was sent, if one was; or an error, before
-- the prompt was sent or by it.
pub data Written : Type 0 where
  ignored : ℕ → Written
  prompted : ℕ → Text → Written
  aborted : Written
  failed : Text → Written

-- `prompt` tells for a text whether the agent took it.
unfoldable pub write : (Text → Bool) → AgentIo → Bool → Text → AgentIo × Written
unfolding prompt_text
write prompt a is_done text =
    let stripped = prompt_text text in
    let cleared = record a { response = [] } in
    if is_nil stripped
    then (a, ignored (byte_length text))
    else if is_done
    then (cleared, aborted)
    else if prompt stripped
    then (cleared, prompted (byte_length text) stripped)
    else (cleared, failed stripped)

unfoldable pub read_screen : AgentIo → Text
read_screen a = a.response

unfoldable pub set_on_chunk : AgentIo → AgentIo
set_on_chunk a = record a { on_chunk = true }
