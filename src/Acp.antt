-- ===== src/Acp.antt =====
-- x/acpio/acp_conversation.go: the conversation with an agent that speaks ACP. Each operation is what runs
-- under one hold of the lock, with what it emits after it.
pub mod AgentIo
pub mod Turn
pub mod Steps
pub mod Replies
pub mod Sound
use agentapi_plusplus.Conversation.Messages.{
  ConversationStatus, changing, stable, ConversationMessage, MessagePartText, ValidationError,
  whitespace, empty, still_changing, user, agent, is_agent, build_string_from_message_parts,
  last_has_role, replace_last,
}
use agentapi_plusplus.Prelude.{
  ℕ, ◌+◌, ◌-◌, Bool, true, false, not, List, [], ◌∷◌, ◌++◌, Option, none, some, if◌then◌else◌,
  length, is_nil, take, Text, text_eq,
}
use agentapi_plusplus.Strings.{trim_space}

-- `chunk_received` tells whether the channel of one place holds a signal.
pub record AcpConversation : Type 0 where
  pub messages : List ConversationMessage
  pub next_id : ℕ
  pub prompting : Bool
  pub chunk_received : Bool
  pub streaming_response : Text
  pub initial_prompt : List MessagePartText

-- The calls of the emitter.
pub data Emission : Type 0 where
  emit_messages : List ConversationMessage → Emission
  emit_status : ConversationStatus → Emission
  emit_screen : Text → Emission

unfoldable pub new_acp_conversation : List MessagePartText → AcpConversation
new_acp_conversation initial_prompt = record {
  messages = [];
  next_id = 0;
  prompting = false;
  chunk_received = false;
  streaming_response = [];
  initial_prompt = initial_prompt;
}

unfoldable pub clear_messages : AcpConversation → AcpConversation
clear_messages c = record c { messages = []; next_id = 0; streaming_response = [] }

unfoldable pub status : AcpConversation → ConversationStatus
status c = if c.prompting then changing else stable

unfoldable pub text : AcpConversation → Text
text c = c.streaming_response

-- Emitted after each change of the messages: them, the status and the text that streams.
unfoldable pub emissions : AcpConversation → List Emission
unfolding status
emissions c =
    emit_messages c.messages ∷ emit_status (status c) ∷ emit_screen c.streaming_response ∷ []

-- `Send` before the lock: the error that its text alone causes.
unfoldable pub validate : Text → Option ValidationError
validate message =
    if not (text_eq message (trim_space message))
    then some whitespace
    else if is_nil message
    then some empty
    else none

-- `Send` under the lock, at the two readings of the clock.
unfoldable pub begin_prompt : AcpConversation → Text → ℕ → ℕ → AcpConversation
begin_prompt c message now later = record c {
  messages =
      c.messages
      ++ record { id = c.next_id; message = message; role = user; time = now }
        ∷ record { id = c.next_id + 1; message = []; role = agent; time = later }
        ∷ [];
  next_id = c.next_id + 2;
  streaming_response = [];
  prompting = true;
}

-- What `Send` does up to `executePrompt`: it refuses, or it is admitted and emits the status.
pub data Sent : Type 0 where
  refused : ValidationError → Sent
  admitted : AcpConversation → List Emission → Sent

unfoldable pub send : AcpConversation → List MessagePartText → ℕ → ℕ → Sent
unfolding validate begin_prompt status
send c parts now later =
    let message = build_string_from_message_parts parts in
    elim (validate message) [
      | some err ↦ refused err
      | none ↦
          if c.prompting
          then refused still_changing
          else (let begun = begin_prompt c message now later in
              admitted begun (emit_status (status begun) ∷ []))
    ]

-- `messages[len(messages)-1].Message = response`, if the last message is an agent's.
unfoldable pub fill_last : List ConversationMessage → Text → List ConversationMessage
fill_last [] response = []
fill_last (m ∷ []) response = (if is_agent m.role then record m { message = response } else m) ∷ []
fill_last (m ∷ n ∷ ms) response = m ∷ fill_last (n ∷ ms) response

-- `messages[:len(messages)-1]`, if the last message is an agent's.
unfoldable pub drop_last : List ConversationMessage → List ConversationMessage
unfolding last_has_role
drop_last ms = if last_has_role is_agent ms then take (length ms - 1) ms else ms

-- `handleChunk`, with the signal that it leaves. The code sends the signal right after it has released the
-- lock; here both are one step.
unfoldable pub handle_chunk : AcpConversation → Text → AcpConversation × List Emission
unfolding fill_last emissions
handle_chunk c chunk =
    if not c.prompting
    then (c, [])
    else (let response = c.streaming_response ++ chunk in
        let d = record c {
          streaming_response = response;
          messages = fill_last c.messages response;
          chunk_received = true;
        } in
        (d, emissions d))

-- The signal taken, where there is one: before the prompt, and where the wait after it ends by a signal.
unfoldable pub drain_signal : AcpConversation → AcpConversation
drain_signal c = record c { chunk_received = false }

-- The end of `executePrompt`, under the lock; `failed` tells whether a part could not be written.
unfoldable pub end_prompt : AcpConversation → Bool → AcpConversation × List Emission
unfolding fill_last drop_last emissions
end_prompt c failed =
    let messages =
      if failed then drop_last c.messages else fill_last c.messages c.streaming_response in
    let d = record c { prompting = false; messages = messages } in (d, emissions d)

-- `Start`, where there is no initial prompt; where there is one, it is sent like any other.
unfoldable pub start : AcpConversation → List Emission
unfolding status
start c = if is_nil c.initial_prompt then emit_status (status c) ∷ [] else []
