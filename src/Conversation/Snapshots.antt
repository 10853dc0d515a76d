-- ===== src/Conversation/Snapshots.antt =====
-- lib/screentracker/pty_conversation.go: what a snapshot of the screen does to the messages.
-- `none` is a panic of Go.
pub mod Effects
pub mod Laws
pub mod Repeated
use agentapi_plusplus.Conversation.Messages.{
  ConversationMessage, agent, is_user, is_agent, last_has_role, last_message, text_of, last_text,
  replace_last,
}
use agentapi_plusplus.Conversation.State.{
  PtyConversationConfig, PtyConversation, ScreenSnapshot, LoadStateStatus, pending, succeeded,
  failed,
}
use agentapi_plusplus.Prelude.{
  ℕ, ◌+◌, ◌-◌, Bool, true, false, not, ◌&&◌, ◌||◌, List, [], ◌∷◌, ◌++◌, Option, none, some,
  if◌then◌else◌, ◌>>=◌, length, is_nil, Text, text_eq,
}
use agentapi_plusplus.RingBuffer.{add}
use agentapi_plusplus.ScreenDiff.{screen_diff}

abbrev pub has_loaded : LoadStateStatus → Bool
has_loaded succeeded = true
has_loaded _ = false

abbrev pub format_with : Option (Text → Text → Text) → Text → Text → Text
format_with none message user_input = message
format_with (some f) message user_input = f message user_input

abbrev pub format_tools_with : Option (Text → Text × List Text) → Text → Text × List Text
format_tools_with none message = (message, [])
format_tools_with (some f) message = f message

unfoldable pub mark_tool_call : List Text → Text → List Text
mark_tool_call [] call = call ∷ []
mark_tool_call (c ∷ set) call = if text_eq c call then c ∷ set else c ∷ mark_tool_call set call

unfoldable pub mark_tool_calls : List Text → List Text → List Text
unfolding mark_tool_call
mark_tool_calls set [] = set
mark_tool_calls set (call ∷ calls) = mark_tool_calls (mark_tool_call set call) calls

-- `agentMessage` before the tool calls are cut out: the formatted part of the screen, or the restored
-- message as long as the user has sent nothing since it was loaded.
unfoldable pub screen_message : PtyConversationConfig → PtyConversation → Text → Text
screen_message cfg c diff =
    if has_loaded c.load_state_status
      && not c.user_sent_message_after_load_state
      && last_has_role is_agent c.messages
    then last_text c.messages
    else format_with cfg.format_message diff (text_of (last_message is_user c.messages))

unfoldable pub should_create_new_message : List ConversationMessage → Bool
should_create_new_message messages = is_nil messages || last_has_role is_user messages

-- The new message list: the id is the index of the last message.
unfoldable pub put_agent_message : List ConversationMessage → Text → ℕ → List ConversationMessage
unfolding should_create_new_message
put_agent_message messages message time =
    if should_create_new_message messages
    then messages
      ++ (record { id = length messages; message = message; role = agent; time = time } ∷ [])
    else replace_last messages
        (record { id = length messages - 1; message = message; role = agent; time = time })

-- The rest of `updateLastAgentMessageLocked`, from the final text and the tool calls on.
unfoldable pub store_agent_message : PtyConversation → Text → List Text → ℕ → PtyConversation
unfolding put_agent_message mark_tool_calls
store_agent_message c message tool_calls time =
    let marked = mark_tool_calls c.tool_call_message_set tool_calls in
    if text_eq (text_of (last_message is_agent c.messages)) message
    then record c { tool_call_message_set = marked }
    else record c {
      tool_call_message_set = if should_create_new_message c.messages then [] else marked;
      messages = put_agent_message c.messages message time;
      dirty = true;
    }

unfoldable pub update_last_agent_message :
    PtyConversationConfig → PtyConversation → Text → ℕ → Option PtyConversation
unfolding screen_message store_agent_message
update_last_agent_message cfg c screen time =
    if c.writing_message
    then some c
    else (screen_diff c.screen_before_last_user_message screen cfg.agent_type >>= λ diff. some (
        let (message, tool_calls) =
          format_tools_with cfg.format_tool_call (screen_message cfg c diff) in
        store_agent_message c message tool_calls time))

unfoldable pub snapshot :
    PtyConversationConfig → PtyConversation → Text → ℕ → Option PtyConversation
snapshot cfg c screen now = do
  buffer ← add c.snapshot_buffer (record { timestamp = now; screen = screen })
  update_last_agent_message cfg (record c { snapshot_buffer = buffer }) screen now
