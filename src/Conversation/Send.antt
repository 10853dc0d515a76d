-- ===== src/Conversation/Send.antt =====
-- lib/screentracker/pty_conversation.go: `Send` and `sendMessage`; lib/httpapi/claude.go: the parts of a
-- message.
-- `none` is a panic of Go.
pub mod Validation
pub mod Writing
pub mod Stabilize
use agentapi_plusplus.Conversation.Messages.{
  ConversationMessage, ConversationStatus, changing, stable, initializing, MessagePartText,
  ValidationError, whitespace, empty, still_changing, user, build_string_from_message_parts,
}
use agentapi_plusplus.Conversation.Snapshots.{update_last_agent_message}
use agentapi_plusplus.Conversation.State.{PtyConversationConfig, PtyConversation, OutboundMessage}
use agentapi_plusplus.Conversation.Status.{status}
use agentapi_plusplus.Msgfmt.Whitespace.{trim_white_space}
use agentapi_plusplus.Prelude.{
  ℕ, Bool, true, false, not, List, [], ◌∷◌, ◌++◌, Option, none, some, ltb, if◌then◌else◌, ◌>>=◌,
  length, is_nil, Text, text_eq, codes,
}

unfoldable pub format_paste : Text → List MessagePartText
format_paste message =
    record { content = 0x1b ∷ codes "[200~"; alias = []; hidden = true }
    ∷ record { content = message; alias = []; hidden = false }
    ∷ record { content = 0x1b ∷ codes "[201~"; alias = []; hidden = true }
    ∷ []

unfoldable pub format_claude_code_message : Text → List MessagePartText
unfolding format_paste
format_claude_code_message message = [] ++ format_paste message

-- The type of the agent makes no difference.
unfoldable pub format_message : Text → List MessagePartText
unfolding format_claude_code_message
format_message message = format_claude_code_message (trim_white_space message)

abbrev pub is_stable : ConversationStatus → Bool
is_stable stable = true
is_stable _ = false

-- `Send` before it puts the message in the queue: the error that it returns, if any.
unfoldable pub send_error : PtyConversation → List MessagePartText → Option (Option ValidationError)
send_error c parts =
    let message = build_string_from_message_parts parts in
    if not (text_eq message (trim_white_space message))
    then some (some whitespace)
    else if is_nil message
    then some (some empty)
    else (status c >>= λ s. some (if is_stable s then none else some still_changing))

-- `outboundQueue <- message`; `none` where the sender has to wait.
unfoldable pub enqueue : PtyConversation → OutboundMessage → Option PtyConversation
enqueue c message =
    if ltb (length c.outbound_queue) 1
    then some (record c { outbound_queue = c.outbound_queue ++ message ∷ [] })
    else none

-- `sendMessage` up to the write, on the screen it reads.
unfoldable pub begin_message :
    PtyConversationConfig → PtyConversation → Text → ℕ → Option PtyConversation
begin_message cfg c screen now = do
  updated ← update_last_agent_message cfg c screen now
  some (record updated { writing_message = true })

-- After a write that failed.
unfoldable pub fail_message : PtyConversation → PtyConversation
fail_message c = record c { writing_message = false }

-- After a write that succeeded; `screen` and `now` are from before the write.
unfoldable pub finish_message : PtyConversation → List MessagePartText → Text → ℕ → PtyConversation
finish_message c parts screen now = record c {
  screen_before_last_user_message = screen;
  messages =
      c.messages
      ++ record {
        id = length c.messages;
        message = build_string_from_message_parts parts;
        role = user;
        time = now;
      }
        ∷ [];
  user_sent_message_after_load_state = true;
  writing_message = false;
}
