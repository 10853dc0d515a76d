-- ===== src/Http/Messages.antt =====
-- lib/httpapi/server.go: the handlers of GET /status, GET /messages and POST /message over the conversation
-- in a terminal. A message that is queued is answered when the send loop has sent it, by its error.
-- `none` is a panic, or a queue without room.
pub mod Posted
use agentapi_plusplus.Conversation.Messages.{ConversationMessage, ValidationError}
use agentapi_plusplus.Conversation.Send.{format_message, send_error, enqueue}
use agentapi_plusplus.Conversation.State.{PtyConversation}
use agentapi_plusplus.Conversation.Status
use agentapi_plusplus.Events.Emitter.{convert_status}
use agentapi_plusplus.Events.Types.{AgentStatus}
use agentapi_plusplus.Msgfmt.Agents.{AgentType}
use agentapi_plusplus.Prelude.{
  Bool, true, false, List, [], ◌∷◌, ◌++◌, Option, none, some, ◌>>=◌, Text,
}

pub data MessageType : Type 0 where
  user raw command : MessageType

-- The answer to a message: it is queued, done, refused, or its write has failed.
pub data Posting : Type 0 where
  queued done write_failed : Posting
  refused : ValidationError → Posting

-- The conversation, and what was written to the agent past it.
pub record Posts : Type 0 where
  pub conversation : PtyConversation
  pub written : List Text

pub data Transport : Type 0 where
  pty acp : Transport

pub record StatusResponse : Type 0 where
  pub status : AgentStatus
  pub agent_type : AgentType
  pub transport : Transport

unfoldable pub get_status : AgentType → Transport → Posts → Option StatusResponse
unfolding convert_status
get_status agent_type transport p = do
  s ← Status.status p.conversation
  some (record { status = convert_status s; agent_type = agent_type; transport = transport })

unfoldable pub get_messages : Posts → List ConversationMessage
get_messages p = p.conversation.messages

-- `Send` up to its wait for the send loop, on the error of its checks.
abbrev pub send_checked : Posts → Text → Option ValidationError → Option (Posting × Posts)
send_checked p content (some err) = some (refused err, p)
send_checked p content none = do
  c ← enqueue p.conversation (record { parts = format_message content; has_caller = true })
  some (queued, record p { conversation = c })

-- `createMessage`; the Boolean says whether a write to the agent succeeds.
unfoldable pub create_message : MessageType → Text → Bool → Posts → Option (Posting × Posts)
unfolding send_error format_message enqueue
create_message user content writes p = do
  err ← send_error p.conversation (format_message content)
  send_checked p content err
create_message raw content true p = some (done, record p { written = p.written ++ content ∷ [] })
create_message raw content false p = some (write_failed, p)
create_message command content writes p = some (done, p)
