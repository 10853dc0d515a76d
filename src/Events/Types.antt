-- ===== src/Events/Types.antt =====
-- lib/httpapi/events.go: the events and the state of the emitter; lib/transcript/model.go: the timeline
-- events that the transcript parsers make.
use agentapi_plusplus.Conversation.Messages.{ConversationRole, ErrorLevel, ConversationMessage}
use agentapi_plusplus.Msgfmt.Agents.{AgentType}
use agentapi_plusplus.Prelude.{ℕ, List, Text}

pub data AgentStatus : Type 0 where
  running stable : AgentStatus

pub record MessageUpdateBody : Type 0 where
  pub id : ℕ
  pub role : ConversationRole
  pub message : Text
  pub time : ℕ

pub record StatusChangeBody : Type 0 where
  pub status : AgentStatus
  pub agent_type : AgentType

pub record ErrorBody : Type 0 where
  pub message : Text
  pub level : ErrorLevel
  pub time : ℕ

-- An event as a parser gives it, before the emitter numbers it.
pub record TimelineEvent : Type 0 where
  pub kind : Text
  pub role : Text
  pub time : ℕ
  pub session_id : Text
  pub content : Text
  pub tool_name : Text
  pub tool_input : Text
  pub tool_use_id : Text
  pub source_id : Text

pub record TimelineEventBody : Type 0 where
  pub id : ℕ
  pub kind : Text
  pub role : Text
  pub time : ℕ
  pub session_id : Text
  pub content : Text
  pub tool_name : Text
  pub tool_input : Text
  pub tool_use_id : Text
  pub source_id : Text

-- An event's type with its payload.
pub data Event : Type 0 where
  message_update : MessageUpdateBody → Event
  status_change : StatusChangeBody → Event
  screen_update : Text → Event
  agent_error : ErrorBody → Event
  timeline_event : TimelineEventBody → Event

-- A channel of the map: its key and what it buffers.
pub record Subscription : Type 0 where
  pub key : ℕ
  pub buffered : List Event

pub record EventEmitter : Type 0 where
  pub messages : List ConversationMessage
  pub status : AgentStatus
  pub agent_type : AgentType
  pub chans : List Subscription
  pub chan_idx : ℕ
  pub subscription_buf_size : ℕ
  pub screen : Text
  pub errors : List ErrorBody
  pub timeline : List TimelineEventBody
  pub timeline_next_id : ℕ

-- A Go `int`.
pub data ℤ : Type 0 where
  pos : ℕ → ℤ
  negsuc : ℕ → ℤ
