-- ===== src/Conversation/State.antt =====
-- lib/screentracker/pty_conversation.go: the configuration and the state of a conversation.
use agentapi_plusplus.Conversation.Messages.{ConversationMessage, MessagePartText, agent}
use agentapi_plusplus.Msgfmt.Agents.{AgentType}
use agentapi_plusplus.Prelude.{
  ℕ, ◌+◌, ◌/◌, ◌%◌, Bool, false, List, [], ◌∷◌, Option, none, some, ◌==◌, if◌then◌else◌, ◌>>=◌,
  Text,
}
use agentapi_plusplus.RingBuffer.{RingBuffer, new_ring_buffer}

pub record StatePersistenceConfig : Type 0 where
  pub state_file : Text
  pub load_state : Bool
  pub save_state : Bool

-- The functions are what the HTTP server passes in; `none` is a nil function. The interval and the
-- length are in milliseconds. The initial prompt is in the state, since loading a state may set it.
pub record PtyConversationConfig : Type 0 where
  pub agent_type : AgentType
  pub snapshot_interval : ℕ
  pub screen_stability_length : ℕ
  pub format_message : Option (Text → Text → Text)
  pub ready_for_initial_prompt : Option (Text → Bool)
  pub format_tool_call : Option (Text → Text × List Text)
  pub persistence : StatePersistenceConfig

pub record ScreenSnapshot : Type 0 where
  pub timestamp : ℕ
  pub screen : Text

pub data LoadStateStatus : Type 0 where
  pending succeeded failed : LoadStateStatus

-- `has_caller`: whether a caller of `Send` waits on the error channel.
pub record OutboundMessage : Type 0 where
  pub parts : List MessagePartText
  pub has_caller : Bool

-- `outbound_queue` and `stable_signal` are channels of capacity 1.
pub record PtyConversation : Type 0 where
  pub stable_snapshots_threshold : ℕ
  pub snapshot_buffer : RingBuffer ScreenSnapshot
  pub messages : List ConversationMessage
  pub screen_before_last_user_message : Text
  pub outbound_queue : List OutboundMessage
  pub sending_message : Bool
  pub writing_message : Bool
  pub stable_signal : Bool
  pub tool_call_message_set : List Text
  pub dirty : Bool
  pub user_sent_message_after_load_state : Bool
  pub load_state_status : LoadStateStatus
  pub initial_prompt_ready : Bool
  pub initial_prompt_sent : Bool
  pub initial_prompt : List MessagePartText

-- `none` is the panic of a division by an interval of less than a millisecond.
unfoldable pub get_stable_snapshots_threshold : PtyConversationConfig → Option ℕ
get_stable_snapshots_threshold cfg =
    if cfg.snapshot_interval == 0
    then none
    else (let threshold = cfg.screen_stability_length / cfg.snapshot_interval in
        if cfg.screen_stability_length % cfg.snapshot_interval == 0
        then some (threshold + 1)
        else some (threshold + 1 + 1))

abbrev pub empty_snapshot : ScreenSnapshot
empty_snapshot = record { timestamp = 0; screen = [] }

-- The conversation of `NewPTY` for a threshold: one empty message of the agent.
unfoldable pub fresh_pty : List MessagePartText → ℕ → ℕ → PtyConversation
unfolding new_ring_buffer
fresh_pty initial_prompt now threshold = record {
  stable_snapshots_threshold = threshold;
  snapshot_buffer = new_ring_buffer empty_snapshot threshold;
  messages = record { id = 0; message = []; role = agent; time = now } ∷ [];
  screen_before_last_user_message = [];
  outbound_queue = [];
  sending_message = false;
  writing_message = false;
  stable_signal = false;
  tool_call_message_set = [];
  dirty = false;
  user_sent_message_after_load_state = false;
  load_state_status = LoadStateStatus.pending;
  initial_prompt_ready = false;
  initial_prompt_sent = false;
  initial_prompt = initial_prompt;
}

unfoldable pub new_pty : PtyConversationConfig → List MessagePartText → ℕ → Option PtyConversation
unfolding get_stable_snapshots_threshold fresh_pty
new_pty cfg initial_prompt now = do
  threshold ← get_stable_snapshots_threshold cfg
  some (fresh_pty initial_prompt now threshold)
