-- ===== src/Events/Emitter.antt =====
-- lib/httpapi/events.go: the operations of the emitter. Each runs under its lock, so it is one step.
-- `none` is the panic of closing a nil channel.
use agentapi_plusplus.Conversation.Messages.{
  ConversationRole, user, agent, unnamed, ConversationStatus, changing, stable, initializing,
  ErrorLevel, ConversationMessage,
}
use agentapi_plusplus.Events.Types.{
  AgentStatus, running, ErrorBody, TimelineEvent, TimelineEventBody, Event, message_update,
  status_change, screen_update, agent_error, timeline_event, Subscription, EventEmitter, ℤ, pos,
  negsuc,
}
use agentapi_plusplus.Msgfmt.Agents.{AgentType}
use agentapi_plusplus.Msgfmt.Whitespace.{is_white_space}
use agentapi_plusplus.Prelude.{
  ℕ, ◌+◌, ◌-◌, Bool, true, false, not, ◌&&◌, List, [], ◌∷◌, ◌++◌, Option, none, some, map, ltb, leb,
  ◌==◌, if◌then◌else◌, ◌>>=◌, length, drop, is_nil, Text, text_eq,
}
use agentapi_plusplus.Strings.{trim_right}

unfoldable pub convert_status : ConversationStatus → AgentStatus
convert_status initializing = running
convert_status stable = AgentStatus.stable
convert_status changing = running

abbrev pub agent_status_eq : AgentStatus → AgentStatus → Bool
agent_status_eq running running = true
agent_status_eq AgentStatus.stable AgentStatus.stable = true
agent_status_eq _ _ = false

abbrev pub default_subscription_buf_size : ℕ
default_subscription_buf_size = 1024

abbrev pub max_stored_errors : ℕ
max_stored_errors = 100

abbrev pub max_stored_timeline_events : ℕ
max_stored_timeline_events = 10000

abbrev pub max_timeline_replay : ℕ
max_timeline_replay = 500

unfoldable pub with_subscription_buf_size : ℕ → EventEmitter → EventEmitter
with_subscription_buf_size size e =
    if size == 0
    then record e { subscription_buf_size = default_subscription_buf_size }
    else record e { subscription_buf_size = size }

unfoldable pub new_event_emitter : AgentType → ℕ → EventEmitter
unfolding with_subscription_buf_size
new_event_emitter agent_type size = with_subscription_buf_size size (record {
  messages = [];
  status = running;
  agent_type = agent_type;
  chans = [];
  chan_idx = 0;
  subscription_buf_size = default_subscription_buf_size;
  screen = [];
  errors = [];
  timeline = [];
  timeline_next_id = 0;
})

-- One event for every channel: a full channel is closed and removed. Every channel is treated by
-- itself, so the order in which the map is read makes no difference.
unfoldable pub notify_channels : ℕ → List Subscription → Event → List Subscription
notify_channels size [] event = []
notify_channels size (s ∷ chans) event =
    if ltb (length s.buffered) size
    then record s { buffered = s.buffered ++ event ∷ [] } ∷ notify_channels size chans event
    else notify_channels size chans event

unfoldable pub notify : EventEmitter → Event → EventEmitter
unfolding notify_channels
notify e event = record e { chans = notify_channels e.subscription_buf_size e.chans event }

unfoldable pub notify_all : EventEmitter → List Event → EventEmitter
unfolding notify
notify_all e [] = e
notify_all e (event ∷ events) = notify_all (notify e event) events

abbrev pub role_eq : ConversationRole → ConversationRole → Bool
role_eq user user = true
role_eq agent agent = true
role_eq (unnamed s) (unnamed t) = text_eq s t
role_eq _ _ = false

unfoldable pub message_eq : ConversationMessage → ConversationMessage → Bool
message_eq m n =
    m.id == n.id && text_eq m.message n.message && role_eq m.role n.role && m.time == n.time

abbrev pub zero_message : ConversationMessage
zero_message = record { id = 0; message = []; role = unnamed []; time = 0 }

abbrev pub update_of : ConversationMessage → Event
update_of m =
    message_update (record { id = m.id; role = m.role; message = m.message; time = m.time })

-- The events of the loop of `EmitMessages` from an index on, over the old and the new messages from there.
unfoldable pub changed_messages : List ConversationMessage → List ConversationMessage → List Event
unfolding message_eq
changed_messages old [] = []
changed_messages [] (n ∷ new) =
    if message_eq zero_message n
    then changed_messages [] new
    else update_of n ∷ changed_messages [] new
changed_messages (o ∷ old) (n ∷ new) =
    if message_eq o n then changed_messages old new else update_of n ∷ changed_messages old new

unfoldable pub emit_messages : EventEmitter → List ConversationMessage → EventEmitter
unfolding changed_messages notify_all
emit_messages e new = record (notify_all e (changed_messages e.messages new)) { messages = new }

unfoldable pub emit_status : EventEmitter → ConversationStatus → EventEmitter
unfolding convert_status notify
emit_status e new =
    if agent_status_eq e.status (convert_status new)
    then e
    else record (notify e
        (status_change (record { status = convert_status new; agent_type = e.agent_type }))) {
          status = convert_status new;
        }

unfoldable pub emit_screen : EventEmitter → Text → EventEmitter
unfolding notify trim_right is_white_space
emit_screen e new =
    if text_eq e.screen new
    then e
    else record (notify e (screen_update (trim_right is_white_space new))) { screen = new }

-- `xs[len(xs)-limit:]` where there are more than `limit`.
abbrev pub keep_last {ℓ} : {T : Type ℓ} → ℕ → List T → List T
keep_last limit xs = if ltb limit (length xs) then drop (length xs - limit) xs else xs

unfoldable pub emit_error : EventEmitter → Text → ErrorLevel → ℕ → EventEmitter
unfolding notify
emit_error e message level now =
    let body : ErrorBody = record { message = message; level = level; time = now } in
    notify (record e { errors = keep_last max_stored_errors (e.errors ++ body ∷ []) })
      (agent_error body)

unfoldable pub to_timeline_event_body : ℕ → TimelineEvent → TimelineEventBody
to_timeline_event_body id ev = record {
  id = id;
  kind = ev.kind;
  role = ev.role;
  time = ev.time;
  session_id = ev.session_id;
  content = ev.content;
  tool_name = ev.tool_name;
  tool_input = ev.tool_input;
  tool_use_id = ev.tool_use_id;
  source_id = ev.source_id;
}

unfoldable pub emit_timeline_event : EventEmitter → TimelineEvent → EventEmitter
unfolding notify to_timeline_event_body
emit_timeline_event e ev =
    let body = to_timeline_event_body e.timeline_next_id ev in
    notify
      (record e {
        timeline_next_id = e.timeline_next_id + 1;
        timeline = keep_last max_stored_timeline_events (e.timeline ++ body ∷ []);
      })
      (timeline_event body)

unfoldable pub clear_timeline : EventEmitter → EventEmitter
clear_timeline e = record e { timeline = [] }

abbrev pub is_at_most : ℕ → ℤ → Bool
is_at_most id (pos n) = leb id n
is_at_most id (negsuc n) = false

-- The loop of `Timeline`; the empty kind matches all.
unfoldable pub timeline_since : List TimelineEventBody → ℤ → Text → List TimelineEventBody
timeline_since [] since kind = []
timeline_since (ev ∷ events) since kind =
    if is_at_most ev.id since
    then timeline_since events since kind
    else if not (is_nil kind) && not (text_eq ev.kind kind)
    then timeline_since events since kind
    else ev ∷ timeline_since events since kind

unfoldable pub timeline : EventEmitter → ℤ → Text → List TimelineEventBody
unfolding timeline_since
timeline e since kind = timeline_since e.timeline since kind

unfoldable pub current_state_as_events : EventEmitter → List Event
unfolding trim_right is_white_space
current_state_as_events e =
    map update_of e.messages
    ++ (status_change (record { status = e.status; agent_type = e.agent_type })
        ∷ screen_update (trim_right is_white_space e.screen)
        ∷ (map agent_error e.errors
            ++ map timeline_event (keep_last max_timeline_replay e.timeline)))

-- The key of the new channel, the emitter, and the replay.
unfoldable pub subscribe : EventEmitter → ℕ × EventEmitter × List Event
unfolding current_state_as_events
subscribe e = (
  e.chan_idx,
  record e {
    chans = record { key = e.chan_idx; buffered = [] } ∷ e.chans;
    chan_idx = e.chan_idx + 1;
  },
  current_state_as_events e,
)

-- `close(chans[id])` and `delete(chans, id)`.
unfoldable pub unsubscribe_inner : List Subscription → ℕ → Option (List Subscription)
unsubscribe_inner [] id = none
unsubscribe_inner (s ∷ chans) id =
    let rest = unsubscribe_inner chans id in
    if s.key == id then some chans else (rest >>= λ left. some (s ∷ left))

unfoldable pub unsubscribe : EventEmitter → ℕ → Option EventEmitter
unfolding unsubscribe_inner
unsubscribe e id = do chans ← unsubscribe_inner e.chans id; some (record e { chans = chans })
