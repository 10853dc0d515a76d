-- ===== src/Tests/Streams.antt =====
-- lib/httpapi/events.go at concrete inputs.
use agentapi_plusplus.Http.Stream.{received, shutdown, server_stopped, subscribe_events}
use agentapi_plusplus.Http.Stream.Client.{HasNoScreen, subscribe_events_lem}
use agentapi_plusplus.Prelude.{map, true, ◌==◌, text_eq}
use agentapi_plusplus.Conversation.Messages.{ConversationMessage, agent, user}
use agentapi_plusplus.Events.Channels.{buffered_of, AreKeyed, subscribe_lem}
use agentapi_plusplus.Events.Emitter.{
  notify_all, emit_messages, changed_messages, subscribe, unsubscribe,
}
use agentapi_plusplus.Events.Replay.{apply_events, subscriber_lem}
use agentapi_plusplus.Events.Timeline.{IsTimeline}
use agentapi_plusplus.Events.Types.{Event, running, screen_update, EventEmitter, TimelineEventBody}
use agentapi_plusplus.Msgfmt.Agents.{claude}
use agentapi_plusplus.Prelude.{
  ℕ, ◌≤◌, ◌<◌, ◌≡◌, refl, List, [], ◌∷◌, none, some, arith, length, codes,
}

-- An emitter with channels of two events.
abbrev small : EventEmitter
small = record {
  messages = record { id = 0; message = codes "hi"; role = agent; time = 1 } ∷ [];
  status = running;
  agent_type = claude;
  chans = [];
  chan_idx = 0;
  subscription_buf_size = 2;
  screen = [];
  errors = [];
  timeline = [];
  timeline_next_id = 0;
}

abbrev later : List ConversationMessage
later =
    record { id = 0; message = codes "hi"; role = agent; time = 1 }
    ∷ record { id = 1; message = codes "why?"; role = user; time = 2 }
    ∷ []

small-AreKeyed : AreKeyed small
small-AreKeyed = tt

subscribe_lem_example :
    ((2 ≤ 2)
      → buffered_of
          (notify_all (subscribe small).1 (screen_update [] ∷ screen_update [] ∷ [])).chans
          (subscribe small).0
        ≡ some (screen_update [] ∷ screen_update [] ∷ []))
    × ((2 < 2)
        → unsubscribe
            (notify_all (subscribe small).1 (screen_update [] ∷ screen_update [] ∷ []))
            (subscribe small).0
          ≡ none)
subscribe_lem_example =
    subscribe_lem small (screen_update [] ∷ screen_update [] ∷ []) small-AreKeyed

one_change : length (changed_messages small.messages later) ≤ 2
unfolding changed_messages text_eq
one_change = omega arith

subscriber_lem_example :
    (updates : List Event) × (buffered_of
        (emit_messages (subscribe small).1 later).chans
        (subscribe small).0
      ≡ some updates)
    × (apply_events (apply_events [] (subscribe small).2) updates ≡ later)
subscriber_lem_example =
    subscriber_lem small later small-AreKeyed (refl, tt) (refl, (refl, tt)) (λ e. cc, (λ e. cc, tt))
      (omega arith) one_change

abbrev thinking : ℕ → TimelineEventBody
thinking id = record {
  id = id;
  kind = codes "thinking";
  role = [];
  time = 0;
  session_id = [];
  content = [];
  tool_name = [];
  tool_input = [];
  tool_use_id = [];
  source_id = [];
}

abbrev thoughtful : EventEmitter
thoughtful = record small {
  timeline = thinking 3 ∷ thinking 4 ∷ thinking 5 ∷ [];
  timeline_next_id = 6;
}

abbrev thoughtful-IsTimeline : IsTimeline thoughtful
thoughtful-IsTimeline = record {
  first = 3;
  ids = (refl, (refl, (refl, tt)));
  next = refl;
  bounded = omega arith;
}

subscribe_events_lem_example :
    (updates : List Event) × (buffered_of
        (emit_messages (subscribe small).1 later).chans
        (subscribe small).0
      ≡ some updates)
    × HasNoScreen (subscribe_events (λ i. true) (subscribe small).2 (map received updates)).sent
    × (apply_events []
          (subscribe_events (λ i. true) (subscribe small).2 (map received updates)).sent
        ≡ later)
subscribe_events_lem_example =
    subscribe_events_lem small later small-AreKeyed (refl, tt) (refl, (refl, tt))
      (λ e. cc, (λ e. cc, tt)) (omega arith) one_change

stream_run :
    subscribe_events
      (λ n. n == 0)
      (screen_update [] ∷ [])
      (received (screen_update []) ∷ shutdown ∷ [])
    ≡ record { sent = []; ended = some server_stopped }
unfolding subscribe_events
stream_run = refl
