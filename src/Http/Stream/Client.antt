-- ===== src/Http/Stream/Client.antt =====
-- lib/httpapi/server.go and events.go: what a client of `GET /events` makes of the stream.
use agentapi_plusplus.Conversation.Messages.{ConversationMessage}
use agentapi_plusplus.Conversation.Messages.Lists.{AreNumbered}
use agentapi_plusplus.Events.Channels.{buffered_of, AreKeyed}
use agentapi_plusplus.Events.Emitter.{changed_messages, emit_messages, subscribe}
use agentapi_plusplus.Events.Replay.{AreNonzero, apply_event, apply_events, subscriber_lem}
use agentapi_plusplus.Events.Types.{
  Event, message_update, status_change, screen_update, agent_error, timeline_event, EventEmitter,
}
use agentapi_plusplus.Http.Stream.{received, is_screen, stream_loop, stream, subscribe_events}
use agentapi_plusplus.Prelude.{
  sym, subst, ℕ, suc, ◌≤◌, ◌≡◌, refl, ap, ◌∙◌, inl, inr, Bool, true, List, [], ◌∷◌, ◌++◌, map, some,
  if◌then◌else◌, Bool-cases, length,
}

-- The events that are sent: all but those that are skipped.
abbrev pub kept : (Event → Bool) → List Event → List Event
kept skips [] = []
kept skips (ev ∷ events) = if skips ev then kept skips events else ev ∷ kept skips events

module _ (skips : Event → Bool) where
  stream_loop-kept :
      (events : List Event) (n : ℕ)
      → (stream_loop skips (λ i. true) (map received events) n).sent ≡ kept skips events
  unfolding stream_loop
  stream_loop-kept [] n = refl
  stream_loop-kept (ev ∷ events) n = elim (Bool-cases (skips ev)) [
    | inl e ↦ rw e (stream_loop-kept events n)
    | inr e ↦ rw e (ap (◌∷◌ ev) (stream_loop-kept events (suc n)))
  ]

  stream-kept :
      (state events : List Event) (n : ℕ)
      → (stream skips (λ i. true) state (map received events) n).sent ≡ kept skips (state ++ events)
  unfolding stream
  stream-kept [] events n = stream_loop-kept events n
  stream-kept (ev ∷ state) events n = elim (Bool-cases (skips ev)) [
    | inl e ↦ rw e (stream-kept state events n)
    | inr e ↦ rw e (ap (◌∷◌ ev) (stream-kept state events (suc n)))
  ]

abbrev pub HasNoScreen : List Event → Type 0
HasNoScreen [] = Unit
HasNoScreen (message_update b ∷ events) = HasNoScreen events
HasNoScreen (status_change b ∷ events) = HasNoScreen events
HasNoScreen (screen_update s ∷ events) = ⊥
HasNoScreen (agent_error b ∷ events) = HasNoScreen events
HasNoScreen (timeline_event b ∷ events) = HasNoScreen events

kept-HasNoScreen : (events : List Event) → HasNoScreen (kept is_screen events)
unfolding is_screen
kept-HasNoScreen [] = tt
kept-HasNoScreen (message_update b ∷ events) = kept-HasNoScreen events
kept-HasNoScreen (status_change b ∷ events) = kept-HasNoScreen events
kept-HasNoScreen (screen_update s ∷ events) = kept-HasNoScreen events
kept-HasNoScreen (agent_error b ∷ events) = kept-HasNoScreen events
kept-HasNoScreen (timeline_event b ∷ events) = kept-HasNoScreen events

-- Screens make no difference to the messages.
apply_events-kept :
    (view : List ConversationMessage) (events : List Event)
    → apply_events view (kept is_screen events) ≡ apply_events view events
unfolding apply_events is_screen
apply_events-kept view [] = refl
apply_events-kept view (message_update b ∷ events) =
    apply_events-kept (apply_event view (message_update b)) events
apply_events-kept view (status_change b ∷ events) = apply_events-kept view events
apply_events-kept view (screen_update s ∷ events) = apply_events-kept view events
apply_events-kept view (agent_error b ∷ events) = apply_events-kept view events
apply_events-kept view (timeline_event b ∷ events) = apply_events-kept view events

apply_events-append :
    (view : List ConversationMessage) (a b : List Event)
    → apply_events view (a ++ b) ≡ apply_events (apply_events view a) b
unfolding apply_events
apply_events-append view [] b = refl
apply_events-append view (ev ∷ a) b = apply_events-append (apply_event view ev) a b

-- A client of `GET /events` that subscribed before messages are emitted, and to which every send succeeds,
-- is sent no screen, and rebuilds from what it is sent exactly the messages of the conversation. This is so if the channels of the emitter are told apart by their ids, the ids of the messages are
-- their places, none of the new messages is the zero value, there are no fewer of them than before, and
-- the updates fit in the channel.
pub subscribe_events_lem :
    (e : EventEmitter) (new : List ConversationMessage)
    → AreKeyed e
    → AreNumbered 0 e.messages
    → AreNumbered 0 new
    → AreNonzero new
    → length e.messages ≤ length new
    → length (changed_messages e.messages new) ≤ e.subscription_buf_size
    → (updates : List Event) × (buffered_of
          (emit_messages (subscribe e).1 new).chans
          (subscribe e).0
        ≡ some updates)
      × HasNoScreen (subscribe_events (λ i. true) (subscribe e).2 (map received updates)).sent
      × (apply_events [] (subscribe_events (λ i. true) (subscribe e).2 (map received updates)).sent
          ≡ new)
unfolding subscribe_events
subscribe_events_lem e new keyed a b z more fits =
    let (updates, buffered, rebuilt) = subscriber_lem e new keyed a b z more fits in
    (
      updates,
      buffered,
      subst HasNoScreen (sym (stream-kept is_screen (subscribe e).2 updates 0))
          (kept-HasNoScreen ((subscribe e).2 ++ updates)),
      ap (apply_events []) (stream-kept is_screen (subscribe e).2 updates 0)
          ∙ apply_events-kept [] ((subscribe e).2 ++ updates)
          ∙ apply_events-append [] (subscribe e).2 updates
          ∙ rebuilt,
    )
