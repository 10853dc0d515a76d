-- ===== src/Events/Replay.antt =====
-- lib/httpapi/events.go: a client that keeps the messages by the events, from the replay of its
-- subscription on.
use agentapi_plusplus.Conversation.Messages.{
  ConversationRole, user, agent, unnamed, ConversationMessage,
}
use agentapi_plusplus.Conversation.Messages.Lists.{AreNumbered}
use agentapi_plusplus.Events.Emitter.{
  role_eq, message_eq, zero_message, update_of, changed_messages, emit_messages, keep_last,
  current_state_as_events, subscribe,
}
use agentapi_plusplus.Events.Channels.{buffered_of, AreKeyed, subscribe_lem}
use agentapi_plusplus.Events.Types.{
  Event, message_update, status_change, screen_update, agent_error, timeline_event, EventEmitter,
  ErrorBody, TimelineEventBody,
}
use agentapi_plusplus.Msgfmt.Whitespace.{is_white_space}
use agentapi_plusplus.Strings.{trim_right}
use agentapi_plusplus.Prelude.{
  suc, ◌≤◌, ◌≡◌, ◌≢◌, refl, sym, ap, ◌∙◌, subst, inl, inr, true, ◌&&◌, List, [], ◌∷◌, ◌++◌, some,
  map, arith, ltb, ltb-false, lt→ltb, ◌==◌, ==_iff, if◌then◌else◌, Bool-cases, and_true, length,
  length-append, set, append-nil, append_assoc, text_eq, text_eq_iff,
}

-- What a client does with an event: the id of a message is its place.
unfoldable pub apply_event : List ConversationMessage → Event → List ConversationMessage
apply_event view (message_update b) =
    let m : ConversationMessage = record {
      id = b.id;
      message = b.message;
      role = b.role;
      time = b.time;
    } in
    if ltb b.id (length view) then set view b.id m else view ++ m ∷ []
apply_event view (status_change b) = view
apply_event view (screen_update s) = view
apply_event view (agent_error b) = view
apply_event view (timeline_event b) = view

unfoldable pub apply_events : List ConversationMessage → List Event → List ConversationMessage
unfolding apply_event
apply_events view [] = view
apply_events view (event ∷ events) = apply_events (apply_event view event) events

-- No message is the zero value, which has no role.
abbrev pub AreNonzero : List ConversationMessage → Type 0
AreNonzero [] = Unit {0}
AreNonzero (m ∷ ms) = (m ≢ zero_message) × AreNonzero ms

role_eq-eq : (r s : ConversationRole) → role_eq r s ≡ true → r ≡ s
role_eq-eq user user h = refl
role_eq-eq user agent h = cc
role_eq-eq user (unnamed t) h = cc
role_eq-eq agent user h = cc
role_eq-eq agent agent h = refl
role_eq-eq agent (unnamed t) h = cc
role_eq-eq (unnamed s) user h = cc
role_eq-eq (unnamed s) agent h = cc
role_eq-eq (unnamed s) (unnamed t) h = ap unnamed ((text_eq_iff s t).0 h)

pub message_eq-eq : (m n : ConversationMessage) → message_eq m n ≡ true → m ≡ n
unfolding message_eq
message_eq-eq m n h =
    let same_text = text_eq m.message n.message in
    let (h₁, w) =
      and_true (m.id == n.id && same_text && role_eq m.role n.role) (m.time == n.time) h in
    let (h₂, r) = and_true (m.id == n.id && same_text) (role_eq m.role n.role) h₁ in
    let (i, t) = and_true (m.id == n.id) same_text h₂ in
    let id_same = (==_iff m.id n.id).0 i in
    let text_same = (text_eq_iff m.message n.message).0 t in
    let role_same = role_eq-eq m.role n.role r in
    let time_same = (==_iff m.time n.time).0 w in
    λ k. record { id = id_same k; message = text_same k; role = role_same k; time = time_same k }

set-append :
    (pre : List ConversationMessage) (o n : ConversationMessage) (rest : List ConversationMessage)
    → set (pre ++ o ∷ rest) (length pre) n ≡ (pre ++ n ∷ []) ++ rest
set-append [] o n rest = refl
set-append (p ∷ pre) o n rest = ap (λ t. p ∷ t) (set-append pre o n rest)

-- An update of the message at the end of `pre`, whether the client has one there or not.
apply-replace :
    (pre : List ConversationMessage) (o n : ConversationMessage) (rest : List ConversationMessage)
    → n.id ≡ length pre
    → apply_event (pre ++ o ∷ rest) (update_of n) ≡ (pre ++ n ∷ []) ++ rest
unfolding apply_event
apply-replace pre o n rest e =
    let inside : ltb n.id (length (pre ++ o ∷ rest)) ≡ true =
      lt→ltb n.id (length (pre ++ o ∷ rest)) (omega (arith, length-append pre (o ∷ rest))) in
    let placed : set (pre ++ o ∷ rest) n.id n ≡ (pre ++ n ∷ []) ++ rest =
      ap (λ i. set (pre ++ o ∷ rest) i n) e ∙ set-append pre o n rest in
    rw inside placed

apply-add :
    (pre : List ConversationMessage) (n : ConversationMessage)
    → n.id ≡ length pre
    → apply_event pre (update_of n) ≡ pre ++ n ∷ []
unfolding apply_event
apply-add pre n e = rw (ltb-false n.id (length pre) (omega (arith, e)))

next_counted :
    (pre : List ConversationMessage) (n : ConversationMessage)
    → length (pre ++ n ∷ []) ≡ suc (length pre)
next_counted pre n = omega (arith, length-append pre (n ∷ []))

renumber :
    (pre : List ConversationMessage) (n : ConversationMessage) (new : List ConversationMessage)
    → AreNumbered (suc (length pre)) new
    → AreNumbered (length (pre ++ n ∷ [])) new
renumber pre n new a = subst (λ k. AreNumbered k new) (sym (next_counted pre n)) a

apply_changed :
    (pre old new : List ConversationMessage)
    → AreNumbered (length pre) new
    → AreNonzero new
    → length old ≤ length new
    → apply_events (pre ++ old) (changed_messages old new) ≡ pre ++ new
unfolding apply_events changed_messages
apply_changed pre [] [] a z h = refl
apply_changed pre (o ∷ old) [] a z h = absurd (omega arith)
apply_changed pre [] (n ∷ new) a z h = elim (Bool-cases (message_eq zero_message n)) [
  | inl e ↦ absurd (z.0 (sym (message_eq-eq zero_message n e)))
  | inr e ↦
      rw (e, append-nil)
        (ap (λ view. apply_events view (changed_messages [] new))
            (apply-add pre n a.0 ∙ sym (append-nil (pre ++ n ∷ [])))
          ∙ (apply_changed (pre ++ n ∷ []) [] new (renumber pre n new a.1) z.1 (omega arith)
              ∙ append_assoc pre (n ∷ []) new))
]
apply_changed pre (o ∷ old) (n ∷ new) a z h = elim (Bool-cases (message_eq o n)) [
  | inl e ↦
      let same = message_eq-eq o n e in
      rw e (
        ap (λ view. apply_events view (changed_messages old new))
          (ap (λ m. pre ++ m ∷ old) same ∙ sym (append_assoc pre (n ∷ []) old))
        ∙ (apply_changed (pre ++ n ∷ []) old new (renumber pre n new a.1) z.1 (omega arith)
            ∙ append_assoc pre (n ∷ []) new))
  | inr e ↦ rw e (
      ap (λ view. apply_events view (changed_messages old new)) (apply-replace pre o n old a.0)
      ∙ (apply_changed (pre ++ n ∷ []) old new (renumber pre n new a.1) z.1 (omega arith)
          ∙ append_assoc pre (n ∷ []) new))
]

-- The ids of the messages that the emitter holds are their places.
apply_updates :
    (pre ms : List ConversationMessage)
    → AreNumbered (length pre) ms
    → apply_events pre (map update_of ms) ≡ pre ++ ms
unfolding apply_events
apply_updates pre [] a = sym (append-nil pre)
apply_updates pre (m ∷ ms) a =
    ap (λ view. apply_events view (map update_of ms)) (apply-add pre m a.0)
    ∙ apply_updates (pre ++ m ∷ []) ms (renumber pre m ms a.1)
    ∙ append_assoc pre (m ∷ []) ms

apply_events-append :
    (view : List ConversationMessage) (events later : List Event)
    → apply_events view (events ++ later) ≡ apply_events (apply_events view events) later
unfolding apply_events
apply_events-append view [] later = refl
apply_events-append view (event ∷ events) later =
    apply_events-append (apply_event view event) events later

apply-errors :
    (view : List ConversationMessage) (errors : List ErrorBody) (later : List Event)
    → apply_events view (map agent_error errors ++ later) ≡ apply_events view later
unfolding apply_events apply_event
apply-errors view [] later = refl
apply-errors view (x ∷ errors) later = apply-errors view errors later

apply-timeline :
    (view : List ConversationMessage) (events : List TimelineEventBody)
    → apply_events view (map timeline_event events) ≡ view
unfolding apply_events apply_event
apply-timeline view [] = refl
apply-timeline view (x ∷ events) = apply-timeline view events

-- The replay of a subscription rebuilds the messages that the emitter holds.
replay_lem :
    (e : EventEmitter)
    → AreNumbered 0 e.messages
    → apply_events [] (current_state_as_events e) ≡ e.messages
unfolding current_state_as_events apply_events apply_event
replay_lem e a =
    let rest =
      status_change (record { status = e.status; agent_type = e.agent_type })
      ∷ screen_update (trim_right is_white_space e.screen)
      ∷ (map agent_error e.errors ++ map timeline_event (keep_last 500 e.timeline)) in
    apply_events-append [] (map update_of e.messages) rest
    ∙ apply-errors (apply_events [] (map update_of e.messages)) e.errors
        (map timeline_event (keep_last 500 e.timeline))
    ∙ apply-timeline (apply_events [] (map update_of e.messages)) (keep_last 500 e.timeline)
    ∙ apply_updates [] e.messages a

-- A client that subscribed finds in its channel, after messages are emitted, updates that turn the replay
-- into the new messages, if the ids are the places of the messages, no message is dropped, and the updates
-- fit in the channel.
pub subscriber_lem :
    (e : EventEmitter) (new : List ConversationMessage)
    → AreKeyed e
    → AreNumbered 0 e.messages
    → AreNumbered 0 new
    → AreNonzero new
    → length e.messages ≤ length new
    → length (changed_messages e.messages new) ≤ e.subscription_buf_size
    → (updates : List Event) × (buffered_of
          (emit_messages (subscribe e).1 new).chans
          (subscribe e).0
        ≡ some updates)
      × (apply_events (apply_events [] (subscribe e).2) updates ≡ new)
unfolding subscribe emit_messages
subscriber_lem e new keyed a a' z more fits = (
  changed_messages e.messages new,
  (subscribe_lem e (changed_messages e.messages new) keyed).0 fits,
  ap (λ view. apply_events view (changed_messages e.messages new)) (replay_lem e a)
      ∙ apply_changed [] e.messages new a' z more,
)
