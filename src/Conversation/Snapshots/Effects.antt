-- ===== src/Conversation/Snapshots/Effects.antt =====
-- lib/screentracker/pty_conversation.go: the fields that a snapshot changes.
use agentapi_plusplus.Conversation.Messages.Lists.{
  AreNumbered, AreNumbered-concat, AreNumbered-replace_last, user_messages, user_messages-append,
  user_messages-replace_last, last_message-concat, last_message-replace_last,
}
use agentapi_plusplus.Conversation.Messages.{
  ConversationMessage, is_user, is_agent, last_has_role, last_message, text_of,
}
use agentapi_plusplus.Conversation.Snapshots.{
  should_create_new_message, put_agent_message, store_agent_message, update_last_agent_message,
  screen_message, format_tools_with,
}
use agentapi_plusplus.Conversation.State.{PtyConversationConfig, PtyConversation}
use agentapi_plusplus.Prelude.{
  ℕ, ◌<◌, ◌≡◌, ◌≢◌, refl, ap, ◌∙◌, ◌⊎◌, inl, inr, true, false, List, [], ◌∷◌, some, arith,
  Bool-cases, Option-cases, append-nil, length, Text, text_eq, text_eq_iff, clash,
}
use agentapi_plusplus.ScreenDiff.{screen_diff}

should_create_false :
    (ms : List ConversationMessage)
    → should_create_new_message ms ≡ false
    → (0 < length ms) × (last_has_role is_user ms ≡ false) × (ms ≢ [])
unfolding should_create_new_message
should_create_false [] e = cc
should_create_false (m ∷ ms) e = (omega arith, e, λ h. cc)

pub put_agent_message-AreNumbered :
    (ms : List ConversationMessage) (message : Text) (time : ℕ)
    → AreNumbered 0 ms
    → AreNumbered 0 (put_agent_message ms message time)
unfolding put_agent_message
put_agent_message-AreNumbered ms message time a = elim (Bool-cases (should_create_new_message ms)) [
  | inl e ↦ rw e (AreNumbered-concat 0 ms _ a (omega arith))
  | inr e ↦
      let (pos, not_user, ne) = should_create_false ms e in
      rw e (AreNumbered-replace_last 0 ms _ a (omega arith))
]

pub put_agent_message-user :
    (ms : List ConversationMessage) (message : Text) (time : ℕ)
    → user_messages (put_agent_message ms message time) ≡ user_messages ms
unfolding put_agent_message
put_agent_message-user ms message time = elim (Bool-cases (should_create_new_message ms)) [
  | inl e ↦ rw e (user_messages-append ms _ ∙ append-nil (user_messages ms))
  | inr e ↦
      let (pos, not_user, ne) = should_create_false ms e in
      rw e (user_messages-replace_last ms _ refl not_user)
]

pub put_agent_message-last :
    (ms : List ConversationMessage) (message : Text) (time : ℕ)
    → text_of (last_message is_agent (put_agent_message ms message time)) ≡ message
unfolding put_agent_message
put_agent_message-last ms message time = elim (Bool-cases (should_create_new_message ms)) [
  | inl e ↦ rw e (ap text_of (last_message-concat is_agent ms _ refl))
  | inr e ↦
      let (pos, not_user, ne) = should_create_false ms e in
      rw e (ap text_of (last_message-replace_last is_agent ms _ ne refl))
]

-- What storing an agent message does: nothing to the messages if the text is that of the last agent
-- message, and otherwise the message is put and the state is dirty.
pub store_cases :
    (c : PtyConversation) (message : Text) (calls : List Text) (time : ℕ)
    → let c' = store_agent_message c message calls time in
      ((text_of (last_message is_agent c.messages) ≡ message)
        × (c'.messages ≡ c.messages)
        × (c'.dirty ≡ c.dirty))
      ⊎ ((text_of (last_message is_agent c.messages) ≢ message)
          × (c'.messages ≡ put_agent_message c.messages message time)
          × (c'.dirty ≡ true))
unfolding store_agent_message
store_cases c message calls time =
    elim (Bool-cases (text_eq (text_of (last_message is_agent c.messages)) message)) [
      | inl e ↦ inl (
        (text_eq_iff (text_of (last_message is_agent c.messages)) message).0 e,
        rw e refl,
        rw e refl,
      )
      | inr e ↦ inr (
        λ same. clash ((text_eq_iff (text_of (last_message is_agent c.messages)) message).1 same) e,
        rw e refl,
        rw e refl,
      )
    ]

-- The parts of the state that a snapshot never touches.
pub record SameBut (c c' : PtyConversation) : Type 0 where
  pub threshold : c'.stable_snapshots_threshold ≡ c.stable_snapshots_threshold
  pub buffer : c'.snapshot_buffer ≡ c.snapshot_buffer
  pub screen_before : c'.screen_before_last_user_message ≡ c.screen_before_last_user_message
  pub queue : c'.outbound_queue ≡ c.outbound_queue
  pub sending : c'.sending_message ≡ c.sending_message
  pub writing : c'.writing_message ≡ c.writing_message
  pub signal : c'.stable_signal ≡ c.stable_signal
  pub user_sent : c'.user_sent_message_after_load_state ≡ c.user_sent_message_after_load_state
  pub load_status : c'.load_state_status ≡ c.load_state_status
  pub ready : c'.initial_prompt_ready ≡ c.initial_prompt_ready
  pub sent : c'.initial_prompt_sent ≡ c.initial_prompt_sent
  pub prompt : c'.initial_prompt ≡ c.initial_prompt

pub store-SameBut :
    (c : PtyConversation) (message : Text) (calls : List Text) (time : ℕ)
    → SameBut c (store_agent_message c message calls time)
unfolding store_agent_message
store-SameBut c message calls time =
    elim (Bool-cases (text_eq (text_of (last_message is_agent c.messages)) message)) [
      | inl e ↦ rw e (record {
        threshold = refl;
        buffer = refl;
        screen_before = refl;
        queue = refl;
        sending = refl;
        writing = refl;
        signal = refl;
        user_sent = refl;
        load_status = refl;
        ready = refl;
        sent = refl;
        prompt = refl;
      })
      | inr e ↦ rw e (record {
        threshold = refl;
        buffer = refl;
        screen_before = refl;
        queue = refl;
        sending = refl;
        writing = refl;
        signal = refl;
        user_sent = refl;
        load_status = refl;
        ready = refl;
        sent = refl;
        prompt = refl;
      })
    ]

module _ (cfg : PtyConversationConfig) (c : PtyConversation) (screen : Text) (time : ℕ) where
  -- The text that the agent shows on the screen, with its tool calls.
  abbrev pub shown : Text → Text × List Text
  shown diff = format_tools_with cfg.format_tool_call (screen_message cfg c diff)

  pub update_cases :
      {c' : PtyConversation}
      → update_last_agent_message cfg c screen time ≡ some c'
      → ((c.writing_message ≡ true) × (c ≡ c'))
        ⊎ ((c.writing_message ≡ false)
            × ((diff : Text) × (screen_diff c.screen_before_last_user_message screen cfg.agent_type
                  ≡ some diff)
                × (store_agent_message c (shown diff).0 (shown diff).1 time ≡ c')))
  unfolding update_last_agent_message
  update_cases {c'} e = elim (Bool-cases c.writing_message) [
    | inl w ↦ inl (w, cc (rw w at e))
    | inr w ↦
        elim (Option-cases (screen_diff c.screen_before_last_user_message screen cfg.agent_type)) [
          | inl d ↦ cc (rw d at (rw w at e))
          | inr (diff, d) ↦ inr (w, (diff, d, cc (rw d at (rw w at e))))
        ]
  ]
