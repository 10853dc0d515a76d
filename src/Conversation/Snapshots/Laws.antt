-- ===== src/Conversation/Snapshots/Laws.antt =====
-- lib/screentracker/pty_conversation.go: `updateLastAgentMessageLocked` and the messages.
use agentapi_plusplus.Conversation.Messages.Lists.{AreNumbered, user_messages}
use agentapi_plusplus.Conversation.Messages.{
  last_has_role, is_user, last_text, is_agent, last_message, text_of,
}
use agentapi_plusplus.Conversation.Snapshots.Effects.{
  put_agent_message-AreNumbered, put_agent_message-user, put_agent_message-last, store_cases,
  SameBut, store-SameBut, shown, update_cases,
}
use agentapi_plusplus.Conversation.Snapshots.{
  format_with, has_loaded, screen_message, format_tools_with, Bool, store_agent_message,
  update_last_agent_message,
}
use agentapi_plusplus.Conversation.State.{PtyConversationConfig, PtyConversation}
use agentapi_plusplus.Prelude.{
  Bool, not, ◌&&◌, Bool-cases, Bool-cases, ℕ, ◌≡◌, refl, sym, ap, ◌∙◌, subst, ◌⊎◌, inl, inr, true,
  false, List, some, Text,
}
use agentapi_plusplus.ScreenDiff.{screen_diff}

same-SameBut : {c c' : PtyConversation} → c ≡ c' → SameBut c c'
same-SameBut {c} e = subst (SameBut c) e (record {
  threshold = refl;
  buffer = refl;
  screen_before = refl;
  queue = refl;
  sending = refl;
  writing = refl;
  signal = refl;
  user_sent = refl;
  load_status = refl;
  ready = refl;
  sent = refl;
  prompt = refl;
})

store-AreNumbered :
    (c : PtyConversation) (message : Text) (calls : List Text) (time : ℕ)
    → AreNumbered 0 c.messages
    → AreNumbered 0 (store_agent_message c message calls time).messages
store-AreNumbered c message calls time a = elim (store_cases c message calls time) [
  | inl (e, m, d) ↦ subst (AreNumbered 0) (sym m) a
  | inr (e, m, d) ↦
      subst (AreNumbered 0) (sym m) (put_agent_message-AreNumbered c.messages message time a)
]

store-user_messages :
    (c : PtyConversation) (message : Text) (calls : List Text) (time : ℕ)
    → user_messages (store_agent_message c message calls time).messages ≡ user_messages c.messages
store-user_messages c message calls time = elim (store_cases c message calls time) [
  | inl (e, m, d) ↦ ap user_messages m
  | inr (e, m, d) ↦ ap user_messages m ∙ put_agent_message-user c.messages message time
]

store-shows :
    (c : PtyConversation) (message : Text) (calls : List Text) (time : ℕ)
    → text_of (last_message is_agent (store_agent_message c message calls time).messages) ≡ message
store-shows c message calls time = elim (store_cases c message calls time) [
  | inl (e, m, d) ↦ ap (λ ms. text_of (last_message is_agent ms)) m ∙ e
  | inr (e, m, d) ↦
      ap (λ ms. text_of (last_message is_agent ms)) m
      ∙ put_agent_message-last c.messages message time
]

-- Nothing was sent since messages were loaded, and the last of them is the agent's.
abbrev pub is_restored : PtyConversation → Bool
is_restored c =
    has_loaded c.load_state_status
    && not c.user_sent_message_after_load_state
    && last_has_role is_agent c.messages

abbrev pub without_tools : PtyConversationConfig → Text → Text
without_tools cfg message = (format_tools_with cfg.format_tool_call message).0

-- What an update makes of a conversation, for a screen.
abbrev pub IsShown : PtyConversationConfig → PtyConversation → Text → PtyConversation → Type 0
IsShown cfg c screen c' =
    ((c.writing_message ≡ true) × (c' ≡ c))
    ⊎ ((c.writing_message ≡ false)
        × ((diff : Text) × (screen_diff c.screen_before_last_user_message screen cfg.agent_type
              ≡ some diff)
            × (((is_restored c ≡ true)
                  × (text_of (last_message is_agent c'.messages)
                      ≡ without_tools cfg (last_text c.messages)))
                ⊎ ((is_restored c ≡ false)
                    × (text_of (last_message is_agent c'.messages)
                        ≡ without_tools cfg (
                            format_with cfg.format_message diff
                              (text_of (last_message is_user c.messages))))))))

module _ (cfg : PtyConversationConfig) (c : PtyConversation) (screen : Text) (time : ℕ)
    {c' : PtyConversation} (updated : update_last_agent_message cfg c screen time ≡ some c') where
  -- An update keeps every id equal to the index of its message.
  pub update-AreNumbered : AreNumbered 0 c.messages → AreNumbered 0 c'.messages
  update-AreNumbered a = elim (update_cases cfg c screen time updated) [
    | inl (w, e) ↦ subst (λ x. AreNumbered 0 x.messages) e a
    | inr (w, (diff, d, e)) ↦
        subst (λ x. AreNumbered 0 x.messages) e
          (store-AreNumbered c (shown cfg c screen time diff).0 (shown cfg c screen time diff).1
            time a)
  ]

  -- An update never adds, drops or changes a message of the user.
  pub update-user_messages : user_messages c'.messages ≡ user_messages c.messages
  update-user_messages = elim (update_cases cfg c screen time updated) [
    | inl (w, e) ↦ ap (λ x. user_messages x.messages) (sym e)
    | inr (w, (diff, d, e)) ↦
        ap (λ x. user_messages x.messages) (sym e)
        ∙ store-user_messages c (shown cfg c screen time diff).0 (shown cfg c screen time diff).1
            time
  ]

  -- While a message is being written an update changes nothing. Otherwise the last message of the agent
  -- becomes a text without its tool calls. As long as the user has sent nothing since messages were loaded,
  -- and the last of them is the agent's, it is the text of that last message; else it is the formatted new
  -- part of the screen.
  pub update_shows : IsShown cfg c screen c'
  unfolding screen_message
  update_shows = elim (update_cases cfg c screen time updated) [
    | inl (w, e) ↦ inl (w, sym e)
    | inr (w, (diff, d, e)) ↦
        let said : text_of (last_message is_agent c'.messages) ≡ (shown cfg c screen time diff).0 =
          ap (λ x. text_of (last_message is_agent x.messages)) (sym e)
          ∙ store-shows c (shown cfg c screen time diff).0 (shown cfg c screen time diff).1 time in
        inr (
          w,
          (
            diff,
            d,
            elim (Bool-cases (is_restored c)) [
              | inl r ↦ inl (r, rw r at said)
              | inr r ↦ inr (r, rw r at said)
            ],
          ),
        )
  ]

  pub update-SameBut : SameBut c c'
  update-SameBut = elim (update_cases cfg c screen time updated) [
    | inl (w, e) ↦ same-SameBut e
    | inr (w, (diff, d, e)) ↦
        subst (SameBut c) e
          (store-SameBut c (shown cfg c screen time diff).0 (shown cfg c screen time diff).1 time)
  ]

  -- If the agent shows again what its last message says, the update adds no message, even where the last
  -- message is the user's: the agent's answer is not recorded.
  pub update_repeated :
      (diff : Text)
      → screen_diff c.screen_before_last_user_message screen cfg.agent_type ≡ some diff
      → text_of (last_message is_agent c.messages) ≡ (shown cfg c screen time diff).0
      → c'.messages ≡ c.messages
  update_repeated diff d same = elim (update_cases cfg c screen time updated) [
    | inl (w, e) ↦ ap (λ x. x.messages) (sym e)
    | inr (w, (diff', d', e)) ↦
        let same_diff : diff ≡ diff' = cc (d, d') in
        ap (λ x. x.messages) (sym e)
        ∙ elim (store_cases c (shown cfg c screen time diff').0 (shown cfg c screen time diff').1
            time) [
              | inl (s, m, k) ↦ m
              | inr (differs, m, k) ↦
                  absurd (differs (same ∙ ap (λ x. (shown cfg c screen time x).0) same_diff))
            ]
  ]
