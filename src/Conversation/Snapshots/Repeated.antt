-- ===== src/Conversation/Snapshots/Repeated.antt =====
-- lib/screentracker/pty_conversation.go: an agent that shows again what it said before.
use agentapi_plusplus.Conversation.Messages.{
  ConversationRole, ConversationStatus, changing, user, agent, unnamed, ConversationMessage,
  is_user, is_agent, last_has_role, last_message, text_of,
}
use agentapi_plusplus.Conversation.Snapshots.{
  format_with, screen_message, snapshot, update_last_agent_message,
}
use agentapi_plusplus.Conversation.State.{PtyConversationConfig, PtyConversation, ScreenSnapshot}
use agentapi_plusplus.Conversation.Status.{status}
use agentapi_plusplus.Prelude.{
  ◌≡◌, refl, sym, ap, ◌∙◌, subst, true, false, List, [], ◌∷◌, some, >>=-eq-some, Text, arith,
}
use agentapi_plusplus.RingBuffer.{add}
use agentapi_plusplus.ScreenDiff.{screen_diff}
use agentapi_plusplus.Conversation.Send.Writing.{snapshot_all}
use agentapi_plusplus.Conversation.Snapshots.Laws.{update_repeated, update-SameBut, without_tools}

-- The agent's new text on a screen is that of its last message.
abbrev pub Repeats : PtyConversationConfig → PtyConversation → ScreenSnapshot → Type 0
Repeats cfg c s =
    (diff : Text) × (screen_diff c.screen_before_last_user_message s.screen cfg.agent_type
      ≡ some diff)
    × (text_of (last_message is_agent c.messages)
        ≡ without_tools cfg
            (format_with cfg.format_message diff (text_of (last_message is_user c.messages))))

abbrev pub AllRepeat : PtyConversationConfig → PtyConversation → List ScreenSnapshot → Type 0
AllRepeat cfg c [] = Unit
AllRepeat cfg c (s ∷ shots) = Repeats cfg c s × AllRepeat cfg c shots

-- That depends on the messages and on one screen of a conversation only.
AllRepeat-same :
    (cfg : PtyConversationConfig) (c d : PtyConversation) (shots : List ScreenSnapshot)
    → d.messages ≡ c.messages
    → d.screen_before_last_user_message ≡ c.screen_before_last_user_message
    → AllRepeat cfg c shots
    → AllRepeat cfg d shots
AllRepeat-same cfg c d [] m b h = tt
AllRepeat-same cfg c d (s ∷ shots) m b ((diff, e, same), h) =
    ((diff, rw b e, rw m same), AllRepeat-same cfg c d shots m b h)

user-not-agent :
    (ms : List ConversationMessage)
    → last_has_role is_user ms ≡ true
    → last_has_role is_agent ms ≡ false
unfolding last_has_role
user-not-agent [] h = refl
user-not-agent (m ∷ []) h = one m.role h
  where
    one : (r : ConversationRole) → is_user r ≡ true → is_agent r ≡ false
    one user h = refl
    one agent h = cc
    one (unnamed n) h = refl
user-not-agent (m ∷ n ∷ ms) h = user-not-agent (n ∷ ms) h

snapshot_repeated :
    (cfg : PtyConversationConfig) (c : PtyConversation) (s : ScreenSnapshot) {c' : PtyConversation}
    → last_has_role is_user c.messages ≡ true
    → Repeats cfg c s
    → snapshot cfg c s.screen s.timestamp ≡ some c'
    → (c'.messages ≡ c.messages)
      × (c'.screen_before_last_user_message ≡ c.screen_before_last_user_message)
unfolding snapshot screen_message
snapshot_repeated cfg c s {c'} l (diff, d, same) h =
    let (b, e, rest) =
      >>=-eq-some (add c.snapshot_buffer (record { timestamp = s.timestamp; screen = s.screen }))
        (λ buffer.
          update_last_agent_message cfg (record c { snapshot_buffer = buffer }) s.screen
            s.timestamp)
        h in
    let held : PtyConversation = record c { snapshot_buffer = b } in
    (
      update_repeated cfg held s.screen s.timestamp rest diff d
          (same ∙ rw (user-not-agent c.messages l) (ground arith)),
      (update-SameBut cfg held s.screen s.timestamp rest).screen_before,
    )

status_asked :
    (c : PtyConversation) {s : ConversationStatus}
    → last_has_role is_user c.messages ≡ true
    → status c ≡ some s
    → s ≡ changing
unfolding status
status_asked c l h = ground arith

-- If the last message is the user's, and on every screen that is read from then on the agent shows the text
-- of its previous message, then no message is recorded however many screens are read, and the status, if
-- there is one, is still "changing" afterwards.
pub repeated_snapshots :
    (cfg : PtyConversationConfig) (c : PtyConversation) (shots : List ScreenSnapshot)
    {c' : PtyConversation} {s : ConversationStatus}
    → last_has_role is_user c.messages ≡ true
    → AllRepeat cfg c shots
    → snapshot_all cfg c shots ≡ some c'
    → status c' ≡ some s
    → (c'.messages ≡ c.messages) × (s ≡ changing)
unfolding snapshot_all
repeated_snapshots cfg c [] {c'} l h e p =
    let same : c ≡ c' = cc e in
    (
      ap (λ x. x.messages) (sym same),
      status_asked c' (subst (λ x. last_has_role is_user x.messages ≡ true) same l) p,
    )
repeated_snapshots cfg c (shot ∷ shots) l (h, hs) e p =
    let (d, e₁, rest) =
      >>=-eq-some (snapshot cfg c shot.screen shot.timestamp) (λ x. snapshot_all cfg x shots) e in
    let (m, b) = snapshot_repeated cfg c shot l h e₁ in
    let (ms, changes) =
      repeated_snapshots cfg d shots (ap (last_has_role is_user) m ∙ l)
        (AllRepeat-same cfg c d shots m b hs) rest p in
    (ms ∙ m, changes)
