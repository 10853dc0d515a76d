-- ===== src/Conversation/Send/Writing.antt =====
-- lib/screentracker/pty_conversation.go: a message while it is written, and the snapshots that the
-- loop takes during `writeStabilize`.
use agentapi_plusplus.Conversation.Messages.{
  ConversationMessage, MessagePartText, user, build_string_from_message_parts,
}
use agentapi_plusplus.Conversation.Messages.Lists.{
  AreNumbered-front, AreNumbered, user_messages, AreNumbered-concat, user_messages-append,
}
use agentapi_plusplus.Conversation.Send.{begin_message, fail_message, finish_message}
use agentapi_plusplus.Conversation.Snapshots.{update_last_agent_message, snapshot}
use agentapi_plusplus.Conversation.Snapshots.Laws.{update-user_messages}
use agentapi_plusplus.Conversation.State.{PtyConversationConfig, PtyConversation, ScreenSnapshot}
use agentapi_plusplus.Prelude.{
  ◌↔◌, ℕ, ◌≡◌, refl, sym, ap, ◌∙◌, true, false, arith, List, [], ◌∷◌, ◌++◌, Option, some, ◌>>=◌,
  >>=-eq-some, length, Text,
}
use agentapi_plusplus.RingBuffer.{add}

-- The snapshots of the screens that the loop reads, one after the other.
unfoldable pub snapshot_all :
    PtyConversationConfig → PtyConversation → List ScreenSnapshot → Option PtyConversation
snapshot_all cfg c [] = some c
snapshot_all cfg c (s ∷ shots) = do
  c' ← snapshot cfg c s.screen s.timestamp
  snapshot_all cfg c' shots

snapshot-writing :
    (cfg : PtyConversationConfig) (c : PtyConversation) (screen : Text) (now : ℕ)
    {c' : PtyConversation}
    → c.writing_message ≡ true
    → snapshot cfg c screen now ≡ some c'
    → (c'.messages ≡ c.messages) × (c'.writing_message ≡ true) × (c'.dirty ≡ c.dirty)
unfolding snapshot update_last_agent_message
snapshot-writing cfg c screen now {c'} w h =
    let (b, e, rest) =
      >>=-eq-some (add c.snapshot_buffer (record { timestamp = now; screen = screen }))
        (λ buffer. update_last_agent_message cfg (record c { snapshot_buffer = buffer }) screen now)
        h in
    let same : record c { snapshot_buffer = b } ≡ c' = cc (rw w at rest) in
    (
      ap (λ x. x.messages) (sym same),
      ap (λ x. x.writing_message) (sym same) ∙ w,
      ap (λ x. x.dirty) (sym same),
    )

snapshot_all-writing :
    (cfg : PtyConversationConfig) (c : PtyConversation) (shots : List ScreenSnapshot)
    {c' : PtyConversation}
    → c.writing_message ≡ true
    → snapshot_all cfg c shots ≡ some c'
    → (c'.messages ≡ c.messages) × (c'.writing_message ≡ true) × (c'.dirty ≡ c.dirty)
unfolding snapshot_all
snapshot_all-writing cfg c [] {c'} w h =
    let same : c ≡ c' = cc h in
    (
      ap (λ x. x.messages) (sym same),
      ap (λ x. x.writing_message) (sym same) ∙ w,
      ap (λ x. x.dirty) (sym same),
    )
snapshot_all-writing cfg c (s ∷ shots) w h =
    let (c₁, e, rest) =
      >>=-eq-some (snapshot cfg c s.screen s.timestamp) (λ x. snapshot_all cfg x shots) h in
    let (m₁, w₁, d₁) = snapshot-writing cfg c s.screen s.timestamp w e in
    let (m₂, w₂, d₂) = snapshot_all-writing cfg c₁ shots w₁ rest in (m₂ ∙ m₁, w₂, d₂ ∙ d₁)

module _ (cfg : PtyConversationConfig) (c : PtyConversation) (parts : List MessagePartText)
    (screen : Text) (now : ℕ) (shots : List ScreenSnapshot) {begun c' : PtyConversation}
    (begins : begin_message cfg c screen now ≡ some begun)
    (meanwhile : snapshot_all cfg begun shots ≡ some c') where
  abbrev sent : ConversationMessage
  sent = record {
    id = length begun.messages;
    message = build_string_from_message_parts parts;
    role = user;
    time = now;
  }

  unchanged : c'.messages ≡ begun.messages
  unfolding begin_message
  unchanged =
      let (u, e, made) =
        >>=-eq-some (update_last_agent_message cfg c screen now)
          (λ x. some (record x { writing_message = true })) begins in
      let same : record u { writing_message = true } ≡ begun = cc made in
      (snapshot_all-writing cfg begun shots (ap (λ x. x.writing_message) (sym same)) meanwhile).0

  before_write : user_messages begun.messages ≡ user_messages c.messages
  unfolding begin_message
  before_write =
      let (u, e, made) =
        >>=-eq-some (update_last_agent_message cfg c screen now)
          (λ x. some (record x { writing_message = true })) begins in
      let same : u.messages ≡ begun.messages = cc made in
      ap user_messages (sym same) ∙ update-user_messages cfg c screen now e

  -- Whatever screens the loop reads while a message is written, the message of the user comes directly
  -- after the messages from before the write, with the index as its id, and the messages of the user are
  -- the former ones and the new one. Every id is the index of its message exactly if it was so before the
  -- write.
  pub finish_message_lem :
      ((finish_message c' parts screen now).messages ≡ begun.messages ++ sent ∷ [])
      × (user_messages (finish_message c' parts screen now).messages
          ≡ user_messages c.messages ++ sent ∷ [])
      × (AreNumbered 0 begun.messages ↔ AreNumbered 0 (finish_message c' parts screen now).messages)
  unfolding finish_message
  finish_message_lem = (
    rw unchanged,
    rw unchanged
        (user_messages-append begun.messages (sent ∷ []) ∙ ap (λ ms. ms ++ sent ∷ []) before_write),
    rw unchanged (
      λ a. AreNumbered-concat 0 begun.messages sent a (omega arith),
      AreNumbered-front 0 begun.messages (sent ∷ []),
    ),
  )

  -- After a write that failed, the messages are those from before the write, and the next snapshot can
  -- update the last message of the agent again.
  fail_message_lem :
      ((fail_message c').messages ≡ begun.messages) × ((fail_message c').writing_message ≡ false)
  unfolding fail_message
  fail_message_lem = (unchanged, refl)
