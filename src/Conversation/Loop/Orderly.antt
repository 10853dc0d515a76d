-- ===== src/Conversation/Loop/Orderly.antt =====
-- lib/screentracker/pty_conversation.go: a conversation between two ticks of the snapshot loop, and within one.
use agentapi_plusplus.Conversation.Persistence.{is_pending}
use agentapi_plusplus.Conversation.State.{PtyConversationConfig, PtyConversation}
use agentapi_plusplus.Conversation.Status.Stable.{IsValid}
use agentapi_plusplus.Prelude.{
  ◌≤◌, ◌≡◌, sym, ap, ◌∙◌, subst, ◌⊎◌, inl, inr, true, false, arith, length, is_nil,
}
use agentapi_plusplus.RingBuffer.Cells.{Holds}

-- Whether the tick has nothing left to do about the initial prompt, or about the state.
abbrev pub IsPrompted : PtyConversation → Type 0
IsPrompted c = (is_nil c.initial_prompt ≡ true) ⊎ (c.initial_prompt_sent ≡ true)

abbrev pub IsLoaded : PtyConversationConfig → PtyConversation → Type 0
IsLoaded cfg c = (is_pending c.load_state_status ≡ false) ⊎ (cfg.persistence.load_state ≡ false)

-- Between two ticks: nothing is queued before the agent is ready; once it is ready the initial prompt was
-- queued, if there is one, and the load was tried, if it is wanted. At most one message is queued.
pub record IsOrderly (cfg : PtyConversationConfig) (c : PtyConversation) : Type 0 where
  pub quiet : c.initial_prompt_ready ≡ false → length c.outbound_queue ≡ 0
  pub prompted : c.initial_prompt_ready ≡ true → IsPrompted c
  pub tried : c.initial_prompt_ready ≡ true → IsLoaded cfg c
  pub room : length c.outbound_queue ≤ 1

-- Within a tick, after it has looked whether the agent is ready.
pub record IsFit (cfg : PtyConversationConfig) (c : PtyConversation) : Type 0 where
  pub quiet : c.initial_prompt_ready ≡ false → length c.outbound_queue ≡ 0
  pub fresh : (length c.outbound_queue ≡ 0) ⊎ (IsPrompted c × IsLoaded cfg c)
  pub room : length c.outbound_queue ≤ 1

pub same_fields-IsOrderly :
    {cfg : PtyConversationConfig} {c c' : PtyConversation}
    → c'.initial_prompt_ready ≡ c.initial_prompt_ready
    → c'.outbound_queue ≡ c.outbound_queue
    → c'.initial_prompt ≡ c.initial_prompt
    → c'.initial_prompt_sent ≡ c.initial_prompt_sent
    → c'.load_state_status ≡ c.load_state_status
    → IsOrderly cfg c
    → IsOrderly cfg c'
same_fields-IsOrderly {cfg} {c} {c'} ready q prompt sent load o =
    let queue : length c'.outbound_queue ≡ length c.outbound_queue = ap length q in
    record {
      quiet = λ n. queue ∙ o.quiet (sym ready ∙ n);
      prompted = λ n. elim (o.prompted (sym ready ∙ n)) [
        | inl nil ↦ inl (ap is_nil prompt ∙ nil)
        | inr done ↦ inr (sent ∙ done)
      ];
      tried = λ n. elim (o.tried (sym ready ∙ n)) [
        | inl t ↦ inl (ap is_pending load ∙ t)
        | inr w ↦ inr w
      ];
      room = omega (arith, queue, o.room);
    }

-- A tick writes no message, and an agent that is ready stays ready.
pub record IsAhead (c c' : PtyConversation) : Type 0 where
  pub writing : c'.writing_message ≡ c.writing_message
  pub ready : c.initial_prompt_ready ≡ true → c'.initial_prompt_ready ≡ true

pub moved-IsValid :
    {c c' : PtyConversation}
    → c'.snapshot_buffer ≡ c.snapshot_buffer
    → c'.stable_snapshots_threshold ≡ c.stable_snapshots_threshold
    → IsValid c
    → IsValid c'
moved-IsValid b t v = record {
  snapshots = v.snapshots;
  held = subst (λ x. Holds x v.snapshots) (sym b) v.held;
  sized = ap (λ x. x.size) b ∙ v.sized ∙ sym t;
}

pub ahead : {a b c : PtyConversation} → IsAhead a b → IsAhead b c → IsAhead a c
ahead m n = record { writing = n.writing ∙ m.writing; ready = λ r. n.ready (m.ready r) }
