-- ===== src/Conversation/Loop/Prompt.antt =====
-- lib/screentracker/pty_conversation.go: the initial prompt and the signal of a tick.
use agentapi_plusplus.Conversation.Loop.Orderly.{IsLoaded, IsOrderly, IsFit, IsAhead, moved-IsValid}
use agentapi_plusplus.Conversation.Loop.{prompt_step, signal_step}
use agentapi_plusplus.Conversation.Send.{enqueue}
use agentapi_plusplus.Conversation.State.{PtyConversationConfig, PtyConversation, OutboundMessage}
use agentapi_plusplus.Conversation.Status.Stable.{IsValid, settled, is_screen_stable_total}
use agentapi_plusplus.Prelude.{
  ◌≡◌, refl, ◌⊎◌, inl, inr, Bool, true, false, not, ◌&&◌, [], ◌∷◌, ◌++◌, some, arith, ltb, lt→ltb,
  Bool-cases, clash, length, length-append, is_nil,
}

-- The signal touches two flags alone.
signal_step-cases :
    (c : PtyConversation)
    → IsValid c
    → (signal_step c ≡ some c)
      ⊎ (signal_step c ≡ some (record c { stable_signal = true; sending_message = true }))
unfolding signal_step
signal_step-cases c v =
    elim (Bool-cases (c.initial_prompt_ready && ltb 0 (length c.outbound_queue))) [
      | inr e ↦ inl (rw e refl)
      | inl e ↦
          let looked = is_screen_stable_total c v in
          elim (Bool-cases (settled c v.snapshots && not c.stable_signal)) [
            | inl s ↦ inr (rw (e, looked, s) refl)
            | inr s ↦ inl (rw (e, looked, s) refl)
          ]
    ]

pub signal_step_total :
    (cfg : PtyConversationConfig) (c : PtyConversation)
    → IsValid c
    → IsOrderly cfg c
    → (c' : PtyConversation) × (signal_step c ≡ some c')
      × IsValid c'
      × IsOrderly cfg c'
      × IsAhead c c'
signal_step_total cfg c v o = elim (signal_step-cases c v) [
  | inl e ↦ (c, e, v, o, record { writing = refl; ready = λ n. n })
  | inr e ↦ (
    record c { stable_signal = true; sending_message = true },
    e,
    moved-IsValid refl refl v,
    record { quiet = o.quiet; prompted = o.prompted; tried = o.tried; room = o.room },
    record { writing = refl; ready = λ n. n },
  )
]

abbrev prompt_test : PtyConversation → Bool
prompt_test c = c.initial_prompt_ready && not (is_nil c.initial_prompt) && not c.initial_prompt_sent

prompt_unless : (r n s : Bool) → r ≡ true → (r && not n && not s) ≡ false → (n ≡ true) ⊎ (s ≡ true)
prompt_unless false n s h e = cc
prompt_unless true true s h e = inl refl
prompt_unless true false true h e = inr refl
prompt_unless true false false h e = cc

prompt_test_only :
    (r n s : Bool) → (r && not n && not s) ≡ true → (r ≡ true) × (n ≡ false) × (s ≡ false)
prompt_test_only false n s e = cc
prompt_test_only true true s e = cc
prompt_test_only true false true e = cc
prompt_test_only true false false e = (refl, refl, refl)

-- Where the prompt is to be queued, nothing is.
none_queued :
    (cfg : PtyConversationConfig) (c : PtyConversation)
    → IsFit cfg c
    → prompt_test c ≡ true
    → length c.outbound_queue ≡ 0
none_queued cfg c f e =
    let (ready, some_prompt, unsent) =
      prompt_test_only c.initial_prompt_ready (is_nil c.initial_prompt) c.initial_prompt_sent e in
    elim f.fresh [
      | inl q ↦ q
      | inr (p, l) ↦ elim p [
        | inl n ↦ absurd (clash n some_prompt)
        | inr s ↦ absurd (clash s unsent)
      ]
    ]

pub prompt_step_total :
    (cfg : PtyConversationConfig) (c : PtyConversation)
    → IsValid c
    → IsFit cfg c
    → (c.initial_prompt_ready ≡ true → IsLoaded cfg c)
    → (c' : PtyConversation) × (prompt_step c ≡ some c')
      × IsValid c'
      × IsOrderly cfg c'
      × IsAhead c c'
unfolding prompt_step enqueue
prompt_step_total cfg c v f tried = elim (Bool-cases (prompt_test c)) [
  | inr e ↦ (
    c,
    rw e refl,
    v,
    record {
      quiet = f.quiet;
      prompted = λ r.
          prompt_unless c.initial_prompt_ready (is_nil c.initial_prompt) c.initial_prompt_sent r e;
      tried = tried;
      room = f.room;
    },
    record { writing = refl; ready = λ n. n },
  )
  | inl e ↦
      let empty = none_queued cfg c f e in
      let space = lt→ltb (length c.outbound_queue) 1 (omega (arith, empty)) in
      let message : OutboundMessage = record { parts = c.initial_prompt; has_caller = false } in
      let (ready, some_prompt, unsent) =
        prompt_test_only c.initial_prompt_ready (is_nil c.initial_prompt) c.initial_prompt_sent e in
      (
        record c {
          outbound_queue = c.outbound_queue ++ message ∷ [];
          initial_prompt_sent = true;
          dirty = true;
        },
        rw (e, space) refl,
        moved-IsValid refl refl v,
        record {
          quiet = λ n. absurd (clash ready n);
          prompted = λ r. inr refl;
          tried = tried;
          room = omega (arith, length-append c.outbound_queue (message ∷ []), empty);
        },
        record { writing = refl; ready = λ n. n },
      )
]
