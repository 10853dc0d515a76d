-- ===== src/Conversation/Loop/Progress.antt =====
-- lib/screentracker/pty_conversation.go: the whole tick of the snapshot loop.
use agentapi_plusplus.Conversation.Loop.Orderly.{
  IsOrderly, IsFit, IsAhead, same_fields-IsOrderly, moved-IsValid, ahead,
}
use agentapi_plusplus.Conversation.Loop.Prompt.{signal_step_total, prompt_step_total}
use agentapi_plusplus.Conversation.Loop.Keeps.{load_test, load_step-cases}
use agentapi_plusplus.Conversation.Loop.{
  ready_step, is_ready, Reading, Tick, prompt_step, signal_step, load_step, tick,
}
use agentapi_plusplus.Conversation.Persistence.{AgentState, is_pending}
use agentapi_plusplus.Conversation.Snapshots.{snapshot, update_last_agent_message}
use agentapi_plusplus.Conversation.Snapshots.Laws.{update-SameBut}
use agentapi_plusplus.Conversation.State.{PtyConversationConfig, PtyConversation}
use agentapi_plusplus.Conversation.Status.{status_of}
use agentapi_plusplus.Conversation.Status.Stable.{IsValid, settled, status_total}
use agentapi_plusplus.Conversation.Status.Buffer.{snapshot-IsValid}
use agentapi_plusplus.Prelude.{
  ◌≡◌, refl, sym, ap, ◌∙◌, subst, ◌⊎◌, inl, inr, Bool, true, false, not, ◌&&◌, Option, some, arith,
  >>=-eq-some, Bool-cases, clash, and_true, length, Text,
}
use agentapi_plusplus.RingBuffer.{add}

load_test_false : (r p l : Bool) → r ≡ true → (r && p && l) ≡ false → (p ≡ false) ⊎ (l ≡ false)
load_test_false false p l h e = cc
load_test_false true false l h e = inl refl
load_test_false true true false h e = inr refl
load_test_false true true true h e = cc

load_test_only : (r p l : Bool) → (r && p && l) ≡ true → (p ≡ true) × (l ≡ true)
load_test_only false p l e = cc
load_test_only true false l e = cc
load_test_only true true false e = cc
load_test_only true true true e = (refl, refl)

module _ (decode : Text → Option AgentState) (cfg : PtyConversationConfig) where
  -- A load is tried only where nothing is queued.
  none_queued_yet :
      (c : PtyConversation)
      → IsFit cfg c
      → load_test decode cfg c ≡ true
      → length c.outbound_queue ≡ 0
  none_queued_yet c f e =
      let (is_left, wanted) =
        load_test_only c.initial_prompt_ready (is_pending c.load_state_status)
          cfg.persistence.load_state e in
      elim f.fresh [
        | inl q ↦ q
        | inr (p, l) ↦ elim l [ inl t ↦ absurd (clash is_left t) | inr w ↦ absurd (clash wanted w) ]
      ]

  rest_total :
      (c : PtyConversation) (r : Reading)
      → IsValid c
      → IsFit cfg c
      → (p : PtyConversation) × (s : PtyConversation) × (prompt_step (load_step decode cfg c r).0
          ≡ some p)
        × (signal_step p ≡ some s)
        × IsValid s
        × IsOrderly cfg s
        × IsAhead c s
  rest_total c r v f =
      let (p, e, v', o, m) = prompted in
      let (s, e', v'', o', m') = signal_step_total cfg p v' o in (p, s, e, e', v'', o', ahead m m')
    where
      prompted :
          (p : PtyConversation) × (prompt_step (load_step decode cfg c r).0 ≡ some p)
          × IsValid p
          × IsOrderly cfg p
          × IsAhead c p
      prompted = elim (load_step-cases decode cfg c r) [
        | inl (e, t) ↦
            let empty = none_queued_yet c f e in
            let queue : length (load_step decode cfg c r).0.outbound_queue ≡ 0 =
              ap length t.kept.queue ∙ empty in
            let (p, e', v', o, m) =
              prompt_step_total cfg (load_step decode cfg c r).0
                (moved-IsValid t.kept.buffer t.kept.threshold v)
                (record { quiet = λ n. queue; fresh = inl queue; room = omega (arith, queue) })
                (λ n. inl t.tried) in
            (
              p,
              e',
              v',
              o,
              ahead (record { writing = t.kept.writing; ready = λ n. t.kept.ready ∙ n }) m,
            )
        | inr (e, same) ↦
            subst
              (λ x.
                (p : PtyConversation) × (prompt_step x ≡ some p)
                × IsValid p
                × IsOrderly cfg p
                × IsAhead c p)
              (sym same)
              (prompt_step_total cfg c v f (λ n.
                load_test_false c.initial_prompt_ready (is_pending c.load_state_status)
                  cfg.persistence.load_state n e))
      ]

  -- The snapshot touches the buffer, the messages, and what goes with them alone.
  snapshot-IsOrderly :
      (c : PtyConversation) (r : Reading) {snapped : PtyConversation}
      → snapshot cfg c r.screen r.now ≡ some snapped
      → IsOrderly cfg c
      → IsOrderly cfg snapped
  unfolding snapshot
  snapshot-IsOrderly c r {snapped} e o =
      let (b, added, rest) =
        >>=-eq-some (add c.snapshot_buffer (record { timestamp = r.now; screen = r.screen }))
          (λ buffer.
            update_last_agent_message cfg (record c { snapshot_buffer = buffer }) r.screen r.now)
          e in
      let same = update-SameBut cfg (record c { snapshot_buffer = b }) r.screen r.now rest in
      same_fields-IsOrderly same.ready same.queue same.prompt same.sent same.load_status o

  ready_step-IsFit :
      (c : PtyConversation) (screen : Text) → IsOrderly cfg c → IsFit cfg (ready_step cfg c screen)
  unfolding ready_step
  ready_step-IsFit c screen o =
      elim (Bool-cases
        (not c.initial_prompt_ready && is_ready cfg.ready_for_initial_prompt screen)) [
          | inl e ↦
              let unready : c.initial_prompt_ready ≡ false = ground (
                arith,
                and_true (not c.initial_prompt_ready) (is_ready cfg.ready_for_initial_prompt screen)
                    e,
              ) in
              rw e (record { quiet = λ n. cc; fresh = inl (o.quiet unready); room = o.room })
          | inr e ↦ rw e (record {
            quiet = o.quiet;
            fresh = elim (Bool-cases c.initial_prompt_ready) [
              | inl ready ↦ inr (o.prompted ready, o.tried ready)
              | inr unready ↦ inl (o.quiet unready)
            ];
            room = o.room;
          })
        ]

  ready_step-IsAhead : (c : PtyConversation) (screen : Text) → IsAhead c (ready_step cfg c screen)
  unfolding ready_step
  ready_step-IsAhead c screen =
      elim (Bool-cases
        (not c.initial_prompt_ready && is_ready cfg.ready_for_initial_prompt screen)) [
          | inl e ↦ rw e (record { writing = refl; ready = λ n. refl })
          | inr e ↦ rw e (record { writing = refl; ready = λ n. n })
        ]

  snapshot-IsAhead :
      (c : PtyConversation) (r : Reading) {snapped : PtyConversation}
      → snapshot cfg c r.screen r.now ≡ some snapped
      → IsAhead c snapped
  unfolding snapshot
  snapshot-IsAhead c r {snapped} e =
      let (b, added, rest) =
        >>=-eq-some (add c.snapshot_buffer (record { timestamp = r.now; screen = r.screen }))
          (λ buffer.
            update_last_agent_message cfg (record c { snapshot_buffer = buffer }) r.screen r.now)
          e in
      let same = update-SameBut cfg (record c { snapshot_buffer = b }) r.screen r.now rest in
      record { writing = same.writing; ready = λ n. same.ready ∙ n }

  ready_step-IsValid :
      (c : PtyConversation) (screen : Text) → IsValid c → IsValid (ready_step cfg c screen)
  unfolding ready_step
  ready_step-IsValid c screen v =
      elim (Bool-cases
        (not c.initial_prompt_ready && is_ready cfg.ready_for_initial_prompt screen)) [
          | inl e ↦ rw e (moved-IsValid refl refl v)
          | inr e ↦ rw e v
        ]

  -- From a conversation with a valid buffer and between two ticks, a tick whose snapshot does not panic
  -- is carried out: the status passes its checks, and the initial prompt finds room in the queue, so that
  -- the loop does not block under the lock. It leaves such a conversation, in which an agent that was ready
  -- is ready, and hands on the messages that the snapshot left.
  pub tick_total :
      (c : PtyConversation) (r : Reading) {snapped : PtyConversation}
      → IsValid c
      → IsOrderly cfg c
      → snapshot cfg c r.screen r.now ≡ some snapped
      → (t : Tick) × (tick decode cfg c r ≡ some t)
        × IsValid t.conversation
        × IsOrderly cfg t.conversation
        × (t.messages ≡ snapped.messages)
        × IsAhead c t.conversation
  unfolding tick
  tick_total c r {snapped} v o e =
      let (v', shots) = snapshot-IsValid cfg c r.screen r.now v e in
      let fit = ready_step-IsFit snapped r.screen (snapshot-IsOrderly c r e o) in
      let (p, s, e₁, e₂, v'', o', m) =
        rest_total (ready_step cfg snapped r.screen) r (ready_step-IsValid snapped r.screen v')
          fit in
      (
        record {
          conversation = s;
          load_error = (load_step decode cfg (ready_step cfg snapped r.screen) r).1;
          status = status_of snapped v'.snapshots (settled snapped v'.snapshots);
          messages = snapped.messages;
        },
        rw (e, status_total snapped v', e₁, e₂) refl,
        v'',
        o',
        refl,
        ahead (snapshot-IsAhead c r e) (ahead (ready_step-IsAhead snapped r.screen) m),
      )
