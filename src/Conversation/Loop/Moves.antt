-- ===== src/Conversation/Loop/Moves.antt =====
-- lib/screentracker/pty_conversation.go: the invariant of the loops, and the single steps.
use agentapi_plusplus.Conversation.Loop.Progress.{tick_total}
use agentapi_plusplus.Conversation.Loop.Orderly.{
  IsOrderly, IsAhead, moved-IsValid, same_fields-IsOrderly,
}
use agentapi_plusplus.Conversation.Loop.Steps.{
  idle, signalled, holding, writing, finishing, is_writing, System, started,
}
use agentapi_plusplus.Conversation.Loop.{
  Reading, Tick, tick, take_signal, take_message, end_sending,
}
use agentapi_plusplus.Conversation.Messages.{MessagePartText, ValidationError}
use agentapi_plusplus.Conversation.Persistence.{AgentState}
use agentapi_plusplus.Conversation.Send.{
  send_error, enqueue, begin_message, fail_message, finish_message,
}
use agentapi_plusplus.Conversation.Send.Validation.{
  IsAnswer, for_whitespace, for_empty, for_changing, accepted, send_error-IsAnswer,
}
use agentapi_plusplus.Conversation.Snapshots.{snapshot, update_last_agent_message}
use agentapi_plusplus.Conversation.Snapshots.Laws.{update-SameBut}
use agentapi_plusplus.Conversation.State.{
  PtyConversationConfig, PtyConversation, OutboundMessage, new_pty, fresh_pty,
  get_stable_snapshots_threshold,
}
use agentapi_plusplus.Conversation.Status.{clear_messages}
use agentapi_plusplus.Conversation.Status.Stable.{IsValid, IsAtRest}
use agentapi_plusplus.Conversation.Status.Buffer.{new_pty-IsValid}
use agentapi_plusplus.Prelude.{
  ℕ, suc, ◌<◌, ◌≡◌, refl, sym, ap, ◌∙◌, subst, ◌⊎◌, inl, inr, true, false, List, [], ◌∷◌, ◌++◌,
  Option, none, some, arith, ltb, ltb→lt, >>=-eq-some, Bool-cases, clash, length, length-append,
  Text,
}

-- The buffer passes the checks of the status; the queue and the loads are in order; a caller is admitted
-- only to an agent that is ready; and the messages of the agent are frozen exactly during a write.
pub record IsSound (cfg : PtyConversationConfig) (s : System) : Type 0 where
  pub valid : IsValid s.conversation
  pub orderly : IsOrderly cfg s.conversation
  pub ready : 0 < s.admitted → s.conversation.initial_prompt_ready ≡ true
  pub frozen : s.conversation.writing_message ≡ is_writing s.sender

answer_none :
    {c : PtyConversation} {v : IsValid c} {said : Text} {r : Option ValidationError}
    → IsAnswer c v said r
    → r ≡ none
    → IsAtRest c v.snapshots
answer_none (for_whitespace a) h = cc
answer_none (for_empty a b) h = cc
answer_none (for_changing a b d) h = cc
answer_none (accepted a b rests) h = rests

-- A caller passes the checks of `Send` only if the agent is ready.
pub send_error-ready :
    (c : PtyConversation) (parts : List MessagePartText)
    → IsValid c
    → send_error c parts ≡ some none
    → c.initial_prompt_ready ≡ true
send_error-ready c parts v e =
    let (r, e', answer) = send_error-IsAnswer c v parts in (answer_none answer (cc (e, e'))).ready

List-cases : {A : Type 0} (xs : List A) → (xs ≡ []) ⊎ ((x : A) × (rest : List A) × (xs ≡ x ∷ rest))
List-cases [] = inl refl
List-cases (x ∷ rest) = inr (x, rest, refl)

pub take_message-IsOrderly :
    (cfg : PtyConversationConfig) (c c' : PtyConversation) (m : OutboundMessage)
    → take_message c ≡ some (m, c')
    → IsValid c
    → IsOrderly cfg c
    → IsValid c' × IsOrderly cfg c' × IsAhead c c'
unfolding take_message
take_message-IsOrderly cfg c c' m e v o = elim (List-cases c.outbound_queue) [
  | inl q ↦ cc (rw q at e)
  | inr (x, queue, q) ↦
      let made : record c { outbound_queue = queue } ≡ c' = cc (rw q at e) in
      let count : length c.outbound_queue ≡ suc (length queue) = ap length q in
      subst (λ y. IsValid y × IsOrderly cfg y × IsAhead c y) made
        (
          moved-IsValid refl refl v,
          record {
            quiet = λ u. absurd (omega (arith, count, o.quiet u));
            prompted = o.prompted;
            tried = o.tried;
            room = omega (arith, count, o.room);
          },
          record { writing = refl; ready = λ n. n },
        )
]

module _ (decode : Text → Option AgentState) (cfg : PtyConversationConfig) where
  pub tick-IsSound :
      (s : System) (r : Reading) (t : Tick)
      → tick decode cfg s.conversation r ≡ some t
      → IsSound cfg s
      → IsSound cfg (record s { conversation = t.conversation })
  unfolding tick
  tick-IsSound s r t e v =
      let (snapped, shot, rest) = >>=-eq-some (snapshot cfg s.conversation r.screen r.now) _ e in
      let (t', e', valid, orderly, m, moved) =
        tick_total decode cfg s.conversation r v.valid v.orderly shot in
      let same : t' ≡ t = cc (e, e') in
      subst (λ x. IsSound cfg (record s { conversation = x.conversation })) same
        (record {
          valid = valid;
          orderly = orderly;
          ready = λ p. moved.ready (v.ready p);
          frozen = moved.writing ∙ v.frozen;
        })

  pub enqueue-IsSound :
      (s : System) (m : OutboundMessage) (n : ℕ) (c : PtyConversation)
      → s.admitted ≡ suc n
      → enqueue s.conversation m ≡ some c
      → IsSound cfg s
      → IsSound cfg (record s { conversation = c; admitted = n })
  unfolding enqueue
  enqueue-IsSound s m n c a e v = elim (Bool-cases (ltb (length s.conversation.outbound_queue) 1)) [
    | inr full ↦ cc (rw full at e)
    | inl space ↦
        let ready = v.ready (omega (arith, a)) in
        let made : record s.conversation {
          outbound_queue = s.conversation.outbound_queue ++ m ∷ [];
        }
            ≡ c =
          cc (rw space at e) in
        subst (λ x. IsSound cfg (record s { conversation = x; admitted = n })) made
          (record {
            valid = moved-IsValid refl refl v.valid;
            orderly = record {
              quiet = λ u. absurd (clash ready u);
              prompted = v.orderly.prompted;
              tried = v.orderly.tried;
              room = omega (
                arith,
                length-append s.conversation.outbound_queue (m ∷ []),
                ltb→lt (length s.conversation.outbound_queue) 1 space,
              );
            };
            ready = λ p. ready;
            frozen = v.frozen;
          })
  ]

  pub signal-IsSound :
      (s : System) (c : PtyConversation)
      → s.sender ≡ idle
      → take_signal s.conversation ≡ some c
      → IsSound cfg s
      → IsSound cfg (record s { conversation = c; sender = signalled })
  unfolding take_signal
  signal-IsSound s c i e v = elim (Bool-cases s.conversation.stable_signal) [
    | inr off ↦ cc (rw off at e)
    | inl on ↦
        let made : record s.conversation { stable_signal = false } ≡ c = cc (rw on at e) in
        subst (λ x. IsSound cfg (record s { conversation = x; sender = signalled })) made
          (record {
            valid = moved-IsValid refl refl v.valid;
            orderly = same_fields-IsOrderly refl refl refl refl refl v.orderly;
            ready = v.ready;
            frozen = v.frozen ∙ ap is_writing i;
          })
  ]

  pub begin-IsSound :
      (s : System) (m : OutboundMessage) (screen : Text) (now : ℕ) (c : PtyConversation)
      → s.sender ≡ holding m
      → begin_message cfg s.conversation screen now ≡ some c
      → IsSound cfg s
      → IsSound cfg (record s { conversation = c; sender = writing m screen now })
  unfolding begin_message
  begin-IsSound s m screen now c i e v =
      let (u, updated, rest) =
        >>=-eq-some (update_last_agent_message cfg s.conversation screen now)
          (λ x. some (record x { writing_message = true })) e in
      let made : record u { writing_message = true } ≡ c = cc rest in
      let same = update-SameBut cfg s.conversation screen now updated in
      subst (λ x. IsSound cfg (record s { conversation = x; sender = writing m screen now })) made
        (record {
          valid = moved-IsValid same.buffer same.threshold v.valid;
          orderly =
              same_fields-IsOrderly same.ready same.queue same.prompt same.sent same.load_status
                v.orderly;
          ready = λ p. same.ready ∙ v.ready p;
          frozen = refl;
        })

  pub finish-IsSound :
      (s : System) (m : OutboundMessage) (screen : Text) (now : ℕ)
      → IsSound cfg s
      → IsSound cfg (record s {
        conversation = finish_message s.conversation m.parts screen now;
        sender = finishing;
      })
  unfolding finish_message
  finish-IsSound s m screen now v = record {
    valid = moved-IsValid refl refl v.valid;
    orderly = same_fields-IsOrderly refl refl refl refl refl v.orderly;
    ready = v.ready;
    frozen = refl;
  }

  pub fail-IsSound :
      (s : System)
      → IsSound cfg s
      → IsSound cfg (record s { conversation = fail_message s.conversation; sender = finishing })
  unfolding fail_message
  fail-IsSound s v = record {
    valid = moved-IsValid refl refl v.valid;
    orderly = same_fields-IsOrderly refl refl refl refl refl v.orderly;
    ready = v.ready;
    frozen = refl;
  }

  pub end-IsSound :
      (s : System)
      → s.sender ≡ finishing
      → IsSound cfg s
      → IsSound cfg (record s { conversation = end_sending s.conversation; sender = idle })
  unfolding end_sending
  end-IsSound s i v = record {
    valid = moved-IsValid refl refl v.valid;
    orderly = same_fields-IsOrderly refl refl refl refl refl v.orderly;
    ready = v.ready;
    frozen = v.frozen ∙ ap is_writing i;
  }

  pub clear-IsSound :
      (s : System)
      → IsSound cfg s
      → IsSound cfg (record s { conversation = clear_messages s.conversation })
  unfolding clear_messages
  clear-IsSound s v = record {
    valid = moved-IsValid refl refl v.valid;
    orderly = same_fields-IsOrderly refl refl refl refl refl v.orderly;
    ready = v.ready;
    frozen = v.frozen;
  }

  pub started-IsSound :
      (prompt : List MessagePartText) (now : ℕ) {c : PtyConversation}
      → new_pty cfg prompt now ≡ some c
      → IsSound cfg (started c)
  unfolding new_pty started fresh_pty
  started-IsSound prompt now {c} e =
      let valid = new_pty-IsValid cfg prompt now e in
      let (k, threshold, rest) =
        >>=-eq-some (get_stable_snapshots_threshold cfg) (λ x. some (fresh_pty prompt now x)) e in
      let made : fresh_pty prompt now k ≡ c = cc rest in
      record {
        valid = valid;
        orderly =
            subst (IsOrderly cfg) made (record {
              quiet = λ u. refl;
              prompted = λ r. cc;
              tried = λ r. cc;
              room = omega arith;
            });
        ready = λ p. elim p [ ];
        frozen = ap (λ x. x.writing_message) (sym made);
      }
