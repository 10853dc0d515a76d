-- ===== src/Conversation/Loop/Sound.antt =====
-- lib/screentracker/pty_conversation.go: the states that the loops and the callers can reach.
use agentapi_plusplus.Conversation.Loop.Moves.{
  IsSound, send_error-ready, take_message-IsOrderly, tick-IsSound, enqueue-IsSound, signal-IsSound,
  begin-IsSound, finish-IsSound, fail-IsSound, end-IsSound, clear-IsSound, started-IsSound,
}
use agentapi_plusplus.Conversation.Loop.Steps.{
  is_writing, System, Step, ticks, admits, queues, signals, takes, finds_none, begins, finishes,
  fails, ends, clears, Reaches, here, after, started,
}
use agentapi_plusplus.Conversation.Messages.{MessagePartText}
use agentapi_plusplus.Conversation.Persistence.{AgentState}
use agentapi_plusplus.Conversation.State.{PtyConversationConfig, PtyConversation, new_pty}
use agentapi_plusplus.Prelude.{ℕ, ◌≡◌, ap, ◌∙◌, List, Option, some, Text}

module _ (decode : Text → Option AgentState) (cfg : PtyConversationConfig) where
  pub next-IsSound : (s t : System) → Step decode cfg s t → IsSound cfg s → IsSound cfg t
  next-IsSound s t (ticks r k e) v = tick-IsSound decode cfg s r k e v
  next-IsSound s t (queues m n c a e) v = enqueue-IsSound decode cfg s m n c a e v
  next-IsSound s t (admits parts e) v = record {
    valid = v.valid;
    orderly = v.orderly;
    ready = λ p. send_error-ready s.conversation parts v.valid e;
    frozen = v.frozen;
  }
  next-IsSound s t (signals c i e) v = signal-IsSound decode cfg s c i e v
  next-IsSound s t (takes m c i e) v =
      let (valid, orderly, moved) =
        take_message-IsOrderly cfg s.conversation c m e v.valid v.orderly in
      record {
        valid = valid;
        orderly = orderly;
        ready = λ p. moved.ready (v.ready p);
        frozen = moved.writing ∙ v.frozen ∙ ap is_writing i;
      }
  next-IsSound s t (finds_none i e) v = record {
    valid = v.valid;
    orderly = v.orderly;
    ready = v.ready;
    frozen = v.frozen ∙ ap is_writing i;
  }
  next-IsSound s t (begins m screen now c i e) v = begin-IsSound decode cfg s m screen now c i e v
  next-IsSound s t (finishes m screen now i) v = finish-IsSound decode cfg s m screen now v
  next-IsSound s t (fails m screen now i) v = fail-IsSound decode cfg s v
  next-IsSound s t (ends i) v = end-IsSound decode cfg s i v
  next-IsSound s t clears v = clear-IsSound decode cfg s v

  -- In every state that a new conversation reaches by any interleaving of ticks, callers and sends, the
  -- buffer passes the checks of the status, at most one message is queued, none before the agent is ready
  -- and the initial prompt was queued, and the messages of the agent are frozen exactly during a write.
  pub Reaches-IsSound :
      (prompt : List MessagePartText) (now : ℕ) {c : PtyConversation} (s : System)
      → new_pty cfg prompt now ≡ some c
      → Reaches decode cfg (started c) s
      → IsSound cfg s
  Reaches-IsSound prompt now s made here = started-IsSound decode cfg prompt now made
  Reaches-IsSound prompt now s made (after t u way last) =
      next-IsSound t u last (Reaches-IsSound prompt now t made way)
