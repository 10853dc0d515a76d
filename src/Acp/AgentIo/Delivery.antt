-- ===== src/Acp/AgentIo/Delivery.antt =====
-- x/acpio/acpio.go and acp_conversation.go: the calls of `SessionUpdate`, which run at the same time, as steps.
-- A call locks for every piece of its update, and calls the conversation back without the lock.
use agentapi_plusplus.Acp.{AcpConversation, handle_chunk}
use agentapi_plusplus.Acp.AgentIo.{AgentIo, SessionUpdate, respond, session_update}
use agentapi_plusplus.Prelude.{List, ◌∷◌, ◌++◌, Option, none, some, Text}

-- A call: the piece whose callback is due, and the pieces that are left.
pub record Handler : Type 0 where
  pub due : Option Text
  pub todo : List Text

-- The state; `started` are the updates whose calls have begun.
pub record Delivery : Type 0 where
  pub conversation : AcpConversation
  pub agent : AgentIo
  pub handlers : List Handler
  pub started : List SessionUpdate

abbrev pub begin_update : SessionUpdate → Delivery → Delivery
begin_update u d = record d {
  handlers = record { due = none; todo = session_update u } ∷ d.handlers;
  started = u ∷ d.started;
}

-- A call that stands between others writes its next piece.
abbrev pub write_piece : List Handler → Text → List Text → List Handler → Delivery → Delivery
write_piece before piece todo after d = record d {
  agent = (respond d.agent piece).0;
  handlers = before ++ record { due = (respond d.agent piece).1; todo = todo } ∷ after;
}

-- A call that stands between others makes its callback.
abbrev pub call_back : List Handler → Text → List Text → List Handler → Delivery → Delivery
call_back before piece todo after d = record d {
  conversation = (handle_chunk d.conversation piece).0;
  handlers = before ++ record { due = none; todo = todo } ∷ after;
}

-- A state in which a call stands between others.
abbrev pub at_call :
    List Handler
    → Option Text
    → List Text
    → List Handler
    → AcpConversation
    → AgentIo
    → List SessionUpdate
    → Delivery
at_call before due todo after c a us = record {
  conversation = c;
  agent = a;
  handlers = before ++ record { due = due; todo = todo } ∷ after;
  started = us;
}

pub data Step : Delivery → Delivery → Type 0 where
  begins : (u : SessionUpdate) (d : Delivery) → Step d (begin_update u d)
  writes :
      (before : List Handler) (piece : Text) (todo : List Text) (after : List Handler)
      (c : AcpConversation) (a : AgentIo) (us : List SessionUpdate)
      → Step
          (at_call before none (piece ∷ todo) after c a us)
          (write_piece before piece todo after (at_call before none (piece ∷ todo) after c a us))
  calls :
      (before : List Handler) (piece : Text) (todo : List Text) (after : List Handler)
      (c : AcpConversation) (a : AgentIo) (us : List SessionUpdate)
      → Step
          (at_call before (some piece) todo after c a us)
          (call_back before piece todo after (at_call before (some piece) todo after c a us))

pub data Run (d : Delivery) : Delivery → Type 0 where
  here : Run d d
  next : {e f : Delivery} → Run d e → Step e f → Run d f
