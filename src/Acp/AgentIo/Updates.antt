-- ===== src/Acp/AgentIo/Updates.antt =====
-- x/acpio/acpio.go and acp_conversation.go: the screen of the connection and the text of the conversation.
use agentapi_plusplus.Acp.{AcpConversation, text, handle_chunk}
use agentapi_plusplus.Acp.AgentIo.{session_update, SessionUpdate, AgentIo, respond, read_screen}
use agentapi_plusplus.Acp.AgentIo.Delivery.{
  Handler, Delivery, Step, begins, writes, calls, Run, here, next,
}
use agentapi_plusplus.Acp.Turn.{concat}
use agentapi_plusplus.Prelude.{
  sym, ◌≡◌, refl, ap, ◌∙◌, ℕ, ◌+◌, true, List, [], ◌∷◌, ◌++◌, Option, none, some, Text, append-nil,
  append_assoc, arith, text_eq, if◌then◌else◌,
}

concat-append : (a b : List Text) → concat (a ++ b) ≡ concat a ++ concat b
concat-append [] b = refl
concat-append (s ∷ a) b = rw (concat-append a b, append_assoc s (concat a) (concat b)) refl

-- How often a text is among some.
abbrev pub occurrences : Text → List Text → ℕ
occurrences t [] = 0
occurrences t (s ∷ ss) = (if text_eq s t then 1 else 0) + occurrences t ss

occurrences-append :
    (t : Text) (a b : List Text) → occurrences t (a ++ b) ≡ occurrences t a + occurrences t b
occurrences-append t [] b = omega arith
occurrences-append t (s ∷ a) b = omega (arith, occurrences-append t a b)

abbrev pub due_of : Option Text → List Text
due_of none = []
due_of (some piece) = piece ∷ []

-- The pieces whose callback is due.
abbrev pub all_due : List Handler → List Text
all_due [] = []
all_due (h ∷ hs) = due_of h.due ++ all_due hs

all_due-at :
    (t : Text) (before after : List Handler) (due : Option Text) (todo : List Text)
    → occurrences t (all_due (before ++ record { due = due; todo = todo } ∷ after))
      ≡ occurrences t (all_due before) + occurrences t (due_of due) + occurrences t (all_due after)
all_due-at t [] after due todo = omega (arith, occurrences-append t (due_of due) (all_due after))
all_due-at t (h ∷ before) after due todo =
    let rest : List Handler = before ++ record { due = due; todo = todo } ∷ after in
    omega (
      arith,
      all_due-at t before after due todo,
      occurrences-append t (due_of h.due) (all_due before),
      occurrences-append t (due_of h.due) (all_due rest),
    )

-- The pieces that are left to write.
abbrev pub all_todo : List Handler → List Text
all_todo [] = []
all_todo (h ∷ hs) = h.todo ++ all_todo hs

all_todo-at :
    (t : Text) (before after : List Handler) (due : Option Text) (todo : List Text)
    → occurrences t (all_todo (before ++ record { due = due; todo = todo } ∷ after))
      ≡ occurrences t (all_todo before) + occurrences t todo + occurrences t (all_todo after)
all_todo-at t [] after due todo = omega (arith, occurrences-append t todo (all_todo after))
all_todo-at t (h ∷ before) after due todo =
    let rest : List Handler = before ++ record { due = due; todo = todo } ∷ after in
    omega (
      arith,
      all_todo-at t before after due todo,
      occurrences-append t h.todo (all_todo before),
      occurrences-append t h.todo (all_todo rest),
    )

-- The pieces of some updates.
abbrev pub all_pieces : List SessionUpdate → List Text
all_pieces [] = []
all_pieces (u ∷ updates) = session_update u ++ all_pieces updates

-- The pieces that were written and those that were called back with, in order, from a text on.
pub record IsDelivered (start : Text) (d : Delivery) : Type 0 where
  pub written : List Text
  pub called : List Text
  pub shown : read_screen d.agent ≡ start ++ concat written
  pub said : text d.conversation ≡ start ++ concat called
  pub same :
      (t : Text) → occurrences t written ≡ occurrences t called + occurrences t (all_due d.handlers)
  pub none_lost :
      (t : Text)
      → occurrences t (all_pieces d.started)
        ≡ occurrences t written + occurrences t (all_todo d.handlers)
  pub busy : d.conversation.prompting ≡ true
  pub calling : d.agent.on_chunk ≡ true

grown :
    (start s x : Text) (pieces : List Text)
    → s ≡ start ++ concat pieces
    → s ++ x ≡ start ++ concat (pieces ++ x ∷ [])
grown start s x pieces h =
    ap (λ y. y ++ x) h
    ∙ append_assoc start (concat pieces) x
    ∙ ap (◌++◌ start)
        (ap (◌++◌ (concat pieces)) (sym (append-nil x)) ∙ sym (concat-append pieces (x ∷ [])))

Step-IsDelivered :
    {start : Text} {d e : Delivery} → Step d e → IsDelivered start d → IsDelivered start e
unfolding respond text read_screen handle_chunk
Step-IsDelivered (begins u d) v = record {
  written = v.written;
  called = v.called;
  shown = v.shown;
  said = v.said;
  same = v.same;
  none_lost = λ t. omega (
    arith,
    v.none_lost t,
    occurrences-append t (session_update u) (all_pieces d.started),
    occurrences-append t (session_update u) (all_todo d.handlers),
  );
  busy = v.busy;
  calling = v.calling;
}
Step-IsDelivered {start} (writes before piece todo after c a us) v = record {
  written = v.written ++ piece ∷ [];
  called = v.called;
  shown = grown start a.response piece v.written v.shown;
  said = v.said;
  same = λ t. rw v.calling (
      omega (
        arith,
        v.same t,
        all_due-at t before after none (piece ∷ todo),
        all_due-at t before after (some piece) todo,
        occurrences-append t v.written (piece ∷ []),
      ));
  none_lost = λ t. omega (
    arith,
    v.none_lost t,
    all_todo-at t before after none (piece ∷ todo),
    all_todo-at t before after (respond a piece).1 todo,
    occurrences-append t v.written (piece ∷ []),
  );
  busy = v.busy;
  calling = v.calling;
}
Step-IsDelivered {start} (calls before piece todo after c a us) v = record {
  written = v.written;
  called = v.called ++ piece ∷ [];
  shown = v.shown;
  said = rw v.busy (grown start c.streaming_response piece v.called v.said);
  same = λ t. omega (
    arith,
    v.same t,
    all_due-at t before after none todo,
    all_due-at t before after (some piece) todo,
    occurrences-append t v.called (piece ∷ []),
  );
  none_lost = λ t. omega (
    arith,
    v.none_lost t,
    all_todo-at t before after (some piece) todo,
    all_todo-at t before after none todo,
  );
  busy = rw v.busy refl;
  calling = v.calling;
}

-- During a prompt, if the screen of the connection and the text of the conversation are one text, the callback
-- is set and no update is handled yet, then after any updates that are handled at the same time, in any
-- order of their steps, both are that text followed by pieces. Every piece of the updates is as often in
-- the screen, together with those left to write, as it is in the updates, and as often in the conversation,
-- together with the callbacks that are due, as in the screen. The order of the pieces may differ between
-- the two.
pub deliver_lem :
    (c : AcpConversation) (a : AgentIo) (d : Delivery)
    → c.prompting ≡ true
    → a.on_chunk ≡ true
    → text c ≡ read_screen a
    → Run (record { conversation = c; agent = a; handlers = []; started = [] }) d
    → IsDelivered (read_screen a) d
deliver_lem c a d p o same here = record {
  written = [];
  called = [];
  shown = sym (append-nil (read_screen a));
  said = same ∙ sym (append-nil (read_screen a));
  same = λ t. refl;
  none_lost = λ t. refl;
  busy = p;
  calling = o;
}
deliver_lem c a d p o same (next r step) = Step-IsDelivered step (deliver_lem c a _ p o same r)
