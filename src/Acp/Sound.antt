-- ===== src/Acp/Sound.antt =====
-- x/acpio/acp_conversation.go: what every interleaving keeps.
use agentapi_plusplus.Acp.{
  AcpConversation, Emission, new_acp_conversation, begin_prompt, send, admitted, fill_last,
  handle_chunk, drain_signal, end_prompt, clear_messages,
}
use agentapi_plusplus.Acp.Replies.{
  AreOrdered, Shows, AreOrdered-append, AreOrdered-fill_last, AreOrdered-drop_last, Shows-fill_last,
}
use agentapi_plusplus.Acp.Steps.{
  Caller, began, writing, waiting, ending, System, Step, sends, drains, writes, hears, times_out,
  ends, streams, clears, Reaches, here, after, started,
}
use agentapi_plusplus.Acp.Turn.{send-admitted}
use agentapi_plusplus.Conversation.Messages.{
  MessagePartText, user, agent, build_string_from_message_parts,
}
use agentapi_plusplus.Prelude.{
  ℕ, suc, ◌+◌, ◌≡◌, refl, sym, ap, ◌∙◌, inl, inr, Bool, true, false, List, [], ◌∷◌, ◌++◌,
  if◌then◌else◌, Bool-cases, arith, length, length-append, Text, append_assoc,
}

pub record IsSound (s : System) : Type 0 where
  -- The conversation prompts exactly while one admitted caller is under way, and there is never another.
  pub one : length s.callers ≡ (if s.conversation.prompting then 1 else 0)
  pub ordered : AreOrdered 0 s.conversation.messages s.conversation.next_id
  -- While it prompts, the last message is the reply as far as it came, unless the messages were cleared.
  pub shown :
      s.conversation.prompting ≡ true
      → Shows s.conversation.messages s.conversation.streaming_response

handle_chunk_idle :
    (c : AcpConversation) (chunk : Text) → c.prompting ≡ false → (handle_chunk c chunk).0 ≡ c
unfolding handle_chunk
handle_chunk_idle c chunk e = rw e refl

handle_chunk_busy :
    (c : AcpConversation) (chunk : Text)
    → c.prompting ≡ true
    → (handle_chunk c chunk).0 ≡ record c {
      streaming_response = c.streaming_response ++ chunk;
      messages = fill_last c.messages (c.streaming_response ++ chunk);
      chunk_received = true;
    }
unfolding handle_chunk
handle_chunk_busy c chunk e = rw e refl

handle_chunk-IsSound :
    (s : System) (chunk : Text)
    → IsSound s
    → IsSound (record s { conversation = (handle_chunk s.conversation chunk).0 })
handle_chunk-IsSound s chunk h = elim (Bool-cases s.conversation.prompting) [
  | inr e ↦ rw (handle_chunk_idle s.conversation chunk e) h
  | inl e ↦
      let c = s.conversation in
      let response = c.streaming_response ++ chunk in
      rw (handle_chunk_busy c chunk e) (record {
        one = h.one;
        ordered = AreOrdered-fill_last 0 c.next_id c.messages response h.ordered;
        shown = λ p. Shows-fill_last c.messages c.streaming_response response (h.shown p);
      })
]

-- A caller under way is the only one, and the conversation prompts.
only_caller :
    (pre post : List Caller) (x : Caller) (busy : Bool)
    → length (pre ++ x ∷ post) ≡ (if busy then 1 else 0)
    → (busy ≡ true) × (length (pre ++ post) ≡ 0)
only_caller pre post x true h =
    (refl, omega (arith, h, length-append pre (x ∷ post), length-append pre post))
only_caller pre post x false h = absurd (omega (arith, h, length-append pre (x ∷ post)))

end_messages-AreOrdered :
    (c : AcpConversation) (failed : Bool)
    → AreOrdered 0 c.messages c.next_id
    → AreOrdered 0 (end_prompt c failed).0.messages c.next_id
unfolding end_prompt
end_messages-AreOrdered c true h = AreOrdered-drop_last 0 c.next_id c.messages h
end_messages-AreOrdered c false h =
    AreOrdered-fill_last 0 c.next_id c.messages c.streaming_response h

ends-IsSound :
    (s : System) (pre post : List Caller) (failed : Bool)
    → s.callers ≡ pre ++ ending failed ∷ post
    → IsSound s
    → IsSound
        (record { conversation = (end_prompt s.conversation failed).0; callers = pre ++ post })
unfolding end_prompt
ends-IsSound s pre post failed e h =
    let (busy, alone) =
      only_caller pre post (ending failed) s.conversation.prompting (ap length (sym e) ∙ h.one) in
    record {
      one = alone;
      ordered = end_messages-AreOrdered s.conversation failed h.ordered;
      shown = λ p. cc;
    }

-- A caller that moves on.
moves-IsSound :
    (s : System) (pre post : List Caller) (x y : Caller)
    → s.callers ≡ pre ++ x ∷ post
    → IsSound s
    → IsSound (record s { callers = pre ++ y ∷ post })
moves-IsSound s pre post x y e h = record {
  one =
      omega (arith, length-append pre (x ∷ post), length-append pre (y ∷ post))
      ∙ ap length (sym e)
      ∙ h.one;
  ordered = h.ordered;
  shown = h.shown;
}

drain_signal-IsSound :
    (s : System) → IsSound s → IsSound (record s { conversation = drain_signal s.conversation })
unfolding drain_signal
drain_signal-IsSound s h = record { one = h.one; ordered = h.ordered; shown = h.shown }

sends-IsSound :
    (s : System) (parts : List MessagePartText) (now later : ℕ) (c : AcpConversation)
    (es : List Emission)
    → send s.conversation parts now later ≡ admitted c es
    → IsSound s
    → IsSound (record { conversation = c; callers = began ∷ s.callers })
unfolding begin_prompt
sends-IsSound s parts now later c es e h =
    let (quiet, same) = send-admitted s.conversation c parts now later es e in
    let none_left : length s.callers ≡ 0 = h.one ∙ ap (λ b. if b then 1 else 0) quiet in
    rw same (record {
      one = ap suc none_left;
      ordered =
          AreOrdered-append 0 s.conversation.next_id (s.conversation.next_id + 2)
            s.conversation.messages _ h.ordered (omega arith, (omega arith, omega arith));
      shown = λ p. inr (
        s.conversation.messages
            ++ record {
              id = s.conversation.next_id;
              message = build_string_from_message_parts parts;
              role = user;
              time = now;
            }
              ∷ [],
        record { id = s.conversation.next_id + 1; message = []; role = agent; time = later },
        sym (append_assoc s.conversation.messages _ _),
        refl,
        refl,
      );
    })

next-IsSound : (s t : System) → Step s t → IsSound s → IsSound t
unfolding clear_messages
next-IsSound s t (sends parts now later c es e) h = sends-IsSound s parts now later c es e h
next-IsSound s t (drains pre post e) h =
    drain_signal-IsSound (record s { callers = pre ++ writing ∷ post })
      (moves-IsSound s pre post began writing e h)
next-IsSound s t (writes pre post failed e) h =
    moves-IsSound s pre post writing (waiting failed) e h
next-IsSound s t (hears pre post failed e signal) h =
    drain_signal-IsSound (record s { callers = pre ++ ending failed ∷ post })
      (moves-IsSound s pre post (waiting failed) (ending failed) e h)
next-IsSound s t (times_out pre post failed e) h =
    moves-IsSound s pre post (waiting failed) (ending failed) e h
next-IsSound s t (ends pre post failed e) h = ends-IsSound s pre post failed e h
next-IsSound s t (streams chunk) h = handle_chunk-IsSound s chunk h
next-IsSound s t clears h = record { one = h.one; ordered = omega arith; shown = λ p. inl refl }

started-IsSound : (parts : List MessagePartText) → IsSound (started (new_acp_conversation parts))
unfolding started new_acp_conversation
started-IsSound parts = record { one = refl; ordered = omega arith; shown = λ p. cc }

-- Whatever callers of `Send`, chunks, time-outs and `ClearMessages` interleave, a new conversation stays
-- sound: it prompts exactly while one admitted caller is under way, and there are never two; the ids of the
-- messages grow and are below the next id; and while it prompts, the last message is the reply with the
-- text that streamed so far, unless the messages were cleared.
pub reachable-IsSound :
    (parts : List MessagePartText) (s : System)
    → Reaches (started (new_acp_conversation parts)) s
    → IsSound s
reachable-IsSound parts s here = started-IsSound parts
reachable-IsSound parts s (after t u r step) = next-IsSound t u step (reachable-IsSound parts t r)
