-- ===== src/Acp/Turn.antt =====
-- x/acpio/acp_conversation.go: one prompt, from `Send` over the chunks to its end.
use agentapi_plusplus.Acp.{
  AcpConversation, Emission, admitted, begin_prompt, send, validate, status, text, fill_last,
  drop_last, handle_chunk, drain_signal, end_prompt,
}
use agentapi_plusplus.Conversation.Messages.{
  changing, stable, ConversationMessage, MessagePartText, user, agent, is_agent,
  build_string_from_message_parts, last_has_role,
}
use agentapi_plusplus.Prelude.{
  ℕ, ◌+◌, ◌-◌, ◌≡◌, refl, sym, ap, ◌∙◌, inl, inr, true, false, List, [], ◌∷◌, ◌++◌, Bool-cases,
  Option-cases, arith, length, length-append, take, Text, append-nil, append_assoc, take-append,
  take-length,
}

abbrev pub concat : List Text → Text
concat [] = []
concat (s ∷ ss) = s ++ concat ss

unfoldable pub handle_chunks : AcpConversation → List Text → AcpConversation
handle_chunks c [] = c
handle_chunks c (chunk ∷ chunks) = handle_chunks (handle_chunk c chunk).0 chunks

pub last_has_role-concat :
    (ms : List ConversationMessage) (m : ConversationMessage)
    → last_has_role is_agent (ms ++ m ∷ []) ≡ is_agent m.role
unfolding last_has_role
last_has_role-concat [] m = refl
last_has_role-concat (x ∷ []) m = refl
last_has_role-concat (x ∷ y ∷ ms) m = last_has_role-concat (y ∷ ms) m

pub fill_last-concat :
    (ms : List ConversationMessage) (m : ConversationMessage) (s : Text)
    → is_agent m.role ≡ true
    → fill_last (ms ++ m ∷ []) s ≡ ms ++ record m { message = s } ∷ []
unfolding fill_last
fill_last-concat [] m s h = rw h refl
fill_last-concat (x ∷ []) m s h = rw h refl
fill_last-concat (x ∷ y ∷ ms) m s h = ap (◌∷◌ x) (fill_last-concat (y ∷ ms) m s h)

take-concat :
    (ms : List ConversationMessage) (m : ConversationMessage)
    → take (length (ms ++ m ∷ []) - 1) (ms ++ m ∷ []) ≡ ms
take-concat ms m =
    let n : length (ms ++ m ∷ []) - 1 ≡ length ms = omega (arith, length-append ms (m ∷ [])) in
    rw n
      (take-append (length ms) ms (m ∷ []) (omega arith) ∙ take-length (length ms) ms (omega arith))

pub drop_last-concat :
    (ms : List ConversationMessage) (m : ConversationMessage)
    → is_agent m.role ≡ true
    → drop_last (ms ++ m ∷ []) ≡ ms
unfolding drop_last
drop_last-concat ms m h = rw (last_has_role-concat ms m, h) (take-concat ms m)

-- The conversation during a prompt, after the text that streamed so far.
record IsStreaming (c : AcpConversation) (before : List ConversationMessage)
    (reply : ConversationMessage) (streamed : Text) : Type 0 where
  busy : c.prompting ≡ true
  streams : c.streaming_response ≡ streamed
  shows : c.messages ≡ before ++ record reply { message = streamed } ∷ []
  replies : is_agent reply.role ≡ true

handle_chunk-IsStreaming :
    (c : AcpConversation) (before : List ConversationMessage) (reply : ConversationMessage)
    (streamed chunk : Text)
    → IsStreaming c before reply streamed
    → IsStreaming (handle_chunk c chunk).0 before reply (streamed ++ chunk)
unfolding handle_chunk
handle_chunk-IsStreaming c before reply streamed chunk h = rw h.busy (record {
  busy = refl;
  streams = rw h.streams refl;
  shows =
      rw (h.shows, h.streams)
        (fill_last-concat before (record reply { message = streamed }) (streamed ++ chunk)
          h.replies);
  replies = h.replies;
})

handle_chunks-IsStreaming :
    (c : AcpConversation) (before : List ConversationMessage) (reply : ConversationMessage)
    (streamed : Text) (chunks : List Text)
    → IsStreaming c before reply streamed
    → IsStreaming (handle_chunks c chunks) before reply (streamed ++ concat chunks)
unfolding handle_chunks
handle_chunks-IsStreaming c before reply streamed [] h = rw (append-nil streamed) h
handle_chunks-IsStreaming c before reply streamed (chunk ∷ chunks) h =
    rw (← append_assoc streamed chunk (concat chunks)) (
      handle_chunks-IsStreaming (handle_chunk c chunk).0 before reply (streamed ++ chunk) chunks
        (handle_chunk-IsStreaming c before reply streamed chunk h))

pub send-admitted :
    (c b : AcpConversation) (parts : List MessagePartText) (now later : ℕ) (es : List Emission)
    → send c parts now later ≡ admitted b es
    → (c.prompting ≡ false) × (b ≡ begin_prompt c (build_string_from_message_parts parts) now later)
unfolding send
send-admitted c b parts now later es h =
    elim (Option-cases (validate (build_string_from_message_parts parts))) [
      | inr (err, e) ↦ cc
      | inl e ↦ elim (Bool-cases c.prompting) [ inl p ↦ cc | inr p ↦ (p, cc) ]
    ]

-- The two messages that a prompt adds.
abbrev pub question : AcpConversation → List MessagePartText → ℕ → ConversationMessage
question c parts now = record {
  id = c.next_id;
  message = build_string_from_message_parts parts;
  role = user;
  time = now;
}

abbrev pub reply : AcpConversation → ℕ → Text → ConversationMessage
reply c later message = record { id = c.next_id + 1; message = message; role = agent; time = later }

begin_prompt-IsStreaming :
    (c : AcpConversation) (parts : List MessagePartText) (now later : ℕ)
    → IsStreaming
        (drain_signal (begin_prompt c (build_string_from_message_parts parts) now later))
        (c.messages ++ question c parts now ∷ [])
        (reply c later [])
        []
unfolding begin_prompt drain_signal
begin_prompt-IsStreaming c parts now later = record {
  busy = refl;
  streams = refl;
  shows = sym (append_assoc c.messages (question c parts now ∷ []) (reply c later [] ∷ []));
  replies = refl;
}

end_prompt-ok :
    (c : AcpConversation) (before : List ConversationMessage) (r : ConversationMessage)
    (streamed : Text)
    → IsStreaming c before r streamed
    → let d = (end_prompt c false).0 in
      (d.messages ≡ before ++ record r { message = streamed } ∷ []) × (text d ≡ streamed)
unfolding end_prompt text
end_prompt-ok c before r streamed h = (
  rw (h.shows, h.streams)
      (fill_last-concat before (record r { message = streamed }) streamed h.replies),
  h.streams,
)

end_prompt-failed :
    (c : AcpConversation) (before : List ConversationMessage) (r : ConversationMessage)
    (streamed : Text)
    → IsStreaming c before r streamed
    → (end_prompt c true).0.messages ≡ before
unfolding end_prompt
end_prompt-failed c before r streamed h =
    rw h.shows (drop_last-concat before (record r { message = streamed }) h.replies)

-- When a message was admitted and its reply came in chunks, a prompt that succeeds leaves the messages from
-- before, the message with the next id, and a reply with the id after it whose text is all the chunks in
-- order, which is also the text shown. A prompt that fails leaves the message without a reply. The status
-- is changing until the end, and then stable; before it was stable.
pub prompt_lem :
    (c b : AcpConversation) (parts : List MessagePartText) (now later : ℕ) (es : List Emission)
    (chunks : List Text)
    → send c parts now later ≡ admitted b es
    → let d = handle_chunks (drain_signal b) chunks in
      let ok = (end_prompt d false).0 in
      let failed = (end_prompt d true).0 in
      (ok.messages
        ≡ (c.messages ++ question c parts now ∷ []) ++ reply c later (concat chunks) ∷ [])
      × (text ok ≡ concat chunks)
      × (failed.messages ≡ c.messages ++ question c parts now ∷ [])
      × (status c ≡ stable)
      × (status d ≡ changing)
      × (status ok ≡ stable)
      × (status failed ≡ stable)
unfolding status end_prompt
prompt_lem c b parts now later es chunks h =
    let (quiet, same) = send-admitted c b parts now later es h in
    let before = c.messages ++ question c parts now ∷ [] in
    let streaming : IsStreaming (handle_chunks (drain_signal b) chunks) before (reply c later [])
        (concat chunks) =
      rw same (
        handle_chunks-IsStreaming
          (drain_signal (begin_prompt c (build_string_from_message_parts parts) now later)) before
          (reply c later []) [] chunks (begin_prompt-IsStreaming c parts now later)) in
    let d = handle_chunks (drain_signal b) chunks in
    let (says, shown) = end_prompt-ok d before (reply c later []) (concat chunks) streaming in
    (
      says,
      shown,
      end_prompt-failed d before (reply c later []) (concat chunks) streaming,
      rw quiet refl,
      rw streaming.busy refl,
      refl,
      refl,
    )
