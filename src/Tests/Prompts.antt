-- ===== src/Tests/Prompts.antt =====
-- x/acpio at concrete inputs.
use agentapi_plusplus.Prelude.{none, Text, text_eq}
use agentapi_plusplus.Conversation.Messages.{build_string_from_message_parts}
use agentapi_plusplus.Strings.{has_prefix, has_suffix, trim_space}
use agentapi_plusplus.Acp.AgentIo.{session_update, respond}
use agentapi_plusplus.Acp.{
  handle_chunk, AcpConversation, new_acp_conversation, send, admitted, handle_chunk, drain_signal,
  end_prompt, emit_status, status, text,
}
use agentapi_plusplus.Acp.AgentIo.{AgentIo, SessionUpdate, read_screen}
use agentapi_plusplus.Acp.AgentIo.Prompts.{IsPlain, write_parts, format_paste_lem}
use agentapi_plusplus.Acp.AgentIo.Delivery.{
  Handler, begin_update, write_piece, call_back, next, begins, calls,
}
use agentapi_plusplus.Acp.AgentIo.Delivery
use agentapi_plusplus.Acp.AgentIo.Updates.{IsDelivered, deliver_lem}
use agentapi_plusplus.Acp.Sound.{IsSound, reachable-IsSound}
use agentapi_plusplus.Acp.Steps.{
  began, writing, waiting, System, sends, drains, writes, streams, Reaches, here, after, started,
}
use agentapi_plusplus.Acp.Turn.{handle_chunks, question, reply, prompt_lem}
use agentapi_plusplus.Conversation.Messages.{changing, stable, MessagePartText}
use agentapi_plusplus.Conversation.Send.{format_paste}
use agentapi_plusplus.Prelude.{◌≡◌, refl, true, false, [], ◌∷◌, ◌++◌, some, codes}

abbrev fresh : AcpConversation
fresh = new_acp_conversation []

abbrev part : MessagePartText
part = record { content = codes "hi"; alias = []; hidden = false }

abbrev begun : AcpConversation
begun = record {
  messages = question fresh (part ∷ []) 7 ∷ reply fresh 8 [] ∷ [];
  next_id = 2;
  prompting = true;
  chunk_received = false;
  streaming_response = [];
  initial_prompt = [];
}

send_run : send fresh (part ∷ []) 7 8 ≡ admitted begun (emit_status changing ∷ [])
unfolding send text_eq build_string_from_message_parts trim_space new_acp_conversation
send_run = refl

prompt_lem_example :
    let d = handle_chunks (drain_signal begun) (codes "a" ∷ codes "b" ∷ []) in
    let ok = (end_prompt d false).0 in
    let failed = (end_prompt d true).0 in
    (ok.messages
      ≡ (fresh.messages ++ question fresh (part ∷ []) 7 ∷ []) ++ reply fresh 8 (codes "ab") ∷ [])
    × (text ok ≡ codes "ab")
    × (failed.messages ≡ fresh.messages ++ question fresh (part ∷ []) 7 ∷ [])
    × (status fresh ≡ stable)
    × (status d ≡ changing)
    × (status ok ≡ stable)
    × (status failed ≡ stable)
prompt_lem_example =
    prompt_lem fresh begun (part ∷ []) 7 8 (emit_status changing ∷ []) (codes "a" ∷ codes "b" ∷ [])
      send_run

-- A message is sent, its write fails, and a chunk streams in between.
abbrev sent_system : System
sent_system = record { conversation = begun; callers = began ∷ [] }

abbrev writing_system : System
writing_system = record { conversation = drain_signal begun; callers = writing ∷ [] }

abbrev streamed_system : System
streamed_system = record {
  conversation = (handle_chunk (drain_signal begun) (codes "a")).0;
  callers = writing ∷ [];
}

abbrev waiting_system : System
waiting_system = record streamed_system { callers = waiting true ∷ [] }

reached : Reaches (started (new_acp_conversation [])) waiting_system
unfolding started
reached =
    after streamed_system waiting_system
      (after writing_system streamed_system
        (after sent_system writing_system
          (after (started fresh) sent_system here
            (sends (part ∷ []) 7 8 begun (emit_status changing ∷ []) send_run))
          (drains [] [] refl))
        (streams (codes "a")))
      (writes [] [] true refl)

reachable-IsSound_example : IsSound waiting_system
reachable-IsSound_example = reachable-IsSound [] waiting_system reached

abbrev io : AgentIo
io = record { response = codes "old"; on_chunk = true }

plain : IsPlain (codes "hello x")
unfolding trim_space has_prefix has_suffix text_eq
plain = record { full = refl; trimmed = refl; starts = refl; ends = refl; types = refl }

format_paste_lem_example :
    write_parts (λ s. true) (λ i. false) (λ i. false) 0 io (format_paste (codes "hello x"))
    ≡ record {
      io = record { response = []; on_chunk = true };
      prompts = codes "hello x" ∷ [];
      failed = false;
    }
format_paste_lem_example = format_paste_lem (λ s. true) io (codes "hello x") plain refl

abbrev update : SessionUpdate
update = record {
  agent_message_chunk = some (some (codes "ok"));
  tool_call = some (record { kind = codes "read"; title = codes "f" });
  tool_call_update = some (some (codes "done"));
}

abbrev quiet_io : AgentIo
quiet_io = record { response = []; on_chunk = true }

pieces_run :
    session_update update
    ≡ codes "ok" ∷ codes "\n[Tool: read] f\n" ∷ codes "[Tool Status: done]\n" ∷ []
unfolding session_update
pieces_run = refl

same : text begun ≡ read_screen quiet_io
unfolding text read_screen
same = refl

-- Two updates with one piece each: the first is written first, and calls back last.
abbrev chunk_of : Text → SessionUpdate
chunk_of s = record {
  agent_message_chunk = some (some s);
  tool_call = none;
  tool_call_update = none;
}

abbrev calm : Delivery.Delivery
calm = record { conversation = begun; agent = quiet_io; handlers = []; started = [] }

abbrev both_begun : Delivery.Delivery
both_begun = begin_update (chunk_of (codes "b")) (begin_update (chunk_of (codes "a")) calm)

abbrev idle : Handler
idle = record { due = none; todo = [] }

abbrev waiting_for : Text → Handler
waiting_for s = record { due = none; todo = s ∷ [] }

abbrev due_for : Text → Handler
due_for s = record { due = some s; todo = [] }

abbrev a_written : Delivery.Delivery
a_written = write_piece (waiting_for (codes "b") ∷ []) (codes "a") [] [] both_begun

abbrev b_written : Delivery.Delivery
b_written = write_piece [] (codes "b") [] (due_for (codes "a") ∷ []) a_written

abbrev b_called : Delivery.Delivery
b_called = call_back [] (codes "b") [] (due_for (codes "a") ∷ []) b_written

abbrev a_called : Delivery.Delivery
a_called = call_back (idle ∷ []) (codes "a") [] [] b_called

reordered : Delivery.Run calm a_called
unfolding respond session_update handle_chunk
reordered =
    next
      (next
        (next
          (next
            (next (next Delivery.here (begins (chunk_of (codes "a")) calm))
              (begins (chunk_of (codes "b")) (begin_update (chunk_of (codes "a")) calm)))
            (Delivery.writes (waiting_for (codes "b") ∷ []) (codes "a") [] [] begun quiet_io
              both_begun.started))
          (Delivery.writes [] (codes "b") [] (due_for (codes "a") ∷ []) begun a_written.agent
            both_begun.started))
        (calls [] (codes "b") [] (due_for (codes "a") ∷ []) begun b_written.agent
          both_begun.started))
      (calls (idle ∷ []) (codes "a") [] [] b_called.conversation b_called.agent both_begun.started)

deliver_lem_example : IsDelivered (read_screen quiet_io) a_called
deliver_lem_example = deliver_lem begun quiet_io a_called refl refl same reordered

-- The screen and the conversation differ in the end.
reordered_run :
    (read_screen a_called.agent ≡ codes "ab") × (text a_called.conversation ≡ codes "ba")
unfolding respond read_screen text handle_chunk
reordered_run = (refl, refl)
