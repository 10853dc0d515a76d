-- ===== src/Tests/Loops.antt =====
-- The loops of lib/screentracker/pty_conversation.go at concrete inputs.
use agentapi_plusplus.Conversation.Loop.{load_step, prompt_step, signal_step}
use agentapi_plusplus.Conversation.Status.{is_screen_stable, status}
use agentapi_plusplus.RingBuffer.{capacity, get_all}
use agentapi_plusplus.RingBuffer.{add}
use agentapi_plusplus.Conversation.Snapshots.{update_last_agent_message}
use agentapi_plusplus.ScreenDiff.{has_line, screen_diff}
use agentapi_plusplus.Prelude.{first_index, last_index, slice, text_eq}
use agentapi_plusplus.Strings.{is_blank, join_lines, split_lines}
use agentapi_plusplus.Conversation.Messages.{last_has_role, last_message, replace_last}
use agentapi_plusplus.Conversation.Loop.Orderly.{IsOrderly, IsAhead}
use agentapi_plusplus.Conversation.Loop.Progress.{tick_total}
use agentapi_plusplus.Conversation.Loop.Moves.{IsSound}
use agentapi_plusplus.Conversation.Loop.Sound.{Reaches-IsSound}
use agentapi_plusplus.Conversation.Loop.Steps.{idle, here, after, ticks, started}
use agentapi_plusplus.Conversation.Loop.{Reading, Tick, tick}
use agentapi_plusplus.Conversation.Messages.{MessagePartText, agent, changing}
use agentapi_plusplus.Conversation.Snapshots.{snapshot}
use agentapi_plusplus.Conversation.State.{
  PtyConversationConfig, PtyConversation, pending, failed, new_pty,
}
use agentapi_plusplus.Conversation.Status.Stable.{IsValid}
use agentapi_plusplus.Conversation.Status.Buffer.{new_pty-IsValid}
use agentapi_plusplus.Msgfmt.Agents.{claude}
use agentapi_plusplus.Prelude.{◌≡◌, refl, true, false, [], ◌∷◌, none, some, arith, codes}
use agentapi_plusplus.Tests.Codec.{decode_encoded}

-- One snapshot is enough for a stable screen; the agent is ready at once.
abbrev quick : PtyConversationConfig
quick = record {
  agent_type = claude;
  snapshot_interval = 25;
  screen_stability_length = 0;
  format_message = none;
  ready_for_initial_prompt = none;
  format_tool_call = none;
  persistence = record { state_file = codes "s"; load_state = true; save_state = true };
}

abbrev hello : MessagePartText
hello = record { content = codes "hello"; alias = []; hidden = false }

abbrev new : PtyConversation
new = record {
  stable_snapshots_threshold = 1;
  snapshot_buffer = record {
    items = record { timestamp = 0; screen = [] } ∷ [];
    next_index = 0;
    count = 0;
    size = 1;
  };
  messages = record { id = 0; message = []; role = agent; time = 0 } ∷ [];
  screen_before_last_user_message = [];
  outbound_queue = [];
  sending_message = false;
  writing_message = false;
  stable_signal = false;
  tool_call_message_set = [];
  dirty = false;
  user_sent_message_after_load_state = false;
  load_state_status = pending;
  initial_prompt_ready = false;
  initial_prompt_sent = false;
  initial_prompt = hello ∷ [];
}

new_run : new_pty quick (hello ∷ []) 0 ≡ some new
unfolding new_pty
new_run = refl

-- The first reading: there is no state file.
abbrev reading : Reading
reading = record { screen = codes "hi"; now = 1; files = λ p. none; open_fails = false }

abbrev snapped : PtyConversation
snapped = record new {
  snapshot_buffer = record {
    items = record { timestamp = 1; screen = codes "hi" } ∷ [];
    next_index = 0;
    count = 1;
    size = 1;
  };
  messages = record { id = 0; message = codes "hi"; role = agent; time = 1 } ∷ [];
  dirty = true;
}

snapshot_run : snapshot quick new (codes "hi") 1 ≡ some snapped
unfolding snapshot add update_last_agent_message screen_diff slice split_lines first_index has_line
    text_eq is_blank last_index last_message join_lines last_has_role replace_last
snapshot_run = refl

new-IsValid : IsValid new
new-IsValid = new_pty-IsValid quick (hello ∷ []) 0 new_run

new-IsOrderly : IsOrderly quick new
new-IsOrderly = record {
  quiet = λ u. refl;
  prompted = λ r. cc;
  tried = λ r. cc;
  room = omega arith;
}

tick_total_example :
    (t : Tick) × (tick decode_encoded quick new reading ≡ some t)
    × IsValid t.conversation
    × IsOrderly quick t.conversation
    × (t.messages ≡ snapped.messages)
    × IsAhead new t.conversation
tick_total_example =
    tick_total decode_encoded quick new reading new-IsValid new-IsOrderly snapshot_run

-- The first tick: the agent is ready, there is nothing to load, the initial prompt is queued, and the send
-- loop is called.
abbrev first_tick : Tick
first_tick = record {
  conversation = record snapped {
    load_state_status = failed;
    initial_prompt_ready = true;
    initial_prompt_sent = true;
    outbound_queue = record { parts = hello ∷ []; has_caller = false } ∷ [];
    stable_signal = true;
    sending_message = true;
  };
  load_error = none;
  status = changing;
  messages = snapped.messages;
}

tick_run : tick decode_encoded quick new reading ≡ some first_tick
unfolding tick snapshot add update_last_agent_message screen_diff slice split_lines first_index
    has_line text_eq is_blank last_index status capacity last_message join_lines get_all
    is_screen_stable last_has_role replace_last prompt_step load_step signal_step
tick_run = refl

Reaches-IsSound_example :
    IsSound quick (record { conversation = first_tick.conversation; sender = idle; admitted = 0 })
unfolding started
Reaches-IsSound_example =
    Reaches-IsSound decode_encoded quick (hello ∷ []) 0
      (record { conversation = first_tick.conversation; sender = idle; admitted = 0 }) new_run
      (after (started new)
        (record { conversation = first_tick.conversation; sender = idle; admitted = 0 }) here
        (ticks reading first_tick tick_run))
