-- ===== src/Tests/Saves.antt =====
-- The saved state of lib/screentracker/pty_conversation.go at concrete inputs.
use agentapi_plusplus.Tests.Conversations.{cfg, rested, question, next_screen}
use agentapi_plusplus.Conversation.Persistence.{
  Files, put, Faults, skipped, saved, temp_file, agent_state, save_state, loaded, load_state_locked,
}
use agentapi_plusplus.Conversation.Persistence.RoundTrip.{IsRestored, save_then_load}
use agentapi_plusplus.Tests.Codec.{encode_state, decode_encoded, decode_encoded-encode_state}
use agentapi_plusplus.Conversation.Persistence.Atomic.{finish_message-unsaved}
use agentapi_plusplus.Conversation.Send.{finish_message}
use agentapi_plusplus.Conversation.State.{PtyConversationConfig, PtyConversation}
use agentapi_plusplus.Prelude.{◌≡◌, refl, true, false, [], none, some, codes}

abbrev saving : PtyConversationConfig
saving = record cfg {
  persistence = record { state_file = codes "s"; load_state = true; save_state = true };
}

-- A run in which no call on the files fails.
abbrev no_faults : Faults
no_faults = record {
  mkdir_fails = false;
  open_fails = false;
  encode_fails = false;
  written = [];
  sync_fails = false;
  close_fails = false;
  rename_fails = false;
  remove_fails = false;
}

abbrev no_files : Files
no_files p = none

abbrev rename_fault : Faults
rename_fault = record no_faults { rename_fails = true }

abbrev saved_files : Files
saved_files =
    put
      (put (put no_files (temp_file (codes "s")) (some (encode_state (agent_state rested))))
        (temp_file (codes "s")) none)
      (codes "s") (some (encode_state (agent_state rested)))

save_run :
    save_state encode_state saving rested no_faults no_files
    ≡ saved saved_files (record rested { dirty = false })
unfolding save_state
save_run = refl

-- A conversation that has just started.
abbrev started : PtyConversation
started = record rested { messages = []; initial_prompt_ready = false; dirty = false }

save_then_load_example :
    (new : PtyConversation) × (load_state_locked decode_encoded saving started false saved_files
      ≡ loaded new)
    × IsRestored rested started new
save_then_load_example =
    save_then_load encode_state decode_encoded decode_encoded-encode_state saving saving rested
      started no_faults no_files saved_files save_run refl refl refl

finish_message-unsaved_example :
    save_state encode_state saving
      (finish_message started question next_screen 2)
      no_faults
      no_files
    ≡ skipped
finish_message-unsaved_example =
    finish_message-unsaved encode_state saving started question next_screen 2 no_faults no_files
      refl
