-- ===== src/Tests/Conversations.antt =====
-- lib/screentracker/pty_conversation.go at concrete inputs.
use agentapi_plusplus.RingBuffer.{capacity, get_all}
use agentapi_plusplus.Conversation.Status.{is_screen_stable}
use agentapi_plusplus.Conversation.Messages.{last_has_role, replace_last}
use agentapi_plusplus.RingBuffer.{add}
use agentapi_plusplus.Conversation.Messages.{
  changing, ConversationMessage, MessagePartText, agent, user, stable, last_message,
  build_string_from_message_parts,
}
use agentapi_plusplus.Conversation.Messages.Lists.{AreNumbered, user_messages}
use agentapi_plusplus.Conversation.Send.{begin_message, finish_message}
use agentapi_plusplus.Conversation.Send.Writing.{snapshot_all, finish_message_lem}
use agentapi_plusplus.Conversation.Snapshots.{update_last_agent_message, snapshot}
use agentapi_plusplus.Conversation.Snapshots.Laws.{IsShown, update_shows}
use agentapi_plusplus.Conversation.Snapshots.Repeated.{repeated_snapshots}
use agentapi_plusplus.Conversation.State.{
  PtyConversationConfig, PtyConversation, ScreenSnapshot, pending,
}
use agentapi_plusplus.Conversation.Status.{status}
use agentapi_plusplus.Conversation.Status.Stable.{IsValid, IsAtRest, status-stable_iff}
use agentapi_plusplus.Msgfmt.Agents.{claude}
use agentapi_plusplus.Prelude.{
  ℕ, zero, suc, ◌<◌, ◌≡◌, ◌↔◌, refl, true, false, List, [], ◌∷◌, ◌++◌, none, some, arith, get_elem?,
  Text, codes, slice, first_index, last_index, text_eq,
}
use agentapi_plusplus.RingBuffer.{slot}
use agentapi_plusplus.ScreenDiff.{screen_diff, has_line}
use agentapi_plusplus.Strings.{split_lines, join_lines, is_blank}

abbrev pub cfg : PtyConversationConfig
cfg = record {
  agent_type = claude;
  snapshot_interval = 25;
  screen_stability_length = 2000;
  format_message = none;
  ready_for_initial_prompt = none;
  format_tool_call = none;
  persistence = record { state_file = []; load_state = false; save_state = false };
}

abbrev shot : ScreenSnapshot
shot = record { timestamp = 1; screen = codes "hi" }

-- A conversation at rest: its buffer holds one screen, which is all it takes.
abbrev pub rested : PtyConversation
rested = record {
  stable_snapshots_threshold = 1;
  snapshot_buffer = record { items = shot ∷ []; next_index = 0; count = 1; size = 1 };
  messages = record { id = 0; message = codes "hi"; role = agent; time = 1 } ∷ [];
  screen_before_last_user_message = [];
  outbound_queue = [];
  sending_message = false;
  writing_message = false;
  stable_signal = false;
  tool_call_message_set = [];
  dirty = true;
  user_sent_message_after_load_state = false;
  load_state_status = pending;
  initial_prompt_ready = true;
  initial_prompt_sent = false;
  initial_prompt = [];
}

pub one_cell :
    (i : ℕ)
    → i < 1
    → get_elem? rested.snapshot_buffer.items (slot rested.snapshot_buffer i)
      ≡ get_elem? (shot ∷ []) i
one_cell zero h = refl
one_cell (suc i) h = absurd (omega arith)

abbrev pub rested-IsValid : IsValid rested
rested-IsValid = record {
  snapshots = shot ∷ [];
  held = record {
    items_len = refl;
    next_in = omega arith;
    counted = refl;
    fits = omega arith;
    cell = one_cell;
  };
  sized = refl;
}

status-stable_iff_example : (status rested ≡ some stable) ↔ IsAtRest rested (shot ∷ [])
status-stable_iff_example = status-stable_iff rested rested-IsValid

abbrev pub question : List MessagePartText
question = record { content = codes "why?"; alias = []; hidden = false } ∷ []

-- The screen that `snapshot` and the updates below read.
abbrev pub next_screen : Text
next_screen = codes "hi\nyou"

abbrev updated : PtyConversation
updated = record rested {
  messages = record { id = 0; message = next_screen; role = agent; time = 2 } ∷ [];
}

update_run : update_last_agent_message cfg rested next_screen 2 ≡ some updated
unfolding update_last_agent_message screen_diff slice split_lines first_index has_line text_eq
    is_blank last_index last_message join_lines last_has_role replace_last
update_run = refl

update_shows_example : IsShown cfg rested next_screen updated
update_shows_example = update_shows cfg rested next_screen 2 update_run

-- The user asked, and the agent answers with what it said before.
abbrev asked : PtyConversation
asked = record rested {
  messages =
      rested.messages ++ record { id = 1; message = codes "why?"; role = user; time = 2 } ∷ [];
}

repeated_run : update_last_agent_message cfg asked (codes "hi") 3 ≡ some asked
unfolding update_last_agent_message screen_diff slice split_lines first_index has_line text_eq
    is_blank last_index last_message join_lines
repeated_run = refl

diff_run : screen_diff [] (codes "hi") claude ≡ some (codes "hi")
unfolding screen_diff slice split_lines first_index has_line text_eq is_blank last_index join_lines
diff_run = refl

abbrev stuck : PtyConversation
stuck = record asked {
  snapshot_buffer = record {
    items = record { timestamp = 3; screen = codes "hi" } ∷ [];
    next_index = 0;
    count = 1;
    size = 1;
  };
}

stuck_run : snapshot_all cfg asked (record { timestamp = 3; screen = codes "hi" } ∷ []) ≡ some stuck
unfolding snapshot_all snapshot add update_last_agent_message screen_diff slice split_lines
    first_index has_line text_eq is_blank last_index last_message join_lines
stuck_run = refl

stuck_status : status stuck ≡ some changing
unfolding status capacity get_all is_screen_stable last_has_role
stuck_status = refl

repeated_snapshots_example : (stuck.messages ≡ asked.messages) × (changing ≡ changing)
unfolding last_message last_has_role
repeated_snapshots_example =
    repeated_snapshots cfg asked (record { timestamp = 3; screen = codes "hi" } ∷ []) refl
      ((codes "hi", diff_run, refl), tt) stuck_run stuck_status

abbrev snapped : PtyConversation
snapped = record updated {
  snapshot_buffer = record {
    items = record { timestamp = 2; screen = next_screen } ∷ [];
    next_index = 0;
    count = 1;
    size = 1;
  };
}

snapshot_run : snapshot cfg rested next_screen 2 ≡ some snapped
unfolding snapshot add update_last_agent_message screen_diff slice split_lines first_index has_line
    text_eq is_blank last_index last_message join_lines last_has_role replace_last
snapshot_run = refl

abbrev begun : PtyConversation
begun = record updated { writing_message = true }

abbrev meanwhile : PtyConversation
meanwhile = record begun {
  snapshot_buffer = record { items = shot ∷ []; next_index = 0; count = 1; size = 1 };
}

begin_run : begin_message cfg rested next_screen 2 ≡ some begun
unfolding begin_message update_last_agent_message screen_diff slice split_lines first_index has_line
    text_eq is_blank last_index last_message join_lines last_has_role replace_last
begin_run = refl

meanwhile_run : snapshot_all cfg begun (shot ∷ []) ≡ some meanwhile
unfolding snapshot_all snapshot add update_last_agent_message
meanwhile_run = refl

abbrev sent : ConversationMessage
sent = record { id = 1; message = codes "why?"; role = user; time = 2 }

finish_message_lem_example :
    ((finish_message meanwhile question next_screen 2).messages ≡ begun.messages ++ sent ∷ [])
    × (user_messages (finish_message meanwhile question next_screen 2).messages
        ≡ user_messages rested.messages ++ sent ∷ [])
    × (AreNumbered 0 begun.messages
        ↔ AreNumbered 0 (finish_message meanwhile question next_screen 2).messages)
unfolding build_string_from_message_parts
finish_message_lem_example =
    finish_message_lem cfg rested question next_screen 2 (shot ∷ []) begin_run meanwhile_run
