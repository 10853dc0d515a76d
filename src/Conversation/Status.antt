-- ===== src/Conversation/Status.antt =====
-- lib/screentracker/pty_conversation.go: the status of a conversation, and what callers may read.
-- `none` is a panic of Go: a failed sanity check, or an index out of range.
pub mod Stable
pub mod Buffer
use agentapi_plusplus.Conversation.Messages.{
  ConversationStatus, changing, stable, initializing, ConversationMessage, is_user, last_has_role,
}
use agentapi_plusplus.Conversation.State.{PtyConversation, ScreenSnapshot}
use agentapi_plusplus.Prelude.{
  ℕ, Bool, true, false, not, ◌&&◌, ◌||◌, List, [], ◌∷◌, Option, none, some, ltb, ◌==◌,
  if◌then◌else◌, ◌>>=◌, length, is_nil, last?, Text, text_eq,
}
use agentapi_plusplus.RingBuffer.{get_all, capacity}

-- `snapshots[0].screen == snapshots[i].screen` for every `i`.
unfoldable pub all_show : Text → List ScreenSnapshot → Bool
all_show screen [] = true
all_show screen (s ∷ snapshots) = text_eq screen s.screen && all_show screen snapshots

unfoldable pub are_equal_screens : List ScreenSnapshot → Bool
unfolding all_show
are_equal_screens [] = true
are_equal_screens (s ∷ snapshots) = all_show s.screen snapshots

unfoldable pub is_screen_stable : PtyConversation → Option Bool
unfolding are_equal_screens
is_screen_stable c = do
  snapshots ← get_all c.snapshot_buffer
  some (
      if ltb (length snapshots) c.stable_snapshots_threshold
      then false
      else are_equal_screens snapshots)

-- `statusLocked` behind the sanity checks, on the snapshots and whether the screen is stable.
unfoldable pub status_of : PtyConversation → List ScreenSnapshot → Bool → ConversationStatus
status_of c snapshots screen_stable =
    if last_has_role is_user c.messages
    then changing
    else if not (length snapshots == c.stable_snapshots_threshold)
    then initializing
    else if not screen_stable
    then changing
    else if not c.initial_prompt_ready
    then changing
    else if ltb 0 (length c.outbound_queue) || c.sending_message
    then changing
    else stable

unfoldable pub status : PtyConversation → Option ConversationStatus
unfolding status_of
status c =
    if not (capacity c.snapshot_buffer == c.stable_snapshots_threshold)
    then none
    else if c.stable_snapshots_threshold == 0
    then none
    else (get_all c.snapshot_buffer >>= λ snapshots.
        (is_screen_stable c >>= λ screen_stable. some (status_of c snapshots screen_stable)))

unfoldable pub clear_messages : PtyConversation → PtyConversation
clear_messages c = record c { messages = [] }

unfoldable pub all_messages : PtyConversation → List ConversationMessage
all_messages c = c.messages

abbrev pub screen_of : Option ScreenSnapshot → Text
screen_of none = []
screen_of (some s) = s.screen

unfoldable pub text : PtyConversation → Option Text
text c = do snapshots ← get_all c.snapshot_buffer; some (screen_of (last? snapshots))
