-- ===== src/Conversation/Loop.antt =====
-- lib/screentracker/pty_conversation.go: the two loops of `Start`. The snapshot loop holds the lock for a
-- whole tick. `none` is a panic of Go, or a send on a full channel, which would block under the lock.
pub mod Keeps
pub mod Orderly
pub mod Prompt
pub mod Progress
pub mod Steps
pub mod Moves
pub mod Sound
use agentapi_plusplus.Conversation.Messages.{ConversationMessage, ConversationStatus}
use agentapi_plusplus.Conversation.Persistence.{
  AgentState, Files, LoadError, not_wanted, no_state, load_failed, loaded, is_pending, LoadResult,
  load_state_locked,
}
use agentapi_plusplus.Conversation.Send.{enqueue}
use agentapi_plusplus.Conversation.Snapshots.{snapshot}
use agentapi_plusplus.Conversation.State.{
  PtyConversationConfig, PtyConversation, OutboundMessage, succeeded, failed,
}
use agentapi_plusplus.Conversation.Status.{is_screen_stable, status}
use agentapi_plusplus.Prelude.{
  ℕ, Bool, true, false, not, ◌&&◌, List, [], ◌∷◌, Option, none, some, ltb, if◌then◌else◌, ◌>>=◌,
  length, is_nil, Text,
}

-- `ReadyForInitialPrompt`; a nil function was replaced by one that is always true.
abbrev pub is_ready : Option (Text → Bool) → Text → Bool
is_ready none screen = true
is_ready (some ready) screen = ready screen

unfoldable pub ready_step : PtyConversationConfig → PtyConversation → Text → PtyConversation
ready_step cfg c screen =
    if not c.initial_prompt_ready && is_ready cfg.ready_for_initial_prompt screen
    then record c { initial_prompt_ready = true }
    else c

-- What the tick makes of a result of `loadStateLocked`: the conversation, and the error that is shown.
unfoldable pub note_load : PtyConversation → LoadResult → PtyConversation × Option LoadError
note_load c not_wanted = (record c { load_state_status = succeeded }, none)
note_load c no_state = (record c { load_state_status = failed }, none)
note_load c (load_failed e) = (record c { load_state_status = failed }, some e)
note_load c (loaded restored) = (record restored { load_state_status = succeeded }, none)

-- What the tick reads of the world: the screen, the time, and the state file.
pub record Reading : Type 0 where
  pub screen : Text
  pub now : ℕ
  pub files : Files
  pub open_fails : Bool

-- What the tick hands to the emitter, in its order, after the error of a load.
pub record Tick : Type 0 where
  pub conversation : PtyConversation
  pub load_error : Option LoadError
  pub status : ConversationStatus
  pub messages : List ConversationMessage

unfoldable pub prompt_step : PtyConversation → Option PtyConversation
unfolding enqueue
prompt_step c =
    if c.initial_prompt_ready && not (is_nil c.initial_prompt) && not c.initial_prompt_sent
    then (enqueue c (record { parts = c.initial_prompt; has_caller = false }) >>= λ c'.
        some (record c' { initial_prompt_sent = true; dirty = true }))
    else some c

unfoldable pub signal_step : PtyConversation → Option PtyConversation
signal_step c =
    if c.initial_prompt_ready && ltb 0 (length c.outbound_queue)
    then (is_screen_stable c >>= λ screen_stable. some (
        if screen_stable && not c.stable_signal
        then record c { stable_signal = true; sending_message = true }
        else c))
    else some c

module _ (decode : Text → Option AgentState) (cfg : PtyConversationConfig) where
  unfoldable pub load_step : PtyConversation → Reading → PtyConversation × Option LoadError
  unfolding note_load load_state_locked
  load_step c r =
      if c.initial_prompt_ready && is_pending c.load_state_status && cfg.persistence.load_state
      then note_load c (load_state_locked decode cfg c r.open_fails r.files)
      else (c, none)

  unfoldable pub tick : PtyConversation → Reading → Option Tick
  unfolding ready_step
  tick c r = do
    snapped ← snapshot cfg c r.screen r.now
    shown_status ← status snapped
    let (restored, load_error) = load_step (ready_step cfg snapped r.screen) r
    prompted ← prompt_step restored
    signalled ← signal_step prompted
    some (record {
      conversation = signalled;
      load_error = load_error;
      status = shown_status;
      messages = snapped.messages;
    })

-- The send loop: `<-stableSignal`.
unfoldable pub take_signal : PtyConversation → Option PtyConversation
take_signal c = if c.stable_signal then some (record c { stable_signal = false }) else none

-- `<-outboundQueue`, which does not wait: `none` is the default branch.
unfoldable pub take_message : PtyConversation → Option (OutboundMessage × PtyConversation)
take_message c = elim c.outbound_queue [
  | [] ↦ none
  | m ∷ queue ↦ some (m, record c { outbound_queue = queue })
]

unfoldable pub end_sending : PtyConversation → PtyConversation
end_sending c = record c { sending_message = false }
