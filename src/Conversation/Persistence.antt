-- ===== src/Conversation/Persistence.antt =====
-- lib/screentracker/pty_conversation.go: `SaveState` and `loadStateLocked`, over the files that they use
-- and the calls on them that fail. The JSON encoder and decoder are parameters.
pub mod Atomic
pub mod RoundTrip
use agentapi_plusplus.Conversation.Messages.{
  ConversationMessage, MessagePartText, build_string_from_message_parts,
}
use agentapi_plusplus.Conversation.State.{
  PtyConversationConfig, PtyConversation, LoadStateStatus, pending, succeeded, failed,
}
use agentapi_plusplus.Prelude.{
  ℕ, Bool, true, false, not, ◌&&◌, ◌||◌, List, [], ◌∷◌, ◌++◌, Option, none, some, ◌==◌,
  if◌then◌else◌, is_nil, Text, text_eq, codes,
}

pub record AgentState : Type 0 where
  pub version : ℕ
  pub messages : List ConversationMessage
  pub initial_prompt : Text
  pub initial_prompt_sent : Bool

-- The content of every path, if there is a file.
abbrev pub Files : Type 0
Files = Text → Option Text

abbrev pub put : Files → Text → Option Text → Files
put files path content p = if text_eq p path then content else files p

-- Which calls fail; `written` is what a failed encoder leaves in the file.
pub record Faults : Type 0 where
  pub mkdir_fails : Bool
  pub open_fails : Bool
  pub encode_fails : Bool
  pub written : Text
  pub sync_fails : Bool
  pub close_fails : Bool
  pub rename_fails : Bool
  pub remove_fails : Bool

pub data SaveError : Type 0 where
  no_directory no_temp_file not_encoded not_synced not_closed not_renamed : SaveError

pub data SaveResult : Type 0 where
  skipped : SaveResult
  saved : Files → PtyConversation → SaveResult
  save_failed : SaveError → Files → SaveResult

abbrev pub temp_file : Text → Text
temp_file state_file = state_file ++ codes ".tmp"

unfoldable pub agent_state : PtyConversation → AgentState
agent_state c = record {
  version = 1;
  messages = c.messages;
  initial_prompt =
      if is_nil c.initial_prompt then [] else build_string_from_message_parts c.initial_prompt;
  initial_prompt_sent = c.initial_prompt_sent;
}

-- The deferred removal of the temporary file.
abbrev pub clean_up : Faults → Files → Text → Files
clean_up faults files temp = if faults.remove_fails then files else put files temp none

module _ (encode : AgentState → Text) where
  unfoldable pub save_state : PtyConversationConfig → PtyConversation → Faults → Files → SaveResult
  unfolding agent_state
  save_state cfg c faults files =
      let target = cfg.persistence.state_file in
      let temp = temp_file target in
      let content = encode (agent_state c) in
      let full = put files temp (some content) in
      if not cfg.persistence.save_state
      then skipped
      else if not c.dirty
      then skipped
      else if faults.mkdir_fails
      then save_failed no_directory files
      else if faults.open_fails
      then save_failed no_temp_file files
      else if faults.encode_fails
      then save_failed not_encoded (clean_up faults (put files temp (some faults.written)) temp)
      else if faults.sync_fails
      then save_failed not_synced (clean_up faults full temp)
      else if faults.close_fails
      then save_failed not_closed (clean_up faults full temp)
      else if faults.rename_fails
      then save_failed not_renamed (clean_up faults full temp)
      else saved (put (put full temp none) target (some content)) (record c { dirty = false })

pub data LoadError : Type 0 where
  not_opened not_decoded wrong_version : LoadError

-- The returned pair: nothing to do, an error that is not shown, one that is, and success.
pub data LoadResult : Type 0 where
  not_wanted : LoadResult
  no_state : LoadResult
  load_failed : LoadError → LoadResult
  loaded : PtyConversation → LoadResult

abbrev pub is_pending : LoadStateStatus → Bool
is_pending pending = true
is_pending _ = false

unfoldable pub restore : PtyConversation → AgentState → PtyConversation
restore c state = record c {
  initial_prompt_sent =
      if not (is_nil c.initial_prompt)
        && not (text_eq (build_string_from_message_parts c.initial_prompt) state.initial_prompt)
      then false
      else state.initial_prompt_sent;
  initial_prompt =
      if is_nil c.initial_prompt && not (is_nil state.initial_prompt)
      then record { content = state.initial_prompt; alias = []; hidden = false } ∷ []
      else c.initial_prompt;
  messages = state.messages;
  dirty = false;
}

module _ (decode : Text → Option AgentState) where
  unfoldable pub decode_state : PtyConversation → Text → LoadResult
  unfolding restore
  decode_state c content = elim (decode content) [
    | none ↦ load_failed not_decoded
    | some state ↦
        if not (state.version == 1) then load_failed wrong_version else loaded (restore c state)
  ]

  -- `open_fails`: whether `os.Open` fails on a file that is there.
  unfoldable pub load_state_locked :
      PtyConversationConfig → PtyConversation → Bool → Files → LoadResult
  unfolding decode_state
  load_state_locked cfg c open_fails files =
      if not cfg.persistence.load_state || not (is_pending c.load_state_status)
      then not_wanted
      else elim (files cfg.persistence.state_file) [
        | none ↦ no_state
        | some content ↦ if open_fails then load_failed not_opened else decode_state c content
      ]
