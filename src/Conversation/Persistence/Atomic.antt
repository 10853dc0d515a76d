-- ===== src/Conversation/Persistence/Atomic.antt =====
-- lib/screentracker/pty_conversation.go: `SaveState`, for every call on the files that can fail.
use agentapi_plusplus.Conversation.Persistence.{
  AgentState, Files, put, Faults, SaveError, no_directory, no_temp_file, not_encoded, not_synced,
  not_closed, not_renamed, SaveResult, skipped, saved, save_failed, temp_file, agent_state,
  clean_up, save_state,
}
use agentapi_plusplus.Conversation.Messages.{MessagePartText}
use agentapi_plusplus.Conversation.Send.{finish_message}
use agentapi_plusplus.Conversation.State.{PtyConversationConfig, PtyConversation}
use agentapi_plusplus.Prelude.{
  ℕ, ◌≡◌, refl, sym, ap, ◌∙◌, subst, ◌⊎◌, inl, inr, true, false, List, Option, none, some, arith,
  clash, if◌then◌else◌, Bool-cases, length, length-append, Text, text_eq, text_eq_iff, text_eq_refl,
  codes,
}

put_same :
    (files : Files) (path : Text) (content : Option Text) → put files path content path ≡ content
put_same files path content = rw (text_eq_refl path) refl

put_other :
    (files : Files) (path p : Text) (content : Option Text)
    → text_eq p path ≡ false
    → put files path content p ≡ files p
put_other files path p content e = rw e refl

-- The temporary file is another one than the state file.
temp_file-other : (path : Text) → text_eq path (temp_file path) ≡ false
temp_file-other path = elim (Bool-cases (text_eq path (temp_file path))) [
  | inl e ↦
      let same = ap length ((text_eq_iff path (temp_file path)).0 e) in
      absurd (omega (arith, same, length-append path (codes ".tmp")))
  | inr e ↦ e
]

temp_file-other' : (path : Text) → text_eq (temp_file path) path ≡ false
temp_file-other' path = elim (Bool-cases (text_eq (temp_file path) path)) [
  | inl e ↦ absurd (
      clash ((text_eq_iff path (temp_file path)).1 (sym ((text_eq_iff (temp_file path) path).0 e)))
        (temp_file-other path))
  | inr e ↦ e
]

-- The state file after the removal of the temporary one.
clean_up-other :
    (faults : Faults) (files : Files) (path : Text) (content : Option Text)
    → clean_up faults (put files (temp_file path) content) (temp_file path) path ≡ files path
clean_up-other faults files path content = elim (Bool-cases faults.remove_fails) [
  | inl e ↦ rw e (put_other files (temp_file path) path content (temp_file-other path))
  | inr e ↦ rw e (
      put_other (put files (temp_file path) content) (temp_file path) path none
        (temp_file-other path)
      ∙ put_other files (temp_file path) path content (temp_file-other path))
]

-- What a save leaves: nothing is touched if it was skipped; after a failure the state file is as it was;
-- after success it holds the whole encoded state, the temporary file is gone, and the conversation is the
-- same but for `dirty`, which is cleared.
pub data IsSaved (encode : AgentState → Text) (cfg : PtyConversationConfig) (c : PtyConversation)
    (files : Files) : SaveResult → Type 0 where
  untouched :
      (cfg.persistence.save_state ≡ false) ⊎ (c.dirty ≡ false) → IsSaved encode cfg c files skipped
  kept :
      c.dirty ≡ true
      → (e : SaveError) (after : Files)
      → after cfg.persistence.state_file ≡ files cfg.persistence.state_file
      → IsSaved encode cfg c files (save_failed e after)
  replaced :
      c.dirty ≡ true
      → (after : Files) → after cfg.persistence.state_file ≡ some (encode (agent_state c))
      → after (temp_file cfg.persistence.state_file) ≡ none
      → IsSaved encode cfg c files (saved after (record c { dirty = false }))

module _ (encode : AgentState → Text) (cfg : PtyConversationConfig) (c : PtyConversation)
    (files : Files) (dirty : c.dirty ≡ true) where
  abbrev target : Text
  target = cfg.persistence.state_file

  abbrev temp : Text
  temp = temp_file target

  abbrev full : Files
  full = put files temp (some (encode (agent_state c)))

  -- After the file is written.
  abbrev ended : Faults → SaveResult
  ended faults =
      if faults.sync_fails
      then save_failed not_synced (clean_up faults full temp)
      else if faults.close_fails
      then save_failed not_closed (clean_up faults full temp)
      else if faults.rename_fails
      then save_failed not_renamed (clean_up faults full temp)
      else saved (put (put full temp none) target (some (encode (agent_state c))))
          (record c { dirty = false })

  failed-IsSaved :
      (e : SaveError) (faults : Faults) (content : Option Text)
      → IsSaved encode cfg c files (save_failed e (clean_up faults (put files temp content) temp))
  failed-IsSaved e faults content =
      kept dirty e (clean_up faults (put files temp content) temp)
        (clean_up-other faults files target content)

  ended-IsSaved : (faults : Faults) → IsSaved encode cfg c files (ended faults)
  ended-IsSaved faults = elim (Bool-cases faults.sync_fails) [
    | inl e ↦ rw e (failed-IsSaved not_synced faults (some (encode (agent_state c))))
    | inr e ↦ elim (Bool-cases faults.close_fails) [
      | inl e' ↦ rw (e, e') (failed-IsSaved not_closed faults (some (encode (agent_state c))))
      | inr e' ↦ elim (Bool-cases faults.rename_fails) [
        | inl r ↦ rw (e, e', r) (failed-IsSaved not_renamed faults (some (encode (agent_state c))))
        | inr r ↦
            rw (e, e', r)
              (replaced dirty (put (put full temp none) target (some (encode (agent_state c))))
                (put_same (put full temp none) target (some (encode (agent_state c))))
                (put_other (put full temp none) target temp (some (encode (agent_state c)))
                    (temp_file-other' target)
                  ∙ put_same full temp none))
      ]
    ]
  ]

  -- Behind the guards of `SaveState`.
  abbrev attempted : Faults → SaveResult
  attempted faults =
      if faults.mkdir_fails
      then save_failed no_directory files
      else if faults.open_fails
      then save_failed no_temp_file files
      else if faults.encode_fails
      then save_failed not_encoded (clean_up faults (put files temp (some faults.written)) temp)
      else ended faults

  written-IsSaved : (faults : Faults) → IsSaved encode cfg c files (attempted faults)
  written-IsSaved faults = elim (Bool-cases faults.mkdir_fails) [
    | inl e ↦ rw e (kept dirty no_directory files refl)
    | inr e ↦ elim (Bool-cases faults.open_fails) [
      | inl e' ↦ rw (e, e') (kept dirty no_temp_file files refl)
      | inr e' ↦ elim (Bool-cases faults.encode_fails) [
        | inl r ↦ rw (e, e', r) (failed-IsSaved not_encoded faults (some faults.written))
        | inr r ↦ rw (e, e', r) (ended-IsSaved faults)
      ]
    ]
  ]

pub save_state-IsSaved :
    (encode : AgentState → Text) (cfg : PtyConversationConfig) (c : PtyConversation)
    (faults : Faults) (files : Files)
    → IsSaved encode cfg c files (save_state encode cfg c faults files)
unfolding save_state
save_state-IsSaved encode cfg c faults files = elim (Bool-cases cfg.persistence.save_state) [
  | inr off ↦
      let same : skipped ≡ save_state encode cfg c faults files = rw off refl in
      subst (IsSaved encode cfg c files) same (untouched (inl off))
  | inl on ↦ elim (Bool-cases c.dirty) [
    | inr clean ↦
        let same : skipped ≡ save_state encode cfg c faults files = rw (on, clean) refl in
        subst (IsSaved encode cfg c files) same (untouched (inr clean))
    | inl dirty ↦
        let same : attempted encode cfg c files dirty faults
            ≡ save_state encode cfg c faults files =
          rw (on, dirty) refl in
        subst (IsSaved encode cfg c files) same (written-IsSaved encode cfg c files dirty faults)
  ]
]

-- A message of the user does not make the state dirty: if the state was saved before, a save that comes
-- after the message is sent, and before a snapshot changes the agent's answer, is skipped.
pub finish_message-unsaved :
    (encode : AgentState → Text) (cfg : PtyConversationConfig) (c : PtyConversation)
    (parts : List MessagePartText) (screen : Text) (now : ℕ) (faults : Faults) (files : Files)
    → c.dirty ≡ false
    → save_state encode cfg (finish_message c parts screen now) faults files ≡ skipped
unfolding save_state finish_message
finish_message-unsaved encode cfg c parts screen now faults files clean =
    elim (Bool-cases cfg.persistence.save_state) [
      | inl on ↦ rw (on, clean) refl
      | inr off ↦ rw off refl
    ]
