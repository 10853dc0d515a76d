-- ===== src/Conversation/Persistence/RoundTrip.antt =====
-- lib/screentracker/pty_conversation.go: `SaveState` and a later `loadStateLocked`. The hypothesis
-- on the JSON package is that the decoder reads what the encoder wrote.
use agentapi_plusplus.Conversation.Messages.{build_string_from_message_parts}
use agentapi_plusplus.Conversation.Persistence.Atomic.{IsSaved, replaced, save_state-IsSaved}
use agentapi_plusplus.Conversation.Persistence.{
  AgentState, Files, Faults, saved, agent_state, save_state, loaded, is_pending, restore,
  decode_state, load_state_locked,
}
use agentapi_plusplus.Conversation.State.{PtyConversationConfig, PtyConversation, pending}
use agentapi_plusplus.Prelude.{
  ◌≡◌, ◌≢◌, refl, sym, ap, ◌∙◌, subst, inl, inr, true, false, List, [], ◌∷◌, append-nil, Option,
  some, Bool-cases, ==_iff, is_nil, Text, text_eq, text_eq_iff,
}

is_nil-eq : {A : Type 0} (xs : List A) → is_nil xs ≡ true → xs ≡ []
is_nil-eq [] h = refl
is_nil-eq (x ∷ xs) h = cc

is_nil-ne : {A : Type 0} (xs : List A) → xs ≢ [] → is_nil xs ≡ false
is_nil-ne [] h = absurd (h refl)
is_nil-ne (x ∷ xs) h = refl

text_eq-ne : (s t : Text) → s ≢ t → text_eq s t ≡ false
text_eq-ne s t h = elim (Bool-cases (text_eq s t)) [
  | inl e ↦ absurd (h ((text_eq_iff s t).0 e))
  | inr e ↦ e
]

saved-file :
    (encode : AgentState → Text) (cfg : PtyConversationConfig) (c : PtyConversation)
    (files after : Files) {c' : PtyConversation}
    → IsSaved encode cfg c files (saved after c')
    → after cfg.persistence.state_file ≡ some (encode (agent_state c))
saved-file encode cfg c files after (replaced dirty after' holds gone) = holds

version_one : (c : PtyConversation) → (agent_state c).version ≡ 1
unfolding agent_state
version_one c = refl

-- The text of the saved prompt.
prompt-text :
    (c : PtyConversation)
    → (agent_state c).initial_prompt ≡ build_string_from_message_parts c.initial_prompt
unfolding agent_state build_string_from_message_parts
prompt-text c = elim (Bool-cases (is_nil c.initial_prompt)) [
  | inl e ↦ rw (e, is_nil-eq c.initial_prompt e) refl
  | inr e ↦ rw e refl
]

-- What a conversation has after it loaded the state of `c`: the messages; without a prompt of its own the
-- text of the saved prompt and whether it was sent; with another one this one, to be sent.
pub record IsRestored (c old new : PtyConversation) : Type 0 where
  pub messages : new.messages ≡ c.messages
  pub clean : new.dirty ≡ false
  pub same_prompt :
      old.initial_prompt ≡ []
      → (build_string_from_message_parts new.initial_prompt
          ≡ build_string_from_message_parts c.initial_prompt)
        × (new.initial_prompt_sent ≡ c.initial_prompt_sent)
  pub other_prompt :
      old.initial_prompt ≢ []
      → build_string_from_message_parts old.initial_prompt
        ≢ build_string_from_message_parts c.initial_prompt
      → (new.initial_prompt ≡ old.initial_prompt) × (new.initial_prompt_sent ≡ false)

restore_prompt :
    (old : PtyConversation) (state : AgentState)
    → old.initial_prompt ≡ []
    → build_string_from_message_parts (restore old state).initial_prompt ≡ state.initial_prompt
unfolding restore build_string_from_message_parts
restore_prompt old state e = elim (Bool-cases (is_nil state.initial_prompt)) [
  | inl n ↦ rw (e, n) (sym (is_nil-eq state.initial_prompt n))
  | inr n ↦ rw (e, n) (append-nil state.initial_prompt)
]

restore-IsRestored : (c old : PtyConversation) → IsRestored c old (restore old (agent_state c))
unfolding restore agent_state
restore-IsRestored c old = record {
  messages = refl;
  clean = refl;
  same_prompt = λ e. (restore_prompt old (agent_state c) e ∙ prompt-text c, rw e refl);
  other_prompt = λ e ne.
      (let own = is_nil-ne old.initial_prompt e in
        let differs =
          text_eq-ne (build_string_from_message_parts old.initial_prompt)
            (agent_state c).initial_prompt (λ q. ne (q ∙ prompt-text c)) in
        (rw own refl, rw (own, differs) refl));
}

module _ (encode : AgentState → Text) (decode : Text → Option AgentState)
    (decodes : (s : AgentState) → decode (encode s) ≡ some s) where
  decoded :
      (old : PtyConversation) (content : Text) (s : AgentState)
      → decode content ≡ some s
      → s.version ≡ 1
      → decode_state decode old content ≡ loaded (restore old s)
  unfolding decode_state
  decoded old content s e v =
      rw (decode_state, e) (let first = (==_iff s.version 1).1 v in rw first refl)

  read_state :
      (cfg : PtyConversationConfig) (old : PtyConversation) (files : Files) {content : Text}
      → cfg.persistence.load_state ≡ true
      → is_pending old.load_state_status ≡ true
      → files cfg.persistence.state_file ≡ some content
      → load_state_locked decode cfg old false files ≡ decode_state decode old content
  unfolding load_state_locked
  read_state cfg old files {content} wanted fresh there = rw (wanted, fresh, there) refl

  -- If the decoder reads what the encoder wrote and a save succeeds, a later conversation that wants to
  -- load the same file, has not tried yet, and can open it, loads the saved messages. Without an initial
  -- prompt of its own it takes over the text of the saved one and whether it was sent; another prompt of
  -- its own is kept, to be sent.
  pub save_then_load :
      (cfg cfg' : PtyConversationConfig) (c old : PtyConversation) (faults : Faults)
      (files after : Files) {c' : PtyConversation}
      → save_state encode cfg c faults files ≡ saved after c'
      → cfg'.persistence.state_file ≡ cfg.persistence.state_file
      → cfg'.persistence.load_state ≡ true
      → old.load_state_status ≡ pending
      → (new : PtyConversation) × (load_state_locked decode cfg' old false after ≡ loaded new)
        × IsRestored c old new
  save_then_load cfg cfg' c old faults files after done file wanted fresh =
      let holds =
        saved-file encode cfg c files after (
          subst (IsSaved encode cfg c files) done (save_state-IsSaved encode cfg c faults files)) in
      (
        restore old (agent_state c),
        read_state cfg' old after wanted (ap is_pending fresh) (ap after file ∙ holds)
            ∙ decoded old (encode (agent_state c)) (agent_state c) (decodes (agent_state c))
                (version_one c),
        restore-IsRestored c old,
      )
