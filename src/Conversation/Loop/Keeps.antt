-- ===== src/Conversation/Loop/Keeps.antt =====
-- lib/screentracker/pty_conversation.go: what a step of a tick touches, and the results of loading a state.
use agentapi_plusplus.Conversation.Loop.{note_load, Reading, load_step}
use agentapi_plusplus.Conversation.Persistence.{
  AgentState, Files, LoadResult, not_wanted, no_state, load_failed, loaded, is_pending,
  load_state_locked, decode_state, restore,
}
use agentapi_plusplus.Conversation.State.{PtyConversationConfig, PtyConversation}
use agentapi_plusplus.Prelude.{
  ◌≡◌, refl, ◌⊎◌, inl, inr, Bool, true, false, ◌&&◌, ◌||◌, not, Option, Bool-cases, Option-cases,
  ◌==◌, Text,
}

-- The fields that say how far the conversation is.
pub record Stays (c c' : PtyConversation) : Type 0 where
  pub threshold : c'.stable_snapshots_threshold ≡ c.stable_snapshots_threshold
  pub buffer : c'.snapshot_buffer ≡ c.snapshot_buffer
  pub queue : c'.outbound_queue ≡ c.outbound_queue
  pub ready : c'.initial_prompt_ready ≡ c.initial_prompt_ready
  pub writing : c'.writing_message ≡ c.writing_message

-- What the conversation is after a load was tried: no load is pending any more.
pub record IsTried (c c' : PtyConversation) : Type 0 where
  pub kept : Stays c c'
  pub tried : is_pending c'.load_state_status ≡ false

abbrev KeepsResult : PtyConversation → LoadResult → Type 0
KeepsResult c not_wanted = Unit {0}
KeepsResult c no_state = Unit {0}
KeepsResult c (load_failed e) = Unit {0}
KeepsResult c (loaded c') = Stays c c'

note_load-IsTried :
    (c : PtyConversation) (r : LoadResult) → KeepsResult c r → IsTried c (note_load c r).0
unfolding note_load
note_load-IsTried c not_wanted h = record {
  kept = record { threshold = refl; buffer = refl; queue = refl; ready = refl; writing = refl };
  tried = refl;
}
note_load-IsTried c no_state h = record {
  kept = record { threshold = refl; buffer = refl; queue = refl; ready = refl; writing = refl };
  tried = refl;
}
note_load-IsTried c (load_failed e) h = record {
  kept = record { threshold = refl; buffer = refl; queue = refl; ready = refl; writing = refl };
  tried = refl;
}
note_load-IsTried c (loaded c') h = record {
  kept = record {
    threshold = h.threshold;
    buffer = h.buffer;
    queue = h.queue;
    ready = h.ready;
    writing = h.writing;
  };
  tried = refl;
}

restore-Stays : (c : PtyConversation) (s : AgentState) → Stays c (restore c s)
unfolding restore
restore-Stays c s = record {
  threshold = refl;
  buffer = refl;
  queue = refl;
  ready = refl;
  writing = refl;
}

module _ (decode : Text → Option AgentState) (cfg : PtyConversationConfig) where
  decode_state-KeepsResult :
      (c : PtyConversation) (content : Text) → KeepsResult c (decode_state decode c content)
  unfolding decode_state
  decode_state-KeepsResult c content = elim (Option-cases (decode content)) [
    | inl e ↦ rw (decode_state, e) tt
    | inr (s, e) ↦ elim (Bool-cases (s.version == 1)) [
      | inl v ↦ rw (decode_state, e) (rw v (restore-Stays c s))
      | inr v ↦ rw (decode_state, e) (rw v tt)
    ]
  ]

  load_state_locked-KeepsResult :
      (c : PtyConversation) (open_fails : Bool) (files : Files)
      → KeepsResult c (load_state_locked decode cfg c open_fails files)
  unfolding load_state_locked
  load_state_locked-KeepsResult c open_fails files =
      elim (Bool-cases (not cfg.persistence.load_state || not (is_pending c.load_state_status))) [
        | inl e ↦ rw e tt
        | inr e ↦ elim (Option-cases (files cfg.persistence.state_file)) [
          | inl n ↦ rw (e, n) tt
          | inr (content, n) ↦ elim (Bool-cases open_fails) [
            | inl f ↦ rw (e, n, f) tt
            | inr f ↦ rw (e, n, f) (decode_state-KeepsResult c content)
          ]
        ]
      ]

  abbrev pub load_test : PtyConversation → Bool
  load_test c =
      c.initial_prompt_ready && is_pending c.load_state_status && cfg.persistence.load_state

  -- A tick tries a load once; else it leaves the conversation as it is.
  pub load_step-cases :
      (c : PtyConversation) (r : Reading)
      → ((load_test c ≡ true) × IsTried c (load_step decode cfg c r).0)
        ⊎ ((load_test c ≡ false) × ((load_step decode cfg c r).0 ≡ c))
  unfolding load_step
  load_step-cases c r = elim (Bool-cases (load_test c)) [
    | inl e ↦ inl (
      e,
      rw e (
          note_load-IsTried c (load_state_locked decode cfg c r.open_fails r.files)
            (load_state_locked-KeepsResult c r.open_fails r.files)),
    )
    | inr e ↦ inr (e, rw e refl)
  ]
