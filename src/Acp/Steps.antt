-- ===== src/Acp/Steps.antt =====
-- x/acpio/acp_conversation.go: the callers of `Send`, the chunks and `ClearMessages` as steps that interleave.
-- Each step holds the lock once, or uses the channel of the signal once.
use agentapi_plusplus.Acp.{
  AcpConversation, Emission, send, admitted, handle_chunk, drain_signal, end_prompt, clear_messages,
}
use agentapi_plusplus.Conversation.Messages.{MessagePartText}
use agentapi_plusplus.Prelude.{ℕ, ◌≡◌, Bool, true, List, [], ◌∷◌, ◌++◌, Text}

-- Where a caller of `Send` that was admitted is: before the stale signal is drained, while the parts are
-- written, while it waits for the last chunk, and before it takes the lock again; the last two know whether
-- a part failed.
pub data Caller : Type 0 where
  began writing : Caller
  waiting ending : Bool → Caller

pub record System : Type 0 where
  pub conversation : AcpConversation
  pub callers : List Caller

pub data Step (s : System) : System → Type 0 where
  sends :
      (parts : List MessagePartText) (now later : ℕ) (c : AcpConversation) (es : List Emission)
      → send s.conversation parts now later ≡ admitted c es
      → Step s (record { conversation = c; callers = began ∷ s.callers })
  drains :
      (pre post : List Caller)
      → s.callers ≡ pre ++ began ∷ post
      → Step s
          (record { conversation = drain_signal s.conversation; callers = pre ++ writing ∷ post })
  writes :
      (pre post : List Caller) (failed : Bool)
      → s.callers ≡ pre ++ writing ∷ post
      → Step s (record s { callers = pre ++ waiting failed ∷ post })
  hears :
      (pre post : List Caller) (failed : Bool)
      → s.callers ≡ pre ++ waiting failed ∷ post
      → s.conversation.chunk_received ≡ true
      → Step s (record {
        conversation = drain_signal s.conversation;
        callers = pre ++ ending failed ∷ post;
      })
  times_out :
      (pre post : List Caller) (failed : Bool)
      → s.callers ≡ pre ++ waiting failed ∷ post
      → Step s (record s { callers = pre ++ ending failed ∷ post })
  ends :
      (pre post : List Caller) (failed : Bool)
      → s.callers ≡ pre ++ ending failed ∷ post
      → Step s
          (record { conversation = (end_prompt s.conversation failed).0; callers = pre ++ post })
  streams :
      (chunk : Text) → Step s (record s { conversation = (handle_chunk s.conversation chunk).0 })
  clears : Step s (record s { conversation = clear_messages s.conversation })

-- What can be reached from a system by any interleaving.
pub data Reaches (s : System) : System → Type 0 where
  here : Reaches s s
  after : (t u : System) → Reaches s t → Step t u → Reaches s u

unfoldable pub started : AcpConversation → System
started c = record { conversation = c; callers = [] }
