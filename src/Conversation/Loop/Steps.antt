-- ===== src/Conversation/Loop/Steps.antt =====
-- lib/screentracker/pty_conversation.go: the loops of `Start` and the callers as steps that interleave.
-- Each step holds the lock once, or uses a channel once.
use agentapi_plusplus.Conversation.Loop.{
  Reading, Tick, tick, take_signal, take_message, end_sending,
}
use agentapi_plusplus.Conversation.Messages.{MessagePartText}
use agentapi_plusplus.Conversation.Persistence.{AgentState}
use agentapi_plusplus.Conversation.Send.{
  send_error, enqueue, begin_message, fail_message, finish_message,
}
use agentapi_plusplus.Conversation.State.{PtyConversationConfig, PtyConversation, OutboundMessage}
use agentapi_plusplus.Conversation.Status.{clear_messages}
use agentapi_plusplus.Prelude.{ℕ, suc, ◌≡◌, Bool, true, false, List, Option, none, some, Text}

-- Where the send loop is: before the signal, before the message, before and during the write (with the
-- screen and the time from before it), and before it clears `sendingMessage`.
pub data Sender : Type 0 where
  idle signalled : Sender
  holding : OutboundMessage → Sender
  writing : OutboundMessage → Text → ℕ → Sender
  finishing : Sender

abbrev pub is_writing : Sender → Bool
is_writing (writing m screen now) = true
is_writing _ = false

-- `admitted` counts the callers of `Send` that passed the checks and have not put their message in the
-- queue yet.
pub record System : Type 0 where
  pub conversation : PtyConversation
  pub sender : Sender
  pub admitted : ℕ

module _ (decode : Text → Option AgentState) (cfg : PtyConversationConfig) where
  pub data Step (s : System) : System → Type 0 where
    ticks :
        (r : Reading) (t : Tick)
        → tick decode cfg s.conversation r ≡ some t
        → Step s (record s { conversation = t.conversation })
    admits :
        (parts : List MessagePartText)
        → send_error s.conversation parts ≡ some none
        → Step s (record s { admitted = suc s.admitted })
    queues :
        (m : OutboundMessage) (n : ℕ) (c : PtyConversation)
        → s.admitted ≡ suc n
        → enqueue s.conversation m ≡ some c
        → Step s (record s { conversation = c; admitted = n })
    signals :
        (c : PtyConversation)
        → s.sender ≡ idle
        → take_signal s.conversation ≡ some c
        → Step s (record s { conversation = c; sender = signalled })
    takes :
        (m : OutboundMessage) (c : PtyConversation)
        → s.sender ≡ signalled
        → take_message s.conversation ≡ some (m, c)
        → Step s (record s { conversation = c; sender = holding m })
    finds_none :
        s.sender ≡ signalled
        → take_message s.conversation ≡ none
        → Step s (record s { sender = idle })
    begins :
        (m : OutboundMessage) (screen : Text) (now : ℕ) (c : PtyConversation)
        → s.sender ≡ holding m
        → begin_message cfg s.conversation screen now ≡ some c
        → Step s (record s { conversation = c; sender = writing m screen now })
    finishes :
        (m : OutboundMessage) (screen : Text) (now : ℕ)
        → s.sender ≡ writing m screen now
        → Step s (record s {
          conversation = finish_message s.conversation m.parts screen now;
          sender = finishing;
        })
    fails :
        (m : OutboundMessage) (screen : Text) (now : ℕ)
        → s.sender ≡ writing m screen now
        → Step s (record s { conversation = fail_message s.conversation; sender = finishing })
    ends :
        s.sender ≡ finishing
        → Step s (record s { conversation = end_sending s.conversation; sender = idle })
    clears : Step s (record s { conversation = clear_messages s.conversation })

  -- What can be reached from a system by any interleaving.
  pub data Reaches (s : System) : System → Type 0 where
    here : Reaches s s
    after : (t u : System) → Reaches s t → Step t u → Reaches s u

-- A conversation that was started.
unfoldable pub started : PtyConversation → System
started c = record { conversation = c; sender = idle; admitted = 0 }
