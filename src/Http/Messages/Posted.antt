-- ===== src/Http/Messages/Posted.antt =====
-- lib/httpapi/server.go: what POST /message does with a message of the user.
use agentapi_plusplus.Conversation.Messages.{
  ValidationError, empty, still_changing, build_string_from_message_parts,
}
use agentapi_plusplus.Conversation.Send.{format_message, enqueue}
use agentapi_plusplus.Conversation.Send.Validation.{
  IsAnswer, for_whitespace, for_empty, for_changing, accepted, send_error-IsAnswer,
  format_message-text, format_message-trimmed,
}
use agentapi_plusplus.Conversation.State.{PtyConversation, OutboundMessage}
use agentapi_plusplus.Conversation.Status.Stable.{IsValid, IsAtRest}
use agentapi_plusplus.Http.Messages.{
  Posting, queued, refused, Posts, send_checked, create_message, user,
}
use agentapi_plusplus.Msgfmt.Whitespace.{trim_white_space}
use agentapi_plusplus.Prelude.{
  ◌≡◌, ◌≢◌, refl, sym, ap, ◌∙◌, subst, Bool, true, [], ◌∷◌, Option, some, ◌>>=◌, Text,
}

-- What becomes of a message with a content, on a conversation whose queue is empty.
pub data IsPosted (p : Posts) (v : IsValid p.conversation) (content : Text)
    : Option (Posting × Posts) → Type 0 where
  nothing_left : trim_white_space content ≡ [] → IsPosted p v content (some (refused empty, p))
  busy :
      trim_white_space content ≢ []
      → (IsAtRest p.conversation v.snapshots → ⊥)
      → IsPosted p v content (some (refused still_changing, p))
  taken :
      trim_white_space content ≢ []
      → IsAtRest p.conversation v.snapshots
      → (c : PtyConversation)
      → c ≡ record p.conversation {
        outbound_queue = record { parts = format_message content; has_caller = true } ∷ [];
      }
      → build_string_from_message_parts (format_message content) ≡ trim_white_space content
      → IsPosted p v content (some (queued, record p { conversation = c }))

enqueue-room :
    (c : PtyConversation) (m : OutboundMessage)
    → c.outbound_queue ≡ []
    → enqueue c m ≡ some (record c { outbound_queue = m ∷ [] })
unfolding enqueue
enqueue-room c m room = rw room refl

module _ (p : Posts) (v : IsValid p.conversation) (content : Text)
    (room : p.conversation.outbound_queue ≡ []) where
  abbrev said : Text
  said = build_string_from_message_parts (format_message content)

  abbrev queue_up : PtyConversation → Option (Posting × Posts)
  queue_up c = some (queued, record p { conversation = c })

  answered :
      {r : Option ValidationError}
      → IsAnswer p.conversation v said r
      → IsPosted p v content (send_checked p content r)
  unfolding enqueue
  answered (for_whitespace spaced) = absurd (spaced (format_message-trimmed content))
  answered (for_empty t e) = nothing_left (sym (format_message-text content) ∙ e)
  answered (for_changing t e rests) = busy (λ q. e (format_message-text content ∙ q)) rests
  answered (accepted t e rests) =
      subst (IsPosted p v content)
        (sym (ap (λ x. x >>= queue_up) (enqueue-room p.conversation _ room)))
        (taken (λ q. e (format_message-text content ∙ q)) rests _ refl
          (format_message-text content))

  -- A message of the user, on a valid conversation whose queue is empty, is refused as empty if nothing is
  -- left of it after trimming, refused as too early if the conversation is not at rest, and else queued
  -- with exactly the trimmed text; a refusal changes nothing, and there is no other outcome.
  pub create_message_lem :
      (writes : Bool) → IsPosted p v content (create_message user content writes p)
  unfolding create_message
  create_message_lem writes =
      let (r, e, answer) = send_error-IsAnswer p.conversation v (format_message content) in
      subst (IsPosted p v content) (sym (ap (λ x. x >>= send_checked p content) e))
        (answered answer)
