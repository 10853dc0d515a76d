-- ===== src/Conversation/Send/Validation.antt =====
-- lib/screentracker/pty_conversation.go: the checks of `Send`.
use agentapi_plusplus.Conversation.Messages.{
  ConversationStatus, changing, stable, initializing, MessagePartText, ValidationError, whitespace,
  empty, still_changing, build_string_from_message_parts,
}
use agentapi_plusplus.Conversation.Send.{format_message, is_stable, send_error}
use agentapi_plusplus.Conversation.State.{PtyConversation}
use agentapi_plusplus.Conversation.Status.{status_of}
use agentapi_plusplus.Conversation.Status.Stable.{
  IsValid, IsAtRest, settled, status_total, status-stable_iff,
}
use agentapi_plusplus.Msgfmt.Whitespace.{is_white_space, trim_white_space}
use agentapi_plusplus.Prelude.{
  ◌≡◌, ◌≢◌, refl, sym, ap, ◌∙◌, inl, inr, true, false, List, [], ◌∷◌, Option, none, some,
  if◌then◌else◌, Bool-cases, clash, is_nil, append-nil, Text, text_eq, text_eq_iff,
}
use agentapi_plusplus.Strings.Trim.{trim_idem}
use mathlib.Core.Logic.{◌↔◌}

-- The text of a formatted message is the trimmed text: the escape sequences of the paste mode are hidden.
pub format_message-text :
    (message : Text)
    → build_string_from_message_parts (format_message message) ≡ trim_white_space message
unfolding format_message build_string_from_message_parts
format_message-text message = append-nil (trim_white_space message)

pub format_message-trimmed :
    (message : Text)
    → build_string_from_message_parts (format_message message)
      ≡ trim_white_space (build_string_from_message_parts (format_message message))
unfolding trim_white_space
format_message-trimmed message =
    format_message-text message
    ∙ sym (trim_idem is_white_space message)
    ∙ ap trim_white_space (sym (format_message-text message))

text_eq-false : (s t : Text) → s ≢ t → text_eq s t ≡ false
text_eq-false s t h = elim (Bool-cases (text_eq s t)) [
  | inl e ↦ absurd (h ((text_eq_iff s t).0 e))
  | inr e ↦ e
]

is_nil-eq : (s : Text) → is_nil s ≡ true → s ≡ []
is_nil-eq [] h = refl
is_nil-eq (c ∷ s) h = cc

is_stable-eq : (s : ConversationStatus) → is_stable s ≡ true → s ≡ stable
is_stable-eq changing h = cc
is_stable-eq stable h = refl
is_stable-eq initializing h = cc

-- What `Send` returns for a message, by what holds of its text and of the conversation.
pub data IsAnswer (c : PtyConversation) (v : IsValid c) (said : Text)
    : Option ValidationError → Type 0 where
  for_whitespace : said ≢ trim_white_space said → IsAnswer c v said (some whitespace)
  for_empty : said ≡ trim_white_space said → said ≡ [] → IsAnswer c v said (some empty)
  for_changing :
      said ≡ trim_white_space said
      → said ≢ []
      → (IsAtRest c v.snapshots → ⊥)
      → IsAnswer c v said (some still_changing)
  accepted :
      said ≡ trim_white_space said → said ≢ [] → IsAtRest c v.snapshots → IsAnswer c v said none

module _ (c : PtyConversation) (v : IsValid c) (parts : List MessagePartText) where
  abbrev said : Text
  said = build_string_from_message_parts parts

  abbrev verdict : ConversationStatus
  verdict = status_of c v.snapshots (settled c v.snapshots)

  by_status :
      said ≡ trim_white_space said
      → said ≢ []
      → IsAnswer c v said (if is_stable verdict then none else some still_changing)
  by_status trimmed nonempty = elim (Bool-cases (is_stable verdict)) [
    | inl e ↦
        let rests =
          (status-stable_iff c v).0
            (status_total c v ∙ ap (λ x. some x) (is_stable-eq verdict e)) in
        rw e (accepted trimmed nonempty rests)
    | inr e ↦ rw e (
        for_changing trimmed nonempty (λ rests.
          let same : verdict ≡ stable = cc (status_total c v, (status-stable_iff c v).1 rests) in
          clash (ap is_stable same) e))
  ]

  pub send_error-IsAnswer :
      (r : Option ValidationError) × (send_error c parts ≡ some r) × IsAnswer c v said r
  unfolding send_error
  send_error-IsAnswer = elim (Bool-cases (text_eq said (trim_white_space said))) [
    | inr e ↦ (
      some whitespace,
      rw e refl,
      for_whitespace (λ q. clash ((text_eq_iff said (trim_white_space said)).1 q) e),
    )
    | inl e ↦
        let trimmed = (text_eq_iff said (trim_white_space said)).0 e in
        elim (Bool-cases (is_nil said)) [
          | inl n ↦ (some empty, rw (e, n) refl, for_empty trimmed (is_nil-eq said n))
          | inr n ↦ (
            if is_stable verdict then none else some still_changing,
            rw (e, n, status_total c v) refl,
            by_status trimmed (λ q. clash (ap is_nil q) n),
          )
        ]
  ]

acceptance :
    (c : PtyConversation) (v : IsValid c) {said : Text} {r : Option ValidationError}
    → IsAnswer c v said r
    → said ≡ trim_white_space said
    → (r ≡ none) ↔ ((said ≢ []) × IsAtRest c v.snapshots)
acceptance c v (for_whitespace spaced) trimmed = absurd (spaced trimmed)
acceptance c v (for_empty t e) trimmed = (λ h. cc, λ h. absurd (h.0 e))
acceptance c v (for_changing t e busy) trimmed = (λ h. cc, λ h. absurd (busy h.1))
acceptance c v (accepted t e rests) trimmed = (λ h. (e, rests), λ h. refl)

-- On a valid buffer `Send` takes a formatted message exactly if something is left of it after trimming
-- and the conversation is at rest: a formatted message is never refused for its white space.
pub format_message-accepted :
    (c : PtyConversation) (v : IsValid c) (message : Text)
    → (send_error c (format_message message) ≡ some none)
      ↔ ((trim_white_space message ≢ []) × IsAtRest c v.snapshots)
format_message-accepted c v message =
    let parts = format_message message in
    let (r, e, answer) = send_error-IsAnswer c v parts in
    let (takes, given) = acceptance c v answer (format_message-trimmed message) in
    let text = format_message-text message in
    (
      λ h. (let (nonempty, rests) = takes (cc (e, h)) in (λ q. nonempty (text ∙ q), rests)),
      λ h. e ∙ ap (λ x. some x) (given (λ q. h.0 (sym text ∙ q), h.1)),
    )
