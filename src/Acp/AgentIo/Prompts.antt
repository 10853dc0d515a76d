-- ===== src/Acp/AgentIo/Prompts.antt =====
-- x/acpio/acpio.go: the prompts that the parts of a message make; x/acpio/acp_conversation.go: the loop over
-- the parts in `executePrompt`.
use agentapi_plusplus.Acp.AgentIo.{
  AgentIo, trim_prefix, trim_suffix, paste_start, paste_end, type_and_erase, prompt_text, Written,
  ignored, prompted, aborted, write,
}
use agentapi_plusplus.Conversation.Messages.{MessagePartText}
use agentapi_plusplus.Conversation.Send.{format_paste}
use agentapi_plusplus.Prelude.{
  text_eq, suc, ℕ, ◌≡◌, refl, Bool, true, false, List, [], ◌∷◌, if◌then◌else◌, is_nil, Text,
  byte_length,
}
use agentapi_plusplus.Strings.{has_prefix, has_suffix, trim_space}

-- What the loop did: the state after it, the prompts that were sent, and whether a part failed.
pub record Prompted : Type 0 where
  pub io : AgentIo
  pub prompts : List Text
  pub failed : Bool

module _ (prompt : Text → Bool) (is_done is_io_done : ℕ → Bool) where
  unfoldable pub after_part : Prompted → AgentIo × Written → Prompted
  after_part rest (a, ignored n) = rest
  after_part rest (a, prompted n text) = record rest { prompts = text ∷ rest.prompts }
  after_part rest (a, aborted) = record { io = a; prompts = []; failed = true }
  after_part rest (a, Written.failed text) = record { io = a; prompts = text ∷ []; failed = true }

  -- The parts are written in order until the context of the conversation is done or a write fails. The two
  -- contexts are read once for each part.
  unfoldable pub write_parts : ℕ → AgentIo → List MessagePartText → Prompted
  unfolding after_part write
  write_parts i a [] = record { io = a; prompts = []; failed = false }
  write_parts i a (p ∷ parts) =
      let written = write prompt a (is_io_done i) p.content in
      let rest = write_parts (suc i) written.0 parts in
      if is_done i then record { io = a; prompts = []; failed = true } else after_part rest written

prompt_text_start : prompt_text paste_start ≡ []
unfolding prompt_text trim_prefix trim_suffix has_prefix has_suffix trim_space
prompt_text_start = refl

prompt_text_end : prompt_text paste_end ≡ []
unfolding prompt_text trim_prefix trim_suffix has_prefix has_suffix trim_space text_eq
prompt_text_end = refl

-- A text that `Send` admits and that has none of the sequences that are cut.
pub record IsPlain (message : Text) : Type 0 where
  pub full : is_nil message ≡ false
  pub trimmed : trim_space message ≡ message
  pub starts : has_prefix message paste_start ≡ false
  pub ends : has_suffix message paste_end ≡ false
  pub types : has_prefix message type_and_erase ≡ false

prompt_text-plain : (message : Text) → IsPlain message → prompt_text message ≡ message
unfolding prompt_text trim_prefix trim_suffix
prompt_text-plain message h = rw (h.starts, h.ends, h.types) h.trimmed

write_ignored :
    (prompt : Text → Bool) (a : AgentIo) (done : Bool) (text : Text)
    → prompt_text text ≡ []
    → write prompt a done text ≡ (a, ignored (byte_length text))
unfolding write
write_ignored prompt a done text h = rw h refl

write_plain :
    (prompt : Text → Bool) (a : AgentIo) (message : Text)
    → IsPlain message
    → prompt message ≡ true
    → write prompt a false message
      ≡ (record a { response = [] }, prompted (byte_length message) message)
unfolding write
write_plain prompt a message h k = rw (prompt_text-plain message h, h.full, k) refl

-- The three parts of a pasted message make one prompt: the message itself, without the paste sequences
-- around it. This is so for a message that is not empty or padded and has none of the sequences at its
-- ends that are cut, where no context is done and the agent takes the prompt.
pub format_paste_lem :
    (prompt : Text → Bool) (a : AgentIo) (message : Text)
    → IsPlain message
    → prompt message ≡ true
    → write_parts prompt (λ i. false) (λ i. false) 0 a (format_paste message)
      ≡ record { io = record a { response = [] }; prompts = message ∷ []; failed = false }
unfolding write_parts after_part format_paste
format_paste_lem prompt a message h k =
    rw
      (
        write_ignored prompt a false paste_start prompt_text_start,
        write_plain prompt a message h k,
        write_ignored prompt (record a { response = [] }) false paste_end prompt_text_end,
      )
      refl
