-- ===== src/Transcript/Claude/Events.antt =====
-- lib/transcript/claude.go: the events of a line.
use agentapi_plusplus.Events.Types.{TimelineEvent}
use agentapi_plusplus.Prelude.{
  ℕ, ◌≡◌, ◌≢◌, refl, ◌⊎◌, inl, inr, Bool, true, false, ◌||◌, List, [], ◌∷◌, ◌++◌, some,
  if◌then◌else◌, Option-cases, arith, is_nil, Text, text_eq, codes,
}
use agentapi_plusplus.Strings.{trim_right, trim_left, trim, is_blank, trim_space}
use agentapi_plusplus.Transcript.Claude.{
  ClaudeEntry, ClaudeContentBlock, ClaudeDecoder, is_claude_command_meta, base_event,
  assistant_block, assistant_blocks, parse_assistant, user_block, user_blocks, user_text,
  parse_user, parse_system, parse_entry, parse_line,
}

-- An event that a base event was filled in to: it says something, or it is about a tool.
pub record IsFilled (base ev : TimelineEvent) : Type 0 where
  pub session : ev.session_id ≡ base.session_id
  pub source : ev.source_id ≡ base.source_id
  pub at : ev.time ≡ base.time
  pub says : (ev.content ≢ []) ⊎ (ev.kind ≡ codes "tool_call") ⊎ (ev.kind ≡ codes "tool_result")

module _ (base : TimelineEvent) where
  abbrev pub AreFilled : List TimelineEvent → Type 0
  AreFilled [] = Unit
  AreFilled (ev ∷ events) = IsFilled base ev × AreFilled events

  AreFilled-append : (a b : List TimelineEvent) → AreFilled a → AreFilled b → AreFilled (a ++ b)
  AreFilled-append [] b h k = k
  AreFilled-append (ev ∷ a) b (h, hs) k = (h, AreFilled-append a b hs k)

  if-AreFilled :
      (test : Bool) (a b : List TimelineEvent)
      → AreFilled a
      → AreFilled b
      → AreFilled (if test then a else b)
  if-AreFilled true a b h k = h
  if-AreFilled false a b h k = k

  unless-AreFilled :
      (skip : Bool) (ev : TimelineEvent)
      → (skip ≡ false → IsFilled base ev)
      → AreFilled (if skip then [] else ev ∷ [])
  unless-AreFilled true ev h = tt
  unless-AreFilled false ev h = (h refl, tt)

  ne-nil : (text : Text) → is_nil text ≡ false → text ≢ []
  ne-nil [] h e = cc
  ne-nil (c ∷ text) h e = cc

  said :
      (kind role content : Text)
      → content ≢ []
      → IsFilled base (record base { kind = kind; role = role; content = content })
  said kind role content h = record { session = refl; source = refl; at = refl; says = inl h }

  blank-ne-nil : (text : Text) → is_blank text ≡ false → text ≢ []
  unfolding is_blank trim_space trim trim_left trim_right
  blank-ne-nil [] h e = cc
  blank-ne-nil (c ∷ text) h e = cc

  said_unless :
      (skip : Bool) (kind role content : Text)
      → AreFilled (
          if is_nil content || skip
          then []
          else record base { kind = kind; role = role; content = content } ∷ [])
  said_unless skip kind role content =
      unless-AreFilled (is_nil content || skip)
        (record base { kind = kind; role = role; content = content })
        (λ e. said kind role content (ne-nil content (ground arith)))

  assistant_block-AreFilled : (b : ClaudeContentBlock) → AreFilled (assistant_block base b)
  unfolding assistant_block
  assistant_block-AreFilled b =
      if-AreFilled (text_eq b.type (codes "thinking")) _ _
        (unless-AreFilled (is_blank b.thinking) _
          (λ e. said (codes "thinking") (codes "assistant") b.thinking (blank-ne-nil b.thinking e)))
        (if-AreFilled (text_eq b.type (codes "text")) _ _
          (unless-AreFilled (is_nil b.text) _
            (λ e. said (codes "text") (codes "assistant") b.text (ne-nil b.text e)))
          (if-AreFilled (text_eq b.type (codes "tool_use")) _ _
            (record { session = refl; source = refl; at = refl; says = inr (inl refl) }, tt) tt))

  assistant_blocks-AreFilled :
      (blocks : List ClaudeContentBlock) → AreFilled (assistant_blocks base blocks)
  unfolding assistant_blocks
  assistant_blocks-AreFilled [] = tt
  assistant_blocks-AreFilled (b ∷ blocks) =
      AreFilled-append (assistant_block base b) (assistant_blocks base blocks)
        (assistant_block-AreFilled b) (assistant_blocks-AreFilled blocks)

  user_block-AreFilled :
      (d : ClaudeDecoder) (b : ClaudeContentBlock) → AreFilled (user_block d base b)
  unfolding user_block
  user_block-AreFilled d b =
      if-AreFilled (text_eq b.type (codes "tool_result")) _ _
        (record { session = refl; source = refl; at = refl; says = inr (inr refl) }, tt)
        (if-AreFilled (text_eq b.type (codes "text")) _ _
          (said_unless (is_claude_command_meta b.text) (codes "text") (codes "user") b.text) tt)

  user_blocks-AreFilled :
      (d : ClaudeDecoder) (blocks : List ClaudeContentBlock) → AreFilled (user_blocks d base blocks)
  unfolding user_blocks
  user_blocks-AreFilled d [] = tt
  user_blocks-AreFilled d (b ∷ blocks) =
      AreFilled-append (user_block d base b) (user_blocks d base blocks) (user_block-AreFilled d b)
        (user_blocks-AreFilled d blocks)

  parse_assistant-AreFilled :
      (d : ClaudeDecoder) (entry : ClaudeEntry) → AreFilled (parse_assistant d entry base)
  unfolding parse_assistant
  parse_assistant-AreFilled d entry = elim (Option-cases (d.message entry.message)) [
    | inl e ↦ rw (e, AreFilled) tt
    | inr (msg, e) ↦
        rw (e, AreFilled)
          (elim (Option-cases (d.blocks msg.content)) [
            | inl f ↦ rw (f, AreFilled) tt
            | inr (blocks, f) ↦ rw (f, AreFilled) (assistant_blocks-AreFilled blocks)
          ])
  ]

  parse_user-AreFilled :
      (d : ClaudeDecoder) (entry : ClaudeEntry) → AreFilled (parse_user d entry base)
  unfolding parse_user user_text
  parse_user-AreFilled d entry = elim (Option-cases (d.message entry.message)) [
    | inl e ↦ rw (e, AreFilled) tt
    | inr (msg, e) ↦
        rw (e, AreFilled)
          (elim (Option-cases (d.string msg.content)) [
            | inr (text, f) ↦
                rw (f, AreFilled)
                  (said_unless (is_claude_command_meta text) (codes "text") (codes "user") text)
            | inl f ↦
                rw (f, AreFilled)
                  (elim (Option-cases (d.blocks msg.content)) [
                    | inl g ↦ rw (g, AreFilled) tt
                    | inr (blocks, g) ↦ rw (g, AreFilled) (user_blocks-AreFilled d blocks)
                  ])
          ])
  ]

  parse_system-AreFilled : (entry : ClaudeEntry) → AreFilled (parse_system entry base)
  unfolding parse_system
  parse_system-AreFilled entry =
      let content = if is_nil entry.content then entry.subtype else entry.content in
      said_unless (is_claude_command_meta content) (codes "system") (codes "system") content

parse_entry-AreFilled :
    (d : ClaudeDecoder) (now : ℕ) (entry : ClaudeEntry)
    → AreFilled (base_event d now entry) (parse_entry d now entry)
unfolding parse_entry
parse_entry-AreFilled d now entry =
    let base = base_event d now entry in
    if-AreFilled base (entry.is_sidechain || entry.is_meta) _ _ tt (
      if-AreFilled base (text_eq entry.type (codes "assistant")) _ _
        (parse_assistant-AreFilled base d entry)
        (if-AreFilled base (text_eq entry.type (codes "user")) _ _
          (parse_user-AreFilled base d entry)
          (if-AreFilled base (text_eq entry.type (codes "system")) _ _
            (parse_system-AreFilled base entry) tt)))

parse_entry_hidden :
    (d : ClaudeDecoder) (now : ℕ) (entry : ClaudeEntry)
    → (entry.is_sidechain || entry.is_meta) ≡ true
    → parse_entry d now entry ≡ []
unfolding parse_entry
parse_entry_hidden d now entry h = rw h refl

parse_line-entry :
    (d : ClaudeDecoder) (now : ℕ) (line : Text) (entry : ClaudeEntry)
    → d.entry line ≡ some entry
    → parse_line d now line ≡ parse_entry d now entry
unfolding parse_line
parse_line-entry d now line entry h = rw (h, parse_line) refl

-- A line that is an entry gives events only if it belongs to the main conversation: none for a side chain
-- or a meta entry. Every event has the entry's session and id, and the entry's time or the clock's where
-- that does not parse; it has a text that is not empty, or is about a tool.
pub parse_line-AreFilled :
    (d : ClaudeDecoder) (now : ℕ) (line : Text) (entry : ClaudeEntry)
    → d.entry line ≡ some entry
    → AreFilled (base_event d now entry) (parse_line d now line)
      × ((entry.is_sidechain || entry.is_meta) ≡ true → parse_line d now line ≡ [])
parse_line-AreFilled d now line entry h =
    rw (parse_line-entry d now line entry h)
      (parse_entry-AreFilled d now entry, parse_entry_hidden d now entry)
