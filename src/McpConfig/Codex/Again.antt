-- ===== src/McpConfig/Codex/Again.antt =====
-- lib/mcpconfig/codex.go: `Replace` on what it wrote.
use agentapi_plusplus.McpConfig.Codex.{
  keep_lines, keep_content, start_marker, end_marker, put_servers, replace,
}
use agentapi_plusplus.McpConfig.Codex.Contents.{
  IsContent, keep_content-IsContent, newline-kept, keep_content-before,
}
use agentapi_plusplus.McpConfig.Codex.Kept.{
  keep_lines_section, keep_lines_marker, AreKept, InSection, keep_lines-InSection,
}
use agentapi_plusplus.McpConfig.Codex.Outside.{outside, keep_content-outside}
use agentapi_plusplus.McpConfig.Patterns.{is_header, is_mcp_header, is_marker, skip_space}
use agentapi_plusplus.Prelude.{
  ◌≡◌, ◌⊎◌, refl, sym, ap, ◌∙◌, inl, inr, Bool, true, false, List, [], ◌∷◌, ◌++◌, if◌then◌else◌,
  is_nil, Text, append_assoc, append-nil,
}
use agentapi_plusplus.Strings.{split_lines, trim_left, trim_right, has_prefix}
use agentapi_plusplus.Strings.Newlines.{is_newline, split_lines-newline, trim_newlines-newline}

-- What the encoder writes for some servers: lines that end in a newline, of which the first is the header
-- of a section of servers, and no header is another.
pub record IsEncoded (encoded : Text) : Type 0 where
  pub lines : Text
  pub ended : encoded ≡ lines ++ b'\n' ∷ []
  pub first : Text
  pub others : List Text
  pub split : split_lines lines ≡ first ∷ others
  pub opens : (is_marker first ≡ false) × (is_header first ≡ true) × (is_mcp_header first ≡ true)
  pub stays : InSection others

InSection-end : (ls : List Text) → InSection ls → InSection (ls ++ end_marker ∷ [] ∷ [])
unfolding is_header skip_space trim_left
InSection-end [] h = ((λ e. cc), ((λ e. cc), tt))
InSection-end (l ∷ ls) (h, hs) = (h, InSection-end ls hs)

block_lines : (encoded : Text) → IsEncoded encoded → List Text
block_lines encoded h = start_marker ∷ ((h.first ∷ h.others) ++ end_marker ∷ [] ∷ [])

start_marker-is_marker : is_marker start_marker ≡ true
unfolding is_marker skip_space trim_left has_prefix
start_marker-is_marker = refl

block-none :
    (encoded : Text) (h : IsEncoded encoded) (r : Bool)
    → keep_lines false r (block_lines encoded h) ≡ []
unfolding block_lines
block-none encoded h r =
    let rest = h.others ++ end_marker ∷ [] ∷ [] in
    keep_lines_marker false r start_marker (h.first ∷ rest) start_marker-is_marker
    ∙ keep_lines_section r h.first rest h.opens.0 false h.opens.1 h.opens.2
    ∙ keep_lines-InSection false rest (InSection-end h.others h.stays)

regroup :
    (p s l d : Text)
    → (p ++ b'\n' ∷ (s ++ b'\n' ∷ ((l ++ b'\n' ∷ []) ++ d))) ++ b'\n' ∷ []
      ≡ p ++ b'\n' ∷ (s ++ b'\n' ∷ (l ++ b'\n' ∷ (d ++ b'\n' ∷ [])))
regroup p s l d = simp append_assoc

split-four :
    (p s l d : Text)
    → split_lines (p ++ b'\n' ∷ (s ++ b'\n' ∷ (l ++ b'\n' ∷ (d ++ b'\n' ∷ []))))
      ≡ split_lines p ++ (split_lines s ++ (split_lines l ++ (split_lines d ++ split_lines [])))
split-four p s l d =
    rw
      (
        split_lines-newline p (s ++ b'\n' ∷ (l ++ b'\n' ∷ (d ++ b'\n' ∷ []))),
        split_lines-newline s (l ++ b'\n' ∷ (d ++ b'\n' ∷ [])),
        split_lines-newline l (d ++ b'\n' ∷ []),
        split_lines-newline d [],
      )
      refl

start_marker_line : split_lines start_marker ≡ start_marker ∷ []
unfolding split_lines
start_marker_line = refl

end_marker_lines : split_lines end_marker ++ split_lines [] ≡ end_marker ∷ [] ∷ []
unfolding split_lines
end_marker_lines = refl

split-block :
    (encoded p : Text) (h : IsEncoded encoded)
    → split_lines ((p ++ b'\n' ∷ (start_marker ++ b'\n' ∷ (encoded ++ end_marker))) ++ b'\n' ∷ [])
      ≡ split_lines p ++ block_lines encoded h
unfolding block_lines
split-block encoded p h =
    ap (λ e. split_lines ((p ++ b'\n' ∷ (start_marker ++ b'\n' ∷ (e ++ end_marker))) ++ b'\n' ∷ []))
      h.ended
    ∙ ap split_lines (regroup p start_marker h.lines end_marker)
    ∙ split-four p start_marker h.lines end_marker
    ∙ ap
        (λ ls.
          split_lines p
          ++ (ls ++ (split_lines h.lines ++ (split_lines end_marker ++ split_lines []))))
        start_marker_line
    ∙ ap (λ ls. split_lines p ++ start_marker ∷ (ls ++ (split_lines end_marker ++ split_lines [])))
        h.split
    ∙ ap (λ ls. split_lines p ++ start_marker ∷ ((h.first ∷ h.others) ++ ls)) end_marker_lines

is_nil-encoded : (encoded : Text) → IsEncoded encoded → is_nil encoded ≡ false
is_nil-encoded encoded h = rw h.ended (ends h.lines)
  where
    ends : (l : Text) → is_nil (l ++ b'\n' ∷ []) ≡ false
    ends [] = refl
    ends (c ∷ l) = refl

separated-kept :
    (c : Text)
    → AreKept true (split_lines c)
    → AreKept true (split_lines (if is_nil c then c else c ++ b'\n' ∷ []))
separated-kept [] k = k
separated-kept (x ∷ c) k = newline-kept (x ∷ c) k

separated-trim :
    (c : Text)
    → trim_right is_newline (if is_nil c then c else c ++ b'\n' ∷ []) ≡ trim_right is_newline c
separated-trim [] = refl
separated-trim (x ∷ c) = trim_newlines-newline (x ∷ c)

put_servers-kept :
    (c encoded : Text)
    → IsContent c
    → (encoded ≡ []) ⊎ IsEncoded encoded
    → keep_content (put_servers c encoded) ≡ c
unfolding put_servers keep_lines
put_servers-kept c encoded h (inl e) =
    let s = c ++ b'\n' ∷ [] in
    rw e (
      keep_content-before s s [] (newline-kept c h.kept) (sym (append-nil (split_lines s)))
        (λ r. refl)
      ∙ trim_newlines-newline c
      ∙ h.trimmed)
put_servers-kept c encoded h (inr e) =
    let p = if is_nil c then c else c ++ b'\n' ∷ [] in
    rw (is_nil-encoded encoded e) (
      keep_content-before p _ (block_lines encoded e) (separated-kept c h.kept)
        (split-block encoded p e) (block-none encoded e)
      ∙ separated-trim c
      ∙ h.trimmed)

-- `Replace` writes the content outside the sections of servers, with the new servers behind it, and a
-- second `Replace` writes the same as if the first had not been: the servers of the first are gone, and
-- everything outside the sections of servers stays. The second part is so if the first has no servers, or
-- they are encoded as sections of servers only.
pub replace_again :
    (text first second : Text)
    → (first ≡ []) ⊎ IsEncoded first
    → (replace text second ≡ put_servers (outside text) second)
      × (replace (replace text first) second ≡ put_servers (outside text) second)
unfolding replace
replace_again text first second h =
    let written = ap (λ c. put_servers c second) (keep_content-outside text) in
    (
      written,
      ap (λ c. put_servers c second)
            (put_servers-kept (keep_content text) first (keep_content-IsContent text) h)
          ∙ written,
    )
