-- ===== src/ScreenDiff/Describes.antt =====
-- lib/screentracker/diff.go: the result of `screenDiff`, in terms of the lines of both screens.
use agentapi_plusplus.ScreenDiff.Trimmed.{
  IsTrimmed, trim_section-IsTrimmed, of_not-false, of_not-true,
}
use agentapi_plusplus.Msgfmt.Agents.{AgentType}
use agentapi_plusplus.Prelude.{
  ℕ, ◌+◌, ◌-◌, ◌≤◌, ◌<◌, ◌≡◌, inl, inr, Bool, true, false, not, List, [], none, some, arith, length,
  get_or, get_or-drop, length-drop, subst, slice_rest, slice-none, drop, First, first_index,
  first_index-First, Text,
}
use agentapi_plusplus.ScreenDiff.{has_line, header_lines, screen_diff}
use agentapi_plusplus.Strings.{split_lines}

-- `result` is what is new in `new_lines` against `old_lines`: the lines from the first new one on,
-- after the header, trimmed.
pub record IsDiff (old_lines new_lines : List Text) (header : ℕ) (result : Text) : Type 0 where
  pub first_new : ℕ
  pub after_header : header ≤ first_new
  pub inside : first_new ≤ length new_lines
  pub known :
      (k : ℕ) → header ≤ k → k < first_new → has_line old_lines (get_or new_lines k []) ≡ true
  pub unknown :
      first_new < length new_lines → has_line old_lines (get_or new_lines first_new []) ≡ false
  pub trimmed_rest : IsTrimmed (drop first_new new_lines) result

module _ (old_lines new_lines : List Text) (header : ℕ) (h : header ≤ length new_lines) where
  abbrev is_new : Text → Bool
  is_new l = not (has_line old_lines l)

  compared_at :
      (k : ℕ) {b : Bool}
      → is_new (get_or (drop header new_lines) k []) ≡ b
      → is_new (get_or new_lines (header + k) []) ≡ b
  compared_at k e = rw (get_or-drop header k new_lines []) at e

  known_at :
      (j : ℕ)
      → header ≤ j
      → is_new (get_or (drop header new_lines) (j - header) []) ≡ false
      → has_line old_lines (get_or new_lines j []) ≡ true
  known_at j p e =
      let back : header + (j - header) ≡ j = omega arith in
      of_not-false _
        (subst (λ i. is_new (get_or new_lines i []) ≡ false) back (compared_at (j - header) e))

  found-IsDiff :
      {r : ℕ} {t : Text}
      → First is_new [] (drop header new_lines) header (length new_lines) r
      → IsTrimmed (drop r new_lines) t
      → IsDiff old_lines new_lines header t
  found-IsDiff {r} (inl (e, all)) w = record {
    first_new = r;
    after_header = omega arith;
    inside = omega arith;
    known = λ k p q. known_at k p (all (k - header) (omega (arith, length-drop header new_lines)));
    unknown = λ p. absurd (omega arith);
    trimmed_rest = w;
  }
  found-IsDiff {r} (inr (k, e, p, t, earlier)) w = record {
    first_new = r;
    after_header = omega arith;
    inside = omega (arith, length-drop header new_lines);
    known = λ j q q'. known_at j q (earlier (j - header) (omega arith));
    unknown = λ q. rw e (of_not-true _ (compared_at k t));
    trimmed_rest = w;
  }

  found_le :
      {r : ℕ}
      → First is_new [] (drop header new_lines) header (length new_lines) r
      → r ≤ length new_lines
  found_le (inl (e, all)) = omega arith
  found_le (inr (k, e, p, t, earlier)) = omega (arith, length-drop header new_lines)

module _ (old_screen new_screen : Text) (agent_type : AgentType) where
  abbrev old_lines_of : List Text
  old_lines_of = split_lines old_screen

  abbrev new_lines_of : List Text
  new_lines_of = split_lines new_screen

  abbrev header_of : ℕ
  header_of = header_lines new_lines_of agent_type

  -- A screen that holds its header gives a result, which is the new part of the screen.
  pub screen_diff-some :
      header_of ≤ length new_lines_of
      → (t : Text) × (screen_diff old_screen new_screen agent_type ≡ some t)
        × IsDiff old_lines_of new_lines_of header_of t
  unfolding screen_diff
  screen_diff-some h =
      let found =
        first_index-First (is_new old_lines_of new_lines_of header_of h) []
          (drop header_of new_lines_of) header_of (length new_lines_of) in
      let le = found_le old_lines_of new_lines_of header_of h found in
      let (t, e, w) = trim_section-IsTrimmed (
        drop
          (first_index (is_new old_lines_of new_lines_of header_of h) (drop header_of new_lines_of)
            header_of (length new_lines_of))
          new_lines_of) in
      (
        t,
        rw (slice_rest new_lines_of header_of h) (rw (slice_rest new_lines_of _ le) e),
        found-IsDiff old_lines_of new_lines_of header_of h found w,
      )

  -- One that does not makes it panic.
  pub screen_diff-none :
      length new_lines_of < header_of → screen_diff old_screen new_screen agent_type ≡ none
  unfolding screen_diff
  screen_diff-none h = rw (slice-none new_lines_of header_of (length new_lines_of) h)
