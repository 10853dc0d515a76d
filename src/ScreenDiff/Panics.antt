-- ===== src/ScreenDiff/Panics.antt =====
-- lib/screentracker/diff.go: the panic of `screenDiff`, and the screen that did not change.
use native.Mathlib.Decide.{dec_lt}
use agentapi_plusplus.Msgfmt.Agents.{AgentType, is_opencode}
use agentapi_plusplus.Prelude.{
  ℕ, zero, suc, ◌-◌, ◌≤◌, ◌<◌, ◌≡◌, ◌≢◌, ◌↔◌, refl, ap, ◌∙◌, Bool, true, false, List, [], ◌∷◌, none,
  some, arith, length, get_or, drop-length, drop-nil, take-nil, Text, text_eq_refl,
}
use agentapi_plusplus.ScreenDiff.{has_line, header_lines, screen_diff}
use agentapi_plusplus.ScreenDiff.Describes.{IsDiff, screen_diff-some, screen_diff-none}
use agentapi_plusplus.ScreenDiff.Trimmed.{IsTrimmed}
use agentapi_plusplus.Strings.{split_lines, join_lines}
use agentapi_plusplus.Strings.Lines.{split_lines-ne-nil}

header_lines-cases :
    (ls : List Text) (a : AgentType)
    → length ls < header_lines ls a
    → (is_opencode a ≡ true) × (length ls ≡ 2)
unfolding header_lines
header_lines-cases ls a h = ground arith

header_lines_over :
    (ls : List Text) (a : AgentType)
    → is_opencode a ≡ true
    → length ls ≡ 2
    → length ls < header_lines ls a
unfolding header_lines
header_lines_over ls a e h = ground arith

-- `screenDiff` panics exactly on a screen of two lines of an Opencode agent.
pub screen_diff-none_iff :
    (old_screen new_screen : Text) (agent_type : AgentType)
    → (screen_diff old_screen new_screen agent_type ≡ none)
      ↔ ((is_opencode agent_type ≡ true) × (length (split_lines new_screen) ≡ 2))
screen_diff-none_iff old_screen new_screen agent_type = (only, whenever)
  where
    ls : List Text
    ls = split_lines new_screen

    only :
        screen_diff old_screen new_screen agent_type ≡ none
        → (is_opencode agent_type ≡ true) × (length ls ≡ 2)
    only e = elim (dec_lt (length ls) (header_lines ls agent_type)) [
      | yes h ↦ header_lines-cases ls agent_type h
      | no h ↦
          let (t, e', w) = screen_diff-some old_screen new_screen agent_type (omega arith) in cc
    ]

    whenever :
        (is_opencode agent_type ≡ true) × (length ls ≡ 2)
        → screen_diff old_screen new_screen agent_type ≡ none
    whenever (o, two) =
        screen_diff-none old_screen new_screen agent_type (header_lines_over ls agent_type o two)

true-false : {b : Bool} → b ≡ true → b ≡ false → ⊥
true-false p q = cc

has_line-get_or : (ls : List Text) (k : ℕ) → k < length ls → has_line ls (get_or ls k []) ≡ true
unfolding has_line
has_line-get_or [] k h = elim h [ ]
has_line-get_or (l ∷ ls) zero h = rw (text_eq_refl l)
has_line-get_or (l ∷ ls) (suc k) h = ground (arith, has_line-get_or ls k)

nothing_trimmed : {ls : List Text} {t : Text} → ls ≡ [] → IsTrimmed ls t → t ≡ []
unfolding join_lines
nothing_trimmed {ls} {t} e w =
    w.joined ∙ rw (e, drop-nil {A = Text} w.from, take-nil {A = Text} (w.upto - w.from)) refl

fits_header :
    (ls : List Text) (a : AgentType) → ls ≢ [] → length ls ≢ 2 → header_lines ls a ≤ length ls
fits_header ls a ne two = elim (dec_lt (length ls) (header_lines ls a)) [
  | yes h ↦ absurd (two (header_lines-cases ls a h).1)
  | no h ↦ omega arith
]

-- A screen that did not change gives the empty message, unless the diff panics.
screen_diff_unchanged :
    (screen : Text) (agent_type : AgentType)
    → length (split_lines screen) ≢ 2
    → screen_diff screen screen agent_type ≡ some []
screen_diff_unchanged screen agent_type two =
    let ls = split_lines screen in
    let (t, e, w) =
      screen_diff-some screen screen agent_type
        (fits_header ls agent_type (split_lines-ne-nil screen) two) in
    e ∙ ap some (nothing_trimmed (drop-length w.first_new ls (all_known w)) w.trimmed_rest)
  where
    all_known :
        {header : ℕ} {t : Text}
        → (w : IsDiff (split_lines screen) (split_lines screen) header t)
        → length (split_lines screen) ≤ w.first_new
    all_known w = elim (dec_lt w.first_new (length (split_lines screen))) [
      | yes p ↦
          absurd (true-false (has_line-get_or (split_lines screen) w.first_new p) (w.unknown p))
      | no p ↦ omega arith
    ]
