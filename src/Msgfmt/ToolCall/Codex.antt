-- ===== src/Msgfmt/ToolCall/Codex.antt =====
-- lib/msgfmt/format_tool_call.go: the tool calls of Codex.
use native.Mathlib.Decide.{dec_lt}
use agentapi_plusplus.Msgfmt.ToolCall.Ranges.{AreApart, call_of, outside, cut_ranges-apart}
use agentapi_plusplus.Msgfmt.ToolCall.{
  ToolCallRange, Scan, no_scan, is_newline, cut_ranges, skip_blank_lines, remove_spaces,
  codex_start, codex_line, codex_lines, remove_codex_report_task_tool_call,
}
use agentapi_plusplus.Prelude.{
  ℕ, zero, suc, ◌+◌, ◌-◌, ◌≤◌, ◌<◌, ◌≡◌, refl, sym, ap, ◌∙◌, subst, ◌⊎◌, inl, inr, Bool, true,
  false, ◌&&◌, List, [], ◌∷◌, append-nil, some, arith, map, ltb, Bool-cases, Option-cases, and_true,
  clash, length, length-drop, get_or, get_or-drop, drop, is_nil, Text, text_eq, codes,
}
use agentapi_plusplus.Strings.{split_lines, join_lines, contains, trim_right, trim_space, is_blank}

is_nil-eq : {A : Type 0} (s : List A) → is_nil s ≡ true → s ≡ []
is_nil-eq [] h = refl
is_nil-eq (c ∷ s) h = cc

-- Where the last range ends.
abbrev last_stop : List ToolCallRange → ℕ
last_stop [] = 0
last_stop (r ∷ ranges) = r.stop

AreApart-bound :
    (b c : ℕ) (ranges : List ToolCallRange)
    → AreApart b ranges
    → last_stop ranges ≤ c
    → AreApart c ranges
AreApart-bound b c [] a h = tt
AreApart-bound b c (r ∷ ranges) (filled, inside, whole, rest) h = (filled, h, whole, rest)

-- The loop over the blank lines stops at a line with text, or at the end.
skip_blank_lines_lem :
    (xs : List Text) (e : ℕ)
    → (e ≤ skip_blank_lines xs e)
      × (skip_blank_lines xs e ≤ e + length xs)
      × ((j : ℕ) → e + j < skip_blank_lines xs e → is_blank (get_or xs j []) ≡ true)
unfolding skip_blank_lines
skip_blank_lines_lem [] e = (omega arith, omega arith, λ j h. absurd (omega arith))
skip_blank_lines_lem (x ∷ xs) e =
    let (low, high, blank) = skip_blank_lines_lem xs (e + 1) in
    elim (Bool-cases (is_blank x)) [
      | inl b ↦ rw b (omega (arith, low), omega (arith, high), blank_at x xs e b blank)
      | inr t ↦ rw t (omega arith, omega arith, λ j h. absurd (omega arith))
    ]
  where
    blank_at :
        (x : Text) (xs : List Text) (e : ℕ)
        → is_blank x ≡ true
        → ((j : ℕ) → e + 1 + j < skip_blank_lines xs (e + 1) → is_blank (get_or xs j []) ≡ true)
        → (j : ℕ) → e + j < skip_blank_lines xs (e + 1)
        → is_blank (get_or (x ∷ xs) j []) ≡ true
    blank_at x xs e b later zero h = b
    blank_at x xs e b later (suc j) h = later j (omega arith)

-- The state of the scan before line `idx`.
record IsScan (lines : List Text) (idx : ℕ) (s : Scan) : Type 0 where
  apart : AreApart (length lines) s.ranges
  open_call : (st : ℕ) → s.tool_call_start ≡ some st → (last_stop s.ranges ≤ st) × (st ≤ idx)
  blank : (k : ℕ) → idx ≤ k → k < last_stop s.ranges → is_blank (get_or lines k []) ≡ true

-- A blank line starts no call.
blank_starts_none :
    (l : Text)
    → is_blank l ≡ true
    → text_eq (remove_spaces (trim_space l)) (codes "•Called") ≡ false
unfolding is_blank remove_spaces text_eq
blank_starts_none l h = let nothing = is_nil-eq (trim_space l) h in rw nothing refl

-- Whether a call starts at a line.
abbrev starts_call : List Text → ℕ → Bool
starts_call lines idx =
    ltb (idx + 1) (length lines)
    && text_eq (remove_spaces (trim_space (get_or lines idx []))) (codes "•Called")
    && contains (trim_space (get_or lines (idx + 1) [])) (codes "Coder.coder_report_task")

start_not_blank :
    (lines : List Text) (idx : ℕ)
    → starts_call lines idx ≡ true
    → is_blank (get_or lines idx []) ≡ false
start_not_blank lines idx t =
    let called = text_eq (remove_spaces (trim_space (get_or lines idx []))) (codes "•Called") in
    let (front, task) =
      and_true (ltb (idx + 1) (length lines) && called)
        (contains (trim_space (get_or lines (idx + 1) [])) (codes "Coder.coder_report_task")) t in
    let (more, named) = and_true (ltb (idx + 1) (length lines)) called front in
    elim (Bool-cases (is_blank (get_or lines idx []))) [
      | inl b ↦ absurd (clash named (blank_starts_none (get_or lines idx []) b))
      | inr b ↦ b
    ]

codex_start-after :
    (lines : List Text) (idx : ℕ) (s : Scan) (st : ℕ)
    → IsScan lines idx s
    → codex_start lines idx s.tool_call_start ≡ some st
    → (last_stop s.ranges ≤ st) × (st ≤ idx)
unfolding codex_start
codex_start-after lines idx s st v e = elim (Bool-cases (starts_call lines idx)) [
  | inl t ↦
      let same : idx ≡ st = cc (rw t at e) in
      elim (dec_lt idx (last_stop s.ranges)) [
        | yes q ↦ absurd (clash (v.blank idx (omega arith) q) (start_not_blank lines idx t))
        | no q ↦ (omega (arith, same), omega (arith, same))
      ]
  | inr t ↦ v.open_call st (rw t at e)
]

codex_line-IsScan :
    (lines : List Text) (idx : ℕ) (s : Scan)
    → idx < length lines
    → IsScan lines idx s
    → IsScan lines (idx + 1) (codex_line lines idx s)
unfolding codex_line
codex_line-IsScan lines idx s h v = elim (Option-cases (codex_start lines idx s.tool_call_start)) [
  | inl n ↦
      rw (codex_line, n)
        (record {
          apart = v.apart;
          open_call = λ m q. (let (low, high) = v.open_call m q in (low, omega (arith, high)));
          blank = λ k p q. v.blank k (omega arith) q;
        })
  | inr (st, e) ↦
      let (apart, before) = codex_start-after lines idx s st v e in
      elim (Bool-cases (
        text_eq (trim_space (get_or lines idx []))
          (codes "{\"message\": \"Thanks for reporting!\"}"))) [
            | inl t ↦
                let (low, high, blank) = skip_blank_lines_lem (drop (idx + 1) lines) (idx + 1) in
                let count = length-drop (idx + 1) lines in
                rw (codex_line, e)
                  (rw t (record {
                    apart = (
                      omega (arith, low, before),
                      omega (arith, high, count),
                      refl,
                      AreApart-bound (length lines) st s.ranges v.apart apart,
                    );
                    open_call = λ m q. cc;
                    blank = λ k p q.
                        (let at : idx + 1 + (k - (idx + 1)) ≡ k = omega (arith, p) in
                          ap (λ i. is_blank (get_or lines i [])) (sym at)
                          ∙ ap is_blank (sym (get_or-drop (idx + 1) (k - (idx + 1)) lines []))
                          ∙ blank (k - (idx + 1)) (omega (arith, at, q)));
                  }))
            | inr t ↦
                rw (codex_line, e)
                  (rw t (record {
                    apart = v.apart;
                    open_call = λ m q.
                        (let same : st ≡ m = cc q in
                          (omega (arith, same, apart), omega (arith, same, before)));
                    blank = λ k p q. v.blank k (omega arith) q;
                  }))
          ]
]

codex_lines-IsScan :
    (lines : List Text) (rounds idx : ℕ) (s : Scan)
    → idx + rounds ≡ length lines
    → IsScan lines idx s
    → IsScan lines (length lines) (codex_lines lines rounds idx s)
unfolding codex_lines
codex_lines-IsScan lines zero idx s h v =
    subst (λ n. IsScan lines n s) {x = idx} {y = length lines} (omega arith) v
codex_lines-IsScan lines (suc rounds) idx s h v =
    codex_lines-IsScan lines rounds (idx + 1) (codex_line lines idx s) (omega arith)
      (codex_line-IsScan lines idx s (omega arith) v)

-- The ranges of the report_task calls of a message, last first.
unfoldable pub codex_ranges : Text → List ToolCallRange
codex_ranges msg = (codex_lines (split_lines msg) (length (split_lines msg)) 0 no_scan).ranges

-- The removal of the calls from a message of Codex cannot panic. The ranges of the calls do not overlap;
-- what is left is the join of the lines that are in no range, without the newlines at its end, and the
-- calls that are returned are the texts of the ranges. Without a call only the newlines at the end go.
pub remove_codex_lem :
    (msg : Text)
    → AreApart (length (split_lines msg)) (codex_ranges msg)
      × (((codex_ranges msg ≡ [])
            × (remove_codex_report_task_tool_call msg ≡ some (trim_right is_newline msg, [])))
          ⊎ (remove_codex_report_task_tool_call msg
              ≡ some (
                trim_right is_newline (join_lines (outside (split_lines msg) (codex_ranges msg))),
                map (call_of (split_lines msg)) (codex_ranges msg),
              )))
unfolding codex_ranges remove_codex_report_task_tool_call
remove_codex_lem msg =
    let lines = split_lines msg in
    let scan =
      codex_lines-IsScan lines (length lines) 0 no_scan (omega arith)
        (record { apart = tt; open_call = λ m q. cc; blank = λ k p q. absurd (omega arith) }) in
    let ranges = (codex_lines lines (length lines) 0 no_scan).ranges in
    let cut = cut_ranges-apart lines [] ranges scan.apart in
    let whole : cut_ranges lines ranges ≡ some (outside lines ranges, map (call_of lines) ranges) =
      ap (λ ls. cut_ranges ls ranges) (sym (append-nil lines))
      ∙ cut
      ∙ ap (λ ls. some (ls, map (call_of lines) ranges)) (append-nil (outside lines ranges)) in
    (
      scan.apart,
      elim (Bool-cases (is_nil ranges)) [
        | inl n ↦ inl (is_nil-eq ranges n, rw n refl)
        | inr n ↦ inr (rw (n, whole) refl)
      ],
    )
