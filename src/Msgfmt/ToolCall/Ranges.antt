-- ===== src/Msgfmt/ToolCall/Ranges.antt =====
-- lib/msgfmt/format_tool_call.go: the removal of ranges of lines.
use agentapi_plusplus.Msgfmt.ToolCall.{ToolCallRange, cut_ranges}
use agentapi_plusplus.Prelude.{
  ℕ, zero, suc, ◌-◌, ◌≤◌, ◌<◌, ◌≡◌, refl, sym, ap, ◌∙◌, subst, false, List, [], ◌∷◌, ◌++◌, some,
  arith, map, length, length-append, length-take, length-drop, take, drop, slice, slice-eq-some,
  slice_rest, slice_prefix, drop-append, take-append-drop, append_assoc, Text,
}
use agentapi_plusplus.Strings.{join_lines}

-- The ranges, last first, end at most at a bound, are not empty, do not overlap, and are whole calls.
abbrev pub AreApart : ℕ → List ToolCallRange → Type 0
AreApart bound [] = Unit {0}
AreApart bound (r ∷ ranges) =
    (r.start < r.stop) × (r.stop ≤ bound) × (r.malformed ≡ false) × AreApart r.start ranges

abbrev pub call_of : List Text → ToolCallRange → Text
call_of lines r = join_lines (take (r.stop - r.start) (drop r.start lines))

-- The lines that are in no range.
unfoldable pub outside : List Text → List ToolCallRange → List Text
outside lines [] = lines
outside lines (r ∷ ranges) = outside (take r.start lines) ranges ++ drop r.stop lines

take-append-within : (n : ℕ) (xs ys : List Text) → n ≤ length xs → take n (xs ++ ys) ≡ take n xs
take-append-within zero xs ys h = refl
take-append-within (suc n) [] ys h = absurd (omega arith)
take-append-within (suc n) (x ∷ xs) ys h =
    ap (λ t. x ∷ t) (take-append-within n xs ys (omega arith))

call_of-append :
    (front back : List Text) (r : ToolCallRange)
    → r.start < r.stop
    → r.stop ≤ length front
    → call_of (front ++ back) r ≡ call_of front r
call_of-append front back r filled inside =
    ap (λ ls. join_lines (take (r.stop - r.start) ls))
      (drop-append r.start front back (omega arith))
    ∙ ap join_lines (
        take-append-within (r.stop - r.start) (drop r.start front) back
          (omega (arith, length-drop r.start front)))

calls-append :
    (front back : List Text) (bound : ℕ) (ranges : List ToolCallRange)
    → AreApart bound ranges
    → bound ≤ length front
    → map (call_of (front ++ back)) ranges ≡ map (call_of front) ranges
calls-append front back bound [] a h = refl
calls-append front back bound (r ∷ ranges) (filled, inside, whole, rest) h =
    rw
      (
        call_of-append front back r filled (omega arith),
        calls-append front back r.start ranges rest (omega arith),
      )
      refl

-- The three slices at a range in front.
slice-call :
    (front back : List Text) (r : ToolCallRange)
    → r.start < r.stop
    → r.stop ≤ length front
    → slice (front ++ back) r.start r.stop
      ≡ some (take (r.stop - r.start) (drop r.start (front ++ back)))
slice-call front back r filled inside =
    slice-eq-some (front ++ back) r.start r.stop (omega arith)
      (omega (arith, length-append front back))

slice-before :
    (front back : List Text) (n : ℕ)
    → n ≤ length front
    → slice (front ++ back) 0 n ≡ some (take n front)
slice-before front back n h =
    slice_prefix (front ++ back) n (omega (arith, length-append front back))
    ∙ ap (λ t. some t) (take-append-within n front back h)

slice-after :
    (front back : List Text) (n : ℕ)
    → n ≤ length front
    → slice (front ++ back) n (length (front ++ back)) ≡ some (drop n front ++ back)
slice-after front back n h =
    slice_rest (front ++ back) n (omega (arith, length-append front back))
    ∙ ap (λ t. some t) (drop-append n front back h)

-- A range before the end of `front` is cut out of `front` whatever comes after.
pub cut_ranges-apart :
    (front back : List Text) (ranges : List ToolCallRange)
    → AreApart (length front) ranges
    → cut_ranges (front ++ back) ranges
      ≡ some (outside front ranges ++ back, map (call_of front) ranges)
unfolding cut_ranges outside
cut_ranges-apart front back [] a = refl
cut_ranges-apart front back (r ∷ ranges) (filled, inside, whole, rest) =
    let before = take r.start front in
    let count : length before ≡ r.start = omega (arith, length-take r.start front) in
    let deeper =
      cut_ranges-apart before (drop r.stop front ++ back) ranges
        (subst (λ n. AreApart n ranges) (sym count) rest) in
    let same : map (call_of front) ranges ≡ map (call_of before) ranges =
      ap (λ ls. map (call_of ls) ranges) (sym (take-append-drop r.start front))
      ∙ calls-append before (drop r.start front) r.start ranges rest (omega (arith, count)) in
    let own = call_of-append front back r filled inside in
    rw
      (
        whole,
        slice-call front back r filled inside,
        slice-before front back r.start (omega arith),
        slice-after front back r.stop inside,
        deeper,
      )
      (λ k.
        some (
          sym (append_assoc (outside before ranges) (drop r.stop front) back) k,
          own k ∷ sym same k,
        ))
