-- ===== src/Msgfmt/Empty/Laws.antt =====
-- lib/msgfmt/msgfmt.go: the result of `trimEmptyLines`.
use agentapi_plusplus.Msgfmt.Empty.{has_text, trim_empty_lines}
use agentapi_plusplus.Prelude.{
  ℕ, zero, suc, ◌+◌, ◌-◌, ◌≤◌, ◌<◌, ◌≡◌, ◌≢◌, refl, sym, ap, ◌∙◌, ◌⊎◌, inl, inr, true, List, [],
  ◌∷◌, some, arith, subst, clash, length, get_or, get_or-drop, take, drop, drop-length, take-nil,
  take-length, length-take, length-drop, slice_rest, slice_prefix, first_index, first_index-First,
  Last, last_index, last_index-Last, Text,
}
use agentapi_plusplus.Strings.Lines.{
  split_lines-join_lines, split_lines-AreLines, AreLines, AreLines-take, AreLines-drop,
}
use agentapi_plusplus.Strings.{split_lines, join_lines, is_blank}

abbrev pub leading : List Text → ℕ
leading lines = first_index has_text lines 0 (length lines)

abbrev pub trailing : List Text → ℕ
trailing rest = last_index has_text rest [] (length rest) 0

-- The lines that `trimEmptyLines` keeps.
abbrev pub kept_lines : List Text → List Text
kept_lines lines = take (trailing (drop (leading lines) lines)) (drop (leading lines) lines)

leading-le : (lines : List Text) → leading lines ≤ length lines
leading-le lines = elim (first_index-First has_text [] lines 0 (length lines)) [
  | inl (e, h) ↦ omega arith
  | inr (k, e, p, t, h) ↦ omega arith
]

trailing-le : (rest : List Text) → trailing rest ≤ length rest
trailing-le rest = elim (last_index-Last has_text [] rest (length rest) 0) [
  | inl (e, h) ↦ omega arith
  | inr (k, e, p, t, h) ↦ omega arith
]

pub trim_empty_lines_lem :
    (message : Text)
    → trim_empty_lines message ≡ some (join_lines (kept_lines (split_lines message)))
unfolding trim_empty_lines
trim_empty_lines_lem message =
    rw
      (slice_rest (split_lines message) (leading (split_lines message))
        (leading-le (split_lines message)))
      (rw
        (slice_prefix (drop (leading (split_lines message)) (split_lines message)) _
          (trailing-le (drop (leading (split_lines message)) (split_lines message))))
        refl)

-- Both ends of a nonempty result have text.
pub record HasTextEnds (ls : List Text) : Type 0 where
  pub first : has_text (get_or ls 0 []) ≡ true
  pub last : has_text (get_or ls (length ls - 1) []) ≡ true

get_or-take : (n i : ℕ) (ls : List Text) → i < n → get_or (take n ls) i [] ≡ get_or ls i []
get_or-take zero i ls h = elim h [ ]
get_or-take (suc n) i [] h = refl
get_or-take (suc n) zero (l ∷ ls) h = refl
get_or-take (suc n) (suc i) (l ∷ ls) h = get_or-take n i ls (omega arith)

module _ (lines : List Text) where
  abbrev rest_of : List Text
  rest_of = drop (leading lines) lines

  ends_of :
      (k : ℕ)
      → leading lines ≡ k
      → k < length lines
      → has_text (get_or lines k []) ≡ true
      → Last has_text [] rest_of (length rest_of) 0 (trailing rest_of)
      → HasTextEnds (take (trailing rest_of) rest_of)
  ends_of k e p t (inl (e', none_left)) =
      absurd
        (clash (first_text k e t) (none_left 0 (omega (arith, length-drop (leading lines) lines))))
    where
      first_text :
          (k : ℕ)
          → leading lines ≡ k
          → has_text (get_or lines k []) ≡ true
          → has_text (get_or rest_of 0 []) ≡ true
      first_text k e t =
          rw (get_or-drop (leading lines) 0 lines [])
            (let at : leading lines + 0 ≡ k = omega arith in rw at t)
  ends_of k e p t (inr (m, e', q, t', later)) = record {
    first =
        rw
          (
            get_or-take (trailing rest_of) 0 rest_of (omega arith),
            get_or-drop (leading lines) 0 lines [],
          )
          (let at : leading lines + 0 ≡ k = omega arith in rw at t);
    last =
        let at : length (take (trailing rest_of) rest_of) - 1 ≡ m =
          omega (arith, length-take (trailing rest_of) rest_of) in
        rw at (rw (get_or-take (trailing rest_of) m rest_of (omega arith)) t');
  }

  kept_lines-HasTextEnds : (kept_lines lines ≡ []) ⊎ HasTextEnds (kept_lines lines)
  kept_lines-HasTextEnds = elim (first_index-First has_text [] lines 0 (length lines)) [
    | inl (e, h) ↦ inl (
        subst (λ ls. take (trailing ls) ls ≡ [])
          (sym (drop-length (leading lines) lines (omega arith))) (take-nil (trailing [])))
    | inr (k, e, p, t, h) ↦
        inr (ends_of k (omega arith) p t (last_index-Last has_text [] rest_of (length rest_of) 0))
  ]

leading-zero : (ls : List Text) → has_text (get_or ls 0 []) ≡ true → leading ls ≡ 0
unfolding first_index
leading-zero [] h = refl
leading-zero (l ∷ ls) h = rw h

trailing-length :
    (ls : List Text) → has_text (get_or ls (length ls - 1) []) ≡ true → trailing ls ≡ length ls
unfolding last_index
trailing-length [] h = refl
trailing-length (l ∷ ls) h =
    let at : suc (length ls) - 1 ≡ length ls = omega arith in rw (rw at at h)

kept_lines-fixed : (ls : List Text) → HasTextEnds ls → kept_lines ls ≡ ls
kept_lines-fixed ls h =
    let z = leading-zero ls h.first in
    rw z (rw (trailing-length ls h.last) (take-length (length ls) ls (omega arith)))

-- The result of `trimEmptyLines` is empty, or it is the join of lines of the message of which the first
-- and the last have text.
pub trim_empty_lines_ends :
    (message : Text)
    → (ls : List Text) × (trim_empty_lines message ≡ some (join_lines ls))
      × ((ls ≡ []) ⊎ HasTextEnds ls)
      × ((n : ℕ) × (m : ℕ) × (ls ≡ take m (drop n (split_lines message))))
trim_empty_lines_ends message =
    let lines = split_lines message in
    (
      kept_lines lines,
      trim_empty_lines_lem message,
      kept_lines-HasTextEnds lines,
      (leading lines, trailing (drop (leading lines) lines), refl),
    )

kept-blank : join_lines (kept_lines (split_lines [])) ≡ []
unfolding split_lines join_lines first_index last_index is_blank
kept-blank = refl

join_lines-nil : join_lines [] ≡ []
unfolding join_lines
join_lines-nil = refl

HasTextEnds-ne-nil : (ls : List Text) → HasTextEnds ls → ls ≢ []
unfolding is_blank
HasTextEnds-ne-nil [] h e = cc h.first
HasTextEnds-ne-nil (l ∷ ls) h e = cc

kept-again :
    (ls : List Text)
    → AreLines ls
    → (ls ≡ []) ⊎ HasTextEnds ls
    → join_lines (kept_lines (split_lines (join_lines ls))) ≡ join_lines ls
kept-again ls a (inl e) = rw e (rw join_lines-nil kept-blank)
kept-again ls a (inr h) =
    rw (split_lines-join_lines ls (HasTextEnds-ne-nil ls h) a, kept_lines-fixed ls h) refl

-- Trimming the empty lines a second time changes nothing.
pub trim_empty_lines_idem :
    (message : Text) {t : Text} → trim_empty_lines message ≡ some t → trim_empty_lines t ≡ some t
trim_empty_lines_idem message {t} e =
    let lines = split_lines message in
    let same : t ≡ join_lines (kept_lines lines) = cc (e, trim_empty_lines_lem message) in
    rw same (
      trim_empty_lines_lem (join_lines (kept_lines lines))
      ∙ ap some (
          kept-again (kept_lines lines)
            (AreLines-take _ _ (AreLines-drop _ lines (split_lines-AreLines message)))
            (kept_lines-HasTextEnds lines)))
