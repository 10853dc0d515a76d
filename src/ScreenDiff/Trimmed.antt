-- ===== src/ScreenDiff/Trimmed.antt =====
-- lib/screentracker/diff.go: the blank lines that are trimmed off the new part of a screen.
use native.Mathlib.Decide.{dec_lt}
use agentapi_plusplus.Prelude.{
  ℕ, ◌-◌, ◌≤◌, ◌<◌, ◌≡◌, refl, ◌⊎◌, inl, inr, Bool, true, false, not, List, [], Option, none, some,
  arith, length, get_or, slice-eq-some, take, drop, First, Last, first_index, first_index-First,
  last_index, last_index-Last, Text,
}
use agentapi_plusplus.ScreenDiff.{trim_section}
use agentapi_plusplus.Strings.{join_lines, is_blank}

-- `result` is `section` without its blank lines at both ends, joined; a section of blank lines only is
-- kept whole.
pub record IsTrimmed (section : List Text) (result : Text) : Type 0 where
  pub from : ℕ
  pub upto : ℕ
  pub ordered : from ≤ upto
  pub inside : upto ≤ length section
  pub blank_above : (k : ℕ) → k < from → is_blank (get_or section k []) ≡ true
  pub blank_below : (k : ℕ) → upto ≤ k → k < length section → is_blank (get_or section k []) ≡ true
  pub ends :
      ((from ≡ 0)
        × (upto ≡ length section)
        × ((k : ℕ) → k < length section → is_blank (get_or section k []) ≡ true))
      ⊎ ((from < upto)
          × (is_blank (get_or section from []) ≡ false)
          × (is_blank (get_or section (upto - 1) []) ≡ false))
  pub joined : result ≡ join_lines (take (upto - from) (drop from section))

pub of_not-false : (b : Bool) → not b ≡ false → b ≡ true
of_not-false b h = ground arith

pub of_not-true : (b : Bool) → not b ≡ true → b ≡ false
of_not-true b h = ground arith

pub none-some : {o : Option Text} {t : Text} → o ≡ none → o ≡ some t → ⊥
none-some p q = cc

pub same_some : {o : Option Text} {t u : Text} → o ≡ some t → o ≡ some u → t ≡ u
same_some p q = cc

pub clash : {b : Bool} → b ≡ false → b ≡ true → ⊥
clash p q = cc

module _ (section : List Text) where
  abbrev filled : Text → Bool
  filled l = not (is_blank l)

  abbrev start_line : ℕ
  start_line = first_index filled section 0 0

  abbrev end_line : ℕ
  end_line = last_index filled section [] (length section) (length section)

  all_blank :
      ((k : ℕ) → k < length section → filled (get_or section k []) ≡ false)
      → (k : ℕ) → k < length section
      → is_blank (get_or section k []) ≡ true
  all_blank h k p = of_not-false _ (h k p)

  bounds :
      First filled [] section 0 0 start_line
      → Last filled [] section (length section) (length section) end_line
      → (start_line ≤ end_line) × (end_line ≤ length section)
  bounds (inl (r, h)) (inl (r', h')) = omega arith
  bounds (inl (r, h)) (inr (m, r', p, t, later)) = absurd (clash (h m p) t)
  bounds (inr (k, r, p, t, earlier)) (inl (r', h')) = absurd (clash (h' k p) t)
  bounds (inr (k, r, p, t, earlier)) (inr (m, r', q, t', later)) = elim (dec_lt m k) [
    | yes below ↦ absurd (clash (earlier m below) t')
    | no order ↦ omega arith
  ]

  trimmed :
      First filled [] section 0 0 start_line
      → Last filled [] section (length section) (length section) end_line
      → IsTrimmed section (join_lines (take (end_line - start_line) (drop start_line section)))
  trimmed (inl (r, h)) (inl (r', h')) = record {
    from = start_line;
    upto = end_line;
    ordered = omega arith;
    inside = omega arith;
    blank_above = λ k p. absurd (omega arith);
    blank_below = λ k p q. absurd (omega arith);
    ends = inl (r, r', all_blank h);
    joined = refl;
  }
  trimmed (inl (r, h)) (inr (m, r', p, t, later)) = absurd (clash (h m p) t)
  trimmed (inr (k, r, p, t, earlier)) (inl (r', h')) = absurd (clash (h' k p) t)
  trimmed (inr (k, r, p, t, earlier)) (inr (m, r', q, t', later)) = elim (dec_lt m k) [
    | yes below ↦ absurd (clash (earlier m below) t')
    | no order ↦ record {
      from = start_line;
      upto = end_line;
      ordered = omega arith;
      inside = omega arith;
      blank_above = λ j h. of_not-false _ (earlier j (omega arith));
      blank_below = λ j h h'. of_not-false _ (later j (omega arith) h');
      ends = inr (
        omega arith,
        let e : start_line ≡ k = omega arith in rw e (of_not-true _ t),
        let e : end_line - 1 ≡ m = omega arith in rw e (of_not-true _ t'),
      );
      joined = refl;
    }
  ]

  pub trim_section-IsTrimmed : (t : Text) × (trim_section section ≡ some t) × IsTrimmed section t
  unfolding trim_section
  trim_section-IsTrimmed =
      let f = first_index-First filled [] section 0 0 in
      let l = last_index-Last filled [] section (length section) (length section) in
      let (order, inside) = bounds f l in
      (
        join_lines (take (end_line - start_line) (drop start_line section)),
        rw (slice-eq-some section start_line end_line order inside),
        trimmed f l,
      )
