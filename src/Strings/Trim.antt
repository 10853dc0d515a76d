-- ===== src/Strings/Trim.antt =====
-- Trimming, of Go's `strings.Trim`.
use agentapi_plusplus.Strings.{trim_left, keep_head, trim_right, trim}
use agentapi_plusplus.Prelude.{
  ℕ, ◌≡◌, refl, ap, ◌∙◌, inl, inr, Bool, true, false, not, [], ◌∷◌, Bool-cases, Text,
}

module _ (cut : ℕ → Bool) where
  -- No character at the start is cut.
  abbrev starts_uncut : Text → Bool
  starts_uncut [] = true
  starts_uncut (c ∷ s) = not (cut c)

  trim_left-uncut : (s : Text) → starts_uncut s ≡ true → trim_left cut s ≡ s
  unfolding trim_left
  trim_left-uncut [] h = refl
  trim_left-uncut (c ∷ s) h = elim (Bool-cases (cut c)) [ inl e ↦ cc | inr e ↦ rw e refl ]

  starts_uncut-trim_left : (s : Text) → starts_uncut (trim_left cut s) ≡ true
  unfolding trim_left
  starts_uncut-trim_left [] = refl
  starts_uncut-trim_left (c ∷ s) = elim (Bool-cases (cut c)) [
    | inl e ↦ rw e (starts_uncut-trim_left s)
    | inr e ↦ rw (e, e) refl
  ]

  keep_head-uncut : (c : ℕ) (s : Text) → cut c ≡ false → starts_uncut (keep_head cut c s) ≡ true
  keep_head-uncut c [] e = rw (e, e) refl
  keep_head-uncut c (d ∷ s) e = rw e refl

  starts_uncut-trim_right :
      (s : Text) → starts_uncut s ≡ true → starts_uncut (trim_right cut s) ≡ true
  unfolding trim_right
  starts_uncut-trim_right [] h = refl
  starts_uncut-trim_right (c ∷ s) h = elim (Bool-cases (cut c)) [
    | inl e ↦ cc
    | inr e ↦ keep_head-uncut c (trim_right cut s) e
  ]

  trim_right-keep_head :
      (c : ℕ) (t : Text)
      → trim_right cut t ≡ t
      → trim_right cut (keep_head cut c t) ≡ keep_head cut c t
  unfolding trim_right
  trim_right-keep_head c [] h = elim (Bool-cases (cut c)) [
    | inl e ↦ rw e refl
    | inr e ↦ rw (e, e) refl
  ]
  trim_right-keep_head c (d ∷ t) h = rw h refl

  pub trim_right_idem : (s : Text) → trim_right cut (trim_right cut s) ≡ trim_right cut s
  unfolding trim_right
  trim_right_idem [] = refl
  trim_right_idem (c ∷ s) = trim_right-keep_head c (trim_right cut s) (trim_right_idem s)

  pub trim_idem : (s : Text) → trim cut (trim cut s) ≡ trim cut s
  unfolding trim
  trim_idem s =
      ap (trim_right cut) (
        trim_left-uncut (trim_right cut (trim_left cut s))
          (starts_uncut-trim_right (trim_left cut s) (starts_uncut-trim_left s)))
      ∙ trim_right_idem (trim_left cut s)
