-- ===== src/Msgfmt/Subslice/Correct.antt =====
-- lib/msgfmt/msgfmt.go: the result of `IndexSubslice`.
use native.Mathlib.Decide.{dec_lt}
use mathlib.Core.List.{head-eq_of_cons-eq, tail-eq_of_cons-eq}
use mathlib.Core.Path.{ap₂}
use agentapi_plusplus.Prelude.{
  ℕ, zero, suc, ◌+◌, ◌-◌, ◌≤◌, ◌<◌, ◌≡◌, ◌≢◌, ◌↔◌, refl, ap, Bool, true, inl, inr, List, [], ◌∷◌,
  Option, none, some, arith, Bool-cases, clash, subst, ltb, ltb→lt, length-take, length-drop,
  and_true, drop-none, length, get_elem?, take, drop, drop-eq-cons, Option-cases,
}
use agentapi_plusplus.Msgfmt.Subslice.{matches_at, search_from, index_subslice}

-- `sub` occurs in `s` at `i`.
abbrev pub OccursAt {ℓ} : {T : Type ℓ} → List T → List T → ℕ → Type ℓ
OccursAt s sub i = take (length sub) (drop i s) ≡ sub

module _ {ℓ} {T : Type ℓ} (eq : T → T → Bool) (eq_iff : (a b : T) → (eq a b ≡ true) ↔ (a ≡ b)) where
  matches_at-OccursAt : (s sub : List T) (i : ℕ) → matches_at eq s i sub ≡ true → OccursAt s sub i
  unfolding matches_at
  matches_at-OccursAt s [] i h = refl
  matches_at-OccursAt s (c ∷ sub) i h = elim (Option-cases (get_elem? s i)) [
    | inl e ↦ cc (rw e at h)
    | inr (d, e) ↦
        let (same, rest) = and_true (eq d c) (matches_at eq s (i + 1) sub) (rw e at h) in
        rw (drop-eq-cons s i e)
          (ap₂ ◌∷◌ ((eq_iff d c).0 same) (matches_at-OccursAt s sub (i + 1) rest))
  ]

  OccursAt-matches_at : (s sub : List T) (i : ℕ) → OccursAt s sub i → matches_at eq s i sub ≡ true
  unfolding matches_at
  OccursAt-matches_at s [] i h = refl
  OccursAt-matches_at s (c ∷ sub) i h = elim (Option-cases (get_elem? s i)) [
    | inl e ↦ cc (rw (drop-none s i e) at h)
    | inr (d, e) ↦
        let h' = rw (drop-eq-cons s i e) at h in
        rw (
          e,
          (eq_iff d c).1 (head-eq_of_cons-eq h'),
          OccursAt-matches_at s sub (i + 1) (tail-eq_of_cons-eq h'),
        )
  ]

  -- What the search from `i` finds.
  abbrev Finds : List T → List T → ℕ → ℕ → Option ℕ → Type ℓ
  Finds s sub i rounds none = (j : ℕ) → i ≤ j → j < i + rounds → ¬ OccursAt s sub j
  Finds s sub i rounds (some k) =
      OccursAt s sub k × (i ≤ k) × ((j : ℕ) → i ≤ j → j < k → ¬ OccursAt s sub j)

  Finds-extend :
      (s sub : List T) (i rounds : ℕ) (o : Option ℕ)
      → ¬ OccursAt s sub i
      → Finds s sub (i + 1) rounds o
      → Finds s sub i (suc rounds) o
  Finds-extend s sub i rounds none ne h = λ j p q. elim (dec_lt i j) [
    | yes later ↦ h j (omega arith) (omega arith)
    | no here ↦ let same : j ≡ i = omega arith in rw same ne
  ]
  Finds-extend s sub i rounds (some k) ne (at, p, h) = (
    at,
    omega arith,
    λ j p q. elim (dec_lt i j) [
      | yes later ↦ h j (omega arith) q
      | no here ↦ let same : j ≡ i = omega arith in rw same ne
    ],
  )

  search_from-Finds :
      (s sub : List T) (i rounds : ℕ) → Finds s sub i rounds (search_from eq s sub i rounds)
  unfolding search_from
  search_from-Finds s sub i zero = λ j p q. absurd (omega arith)
  search_from-Finds s sub i (suc rounds) = elim (Bool-cases (matches_at eq s i sub)) [
    | inl e ↦ rw e (matches_at-OccursAt s sub i e, omega arith, λ j p q. absurd (omega arith))
    | inr e ↦ rw e (
        Finds-extend s sub i rounds (search_from eq s sub (i + 1) rounds)
          (λ at. clash (OccursAt-matches_at s sub i at) e) (search_from-Finds s sub (i + 1) rounds))
  ]

  OccursAt-le : (s sub : List T) (j : ℕ) → OccursAt s sub j → length sub ≤ length s - j
  OccursAt-le s sub j at =
      omega (arith, ap length at, length-take (length sub) (drop j s), length-drop j s)

  -- The outer loop covers every place where a nonempty subslice can occur.
  abbrev rounds_of : List T → List T → ℕ
  rounds_of s sub = length s - length sub + 1

  -- A result is a place where the subslice occurs, and the first one.
  pub index_subslice-first :
      (s sub : List T) {k : ℕ}
      → index_subslice eq s sub ≡ some k
      → OccursAt s sub k × ((j : ℕ) → j < k → ¬ OccursAt s sub j)
  unfolding index_subslice
  index_subslice-first s [] {k} e = let zero_k : 0 ≡ k = cc e in (refl, λ j p. absurd (omega arith))
  index_subslice-first s (c ∷ sub) {k} e = elim (Bool-cases (ltb (length s) (length (c ∷ sub)))) [
    | inl short ↦ cc (rw short at e)
    | inr long ↦
        let found =
          subst (Finds s (c ∷ sub) 0 (rounds_of s (c ∷ sub))) (rw long at e)
            (search_from-Finds s (c ∷ sub) 0 (rounds_of s (c ∷ sub))) in
        (found.0, λ j p. found.2 j (omega arith) p)
  ]

  -- The result -1 means that the subslice occurs nowhere.
  index_subslice-none :
      (s sub : List T) → index_subslice eq s sub ≡ none → (j : ℕ) → ¬ OccursAt s sub j
  unfolding index_subslice
  index_subslice-none s [] e j at = cc
  index_subslice-none s (c ∷ sub) e j at = elim (Bool-cases (ltb (length s) (length (c ∷ sub)))) [
    | inl short ↦
        omega (arith, OccursAt-le s (c ∷ sub) j at, ltb→lt (length s) (length (c ∷ sub)) short)
    | inr long ↦
        let found =
          subst (Finds s (c ∷ sub) 0 (rounds_of s (c ∷ sub))) (rw long at e)
            (search_from-Finds s (c ∷ sub) 0 (rounds_of s (c ∷ sub))) in
        found j (omega arith) (omega (arith, OccursAt-le s (c ∷ sub) j at)) at
  ]

  -- An occurrence of a nonempty subslice ends within the slice.
  pub index_subslice-lt :
      (s sub : List T) {k : ℕ} → sub ≢ [] → index_subslice eq s sub ≡ some k → k < length s
  index_subslice-lt s [] ne e = absurd (ne refl)
  index_subslice-lt s (c ∷ sub) {k} ne e =
      omega (arith, OccursAt-le s (c ∷ sub) k (index_subslice-first s (c ∷ sub) e).0)
