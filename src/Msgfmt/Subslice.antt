-- ===== src/Msgfmt/Subslice.antt =====
-- lib/msgfmt/msgfmt.go: `IndexSubslice`. `none` is the result -1.
pub mod Correct
use agentapi_plusplus.Prelude.{
  ℕ, zero, suc, ◌+◌, ◌-◌, Bool, true, false, ◌&&◌, List, [], ◌∷◌, Option, none, some, ltb,
  if◌then◌else◌, length, get_elem?,
}

-- `eq` is Go's `==` on the comparable type `T`.
module _ {ℓ} {T : Type ℓ} (eq : T → T → Bool) where
  abbrev pub item_is : Option T → T → Bool
  item_is none c = false
  item_is (some d) c = eq d c

  -- The loop over `j`, from `i + j` on: `matched` at its end. Every index is in range, since the outer
  -- loop ends at `len(s) - len(sub)`.
  unfoldable pub matches_at : List T → ℕ → List T → Bool
  matches_at s i [] = true
  matches_at s i (c ∷ sub) = item_is (get_elem? s i) c && matches_at s (i + 1) sub

  -- The loop over `i`, with the rounds left.
  unfoldable pub search_from : List T → List T → ℕ → ℕ → Option ℕ
  search_from s sub i zero = none
  search_from s sub i (suc rounds) =
      if matches_at s i sub then some i else search_from s sub (i + 1) rounds

  unfoldable pub index_subslice : List T → List T → Option ℕ
  unfolding search_from matches_at
  index_subslice s [] = some 0
  index_subslice s (c ∷ sub) =
      if ltb (length s) (length (c ∷ sub))
      then none
      else search_from s (c ∷ sub) 0 (length s - length (c ∷ sub) + 1)
