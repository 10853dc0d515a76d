-- ===== src/Prelude/Search.antt =====
-- The two search loops over the indices of a slice: the first, or the last, item that passes a test.
use Prim.Native.Nat.{ℕ, zero, suc, ◌+◌, ◌<◌}
use mathlib.Core.Path.{◌≡◌, refl}
use mathlib.Core.Logic.{◌⊎◌, inl, inr}
use mathlib.Core.Bool.{Bool, true, false}
use mathlib.Core.List.{List, [], ◌∷◌}
use native.Mathlib.Decide.{dec_lt}
use native.Mathlib.Omega.{arith}
use agentapi_plusplus.Prelude.Lists.{length, get_or}
use agentapi_plusplus.Prelude.Tests.{if◌then◌else◌, Bool-cases}

module _ {ℓ} {A : Type ℓ} (test : A → Bool) where
  -- `for k := range xs { if test(xs[k]) { return i + k } }; return d`
  unfoldable pub first_index : List A → ℕ → ℕ → ℕ
  first_index [] i d = d
  first_index (x ∷ xs) i d = if test x then i else first_index xs (i + 1) d

  -- `for k := n - 1; k >= 0; k-- { if test(xs[k]) { return k + 1 } }; return d`, for `n` at most the
  -- length, so that no index is out of range and `z` is never read.
  unfoldable pub last_index : List A → A → ℕ → ℕ → ℕ
  last_index xs z zero d = d
  last_index xs z (suc k) d = if test (get_or xs k z) then suc k else last_index xs z k d

module _ {ℓ} {A : Type ℓ} (test : A → Bool) (z : A) where
  -- What the first loop finds.
  abbrev pub First : List A → ℕ → ℕ → ℕ → Type 0
  First xs i d r =
      ((r ≡ d) × ((k : ℕ) → k < length xs → test (get_or xs k z) ≡ false))
      ⊎ ((k : ℕ) × (r ≡ i + k)
          × (k < length xs)
          × (test (get_or xs k z) ≡ true)
          × ((j : ℕ) → j < k → test (get_or xs j z) ≡ false))

  before_cons :
      (x : A) (xs : List A) (n : ℕ)
      → test x ≡ false
      → ((k : ℕ) → k < n → test (get_or xs k z) ≡ false)
      → (k : ℕ) → k < suc n
      → test (get_or (x ∷ xs) k z) ≡ false
  before_cons x xs n e h zero p = e
  before_cons x xs n e h (suc k) p = h k (omega arith)

  pub first_index-First : (xs : List A) (i d : ℕ) → First xs i d (first_index test xs i d)
  unfolding first_index
  first_index-First [] i d = inl (refl, λ k p. elim p [ ])
  first_index-First (x ∷ xs) i d = elim (Bool-cases (test x)) [
    | inl e ↦ rw e (inr (0, omega arith, omega arith, e, λ j p. elim p [ ]))
    | inr e ↦ rw e (elim (first_index-First xs (i + 1) d) [
      | inl (r, none_left) ↦ inl (r, before_cons x xs (length xs) e none_left)
      | inr (k, r, p, t, earlier) ↦
          inr (suc k, omega arith, omega arith, t, before_cons x xs k e earlier)
    ])
  ]

  -- What the second loop finds.
  abbrev pub Last : List A → ℕ → ℕ → ℕ → Type 0
  Last xs n d r =
      ((r ≡ d) × ((k : ℕ) → k < n → test (get_or xs k z) ≡ false))
      ⊎ ((k : ℕ) × (r ≡ suc k)
          × (k < n)
          × (test (get_or xs k z) ≡ true)
          × ((j : ℕ) → k < j → j < n → test (get_or xs j z) ≡ false))

  up_to :
      (xs : List A) (n : ℕ)
      → test (get_or xs n z) ≡ false
      → (k : ℕ) → k < suc n
      → (k < n → test (get_or xs k z) ≡ false)
      → test (get_or xs k z) ≡ false
  up_to xs n e k p h = elim (dec_lt k n) [
    | yes q ↦ h q
    | no q ↦ let same : k ≡ n = omega arith in rw same e
  ]

  pub last_index-Last : (xs : List A) (n d : ℕ) → Last xs n d (last_index test xs z n d)
  unfolding last_index
  last_index-Last xs zero d = inl (refl, λ k p. elim p [ ])
  last_index-Last xs (suc n) d = elim (Bool-cases (test (get_or xs n z))) [
    | inl e ↦ rw e (inr (n, refl, omega arith, e, λ j p q. absurd (omega arith)))
    | inr e ↦ rw e (elim (last_index-Last xs n d) [
      | inl (r, none_left) ↦ inl (r, λ k p. up_to xs n e k p (none_left k))
      | inr (k, r, p, t, later) ↦ inr (k, r, omega arith, t, λ j p q. up_to xs n e j q (later j p))
    ])
  ]
