-- ===== src/Prelude/Slices.antt =====
-- Go's slice expressions on lists, with the panics of an index out of range.
use Prim.Native.Nat.{ℕ, zero, suc, ◌+◌, ◌-◌, ◌≤◌, ◌<◌}
use mathlib.Core.Path.{◌≡◌, refl, sym, ap, ◌∙◌}
use mathlib.Core.Bool.{◌&&◌}
use mathlib.Core.List.{List, [], ◌∷◌, ◌++◌}
use mathlib.Core.Option.{Option, none, some}
use native.Mathlib.Omega.{arith}
use agentapi_plusplus.Prelude.Lists.{
  length, take, drop, length-append, length-drop, take-length, take-nil,
}
use agentapi_plusplus.Prelude.Tests.{leb, leb-false, le→leb, if◌then◌else◌}

module _ {ℓ} {A : Type ℓ} where
  -- xs[lo:hi], for a slice whose capacity is its length.
  unfoldable pub slice : List A → ℕ → ℕ → Option (List A)
  slice xs lo hi =
      if leb lo hi && leb hi (length xs) then some (take (hi - lo) (drop lo xs)) else none

  pub slice-eq-some :
      (xs : List A) (lo hi : ℕ)
      → lo ≤ hi
      → hi ≤ length xs
      → slice xs lo hi ≡ some (take (hi - lo) (drop lo xs))
  unfolding slice
  slice-eq-some xs lo hi h k = rw (le→leb lo hi h, le→leb hi (length xs) k)

  -- The last `n` items.
  abbrev pub take_last : ℕ → List A → List A
  take_last n xs = drop (length xs - n) xs

  pub drop-append : (n : ℕ) (xs ys : List A) → n ≤ length xs → drop n (xs ++ ys) ≡ drop n xs ++ ys
  drop-append zero xs ys h = refl
  drop-append (suc n) [] ys h = absurd (omega arith)
  drop-append (suc n) (x ∷ xs) ys h = drop-append n xs ys (omega arith)

  pub drop-nil : (n : ℕ) → drop {A = A} n [] ≡ []
  drop-nil zero = refl
  drop-nil (suc n) = refl

  pub drop-drop : (m n : ℕ) (xs : List A) → drop m (drop n xs) ≡ drop (n + m) xs
  drop-drop m zero xs = ap (λ k. drop k xs) (omega arith)
  drop-drop m (suc n) [] = drop-nil m ∙ sym (drop-nil (suc n + m))
  drop-drop m (suc n) (x ∷ xs) =
      drop-drop m n xs ∙ ap (λ k. drop k (x ∷ xs)) {x = suc (n + m)} {y = suc n + m} (omega arith)

  drop-append_over :
      (n : ℕ) (xs ys : List A) → length xs ≤ n → drop n (xs ++ ys) ≡ drop (n - length xs) ys
  drop-append_over n [] ys h = ap (λ k. drop k ys) {x = n} {y = n - 0} (omega arith)
  drop-append_over zero (x ∷ xs) ys h = absurd (omega arith)
  drop-append_over (suc n) (x ∷ xs) ys h =
      drop-append_over n xs ys (omega arith)
      ∙ ap (λ k. drop k ys) {x = n - length xs} {y = suc n - suc (length xs)} (omega arith)

  -- Cutting to the last `n` and appending is appending, then cutting.
  pub take_last-append :
      (n : ℕ) (xs ys : List A) → take_last n (take_last n xs ++ ys) ≡ take_last n (xs ++ ys)
  take_last-append n xs ys =
      ap (drop (length (take_last n xs ++ ys) - n))
        (sym (drop-append (length xs - n) xs ys (omega arith)))
      ∙ drop-drop (length (take_last n xs ++ ys) - n) (length xs - n) (xs ++ ys)
      ∙ ap (λ k. drop k (xs ++ ys)) {x = length xs - n + (length (take_last n xs ++ ys) - n)}
          {y = length (xs ++ ys) - n}
          (omega (
            arith,
            length-append xs ys,
            length-append (take_last n xs) ys,
            length-drop (length xs - n) xs,
          ))

module _ {ℓ} {A : Type ℓ} where
  -- xs[lo:]
  pub slice_rest :
      (xs : List A) (lo : ℕ) → lo ≤ length xs → slice xs lo (length xs) ≡ some (drop lo xs)
  slice_rest xs lo h =
      slice-eq-some xs lo (length xs) h (omega arith)
      ∙ ap some (take-length (length xs - lo) (drop lo xs) (omega (arith, length-drop lo xs)))

  pub slice-none : (xs : List A) (lo hi : ℕ) → hi < lo → slice xs lo hi ≡ none
  unfolding slice
  slice-none xs lo hi h = rw (leb-false lo hi h)

  -- xs[:hi]
  pub slice_prefix : (xs : List A) (hi : ℕ) → hi ≤ length xs → slice xs 0 hi ≡ some (take hi xs)
  slice_prefix xs hi h =
      slice-eq-some xs 0 hi (omega arith) h
      ∙ ap (λ k. some (take k xs)) {x = hi - 0} {y = hi} (omega arith)

module _ {ℓ} {A : Type ℓ} where
  pub take_add : (m n : ℕ) (xs : List A) → take (m + n) xs ≡ take m xs ++ take n (drop m xs)
  take_add zero n xs = ap (λ k. take k xs) {x = 0 + n} {y = n} (omega arith)
  take_add (suc m) n [] = take-nil (suc m + n) ∙ sym (take-nil n)
  take_add (suc m) n (x ∷ xs) =
      ap (λ k. take k (x ∷ xs)) {x = suc m + n} {y = suc (m + n)} (omega arith)
      ∙ ap (◌∷◌ x) (take_add m n xs)

  pub take-length-take : (n : ℕ) (xs : List A) → take (length (take n xs)) xs ≡ take n xs
  take-length-take zero xs = refl
  take-length-take (suc n) [] = refl
  take-length-take (suc n) (x ∷ xs) = ap (◌∷◌ x) (take-length-take n xs)

  pub take-append : (n : ℕ) (xs ys : List A) → n ≤ length xs → take n (xs ++ ys) ≡ take n xs
  take-append zero xs ys h = refl
  take-append (suc n) [] ys h = absurd (omega arith)
  take-append (suc n) (x ∷ xs) ys h = ap (◌∷◌ x) (take-append n xs ys (omega arith))
