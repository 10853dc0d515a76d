-- ===== src/RingBuffer/Refine.antt =====
-- lib/screentracker/ringbuffer.go: the buffer and the list of its items, oldest first.
use native.Mathlib.Decide.{dec_lt}
use agentapi_plusplus.Prelude.{
  ℕ, ◌-◌, ◌≤◌, ◌<◌, ◌≡◌, refl, ap, ◌∙◌, List, [], ◌∷◌, ◌++◌, Option, some, arith, length, drop,
  length-append, take_last, drop-append, take_last-append, append_assoc, append-nil, lt→ltb,
  ltb-false, length-drop, none, subst, ◌>>=◌,
}
use agentapi_plusplus.RingBuffer.{RingBuffer, new_ring_buffer, add, get_all, capacity}
use agentapi_plusplus.RingBuffer.Cells.{
  Holds, new_ring_buffer-Holds, grown, turned, grown-Holds, turned-Holds, read_from-Holds,
}

module _ {ℓ} {T : Type ℓ} where
  take_last_all : (n : ℕ) (xs : List T) → length xs ≤ n → take_last n xs ≡ xs
  take_last_all n xs h = ap (λ k. drop k xs) {x = length xs - n} {y = 0} (omega arith)

  take_last_full :
      (n : ℕ) (xs : List T) (a : T)
      → length xs ≡ n
      → 0 < n
      → take_last n (xs ++ a ∷ []) ≡ drop 1 xs ++ a ∷ []
  take_last_full n xs a h p =
      ap (λ k. drop k (xs ++ a ∷ [])) {x = length (xs ++ a ∷ []) - n} {y = 1}
        (omega (arith, length-append xs (a ∷ [])))
      ∙ drop-append 1 xs (a ∷ []) (omega arith)

  -- Adding to a buffer that holds `xs` cannot panic; the new buffer holds the last `size` of `xs` and
  -- the new item.
  pub add-Holds :
      (r : RingBuffer T) (xs : List T) (a : T)
      → Holds r xs
      → (r' : RingBuffer T) × (add r a ≡ some r')
        × (r'.size ≡ r.size)
        × Holds r' (take_last r.size (xs ++ a ∷ []))
  unfolding add grown turned
  add-Holds r xs a v = elim (dec_lt r.count r.size) [
    | yes q ↦
        let room : r.count < length r.items = omega (arith, v.items_len) in
        let all =
          take_last_all r.size (xs ++ a ∷ [])
            (omega (arith, length-append xs (a ∷ []), v.counted)) in
        (
          grown r xs a v,
          rw (
            lt→ltb r.next_index (length r.items) (omega (arith, v.items_len, v.next_in)),
            lt→ltb r.count (length r.items) room,
          ),
          refl,
          rw all (grown-Holds r xs a v q),
        )
    | no q ↦
        let full : r.count ≡ r.size = omega (arith, v.fits) in
        let one =
          take_last_full r.size xs a (omega (arith, v.counted)) (omega (arith, v.next_in)) in
        (
          turned r xs a v,
          rw (
            lt→ltb r.next_index (length r.items) (omega (arith, v.items_len, v.next_in)),
            ltb-false r.count (length r.items) (omega (arith, v.items_len)),
          ),
          refl,
          rw one (turned-Holds r xs a v full),
        )
  ]

  -- `GetAll` gives exactly the items held, oldest first.
  pub get_all-Holds : (r : RingBuffer T) (xs : List T) → Holds r xs → get_all r ≡ some xs
  unfolding get_all
  get_all-Holds r xs v = read_from-Holds r xs v r.count 0 (omega (arith, v.counted))

  -- A run of `Add` calls.
  unfoldable pub add_all : RingBuffer T → List T → Option (RingBuffer T)
  add_all r [] = some r
  add_all r (x ∷ xs) = do r' ← add r x; add_all r' xs

  pub add_all-Holds :
      (r : RingBuffer T) (xs ys : List T)
      → Holds r ys
      → length ys ≤ r.size
      → (r' : RingBuffer T) × (add_all r xs ≡ some r')
        × (r'.size ≡ r.size)
        × Holds r' (take_last r.size (ys ++ xs))
  unfolding add_all
  add_all-Holds r [] ys v h = (r, refl, refl, rw (append-nil, take_last_all r.size ys h) v)
  add_all-Holds r (x ∷ xs) ys v h =
      let (r₁, e₁, s₁, v₁) = add-Holds r ys x v in
      let (r₂, e₂, s₂, v₂) =
        add_all-Holds r₁ xs (take_last r.size (ys ++ x ∷ [])) v₁
          (omega (arith, length-drop (length (ys ++ x ∷ []) - r.size) (ys ++ x ∷ []), s₁)) in
      (
        r₂,
        rw e₁ e₂,
        s₂ ∙ s₁,
        subst (λ zs. Holds r₂ zs)
            (ap (λ n. take_last n (take_last r.size (ys ++ x ∷ []) ++ xs)) s₁
              ∙ take_last-append r.size (ys ++ x ∷ []) xs
              ∙ ap (take_last r.size) (append_assoc ys (x ∷ []) xs))
            v₂,
      )

  -- A new buffer of a positive size takes any items without a panic, keeps its capacity, and then
  -- holds the last `size` of them: `GetAll` gives these, oldest first.
  pub get_all-add_all :
      (z : T) (size : ℕ) (xs : List T)
      → 0 < size
      → (r : RingBuffer T) × (add_all (new_ring_buffer z size) xs ≡ some r)
        × (capacity r ≡ size)
        × (get_all r ≡ some (take_last size xs))
  unfolding new_ring_buffer capacity
  get_all-add_all z size xs h =
      let (r, e, s, v) =
        add_all-Holds (new_ring_buffer z size) xs [] (new_ring_buffer-Holds z size h)
          (omega arith) in
      (r, e, s, get_all-Holds r (take_last size xs) v)

  -- A buffer of size 0 panics at its first item, whatever it is.
  pub add-size_zero : (z x : T) → add (new_ring_buffer z 0) x ≡ none
  unfolding add new_ring_buffer
  add-size_zero z x = refl
