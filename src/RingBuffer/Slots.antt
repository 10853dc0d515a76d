-- ===== src/RingBuffer/Slots.antt =====
-- Arithmetic of the slots of lib/screentracker/ringbuffer.go: which index holds the i-th oldest item
-- before and after an `Add`.
use native.Mathlib.Decide.{dec_lt}
use native.Mathlib.Nat.{mod-eq_of_lt, mod-eq-sub-mod}
use agentapi_plusplus.Prelude.{ℕ, ◌+◌, ◌-◌, ◌%◌, ◌≤◌, ◌<◌, ◌≡◌, ◌∙◌, ◌⊎◌, inl, inr, ◌≢◌, arith}

mod_cases : (x n : ℕ) → x < n + n → ((x < n) × (x % n ≡ x)) ⊎ ((n ≤ x) × (x % n ≡ x - n))
mod_cases x n h = elim (dec_lt x n) [
  | yes p ↦ inl (p, mod-eq_of_lt p)
  | no p ↦ inr (omega arith, mod-eq-sub-mod (omega arith) ∙ mod-eq_of_lt (omega arith))
]

-- The slots after a write at `next`: the indices of the items that stay do not move, and the new
-- item is the last.
abbrev pub slot_of : ℕ → ℕ → ℕ → ℕ → ℕ
slot_of next i n count = (next + i + n - count) % n

module _ (next n : ℕ) (h : next < n) where
  pub slot-grow_old :
      (i count : ℕ)
      → i < count
      → count < n
      → (slot_of next i n count ≡ slot_of ((next + 1) % n) i n (count + 1))
        × (next ≢ slot_of next i n count)
  slot-grow_old i count p q =
      let a = mod_cases (next + 1) n (omega arith) in
      let b = mod_cases (next + i + n - count) n (omega arith) in
      let c = mod_cases ((next + 1) % n + i + n - (count + 1)) n (omega arith) in
      (omega arith, omega arith)

  pub slot-grow_new : (count : ℕ) → count < n → slot_of ((next + 1) % n) count n (count + 1) ≡ next
  slot-grow_new count q =
      let a = mod_cases (next + 1) n (omega arith) in
      let c = mod_cases ((next + 1) % n + count + n - (count + 1)) n (omega arith) in omega arith

  pub slot-full_old :
      (i count : ℕ)
      → count ≡ n
      → i + 1 < n
      → (slot_of next (i + 1) n count ≡ slot_of ((next + 1) % n) i n count)
        × (next ≢ slot_of next (i + 1) n count)
  slot-full_old i count e p =
      let a = mod_cases (next + 1) n (omega arith) in
      let b = mod_cases (next + (i + 1) + n - count) n (omega arith) in
      let c = mod_cases ((next + 1) % n + i + n - count) n (omega arith) in
      (omega arith, omega arith)

  pub slot-full_new :
      (i count : ℕ) → count ≡ n → i + 1 ≡ n → slot_of ((next + 1) % n) i n count ≡ next
  slot-full_new i count e p =
      let a = mod_cases (next + 1) n (omega arith) in
      let c = mod_cases ((next + 1) % n + i + n - count) n (omega arith) in omega arith
