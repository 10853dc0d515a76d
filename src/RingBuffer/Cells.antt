-- ===== src/RingBuffer/Cells.antt =====
-- lib/screentracker/ringbuffer.go: what a buffer holds, as a relation to a list.
use native.Mathlib.Decide.{dec_lt}
use native.Mathlib.Nat.{mod-lt}
use agentapi_plusplus.Prelude.{
  ℕ, zero, suc, ◌+◌, ◌%◌, ◌≤◌, ◌<◌, ◌≡◌, refl, sym, ap, ◌∙◌, ◌≢◌, List, [], ◌∷◌, ◌++◌, some, arith,
  length, get_elem?, set, drop, drop-eq-cons, drop-length, get_elem?-set_self, get_elem?-set_ne,
  get_elem?-some, get_elem?-concat, get_elem?-append_left, get_elem?-drop, length-append,
  length-drop, length-replicate, length-set,
}
use agentapi_plusplus.RingBuffer.{RingBuffer, new_ring_buffer, slot, read_from}
use agentapi_plusplus.RingBuffer.Slots.{
  slot_of, slot-grow_old, slot-grow_new, slot-full_old, slot-full_new,
}

module _ {ℓ} {T : Type ℓ} where
  -- The buffer `r` holds the items `xs`, oldest first.
  pub record Holds (r : RingBuffer T) (xs : List T) : Type ℓ where
    pub items_len : length r.items ≡ r.size
    pub next_in : r.next_index < r.size
    pub counted : r.count ≡ length xs
    pub fits : r.count ≤ r.size
    pub cell : (i : ℕ) → i < length xs → get_elem? r.items (slot r i) ≡ get_elem? xs i

  pub new_ring_buffer-Holds : (z : T) (size : ℕ) → 0 < size → Holds (new_ring_buffer z size) []
  unfolding new_ring_buffer
  new_ring_buffer-Holds z size h = record {
    items_len = length-replicate size z;
    next_in = h;
    counted = refl;
    fits = omega arith;
    cell = λ i p. elim p [ ];
  }

  module _ (r : RingBuffer T) (xs : List T) (a : T) (v : Holds r xs) where
    unfoldable pub grown : RingBuffer T
    grown = record r {
      items = set r.items r.next_index a;
      next_index = (r.next_index + 1) % length r.items;
      count = r.count + 1;
    }

    unfoldable pub turned : RingBuffer T
    turned = record r {
      items = set r.items r.next_index a;
      next_index = (r.next_index + 1) % length r.items;
    }

    in_items : r.next_index < length r.items
    in_items = omega (arith, v.items_len, v.next_in)

    -- A cell that the write leaves alone.
    kept_cell :
        (i k : ℕ)
        → slot r i ≡ k
        → r.next_index ≢ slot r i
        → i < length xs
        → get_elem? (set r.items r.next_index a) k ≡ get_elem? xs i
    kept_cell i k e ne p = rw (← e) (get_elem?-set_ne r.items a ne ∙ v.cell i p)

    new_cell : (k : ℕ) → k ≡ r.next_index → get_elem? (set r.items r.next_index a) k ≡ some a
    new_cell k e = rw e (get_elem?-set_self r.items r.next_index a in_items)

    abbrev size_of : ℕ
    size_of = length r.items

    next_moved : (r.next_index + 1) % size_of < r.size
    next_moved =
        omega
          (arith, mod-lt (r.next_index + 1) {m = size_of} (omega (arith, in_items)), v.items_len)

    -- The slots of the written buffer, over the old length.
    slot_written :
        (i count : ℕ)
        → slot_of ((r.next_index + 1) % size_of) i (length (set r.items r.next_index a)) count
          ≡ slot_of ((r.next_index + 1) % size_of) i size_of count
    slot_written i count =
        ap (λ m. slot_of ((r.next_index + 1) % size_of) i m count)
          (length-set r.items r.next_index a)

    grown_cell :
        (i : ℕ)
        → r.count < r.size
        → i < length (xs ++ a ∷ [])
        → get_elem? grown.items (slot grown i) ≡ get_elem? (xs ++ a ∷ []) i
    unfolding grown
    grown_cell i q p = elim (dec_lt i (length xs)) [
      | yes old ↦
          let (same, ne) =
            slot-grow_old r.next_index size_of in_items i r.count (omega (arith, v.counted))
              (omega (arith, v.items_len)) in
          kept_cell i (slot grown i) (same ∙ sym (slot_written i (r.count + 1))) ne old
          ∙ sym (get_elem?-append_left xs (a ∷ []) i old)
      | no over ↦
          let at : i ≡ length xs = omega (arith, length-append xs (a ∷ [])) in
          let at_count : i ≡ r.count = omega (arith, v.counted) in
          new_cell (slot grown i) (
            slot_written i (r.count + 1)
            ∙ rw at_count
                (slot-grow_new r.next_index size_of in_items r.count (omega (arith, v.items_len))))
          ∙ sym (rw at (get_elem?-concat xs a))
    ]

    turned_cell :
        (i : ℕ)
        → r.count ≡ r.size
        → i < length (drop 1 xs ++ a ∷ [])
        → get_elem? turned.items (slot turned i) ≡ get_elem? (drop 1 xs ++ a ∷ []) i
    unfolding turned
    turned_cell i q p = elim (dec_lt i (length (drop 1 xs))) [
      | yes old ↦
          let (same, ne) =
            slot-full_old r.next_index size_of in_items i r.count (omega (arith, v.items_len))
              (omega (arith, v.counted, v.items_len, length-drop 1 xs)) in
          kept_cell (i + 1) (slot turned i) (same ∙ sym (slot_written i r.count)) ne
            (omega (arith, length-drop 1 xs))
          ∙ ap (get_elem? xs) {x = i + 1} {y = 1 + i} (omega arith)
          ∙ sym (get_elem?-drop 1 i xs)
          ∙ sym (get_elem?-append_left (drop 1 xs) (a ∷ []) i old)
      | no over ↦
          let at : i ≡ length (drop 1 xs) = omega (arith, length-append (drop 1 xs) (a ∷ [])) in
          new_cell (slot turned i) (
            slot_written i r.count
            ∙ slot-full_new r.next_index size_of in_items i r.count (omega (arith, v.items_len))
                (omega (arith, v.counted, v.items_len, v.next_in, length-drop 1 xs)))
          ∙ sym (rw at (get_elem?-concat (drop 1 xs) a))
    ]

    pub grown-Holds : r.count < r.size → Holds grown (xs ++ a ∷ [])
    unfolding grown
    grown-Holds q = record {
      items_len = length-set r.items r.next_index a ∙ v.items_len;
      next_in = next_moved;
      counted = omega (arith, length-append xs (a ∷ []), v.counted);
      fits = omega arith;
      cell = λ i p. grown_cell i q p;
    }

    pub turned-Holds : r.count ≡ r.size → Holds turned (drop 1 xs ++ a ∷ [])
    unfolding turned
    turned-Holds q = record {
      items_len = length-set r.items r.next_index a ∙ v.items_len;
      next_in = next_moved;
      counted = omega (arith, length-append (drop 1 xs) (a ∷ []), length-drop 1 xs, v.counted);
      fits = v.fits;
      cell = λ i p. turned_cell i q p;
    }

  pub read_from-Holds :
      (r : RingBuffer T) (xs : List T)
      → Holds r xs
      → (rounds i : ℕ) → i + rounds ≡ length xs
      → read_from r i rounds ≡ some (drop i xs)
  unfolding read_from
  read_from-Holds r xs v zero i e = rw (drop-length i xs (omega arith))
  read_from-Holds r xs v (suc rounds) i e =
      let (x, at) = get_elem?-some xs i (omega arith) in
      rw (
        v.cell i (omega arith),
        at,
        read_from-Holds r xs v rounds (i + 1) (omega arith),
        drop-eq-cons xs i at,
      )
