-- ===== src/RingBuffer.antt =====
-- lib/screentracker/ringbuffer.go: the circular buffer of the last screens.
-- `none` is a panic of Go: an index out of range.
mod Slots
pub mod Cells
pub mod Refine
use agentapi_plusplus.Prelude.{
  ℕ, zero, suc, ◌+◌, ◌-◌, ◌%◌, List, [], ◌∷◌, Option, none, some, length, get_elem?, set, replicate,
  ltb, if◌then◌else◌, ◌>>=◌,
}

pub record RingBuffer {ℓ} (T : Type ℓ) : Type ℓ where
  pub items : List T
  pub next_index : ℕ
  pub count : ℕ
  pub size : ℕ

module _ {ℓ} {T : Type ℓ} where
  -- `empty` is the zero value of `T`, which `make` fills the items with.
  unfoldable pub new_ring_buffer : T → ℕ → RingBuffer T
  new_ring_buffer empty size = record {
    items = replicate size empty;
    next_index = 0;
    count = 0;
    size = size;
  }

  unfoldable pub add : RingBuffer T → T → Option (RingBuffer T)
  add r item =
      let n = length r.items in
      if ltb r.next_index n
      then some (record r {
        items = set r.items r.next_index item;
        next_index = (r.next_index + 1) % n;
        count = if ltb r.count n then r.count + 1 else r.count;
      })
      else none

  -- The index of the `i`-th oldest item. `count` is at most the number of items, so the order of the
  -- terms keeps every intermediate value from going below 0.
  abbrev pub slot : RingBuffer T → ℕ → ℕ
  slot b i = (b.next_index + i + length b.items - b.count) % length b.items

  -- `rounds` are the rounds left of the loop at `i`.
  unfoldable pub read_from : RingBuffer T → ℕ → ℕ → Option (List T)
  read_from b i zero = some []
  read_from b i (suc rounds) = do
    item ← get_elem? b.items (slot b i)
    rest ← read_from b (i + 1) rounds
    some (item ∷ rest)

  unfoldable pub get_all : RingBuffer T → Option (List T)
  unfolding read_from
  get_all b = read_from b 0 b.count

  unfoldable pub capacity : RingBuffer T → ℕ
  capacity b = b.size
