-- ===== src/Tests/Screens.antt =====
-- lib/screentracker/ringbuffer.go and diff.go at concrete inputs.
use agentapi_plusplus.Prelude.{ℕ, ◌≡◌, ◌≢◌, [], ◌∷◌, some, arith, length, take_last, Text, codes}
use agentapi_plusplus.RingBuffer.{RingBuffer, new_ring_buffer, get_all, capacity}
use agentapi_plusplus.RingBuffer.Refine.{add_all, get_all-add_all}
use agentapi_plusplus.Strings.{split_lines}

get_all-add_all_example :
    (r : RingBuffer ℕ) × (add_all (new_ring_buffer 0 2) (5 ∷ 6 ∷ 7 ∷ []) ≡ some r)
    × (capacity r ≡ 2)
    × (get_all r ≡ some (take_last 2 (5 ∷ 6 ∷ 7 ∷ [])))
get_all-add_all_example = get_all-add_all 0 2 (5 ∷ 6 ∷ 7 ∷ []) (omega arith)

abbrev old_screen : Text
old_screen = codes "welcome\nask"

abbrev new_screen : Text
new_screen = codes "welcome\n\nanswer\n"

four_lines : length (split_lines new_screen) ≢ 2
unfolding split_lines
four_lines e = omega arith
