-- ===== src/Terminal.antt =====
-- lib/termexec/termexec.go: `ReadScreen` on a terminal that the reading goroutine updates. The updates are
-- a list of times, in milliseconds, with the runes that were read then; how the terminal takes a rune is
-- an argument.
pub mod Settles
use agentapi_plusplus.Prelude.{
  ℕ, zero, suc, ◌+◌, ◌-◌, Bool, true, false, List, [], ◌∷◌, Option, none, some, leb, if◌then◌else◌,
}

-- An update: its time and its rune.
abbrev pub Updates : Type 0
Updates = List (ℕ × ℕ)

abbrev pub settle_time : ℕ
settle_time = 16

abbrev pub rounds : ℕ
rounds = 3

module _ {S : Type 0} (write_rune : S → ℕ → S) where
  -- The terminal at a time, after the updates up to then.
  unfoldable pub state_at : S → Updates → ℕ → S
  state_at s [] now = s
  state_at s ((t, r) ∷ updates) now = if leb t now then state_at (write_rune s r) updates now else s

-- The time of the last update up to a time, if there was one.
unfoldable pub last_update : Option ℕ → Updates → ℕ → Option ℕ
last_update last [] now = last
last_update last ((t, r) ∷ updates) now =
    if leb t now then last_update (some t) updates now else last

-- `Since(lastScreenUpdate) >= 16ms`; the zero time is long ago.
abbrev pub is_settled : Option ℕ → ℕ → Bool
is_settled none now = true
is_settled (some t) now = leb settle_time (now - t)

-- The time at which `ReadScreen` reads the state: at once, or after waits.
unfoldable pub read_time : ℕ → Updates → ℕ → ℕ
unfolding last_update
read_time zero updates now = now
read_time (suc n) updates now =
    let later = read_time n updates (now + settle_time) in
    if is_settled (last_update none updates now) now then now else later

module _ {S : Type 0} (write_rune : S → ℕ → S) where
  unfoldable pub read_screen : S → Updates → ℕ → S
  unfolding read_time state_at
  read_screen s updates now = state_at write_rune s updates (read_time rounds updates now)
