-- ===== src/Msgfmt/Echo/Matching.antt =====
-- lib/msgfmt/msgfmt.go: the loops that follow the echo of the user's input.
use agentapi_plusplus.Msgfmt.Echo.{
  Probe, give_up, found, go_on, probe, probe_row, probe_rows, find_next_match, follow_matches,
  find_user_input_end_idx,
}
use agentapi_plusplus.Prelude.{
  ℕ, zero, suc, ◌+◌, ◌-◌, ◌≤◌, ◌<◌, ◌≡◌, refl, inl, inr, List, Option, none, some, arith, subst,
  Option-cases, length,
}

module _ (known_msg known_user : ℕ) (msg user_input : List ℕ) where
  -- A match lies behind the last one, and inside the message.
  abbrev IsAhead : Probe → Type 0
  IsAhead give_up = Unit {0}
  IsAhead (found m u) = (known_msg < m) × (m < length msg)
  IsAhead go_on = Unit {0}

  probe-IsAhead : (i j : ℕ) → IsAhead (probe known_msg known_user msg user_input i j)
  unfolding probe
  probe-IsAhead i j = ground arith

  go_on-IsAhead :
      (p rest : Probe)
      → IsAhead p
      → IsAhead rest
      → IsAhead (elim p [ give_up ↦ give_up | found m u ↦ found m u | go_on ↦ rest ])
  go_on-IsAhead give_up rest a b = tt
  go_on-IsAhead (found m u) rest a b = a
  go_on-IsAhead go_on rest a b = b

  probe_row-IsAhead :
      (i rounds j : ℕ) → IsAhead (probe_row known_msg known_user msg user_input i rounds j)
  unfolding probe_row
  probe_row-IsAhead i zero j = tt
  probe_row-IsAhead i (suc rounds) j =
      go_on-IsAhead (probe known_msg known_user msg user_input i j) _ (probe-IsAhead i j)
        (probe_row-IsAhead i rounds (j + 1))

  abbrev AreAhead : Option (ℕ × ℕ) → Type 0
  AreAhead none = Unit {0}
  AreAhead (some (m, u)) = (known_msg < m) × (m < length msg)

  or_next-AreAhead :
      (p : Probe) (rest : Option (ℕ × ℕ))
      → IsAhead p
      → AreAhead rest
      → AreAhead (elim p [ give_up ↦ none | found m u ↦ some (m, u) | go_on ↦ rest ])
  or_next-AreAhead give_up rest a b = tt
  or_next-AreAhead (found m u) rest a b = a
  or_next-AreAhead go_on rest a b = b

  probe_rows-AreAhead :
      (rounds i : ℕ) → AreAhead (probe_rows known_msg known_user msg user_input rounds i)
  unfolding probe_rows
  probe_rows-AreAhead zero i = tt
  probe_rows-AreAhead (suc rounds) i =
      or_next-AreAhead (probe_row known_msg known_user msg user_input i 5 0) _
        (probe_row-IsAhead i 5 0) (probe_rows-AreAhead rounds (i + 1))

  -- The next match lies strictly behind the last one, and inside the message.
  pub find_next_match-AreAhead :
      {m u : ℕ}
      → find_next_match known_msg known_user msg user_input ≡ some (m, u)
      → (known_msg < m) × (m < length msg)
  unfolding find_next_match
  find_next_match-AreAhead e = subst AreAhead e (probe_rows-AreAhead 5 0)

-- With as much fuel as the message has runes left, the loop ends, at a rune of the message.
pub follow_matches_total :
    (msg user_input : List ℕ) (fuel msg_idx user_idx : ℕ)
    → msg_idx < length msg
    → length msg - msg_idx ≤ fuel
    → (e : ℕ) × (follow_matches msg user_input fuel msg_idx user_idx ≡ some e)
      × (msg_idx ≤ e)
      × (e < length msg)
unfolding follow_matches
follow_matches_total msg user_input zero msg_idx user_idx h f = absurd (omega arith)
follow_matches_total msg user_input (suc fuel) msg_idx user_idx h f =
    elim (Option-cases (find_next_match msg_idx user_idx msg user_input)) [
      | inl e ↦ (msg_idx, rw (e, follow_matches) refl, omega arith, h)
      | inr ((m, u), e) ↦
          let (ahead, inside) = find_next_match-AreAhead msg_idx user_idx msg user_input e in
          let (r, eq, later, r_inside) =
            follow_matches_total msg user_input fuel m u inside (omega arith) in
          (r, rw (e, follow_matches) eq, omega arith, r_inside)
    ]

-- `findUserInputEndIdx` terminates: from a rune of the message it gives a rune of the message, not
-- before the first.
pub find_user_input_end_idx_total :
    (start : ℕ) (msg user_input : List ℕ)
    → start < length msg
    → (e : ℕ) × (find_user_input_end_idx start msg user_input ≡ some e)
      × (start ≤ e)
      × (e < length msg)
unfolding find_user_input_end_idx
find_user_input_end_idx_total start msg user_input h =
    follow_matches_total msg user_input (length msg) start 0 h (omega arith)
