-- ===== src/Terminal/Settles.antt =====
-- lib/termexec/termexec.go: when `ReadScreen` returns, and on which screen.
use agentapi_plusplus.Terminal.{
  Updates, settle_time, rounds, state_at, last_update, is_settled, read_time, read_screen,
}
use agentapi_plusplus.Prelude.{
  ℕ, zero, suc, ◌+◌, ◌-◌, ◌*◌, ◌≤◌, ◌<◌, ◌≡◌, refl, ◌⊎◌, inl, inr, true, false, [], ◌∷◌, none, some,
  leb, leb→le, Bool-cases, arith,
}

-- The times do not fall.
abbrev pub AreOrdered : ℕ → Updates → Type 0
AreOrdered t [] = Unit
AreOrdered t ((u, r) ∷ updates) = (t ≤ u) × AreOrdered u updates

-- No update came in the time that was waited for, up to `now`.
abbrev pub IsQuiet : Updates → ℕ → Type 0
IsQuiet [] now = Unit
IsQuiet ((t, r) ∷ updates) now = ((t + settle_time ≤ now) ⊎ (now < t)) × IsQuiet updates now

leb-false→lt : (a b : ℕ) → leb a b ≡ false → b < a
leb-false→lt a b h = ground arith

IsQuiet-later :
    (u : ℕ) (updates : Updates) (now : ℕ) → AreOrdered u updates → now < u → IsQuiet updates now
IsQuiet-later u [] now o h = tt
IsQuiet-later u ((t, r) ∷ updates) now o h =
    (inr (omega (arith, o.0)), IsQuiet-later t updates now o.1 (omega (arith, o.0)))

last_update-IsQuiet :
    (last : ℕ) (updates : Updates) (now : ℕ)
    → AreOrdered last updates
    → last ≤ now
    → is_settled (last_update (some last) updates now) now ≡ true
    → (last + settle_time ≤ now) × IsQuiet updates now
unfolding last_update
last_update-IsQuiet last [] now o b h = (omega (arith, leb→le settle_time (now - last) h), tt)
last_update-IsQuiet last ((u, r) ∷ updates) now o b h = elim (Bool-cases (leb u now)) [
  | inl e ↦
      let (w, q) = last_update-IsQuiet u updates now o.1 (leb→le u now e) (rw e at h) in
      (omega (arith, o.0), (inl w, q))
  | inr e ↦
      let past = leb-false→lt u now e in
      (
        omega (arith, leb→le settle_time (now - last) (rw e at h)),
        (inr past, IsQuiet-later u updates now o.1 past),
      )
]

settled-IsQuiet :
    (updates : Updates) (now : ℕ)
    → AreOrdered 0 updates
    → is_settled (last_update none updates now) now ≡ true
    → IsQuiet updates now
unfolding last_update
settled-IsQuiet [] now o h = tt
settled-IsQuiet ((u, r) ∷ updates) now o h = elim (Bool-cases (leb u now)) [
  | inl e ↦
      let (w, q) = last_update-IsQuiet u updates now o.1 (leb→le u now e) (rw e at h) in (inl w, q)
  | inr e ↦ let past = leb-false→lt u now e in (inr past, IsQuiet-later u updates now o.1 past)
]

-- The time at which the state is read: settled, or after all rounds.
record IsReadAt (n : ℕ) (updates : Updates) (now t : ℕ) : Type 0 where
  from : now ≤ t
  until : t ≤ now + n * settle_time
  quiet : IsQuiet updates t ⊎ (t ≡ now + n * settle_time)

read_time_lem :
    (n : ℕ) (updates : Updates) (now : ℕ)
    → AreOrdered 0 updates
    → IsReadAt n updates now (read_time n updates now)
unfolding read_time
read_time_lem zero updates now o = record {
  from = omega arith;
  until = omega arith;
  quiet = inr (omega arith);
}
read_time_lem (suc n) updates now o =
    elim (Bool-cases (is_settled (last_update none updates now) now)) [
      | inl e ↦ rw e (record {
        from = omega arith;
        until = omega arith;
        quiet = inl (settled-IsQuiet updates now o e);
      })
      | inr e ↦
          let v = read_time_lem n updates (now + settle_time) o in
          rw e (record {
            from = omega (arith, v.from);
            until = omega (arith, v.until);
            quiet = elim v.quiet [ inl q ↦ inl q | inr q ↦ inr (omega (arith, q)) ];
          })
    ]

-- `ReadScreen` returns the screen of one moment, between its call and 48 ms later. Unless it waited all
-- 48 ms, no update came in the 16 ms up to that moment.
pub read_screen_lem :
    {S : Type 0} (write_rune : S → ℕ → S) (s : S) (updates : Updates) (now : ℕ)
    → AreOrdered 0 updates
    → (t : ℕ) × (read_screen write_rune s updates now ≡ state_at write_rune s updates t)
      × (now ≤ t)
      × (t ≤ now + 48)
      × (IsQuiet updates t ⊎ (t ≡ now + 48))
unfolding read_screen
read_screen_lem write_rune s updates now o =
    let v = read_time_lem rounds updates now o in
    (
      read_time rounds updates now,
      refl,
      v.from,
      omega (arith, v.until),
      elim v.quiet [ inl q ↦ inl q | inr q ↦ inr (omega (arith, q)) ],
    )
