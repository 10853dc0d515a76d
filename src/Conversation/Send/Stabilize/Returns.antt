-- ===== src/Conversation/Send/Stabilize/Returns.antt =====
-- lib/screentracker/pty_conversation.go: `writeStabilize` returns.
use agentapi_plusplus.Conversation.Send.Stabilize.{
  echo_timeout, process_timeout, process_surroundings, echo_surroundings, Terminal, second, pause,
  echo_condition, process_condition, echo_wait, process_wait, part_failed, echo_failed, Stabilized,
  process_error, process_phase, after_echo, write_stabilize, screen_read, return_time, parts_end,
  is_due, last_return,
}
use agentapi_plusplus.Prelude.{
  text_eq_iff, ℕ, ◌+◌, ◌*◌, ◌≤◌, ◌≡◌, ◌≢◌, refl, ◌∙◌, inl, inr, true, false, Option, none, some,
  Bool-cases, Option-cases, arith, Text, text_eq,
}
use agentapi_plusplus.Wait.{
  holds, not_yet, with_defaults, WaitResult, succeeded, condition_failed, context_done,
  wait_timed_out, bad_intervals, Waited,
}
use agentapi_plusplus.Wait.Returns.{IsCall, first, again, wait_for_lem}

pause-le : (e : Terminal) (now n : ℕ) → (pause e now n).1 ≤ n
unfolding pause
pause-le e now n = elim (Option-cases e.done_at) [
  | inl p ↦ rw p (omega arith)
  | inr (d, p) ↦ rw p (ground arith)
]

-- `ReadScreen` waits three times 16 ms at most.
abbrev pub longest_read : ℕ
longest_read = 48_000_000

-- A carriage return was written at a time, from a start on.
abbrev pub IsCarriageReturn : Terminal → ℕ → ℕ → ℕ → Type 0
IsCarriageReturn e start now q = (start ≤ q) × (q ≤ now) × (e.return_written q ≡ true)

-- The carriage return that is the last, if there was one, was written.
abbrev LastIsReturn : Terminal → ℕ → Option ℕ → ℕ → Type 0
LastIsReturn e start none now = Unit
LastIsReturn e start (some q) now = IsCarriageReturn e start now q

process_condition-written :
    (e : Terminal) (before : Text) (last : Option ℕ) (now : ℕ)
    → (process_condition e before last now).0 ≡ not_yet
    → is_due last now ≡ true
    → e.return_written now ≡ true
unfolding process_condition
process_condition-written e before last now h due = ground (arith, h, due)

-- What a call of the second condition that holds has seen.
record HasChanged (e : Terminal) (before : Text) (last : Option ℕ) (now : ℕ) : Type 0 where
  seen : ℕ
  later : now ≤ seen
  ends : now + (process_condition e before last now).1 ≡ seen + e.read_took seen
  differs : screen_read e seen ≢ before
  written : is_due last now ≡ true → e.return_written now ≡ true

process_condition-holds :
    (e : Terminal) (before : Text) (last : Option ℕ) (now : ℕ)
    → (process_condition e before last now).0 ≡ holds
    → HasChanged e before last now
unfolding process_condition
process_condition-holds e before last now h =
    let took = return_time e last now in
    let seen = now + took + (pause e (now + took) 25_000_000).1 in
    record {
      seen = seen;
      later = omega arith;
      ends = ground (arith, h);
      differs = λ same.
          let t : text_eq (screen_read e seen) before ≡ true = (text_eq_iff _ _).1 same in
          ground (arith, t, h);
      written = λ due. ground (arith, h, due);
    }

LastIsReturn-later :
    (e : Terminal) (start now later : ℕ) (last : Option ℕ)
    → now ≤ later
    → LastIsReturn e start last now
    → LastIsReturn e start last later
LastIsReturn-later e start now later none h k = tt
LastIsReturn-later e start now later (some q) h k = (k.0, omega (arith, h, k.1), k.2)

module _ (e : Terminal) (start : ℕ) (before : Text) where
  IsCall-LastIsReturn :
      {i : ℕ} {last : Option ℕ} {t : ℕ}
      → IsCall (process_surroundings e start before) none i last t
      → LastIsReturn e start last (start + t)
  unfolding last_return
  IsCall-LastIsReturn (first t) = tt
  IsCall-LastIsReturn (again {s = last} {t = t} call h u p) =
      elim (Bool-cases (is_due last (start + t))) [
        | inl due ↦ rw due (
          omega arith,
          omega (arith, p),
          process_condition-written e before last (start + t) h due,
        )
        | inr due ↦ rw due (
            LastIsReturn-later e start (start + t) (start + u) last (omega (arith, p))
              (IsCall-LastIsReturn call))
      ]

  -- Where the screen changed, a carriage return was written before.
  returned_before :
      (last : Option ℕ) (t : ℕ)
      → HasChanged e before last (start + t)
      → LastIsReturn e start last (start + t)
      → (q : ℕ) × IsCarriageReturn e start (start + t) q
  unfolding is_due
  returned_before none t h k = (start + t, (omega arith, omega arith, h.written refl))
  returned_before (some q) t h k = (q, k)

-- The screen that was read last, at the end of a wait, is another than one before, and a carriage return was
-- written between.
abbrev pub HasAnswered : Terminal → ℕ → Text → ℕ → Type 0
HasAnswered e start before end =
    (q : ℕ) × (t : ℕ) × IsCarriageReturn e start t q
    × (end ≡ t + e.read_took t)
    × (screen_read e t ≢ before)

module _ (e : Terminal) (longest_write : ℕ) (reads : (t : ℕ) → e.read_took t ≤ longest_read)
    (writes : (t : ℕ) → e.return_took t ≤ longest_write) where
  echo_condition-le :
      (before : Text) (now : ℕ) → (echo_condition e before now).1 ≤ second + 2 * longest_read
  unfolding echo_condition
  echo_condition-le before now =
      let took = e.read_took now in
      let paused = pause e (now + took) second in
      ground (arith, pause-le e (now + took) second, reads now, reads (now + took + paused.1))

  process_condition-le :
      (before : Text) (last : Option ℕ) (now : ℕ)
      → (process_condition e before last now).1 ≤ longest_write + 73_000_000
  unfolding process_condition
  process_condition-le before last now =
      let took = return_time e last now in
      let paused = pause e (now + took) 25_000_000 in
      ground (arith, pause-le e (now + took) 25_000_000, writes now, reads (now + took + paused.1))

  -- What a wait of the two phases gives: a result, at latest when this time is over.
  echo_wait_lem :
      (start : ℕ) (before : Text)
      → (w : Waited) × (echo_wait e start before ≡ some w) × (w.at ≤ 3_096_000_000)
  unfolding echo_wait with_defaults
  echo_wait_lem start before =
      let (w, same, ret) =
        wait_for_lem (echo_surroundings e start before) tt echo_timeout (second + 2 * longest_read)
          (omega arith) (λ s t. echo_condition-le before (start + t)) in
      (w, same, ret.on_time)

  process_wait_lem :
      (start : ℕ) (before : Text)
      → (w : Waited) × (process_wait e start before ≡ some w)
        × (w.at ≤ longest_write + 15_073_000_000)
        × (w.result ≡ succeeded → HasAnswered e start before (start + w.at))
  unfolding process_wait with_defaults
  process_wait_lem start before =
      let (w, same, ret) =
        wait_for_lem (process_surroundings e start before) none process_timeout
          (longest_write + 73_000_000) (omega arith)
          (λ last t. process_condition-le before last (start + t)) in
      (
        w,
        same,
        omega (arith, ret.on_time),
        λ s.
            let l = ret.held s in
            let h = process_condition-holds e before l.state (start + l.time) l.gave in
            let (q, (from, to, written)) =
              returned_before e start before l.state l.time h
                (IsCall-LastIsReturn e start before l.call) in
            (
              q,
              h.seen,
              (from, omega (arith, to, h.later), written),
              omega (arith, h.ends, l.ends),
              h.differs,
            ),
      )

  -- A result in time of what follows the first phase, from a time on.
  abbrev Stabilizes : ℕ → ℕ → Option Stabilized → Type 0
  Stabilizes now deadline o =
      (r : Stabilized) × (o ≡ some r)
      × (r.at ≤ deadline)
      × (r.error ≡ none → HasAnswered e now (screen_read e now) r.at)

  process_error-none : (r : WaitResult) → process_error r ≡ none → r ≡ succeeded
  process_error-none succeeded h = refl
  process_error-none condition_failed h = cc
  process_error-none context_done h = cc
  process_error-none wait_timed_out h = cc
  process_error-none bad_intervals h = cc

  process_phase-Stabilizes :
      (now : ℕ) → Stabilizes now (now + longest_write + 15_121_000_000) (process_phase e now)
  unfolding process_phase
  process_phase-Stabilizes now =
      let start = now + e.read_took now in
      let (w, same, in_time, changed) = process_wait_lem start (screen_read e now) in
      rw same (
        record { error = process_error w.result; at = start + w.at },
        refl,
        omega (arith, in_time, reads now),
        λ p.
            let (q, t, (from, to, written), ends, differs) =
              changed (process_error-none w.result p) in
            (q, t, (omega (arith, from), to, written), ends, differs),
      )

  after_echo-Stabilizes :
      (now : ℕ) (w : WaitResult)
      → Stabilizes now (now + longest_write + 15_121_000_000) (after_echo e now w)
  unfolding after_echo
  after_echo-Stabilizes now succeeded = process_phase-Stabilizes now
  after_echo-Stabilizes now wait_timed_out = process_phase-Stabilizes now
  after_echo-Stabilizes now condition_failed =
      (record { error = some (echo_failed condition_failed); at = now }, refl, omega arith, λ q. cc)
  after_echo-Stabilizes now context_done =
      (record { error = some (echo_failed context_done); at = now }, refl, omega arith, λ q. cc)
  after_echo-Stabilizes now bad_intervals =
      (record { error = some (echo_failed bad_intervals); at = now }, refl, omega arith, λ q. cc)

write_stabilize_failed :
    (e : Terminal) (start : ℕ)
    → e.parts_written ≡ false
    → write_stabilize e start ≡ some (record { error = some part_failed; at = parts_end e start })
unfolding write_stabilize
write_stabilize_failed e start p = rw p refl

write_stabilize_echo :
    (e : Terminal) (start : ℕ) (w : Waited)
    → e.parts_written ≡ true
    → echo_wait e (parts_end e start) (screen_read e start) ≡ some w
    → write_stabilize e start ≡ after_echo e (parts_end e start + w.at) w.result
unfolding write_stabilize
write_stabilize_echo e start w p same = simp (p, same)

-- The wait of the first phase has returned, and the screen that was read last differs from that at its end,
-- with a carriage return between the two.
abbrev pub HasReacted : Terminal → ℕ → ℕ → Type 0
HasReacted e start end =
    (w : Waited) × (echo_wait e (parts_end e start) (screen_read e start) ≡ some w)
    × HasAnswered e (parts_end e start + w.at) (screen_read e (parts_end e start + w.at)) end

-- `writeStabilize` returns, whatever the terminal shows and however its waits go, if a read of the screen takes
-- 48 ms at most and the write of a carriage return takes a bounded time: at latest 18.265 seconds and that
-- time after the start, without the time that the parts take. It reports success only if the screen that it
-- reads last, just before it returns, differs from the screen that it reads at the end of the first phase,
-- and a carriage return was written between the two reads.
pub write_stabilize_lem :
    (e : Terminal) (start longest_write : ℕ)
    → ((t : ℕ) → e.read_took t ≤ longest_read)
    → ((t : ℕ) → e.return_took t ≤ longest_write)
    → (r : Stabilized) × (write_stabilize e start ≡ some r)
      × (r.at ≤ start + e.parts_took + longest_write + 18_265_000_000)
      × (r.error ≡ none → HasReacted e start r.at)
write_stabilize_lem e start longest_write reads writes = elim (Bool-cases e.parts_written) [
  | inr p ↦ (
    record { error = some part_failed; at = parts_end e start },
    write_stabilize_failed e start p,
    omega (arith, reads start),
    λ q. cc,
  )
  | inl p ↦
      let written = parts_end e start in
      let (w, same, in_time) =
        echo_wait_lem e longest_write reads writes written (screen_read e start) in
      let (r, is, on_time, changed) =
        after_echo-Stabilizes e longest_write reads writes (written + w.at) w.result in
      (
        r,
        write_stabilize_echo e start w p same ∙ is,
        omega (arith, on_time, in_time, reads start),
        λ q. (w, same, changed q),
      )
]
