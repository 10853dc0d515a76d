-- ===== src/Conversation/Send/Stabilize.antt =====
-- lib/screentracker/pty_conversation.go: `writeStabilize`. Times are nanoseconds. The terminal is a parameter:
-- what its screen is at every time, how long it takes to read it and to write to it, and whether what is
-- written to it gets there.
pub mod Returns
use agentapi_plusplus.Prelude.{
  ◌*◌, ℕ, ◌+◌, ◌-◌, ◌≤◌, ◌≡◌, refl, sym, ap, ◌∙◌, ◌⊎◌, inl, inr, Bool, true, false, not, ◌&&◌,
  Option, none, some, ltb, leb, ◌==◌, if◌then◌else◌, ◌>>=◌, Bool-cases, Option-cases, arith, Text,
  text_eq,
}
use agentapi_plusplus.Wait.{
  WaitTimeout, Outcome, holds, not_yet, errs, Wake, Surroundings, with_defaults, WaitResult,
  succeeded, condition_failed, context_done, wait_timed_out, bad_intervals, Waited, wait_for,
}
use agentapi_plusplus.Wait.Returns.{IsReturn, wait_for_lem}

-- `prefer` and `after_timer` say how a `select` chooses where two channels are ready.
pub record Terminal : Type 0 where
  pub screen : ℕ → Text
  pub read_took : ℕ → ℕ
  pub parts_written : Bool
  pub parts_took : ℕ
  pub return_written : ℕ → Bool
  pub return_took : ℕ → ℕ
  pub done_at : Option ℕ
  pub prefer : ℕ → Wake
  pub after_timer : ℕ → Bool

abbrev pub second : ℕ
second = 1_000_000_000

abbrev pub write_stabilize_echo_timeout : ℕ
write_stabilize_echo_timeout = 2 * second

abbrev pub write_stabilize_process_timeout : ℕ
write_stabilize_process_timeout = 15 * second

-- The `select` on the context and a timer of `n`: whether the timer ended it, and how long it took.
unfoldable pub pause : Terminal → ℕ → ℕ → Bool × ℕ
pause e now n = elim e.done_at [
  | none ↦ (true, n)
  | some d ↦
      if ltb d (now + n)
      then (false, d - now)
      else if d == now + n
      then (e.after_timer now, n)
      else (true, n)
]

-- `ReadScreen` at a time: what it returns, once it has waited for the screen to settle.
abbrev pub screen_read : Terminal → ℕ → Text
screen_read e now = e.screen (now + e.read_took now)

-- The condition of the first phase: the screen changed, and is the same a second later.
unfoldable pub echo_condition : Terminal → Text → ℕ → Outcome × ℕ
unfolding pause
echo_condition e before now =
    let took = e.read_took now in
    let paused = pause e (now + took) second in
    let later = now + took + paused.1 in
    if text_eq (screen_read e now) before
    then (not_yet, took)
    else if not paused.0
    then (errs, took + paused.1)
    else if text_eq (screen_read e later) (screen_read e now)
    then (holds, took + paused.1 + e.read_took later)
    else (not_yet, took + paused.1 + e.read_took later)

-- Whether a carriage return is due: the first, or three seconds after the last.
unfoldable pub is_due : Option ℕ → ℕ → Bool
is_due none now = true
is_due (some last) now = leb (3 * second) (now - last)

-- How long the write of a carriage return takes, if one is due.
abbrev pub return_time : Terminal → Option ℕ → ℕ → ℕ
return_time e last now = if is_due last now then e.return_took now else 0

-- The condition of the second phase: the screen changed 25 ms after a carriage return that was due.
unfoldable pub process_condition : Terminal → Text → Option ℕ → ℕ → Outcome × ℕ
unfolding pause is_due
process_condition e before last now =
    let took = return_time e last now in
    let paused = pause e (now + took) 25_000_000 in
    let later = now + took + paused.1 in
    if is_due last now && not (e.return_written now)
    then (errs, took)
    else if not paused.0
    then (errs, took + paused.1)
    else if text_eq (screen_read e later) before
    then (not_yet, took + paused.1 + e.read_took later)
    else (holds, took + paused.1 + e.read_took later)

-- `lastCarriageReturnTime` after a call of that condition.
unfoldable pub last_return : Option ℕ → ℕ → Option ℕ
unfolding is_due
last_return last now = if is_due last now then some now else last

-- The time until the context is done, from a start on.
abbrev pub until : ℕ → Option ℕ → Option ℕ
until start none = none
until start (some d) = some (d - start)

abbrev pub echo_surroundings : Terminal → ℕ → Text → Surroundings Unit
echo_surroundings e start before = record {
  condition = λ s t. echo_condition e before (start + t);
  next = λ s t. s;
  done_at = until start e.done_at;
  prefer = e.prefer;
}

abbrev pub echo_timeout : WaitTimeout
echo_timeout = record {
  timeout = write_stabilize_echo_timeout;
  min_interval = 50_000_000;
  max_interval = 0;
  initial_wait = true;
}

abbrev pub process_surroundings : Terminal → ℕ → Text → Surroundings (Option ℕ)
process_surroundings e start before = record {
  condition = λ last t. process_condition e before last (start + t);
  next = λ last t. last_return last (start + t);
  done_at = until start e.done_at;
  prefer = e.prefer;
}

abbrev pub process_timeout : WaitTimeout
process_timeout = record {
  timeout = write_stabilize_process_timeout;
  min_interval = 25_000_000;
  max_interval = 0;
  initial_wait = false;
}

unfoldable pub echo_wait : Terminal → ℕ → Text → Option Waited
echo_wait e start before = wait_for (echo_surroundings e start before) tt echo_timeout

unfoldable pub process_wait : Terminal → ℕ → Text → Option Waited
process_wait e start before = wait_for (process_surroundings e start before) none process_timeout

pub data StabilizeError : Type 0 where
  part_failed : StabilizeError
  echo_failed process_failed : WaitResult → StabilizeError

-- The error, if there is one, and when the call returns.
pub record Stabilized : Type 0 where
  pub error : Option StabilizeError
  pub at : ℕ

-- The second phase, from a time on.
abbrev pub process_error : WaitResult → Option StabilizeError
process_error succeeded = none
process_error r = some (process_failed r)

unfoldable pub process_phase : Terminal → ℕ → Option Stabilized
process_phase e now =
    let start = now + e.read_took now in
    process_wait e start (screen_read e now) >>= λ w.
    some (record { error = process_error w.result; at = start + w.at })

-- A timeout of the first phase is no error.
unfoldable pub after_echo : Terminal → ℕ → WaitResult → Option Stabilized
after_echo e now succeeded = process_phase e now
after_echo e now wait_timed_out = process_phase e now
after_echo e now r = some (record { error = some (echo_failed r); at = now })

-- When the parts are written, for a start.
abbrev pub parts_end : Terminal → ℕ → ℕ
parts_end e start = start + e.read_took start + e.parts_took

unfoldable pub write_stabilize : Terminal → ℕ → Option Stabilized
write_stabilize e start =
    let written = parts_end e start in
    if e.parts_written
    then (echo_wait e written (screen_read e start) >>= λ w. after_echo e (written + w.at) w.result)
    else some (record { error = some part_failed; at = written })
