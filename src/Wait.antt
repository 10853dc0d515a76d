-- ===== src/Wait.antt =====
-- lib/util/util.go: `WaitFor`. Times are nanoseconds since the call; the code between the waits takes no
-- time, while the condition takes as long as it likes. The durations are natural numbers below 2^62, so
-- that doubling them does not overflow.
pub mod Returns
use agentapi_plusplus.Prelude.{
  ℕ, zero, suc, ◌+◌, ◌*◌, min, max, Bool, true, false, Option, none, some, ltb, leb, ◌==◌,
  if◌then◌else◌,
}

-- Without the clock.
pub record WaitTimeout : Type 0 where
  pub timeout : ℕ
  pub min_interval : ℕ
  pub max_interval : ℕ
  pub initial_wait : Bool

-- What the condition returns.
pub data Outcome : Type 0 where
  holds not_yet errs : Outcome

-- What ends a wait: one of the channels of the `select`.
pub data Wake : Type 0 where
  slept cancelled timed_out : Wake

-- The surroundings: what the condition, a closure with a state, returns at a time, with how long it takes,
-- and its state after it; when the context is done, if it is; and which of the channels that are ready the
-- `select` of a number takes.
pub record Surroundings (S : Type 0) : Type 0 where
  pub condition : S → ℕ → Outcome × ℕ
  pub next : S → ℕ → S
  pub done_at : Option ℕ
  pub prefer : ℕ → Wake

abbrev pub or_default : ℕ → ℕ → ℕ
or_default n default = if n == 0 then default else n

-- 10 ms, 500 ms and 10 s.
unfoldable pub with_defaults : WaitTimeout → WaitTimeout
with_defaults w = record w {
  timeout = or_default w.timeout 10_000_000_000;
  min_interval = or_default w.min_interval 10_000_000;
  max_interval = or_default w.max_interval 500_000_000;
}

unfoldable pub is_done : Option ℕ → ℕ → Bool
is_done none t = false
is_done (some d) t = leb d t

abbrev pub earlier : ℕ → Option ℕ → ℕ
earlier t none = t
earlier t (some d) = min t d

-- Whether a channel is ready, for the times at which the two timers fire.
unfoldable pub is_ready : Option ℕ → ℕ → ℕ → ℕ → Wake → Bool
unfolding is_done
is_ready done_at sleep_at timeout_at t slept = leb sleep_at t
is_ready done_at sleep_at timeout_at t cancelled = is_done done_at t
is_ready done_at sleep_at timeout_at t timed_out = leb timeout_at t

-- The time at which the `select` goes on: now, or when the first channel is ready.
unfoldable pub wake_time : Option ℕ → ℕ → ℕ → ℕ → ℕ
wake_time done_at sleep_at timeout_at now = max now (earlier (min sleep_at timeout_at) done_at)

-- The `select`: it takes a channel that is ready.
unfoldable pub wake : Option ℕ → ℕ → ℕ → ℕ → Wake → Wake
unfolding is_ready
wake done_at sleep_at timeout_at t preferred =
    if is_ready done_at sleep_at timeout_at t preferred
    then preferred
    else if is_ready done_at sleep_at timeout_at t slept
    then slept
    else if is_ready done_at sleep_at timeout_at t cancelled
    then cancelled
    else timed_out

-- What `WaitFor` returns: nil, the error of the condition, of the context or of the timeout, or that the
-- intervals are in the wrong order.
pub data WaitResult : Type 0 where
  succeeded condition_failed context_done wait_timed_out bad_intervals : WaitResult

-- The result, when it was returned, and how often the condition was called.
pub record Waited : Type 0 where
  pub result : WaitResult
  pub at : ℕ
  pub calls : ℕ

module _ {S : Type 0} (e : Surroundings S) (timeout_at max_interval : ℕ) where
  -- After a call of the condition, at the time it returns; `rest` is the loop from there on, for the next
  -- interval.
  abbrev pub after_call : (ℕ → Option Waited) → ℕ → ℕ → ℕ → Outcome → Option Waited
  after_call rest interval i t errs =
      some (record { result = condition_failed; at = t; calls = suc i })
  after_call rest interval i t holds = some (record { result = succeeded; at = t; calls = suc i })
  after_call rest interval i t not_yet = rest (min (interval * 2) max_interval)

  -- After the `select`; `check` is the loop from the call of the condition on.
  abbrev pub after_wake : Option Waited → ℕ → ℕ → Wake → Option Waited
  after_wake check i t slept = check
  after_wake check i t cancelled = some (record { result = context_done; at = t; calls = i })
  after_wake check i t timed_out = some (record { result = wait_timed_out; at = t; calls = i })

  -- The loop, on fuel, with `waitForTimer`; the sleep timer always fires an interval after `now`.
  unfoldable pub wait_loop : ℕ → Bool → ℕ → ℕ → ℕ → S → Option Waited
  wait_loop zero waits interval now i s = none
  wait_loop (suc fuel) waits interval now i s =
      let t = if waits then wake_time e.done_at (now + interval) timeout_at now else now in
      let end = t + (e.condition s t).1 in
      let check =
        after_call (λ next. wait_loop fuel true next end (suc i) (e.next s t)) interval i end
          (e.condition s t).0 in
      if waits
      then after_wake check i t (wake e.done_at (now + interval) timeout_at t (e.prefer i))
      else check

-- Each wait that ends by the sleep timer takes a nanosecond or more of the timeout, so this fuel is enough.
unfoldable pub wait_for : {S : Type 0} → Surroundings S → S → WaitTimeout → Option Waited
unfolding with_defaults wait_loop
wait_for e s w =
    let d = with_defaults w in
    if ltb d.max_interval d.min_interval
    then some (record { result = bad_intervals; at = 0; calls = 0 })
    else wait_loop e d.timeout d.max_interval (suc (suc d.timeout)) d.initial_wait d.min_interval 0
        0 s
