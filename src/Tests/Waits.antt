-- ===== src/Tests/Waits.antt =====
-- lib/util/util.go, and `writeStabilize` of lib/screentracker/pty_conversation.go, at concrete inputs.
use agentapi_plusplus.Conversation.Send.Stabilize.{
  after_echo, echo_condition, echo_wait, last_return, process_condition, process_phase,
  process_wait,
}
use agentapi_plusplus.Prelude.{text_eq}
use agentapi_plusplus.Wait.{wake, wake_time}
use agentapi_plusplus.Conversation.Send.Stabilize.{Terminal, Stabilized, write_stabilize}
use agentapi_plusplus.Conversation.Send.Stabilize.Returns.{
  longest_read, HasReacted, write_stabilize_lem,
}
use agentapi_plusplus.Prelude.{
  ℕ, ◌+◌, ◌≤◌, ◌≡◌, refl, true, none, some, ltb, if◌then◌else◌, arith, codes, [],
}
use agentapi_plusplus.Wait.{
  WaitTimeout, holds, not_yet, slept, Surroundings, with_defaults, succeeded, wait_timed_out,
  Waited, wait_for,
}
use agentapi_plusplus.Wait.Returns.{IsReturn, wait_for_lem}

-- A condition that takes 5 ns and holds from 100 ns on.
abbrev slow : Surroundings Unit
slow = record {
  condition = λ s t. (if ltb t 100 then not_yet else holds, 5);
  next = λ s t. s;
  done_at = none;
  prefer = λ i. slept;
}

abbrev short_timeout : WaitTimeout
short_timeout = record { timeout = 500; min_interval = 10; max_interval = 30; initial_wait = true }

wait_run :
    wait_for slow tt short_timeout ≡ some (record { result = succeeded; at = 110; calls = 4 })
unfolding wait_for wake wake_time
wait_run = refl

late_run :
    wait_for slow tt (record short_timeout { timeout = 50 })
    ≡ some (record { result = wait_timed_out; at = 50; calls = 2 })
unfolding wait_for wake wake_time
late_run = refl

slow_short : (s : Unit) (t : ℕ) → (slow.condition s t).1 ≤ 5
slow_short s t = omega arith

wait_for_lem_example :
    (r : Waited) × (wait_for slow tt short_timeout ≡ some r)
    × IsReturn slow tt (with_defaults short_timeout).timeout 5 r
unfolding with_defaults
wait_for_lem_example = wait_for_lem slow tt short_timeout 5 (omega arith) slow_short

-- A screen that shows the input after 100 ms, and an answer after three seconds.
abbrev terminal : Terminal
terminal = record {
  screen = λ t.
      if ltb t 100_000_000
      then []
      else if ltb t 3_000_000_000
      then codes "hi"
      else codes "hi\nanswer";
  read_took = λ t. if ltb t 3_010_000_000 then 0 else 16_000_000;
  parts_written = true;
  parts_took = 0;
  return_written = λ t. true;
  return_took = λ t. 1_000_000;
  done_at = none;
  prefer = λ i. slept;
  after_timer = λ t. true;
}

stabilize_run : write_stabilize terminal 0 ≡ some (record { error = none; at = 3_092_000_000 })
unfolding write_stabilize echo_wait wait_for wake wake_time echo_condition text_eq after_echo
    process_phase process_wait process_condition last_return
stabilize_run = refl

terminal_reads : (t : ℕ) → terminal.read_took t ≤ longest_read
terminal_reads t = ground arith

write_stabilize_lem_example :
    (r : Stabilized) × (write_stabilize terminal 0 ≡ some r)
    × (r.at ≤ 0 + 0 + 1_000_000 + 18_265_000_000)
    × (r.error ≡ none → HasReacted terminal 0 r.at)
write_stabilize_lem_example =
    write_stabilize_lem terminal 0 1_000_000 terminal_reads (λ t. omega arith)
