-- ===== src/Supervisor.antt =====
-- cmd/server/server.go: the agent process under a supervisor, the monitor of its exit, and the shutdown;
-- lib/termexec/swappable.go: the process that can be replaced. A process is a number. Whether `Close` ends a
-- process, whether a new one starts, and what `Wait` returns are arguments.
pub mod Follows
pub mod Shutdown
use agentapi_plusplus.Prelude.{
  ℕ, suc, ◌≡◌, Bool, true, false, not, ◌&&◌, Option, none, some, ◌==◌, if◌then◌else◌, Text,
}
use agentapi_plusplus.Strings.{trim_space}

-- What `Wait` returns for a process that has ended.
pub data ExitStatus : Type 0 where
  exit_zero exit_non_zero wait_failed : ExitStatus

-- The error that the monitor sends: with the last screen, or that of `Wait`.
pub data ExitError : Type 0 where
  non_zero : Text → ExitError
  failed_to_wait : ExitError

-- The variable `process` of `runServer`, the process of the facade, the one that the monitor waits for,
-- the processes that run, and the next process to start; whether the monitor has returned, what it sent,
-- and whether the context of the server is still open.
pub record ServerRun : Type 0 where
  pub process : ℕ
  pub current : Option ℕ
  pub watched : ℕ
  pub running : ℕ → Bool
  pub fresh : ℕ
  pub monitoring : Bool
  pub exit_error : Option ExitError
  pub serving : Bool

abbrev pub put : (ℕ → Bool) → ℕ → Bool → ℕ → Bool
put f p b q = if q == p then b else f q

-- `runServer` up to the start of the server, on the PTY transport.
unfoldable pub start_server : ℕ → ServerRun
start_server p = record {
  process = p;
  current = some p;
  watched = p;
  running = put (λ q. false) p true;
  fresh = suc p;
  monitoring = true;
  exit_error = none;
  serving = true;
}

-- `Close` on a process, by whether that ends it.
unfoldable pub close_process : Bool → ℕ → (ℕ → Bool) → ℕ → Bool
close_process ends p running = put running p (running p && not ends)

-- `Restart` with the process that it finds, and whether it returned no error.
unfoldable pub restart_from : Bool → Bool → Option ℕ → ServerRun → ServerRun × Bool
unfolding close_process
restart_from ends starts none s = (s, false)
restart_from ends starts (some old) s =
    let closed = close_process ends old s.running in
    if starts
    then (
      record s { running = put closed s.fresh true; current = some s.fresh; fresh = suc s.fresh },
      true,
    )
    else (record s { running = closed }, false)

unfoldable pub restart : Bool → Bool → ServerRun → ServerRun × Bool
unfolding restart_from
restart ends starts s = restart_from ends starts s.current s

-- The process that is not the one waited for, if there is one.
abbrev pub other_process : Option ℕ → ℕ → Option ℕ
other_process none p = none
other_process (some q) p = if q == p then none else some q

unfoldable pub exit_error_of : ExitStatus → Text → Option ExitError
unfolding trim_space
exit_error_of exit_zero screen = none
exit_error_of exit_non_zero screen = some (non_zero (trim_space screen))
exit_error_of wait_failed screen = some failed_to_wait

-- A round of the monitor, once `Wait` has returned: it follows the swap, or ends the server.
abbrev pub follow : Option ℕ → ExitStatus → Text → ServerRun → ServerRun
follow (some q) result screen s = record s { watched = q }
follow none result screen s = record s {
  monitoring = false;
  exit_error = exit_error_of result screen;
  serving = false;
}

unfoldable pub monitor : ExitStatus → Text → ServerRun → ServerRun
unfolding exit_error_of
monitor result screen s = follow (other_process s.current s.watched) result screen s

-- What can happen to the server: a process ends by itself, the supervisor restarts the agent, `Wait` of the
-- monitor returns, or a signal cancels the context.
pub data Step : ServerRun → ServerRun → Type 0 where
  ended : (p : ℕ) (s : ServerRun) → Step s (record s { running = put s.running p false })
  restarts : (closed starts : Bool) (s : ServerRun) → Step s (restart closed starts s).0
  waits :
      (result : ExitStatus) (screen : Text) (s : ServerRun)
      → s.monitoring ≡ true
      → s.running s.watched ≡ false
      → Step s (monitor result screen s)
  signalled : (s : ServerRun) → Step s (record s { serving = false })

-- What `runServer` returns, if not nil.
pub data RunError : Type 0 where
  failed_to_start : RunError
  agent_exited : ExitError → RunError

-- The second `select`, with the process that it closes if the channel of the monitor is empty and open.
abbrev pub end_of_agent : Bool → Bool → ServerRun → Option RunError × (ℕ → Bool)
end_of_agent was_closed ends s = elim s.exit_error [
  | some err ↦ (some (agent_exited err), s.running)
  | none ↦ (none, if was_closed then s.running else close_process ends s.process s.running)
]

-- The end of `runServer`, from its first `select` on: the error it returns, if any, and the processes that
-- still run. The first argument says whether that `select` took an error of the HTTP server, the second
-- whether the channel of the monitor was closed by the time of the other `select`.
abbrev pub shut_down : Bool → Bool → Bool → ServerRun → Option RunError × (ℕ → Bool)
shut_down true was_closed ends s = (some failed_to_start, s.running)
shut_down false was_closed ends s = end_of_agent was_closed ends s
