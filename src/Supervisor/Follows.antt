-- ===== src/Supervisor/Follows.antt =====
-- cmd/server/server.go: the monitor follows the restarts of the agent.
use agentapi_plusplus.Supervisor.{
  ExitStatus, ServerRun, put, start_server, restart_from, restart, other_process, follow, monitor,
}
use agentapi_plusplus.Prelude.{
  subst, ℕ, ◌≡◌, ◌≢◌, ◌<◌, refl, sym, ap, ◌∙◌, inl, inr, Bool, true, false, Option, some, ◌==◌,
  ==_iff, Bool-cases, arith, Text, clash,
}

-- The agent that the facade leads to runs.
pub record IsAlive (s : ServerRun) (c : ℕ) : Type 0 where
  pub leads : s.current ≡ some c
  pub runs : s.running c ≡ true
  pub older : c < s.fresh

-- A step that is no signal, ends no current process, and is no restart that fails.
pub data QuietStep : ServerRun → ServerRun → Type 0 where
  other_ends :
      (p : ℕ) (s : ServerRun)
      → s.current ≢ some p
      → QuietStep s (record s { running = put s.running p false })
  restarts_well : (closed : Bool) (s : ServerRun) → QuietStep s (restart closed true s).0
  wait_returns :
      (result : ExitStatus) (screen : Text) (s : ServerRun)
      → s.monitoring ≡ true
      → s.running s.watched ≡ false
      → QuietStep s (monitor result screen s)

pub data QuietRun (s : ServerRun) : ServerRun → Type 0 where
  here : QuietRun s s
  next : {t u : ServerRun} → QuietRun s t → QuietStep t u → QuietRun s u

-- The server goes on: its agent runs and is waited for, now or after the process that was.
pub record IsServing (s : ServerRun) : Type 0 where
  pub agent : ℕ
  pub alive : IsAlive s agent
  pub open_still : s.serving ≡ true
  pub monitored : s.monitoring ≡ true

start-IsServing : (p : ℕ) → IsServing (start_server p)
unfolding start_server
start-IsServing p = record {
  agent = p;
  alive = record { leads = refl; runs = rw ((==_iff p p).1 refl) refl; older = omega arith };
  open_still = refl;
  monitored = refl;
}

some-ne : {p q : ℕ} {o : Option ℕ} → o ≢ some p → o ≡ some q → (q == p) ≡ false
some-ne {p} {q} ne e = elim (Bool-cases (q == p)) [
  | inl same ↦ absurd (ne (e ∙ ap some ((==_iff q p).0 same)))
  | inr other ↦ other
]

restart-IsServing :
    (closed : Bool) (s : ServerRun) → IsServing s → IsServing (restart closed true s).0
unfolding restart restart_from
restart-IsServing closed s v =
    subst (λ o. IsServing (restart_from closed true o s).0) (sym v.alive.leads)
      (record {
        agent = s.fresh;
        alive = record {
          leads = refl;
          runs = rw ((==_iff s.fresh s.fresh).1 refl) refl;
          older = omega arith;
        };
        open_still = v.open_still;
        monitored = v.monitored;
      })

other_process-found :
    (s : ServerRun) (c : ℕ)
    → s.current ≡ some c
    → s.running c ≡ true
    → s.running s.watched ≡ false
    → other_process s.current s.watched ≡ some c
other_process-found s c e alive dead = elim (Bool-cases (c == s.watched)) [
  | inl same ↦ absurd (clash alive (ap s.running ((==_iff c s.watched).0 same) ∙ dead))
  | inr other ↦ ap (λ o. other_process o s.watched) e ∙ rw other refl
]

QuietStep-IsServing : {s t : ServerRun} → QuietStep s t → IsServing s → IsServing t
unfolding monitor
QuietStep-IsServing (other_ends p s ne) v = record {
  agent = v.agent;
  alive = record {
    leads = v.alive.leads;
    runs = rw (some-ne ne v.alive.leads) v.alive.runs;
    older = v.alive.older;
  };
  open_still = v.open_still;
  monitored = v.monitored;
}
QuietStep-IsServing (restarts_well closed s) v = restart-IsServing closed s v
QuietStep-IsServing (wait_returns result screen s m r) v =
    subst (λ o. IsServing (follow o result screen s))
      (sym (other_process-found s v.agent v.alive.leads v.alive.runs r))
      (record {
        agent = v.agent;
        alive = record { leads = v.alive.leads; runs = v.alive.runs; older = v.alive.older };
        open_still = v.open_still;
        monitored = v.monitored;
      })

-- From its start on, as long as there is no signal, only processes end that were replaced, and every restart
-- starts a new process, the server goes on: the facade leads to a process that runs, the monitor has not
-- returned, and the context is open.
pub QuietRun-IsServing : (p : ℕ) {s : ServerRun} → QuietRun (start_server p) s → IsServing s
QuietRun-IsServing p here = start-IsServing p
QuietRun-IsServing p (next run step) = QuietStep-IsServing step (QuietRun-IsServing p run)
