-- ===== src/Supervisor/Shutdown.antt =====
-- cmd/server/server.go: what still runs after the end of the server.
use agentapi_plusplus.Supervisor.{
  ExitStatus, ServerRun, start_server, failed_to_start, close_process, restart_from, restart,
  other_process, follow, monitor, Step, ended, restarts, waits, signalled, shut_down,
}
use agentapi_plusplus.Prelude.{
  subst, ℕ, ◌≡◌, ◌≤◌, ◌<◌, refl, sym, ap, ◌∙◌, Bool, true, false, Option, none, some, ==_iff, ◌==◌,
  if◌then◌else◌, arith, Text,
}

pub data Reach (s : ServerRun) : ServerRun → Type 0 where
  here : Reach s s
  next : {t u : ServerRun} → Reach s t → Step t u → Reach s u

-- The facade leads to the process of the start or to a later one, and the monitor is silent until it returns.
record IsOrdered (p : ℕ) (s : ServerRun) : Type 0 where
  first : s.process ≡ p
  below : p < s.fresh
  agent : ℕ
  leads : s.current ≡ some agent
  since : p ≤ agent
  older : agent < s.fresh
  silent : s.monitoring ≡ true → s.exit_error ≡ none

restart_from-IsOrdered :
    {p : ℕ} (closed starts : Bool) (s : ServerRun)
    → IsOrdered p s
    → (o : Option ℕ) → IsOrdered p (restart_from closed starts o s).0
unfolding restart_from
restart_from-IsOrdered closed starts s v none = v
restart_from-IsOrdered closed false s v (some old) = record {
  first = v.first;
  below = v.below;
  agent = v.agent;
  leads = v.leads;
  since = v.since;
  older = v.older;
  silent = v.silent;
}
restart_from-IsOrdered closed true s v (some old) = record {
  first = v.first;
  below = omega (arith, v.below);
  agent = s.fresh;
  leads = refl;
  since = omega (arith, v.below);
  older = omega arith;
  silent = v.silent;
}

follow-IsOrdered :
    {p : ℕ} (result : ExitStatus) (screen : Text) (s : ServerRun)
    → IsOrdered p s
    → (o : Option ℕ) → IsOrdered p (follow o result screen s)
follow-IsOrdered result screen s v (some q) = record {
  first = v.first;
  below = v.below;
  agent = v.agent;
  leads = v.leads;
  since = v.since;
  older = v.older;
  silent = v.silent;
}
follow-IsOrdered result screen s v none = record {
  first = v.first;
  below = v.below;
  agent = v.agent;
  leads = v.leads;
  since = v.since;
  older = v.older;
  silent = λ h. cc;
}

Step-IsOrdered : {p : ℕ} {s t : ServerRun} → Step s t → IsOrdered p s → IsOrdered p t
unfolding restart monitor
Step-IsOrdered (ended q s) v = record {
  first = v.first;
  below = v.below;
  agent = v.agent;
  leads = v.leads;
  since = v.since;
  older = v.older;
  silent = v.silent;
}
Step-IsOrdered (restarts closed starts s) v = restart_from-IsOrdered closed starts s v s.current
Step-IsOrdered (waits result screen s m r) v =
    follow-IsOrdered result screen s v (other_process s.current s.watched)
Step-IsOrdered (signalled s) v = record {
  first = v.first;
  below = v.below;
  agent = v.agent;
  leads = v.leads;
  since = v.since;
  older = v.older;
  silent = v.silent;
}

Reach-IsOrdered : (p : ℕ) {s : ServerRun} → Reach (start_server p) s → IsOrdered p s
unfolding start_server
Reach-IsOrdered p here = record {
  first = refl;
  below = omega arith;
  agent = p;
  leads = refl;
  since = omega arith;
  older = omega arith;
  silent = λ h. refl;
}
Reach-IsOrdered p (next r step) = Step-IsOrdered step (Reach-IsOrdered p r)

some-injective : {a b : ℕ} → some a ≡ some b → a ≡ b
some-injective h = cc

shut_down-silent :
    (ends : Bool) (s : ServerRun)
    → s.exit_error ≡ none
    → shut_down false false ends s ≡ (none, close_process ends s.process s.running)
shut_down-silent ends s e = rw e refl

close_process_ends :
    (p q : ℕ) (running : ℕ → Bool)
    → close_process true p running q ≡ (if q == p then false else running q)
unfolding close_process
close_process_ends p q running = ground (arith, ==_iff q p)

-- If the server ends while its monitor has not returned, the agent is the process of its start or a later
-- one. If the HTTP server failed, an error is returned and every process runs on. Otherwise no error is
-- returned and, given that `Close` ends a process, the same processes run afterwards as before, without the
-- process of the start: an agent that was started later runs on.
pub shut_down_lem :
    (p c : ℕ) (s : ServerRun)
    → Reach (start_server p) s
    → s.monitoring ≡ true
    → s.current ≡ some c
    → (p ≤ c)
      × (shut_down true false true s ≡ (some failed_to_start, s.running))
      × ((shut_down false false true s).0 ≡ none)
      × ((q : ℕ) → (shut_down false false true s).1 q ≡ (if q == p then false else s.running q))
shut_down_lem p c s reached m e =
    let v = Reach-IsOrdered p reached in
    let same = shut_down-silent true s (v.silent m) in
    (
      subst (λ q. p ≤ q) (some-injective (sym v.leads ∙ e)) v.since,
      refl,
      ap (λ r. r.0) same,
      λ q.
          ap (λ r. r.1 q) same
          ∙ close_process_ends s.process q s.running
          ∙ ap (λ o. if q == o then false else s.running q) v.first,
    )
