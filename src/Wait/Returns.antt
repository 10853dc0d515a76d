-- ===== src/Wait/Returns.antt =====
-- lib/util/util.go: `WaitFor` returns.
use agentapi_plusplus.Prelude.{
  sym, ℕ, zero, suc, ◌+◌, ◌*◌, min, max, ◌≤◌, ◌≡◌, refl, inl, inr, Bool, true, false, Option, none,
  some, Bool-cases, arith, leb→le, ltb-false,
}
use agentapi_plusplus.Wait.{
  or_default, after_wake, after_call, WaitTimeout, Outcome, holds, not_yet, errs, Wake, slept,
  cancelled, timed_out, Surroundings, with_defaults, is_done, earlier, is_ready, wake_time, wake,
  succeeded, condition_failed, context_done, wait_timed_out, Waited, wait_loop, wait_for,
}

earlier-le : (t : ℕ) (d : Option ℕ) → earlier t d ≤ t
earlier-le t none = omega arith
earlier-le t (some d) = omega arith

wake_time-le :
    (done_at : Option ℕ) (now sleep_at timeout_at : ℕ)
    → wake_time done_at sleep_at timeout_at now ≤ max now timeout_at
unfolding wake_time
wake_time-le none now sleep_at timeout_at = omega arith
wake_time-le (some d) now sleep_at timeout_at = omega arith

-- What a wait that ended means, by how it ended.
abbrev Woke : Option ℕ → ℕ → ℕ → ℕ → Wake → Type 0
Woke done_at now interval timeout_at slept =
    (wake_time done_at (now + interval) timeout_at now ≡ now + interval)
    × (now + interval ≤ timeout_at)
Woke done_at now interval timeout_at cancelled =
    (d : ℕ) × (done_at ≡ some d) × (d ≤ wake_time done_at (now + interval) timeout_at now)
Woke done_at now interval timeout_at timed_out =
    timeout_at ≤ wake_time done_at (now + interval) timeout_at now

is_ready-Woke :
    (done_at : Option ℕ) (now interval timeout_at : ℕ) (w : Wake)
    → 1 ≤ interval
    → is_ready done_at
        (now + interval)
        timeout_at
        (wake_time done_at (now + interval) timeout_at now)
        w
      ≡ true
    → Woke done_at now interval timeout_at w
unfolding is_ready wake_time is_done
is_ready-Woke none now interval timeout_at slept h k = ground arith
is_ready-Woke (some d) now interval timeout_at slept h k = ground arith
is_ready-Woke none now interval timeout_at cancelled h k = cc
is_ready-Woke (some d) now interval timeout_at cancelled h k = (d, refl, leb→le d _ k)
is_ready-Woke none now interval timeout_at timed_out h k = leb→le timeout_at _ k
is_ready-Woke (some d) now interval timeout_at timed_out h k = leb→le timeout_at _ k

-- One of the channels is ready.
some_ready :
    (done_at : Option ℕ) (now interval timeout_at : ℕ)
    → let t = wake_time done_at (now + interval) timeout_at now in
      is_ready done_at (now + interval) timeout_at t slept ≡ false
      → is_ready done_at (now + interval) timeout_at t cancelled ≡ false
      → is_ready done_at (now + interval) timeout_at t timed_out ≡ true
unfolding is_ready wake_time is_done
some_ready none now interval timeout_at h k = ground arith
some_ready (some d) now interval timeout_at h k = ground arith

wake-Woke :
    (done_at : Option ℕ) (now interval timeout_at : ℕ) (preferred : Wake)
    → 1 ≤ interval
    → let t = wake_time done_at (now + interval) timeout_at now in
      Woke done_at now interval timeout_at (wake done_at (now + interval) timeout_at t preferred)
unfolding wake
wake-Woke done_at now interval timeout_at preferred h =
    let t = wake_time done_at (now + interval) timeout_at now in
    let ready : Wake → Bool = is_ready done_at (now + interval) timeout_at t in
    let woke : (w : Wake) → ready w ≡ true → Woke done_at now interval timeout_at w =
      λ w. is_ready-Woke done_at now interval timeout_at w h in
    elim (Bool-cases (ready preferred)) [
      | inl p ↦ rw (p, Woke) (woke preferred p)
      | inr p ↦ elim (Bool-cases (ready slept)) [
        | inl q ↦ rw (p, q) (woke slept q)
        | inr q ↦ elim (Bool-cases (ready cancelled)) [
          | inl k ↦ rw (p, q, k) (woke cancelled k)
          | inr k ↦ rw (p, q, k) (woke timed_out (some_ready done_at now interval timeout_at q k))
        ]
      ]
    ]

-- The calls of the condition, one after the other: the call of a number, its state and its time. All calls
-- before it returned that the condition does not hold yet.
pub data IsCall {S : Type 0} (e : Surroundings S) (s₀ : S) : ℕ → S → ℕ → Type 0 where
  first : (t : ℕ) → IsCall e s₀ 0 s₀ t
  again :
      {i : ℕ} {s : S} {t : ℕ}
      → IsCall e s₀ i s t
      → (e.condition s t).0 ≡ not_yet
      → (u : ℕ) → t + (e.condition s t).1 ≤ u
      → IsCall e s₀ (suc i) (e.next s t) u

-- The last call, on whose return `WaitFor` returned, gave an outcome.
pub record IsLast {S : Type 0} (e : Surroundings S) (s₀ : S) (o : Outcome) (r : Waited)
    : Type 0 where
  pub number : ℕ
  pub state : S
  pub time : ℕ
  pub call : IsCall e s₀ number state time
  pub counted : r.calls ≡ suc number
  pub gave : (e.condition state time).0 ≡ o
  pub ends : r.at ≡ time + (e.condition state time).1

-- What a result of `WaitFor` means, for the timeout and the longest time that a call of the condition takes.
pub record IsReturn {S : Type 0} (e : Surroundings S) (s₀ : S) (timeout_at longest : ℕ) (r : Waited)
    : Type 0 where
  pub on_time : r.at ≤ timeout_at + longest
  pub late : r.result ≡ wait_timed_out → timeout_at ≤ r.at
  pub done : r.result ≡ context_done → (d : ℕ) × (e.done_at ≡ some d) × (d ≤ r.at)
  pub held : r.result ≡ succeeded → IsLast e s₀ holds r
  pub erred : r.result ≡ condition_failed → IsLast e s₀ errs r

module _ {S : Type 0} (e : Surroundings S) (s₀ : S) (timeout_at max_interval longest : ℕ) where
  abbrev Returns : Option Waited → Type 0
  Returns o = (r : Waited) × (o ≡ some r) × IsReturn e s₀ timeout_at longest r

  after_call-Returns :
      (rest : ℕ → Option Waited) (interval i : ℕ) (s : S) (t : ℕ) (o : Outcome)
      → IsCall e s₀ i s t
      → o ≡ (e.condition s t).0
      → t + (e.condition s t).1 ≤ timeout_at + longest
      → (not_yet ≡ (e.condition s t).0 → Returns (rest (min (interval * 2) max_interval)))
      → Returns (after_call e timeout_at max_interval rest interval i (t + (e.condition s t).1) o)
  after_call-Returns rest interval i s t holds c p h more = (
    record { result = succeeded; at = t + (e.condition s t).1; calls = suc i },
    refl,
    record {
      on_time = h;
      late = λ q. cc;
      done = λ q. cc;
      held = λ q. record {
        number = i;
        state = s;
        time = t;
        call = c;
        counted = refl;
        gave = sym p;
        ends = refl;
      };
      erred = λ q. cc;
    },
  )
  after_call-Returns rest interval i s t errs c p h more = (
    record { result = condition_failed; at = t + (e.condition s t).1; calls = suc i },
    refl,
    record {
      on_time = h;
      late = λ q. cc;
      done = λ q. cc;
      held = λ q. cc;
      erred = λ q. record {
        number = i;
        state = s;
        time = t;
        call = c;
        counted = refl;
        gave = sym p;
        ends = refl;
      };
    },
  )
  after_call-Returns rest interval i s t not_yet c p h more = more p

  after_wake-Returns :
      (check : Option Waited) (interval now i : ℕ) (w : Wake)
      → Woke e.done_at now interval timeout_at w
      → now ≤ timeout_at + longest
      → (Woke e.done_at now interval timeout_at slept → Returns check)
      → Returns (
          after_wake e timeout_at max_interval check i
            (wake_time e.done_at (now + interval) timeout_at now)
            w)
  after_wake-Returns check interval now i slept h k more = more h
  after_wake-Returns check interval now i cancelled h k more = (
    record {
      result = context_done;
      at = wake_time e.done_at (now + interval) timeout_at now;
      calls = i;
    },
    refl,
    record {
      on_time = omega (arith, k, wake_time-le e.done_at now (now + interval) timeout_at);
      late = λ q. cc;
      done = λ q. h;
      held = λ q. cc;
      erred = λ q. cc;
    },
  )
  after_wake-Returns check interval now i timed_out h k more = (
    record {
      result = wait_timed_out;
      at = wake_time e.done_at (now + interval) timeout_at now;
      calls = i;
    },
    refl,
    record {
      on_time = omega (arith, k, wake_time-le e.done_at now (now + interval) timeout_at);
      late = λ q. h;
      done = λ q. cc;
      held = λ q. cc;
      erred = λ q. cc;
    },
  )

  module _ (short : (s : S) (t : ℕ) → (e.condition s t).1 ≤ longest)
      (positive : 1 ≤ max_interval) where
    wait_loop-Returns :
        (fuel interval now i : ℕ) (s : S)
        → 1 ≤ fuel
        → timeout_at + 1 ≤ fuel + now
        → 1 ≤ interval
        → now ≤ timeout_at + longest
        → ((t : ℕ) → now ≤ t → IsCall e s₀ i s t)
        → Returns (wait_loop e timeout_at max_interval fuel true interval now i s)
    unfolding wait_loop
    wait_loop-Returns zero interval now i s f g h k calls = absurd (omega arith)
    wait_loop-Returns (suc fuel) interval now i s f g h k calls =
        let t = wake_time e.done_at (now + interval) timeout_at now in
        let end = t + (e.condition s t).1 in
        after_wake-Returns _ interval now i
          (wake e.done_at (now + interval) timeout_at t (e.prefer i))
          (wake-Woke e.done_at now interval timeout_at (e.prefer i) h) k
          (λ p.
            let on_time : end ≤ timeout_at + longest = omega (arith, p.0, p.1, short s t) in
            let call : IsCall e s₀ i s t = calls t (omega (arith, p.0)) in
            after_call-Returns
              (λ next. wait_loop e timeout_at max_interval fuel true next end (suc i) (e.next s t))
              interval i s t (e.condition s t).0 call refl on_time
              (λ q.
                wait_loop-Returns fuel (min (interval * 2) max_interval) end (suc i) (e.next s t)
                  (omega (arith, g, h, p.1)) (omega (arith, g, h, p.0)) (omega (arith, h, positive))
                  on_time (again call (sym q))))

    wait_loop_first :
        (waits : Bool) (interval : ℕ)
        → 1 ≤ interval
        → Returns (wait_loop e timeout_at max_interval (suc (suc timeout_at)) waits interval 0 0 s₀)
    unfolding wait_loop
    wait_loop_first true interval h =
        wait_loop-Returns (suc (suc timeout_at)) interval 0 0 s₀ (omega arith) (omega arith) h
          (omega arith) (λ t p. first t)
    wait_loop_first false interval h =
        let end = 0 + (e.condition s₀ 0).1 in
        let on_time : end ≤ timeout_at + longest = omega (arith, short s₀ 0) in
        after_call-Returns
          (λ next.
            wait_loop e timeout_at max_interval (suc timeout_at) true next end 1 (e.next s₀ 0))
          interval 0 s₀ 0 (e.condition s₀ 0).0 (first 0) refl on_time
          (λ q.
            wait_loop-Returns (suc timeout_at) (min (interval * 2) max_interval) end 1 (e.next s₀ 0)
              (omega arith) (omega arith) (omega (arith, h, positive)) on_time
              (again (first 0) (sym q)))

or_default-pos : (n default : ℕ) → 1 ≤ default → 1 ≤ or_default n default
or_default-pos n default h = ground arith

-- However the condition behaves and the `select` chooses, `WaitFor` returns, provided that the calls of the
-- condition return within some time: at latest that time after the timeout. It reports the timeout only
-- once it is over, and the end of the context only once it is done. It succeeds only at the end of a call
-- that held, and returns an error of the condition only at the end of a call that gave it; this is the last
-- call, and all calls before it returned that the condition does not hold yet. The intervals have to be in
-- order.
pub wait_for_lem :
    {S : Type 0} (e : Surroundings S) (s : S) (w : WaitTimeout) (longest : ℕ)
    → (with_defaults w).min_interval ≤ (with_defaults w).max_interval
    → ((s : S) (t : ℕ) → (e.condition s t).1 ≤ longest)
    → (r : Waited) × (wait_for e s w ≡ some r) × IsReturn e s (with_defaults w).timeout longest r
unfolding wait_for
wait_for_lem e s w longest h short =
    let d = with_defaults w in
    rw (ltb-false d.max_interval d.min_interval h) (
      wait_loop_first e s d.timeout d.max_interval longest short
        (or_default-pos w.max_interval 500_000_000 (omega arith)) d.initial_wait d.min_interval
        (or_default-pos w.min_interval 10_000_000 (omega arith)))
