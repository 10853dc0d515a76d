-- ===== src/Routing/Sessions.antt =====
-- internal/routing/agent_bifrost.go: the sessions of `getOrCreateSession`.
use agentapi_plusplus.Routing.{
  SessionId, AgentSession, hour, has_id, SessionScan, scan, new_id, add_session, or_create,
  get_or_create_session,
}
use agentapi_plusplus.Prelude.{
  ℕ, suc, ◌-◌, ◌≤◌, ◌<◌, ◌≡◌, ◌⊎◌, refl, sym, subst, ap, ◌∙◌, inl, inr, true, false, List, [], ◌∷◌,
  Option, none, some, ltb, ◌==◌, if◌then◌else◌, length, Text, text_eq, text_eq_refl, Bool-cases,
  arith,
}

-- No session is the agent's.
abbrev pub IsAbsent : Text → List AgentSession → Type 0
IsAbsent agent [] = Unit
IsAbsent agent (s ∷ sessions) = (text_eq s.agent agent ≡ false) × IsAbsent agent sessions

-- No two sessions are of one agent.
abbrev pub AreSeparate : List AgentSession → Type 0
AreSeparate [] = Unit
AreSeparate (s ∷ sessions) = IsAbsent s.agent sessions × AreSeparate sessions

-- The identifiers were made before a time.
abbrev pub AreBefore : ℕ → List AgentSession → Type 0
AreBefore t [] = Unit
AreBefore t (s ∷ sessions) = (s.id.nanos < t) × AreBefore t sessions

abbrev pub IsIn : AgentSession → List AgentSession → Type 0
IsIn s [] = ⊥
IsIn s (x ∷ sessions) = (s ≡ x) ⊎ IsIn s sessions

module _ (clock : ℕ → ℕ) (agent : Text) where
  -- A reading of the clock, from one on and before another, at which a session is younger than an hour.
  abbrev pub IsYoung : AgentSession → ℕ → ℕ → Type 0
  IsYoung s n m = (k : ℕ) × (n ≤ k) × (k < m) × (ltb (clock k - s.started) hour ≡ true)

  abbrev step : AgentSession → ℕ → ℕ
  step s n = if text_eq s.agent agent then suc n else n

  scan-own :
      (s : AgentSession) (ss : List AgentSession) (n : ℕ)
      → text_eq s.agent agent ≡ true
      → ltb (clock n - s.started) hour ≡ true
      → scan clock agent (s ∷ ss) n ≡ record { found = some s.id; kept = s ∷ ss; next = suc n }
  unfolding scan
  scan-own s ss n e l = rw (e, l) refl

  scan-old :
      (s : AgentSession) (ss : List AgentSession) (n : ℕ)
      → text_eq s.agent agent ≡ true
      → ltb (clock n - s.started) hour ≡ false
      → scan clock agent (s ∷ ss) n ≡ scan clock agent ss (suc n)
  unfolding scan
  scan-old s ss n e l = rw (e, l) refl

  scan-other :
      (s : AgentSession) (ss : List AgentSession) (n : ℕ)
      → text_eq s.agent agent ≡ false
      → scan clock agent (s ∷ ss) n
        ≡ (let rest = scan clock agent ss n in record rest { kept = s ∷ rest.kept })
  unfolding scan
  scan-other s ss n e = rw e refl

  -- Scanning again gives the same session for an hour.
  abbrev pub IsStable : SessionId → ℕ → List AgentSession → Type 0
  IsStable id started ss =
      (k : ℕ)
      → ltb (clock k - started) hour ≡ true
      → scan clock agent ss k ≡ record { found = some id; kept = ss; next = suc k }

  -- What a scan leaves: no new agents, no new identifiers, a reading that is not earlier, and either no
  -- session of the agent or the one that was found.
  record IsScanned (ss : List AgentSession) (n : ℕ) (r : SessionScan) : Type 0 where
    absent : (other : Text) → IsAbsent other ss → IsAbsent other r.kept
    before : (t : ℕ) → AreBefore t ss → AreBefore t r.kept
    later : n ≤ r.next
    separate : AreSeparate r.kept
    outcome :
        ((r.found ≡ none) × IsAbsent agent r.kept)
        ⊎ ((s : AgentSession) × (r.found ≡ some s.id)
            × (text_eq s.agent agent ≡ true)
            × IsIn s ss
            × IsIn s r.kept
            × IsYoung s n r.next
            × IsStable s.id s.started r.kept)

  abbrev also : AgentSession → SessionScan → SessionScan
  also s rest = record rest { kept = s ∷ rest.kept }

  other-IsScanned :
      (s : AgentSession) (ss : List AgentSession) (n : ℕ) (r : SessionScan)
      → text_eq s.agent agent ≡ false
      → IsAbsent s.agent ss
      → IsScanned ss n r
      → IsScanned (s ∷ ss) n (record r { kept = s ∷ r.kept })
  other-IsScanned s ss n r e a v = record {
    absent = λ other h. (h.0, v.absent other h.1);
    before = λ t h. (h.0, v.before t h.1);
    later = v.later;
    separate = (v.absent s.agent a, v.separate);
    outcome = elim v.outcome [
      | inl (f, b) ↦ inl (f, (e, b))
      | inr (own, f, same, old, now, young, again) ↦ inr (
        own,
        f,
        same,
        inr old,
        inr now,
        young,
        λ k l. scan-other s r.kept k e ∙ ap (also s) (again k l),
      )
    ];
  }

  scan-IsScanned :
      (ss : List AgentSession) (n : ℕ) → AreSeparate ss → IsScanned ss n (scan clock agent ss n)
  unfolding scan
  scan-IsScanned [] n h = record {
    absent = λ other k. k;
    before = λ t k. k;
    later = omega arith;
    separate = tt;
    outcome = inl (refl, tt);
  }
  scan-IsScanned (s ∷ ss) n h = elim (Bool-cases (text_eq s.agent agent)) [
    | inr e ↦
        subst (IsScanned (s ∷ ss) n) (sym (scan-other s ss n e))
          (other-IsScanned s ss n (scan clock agent ss n) e h.0 (scan-IsScanned ss n h.1))
    | inl e ↦ elim (Bool-cases (ltb (clock n - s.started) hour)) [
      | inl l ↦ subst (IsScanned (s ∷ ss) n) (sym (scan-own s ss n e l)) (record {
        absent = λ other k. k;
        before = λ t k. k;
        later = omega arith;
        separate = h;
        outcome = inr (
          s,
          refl,
          e,
          inl refl,
          inl refl,
          (n, omega arith, omega arith, l),
          λ k l'. scan-own s ss k e l',
        );
      })
      | inr l ↦ subst (IsScanned (s ∷ ss) n) (sym (scan-old s ss n e l)) (
          let v = scan-IsScanned ss (suc n) h.1 in
          record {
            absent = λ other k. v.absent other k.1;
            before = λ t k. v.before t k.1;
            later = omega (arith, v.later);
            separate = v.separate;
            outcome = elim v.outcome [
              | inl none_left ↦ inl none_left
              | inr (own, f, same, old, now, (k, from, to, y), again) ↦
                  inr (own, f, same, inr old, now, (k, omega (arith, from), to, y), again)
            ];
          })
    ]
  ]

  fresh_id :
      (t number : ℕ) (ss : List AgentSession)
      → AreBefore t ss
      → has_id (record { nanos = t; number = number }) ss ≡ false
  fresh_id t number [] h = refl
  fresh_id t number (s ∷ ss) h = rw (ne-false s.id.nanos t h.0) (fresh_id t number ss h.1)
    where
      ne-false : (a b : ℕ) → a < b → (a == b) ≡ false
      ne-false a b k = ground arith

  new_id_lem :
      (ss : List AgentSession) (n : ℕ)
      → AreBefore (clock n) ss
      → new_id clock (suc (length ss)) ss n
        ≡ some (record { nanos = clock n; number = suc (length ss) }, suc n)
  unfolding new_id
  new_id_lem ss n h = rw (fresh_id (clock n) (suc (length ss)) ss h) refl

  before_later : (t u : ℕ) (ss : List AgentSession) → t ≤ u → AreBefore t ss → AreBefore u ss
  before_later t u [] h k = tt
  before_later t u (s ∷ ss) h k = (omega (arith, k.0), before_later t u ss h k.1)

  -- A result for some sessions and a reading: a session of the agent that is among the new sessions, of
  -- which no two are of one agent. It is an old one that is younger than an hour, or it starts at a
  -- reading of the call. It is found again for an hour from its start.
  abbrev pub IsServed : List AgentSession → ℕ → Option (SessionId × List AgentSession × ℕ) → Type 0
  IsServed old n result =
      (s : AgentSession) × (ss : List AgentSession) × (m : ℕ) × (result ≡ some (s.id, ss, m))
      × (text_eq s.agent agent ≡ true)
      × IsIn s ss
      × AreSeparate ss
      × ((IsIn s old × IsYoung s n m) ⊎ ((k : ℕ) × (n ≤ k) × (k < m) × (s.started ≡ clock k)))
      × ((k : ℕ)
          → ltb (clock k - s.started) hour ≡ true
          → get_or_create_session clock agent ss k ≡ some (s.id, ss, suc k))

  found_again :
      (id : SessionId) (started : ℕ) (ss : List AgentSession)
      → IsStable id started ss
      → (k : ℕ) → ltb (clock k - started) hour ≡ true
      → get_or_create_session clock agent ss k ≡ some (id, ss, suc k)
  unfolding get_or_create_session
  found_again id started ss again k l = ap (λ r. or_create clock agent r r.found) (again k l)

  -- If no two sessions are of one agent, and the clock does not go back and is past the identifiers, then
  -- a request gets a session of its agent (the loop for a new identifier ends): one of before that is
  -- younger than an hour, or a new one that starts during the call. It is among the sessions afterwards, of
  -- which again no two are of one agent, and for an hour from its start the next request of the agent gets
  -- the same session and changes none.
  pub get_or_create_session_lem :
      (ss : List AgentSession) (n : ℕ)
      → AreSeparate ss
      → ((i j : ℕ) → i ≤ j → clock i ≤ clock j)
      → AreBefore (clock n) ss
      → IsServed ss n (get_or_create_session clock agent ss n)
  unfolding get_or_create_session
  get_or_create_session_lem ss n h rising b =
      let r = scan clock agent ss n in
      let v = scan-IsScanned ss n h in
      elim v.outcome [
        | inr (own, f, same, old, now, young, again) ↦ (
          own,
          r.kept,
          r.next,
          ap (or_create clock agent r) f,
          same,
          now,
          v.separate,
          inl (old, young),
          found_again own.id own.started r.kept again,
        )
        | inl (f, a) ↦
            let id : SessionId = record { nanos = clock r.next; number = suc (length r.kept) } in
            let made : AgentSession = record {
              id = id;
              agent = agent;
              started = clock (suc r.next);
            } in
            (
              made,
              made ∷ r.kept,
              suc (suc r.next),
              ap (or_create clock agent r) f
                  ∙ ap (add_session clock agent r.kept) (
                      new_id_lem r.kept r.next (
                        before_later (clock n) (clock r.next) r.kept (rising n r.next v.later)
                          (v.before (clock n) b))),
              text_eq_refl agent,
              inl refl,
              (a, v.separate),
              inr (suc r.next, omega (arith, v.later), omega arith, refl),
              found_again id made.started (made ∷ r.kept)
                  (λ k l. scan-own made r.kept k (text_eq_refl agent) l),
            )
      ]
