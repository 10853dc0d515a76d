-- ===== src/Routing.antt =====
-- internal/routing/agent_bifrost.go: the rules, the sessions and the fallbacks of `AgentBifrost`. The clock
-- gives the time of each reading by its number; the requests to the proxy are a parameter. The order in
-- which a map is visited is that of the list.
pub mod Sessions
use agentapi_plusplus.Prelude.{
  ◌>>=◌, ℕ, zero, suc, ◌-◌, Bool, true, false, ◌&&◌, ◌||◌, List, [], ◌∷◌, Option, none, some, ltb,
  ◌==◌, if◌then◌else◌, length, Text, text_eq, codes,
}

pub record RoutingRule : Type 0 where
  pub agent : Text
  pub preferred_model : Text
  pub fallback_models : List Text
  pub max_retries : ℕ
  pub timeout : ℕ

-- The two numbers of an identifier sess_%d_%d.
pub record SessionId : Type 0 where
  pub nanos : ℕ
  pub number : ℕ

pub record AgentSession : Type 0 where
  pub id : SessionId
  pub agent : Text
  pub started : ℕ

pub record AgentBifrost : Type 0 where
  pub sessions : List AgentSession
  pub rules : List RoutingRule

unfoldable pub default_rule : Text → RoutingRule
default_rule agent = record {
  agent = agent;
  preferred_model = codes "claude-3-5-sonnet-20241022";
  fallback_models = codes "gpt-4o" ∷ codes "gemini-1.5-pro" ∷ [];
  max_retries = 3;
  timeout = 30;
}

abbrev pub find_rule : Text → List RoutingRule → Option RoutingRule
find_rule agent [] = none
find_rule agent (r ∷ rules) = if text_eq r.agent agent then some r else find_rule agent rules

unfoldable pub get_rule : AgentBifrost → Text → RoutingRule
unfolding default_rule
get_rule a agent = elim (find_rule agent a.rules) [ some rule ↦ rule | none ↦ default_rule agent ]

abbrev pub put_rule : RoutingRule → List RoutingRule → List RoutingRule
put_rule rule [] = rule ∷ []
put_rule rule (r ∷ rules) =
    if text_eq r.agent rule.agent then rule ∷ rules else r ∷ put_rule rule rules

unfoldable pub set_rule : RoutingRule → AgentBifrost → AgentBifrost
set_rule rule a = record a { rules = put_rule rule a.rules }

abbrev pub hour : ℕ
hour = 3_600_000_000_000

abbrev pub has_id : SessionId → List AgentSession → Bool
has_id id [] = false
has_id id (s ∷ sessions) =
    (s.id.nanos == id.nanos && s.id.number == id.number) || has_id id sessions

-- What the first loop found, the sessions it left, and the number of the next reading.
pub record SessionScan : Type 0 where
  pub found : Option SessionId
  pub kept : List AgentSession
  pub next : ℕ

module _ (clock : ℕ → ℕ) where
  unfoldable pub scan : Text → List AgentSession → ℕ → SessionScan
  scan agent [] n = record { found = none; kept = []; next = n }
  scan agent (s ∷ sessions) n =
      let is_own = text_eq s.agent agent in
      let rest = scan agent sessions (if is_own then suc n else n) in
      if is_own
      then (if ltb (clock n - s.started) hour
          then record { found = some s.id; kept = s ∷ sessions; next = suc n }
          else rest)
      else record rest { kept = s ∷ rest.kept }

  -- The second loop.
  unfoldable pub new_id : ℕ → List AgentSession → ℕ → Option (SessionId × ℕ)
  new_id zero sessions n = none
  new_id (suc fuel) sessions n =
      let id : SessionId = record { nanos = clock n; number = suc (length sessions) } in
      let again = new_id fuel sessions (suc n) in
      if has_id id sessions then again else some (id, suc n)

  abbrev pub add_session :
      Text → List AgentSession → Option (SessionId × ℕ) → Option (SessionId × List AgentSession × ℕ)
  add_session agent sessions none = none
  add_session agent sessions (some (id, m)) =
      some (id, record { id = id; agent = agent; started = clock m } ∷ sessions, suc m)

  unfoldable pub create : Text → List AgentSession → ℕ → Option (SessionId × List AgentSession × ℕ)
  unfolding new_id
  create agent sessions n = add_session agent sessions (new_id (suc (length sessions)) sessions n)

  abbrev pub or_create :
      Text → SessionScan → Option SessionId → Option (SessionId × List AgentSession × ℕ)
  or_create agent scanned none = create agent scanned.kept scanned.next
  or_create agent scanned (some id) = some (id, scanned.kept, scanned.next)

  unfoldable pub get_or_create_session :
      Text → List AgentSession → ℕ → Option (SessionId × List AgentSession × ℕ)
  unfolding scan create
  get_or_create_session agent sessions n =
      let scanned = scan agent sessions n in or_create agent scanned scanned.found

-- What the code keeps of a request to the proxy: the response, or the error.
pub data Routed : Type 0 where
  routed : Text → Routed
  route_failed : Text → Routed

pub record RouteRequest : Type 0 where
  pub model : Text
  pub prompt : Text
  pub agent : Text
  pub session : SessionId

module _ (send : ℕ → RouteRequest → Routed) where
  -- The loop over the fallback models, after a reply; the request is the one of a number.
  unfoldable pub try_fallbacks : RouteRequest → List Text → ℕ → Routed → Routed
  try_fallbacks request [] n last = last
  try_fallbacks request (model ∷ models) n (routed response) = routed response
  try_fallbacks request (model ∷ models) n (route_failed err) =
      try_fallbacks request models (suc n) (send n (record request { model = model }))

  unfoldable pub route : RouteRequest → List Text → Routed
  unfolding try_fallbacks
  route request fallbacks = try_fallbacks request fallbacks 1 (send 0 request)

  unfoldable pub route_request :
      (ℕ → ℕ) → Text → Text → AgentBifrost → ℕ → Option (Routed × AgentBifrost × ℕ)
  unfolding get_rule get_or_create_session route
  route_request clock agent prompt a n = do
    let rule = get_rule a agent
    (session, sessions, m) ← get_or_create_session clock agent a.sessions n
    let request : RouteRequest = record {
      model = rule.preferred_model;
      prompt = prompt;
      agent = agent;
      session = session;
    }
    some (route request rule.fallback_models, record a { sessions = sessions }, m)
