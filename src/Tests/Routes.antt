-- ===== src/Tests/Routes.antt =====
-- internal/routing/agent_bifrost.go at concrete inputs.
use agentapi_plusplus.Routing.{
  AgentSession, AgentBifrost, RouteRequest, Routed, routed, route_failed, route_request,
  get_or_create_session,
}
use agentapi_plusplus.Routing.Sessions.{IsServed, get_or_create_session_lem}
use agentapi_plusplus.Prelude.{
  ℕ, ◌+◌, ◌≡◌, refl, [], ◌∷◌, List, some, codes, text_eq, if◌then◌else◌, arith,
}

abbrev rising : ℕ → ℕ
rising n = n + 10

-- A session that is not the agent's.
abbrev other : List AgentSession
other = record { id = record { nanos = 3; number = 1 }; agent = codes "codex"; started = 4 } ∷ []

get_or_create_session_lem_example :
    IsServed rising (codes "claude") other 0 (get_or_create_session rising (codes "claude") other 0)
get_or_create_session_lem_example =
    get_or_create_session_lem rising (codes "claude") other 0 (tt, tt) (λ i j h. omega arith)
      (omega arith, tt)

-- Only the model gpt-4o answers.
abbrev answers : ℕ → RouteRequest → Routed
answers n request =
    if text_eq request.model (codes "gpt-4o")
    then routed (codes "yes")
    else route_failed (codes "no")

abbrev empty : AgentBifrost
empty = record { sessions = []; rules = [] }

route_run :
    route_request answers rising (codes "claude") (codes "hi") empty 0
    ≡ some (
      routed (codes "yes"),
      record {
        sessions =
            record { id = record { nanos = 10; number = 1 }; agent = codes "claude"; started = 11 }
            ∷ [];
        rules = [];
      },
      2,
    )
unfolding route_request text_eq
route_run = refl
