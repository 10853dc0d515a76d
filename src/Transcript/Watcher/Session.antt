-- ===== src/Transcript/Watcher/Session.antt =====
-- lib/transcript/watcher.go: the ticks while one session file is tailed.
use agentapi_plusplus.Prelude.{
  ℕ, ◌≡◌, true, ◌||◌, List, [], ◌∷◌, Option, none, some, is_nil, Text, text_eq,
}
use agentapi_plusplus.Transcript.Tail.{Tailer}
use agentapi_plusplus.Transcript.Tail.Drains.{Poll, grow, answer}
use agentapi_plusplus.Transcript.Watcher.{Parser, Watcher, Reading}

-- The discoverer fails, finds nothing, or finds the path.
abbrev pub IsQuiet : Text → Option Text → Type 0
IsQuiet path none = Unit
IsQuiet path (some found) = (is_nil found || text_eq found path) ≡ true

-- At each reading the file has grown as the poll says, and there is no other session.
abbrev pub Follows : Text → Text → List Reading → List Poll → Type 0
Follows path s [] [] = Unit
Follows path s (r ∷ rs) (p ∷ ps) =
    (r.file path ≡ answer s p) × IsQuiet path r.newest × Follows path (grow s p) rs ps
Follows path s _ _ = ⊥

module _ (P : Parser) where
  -- A watcher that tails a file.
  unfoldable pub session : P.State → Text → Tailer → ℕ → Watcher P
  session s path t k = record { parser = s; tail = some (path, t); ticks = k }
