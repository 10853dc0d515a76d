-- ===== src/Tests/Starts.antt =====
-- cmd/server/server.go and lib/termexec/termexec.go at concrete inputs.
use agentapi_plusplus.Events.Types.{pos}
use agentapi_plusplus.McpConfig.Codex.{content}
use agentapi_plusplus.Msgfmt.Agents.{claude, amazonq}
use agentapi_plusplus.Startup.{
  Flags, terminal, err, Options, parse_agent_type, start_options, acp_state, load_without_file,
}
use agentapi_plusplus.Startup.Accepts.{IsAccepted, start_options_lem}
use agentapi_plusplus.Startup.Decimal.{atoi}
use agentapi_plusplus.Startup.PidFile.{
  pid_content, write_pid_file, cleanup_pid_file, already_running, wrote,
}
use agentapi_plusplus.Startup.PidFile.Owner.{pid_file_lem}
use agentapi_plusplus.Terminal.{read_screen, state_at}
use agentapi_plusplus.Terminal.Settles.{IsQuiet, read_screen_lem}
use agentapi_plusplus.Prelude.{
  ℕ, ◌+◌, ◌*◌, ◌≤◌, ◌≡◌, ◌⊎◌, refl, true, false, [], ◌∷◌, none, some, arith, codes, text_eq,
}

abbrev flags : Flags
flags = record {
  type_flag = [];
  term_width = 80;
  term_height = 1000;
  initial_prompt = [];
  state_file = codes "state.json";
  load_state = none;
  save_state = some false;
  experimental_acp = false;
  pid_file = [];
  print_open_api = false;
}

abbrev options : Options
options = record { agent_type = claude; prompt = []; load = true; save = false }

start_options_lem_example : IsAccepted (codes "claude") flags terminal false options
unfolding start_options text_eq
start_options_lem_example = start_options_lem (codes "claude") flags terminal false options refl

acp_run :
    start_options (codes "claude") (record flags { experimental_acp = true }) terminal false
    ≡ err acp_state
unfolding start_options text_eq
acp_run = refl

load_run :
    start_options
      (codes "claude")
      (record flags { state_file = []; load_state = some true })
      terminal
      false
    ≡ err load_without_file
unfolding start_options text_eq
load_run = refl

alias_run : parse_agent_type (codes "q") [] ≡ some amazonq
unfolding parse_agent_type text_eq
alias_run = refl

atoi_run : atoi (codes "9223372036854775808") ≡ none
unfolding atoi
atoi_run = refl

pid_file_lem_example :
    (cleanup_pid_file 41 (content (pid_content 41)) ≡ true)
    × (cleanup_pid_file 42 (content (pid_content 41)) ≡ false)
    × (true ≡ true
        → write_pid_file true (λ p. true) 42 true (content (pid_content 41))
          ≡ already_running (pos 41))
    × (true ≡ false
        → write_pid_file true (λ p. true) 42 true (content (pid_content 41))
          ≡ wrote (pid_content 42))
pid_file_lem_example = pid_file_lem (λ p. true) 41 42 (omega arith) (λ e. absurd (omega arith))

-- A screen that takes a rune as a digit, with updates at 10 ms and 20 ms.
read_screen_lem_example :
    (t : ℕ) × (read_screen (λ s r. s * 10 + r) 0 ((10, 1) ∷ (20, 2) ∷ []) 12
      ≡ state_at (λ s r. s * 10 + r) 0 ((10, 1) ∷ (20, 2) ∷ []) t)
    × (12 ≤ t)
    × (t ≤ 12 + 48)
    × (IsQuiet ((10, 1) ∷ (20, 2) ∷ []) t ⊎ (t ≡ 12 + 48))
read_screen_lem_example =
    read_screen_lem (λ s r. s * 10 + r) 0 ((10, 1) ∷ (20, 2) ∷ []) 12
      (omega arith, (omega arith, tt))

settled_run : read_screen (λ s r. s * 10 + r) 0 ((10, 1) ∷ (20, 2) ∷ []) 12 ≡ 12
unfolding read_screen
settled_run = refl
