-- ===== src/Startup.antt =====
-- cmd/server/server.go: what `runServer` checks before it starts anything. The values of the flags are a
-- record; the flags that may be unset are options. The result of writing the PID file is an argument.
pub mod Decimal
pub mod PidFile
pub mod Accepts
use agentapi_plusplus.Msgfmt.Agents.{
  AgentType, claude, goose, aider, codex, gemini, copilot, amp, cursor, auggie, amazonq, opencode,
  custom,
}
use agentapi_plusplus.Prelude.{
  ℕ, Bool, true, false, not, ◌&&◌, ◌||◌, List, [], ◌∷◌, Option, none, some, leb, if◌then◌else◌,
  is_nil, Text, text_eq, codes,
}

-- `agentTypeAliases`
abbrev pub aliases : List (Text × AgentType)
aliases =
    (codes "claude", claude)
    ∷ (codes "goose", goose)
    ∷ (codes "aider", aider)
    ∷ (codes "codex", codex)
    ∷ (codes "gemini", gemini)
    ∷ (codes "copilot", copilot)
    ∷ (codes "amp", amp)
    ∷ (codes "auggie", auggie)
    ∷ (codes "cursor", cursor)
    ∷ (codes "cursor-agent", cursor)
    ∷ (codes "q", amazonq)
    ∷ (codes "amazonq", amazonq)
    ∷ (codes "opencode", opencode)
    ∷ (codes "custom", custom)
    ∷ []

abbrev pub find_alias : Text → List (Text × AgentType) → Option AgentType
find_alias name [] = none
find_alias name ((n, t) ∷ rest) = if text_eq n name then some t else find_alias name rest

abbrev pub or_custom : Option AgentType → AgentType
or_custom none = custom
or_custom (some t) = t

-- `parseAgentType`; `none` is its error.
abbrev pub parse_from : Option AgentType → Text → Text → Option AgentType
parse_from (some t) first_arg type_flag = some t
parse_from none first_arg [] = some (or_custom (find_alias first_arg aliases))
parse_from none first_arg (c ∷ type_flag) = none

unfoldable pub parse_agent_type : Text → Text → Option AgentType
unfolding text_eq
parse_agent_type first_arg type_flag = parse_from (find_alias type_flag aliases) first_arg type_flag

-- The standard input: a terminal, or what is piped into it.
pub data Stdin : Type 0 where
  terminal read_error : Stdin
  piped : Text → Stdin

pub record Flags : Type 0 where
  pub type_flag : Text
  pub term_width : ℕ
  pub term_height : ℕ
  pub initial_prompt : Text
  pub state_file : Text
  pub load_state : Option Bool
  pub save_state : Option Bool
  pub experimental_acp : Bool
  pub pid_file : Text
  pub print_open_api : Bool

pub data StartError : Type 0 where
  invalid_type narrow short no_stdin load_without_file save_without_file acp_state pid_failed
        exclusive :
      StartError

pub data Result (A : Type 0) : Type 0 where
  ok : A → Result A
  err : StartError → Result A

infixl 5 ◌>>=◌ ◌>>◌
abbrev pub ◌>>=◌ : {A B : Type 0} → Result A → (A → Result B) → Result B
ok a >>= f = f a
err e >>= f = err e

abbrev pub ◌>>◌ : {B : Type 0} → Result (Unit {0}) → Result B → Result B
m >> k = m >>= λ _. k

abbrev pub guard : Bool → StartError → Result (Unit {0})
guard true e = ok tt
guard false e = err e

abbrev pub checked : {A : Type 0} → Option A → StartError → Result A
checked none e = err e
checked (some a) e = ok a

abbrev pub read_stdin : Stdin → Result Text
read_stdin terminal = ok []
read_stdin read_error = err no_stdin
read_stdin (piped text) = ok text

-- The prompt of the flag, or what is piped in.
abbrev pub read_prompt : Text → Stdin → Result Text
read_prompt [] stdin = read_stdin stdin
read_prompt (c ∷ prompt) stdin = ok (c ∷ prompt)

abbrev pub or_true : Option Bool → Bool
or_true none = true
or_true (some b) = b

abbrev pub or_false : Option Bool → Bool
or_false none = false
or_false (some b) = b

-- `loadState` and `saveState`.
abbrev pub state_options : Text → Option Bool → Option Bool → Result (Bool × Bool)
state_options [] load save = do
  guard (not (or_false load)) load_without_file
  guard (not (or_false save)) save_without_file
  ok (false, false)
state_options (c ∷ file) load save = ok (or_true load, or_true save)

-- What the start of the server goes on with.
pub record Options : Type 0 where
  pub agent_type : AgentType
  pub prompt : Text
  pub load : Bool
  pub save : Bool

unfoldable pub start_options : Text → Flags → Stdin → Bool → Result Options
unfolding parse_agent_type
start_options first_arg f stdin wrote_pid = do
  agent_type ← checked (parse_agent_type first_arg f.type_flag) invalid_type
  guard (leb 10 f.term_width) narrow
  guard (leb 10 f.term_height) short
  prompt ← read_prompt f.initial_prompt stdin
  (load, save) ← state_options f.state_file f.load_state f.save_state
  guard (not (f.experimental_acp && (save || load))) acp_state
  guard (is_nil f.pid_file || wrote_pid) pid_failed
  guard (not (f.print_open_api && f.experimental_acp)) exclusive
  ok (record { agent_type = agent_type; prompt = prompt; load = load; save = save })
