-- ===== src/Msgfmt/Echo.antt =====
-- lib/msgfmt/msgfmt.go: `RemoveUserInput`, which cuts the echo of the user's input off a message.
-- `none` is a panic of Go or, for the loop of `findUserInputEndIdx`, a lack of fuel.
pub mod Locations
pub mod Matching
pub mod Total
use agentapi_plusplus.Msgfmt.Agents.{AgentType, gemini, copilot, cursor, opencode}
use agentapi_plusplus.Msgfmt.Subslice.{index_subslice}
use agentapi_plusplus.Msgfmt.Whitespace.{is_white_space}
use agentapi_plusplus.Prelude.{
  ℕ, zero, suc, ◌+◌, Bool, true, false, ◌&&◌, ◌||◌, List, [], ◌∷◌, ◌++◌, Option, none, some, min,
  max, ltb, leb, ◌==◌, if◌then◌else◌, ◌>>=◌, length, get_elem?, get_or, slice, drop, is_nil, Text,
  codes,
}
use agentapi_plusplus.Strings.{split_lines, join_lines, contains}

-- The runes of a text that are not white space, each with the number of its line.
pub record Runes : Type 0 where
  pub runes : List ℕ
  pub locations : List ℕ

unfoldable pub push_rune : ℕ → Runes → ℕ → Runes
unfolding is_white_space
push_rune line_idx acc r =
    if is_white_space r
    then acc
    else record { runes = acc.runes ++ r ∷ []; locations = acc.locations ++ line_idx ∷ [] }

unfoldable pub push_line : ℕ → Runes → Text → Runes
unfolding push_rune
push_line line_idx acc [] = acc
push_line line_idx acc (r ∷ line) = push_line line_idx (push_rune line_idx acc r) line

unfoldable pub push_lines : ℕ → Runes → List Text → Runes
unfolding push_line
push_lines line_idx acc [] = acc
push_lines line_idx acc (line ∷ lines) =
    push_lines (line_idx + 1) (push_line line_idx acc line) lines

-- The lines come from `split_lines`, at the caller.
unfoldable pub normalize : Text → Runes
unfolding push_lines
normalize msg_raw = push_lines 0 (record { runes = []; locations = [] }) (split_lines msg_raw)

-- `userInputPrefixLen`; `none` is -1.
unfoldable pub prefix_len : List ℕ → ℕ → Option ℕ → Option ℕ
prefix_len [] i len = len
prefix_len (line_idx ∷ rest) i len =
    if ltb 0 line_idx || leb 6 i then len else prefix_len rest (i + 1) (some (i + 1))

-- `msgPrefixLen` after its loop.
unfoldable pub msg_prefix_len : List ℕ → ℕ → ℕ → ℕ
msg_prefix_len [] i len = len
msg_prefix_len (line_idx ∷ rest) i len =
    if ltb 5 line_idx then len else msg_prefix_len rest (i + 1) (i + 1)

-- `findUserInputStartIdx`: the outer option is a panic, the inner `none` is the result -1.
unfoldable pub find_user_input_start_idx : Runes → Runes → Option (Option ℕ)
unfolding prefix_len msg_prefix_len
find_user_input_start_idx msg user_input = elim (prefix_len user_input.locations 0 none) [
  | none ↦ some none
  | some len ↦ do
    user_input_prefix ← slice user_input.runes 0 len
    let msg_len = min (max (msg_prefix_len msg.locations 0 0) 25) (length msg.runes)
    msg_prefix ← slice msg.runes 0 msg_len
    some (index_subslice ◌==◌ msg_prefix user_input_prefix)
]

-- The inner `for` that steps over white space, on the user input from `idx` on.
unfoldable pub skip_white_space : List ℕ → ℕ → ℕ
skip_white_space [] idx = idx
skip_white_space (r ∷ rest) idx = if is_white_space r then skip_white_space rest (idx + 1) else idx

-- What one round of the two loops of `findNextMatch` does.
pub data Probe : Type 0 where
  give_up : Probe
  found : ℕ → ℕ → Probe
  go_on : Probe

module _ (known_msg known_user : ℕ) (msg user_input : List ℕ) where
  unfoldable pub probe : ℕ → ℕ → Probe
  unfolding skip_white_space
  probe i j =
      let user_idx = known_user + i + 1 in
      let msg_idx = known_msg + j + 1 in
      let user_idx' = skip_white_space (drop user_idx user_input) user_idx in
      if leb (length user_input) user_idx || leb (length msg) msg_idx
      then give_up
      else if leb (length user_input) user_idx'
      then give_up
      else if is_white_space (get_or msg msg_idx 0)
      then go_on
      else if get_or user_input user_idx' 0 == get_or msg msg_idx 0
      then found msg_idx user_idx'
      else go_on

  -- `for j := range 5`, with the rounds left.
  unfoldable pub probe_row : ℕ → ℕ → ℕ → Probe
  probe_row i zero j = go_on
  probe_row i (suc rounds) j = elim (probe i j) [
    | give_up ↦ give_up
    | found m u ↦ found m u
    | go_on ↦ probe_row i rounds (j + 1)
  ]

  -- `for i := range 5`; `none` is (-1, -1).
  unfoldable pub probe_rows : ℕ → ℕ → Option (ℕ × ℕ)
  probe_rows zero i = none
  probe_rows (suc rounds) i = elim (probe_row i 5 0) [
    | give_up ↦ none
    | found m u ↦ some (m, u)
    | go_on ↦ probe_rows rounds (i + 1)
  ]

  unfoldable pub find_next_match : Option (ℕ × ℕ)
  unfolding probe probe_row probe_rows
  find_next_match = probe_rows 5 0

-- The endless `for` of `findUserInputEndIdx`, on fuel.
unfoldable pub follow_matches : List ℕ → List ℕ → ℕ → ℕ → ℕ → Option ℕ
follow_matches msg user_input zero msg_idx user_idx = none
follow_matches msg user_input (suc fuel) msg_idx user_idx =
    elim (find_next_match msg_idx user_idx msg user_input) [
      | none ↦ some msg_idx
      | some (m, u) ↦ follow_matches msg user_input fuel m u
    ]

unfoldable pub find_user_input_end_idx : ℕ → List ℕ → List ℕ → Option ℕ
unfolding follow_matches find_next_match
find_user_input_end_idx start msg user_input = follow_matches msg user_input (length msg) start 0

abbrev pub contains_all : Text → List Text → Bool
contains_all line [] = true
contains_all line (m ∷ markers) = contains line m && contains_all line markers

-- `skipTrailingInputBoxLine`: the index after the call, whether or not the line was found.
unfoldable pub skip_trailing_input_box_line : List Text → ℕ → List Text → ℕ
skip_trailing_input_box_line lines current markers =
    if leb (length lines) (current + 1)
    then current
    else if contains_all (get_or lines (current + 1) []) markers
    then current + 1
    else current

unfoldable pub skip_agent_lines : AgentType → List Text → ℕ → ℕ
unfolding skip_trailing_input_box_line
skip_agent_lines gemini lines last =
    skip_trailing_input_box_line lines last (codes "╯" ∷ codes "╰" ∷ [])
skip_agent_lines copilot lines last =
    skip_trailing_input_box_line lines last (codes "╯" ∷ codes "╰" ∷ [])
skip_agent_lines cursor lines last =
    skip_trailing_input_box_line lines last (codes "┘" ∷ codes "└" ∷ [])
skip_agent_lines opencode lines last = if ltb (last + 2) (length lines) then last + 2 else last
skip_agent_lines _ lines last = last

unfoldable pub remove_echo : Text → Text → AgentType → Option Text
remove_echo msg_raw user_input_raw agent_type = do
  let msg = normalize msg_raw
  let lines = split_lines msg_raw
  let user_input = normalize user_input_raw
  start ← find_user_input_start_idx msg user_input
  elim start [
    | none ↦ some msg_raw
    | some start_idx ↦ do
      end_idx ← find_user_input_end_idx start_idx msg.runes user_input.runes
      last_line ← get_elem? msg.locations end_idx
      rest ← slice lines (skip_agent_lines agent_type lines last_line + 1) (length lines)
      some (join_lines rest)
  ]

unfoldable pub remove_user_input : Text → Text → AgentType → Option Text
unfolding remove_echo
remove_user_input msg_raw user_input_raw agent_type =
    if is_nil user_input_raw then some msg_raw else remove_echo msg_raw user_input_raw agent_type
