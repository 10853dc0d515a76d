-- ===== src/Msgfmt/Box.antt =====
-- lib/msgfmt/message_box.go: the input box that an agent draws below its message.
-- `none` is a panic of Go; a search that finds no box gives the inner `none`, Go's -1.
pub mod Bounds
use agentapi_plusplus.Prelude.{
  ℕ, zero, suc, ◌+◌, ◌-◌, Bool, true, false, ◌&&◌, ◌||◌, List, [], ◌∷◌, ◌++◌, Option, none, some,
  ltb, leb, if◌then◌else◌, ◌>>=◌, length, get_or, take, slice, is_nil, Text, codes,
}
use agentapi_plusplus.Strings.{
  split_lines, join_lines, contains, has_prefix, has_suffix, trim_space,
}

abbrev pub line_at : List Text → ℕ → Text
line_at lines i = get_or lines i []

unfoldable pub contains_horizontal_border : Text → Bool
unfolding contains
contains_horizontal_border line =
    contains line (codes "───────────────") || contains line (codes "╌╌╌╌╌╌╌╌╌╌╌╌╌╌╌")

-- The loop body at index `i`.
unfoldable pub greater_than_box_at : List Text → ℕ → Option ℕ
unfolding contains_horizontal_border
greater_than_box_at lines i =
    if contains (line_at lines i) (codes ">")
    then (if ltb 0 i && contains_horizontal_border (line_at lines (i - 1))
        then some (i - 1)
        else some i)
    else none

unfoldable pub slim_box_at : List Text → ℕ → Option ℕ
unfolding contains_horizontal_border
slim_box_at lines i =
    if contains_horizontal_border (line_at lines i)
      && (contains (line_at lines (i + 1)) (codes "|")
          || contains (line_at lines (i + 1)) (codes "│")
          || contains (line_at lines (i + 1)) (codes "❯"))
      && contains_horizontal_border (line_at lines (i + 2))
    then some i
    else none

-- `for i := above - 1; i >= max(above - rounds, 0); i--`, until the body gives an index.
unfoldable pub search_down : (ℕ → Option ℕ) → ℕ → ℕ → Option ℕ
search_down box_at zero above = none
search_down box_at (suc rounds) zero = none
search_down box_at (suc rounds) (suc i) = elim (box_at i) [
  | none ↦ search_down box_at rounds i
  | some found ↦ some found
]

unfoldable pub find_greater_than_message_box : List Text → Option ℕ
unfolding search_down greater_than_box_at
find_greater_than_message_box lines = search_down (greater_than_box_at lines) 6 (length lines)

-- The loop starts at `len - 3`, and makes no round on fewer than three lines.
unfoldable pub find_generic_slim_message_box : List Text → Option ℕ
unfolding search_down slim_box_at
find_generic_slim_message_box lines = search_down (slim_box_at lines) 7 (length lines - 2)

unfoldable pub find_message_box : List Text → Option ℕ
unfolding find_greater_than_message_box find_generic_slim_message_box
find_message_box lines = elim (find_greater_than_message_box lines) [
  | none ↦ find_generic_slim_message_box lines
  | some i ↦ some i
]

unfoldable pub remove_message_box : Text → Option Text
unfolding find_message_box
remove_message_box msg = elim (find_message_box (split_lines msg)) [
  | none ↦ some (join_lines (split_lines msg))
  | some start ↦ do lines ← slice (split_lines msg) 0 start; some (join_lines lines)
]

unfoldable pub remove_codex_message_box : Text → Option Text
unfolding contains
remove_codex_message_box msg =
    let lines = split_lines msg in
    if leb 3 (length lines) && contains (line_at lines (length lines - 3)) (codes "›")
    then (slice lines 0 (length lines - 3) >>= λ above.
        some (join_lines (above ++ line_at lines (length lines - 3 + 2) ∷ [])))
    else some (join_lines lines)

abbrev pub is_opencode_box_end : Text → Bool
is_opencode_box_end line = has_prefix (trim_space line) (codes "╹▀▀▀▀▀▀▀▀▀▀▀▀▀▀▀▀▀")

-- `for i := above - 1; i >= 4; i--`: the `i` of the break.
unfoldable pub find_opencode_box : List Text → ℕ → Option ℕ
find_opencode_box lines zero = none
find_opencode_box lines (suc i) =
    if ltb i 4
    then none
    else if is_opencode_box_end (line_at lines i)
    then some i
    else find_opencode_box lines i

unfoldable pub remove_opencode_message_box : Text → Option Text
unfolding find_opencode_box
remove_opencode_message_box msg =
    let lines = split_lines msg in
    elim (find_opencode_box lines (length lines)) [
      | none ↦ some (join_lines lines)
      | some i ↦ do above ← slice lines 0 (i - 4); some (join_lines above)
    ]

-- `for i := above - 1; i >= 0; i--`, with the flag `msgBoxEndFound`; the result is `msgBoxStartIdx`.
unfoldable pub find_amp_box : List Text → ℕ → Bool → ℕ → ℕ
find_amp_box lines zero end_found start = start
find_amp_box lines (suc i) end_found start =
    let line = trim_space (line_at lines i) in
    let end_found' = end_found || (has_prefix line (codes "╰") && has_suffix line (codes "╯")) in
    if end_found' && has_prefix line (codes "╭") && has_suffix line (codes "╮")
    then i
    else find_amp_box lines i end_found' start

unfoldable pub remove_amp_message_box : Text → Option Text
unfolding find_amp_box
remove_amp_message_box msg =
    let lines = split_lines msg in
    do
      above ← slice lines 0 (find_amp_box lines (length lines) false (length lines))
      let formatted = join_lines above
      some (if is_nil formatted then codes "Welcome to Amp" else formatted)
