-- ===== src/Msgfmt/Box/Bounds.antt =====
-- lib/msgfmt/message_box.go: the bounds of the searches for a message box.
use agentapi_plusplus.Msgfmt.Box.{
  line_at, greater_than_box_at, contains_horizontal_border, slim_box_at, search_down,
  find_greater_than_message_box, find_generic_slim_message_box, find_message_box,
  remove_message_box, remove_codex_message_box, find_opencode_box, remove_opencode_message_box,
  find_amp_box, remove_amp_message_box,
}
use agentapi_plusplus.Prelude.{
  ℕ, zero, suc, ◌+◌, ◌-◌, ◌≤◌, ◌<◌, ◌≡◌, ◌≢◌, refl, ap, ◌∙◌, ◌⊎◌, inl, inr, Bool, true, false, ◌&&◌,
  List, [], ◌∷◌, ◌++◌, Option, none, some, arith, Option-cases, Bool-cases, length, take,
  slice_prefix, ltb, leb, is_nil, subst, Text, codes, if◌then◌else◌,
}
use agentapi_plusplus.Strings.Lines.{join_lines-split_lines}
use agentapi_plusplus.Strings.{split_lines, join_lines, contains}

search_down_found :
    (box_at : ℕ → Option ℕ) (rounds above : ℕ) {k : ℕ}
    → search_down box_at rounds above ≡ some k
    → (i : ℕ) × (i < above) × (box_at i ≡ some k)
unfolding search_down
search_down_found box_at zero above e = cc
search_down_found box_at (suc rounds) zero e = cc
search_down_found box_at (suc rounds) (suc i) e = elim (Option-cases (box_at i)) [
  | inl miss ↦
      let (j, p, h) = search_down_found box_at rounds i (rw (miss, search_down) at e) in
      (j, omega arith, h)
  | inr (f, hit) ↦ (i, omega arith, hit ∙ rw (hit, search_down) at e)
]

contains-ne-nil : (s : Text) (c : ℕ) (t : Text) → contains s (c ∷ t) ≡ true → s ≢ []
unfolding contains
contains-ne-nil [] c t e h = cc
contains-ne-nil (d ∷ s) c t e h = cc

border-ne-nil : (l : Text) → contains_horizontal_border l ≡ true → l ≢ []
unfolding contains_horizontal_border
border-ne-nil [] e h = cc
border-ne-nil (c ∷ l) e h = cc

-- The box starts at `k`, above or at a line `j` that is not empty.
abbrev IsBoxAt : List Text → ℕ → Type 0
IsBoxAt lines k =
    (k < length lines) × ((j : ℕ) × (k ≤ j) × (j < length lines) × (line_at lines j ≢ []))

greater_than_box_at-IsBoxAt :
    (lines : List Text) (i : ℕ) {k : ℕ}
    → i < length lines
    → greater_than_box_at lines i ≡ some k
    → IsBoxAt lines k
unfolding greater_than_box_at
greater_than_box_at-IsBoxAt lines i {k} p e =
    elim (Bool-cases (contains (line_at lines i) (codes ">"))) [
      | inl hit ↦
          elim (Bool-cases (ltb 0 i && contains_horizontal_border (line_at lines (i - 1)))) [
            | inl border ↦
                let at : i - 1 ≡ k = cc (rw (hit, border) at e) in
                (omega arith, (i, omega arith, p, contains-ne-nil (line_at lines i) b'>' [] hit))
            | inr bare ↦
                let at : i ≡ k = cc (rw (hit, bare) at e) in
                (omega arith, (i, omega arith, p, contains-ne-nil (line_at lines i) b'>' [] hit))
          ]
      | inr miss ↦ cc (rw miss at e)
    ]

slim_box_at-IsBoxAt :
    (lines : List Text) (i : ℕ) {k : ℕ}
    → i < length lines
    → slim_box_at lines i ≡ some k
    → IsBoxAt lines k
unfolding slim_box_at
slim_box_at-IsBoxAt lines i {k} p e =
    elim (Bool-cases (contains_horizontal_border (line_at lines i))) [
      | inl hit ↦
          let at : i ≡ k = ground (arith, e, hit) in
          (omega arith, (i, omega arith, p, border-ne-nil (line_at lines i) hit))
      | inr miss ↦ cc (rw miss at e)
    ]

greater-IsBoxAt :
    (lines : List Text) {k : ℕ} → find_greater_than_message_box lines ≡ some k → IsBoxAt lines k
unfolding find_greater_than_message_box
greater-IsBoxAt lines e =
    let (i, p, h) = search_down_found (greater_than_box_at lines) 6 (length lines) e in
    greater_than_box_at-IsBoxAt lines i p h

slim-IsBoxAt :
    (lines : List Text) {k : ℕ} → find_generic_slim_message_box lines ≡ some k → IsBoxAt lines k
unfolding find_generic_slim_message_box
slim-IsBoxAt lines e =
    let (i, p, h) = search_down_found (slim_box_at lines) 7 (length lines - 2) e in
    slim_box_at-IsBoxAt lines i (omega arith) h

-- A box that is found starts at a line of the message, and one line of the box is not empty.
pub find_message_box-IsBoxAt :
    (lines : List Text) {k : ℕ} → find_message_box lines ≡ some k → IsBoxAt lines k
unfolding find_message_box
find_message_box-IsBoxAt lines {k} e = elim (Option-cases (find_greater_than_message_box lines)) [
  | inl none_above ↦ slim-IsBoxAt lines (rw (none_above, find_message_box) at e)
  | inr (g, hit) ↦
      let at : g ≡ k = cc (rw (hit, find_message_box) at e) in
      subst (IsBoxAt lines) at (greater-IsBoxAt lines hit)
]

find_opencode_box_bounds :
    (lines : List Text) (above : ℕ) {i : ℕ}
    → find_opencode_box lines above ≡ some i
    → (4 ≤ i) × (i < above)
unfolding find_opencode_box
find_opencode_box_bounds lines zero e = cc
find_opencode_box_bounds lines (suc i) {i = k} e =
    ground (arith, find_opencode_box_bounds lines i {i = k})

if-le : (c : Bool) (a b n : ℕ) → a ≤ n → b ≤ n → (if c then a else b) ≤ n
if-le true a b n p q = p
if-le false a b n p q = q

find_amp_box_bounds :
    (lines : List Text) (above : ℕ) (end_found : Bool) (start : ℕ)
    → above ≤ start
    → find_amp_box lines above end_found start ≤ start
unfolding find_amp_box
find_amp_box_bounds lines zero end_found start h = omega arith
find_amp_box_bounds lines (suc i) end_found start h =
    if-le _ i _ start (omega arith) (find_amp_box_bounds lines i _ start (omega arith))

-- `removeMessageBox` keeps the lines above the box, or the whole message if there is no box.
pub remove_message_box_total :
    (msg : Text)
    → ((find_message_box (split_lines msg) ≡ none) × (remove_message_box msg ≡ some msg))
      ⊎ ((k : ℕ) × (find_message_box (split_lines msg) ≡ some k)
          × (k < length (split_lines msg))
          × (remove_message_box msg ≡ some (join_lines (take k (split_lines msg)))))
unfolding remove_message_box
remove_message_box_total msg = elim (Option-cases (find_message_box (split_lines msg))) [
  | inl e ↦ inl (e, rw (e, remove_message_box) (ap some (join_lines-split_lines msg)))
  | inr (k, e) ↦
      let (p, box) = find_message_box-IsBoxAt (split_lines msg) e in
      inr (
        k,
        e,
        p,
        rw (e, remove_message_box) (rw (slice_prefix (split_lines msg) k (omega arith)) refl),
      )
]

-- `removeCodexMessageBox` cannot panic.
pub remove_codex_message_box_total :
    (msg : Text) → (t : Text) × (remove_codex_message_box msg ≡ some t)
unfolding remove_codex_message_box
remove_codex_message_box_total msg =
    elim (Bool-cases (
      leb 3 (length (split_lines msg))
      && contains (line_at (split_lines msg) (length (split_lines msg) - 3)) (codes "›"))) [
        | inl hit ↦ (
          join_lines (
              take (length (split_lines msg) - 3) (split_lines msg)
              ++ line_at (split_lines msg) (length (split_lines msg) - 3 + 2) ∷ []),
          rw hit (
              rw (slice_prefix (split_lines msg) (length (split_lines msg) - 3) (omega arith))
                refl),
        )
        | inr miss ↦ (join_lines (split_lines msg), rw miss refl)
      ]

-- `removeOpencodeMessageBox` cannot panic.
pub remove_opencode_message_box_total :
    (msg : Text) → (t : Text) × (remove_opencode_message_box msg ≡ some t)
unfolding remove_opencode_message_box
remove_opencode_message_box_total msg =
    elim (Option-cases (find_opencode_box (split_lines msg) (length (split_lines msg)))) [
      | inl e ↦ (join_lines (split_lines msg), rw (e, remove_opencode_message_box) refl)
      | inr (i, e) ↦
          let (low, high) =
            find_opencode_box_bounds (split_lines msg) (length (split_lines msg)) e in
          (
            join_lines (take (i - 4) (split_lines msg)),
            rw (e, remove_opencode_message_box)
                (rw (slice_prefix (split_lines msg) (i - 4) (omega arith)) refl),
          )
    ]

welcome : (t : Text) → (if is_nil t then codes "Welcome to Amp" else t) ≢ []
welcome [] e = cc
welcome (c ∷ t) e = cc

-- `removeAmpMessageBox` cannot panic, and its result is never empty.
pub remove_amp_message_box_total :
    (msg : Text) → (t : Text) × (remove_amp_message_box msg ≡ some t) × (t ≢ [])
unfolding remove_amp_message_box
remove_amp_message_box_total msg =
    let lines = split_lines msg in
    let start = find_amp_box lines (length lines) false (length lines) in
    (
      (if is_nil (join_lines (take start lines))
          then codes "Welcome to Amp"
          else join_lines (take start lines)),
      rw
          (slice_prefix lines start
            (find_amp_box_bounds lines (length lines) false (length lines) (omega arith)))
          refl,
      welcome (join_lines (take start lines)),
    )
