-- ===== src/Msgfmt/Readiness/Decides.antt =====
-- lib/msgfmt/agent_readiness.go: the comparison of lengths of the readiness tests.
use agentapi_plusplus.Msgfmt.Box.Bounds.{remove_message_box_total, find_message_box-IsBoxAt}
use agentapi_plusplus.Msgfmt.Box.{line_at, find_message_box}
use agentapi_plusplus.Msgfmt.Empty.Laws.{trim_empty_lines_lem, kept_lines}
use agentapi_plusplus.Msgfmt.Empty.{trim_empty_lines}
use agentapi_plusplus.Msgfmt.Readiness.{is_generic_agent_ready}
use agentapi_plusplus.Prelude.{
  ℕ, zero, suc, ◌+◌, ◌<◌, ◌≡◌, ◌≢◌, refl, ap, inl, inr, List, [], ◌∷◌, some, arith, is_some, length,
  take, Text, byte_width, byte_length,
}
use agentapi_plusplus.Strings.Lines.{byte_length-append, join_lines-split_lines}
use agentapi_plusplus.Strings.{split_lines, join_lines}

byte_width-pos : (c : ℕ) → 0 < byte_width c
byte_width-pos c = ground arith

byte_length-pos : (s : Text) → s ≢ [] → 0 < byte_length s
byte_length-pos [] h = absurd (h refl)
byte_length-pos (c ∷ s) h = omega (arith, byte_width-pos c)

join_lines-cons :
    (l m : Text) (ls : List Text)
    → byte_length (join_lines (l ∷ m ∷ ls)) ≡ byte_length l + 1 + byte_length (join_lines (m ∷ ls))
unfolding join_lines
join_lines-cons l m ls = omega (arith, byte_length-append l (b'\n' ∷ join_lines (m ∷ ls)))

join_lines-one : (l : Text) → join_lines (l ∷ []) ≡ l
unfolding join_lines
join_lines-one l = refl

join_lines-nil : join_lines [] ≡ []
unfolding join_lines
join_lines-nil = refl

join_lines-pos : (ls : List Text) (j : ℕ) → line_at ls j ≢ [] → 0 < byte_length (join_lines ls)
unfolding join_lines
join_lines-pos [] j h = absurd (h refl)
join_lines-pos (l ∷ []) zero h = byte_length-pos l h
join_lines-pos (l ∷ []) (suc j) h = absurd (h refl)
join_lines-pos (l ∷ m ∷ ls) j h = omega (arith, join_lines-cons l m ls)

-- Fewer lines, but at least one, are fewer bytes.
join_lines-take_lt :
    (k : ℕ) (ls : List Text)
    → suc k < length ls
    → byte_length (join_lines (take (suc k) ls)) < byte_length (join_lines ls)
join_lines-take_lt k [] h = absurd (omega arith)
join_lines-take_lt k (l ∷ []) h = absurd (omega arith)
join_lines-take_lt zero (l ∷ m ∷ ls) h =
    omega (arith, join_lines-cons l m ls, ap byte_length (join_lines-one l))
join_lines-take_lt (suc k) (l ∷ m ∷ ls) h = omega (
  arith,
  join_lines-cons l m ls,
  join_lines-cons l m (take k ls),
  join_lines-take_lt k (m ∷ ls) (omega arith),
)

box_shortens :
    (ls : List Text) (k j : ℕ)
    → k < length ls
    → line_at ls j ≢ []
    → byte_length (join_lines (take k ls)) < byte_length (join_lines ls)
box_shortens ls zero j p h = omega (arith, join_lines-pos ls j h, ap byte_length join_lines-nil)
box_shortens ls (suc k) j p h = join_lines-take_lt k ls p

-- A generic agent is found ready exactly when the screen, less its empty lines at both ends, shows a
-- message box; the test never panics.
pub is_generic_agent_ready_lem :
    (message : Text)
    → (t : Text) × (trim_empty_lines message ≡ some t)
      × (is_generic_agent_ready message ≡ some (is_some (find_message_box (split_lines t))))
unfolding is_generic_agent_ready
is_generic_agent_ready_lem message =
    let t = join_lines (kept_lines (split_lines message)) in
    (
      t,
      trim_empty_lines_lem message,
      rw (trim_empty_lines_lem message) (elim (remove_message_box_total t) [
        | inl (e, r) ↦ rw (r, e) (ground arith)
        | inr (k, e, p, r) ↦
            rw (r, e)
              (let (q, (j, k_le, j_lt, filled)) = find_message_box-IsBoxAt (split_lines t) e in
                let whole = ap byte_length (join_lines-split_lines t) in
                let shorter = box_shortens (split_lines t) k j p filled in ground arith)
      ]),
    )
