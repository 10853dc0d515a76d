-- ===== src/Msgfmt/Echo/Total.antt =====
-- lib/msgfmt/msgfmt.go: the result of `RemoveUserInput`.
use agentapi_plusplus.Msgfmt.Agents.{AgentType}
use agentapi_plusplus.Msgfmt.Echo.Locations.{AreLocated, AllBelow-get_elem?, normalize-AreLocated}
use agentapi_plusplus.Msgfmt.Echo.Matching.{find_user_input_end_idx_total}
use agentapi_plusplus.Msgfmt.Echo.{
  Runes, normalize, prefix_len, msg_prefix_len, find_user_input_start_idx, skip_agent_lines,
  remove_echo, remove_user_input,
}
use agentapi_plusplus.Msgfmt.Subslice.Correct.{index_subslice-lt}
use agentapi_plusplus.Msgfmt.Subslice.{index_subslice}
use agentapi_plusplus.Prelude.{
  ℕ, ◌+◌, ◌≤◌, ◌<◌, ◌≡◌, ◌≢◌, refl, sym, ap, ◌⊎◌, inl, inr, List, [], ◌∷◌, Option, none, some, min,
  max, arith, Option-cases, ==_iff, length, get_elem?-some, take, drop, length-take, slice_rest,
  slice_prefix, Text, ◌==◌,
}
use agentapi_plusplus.Strings.Lines.{join_lines-split_lines}
use agentapi_plusplus.Strings.{split_lines, join_lines}

none-some : {n : ℕ} → ◌≡◌ {A = Option ℕ} none (some n) → ⊥
none-some e = cc

prefix_len_bounds :
    (ls : List ℕ) (i : ℕ) (len : Option ℕ) {n : ℕ}
    → prefix_len ls i len ≡ some n
    → (len ≡ some n) ⊎ ((i < n) × (n ≤ i + length ls))
unfolding prefix_len
prefix_len_bounds [] i len e = inl e
prefix_len_bounds (l ∷ ls) i len {n} e =
    ground (arith, prefix_len_bounds ls (i + 1) (some (i + 1)) {n = n})

abbrev InMessage : List ℕ → Option ℕ → Type 0
InMessage msg none = Unit {0}
InMessage msg (some s) = s < length msg

index_subslice-InMessage :
    (msg sub : List ℕ) (n : ℕ) → sub ≢ [] → InMessage msg (index_subslice ◌==◌ (take n msg) sub)
index_subslice-InMessage msg sub n ne = elim (Option-cases (index_subslice ◌==◌ (take n msg) sub)) [
  | inl e ↦ rw e tt
  | inr (k, e) ↦
      rw e (omega (arith, index_subslice-lt ◌==◌ ==_iff (take n msg) sub ne e, length-take n msg))
]

-- `findUserInputStartIdx` does not panic, and a start that it finds is a rune of the message.
find_user_input_start_idx_total :
    {n : ℕ} (msg user_input : Runes)
    → AreLocated n user_input
    → (start : Option ℕ) × (find_user_input_start_idx msg user_input ≡ some start)
      × InMessage msg.runes start
unfolding find_user_input_start_idx
find_user_input_start_idx_total msg user_input v =
    elim (Option-cases (prefix_len user_input.locations 0 none)) [
      | inl e ↦ (none, rw (e, find_user_input_start_idx) refl, tt)
      | inr (len, e) ↦ elim (prefix_len_bounds user_input.locations 0 none e) [
        | inl absent ↦ absurd (none-some absent)
        | inr (pos, le) ↦
            let prefix = take len user_input.runes in
            let msg_len = min (max (msg_prefix_len msg.locations 0 0) 25) (length msg.runes) in
            let nonempty : prefix ≢ [] =
              λ nil. omega (arith, ap length nil, length-take len user_input.runes, v.paired) in
            (
              index_subslice ◌==◌ (take msg_len msg.runes) prefix,
              rw (e, find_user_input_start_idx)
                  (rw (slice_prefix user_input.runes len (omega (arith, v.paired)))
                    (rw (slice_prefix msg.runes msg_len (omega arith)) refl)),
              index_subslice-InMessage msg.runes prefix msg_len nonempty,
            )
      ]
    ]

-- Skipping lines of the input box stays among the lines.
skip_agent_lines_bounds :
    (a : AgentType) (lines : List Text) (last : ℕ)
    → last < length lines
    → (last ≤ skip_agent_lines a lines last) × (skip_agent_lines a lines last < length lines)
unfolding skip_agent_lines
skip_agent_lines_bounds _ lines last h = ground arith

module _ (msg_raw user_input_raw : Text) (agent_type : AgentType) where
  abbrev IsTail : Option Text → Type 0
  IsTail r =
      (n : ℕ) × (n ≤ length (split_lines msg_raw))
      × (r ≡ some (join_lines (drop n (split_lines msg_raw))))

  whole-IsTail : IsTail (some msg_raw)
  whole-IsTail = (0, omega arith, ap some (sym (join_lines-split_lines msg_raw)))

  remove_echo-IsTail : IsTail (remove_echo msg_raw user_input_raw agent_type)
  unfolding remove_echo
  remove_echo-IsTail = go (
      find_user_input_start_idx_total (normalize msg_raw) (normalize user_input_raw)
        (normalize-AreLocated user_input_raw))
    where
      located : AreLocated (length (split_lines msg_raw)) (normalize msg_raw)
      located = normalize-AreLocated msg_raw

      go :
          (start : Option ℕ) × (find_user_input_start_idx
                (normalize msg_raw)
                (normalize user_input_raw)
              ≡ some start)
            × InMessage (normalize msg_raw).runes start
          → IsTail (remove_echo msg_raw user_input_raw agent_type)
      go (none, e, h) = rw e whole-IsTail
      go (some start, e, h) =
          let (r, er, le, inside) =
            find_user_input_end_idx_total start (normalize msg_raw).runes
              (normalize user_input_raw).runes h in
          let (last, el) =
            get_elem?-some (normalize msg_raw).locations r (omega (arith, located.paired)) in
          let in_lines =
            AllBelow-get_elem? (length (split_lines msg_raw)) (normalize msg_raw).locations r
              located.below el in
          let (more, bound) =
            skip_agent_lines_bounds agent_type (split_lines msg_raw) last in_lines in
          let n = skip_agent_lines agent_type (split_lines msg_raw) last + 1 in
          (
            n,
            omega arith,
            rw e (rw er (rw el (rw (slice_rest (split_lines msg_raw) n (omega arith)) refl))),
          )

-- `RemoveUserInput` never panics and its loop always ends. The result is a tail of the lines of the
-- message: whole lines are cut off its start, and nothing else is changed.
pub remove_user_input_total :
    (msg_raw user_input_raw : Text) (agent_type : AgentType)
    → (n : ℕ) × (n ≤ length (split_lines msg_raw))
      × (remove_user_input msg_raw user_input_raw agent_type
          ≡ some (join_lines (drop n (split_lines msg_raw))))
unfolding remove_user_input
remove_user_input_total msg_raw [] agent_type = whole-IsTail msg_raw [] agent_type
remove_user_input_total msg_raw (c ∷ user_input) agent_type =
    remove_echo-IsTail msg_raw (c ∷ user_input) agent_type
