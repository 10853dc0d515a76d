-- ===== src/McpConfig/Codex/Kept.antt =====
-- lib/mcpconfig/codex.go: the lines that `Replace` keeps, which it keeps again.
use agentapi_plusplus.McpConfig.Codex.{keep_lines}
use agentapi_plusplus.McpConfig.Patterns.{is_header, is_mcp_header, is_root_assign, is_marker}
use agentapi_plusplus.Prelude.{
  ◌≡◌, ◌⊎◌, refl, ap, ◌∙◌, inl, inr, Bool, true, false, not, ◌&&◌, List, [], ◌∷◌, ◌++◌,
  if◌then◌else◌, Bool-cases, arith, Text,
}

-- Lines that the loop keeps outside a section, from the start of the file on or after a header.
abbrev pub AreKept : Bool → List Text → Type 0
AreKept in_root [] = Unit
AreKept in_root (l ∷ ls) =
    (is_marker l ≡ false)
    × (((is_header l ≡ true) × (is_mcp_header l ≡ false) × AreKept false ls)
        ⊎ ((is_header l ≡ false) × ((in_root && is_root_assign l) ≡ false) × AreKept in_root ls))

-- Whether the lines leave the root table.
abbrev pub root_after : Bool → List Text → Bool
root_after in_root [] = in_root
root_after in_root (l ∷ ls) = root_after (in_root && not (is_header l)) ls

keep_lines-cons :
    (b r : Bool) (l : Text) (ls : List Text)
    → keep_lines b r (l ∷ ls) ≡ (
        if is_marker l
        then keep_lines b r ls
        else if is_header l
        then (if is_mcp_header l
            then keep_lines (is_mcp_header l) false ls
            else l ∷ keep_lines (is_mcp_header l) false ls)
        else if r && is_root_assign l
        then keep_lines b r ls
        else if b
        then keep_lines b r ls
        else l ∷ keep_lines b r ls)
unfolding keep_lines
keep_lines-cons b r l ls = refl

module _ (r : Bool) (l : Text) (ls : List Text) (m : is_marker l ≡ false) where
  pub keep_lines_section :
      (b : Bool)
      → is_header l ≡ true
      → is_mcp_header l ≡ true
      → keep_lines b r (l ∷ ls) ≡ keep_lines true false ls
  keep_lines_section b h k = rw (keep_lines-cons b r l ls, m, h, k) refl

  keep_lines_header :
      (b : Bool)
      → is_header l ≡ true
      → is_mcp_header l ≡ false
      → keep_lines b r (l ∷ ls) ≡ l ∷ keep_lines false false ls
  keep_lines_header b h k = rw (keep_lines-cons b r l ls, m, h, k) refl

  keep_lines_assign :
      (b : Bool)
      → is_header l ≡ false
      → (r && is_root_assign l) ≡ true
      → keep_lines b r (l ∷ ls) ≡ keep_lines b r ls
  keep_lines_assign b h k = rw (keep_lines-cons b r l ls, m, h, k) refl

  keep_lines_in : is_header l ≡ false → keep_lines true r (l ∷ ls) ≡ keep_lines true r ls
  keep_lines_in h = elim (Bool-cases (r && is_root_assign l)) [
    | inl k ↦ keep_lines_assign true h k
    | inr k ↦ rw (keep_lines-cons true r l ls, m, h, k) refl
  ]

  keep_lines_out :
      is_header l ≡ false
      → (r && is_root_assign l) ≡ false
      → keep_lines false r (l ∷ ls) ≡ l ∷ keep_lines false r ls
  keep_lines_out h k = rw (keep_lines-cons false r l ls, m, h, k) refl

pub keep_lines_marker :
    (b r : Bool) (l : Text) (ls : List Text)
    → is_marker l ≡ true
    → keep_lines b r (l ∷ ls) ≡ keep_lines b r ls
keep_lines_marker b r l ls m = rw (keep_lines-cons b r l ls, m) refl

-- What is kept is kept again, in a section wherever it stands.
pub keep_lines-AreKept :
    (r : Bool) (ls : List Text)
    → AreKept r (keep_lines false r ls) × ((s : Bool) → AreKept s (keep_lines true r ls))
unfolding keep_lines
keep_lines-AreKept r [] = (tt, λ s. tt)
keep_lines-AreKept r (l ∷ ls) = elim (Bool-cases (is_marker l)) [
  | inl m ↦
      rw (keep_lines_marker false r l ls m, keep_lines_marker true r l ls m)
        (keep_lines-AreKept r ls)
  | inr m ↦ elim (Bool-cases (is_header l)) [
    | inl h ↦ elim (Bool-cases (is_mcp_header l)) [
      | inl k ↦
          let (out, in_section) = keep_lines-AreKept false ls in
          rw (keep_lines_section r l ls m false h k, keep_lines_section r l ls m true h k)
            (in_section r, in_section)
      | inr k ↦
          let (out, in_section) = keep_lines-AreKept false ls in
          rw (keep_lines_header r l ls m false h k, keep_lines_header r l ls m true h k)
            ((m, inl (h, k, out)), λ s. (m, inl (h, k, out)))
    ]
    | inr h ↦ elim (Bool-cases (r && is_root_assign l)) [
      | inl k ↦
          rw (keep_lines_assign r l ls m false h k, keep_lines_assign r l ls m true h k)
            (keep_lines-AreKept r ls)
      | inr k ↦
          let (out, in_section) = keep_lines-AreKept r ls in
          rw (keep_lines_out r l ls m h k, keep_lines_in r l ls m h)
            ((m, inr (h, k, out)), in_section)
    ]
  ]
]

-- Kept lines are kept, and what follows them is read as after them.
pub keep_lines-append :
    (r : Bool) (ls ms : List Text)
    → AreKept r ls
    → keep_lines false r (ls ++ ms) ≡ ls ++ keep_lines false (root_after r ls) ms
keep_lines-append r [] ms k = refl
keep_lines-append r (l ∷ ls) ms (m, inl (h, k, rest)) =
    let left : (r && not (is_header l)) ≡ false = ground (arith, h) in
    rw (keep_lines_header r l (ls ++ ms) m false h k, left)
      (ap (◌∷◌ l) (keep_lines-append false ls ms rest))
keep_lines-append r (l ∷ ls) ms (m, inr (h, k, rest)) =
    let stays : (r && not (is_header l)) ≡ r = ground (arith, h) in
    rw (keep_lines_out r l (ls ++ ms) m h k, stays) (ap (◌∷◌ l) (keep_lines-append r ls ms rest))

pub AreKept-append : (r : Bool) (ls ms : List Text) → AreKept r (ls ++ ms) → AreKept r ls
AreKept-append r [] ms k = tt
AreKept-append r (l ∷ ls) ms (m, inl (h, k, rest)) =
    (m, inl (h, k, AreKept-append false ls ms rest))
AreKept-append r (l ∷ ls) ms (m, inr (h, k, rest)) = (m, inr (h, k, AreKept-append r ls ms rest))

-- A section, whose headers are all of servers, is left out up to its end.
abbrev pub InSection : List Text → Type 0
InSection [] = Unit
InSection (l ∷ ls) = (is_header l ≡ true → is_mcp_header l ≡ true) × InSection ls

pub keep_lines-InSection : (r : Bool) (ls : List Text) → InSection ls → keep_lines true r ls ≡ []
unfolding keep_lines
keep_lines-InSection r [] h = refl
keep_lines-InSection r (l ∷ ls) (h, hs) = elim (Bool-cases (is_marker l)) [
  | inl m ↦ keep_lines_marker true r l ls m ∙ keep_lines-InSection r ls hs
  | inr m ↦ elim (Bool-cases (is_header l)) [
    | inl k ↦ keep_lines_section r l ls m true k (h k) ∙ keep_lines-InSection false ls hs
    | inr k ↦ keep_lines_in r l ls m k ∙ keep_lines-InSection r ls hs
  ]
]
