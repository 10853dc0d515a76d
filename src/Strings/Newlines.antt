-- ===== src/Strings/Newlines.antt =====
-- Newlines at the end of a text, and texts that are joined by one, of Go's `strings.Split`, `strings.Join`
-- and `strings.TrimRight`.
use agentapi_plusplus.Prelude.{
  append-nil, ℕ, ◌≡◌, ◌≢◌, ◌⊎◌, refl, ap, ◌∙◌, inl, inr, Bool, List, [], ◌∷◌, ◌++◌, ◌==◌,
  Bool-cases, ==_iff, Text,
}
use agentapi_plusplus.Strings.{push_head, split_lines, keep_head, trim_right}
use agentapi_plusplus.Strings.Lines.{split_lines-ne-nil}

push_head-append :
    (c : ℕ) (ls ms : List Text) → ls ≢ [] → push_head c (ls ++ ms) ≡ push_head c ls ++ ms
push_head-append c [] ms h = absurd (h refl)
push_head-append c (l ∷ ls) ms h = refl

-- The lines of two texts with a newline between them.
pub split_lines-newline :
    (s t : Text) → split_lines (s ++ b'\n' ∷ t) ≡ split_lines s ++ split_lines t
unfolding split_lines
split_lines-newline [] t = refl
split_lines-newline (c ∷ s) t = elim (Bool-cases (c == b'\n')) [
  | inl e ↦ rw (e, split_lines-newline s t) refl
  | inr e ↦
      rw (e, split_lines-newline s t)
        (push_head-append c (split_lines s) (split_lines t) (split_lines-ne-nil s))
]

abbrev pub is_newline : ℕ → Bool
is_newline c = c == b'\n'

-- What is trimmed is nothing, or starts with a newline.
abbrev IsTail : Text → Type 0
IsTail u = (u ≡ []) ⊎ ((v : Text) × (u ≡ b'\n' ∷ v))

keep_head-IsTail :
    (c : ℕ) (s t u : Text)
    → s ≡ t ++ u
    → IsTail u
    → (v : Text) × (c ∷ s ≡ keep_head is_newline c t ++ v) × IsTail v
keep_head-IsTail c s [] u e h = elim (Bool-cases (c == b'\n')) [
  | inl k ↦ (c ∷ s, rw k refl, inr (s, ap (λ b. b ∷ s) ((==_iff c b'\n').0 k)))
  | inr k ↦ (u, rw k (ap (◌∷◌ c) e), h)
]
keep_head-IsTail c s (d ∷ t) u e h = (u, ap (◌∷◌ c) e, h)

trim_newlines-IsTail : (s : Text) → (u : Text) × (s ≡ trim_right is_newline s ++ u) × IsTail u
unfolding trim_right
trim_newlines-IsTail [] = ([], refl, inl refl)
trim_newlines-IsTail (c ∷ s) =
    let (u, e, h) = trim_newlines-IsTail s in keep_head-IsTail c s (trim_right is_newline s) u e h

split_lines-tail :
    (t u : Text) → IsTail u → (ms : List Text) × (split_lines (t ++ u) ≡ split_lines t ++ ms)
split_lines-tail t u (inl e) = ([], rw (e, append-nil t, append-nil (split_lines t)) refl)
split_lines-tail t u (inr (v, e)) = (split_lines v, rw e (split_lines-newline t v))

-- Trimming the newlines at the end leaves a text whose lines are the first lines.
pub trim_newlines-split :
    (s : Text) → (ms : List Text) × (split_lines s ≡ split_lines (trim_right is_newline s) ++ ms)
trim_newlines-split s =
    let (u, e, h) = trim_newlines-IsTail s in
    let (ms, k) = split_lines-tail (trim_right is_newline s) u h in (ms, ap split_lines e ∙ k)

pub trim_newlines-newline :
    (s : Text) → trim_right is_newline (s ++ b'\n' ∷ []) ≡ trim_right is_newline s
unfolding trim_right
trim_newlines-newline [] = refl
trim_newlines-newline (c ∷ s) = rw (trim_newlines-newline s) refl
