-- ===== src/Strings/Lines.antt =====
-- Splitting a text into its lines and joining them, of Go's `strings.Split` and `strings.Join`.
use mathlib.Core.Path.{ap₂}
use agentapi_plusplus.Prelude.{
  ℕ, zero, suc, ◌+◌, ◌≡◌, refl, sym, ap, ◌∙◌, ◌≢◌, false, inl, inr, List, [], ◌∷◌, ◌++◌, arith,
  ◌==◌, Bool-cases, ==_iff, take, drop, Text, byte_length,
}
use agentapi_plusplus.Strings.{push_head, split_lines, join_lines}

-- A line without a newline.
abbrev pub IsLine : Text → Type 0
IsLine [] = Unit {0}
IsLine (c ∷ l) = ((c == b'\n') ≡ false) × IsLine l

abbrev pub AreLines : List Text → Type 0
AreLines [] = Unit {0}
AreLines (l ∷ ls) = IsLine l × AreLines ls

push_head-ne-nil : (c : ℕ) (ls : List Text) → push_head c ls ≢ []
push_head-ne-nil c [] h = cc
push_head-ne-nil c (l ∷ ls) h = cc

push_head-AreLines :
    (c : ℕ) (ls : List Text) → (c == b'\n') ≡ false → AreLines ls → AreLines (push_head c ls)
push_head-AreLines c [] h a = ((h, tt), tt)
push_head-AreLines c (l ∷ ls) h a = ((h, a.0), a.1)

pub split_lines-ne-nil : (s : Text) → split_lines s ≢ []
unfolding split_lines
split_lines-ne-nil [] h = cc
split_lines-ne-nil (c ∷ s) h = elim (Bool-cases (c == b'\n')) [
  | inl e ↦ cc (rw e at h)
  | inr e ↦ push_head-ne-nil c (split_lines s) (rw e at h)
]

pub join_lines-push_head :
    (c : ℕ) (ls : List Text) → ls ≢ [] → join_lines (push_head c ls) ≡ c ∷ join_lines ls
unfolding join_lines
join_lines-push_head c [] h = absurd (h refl)
join_lines-push_head c (l ∷ []) h = refl
join_lines-push_head c (l ∷ m ∷ ls) h = refl

pub join_lines-nil_cons : (ls : List Text) → ls ≢ [] → join_lines ([] ∷ ls) ≡ b'\n' ∷ join_lines ls
unfolding join_lines
join_lines-nil_cons [] h = absurd (h refl)
join_lines-nil_cons (l ∷ ls) h = refl

-- Joining the lines of a text gives the text.
pub join_lines-split_lines : (s : Text) → join_lines (split_lines s) ≡ s
unfolding split_lines join_lines
join_lines-split_lines [] = refl
join_lines-split_lines (c ∷ s) = elim (Bool-cases (c == b'\n')) [
  | inl e ↦ rw e (
      join_lines-nil_cons (split_lines s) (split_lines-ne-nil s)
      ∙ ap₂ ◌∷◌ (sym ((==_iff c b'\n').0 e)) (join_lines-split_lines s))
  | inr e ↦ rw e (
      join_lines-push_head c (split_lines s) (split_lines-ne-nil s)
      ∙ ap (◌∷◌ c) (join_lines-split_lines s))
]

pub split_lines-AreLines : (s : Text) → AreLines (split_lines s)
unfolding split_lines
split_lines-AreLines [] = (tt, tt)
split_lines-AreLines (c ∷ s) = elim (Bool-cases (c == b'\n')) [
  | inl e ↦ rw e (tt, split_lines-AreLines s)
  | inr e ↦ rw e (push_head-AreLines c (split_lines s) e (split_lines-AreLines s))
]

split_lines-append : (l s : Text) → IsLine l → split_lines (l ++ (b'\n' ∷ s)) ≡ l ∷ split_lines s
unfolding split_lines
split_lines-append [] s h = refl
split_lines-append (c ∷ l) s h = rw (h.0, split_lines-append l s h.1)

split_lines-line : (l : Text) → IsLine l → split_lines l ≡ l ∷ []
unfolding split_lines
split_lines-line [] h = refl
split_lines-line (c ∷ l) h = rw (h.0, split_lines-line l h.1)

-- Splitting joined lines gives the lines back, if there are any.
pub split_lines-join_lines :
    (ls : List Text) → ls ≢ [] → AreLines ls → split_lines (join_lines ls) ≡ ls
unfolding join_lines
split_lines-join_lines [] h a = absurd (h refl)
split_lines-join_lines (l ∷ []) h a = split_lines-line l a.0
split_lines-join_lines (l ∷ m ∷ ls) h a =
    split_lines-append l (join_lines (m ∷ ls)) a.0
    ∙ ap (◌∷◌ l) (split_lines-join_lines (m ∷ ls) (λ e. cc) a.1)

pub AreLines-take : (n : ℕ) (ls : List Text) → AreLines ls → AreLines (take n ls)
AreLines-take zero ls a = tt
AreLines-take (suc n) [] a = tt
AreLines-take (suc n) (l ∷ ls) a = (a.0, AreLines-take n ls a.1)

pub AreLines-drop : (n : ℕ) (ls : List Text) → AreLines ls → AreLines (drop n ls)
AreLines-drop zero ls a = a
AreLines-drop (suc n) [] a = tt
AreLines-drop (suc n) (l ∷ ls) a = AreLines-drop n ls a.1

pub byte_length-append : (s t : Text) → byte_length (s ++ t) ≡ byte_length s + byte_length t
byte_length-append [] t = omega arith
byte_length-append (c ∷ s) t = omega (arith, byte_length-append s t)
