-- ===== src/Msgfmt/Echo/Locations.antt =====
-- lib/msgfmt/msgfmt.go: the runes of a text and the lines that they stand on.
use agentapi_plusplus.Msgfmt.Echo.{Runes, push_rune, push_line, push_lines, normalize}
use agentapi_plusplus.Prelude.{
  ℕ, zero, suc, ◌+◌, ◌≤◌, ◌<◌, ◌≡◌, inl, inr, List, [], ◌∷◌, ◌++◌, some, arith, Bool-cases, length,
  get_elem?, length-append, Text,
}
use agentapi_plusplus.Msgfmt.Whitespace.{is_white_space}
use agentapi_plusplus.Strings.{split_lines}

abbrev AllBelow : ℕ → List ℕ → Type 0
AllBelow n [] = Unit {0}
AllBelow n (l ∷ ls) = (l < n) × AllBelow n ls

AllBelow-concat : (n : ℕ) (ls : List ℕ) (l : ℕ) → AllBelow n ls → l < n → AllBelow n (ls ++ l ∷ [])
AllBelow-concat n [] l a h = (h, tt)
AllBelow-concat n (x ∷ ls) l a h = (a.0, AllBelow-concat n ls l a.1 h)

pub AllBelow-get_elem? :
    (n : ℕ) (ls : List ℕ) (k : ℕ) {l : ℕ} → AllBelow n ls → get_elem? ls k ≡ some l → l < n
AllBelow-get_elem? n [] k a e = cc
AllBelow-get_elem? n (x ∷ ls) zero a e = ground arith
AllBelow-get_elem? n (x ∷ ls) (suc k) a e = AllBelow-get_elem? n ls k a.1 e

-- Every rune has the number of a line, below `n`.
pub record AreLocated (n : ℕ) (r : Runes) : Type 0 where
  pub paired : length r.runes ≡ length r.locations
  pub below : AllBelow n r.locations

push_rune-AreLocated :
    (n i : ℕ) (acc : Runes) (r : ℕ) → i < n → AreLocated n acc → AreLocated n (push_rune i acc r)
unfolding push_rune
push_rune-AreLocated n i acc r h v = elim (Bool-cases (is_white_space r)) [
  | inl e ↦ rw e v
  | inr e ↦ rw e (record {
    paired =
        omega
          (arith, v.paired, length-append acc.runes (r ∷ []), length-append acc.locations (i ∷ []));
    below = AllBelow-concat n acc.locations i v.below h;
  })
]

push_line-AreLocated :
    (n i : ℕ) (acc : Runes) (line : Text)
    → i < n
    → AreLocated n acc
    → AreLocated n (push_line i acc line)
unfolding push_line
push_line-AreLocated n i acc [] h v = v
push_line-AreLocated n i acc (r ∷ line) h v =
    push_line-AreLocated n i (push_rune i acc r) line h (push_rune-AreLocated n i acc r h v)

push_lines-AreLocated :
    (n i : ℕ) (acc : Runes) (lines : List Text)
    → i + length lines ≤ n
    → AreLocated n acc
    → AreLocated n (push_lines i acc lines)
unfolding push_lines
push_lines-AreLocated n i acc [] h v = v
push_lines-AreLocated n i acc (line ∷ lines) h v =
    push_lines-AreLocated n (i + 1) (push_line i acc line) lines (omega arith)
      (push_line-AreLocated n i acc line (omega arith) v)

-- The location of each rune of a text is a line of the text.
pub normalize-AreLocated :
    (msg_raw : Text) → AreLocated (length (split_lines msg_raw)) (normalize msg_raw)
unfolding normalize
normalize-AreLocated msg_raw =
    push_lines-AreLocated _ 0 _ (split_lines msg_raw) (omega arith) (omega arith)
