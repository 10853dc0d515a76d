-- ===== src/Transcript/Discover.antt =====
-- lib/transcript/discover.go: the search for the newest session file. What `filepath.Glob` and `os.Stat`
-- give is a parameter; a path is a text.
use agentapi_plusplus.Prelude.{
  ◌>>=◌, take, ℕ, suc, Bool, not, ◌&&◌, ◌||◌, List, [], ◌∷◌, Option, none, some, ltb, leb, ◌==◌,
  if◌then◌else◌, Text, text_eq, codes,
}

abbrev is_kept : ℕ → Bool
is_kept r =
    (leb b'a' r && leb r b'z')
    || (leb b'A' r && leb r b'Z')
    || (leb b'0' r && leb r b'9')
    || r == b'-'

unfoldable pub sanitize_cwd : Text → Text
sanitize_cwd [] = []
sanitize_cwd (r ∷ cwd) = (if is_kept r then r else b'-') ∷ sanitize_cwd cwd

-- A file that a pattern matches: what `os.Stat` gives of it, `none` for an error.
pub record Stat : Type 0 where
  pub is_dir : Bool
  pub mod_time : ℕ

pub record Match : Type 0 where
  pub path : Text
  pub stat : Option Stat

-- `best` and `bestTime`; the zero time is 0.
pub record Best : Type 0 where
  pub best : Text
  pub best_time : ℕ

unfoldable pub no_best : Best
no_best = record { best = []; best_time = 0 }

-- The body of the inner loop; `owns` is always true where the code passes nil.
unfoldable pub take_match : (Text → Bool) → ℕ → Best → Match → Best
take_match owns not_before b m = elim m.stat [
  | none ↦ b
  | some info ↦
      if info.is_dir
      then b
      else if ltb info.mod_time not_before || ltb info.mod_time b.best_time
      then b
      else if not (owns m.path)
      then b
      else record { best = m.path; best_time = info.mod_time }
]

unfoldable pub take_matches : (Text → Bool) → ℕ → Best → List Match → Best
unfolding take_match
take_matches owns not_before b [] = b
take_matches owns not_before b (m ∷ matches) =
    take_matches owns not_before (take_match owns not_before b m) matches

-- The outer loop, on what `Glob` gives for each directory; `none` where it fails.
unfoldable pub take_dirs : (Text → Bool) → ℕ → Best → List (Option (List Match)) → Option Best
unfolding take_matches
take_dirs owns not_before b [] = some b
take_dirs owns not_before b (none ∷ dirs) = none
take_dirs owns not_before b (some matches ∷ dirs) =
    take_dirs owns not_before (take_matches owns not_before b matches) dirs

-- `newestMatch`: `none` is the error, the empty text that no file was found.
unfoldable pub newest_match : (Text → Bool) → ℕ → List (Option (List Match)) → Option Text
unfolding take_dirs no_best
newest_match owns not_before dirs = take_dirs owns not_before no_best dirs >>= λ b. some b.best

-- `indexByte`, with `none` for -1.
unfoldable pub index_byte : Text → ℕ → Option ℕ
index_byte [] c = none
index_byte (b ∷ s) c =
    let rest = index_byte s c in if b == c then some 0 else (rest >>= λ i. some (suc i))

-- The first line of a rollout file, as JSON.
pub record SessionMeta : Type 0 where
  pub type : Text
  pub cwd : Text

-- `head[:i]` for the first newline.
unfoldable pub cut_line : Text → Text
unfolding index_byte
cut_line head = elim (index_byte head b'\n') [ none ↦ head | some i ↦ take i head ]

-- `codexSessionCwd`, for what the first read of the file gives (`none` where it cannot be opened).
unfoldable pub codex_session_cwd : (Text → Option SessionMeta) → Option Text → Text
unfolding cut_line
codex_session_cwd decode none = []
codex_session_cwd decode (some head) = elim (decode (cut_line (take 65536 head))) [
  | none ↦ []
  | some line ↦ if not (text_eq line.type (codes "session_meta")) then [] else line.cwd
]

-- `owns` of the Codex discoverer.
unfoldable pub codex_owns : (Text → Option SessionMeta) → (Text → Option Text) → Text → Text → Bool
unfolding codex_session_cwd
codex_owns decode read work_dir path = text_eq (codex_session_cwd decode (read path)) work_dir
