-- ===== src/Transcript/Tail.antt =====
-- lib/transcript/tail.go: the tailer of a file that grows. A file is the list of its bytes.
pub mod Reference
pub mod Drains
pub mod Lines
use agentapi_plusplus.Prelude.{
  ℕ, ◌+◌, ◌*◌, Bool, true, false, not, List, [], ◌∷◌, ◌++◌, Option, none, some, ltb, ◌==◌,
  if◌then◌else◌, length, is_nil, take, drop, Text,
}
use agentapi_plusplus.Strings.{split_lines, trim_right}

unfoldable pub max_line_size : ℕ
max_line_size = 32 * 1024 * 1024

-- Without `path`, which no operation changes. A nil `carry` is an empty one: the code reads its length only.
pub record Tailer : Type 0 where
  pub offset : ℕ
  pub carry : Text
  pub skipping : Bool

unfoldable pub new_tailer : Tailer
new_tailer = record { offset = 0; carry = []; skipping = false }

abbrev pub is_return : ℕ → Bool
is_return c = c == b'\r'

-- `bytes.TrimRight(line, "\r")`, kept if it is not empty.
unfoldable pub keep_line : Text → List Text
keep_line line = let kept = trim_right is_return line in if is_nil kept then [] else kept ∷ []

-- The body of the loop of `Drain`, on a chunk without its newline; `complete` tells whether it had one.
unfoldable pub take_chunk : Tailer → Text → Bool → Tailer × List Text
unfolding keep_line
take_chunk t chunk complete =
    let n = t.offset + length chunk + (if complete then 1 else 0) in
    if t.skipping
    then (record t { offset = n; skipping = not complete }, [])
    else if ltb max_line_size (length t.carry + length chunk)
    then (record t { offset = n; carry = []; skipping = not complete }, [])
    else if complete
    then (record t { offset = n; carry = [] }, keep_line (t.carry ++ chunk))
    else (record t { offset = n; carry = t.carry ++ chunk }, [])

-- The loop of `Drain` over what `ReadBytes` gives: chunks that end in a newline, and a last one that the
-- end of the file, or an error, cuts off.
unfoldable pub take_chunks : Tailer → List Text → Tailer × List Text
unfolding take_chunk
take_chunks t [] = (t, [])
take_chunks t (chunk ∷ []) = take_chunk t chunk false
take_chunks t (chunk ∷ next ∷ chunks) =
    let first = take_chunk t chunk true in
    let rest = take_chunks first.0 (next ∷ chunks) in (rest.0, first.1 ++ rest.1)

-- What the file system answers: no file; a file that cannot be opened, measured or sought; the bytes of
-- a file, and after how many bytes the reading fails, if it does.
pub data File : Type 0 where
  missing unreadable : File
  bytes : Text → Option ℕ → File

-- `Seek(offset)` and the bytes that the reader gives until it ends.
unfoldable pub read_from : Text → Option ℕ → ℕ → Text
read_from s none offset = drop offset s
read_from s (some n) offset = take n (drop offset s)

-- The guard against a file that shrank.
unfoldable pub check_size : Tailer → ℕ → Tailer
unfolding new_tailer
check_size t size = if ltb size t.offset then new_tailer else t

pub record Drained : Type 0 where
  pub tail : Tailer
  pub lines : List Text
  pub failed : Bool

abbrev pub is_failure : Option ℕ → Bool
is_failure none = false
is_failure (some n) = true

unfoldable pub drain : Tailer → File → Drained
unfolding read_from check_size take_chunks
drain t missing = record { tail = t; lines = []; failed = false }
drain t unreadable = record { tail = t; lines = []; failed = true }
drain t (bytes s fails) =
    let u = check_size t (length s) in
    let result = take_chunks u (split_lines (read_from s fails u.offset)) in
    record { tail = result.0; lines = result.1; failed = is_failure fails }
