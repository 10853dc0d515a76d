-- ===== src/Msgfmt/Empty.antt =====
-- lib/msgfmt/msgfmt.go: `trimEmptyLines`. `none` is a panic of Go: a slice out of range.
pub mod Laws
use agentapi_plusplus.Prelude.{
  Bool, not, List, [], Option, some, ◌>>=◌, length, slice, first_index, last_index, Text,
}
use agentapi_plusplus.Strings.{split_lines, join_lines, is_blank}

abbrev pub has_text : Text → Bool
has_text l = not (is_blank l)

-- `firstIdx` is the index of the first line with text, or the number of lines; `lastIdx + 1` is one
-- more than that of the last, or 0.
unfoldable pub trim_empty_lines : Text → Option Text
trim_empty_lines message = do
  let lines = split_lines message
  rest ← slice lines (first_index has_text lines 0 (length lines)) (length lines)
  kept ← slice rest 0 (last_index has_text rest [] (length rest) 0)
  some (join_lines kept)
