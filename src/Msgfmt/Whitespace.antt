-- ===== src/Msgfmt/Whitespace.antt =====
-- lib/msgfmt/msgfmt.go: the white space of a message.
use agentapi_plusplus.Prelude.{ℕ, Bool, ◌||◌, ◌==◌, Text}
use agentapi_plusplus.Strings.{trim}

-- `strings.ContainsRune(WhiteSpaceChars, c)`.
unfoldable pub is_white_space : ℕ → Bool
is_white_space c = c == 0x20 || c == 0x9 || c == 0xa || c == 0xd || c == 0xc || c == 0xb

unfoldable pub trim_white_space : Text → Text
unfolding is_white_space trim
trim_white_space = trim is_white_space
