-- ===== src/Tests/Formats.antt =====
-- lib/msgfmt at concrete inputs.
use agentapi_plusplus.Msgfmt.Agents.{claude}
use agentapi_plusplus.Msgfmt.Echo.{remove_user_input}
use agentapi_plusplus.Msgfmt.Echo.Total.{remove_user_input_total}
use agentapi_plusplus.Msgfmt.Empty.{trim_empty_lines}
use agentapi_plusplus.Msgfmt.Subslice.{index_subslice}
use agentapi_plusplus.Prelude.{
  ℕ, ◌≤◌, ◌≡◌, refl, [], ◌∷◌, none, some, ◌==◌, length, drop, Text, codes, slice, first_index,
  last_index,
}
use agentapi_plusplus.Strings.{split_lines, join_lines, is_blank}

abbrev echoed : Text
echoed = codes "> hello\nanswer"

remove_user_input_total_example :
    (n : ℕ) × (n ≤ length (split_lines echoed))
    × (remove_user_input echoed (codes "hello") claude
        ≡ some (join_lines (drop n (split_lines echoed))))
remove_user_input_total_example = remove_user_input_total echoed (codes "hello") claude

index_run : index_subslice ◌==◌ (1 ∷ 2 ∷ 1 ∷ 2 ∷ 3 ∷ []) (1 ∷ 2 ∷ 3 ∷ []) ≡ some 2
unfolding index_subslice
index_run = refl

no_index_run : index_subslice ◌==◌ (1 ∷ 2 ∷ []) (2 ∷ 1 ∷ []) ≡ none
unfolding index_subslice
no_index_run = refl

abbrev padded : Text
padded = codes "\n \na\n\nb\n"

trim_run : trim_empty_lines padded ≡ some (codes "a\n\nb")
unfolding trim_empty_lines slice first_index split_lines is_blank last_index join_lines
trim_run = refl

abbrev boxed : Text
boxed = codes "answer\n───────────────\n>\n───────────────"
