-- ===== src/Tests/Transcripts.antt =====
-- lib/transcript at concrete inputs.
use agentapi_plusplus.Strings.{is_blank}
use agentapi_plusplus.Transcript.Tail.{drain, max_line_size}
use agentapi_plusplus.Strings.{trim_right}
use agentapi_plusplus.Prelude.{text_eq}
use agentapi_plusplus.Events.Types.{TimelineEvent}
use agentapi_plusplus.Prelude.{
  ℕ, suc, ◌≤◌, ◌≡◌, refl, true, false, ◌||◌, List, [], ◌∷◌, Option, none, some, length, take, Text,
  codes,
}
use agentapi_plusplus.Strings.{split_lines}
use agentapi_plusplus.Transcript.Claude.{
  ClaudeEntry, ClaudeContentBlock, ClaudeDecoder, base_event, parse_line,
}
use agentapi_plusplus.Transcript.Claude.Events.{AreFilled, parse_line-AreFilled}
use agentapi_plusplus.Transcript.Codex
use agentapi_plusplus.Transcript.Codex.{CodexLine, CodexPayload, CodexDecoder, no_payload}
use agentapi_plusplus.Transcript.Discover.{Match, newest_match, sanitize_cwd}
use agentapi_plusplus.Transcript.Tail.{new_tailer}
use agentapi_plusplus.Transcript.Tail.Drains.{Poll, reads, refused, answer, poll_all, whole_lines}
use agentapi_plusplus.Transcript.Tail.Lines.{poll_all-whole_lines}
use agentapi_plusplus.Transcript.Watcher.{Parser, Reading, watch}
use agentapi_plusplus.Transcript.Watcher.Session.{session}

-- A line in three pieces, a refused reading, and a reading that stops after one byte.
abbrev polls : List Poll
polls =
    reads (codes "{a") none
    ∷ reads (codes "b}\r\n\n{") none
    ∷ refused
    ∷ reads (codes "c}\n{d") (some 1)
    ∷ reads [] none
    ∷ []

poll_run : (poll_all [] new_tailer polls).2 ≡ codes "{ab}" ∷ codes "{c}" ∷ []
unfolding poll_all drain split_lines max_line_size trim_right
poll_run = refl

poll_all-whole_lines_example :
    let r = poll_all [] new_tailer polls in
    (r.1.offset ≤ length r.0) × (r.2 ≡ whole_lines (split_lines (take r.1.offset r.0)))
poll_all-whole_lines_example = poll_all-whole_lines [] polls

abbrev said : Text → ℕ → TimelineEvent
said content time = record {
  kind = codes "text";
  role = codes "assistant";
  time = time;
  session_id = [];
  content = content;
  tool_name = [];
  tool_input = [];
  tool_use_id = [];
  source_id = [];
}

-- A parser whose clock ticks at every reading, and that gives events without a time.
abbrev ticking : Parser
ticking = record {
  State = ℕ;
  parse_line = λ s line. (s, said line 0 ∷ []);
  now = λ s. (suc s, suc s);
}

abbrev log_path : Text
log_path = codes "/log"

abbrev at_poll : Text → Poll → Option Text → Reading
at_poll content p newest = record { newest = newest; file = λ path. answer content p }

abbrev readings : List Reading
readings =
    at_poll [] (reads (codes "{a") none) none
    ∷ at_poll (codes "{a") (reads (codes "b}\n") none) (some log_path)
    ∷ at_poll (codes "{ab}\n") refused (some [])
    ∷ []

abbrev session_polls : List Poll
session_polls = reads (codes "{a") none ∷ reads (codes "b}\n") none ∷ refused ∷ []

watch_run :
    (watch ticking (session ticking 4 log_path new_tailer 5) readings).1
    ≡ said (codes "{ab}") 5 ∷ []
unfolding watch session split_lines max_line_size trim_right text_eq
watch_run = refl

abbrev entry : ClaudeEntry
entry = record {
  type = codes "assistant";
  uuid = codes "u1";
  timestamp = codes "soon";
  session_id = codes "s1";
  is_sidechain = false;
  is_meta = false;
  message = codes "m";
  content = [];
  subtype = [];
}

abbrev block : Text → ClaudeContentBlock
block type = record {
  type = type;
  thinking = codes " ";
  text = codes "hello";
  id = codes "t1";
  name = codes "Bash";
  input = codes "{}";
  tool_use_id = [];
  content = [];
}

-- A decoder that gives one entry with three blocks for every text.
abbrev decoder : ClaudeDecoder
decoder = record {
  entry = λ line. some entry;
  message = λ raw. some (record { content = raw });
  blocks =
      λ raw. some (block (codes "thinking") ∷ block (codes "text") ∷ block (codes "tool_use") ∷ []);
  string = λ raw. none;
  time = λ ts. none;
}

claude_run : length (parse_line decoder 9 (codes "line")) ≡ 2
unfolding parse_line text_eq is_blank
claude_run = refl

parse_line-AreFilled_example :
    AreFilled (base_event decoder 9 entry) (parse_line decoder 9 (codes "line"))
    × ((false || false) ≡ true → parse_line decoder 9 (codes "line") ≡ [])
parse_line-AreFilled_example = parse_line-AreFilled decoder 9 (codes "line") entry refl

abbrev codex_decoder : CodexDecoder
codex_decoder = record {
  line = λ s. some (record { timestamp = []; type = s; payload = s });
  payload = λ s.
      some
        (record no_payload { type = codes "user_message"; id = codes "c1"; message = codes "hi" });
  blocks = λ s. none;
  valid = λ s. true;
  quote = λ s. none;
  time = λ s. some 3;
}

codex_run : (Codex.parse_line codex_decoder 9 [] (codes "session_meta")).0 ≡ codes "c1"
unfolding Codex.parse_line text_eq
codex_run = refl

abbrev log_file : Text → ℕ → Match
log_file path time = record {
  path = path;
  stat = some (record { is_dir = false; mod_time = time });
}

newest_run :
    newest_match
      (λ path. true)
      3
      (some (log_file (codes "a") 2 ∷ log_file (codes "b") 5 ∷ [])
        ∷ some (log_file (codes "c") 4 ∷ [])
        ∷ [])
    ≡ some (codes "b")
unfolding newest_match
newest_run = refl

sanitize_run : sanitize_cwd (codes "/a/b-C.1") ≡ codes "-a-b-C-1"
unfolding sanitize_cwd
sanitize_run = refl
