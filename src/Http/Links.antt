-- ===== src/Http/Links.antt =====
-- lib/httpapi/links.go: the URLs of the timeline and of the messages. The timeline and the messages are what
-- the emitter and the conversation return.
pub mod Parens
pub mod Unique
pub mod Closed
use agentapi_plusplus.Conversation.Messages.{ConversationMessage}
use agentapi_plusplus.Events.Types.{TimelineEventBody}
use agentapi_plusplus.McpConfig.Patterns.{is_re_space}
use agentapi_plusplus.Prelude.{
  ℕ, zero, suc, ◌-◌, Bool, true, false, not, ◌&&◌, ◌||◌, List, [], ◌∷◌, ◌++◌, ltb, leb, ◌==◌,
  if◌then◌else◌, is_nil, length, take, drop, Text, text_eq, codes, byte_length,
}
use agentapi_plusplus.Strings.{split_lines, has_prefix, has_suffix, trim_left, trim_right}

-- The class of the characters of a URL, in `urlRe` and `urlContinuationRe`.
unfoldable pub is_url_char : ℕ → Bool
unfolding is_re_space
is_url_char c =
    not
      (is_re_space c || c == b'"' || c == 0x27 || c == b'<' || c == b'>' || c == 0x60 || c == 0x5c)
    && ltb c 0x80

-- (?:https?://|www\.), as the length of what it matches at the start of a text.
unfoldable pub scheme_length : Text → ℕ
unfolding has_prefix
scheme_length s =
    if has_prefix s (codes "http://")
    then 7
    else if has_prefix s (codes "https://")
    then 8
    else if has_prefix s (codes "www.")
    then 4
    else 0

-- `urlContinuationRe`
unfoldable pub url_run : Text → Text
unfolding is_url_char
url_run [] = []
url_run (c ∷ s) = if is_url_char c then c ∷ url_run s else []

-- What `urlRe` matches at the start of a text.
unfoldable pub url_at : Text → Text
unfolding scheme_length url_run
url_at s =
    let n = scheme_length s in
    let run = url_run (drop n s) in if n == 0 || is_nil run then [] else take n s ++ run

-- `urlRe.FindAllString(s, -1)`, after as many characters as a match still has.
unfoldable pub find_all_urls : ℕ → Text → List Text
unfolding url_at
find_all_urls n [] = []
find_all_urls (suc n) (c ∷ s) = find_all_urls n s
find_all_urls zero (c ∷ s) =
    let found = url_at (c ∷ s) in
    let rest = find_all_urls (length found - 1) s in if is_nil found then rest else found ∷ rest

-- `trailingPunct`
unfoldable pub is_trailing_punct : ℕ → Bool
is_trailing_punct c =
    c == b'.'
    || c == b','
    || c == b';'
    || c == b':'
    || c == b'!'
    || c == b'?'
    || c == b')'
    || c == b']'
    || c == b'}'
    || c == b'>'
    || c == b'*'

-- `strings.Count`, of one character.
abbrev pub count : ℕ → Text → ℕ
count d [] = 0
count d (c ∷ s) = if c == d then suc (count d s) else count d s

-- The loop of `trimURL`.
unfoldable pub close_parens : ℕ → Text → Text
close_parens zero url = url
close_parens (suc fuel) url =
    if ltb (count b')' url) (count b'(' url) then close_parens fuel (url ++ b')' ∷ []) else url

unfoldable pub trim_url : Text → Text
unfolding close_parens trim_right is_trailing_punct
trim_url url =
    let trimmed = trim_right is_trailing_punct url in close_parens (count b'(' trimmed) trimmed

abbrev keep_url : Text → List Text → List Text
keep_url url urls = if is_nil url then urls else url ∷ urls

abbrev pub trim_urls : List Text → List Text
trim_urls [] = []
trim_urls (m ∷ ms) = keep_url (trim_url m) (trim_urls ms)

unfoldable pub extract_urls : Text → List Text
unfolding find_all_urls trim_url
extract_urls text = trim_urls (find_all_urls 0 text)

abbrev pub wrap_width_threshold : ℕ
wrap_width_threshold = 78

abbrev pub is_padding : ℕ → Bool
is_padding c = c == b' ' || c == b'\t' || c == 0x2502

abbrev pub is_blank_end : ℕ → Bool
is_blank_end c = c == b' '

-- The inner loop of `extractURLsFromScreen`, over the lines after the current one.
unfoldable pub rejoin : Text → Text → Text → List Text → Text
unfolding has_suffix url_run trim_left trim_right
rejoin url segment current [] = url
rejoin url segment current (line ∷ lines) =
    let cont = url_run (trim_left is_padding line) in
    let rest = rejoin (url ++ cont) cont (trim_right is_blank_end line) lines in
    if has_suffix current segment && leb wrap_width_threshold (byte_length current)
    then (if is_nil cont then url else rest)
    else url

abbrev pub line_urls : Text → List Text → List Text → List Text
line_urls line lines [] = []
line_urls line lines (m ∷ ms) =
    keep_url (trim_url (rejoin m m (trim_right is_blank_end line) lines)) (line_urls line lines ms)

abbrev pub screen_urls : List Text → List Text
screen_urls [] = []
screen_urls (line ∷ lines) = line_urls line lines (find_all_urls 0 line) ++ screen_urls lines

unfoldable pub extract_urls_from_screen : Text → List Text
unfolding find_all_urls rejoin trim_url split_lines trim_right
extract_urls_from_screen text = screen_urls (split_lines text)

-- The two sources that a link names.
pub data Source : Type 0 where
  from_timeline from_message : Source

pub record Link : Type 0 where
  pub url : Text
  pub source : Source
  pub id : ℕ

-- The map `seen`, as the list of its keys, and the links.
pub record Found : Type 0 where
  pub seen : List Text
  pub links : List Link

abbrev pub is_seen : Text → List Text → Bool
is_seen url [] = false
is_seen url (u ∷ seen) = text_eq url u || is_seen url seen

abbrev pub add_link : Link → Found → Found
add_link link found =
    if is_seen link.url found.seen
    then found
    else record { seen = link.url ∷ found.seen; links = found.links ++ link ∷ [] }

abbrev pub add_urls : Source → ℕ → List Text → Found → Found
add_urls source id [] found = found
add_urls source id (url ∷ urls) found =
    add_urls source id urls (add_link (record { url = url; source = source; id = id }) found)

-- The loop over the timeline.
unfoldable pub add_timeline : List TimelineEventBody → Found → Found
unfolding extract_urls
add_timeline [] found = found
add_timeline (ev ∷ events) found =
    let content = add_urls from_timeline ev.id (extract_urls ev.content) found in
    add_timeline events (
      if is_nil ev.tool_input
      then content
      else add_urls from_timeline ev.id (extract_urls ev.tool_input) content)

-- The loop over the messages.
unfoldable pub add_messages : List ConversationMessage → Found → Found
unfolding extract_urls_from_screen
add_messages [] found = found
add_messages (msg ∷ messages) found =
    add_messages messages
      (add_urls from_message msg.id (extract_urls_from_screen msg.message) found)

unfoldable pub get_links : List TimelineEventBody → List ConversationMessage → List Link
unfolding add_timeline add_messages
get_links events messages =
    (add_messages messages (add_timeline events (record { seen = []; links = [] }))).links
