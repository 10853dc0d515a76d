-- ===== src/Http/Links/Unique.antt =====
-- lib/httpapi/links.go: the links of `getLinks` are the first of their URLs.
use agentapi_plusplus.Conversation.Messages.{ConversationMessage}
use agentapi_plusplus.Events.Types.{TimelineEventBody}
use agentapi_plusplus.Http.Links.{
  extract_urls, extract_urls_from_screen, Source, from_timeline, from_message, Link, Found, is_seen,
  add_link, add_urls, add_timeline, add_messages, get_links, find_all_urls,
}
use agentapi_plusplus.Prelude.{
  ℕ, ◌≡◌, refl, sym, ap, ◌∙◌, inl, inr, true, false, List, [], ◌∷◌, ◌++◌, append-nil, append_assoc,
  map, Bool-cases, if◌then◌else◌, Text, text_eq, text_eq_iff, is_nil,
}

-- The links without those of some URLs.
abbrev pub unseen : List Text → List Link → List Link
unseen seen [] = []
unseen seen (l ∷ ls) = if is_seen l.url seen then unseen seen ls else l ∷ unseen seen ls

-- Of the links of each URL, the first.
abbrev pub firsts : List Link → List Link
firsts [] = []
firsts (l ∷ ls) = l ∷ unseen (l.url ∷ []) (firsts ls)

abbrev pub link_of : Source → ℕ → Text → Link
link_of source id url = record { url = url; source = source; id = id }

-- A link for every URL of the timeline, and of the messages, in order.
abbrev pub timeline_links : List TimelineEventBody → List Link
timeline_links [] = []
timeline_links (ev ∷ events) =
    map (link_of from_timeline ev.id) (extract_urls ev.content)
    ++ (map (link_of from_timeline ev.id) (extract_urls ev.tool_input) ++ timeline_links events)

abbrev pub message_links : List ConversationMessage → List Link
message_links [] = []
message_links (msg ∷ messages) =
    map (link_of from_message msg.id) (extract_urls_from_screen msg.message)
    ++ message_links messages

abbrev adds : List Link → Found → Found
adds [] found = found
adds (l ∷ ls) found = adds ls (add_link l found)

adds-append : (a b : List Link) (found : Found) → adds (a ++ b) found ≡ adds b (adds a found)
adds-append [] b found = refl
adds-append (l ∷ a) b found = adds-append a b (add_link l found)

add_urls-adds :
    (source : Source) (id : ℕ) (urls : List Text) (found : Found)
    → add_urls source id urls found ≡ adds (map (link_of source id) urls) found
add_urls-adds source id [] found = refl
add_urls-adds source id (url ∷ urls) found =
    add_urls-adds source id urls (add_link (link_of source id url) found)

-- Seeing one more URL drops its links too.
unseen-cons :
    (url : Text) (seen : List Text) (ls : List Link)
    → unseen (url ∷ seen) ls ≡ unseen seen (unseen (url ∷ []) ls)
unseen-cons url seen [] = refl
unseen-cons url seen (l ∷ ls) = elim (Bool-cases (text_eq l.url url)) [
  | inl e ↦ rw e (unseen-cons url seen ls)
  | inr e ↦ elim (Bool-cases (is_seen l.url seen)) [
    | inl s ↦ rw (e, s) (unseen-cons url seen ls)
    | inr s ↦ rw (e, s) (ap (◌∷◌ l) (unseen-cons url seen ls))
  ]
]

unseen-again :
    (url : Text) (seen : List Text) (ls : List Link)
    → is_seen url seen ≡ true
    → unseen seen (unseen (url ∷ []) ls) ≡ unseen seen ls
unseen-again url seen [] h = refl
unseen-again url seen (l ∷ ls) h = elim (Bool-cases (text_eq l.url url)) [
  | inl e ↦
      rw (e, ap (λ u. is_seen u seen) ((text_eq_iff l.url url).0 e) ∙ h)
        (unseen-again url seen ls h)
  | inr e ↦ elim (Bool-cases (is_seen l.url seen)) [
    | inl s ↦ rw (e, s) (unseen-again url seen ls h)
    | inr s ↦ rw (e, s) (ap (◌∷◌ l) (unseen-again url seen ls h))
  ]
]

unseen-nil : (ls : List Link) → unseen [] ls ≡ ls
unseen-nil [] = refl
unseen-nil (l ∷ ls) = ap (◌∷◌ l) (unseen-nil ls)

add_link_seen :
    (l : Link) (found : Found) → is_seen l.url found.seen ≡ true → add_link l found ≡ found
add_link_seen l found e = rw e refl

add_link_new :
    (l : Link) (found : Found)
    → is_seen l.url found.seen ≡ false
    → add_link l found ≡ record { seen = l.url ∷ found.seen; links = found.links ++ l ∷ [] }
add_link_new l found e = rw e refl

adds_lem :
    (ls : List Link) (found : Found)
    → (adds ls found).links ≡ found.links ++ unseen found.seen (firsts ls)
adds_lem [] found = sym (append-nil found.links)
adds_lem (l ∷ ls) found = elim (Bool-cases (is_seen l.url found.seen)) [
  | inl e ↦ rw e (
      ap (λ f. (adds ls f).links) (add_link_seen l found e)
      ∙ adds_lem ls found
      ∙ ap (◌++◌ found.links) (sym (unseen-again l.url found.seen (firsts ls) e)))
  | inr e ↦ rw e (
      ap (λ f. (adds ls f).links) (add_link_new l found e)
      ∙ adds_lem ls (record { seen = l.url ∷ found.seen; links = found.links ++ l ∷ [] })
      ∙ append_assoc found.links (l ∷ []) (unseen (l.url ∷ found.seen) (firsts ls))
      ∙ ap (λ t. found.links ++ l ∷ t) (unseen-cons l.url found.seen (firsts ls)))
]

-- Without a tool's input there are no URLs in it.
add_input :
    (id : ℕ) (input : Text) (f : Found)
    → (if is_nil input then f else add_urls from_timeline id (extract_urls input) f)
      ≡ add_urls from_timeline id (extract_urls input) f
unfolding extract_urls find_all_urls
add_input id [] f = refl
add_input id (c ∷ s) f = refl

add_timeline-adds :
    (events : List TimelineEventBody) (found : Found)
    → add_timeline events found ≡ adds (timeline_links events) found
unfolding add_timeline
add_timeline-adds [] found = refl
add_timeline-adds (ev ∷ events) found =
    ap (add_timeline events)
      (add_input ev.id ev.tool_input (add_urls from_timeline ev.id (extract_urls ev.content) found))
    ∙ add_timeline-adds events (
        add_urls from_timeline ev.id (extract_urls ev.tool_input)
          (add_urls from_timeline ev.id (extract_urls ev.content) found))
    ∙ ap (adds (timeline_links events)) (
        add_urls-adds from_timeline ev.id (extract_urls ev.tool_input)
          (add_urls from_timeline ev.id (extract_urls ev.content) found)
        ∙ ap (adds inputs) (add_urls-adds from_timeline ev.id (extract_urls ev.content) found))
    ∙ sym (adds-append inputs (timeline_links events) (adds contents found))
    ∙ sym (adds-append contents (inputs ++ timeline_links events) found)
  where
    contents : List Link
    contents = map (link_of from_timeline ev.id) (extract_urls ev.content)

    inputs : List Link
    inputs = map (link_of from_timeline ev.id) (extract_urls ev.tool_input)

add_messages-adds :
    (messages : List ConversationMessage) (found : Found)
    → add_messages messages found ≡ adds (message_links messages) found
unfolding add_messages
add_messages-adds [] found = refl
add_messages-adds (msg ∷ messages) found =
    ap (add_messages messages)
      (add_urls-adds from_message msg.id (extract_urls_from_screen msg.message) found)
    ∙ add_messages-adds messages
        (adds (map (link_of from_message msg.id) (extract_urls_from_screen msg.message)) found)
    ∙ sym (
        adds-append (map (link_of from_message msg.id) (extract_urls_from_screen msg.message))
          (message_links messages) found)

pub get_links-firsts :
    (events : List TimelineEventBody) (messages : List ConversationMessage)
    → get_links events messages ≡ firsts (timeline_links events ++ message_links messages)
unfolding get_links
get_links-firsts events messages =
    ap (λ f. f.links)
      (ap (add_messages messages) (add_timeline-adds events none_found)
        ∙ add_messages-adds messages (adds (timeline_links events) none_found)
        ∙ sym (adds-append (timeline_links events) (message_links messages) none_found))
    ∙ adds_lem (timeline_links events ++ message_links messages) none_found
    ∙ unseen-nil (firsts (timeline_links events ++ message_links messages))
  where
    none_found : Found
    none_found = record { seen = []; links = [] }
