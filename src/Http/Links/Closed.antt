-- ===== src/Http/Links/Closed.antt =====
-- lib/httpapi/links.go: what `getLinks` returns.
use agentapi_plusplus.Conversation.Messages.{ConversationMessage}
use agentapi_plusplus.Events.Types.{TimelineEventBody}
use agentapi_plusplus.Http.Links.{
  extract_urls, extract_urls_from_screen, Source, from_timeline, from_message, Link, is_seen,
  get_links,
}
use agentapi_plusplus.Http.Links.Parens.{
  IsClosed, AreClosed, extract_urls-AreClosed, extract_urls_from_screen-AreClosed,
}
use agentapi_plusplus.Http.Links.Unique.{
  unseen, firsts, link_of, timeline_links, message_links, get_links-firsts,
}
use agentapi_plusplus.Prelude.{
  ℕ, ◌≡◌, sym, ap, ◌∙◌, subst, inl, inr, List, [], ◌∷◌, ◌++◌, append_assoc, map, Bool-cases, Text,
}

abbrev pub LinksAreClosed : List Link → Type 0
LinksAreClosed [] = Unit
LinksAreClosed (l ∷ ls) = IsClosed l.url × LinksAreClosed ls

closed-unseen :
    (seen : List Text) (ls : List Link) → LinksAreClosed ls → LinksAreClosed (unseen seen ls)
closed-unseen seen [] h = h
closed-unseen seen (l ∷ ls) h = elim (Bool-cases (is_seen l.url seen)) [
  | inl e ↦ rw e (closed-unseen seen ls h.1)
  | inr e ↦ rw e (h.0, closed-unseen seen ls h.1)
]

closed-firsts : (ls : List Link) → LinksAreClosed ls → LinksAreClosed (firsts ls)
closed-firsts [] h = h
closed-firsts (l ∷ ls) h = (h.0, closed-unseen (l.url ∷ []) (firsts ls) (closed-firsts ls h.1))

-- Links to closed URLs, before others.
closed-urls :
    (source : Source) (id : ℕ) (urls : List Text) (ls : List Link)
    → AreClosed urls
    → LinksAreClosed ls
    → LinksAreClosed (map (link_of source id) urls ++ ls)
closed-urls source id [] ls h k = k
closed-urls source id (url ∷ urls) ls h k = (h.0, closed-urls source id urls ls h.1 k)

closed-messages : (messages : List ConversationMessage) → LinksAreClosed (message_links messages)
closed-messages [] = tt
closed-messages (msg ∷ messages) =
    closed-urls from_message msg.id (extract_urls_from_screen msg.message) (message_links messages)
      (extract_urls_from_screen-AreClosed msg.message) (closed-messages messages)

closed-timeline :
    (events : List TimelineEventBody) (ls : List Link)
    → LinksAreClosed ls
    → LinksAreClosed (timeline_links events ++ ls)
closed-timeline [] ls k = k
closed-timeline (ev ∷ events) ls k =
    subst LinksAreClosed
      (ap (◌++◌ contents) (sym (append_assoc inputs (timeline_links events) ls))
        ∙ sym (append_assoc contents (inputs ++ timeline_links events) ls))
      (closed-urls from_timeline ev.id (extract_urls ev.content)
        (inputs ++ (timeline_links events ++ ls)) (extract_urls-AreClosed ev.content)
        (closed-urls from_timeline ev.id (extract_urls ev.tool_input) (timeline_links events ++ ls)
          (extract_urls-AreClosed ev.tool_input) (closed-timeline events ls k)))
  where
    contents : List Link
    contents = map (link_of from_timeline ev.id) (extract_urls ev.content)

    inputs : List Link
    inputs = map (link_of from_timeline ev.id) (extract_urls ev.tool_input)

-- The links of `getLinks` are, of the URLs of the timeline and then of the messages, each the first time
-- it appears, with what it was found in: so a URL that stands in both is a link to the timeline. No link
-- opens more parentheses than it closes.
pub get_links_lem :
    (events : List TimelineEventBody) (messages : List ConversationMessage)
    → (get_links events messages ≡ firsts (timeline_links events ++ message_links messages))
      × LinksAreClosed (get_links events messages)
get_links_lem events messages =
    let same = get_links-firsts events messages in
    (
      same,
      subst LinksAreClosed (sym same) (
          closed-firsts (timeline_links events ++ message_links messages)
            (closed-timeline events (message_links messages) (closed-messages messages))),
    )
