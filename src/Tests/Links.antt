-- ===== src/Tests/Links.antt =====
-- lib/httpapi/links.go at concrete inputs.
use agentapi_plusplus.Conversation.Messages.{ConversationMessage, agent}
use agentapi_plusplus.Events.Types.{TimelineEventBody}
use agentapi_plusplus.Http.Links.{
  extract_urls, extract_urls_from_screen, from_timeline, from_message, get_links,
}
use agentapi_plusplus.Http.Links.Closed.{LinksAreClosed, get_links_lem}
use agentapi_plusplus.Http.Links.Unique.{firsts, timeline_links, message_links}
use agentapi_plusplus.Prelude.{◌≡◌, refl, List, [], ◌∷◌, ◌++◌, Text, codes, text_eq}

urls_run :
    extract_urls (codes "see https://example.com/a, or (http://b.io/Go_(lang)).")
    ≡ codes "https://example.com/a" ∷ codes "http://b.io/Go_(lang)" ∷ []
unfolding extract_urls
urls_run = refl

-- A parenthesis that the text does not close is closed in the URL.
invented_run : extract_urls (codes "http://b.io/f(x") ≡ codes "http://b.io/f(x)" ∷ []
unfolding extract_urls
invented_run = refl

abbrev wrapped : Text
wrapped =
    codes
      "  see https://example.com/a/long/path/that/goes/on/and/on/and/on/and/on/and/on/and/on\n  more.html."

wrapped_run :
    extract_urls_from_screen wrapped
    ≡ codes
        "https://example.com/a/long/path/that/goes/on/and/on/and/on/and/on/and/on/and/onmore.html"
      ∷ []
unfolding extract_urls_from_screen text_eq
wrapped_run = refl

abbrev read : List TimelineEventBody
read =
    record {
      id = 4;
      kind = codes "message";
      role = codes "assistant";
      time = 1;
      session_id = [];
      content = codes "at http://a.io";
      tool_name = [];
      tool_input = codes "www.b.io";
      tool_use_id = [];
      source_id = [];
    }
    ∷ []

abbrev shown : List ConversationMessage
shown = record { id = 2; message = codes "http://a.io www.c.io"; role = agent; time = 1 } ∷ []

links_run :
    get_links read shown
    ≡ record { url = codes "http://a.io"; source = from_timeline; id = 4 }
      ∷ record { url = codes "www.b.io"; source = from_timeline; id = 4 }
      ∷ record { url = codes "www.c.io"; source = from_message; id = 2 }
      ∷ []
unfolding get_links text_eq
links_run = refl

get_links_lem_example :
    (get_links read shown ≡ firsts (timeline_links read ++ message_links shown))
    × LinksAreClosed (get_links read shown)
get_links_lem_example = get_links_lem read shown
