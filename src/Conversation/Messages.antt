-- ===== src/Conversation/Messages.antt =====
-- lib/screentracker/conversation.go: messages and their parts.
pub mod Lists
use agentapi_plusplus.Prelude.{
  ℕ, zero, suc, Bool, true, false, List, [], ◌∷◌, ◌++◌, Option, none, some, if◌then◌else◌, is_nil,
  Text,
}

-- A Go string: `unnamed` is every other string, which only a loaded state can hold.
pub data ConversationRole : Type 0 where
  user agent : ConversationRole
  unnamed : Text → ConversationRole

pub data ConversationStatus : Type 0 where
  changing stable initializing : ConversationStatus

pub data ErrorLevel : Type 0 where
  warning error : ErrorLevel

-- The three errors with which `Send` refuses a message.
pub data ValidationError : Type 0 where
  whitespace empty still_changing : ValidationError

pub record ConversationMessage : Type 0 where
  pub id : ℕ
  pub message : Text
  pub role : ConversationRole
  pub time : ℕ

-- The only implementation of `MessagePart`.
pub record MessagePartText : Type 0 where
  pub content : Text
  pub alias : Text
  pub hidden : Bool

unfoldable pub part_string : MessagePartText → Text
part_string p = if p.hidden then [] else if is_nil p.alias then p.content else p.alias

unfoldable pub build_string_from_message_parts : List MessagePartText → Text
unfolding part_string
build_string_from_message_parts [] = []
build_string_from_message_parts (p ∷ parts) = part_string p ++ build_string_from_message_parts parts

abbrev pub is_user : ConversationRole → Bool
is_user user = true
is_user _ = false

abbrev pub is_agent : ConversationRole → Bool
is_agent agent = true
is_agent _ = false

-- Whether there are messages, and the last has a role that passes the test.
unfoldable pub last_has_role : (ConversationRole → Bool) → List ConversationMessage → Bool
last_has_role test [] = false
last_has_role test (m ∷ []) = test m.role
last_has_role test (m ∷ n ∷ ms) = last_has_role test (n ∷ ms)

-- `lastMessage`: the loop from the end, for the text of the message. The zero message has the empty text.
unfoldable pub last_message :
    (ConversationRole → Bool) → List ConversationMessage → Option ConversationMessage
last_message test [] = none
last_message test (m ∷ ms) = elim (last_message test ms) [
  | none ↦ if test m.role then some m else none
  | some found ↦ some found
]

abbrev pub text_of : Option ConversationMessage → Text
text_of none = []
text_of (some m) = m.message

-- `messages[len(messages)-1]`, of which the code reads the text only where the last is an agent's.
unfoldable pub last_text : List ConversationMessage → Text
last_text [] = []
last_text (m ∷ []) = m.message
last_text (m ∷ n ∷ ms) = last_text (n ∷ ms)

-- `messages[len(messages)-1] = m`.
unfoldable pub replace_last :
    List ConversationMessage → ConversationMessage → List ConversationMessage
replace_last [] m = []
replace_last (x ∷ []) m = m ∷ []
replace_last (x ∷ y ∷ ms) m = x ∷ replace_last (y ∷ ms) m
