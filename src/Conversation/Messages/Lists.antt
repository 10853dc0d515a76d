-- ===== src/Conversation/Messages/Lists.antt =====
-- lib/screentracker/conversation.go: lists of messages.
use agentapi_plusplus.Conversation.Messages.{
  ConversationRole, ConversationMessage, is_user, last_has_role, last_message, replace_last,
}
use agentapi_plusplus.Prelude.{
  ℕ, suc, ◌+◌, ◌≡◌, ◌≢◌, refl, Bool, true, false, List, [], ◌∷◌, ◌++◌, some, arith, length,
  if◌then◌else◌,
}

-- The ids count up from `n`: in a conversation from 0, so that each id is the message's index.
abbrev pub AreNumbered : ℕ → List ConversationMessage → Type 0
AreNumbered n [] = Unit {0}
AreNumbered n (m ∷ ms) = (m.id ≡ n) × AreNumbered (suc n) ms

pub AreNumbered-concat :
    (n : ℕ) (ms : List ConversationMessage) (m : ConversationMessage)
    → AreNumbered n ms
    → m.id ≡ n + length ms
    → AreNumbered n (ms ++ m ∷ [])
AreNumbered-concat n [] m a e = (omega arith, tt)
AreNumbered-concat n (x ∷ ms) m a e = (a.0, AreNumbered-concat (suc n) ms m a.1 (omega arith))

pub AreNumbered-front :
    (n : ℕ) (ms : List ConversationMessage) (ns : List ConversationMessage)
    → AreNumbered n (ms ++ ns)
    → AreNumbered n ms
AreNumbered-front n [] ns a = tt
AreNumbered-front n (x ∷ ms) ns a = (a.0, AreNumbered-front (suc n) ms ns a.1)

pub AreNumbered-replace_last :
    (n : ℕ) (ms : List ConversationMessage) (m : ConversationMessage)
    → AreNumbered n ms
    → m.id + 1 ≡ n + length ms
    → AreNumbered n (replace_last ms m)
unfolding replace_last
AreNumbered-replace_last n [] m a e = tt
AreNumbered-replace_last n (x ∷ []) m a e = (omega arith, tt)
AreNumbered-replace_last n (x ∷ y ∷ ms) m a e =
    (a.0, AreNumbered-replace_last (suc n) (y ∷ ms) m a.1 (omega arith))

-- The messages of the user.
abbrev pub user_messages : List ConversationMessage → List ConversationMessage
user_messages [] = []
user_messages (m ∷ ms) = if is_user m.role then m ∷ user_messages ms else user_messages ms

pub user_messages-append :
    (ms : List ConversationMessage) (ns : List ConversationMessage)
    → user_messages (ms ++ ns) ≡ user_messages ms ++ user_messages ns
user_messages-append [] ns = refl
user_messages-append (m ∷ ms) ns = ground (arith, user_messages-append ms ns)

pub user_messages-replace_last :
    (ms : List ConversationMessage) (m : ConversationMessage)
    → is_user m.role ≡ false
    → last_has_role is_user ms ≡ false
    → user_messages (replace_last ms m) ≡ user_messages ms
unfolding replace_last last_has_role
user_messages-replace_last [] m h l = refl
user_messages-replace_last (x ∷ []) m h l = ground arith
user_messages-replace_last (x ∷ y ∷ ms) m h l =
    ground (arith, user_messages-replace_last (y ∷ ms) m h l)

module _ (test : ConversationRole → Bool) where
  pub last_message-concat :
      (ms : List ConversationMessage) (m : ConversationMessage)
      → test m.role ≡ true
      → last_message test (ms ++ m ∷ []) ≡ some m
  unfolding last_message
  last_message-concat [] m h = rw h
  last_message-concat (x ∷ ms) m h = rw (last_message-concat ms m h)

  pub last_message-replace_last :
      (ms : List ConversationMessage) (m : ConversationMessage)
      → ms ≢ []
      → test m.role ≡ true
      → last_message test (replace_last ms m) ≡ some m
  unfolding last_message replace_last
  last_message-replace_last [] m ne h = absurd (ne refl)
  last_message-replace_last (x ∷ []) m ne h = rw h
  last_message-replace_last (x ∷ y ∷ ms) m ne h =
      rw (last_message-replace_last (y ∷ ms) m (λ e. cc) h)

  pub last_has_role-concat :
      (ms : List ConversationMessage) (m : ConversationMessage)
      → last_has_role test (ms ++ m ∷ []) ≡ test m.role
  unfolding last_has_role
  last_has_role-concat [] m = refl
  last_has_role-concat (x ∷ []) m = refl
  last_has_role-concat (x ∷ y ∷ ms) m = last_has_role-concat (y ∷ ms) m
