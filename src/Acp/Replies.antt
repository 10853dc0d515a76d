-- ===== src/Acp/Replies.antt =====
-- x/acpio/acp_conversation.go: the messages while a prompt runs.
use agentapi_plusplus.Acp.{fill_last, drop_last}
use agentapi_plusplus.Acp.Turn.{fill_last-concat}
use agentapi_plusplus.Conversation.Messages.{ConversationMessage, is_agent, last_has_role}
use agentapi_plusplus.Prelude.{
  ℕ, zero, suc, ◌-◌, ◌≤◌, ◌≡◌, refl, ◌⊎◌, inl, inr, true, List, [], ◌∷◌, ◌++◌, Bool-cases, arith,
  length, take, Text,
}

-- The ids grow from one message to the next, and are all below the next id.
abbrev pub AreOrdered : ℕ → List ConversationMessage → ℕ → Type 0
AreOrdered lo [] hi = lo ≤ hi
AreOrdered lo (m ∷ ms) hi = (lo ≤ m.id) × AreOrdered (suc m.id) ms hi

-- There are no messages, or the last is an agent's with this text.
abbrev pub Shows : List ConversationMessage → Text → Type 0
Shows ms response =
    (ms ≡ [])
    ⊎ ((before : List ConversationMessage) × (m : ConversationMessage) × (ms ≡ before ++ m ∷ [])
        × (is_agent m.role ≡ true)
        × (m.message ≡ response))

AreOrdered-le : (lo hi : ℕ) (ms : List ConversationMessage) → AreOrdered lo ms hi → lo ≤ hi
AreOrdered-le lo hi [] h = h
AreOrdered-le lo hi (m ∷ ms) (h, hs) = omega (arith, h, AreOrdered-le (suc m.id) hi ms hs)

pub AreOrdered-append :
    (lo mid hi : ℕ) (a b : List ConversationMessage)
    → AreOrdered lo a mid
    → AreOrdered mid b hi
    → AreOrdered lo (a ++ b) hi
AreOrdered-append lo mid hi [] [] h k = omega (arith, h, k)
AreOrdered-append lo mid hi [] (m ∷ b) h (k, ks) = (omega (arith, h, k), ks)
AreOrdered-append lo mid hi (m ∷ a) b (h, hs) k = (h, AreOrdered-append (suc m.id) mid hi a b hs k)

pub AreOrdered-take :
    (lo hi n : ℕ) (ms : List ConversationMessage)
    → AreOrdered lo ms hi
    → AreOrdered lo (take n ms) hi
AreOrdered-take lo hi zero ms h = AreOrdered-le lo hi ms h
AreOrdered-take lo hi (suc n) [] h = h
AreOrdered-take lo hi (suc n) (m ∷ ms) (h, hs) = (h, AreOrdered-take (suc m.id) hi n ms hs)

pub AreOrdered-fill_last :
    (lo hi : ℕ) (ms : List ConversationMessage) (s : Text)
    → AreOrdered lo ms hi
    → AreOrdered lo (fill_last ms s) hi
unfolding fill_last
AreOrdered-fill_last lo hi [] s h = h
AreOrdered-fill_last lo hi (m ∷ []) s h = elim (Bool-cases (is_agent m.role)) [
  | inl e ↦ rw e h
  | inr e ↦ rw e h
]
AreOrdered-fill_last lo hi (m ∷ n ∷ ms) s (h, hs) =
    (h, AreOrdered-fill_last (suc m.id) hi (n ∷ ms) s hs)

pub AreOrdered-drop_last :
    (lo hi : ℕ) (ms : List ConversationMessage)
    → AreOrdered lo ms hi
    → AreOrdered lo (drop_last ms) hi
unfolding drop_last
AreOrdered-drop_last lo hi ms h = elim (Bool-cases (last_has_role is_agent ms)) [
  | inl e ↦ rw (e, AreOrdered) (AreOrdered-take lo hi (length ms - 1) ms h)
  | inr e ↦ rw (e, AreOrdered) h
]

pub Shows-fill_last :
    (ms : List ConversationMessage) (old new : Text) → Shows ms old → Shows (fill_last ms new) new
unfolding fill_last
Shows-fill_last ms old new (inl e) = inl (rw e refl)
Shows-fill_last ms old new (inr (before, m, e, r, t)) =
    inr (before, record m { message = new }, rw e (fill_last-concat before m new r), r, refl)
