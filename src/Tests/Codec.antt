-- ===== src/Tests/Codec.antt =====
-- An encoder and a decoder of the saved state, which show that the hypothesis on the JSON package can
-- hold.
use agentapi_plusplus.Conversation.Messages.{
  ConversationRole, user, agent, unnamed, ConversationMessage,
}
use agentapi_plusplus.Conversation.Persistence.{AgentState}
use agentapi_plusplus.Prelude.{
  ℕ, zero, suc, ◌≡◌, refl, ap, ◌∙◌, Bool, true, false, List, [], ◌∷◌, ◌++◌, Option, none, some,
  ◌==◌, length, Text,
}

unfoldable pub put_text : Text → Text → Text
put_text t rest = length t ∷ (t ++ rest)

-- A number of items, and the rest.
unfoldable pub split_at : ℕ → Text → Text × Text
split_at zero xs = ([], xs)
split_at (suc n) [] = ([], [])
split_at (suc n) (x ∷ xs) = let (front, rest) = split_at n xs in (x ∷ front, rest)

unfoldable pub get_text : Text → Text × Text
unfolding split_at
get_text [] = ([], [])
get_text (n ∷ xs) = split_at n xs

split_at-append : (t rest : Text) → split_at (length t) (t ++ rest) ≡ (t, rest)
unfolding split_at
split_at-append [] rest = refl
split_at-append (c ∷ t) rest = ap (λ p. (c ∷ p.0, p.1)) (split_at-append t rest)

unfoldable pub put_role : ConversationRole → Text → Text
unfolding put_text
put_role user rest = 0 ∷ rest
put_role agent rest = 1 ∷ rest
put_role (unnamed s) rest = 2 ∷ put_text s rest

unfoldable pub get_role : Text → ConversationRole × Text
unfolding get_text
get_role [] = (user, [])
get_role (zero ∷ xs) = (user, xs)
get_role (suc zero ∷ xs) = (agent, xs)
get_role (suc (suc n) ∷ xs) = let (s, rest) = get_text xs in (unnamed s, rest)

get_role-put_role : (r : ConversationRole) (rest : Text) → get_role (put_role r rest) ≡ (r, rest)
unfolding get_role put_role
get_role-put_role user rest = refl
get_role-put_role agent rest = refl
get_role-put_role (unnamed s) rest = ap (λ p. (unnamed p.0, p.1)) (split_at-append s rest)

unfoldable pub put_messages : List ConversationMessage → Text → Text
unfolding put_role
put_messages [] rest = rest
put_messages (m ∷ ms) rest =
    m.id ∷ m.time ∷ put_role m.role (put_text m.message (put_messages ms rest))

unfoldable pub get_message : ℕ → ℕ → ConversationRole × Text → ConversationMessage × Text
unfolding get_text
get_message id time (role, xs) =
    let (message, rest) = get_text xs in
    (record { id = id; message = message; role = role; time = time }, rest)

unfoldable pub get_messages : ℕ → Text → List ConversationMessage
unfolding get_role get_message
get_messages zero xs = []
get_messages (suc n) [] = []
get_messages (suc n) (id ∷ []) = []
get_messages (suc n) (id ∷ time ∷ xs) =
    let (m, rest) = get_message id time (get_role xs) in m ∷ get_messages n rest

get_messages-put_messages :
    (ms : List ConversationMessage) → get_messages (length ms) (put_messages ms []) ≡ ms
unfolding get_messages put_messages put_text get_message
get_messages-put_messages [] = refl
get_messages-put_messages (m ∷ ms) =
    ap (λ p. (get_message m.id m.time p).0 ∷ get_messages (length ms) (get_message m.id m.time p).1)
      (get_role-put_role m.role (put_text m.message (put_messages ms [])))
    ∙ ap (λ p. record m { message = p.0 } ∷ get_messages (length ms) p.1)
        (split_at-append m.message (put_messages ms []))
    ∙ ap (λ rest. m ∷ rest) (get_messages-put_messages ms)

abbrev flag : Bool → ℕ
flag true = 1
flag false = 0

unfoldable pub encode_state : AgentState → Text
unfolding put_messages put_text
encode_state s =
    s.version
    ∷ flag s.initial_prompt_sent
    ∷ length s.messages
    ∷ put_text s.initial_prompt (put_messages s.messages [])

unfoldable pub decode_encoded : Text → Option AgentState
unfolding get_text get_messages
decode_encoded (version ∷ sent ∷ count ∷ xs) =
    let (prompt, rest) = get_text xs in
    some (record {
      version = version;
      messages = get_messages count rest;
      initial_prompt = prompt;
      initial_prompt_sent = sent == 1;
    })
decode_encoded _ = none

flag_test : (b : Bool) → (flag b == 1) ≡ b
flag_test true = refl
flag_test false = refl

pub decode_encoded-encode_state : (s : AgentState) → decode_encoded (encode_state s) ≡ some s
unfolding decode_encoded encode_state
decode_encoded-encode_state s =
    ap
      (λ p. some (record {
        version = s.version;
        messages = get_messages (length s.messages) p.1;
        initial_prompt = p.0;
        initial_prompt_sent = flag s.initial_prompt_sent == 1;
      }))
      (split_at-append s.initial_prompt (put_messages s.messages []))
    ∙ (λ k. some (record {
      version = s.version;
      messages = get_messages-put_messages s.messages k;
      initial_prompt = s.initial_prompt;
      initial_prompt_sent = flag_test s.initial_prompt_sent k;
    }))
