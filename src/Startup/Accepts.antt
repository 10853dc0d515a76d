-- ===== src/Startup/Accepts.antt =====
-- cmd/server/server.go: what holds once the checks of `runServer` have passed.
use agentapi_plusplus.Prelude.{
  ℕ, ◌≤◌, ◌≡◌, ◌≢◌, refl, subst, Bool, true, false, not, ◌&&◌, ◌||◌, [], ◌∷◌, Option, none, some,
  leb, leb→le, is_nil, arith, Text,
}
use agentapi_plusplus.Startup.{
  parse_agent_type, Stdin, Flags, StartError, Result, ok, err, ◌>>=◌, ◌>>◌, guard, checked,
  read_prompt, or_true, or_false, state_options, Options, start_options,
}

-- State is loaded or saved only with a file for it, where the flags do not say otherwise.
pub record ArePersistent (f : Flags) (o : Options) : Type 0 where
  pub with_file :
      f.state_file ≢ [] → (o.load ≡ or_true f.load_state) × (o.save ≡ or_true f.save_state)
  pub no_file :
      f.state_file ≡ []
      → (o.load ≡ false)
        × (o.save ≡ false)
        × (or_false f.load_state ≡ false)
        × (or_false f.save_state ≡ false)

pub record IsAccepted (first_arg : Text) (f : Flags) (stdin : Stdin) (wrote_pid : Bool)
    (o : Options) : Type 0 where
  pub known : parse_agent_type first_arg f.type_flag ≡ some o.agent_type
  pub wide : 10 ≤ f.term_width
  pub tall : 10 ≤ f.term_height
  pub prompt : read_prompt f.initial_prompt stdin ≡ ok o.prompt
  pub states : ArePersistent f o
  pub stateless_acp : f.experimental_acp ≡ true → (o.load ≡ false) × (o.save ≡ false)
  pub pid : f.pid_file ≢ [] → wrote_pid ≡ true
  pub one_mode : f.print_open_api ≡ true → f.experimental_acp ≡ false

>>=-eq-ok :
    {A B : Type 0} (m : Result A) (k : A → Result B) {b : B}
    → (m >>= k) ≡ ok b
    → (a : A) × (m ≡ ok a) × (k a ≡ ok b)
>>=-eq-ok (ok a) k h = (a, refl, h)
>>=-eq-ok (err e) k h = cc

guard-eq-ok :
    {B : Type 0} (b : Bool) (e : StartError) (k : Result B) {r : B}
    → (guard b e >> k) ≡ ok r
    → (b ≡ true) × (k ≡ ok r)
guard-eq-ok true e k h = (refl, h)
guard-eq-ok false e k h = cc

checked-eq-ok :
    {A : Type 0} (o : Option A) (e : StartError) {a : A} → checked o e ≡ ok a → o ≡ some a
checked-eq-ok none e h = cc
checked-eq-ok (some a) e h = cc

ok-pair :
    {A B : Type 0} {a c : A} {b d : B}
    → ◌≡◌ {A = Result (A × B)} (ok (a, b)) (ok (c, d))
    → (c ≡ a) × (d ≡ b)
ok-pair h = (cc, cc)

not-true : {b : Bool} → not b ≡ true → b ≡ false
not-true {b = false} h = refl
not-true {b = true} h = cc

cons-ne : {c : ℕ} {s t : Text} → t ≡ c ∷ s → t ≢ []
cons-ne e n = cc

state_options-persistent :
    (f : Flags) (file : Text) (o : Options)
    → f.state_file ≡ file
    → state_options file f.load_state f.save_state ≡ ok (o.load, o.save)
    → ArePersistent f o
state_options-persistent f [] o e h =
    let (l, k) = guard-eq-ok (not (or_false f.load_state)) _ _ h in
    let (s, r) = guard-eq-ok (not (or_false f.save_state)) _ _ k in
    let (a, b) = ok-pair r in
    record { with_file = λ n. absurd (n e); no_file = λ _. (a, b, not-true l, not-true s) }
state_options-persistent f (c ∷ file) o e h = record {
  with_file = λ _. ok-pair h;
  no_file = λ n. absurd (cons-ne e n);
}

ok_injective : {A : Type 0} {a b : A} → ok a ≡ ok b → a ≡ b
ok_injective h = cc

stateless :
    (acp load save : Bool)
    → not (acp && (save || load)) ≡ true
    → acp ≡ true
    → (load ≡ false) × (save ≡ false)
stateless acp load save h e = ground arith

named : (file : Text) (wrote : Bool) → (is_nil file || wrote) ≡ true → file ≢ [] → wrote ≡ true
named [] wrote h n = absurd (n refl)
named (c ∷ file) wrote h n = h

exclusive_modes : (print acp : Bool) → not (print && acp) ≡ true → print ≡ true → acp ≡ false
exclusive_modes print acp h e = ground arith

-- If the checks pass, then the type of the agent is known, the terminal is ten by ten at least, and the prompt
-- is that of the flag or of the input; without a state file nothing is loaded or saved, and no flag asked
-- for it, and with one, what the flags do not refuse; the ACP mode has no state; a PID file was written
-- if one was named; and the schema is not printed in ACP mode.
pub start_options_lem :
    (first_arg : Text) (f : Flags) (stdin : Stdin) (wrote_pid : Bool) (o : Options)
    → start_options first_arg f stdin wrote_pid ≡ ok o
    → IsAccepted first_arg f stdin wrote_pid o
unfolding start_options
start_options_lem first_arg f stdin wrote_pid o h =
    let (t, known, h₁) = >>=-eq-ok (checked (parse_agent_type first_arg f.type_flag) _) _ h in
    let (wide, h₂) = guard-eq-ok (leb 10 f.term_width) _ _ h₁ in
    let (tall, h₃) = guard-eq-ok (leb 10 f.term_height) _ _ h₂ in
    let (p, prompt, h₄) = >>=-eq-ok (read_prompt f.initial_prompt stdin) _ h₃ in
    let (ls, states, h₅) = >>=-eq-ok (state_options f.state_file f.load_state f.save_state) _ h₄ in
    let (acp, h₆) = guard-eq-ok (not (f.experimental_acp && (ls.1 || ls.0))) _ _ h₅ in
    let (pid, h₇) = guard-eq-ok (is_nil f.pid_file || wrote_pid) _ _ h₆ in
    let (one, h₈) = guard-eq-ok (not (f.print_open_api && f.experimental_acp)) _ _ h₇ in
    subst (IsAccepted first_arg f stdin wrote_pid) (ok_injective h₈) (record {
      known = checked-eq-ok (parse_agent_type first_arg f.type_flag) _ known;
      wide = leb→le 10 f.term_width wide;
      tall = leb→le 10 f.term_height tall;
      prompt = prompt;
      states =
          state_options-persistent f f.state_file
            (record { agent_type = t; prompt = p; load = ls.0; save = ls.1 }) refl states;
      stateless_acp = stateless f.experimental_acp ls.0 ls.1 acp;
      pid = named f.pid_file wrote_pid pid;
      one_mode = exclusive_modes f.print_open_api f.experimental_acp one;
    })
