-- ===== src/Http/Mcp/Updates.antt =====
-- lib/httpapi/mcp.go: what an update leaves, and what is read after it.
use agentapi_plusplus.McpConfig.Claude.{RawMap}
use agentapi_plusplus.McpConfig.Codex.{
  ConfigFile, content, Replaced, read_failed, encode_failed, writes,
}
use agentapi_plusplus.McpConfig.Store.{Store}
use agentapi_plusplus.Http.Mcp.{
  to_config_servers, McpAnswer, not_supported, no_restart, bad_servers, write_error, restart_error,
  updated, apply_restart, finish_update, write_servers, replace_servers, update_mcp,
}
use agentapi_plusplus.Prelude.{
  ◌≡◌, refl, sym, ap, ◌∙◌, inl, inr, Bool, true, false, not, ◌&&◌, List, Option, none, some,
  >>=-eq-some, subst, is_some, Bool-cases, clash, Text,
}

abbrev pub is_refusal : {C : Type 0} → McpAnswer C → Bool
is_refusal not_supported = true
is_refusal no_restart = true
is_refusal bad_servers = true
is_refusal write_error = true
is_refusal _ = false

done_of :
    {C : Type 0} {p q : Text} {b c : Bool}
    → ◌≡◌ {A = McpAnswer C} (updated p b) (updated q c)
    → c ≡ b
done_of h = cc

restart_error-ne-updated :
    {C : Type 0} {p q : Text} {b : Bool} → ◌≡◌ {A = McpAnswer C} (restart_error p) (updated q b) → ⊥
restart_error-ne-updated h = cc

write_error-ne-updated :
    {C : Type 0} {q : Text} {b : Bool} → ◌≡◌ {A = McpAnswer C} write_error (updated q b) → ⊥
write_error-ne-updated h = cc

pub some_injective : {A : Type 0} {a b : A} → some a ≡ some b → a ≡ b
some_injective h = cc

module _ {C S : Type 0} (marshal : C → Option Text) (store : Store) (torn : Option ConfigFile)
    (servers : List (Text × C)) (file : ConfigFile) (agent : S) where
  -- The store wrote a text for the servers.
  abbrev pub IsWritten : Text → Type 0
  IsWritten text =
      (raw : RawMap) × (to_config_servers marshal servers ≡ some raw)
      × (store.replace file raw ≡ some (writes text))

  -- The answer, the agent and the file after an update: a refusal, a failed write, a write without a
  -- restart, or a write with one.
  pub data IsUpdate (asked : Bool) (restart : Option (S → S × Bool))
      : McpAnswer C → S → ConfigFile → Type 0 where
    refused : (a : McpAnswer C) → is_refusal a ≡ true → IsUpdate asked restart a agent file
    torn_write : (f : ConfigFile) → torn ≡ some f → IsUpdate asked restart write_error agent f
    written :
        (text : Text)
        → IsWritten text
        → asked ≡ false
        → IsUpdate asked restart (updated store.path false) agent (content text)
    restarted :
        (text : Text) (r : S → S × Bool) (agent' : S)
        → IsWritten text
        → asked ≡ true
        → restart ≡ some r
        → r agent ≡ (agent', true)
        → IsUpdate asked restart (updated store.path true) agent' (content text)
    not_restarted :
        (text : Text) (r : S → S × Bool) (agent' : S)
        → IsWritten text
        → asked ≡ true
        → restart ≡ some r
        → r agent ≡ (agent', false)
        → IsUpdate asked restart (restart_error store.path) agent' (content text)

  restart_update :
      (text : Text) (r : S → S × Bool)
      → IsWritten text
      → (agent' : S) (ok : Bool) → r agent ≡ (agent', ok)
      → IsUpdate true
          (some r)
          (apply_restart {C = C} store.path (agent', ok)).0
          (apply_restart {C = C} store.path (agent', ok)).1
          (content text)
  restart_update text r w agent' true e = restarted text r agent' w refl refl e
  restart_update text r w agent' false e = not_restarted text r agent' w refl refl e

  finish_update_lem :
      (text : Text)
      → IsWritten text
      → (asked : Bool) (restart : Option (S → S × Bool)) → (asked && not (is_some restart)) ≡ false
      → IsUpdate asked restart
          (finish_update {C = C} store.path asked restart agent).0
          (finish_update {C = C} store.path asked restart agent).1
          (content text)
  finish_update_lem text w false restart h = written text w refl
  finish_update_lem text w true none h = cc
  finish_update_lem text w true (some r) h = restart_update text r w (r agent).0 (r agent).1 refl

  write_servers_lem :
      (raw : RawMap)
      → to_config_servers marshal servers ≡ some raw
      → (asked : Bool) (restart : Option (S → S × Bool)) → (asked && not (is_some restart)) ≡ false
      → (o : Option ConfigFile) → torn ≡ o
      → (replaced : Replaced) → store.replace file raw ≡ some replaced
      → (let r = write_servers {C = C} store asked restart o replaced file agent in
          IsUpdate asked restart r.0 r.1 r.2)
  write_servers_lem raw e asked restart h o t read_failed w = refused write_error refl
  write_servers_lem raw e asked restart h o t encode_failed w = refused write_error refl
  write_servers_lem raw e asked restart h (some f) t (writes text) w = torn_write f t
  write_servers_lem raw e asked restart h none t (writes text) w =
      finish_update_lem text (raw, e, w) asked restart h

  refuse :
      {asked : Bool} {restart : Option (S → S × Bool)} (why : McpAnswer C)
      → is_refusal why ≡ true
      → (a : McpAnswer C) (agent' : S) (file' : ConfigFile)
      → ◌≡◌ {A = Option (McpAnswer C × S × ConfigFile)}
          (some (why, agent, file))
          (some (a, agent', file'))
      → IsUpdate asked restart a agent' file'
  refuse {asked} {restart} why h a agent' file' p =
      subst (λ r. IsUpdate asked restart r.0 r.1 r.2) (some_injective p) (refused why h)

  replace_servers_lem :
      (asked : Bool) (restart : Option (S → S × Bool))
      → (asked && not (is_some restart)) ≡ false
      → (o : Option RawMap) → to_config_servers marshal servers ≡ o
      → (a : McpAnswer C) (agent' : S) (file' : ConfigFile)
      → replace_servers store asked restart torn o file agent ≡ some (a, agent', file')
      → IsUpdate asked restart a agent' file'
  replace_servers_lem asked restart h none e a agent' file' p =
      refuse bad_servers refl a agent' file' p
  replace_servers_lem asked restart h (some raw) e a agent' file' p =
      let (replaced, w, q) =
        >>=-eq-some (store.replace file raw)
          (λ x. some (write_servers store asked restart torn x file agent)) p in
      subst (λ r. IsUpdate asked restart r.0 r.1 r.2) (some_injective q)
        (write_servers_lem raw e asked restart h torn refl replaced w)

  -- An update is one of these: it is refused, with the file and the agent as they were; its write fails; it
  -- writes what the store makes of exactly the given servers, and leaves the agent alone if no restart was
  -- asked for; or it writes that and then restarts the agent once, and says whether that worked.
  pub update_mcp_lem :
      (asked : Bool) (restart : Option (S → S × Bool))
      → (a : McpAnswer C) (agent' : S) (file' : ConfigFile)
      → update_mcp marshal (some store) asked restart torn servers file agent
        ≡ some (a, agent', file')
      → IsUpdate asked restart a agent' file'
  unfolding update_mcp
  update_mcp_lem asked restart a agent' file' p =
      elim (Bool-cases (asked && not (is_some restart))) [
        | inl e ↦ refuse no_restart refl a agent' file' (rw e at p)
        | inr e ↦
            replace_servers_lem asked restart e (to_config_servers marshal servers) refl a agent'
              file' (rw e at p)
      ]

  -- An update that was done wrote the servers.
  pub updated-IsWritten :
      {asked : Bool} {restart : Option (S → S × Bool)} {a : McpAnswer C} {agent' : S}
      {file' : ConfigFile} (path : Text) (done : Bool)
      → IsUpdate asked restart a agent' file'
      → a ≡ updated path done
      → (text : Text) × IsWritten text × (file' ≡ content text) × (done ≡ asked)
  updated-IsWritten path done (refused why h) e = absurd (clash h (ap is_refusal e))
  updated-IsWritten path done (torn_write f t) e = absurd (write_error-ne-updated e)
  updated-IsWritten path done (written text w n) e = (text, w, refl, done_of e ∙ sym n)
  updated-IsWritten path done (restarted text r agent' w y f g) e =
      (text, w, refl, done_of e ∙ sym y)
  updated-IsWritten path done (not_restarted text r agent' w y f g) e =
      absurd (restart_error-ne-updated e)
