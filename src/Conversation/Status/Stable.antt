-- ===== src/Conversation/Status/Stable.antt =====
-- lib/screentracker/pty_conversation.go: the condition of `statusLocked` as a proposition, and the
-- invariant of the snapshot buffer behind its sanity checks.
use mathlib.Core.Logic.{◌↔◌}
use agentapi_plusplus.Conversation.Messages.{changing, stable, initializing, is_user, last_has_role}
use agentapi_plusplus.Conversation.State.{PtyConversation, ScreenSnapshot}
use agentapi_plusplus.Conversation.Status.{
  all_show, are_equal_screens, is_screen_stable, status_of, status, screen_of,
}
use agentapi_plusplus.Prelude.{
  ℕ, zero, suc, ◌≡◌, refl, sym, ap, ◌∙◌, Bool, true, false, not, ◌||◌, List, [], ◌∷◌, some, arith,
  tests, ltb, ltb-false, ◌==◌, ==_iff, if◌then◌else◌, and_true, length, get_elem?, Text, text_eq,
  text_eq_iff,
}
use agentapi_plusplus.RingBuffer.{capacity}
use agentapi_plusplus.RingBuffer.Cells.{Holds}
use agentapi_plusplus.RingBuffer.Refine.{get_all-Holds}

-- The snapshot buffer holds `snapshots`, and has the size that the sanity checks ask for.
pub record IsValid (c : PtyConversation) : Type 0 where
  pub snapshots : List ScreenSnapshot
  pub held : Holds c.snapshot_buffer snapshots
  pub sized : c.snapshot_buffer.size ≡ c.stable_snapshots_threshold

-- Any two snapshots show the same screen.
unfoldable pub AreEqual : List ScreenSnapshot → Type 0
AreEqual snapshots =
    (i j : ℕ) (s t : ScreenSnapshot)
    → get_elem? snapshots i ≡ some s
    → get_elem? snapshots j ≡ some t
    → s.screen ≡ t.screen

-- What a stable status stands for: the last message is not the user's, the buffer is full of one screen, the
-- agent has been ready for the initial prompt, and no message is queued or being sent.
pub record IsAtRest (c : PtyConversation) (snapshots : List ScreenSnapshot) : Type 0 where
  pub answered : last_has_role is_user c.messages ≡ false
  pub full : length snapshots ≡ c.stable_snapshots_threshold
  pub equal : AreEqual snapshots
  pub ready : c.initial_prompt_ready ≡ true
  pub idle : length c.outbound_queue ≡ 0
  pub unsent : c.sending_message ≡ false

all_show-at :
    (screen : Text) (snapshots : List ScreenSnapshot)
    → all_show screen snapshots ≡ true
    → (i : ℕ) (s : ScreenSnapshot) → get_elem? snapshots i ≡ some s
    → screen ≡ s.screen
unfolding all_show
all_show-at screen [] h i s e = cc
all_show-at screen (s ∷ snapshots) h zero t e =
    let same : s ≡ t = cc in
    (text_eq_iff screen s.screen).0 (and_true _ _ h).0 ∙ ap (λ x. x.screen) same
all_show-at screen (s ∷ snapshots) h (suc i) t e =
    all_show-at screen snapshots
      (and_true (text_eq screen s.screen) (all_show screen snapshots) h).1 i t e

all_show-from :
    (screen : Text) (snapshots : List ScreenSnapshot)
    → ((i : ℕ) (s : ScreenSnapshot) → get_elem? snapshots i ≡ some s → screen ≡ s.screen)
    → all_show screen snapshots ≡ true
unfolding all_show
all_show-from screen [] h = refl
all_show-from screen (s ∷ snapshots) h =
    rw ((text_eq_iff screen s.screen).1 (h 0 s refl))
      (all_show-from screen snapshots (λ i t e. h (suc i) t e))

are_equal_screens_iff :
    (snapshots : List ScreenSnapshot) → (are_equal_screens snapshots ≡ true) ↔ AreEqual snapshots
unfolding are_equal_screens AreEqual
are_equal_screens_iff [] = (λ h i j s t e f. cc, λ h. refl)
are_equal_screens_iff (s ∷ snapshots) = (
  λ h i j t u e f. sym (first h i t e) ∙ first h j u f,
  λ h. all_show-from s.screen snapshots (λ i t e. h 0 (suc i) s t refl e),
)
  where
    first :
        all_show s.screen snapshots ≡ true
        → (i : ℕ) (t : ScreenSnapshot) → get_elem? (s ∷ snapshots) i ≡ some t
        → s.screen ≡ t.screen
    first h zero t e = ap (λ o. screen_of o) e
    first h (suc i) t e = all_show-at s.screen snapshots h i t e

-- Whether the buffer is full of one screen.
abbrev pub settled : PtyConversation → List ScreenSnapshot → Bool
settled c snapshots =
    if ltb (length snapshots) c.stable_snapshots_threshold
    then false
    else are_equal_screens snapshots

pub is_screen_stable_total :
    (c : PtyConversation) (v : IsValid c) → is_screen_stable c ≡ some (settled c v.snapshots)
unfolding is_screen_stable
is_screen_stable_total c v = rw (get_all-Holds c.snapshot_buffer v.snapshots v.held) refl

-- With a valid buffer the sanity checks pass and no index is out of range: the status is one of the
-- three.
pub status_total :
    (c : PtyConversation) (v : IsValid c)
    → status c ≡ some (status_of c v.snapshots (settled c v.snapshots))
unfolding status is_screen_stable capacity
status_total c v =
    let sized = (==_iff c.snapshot_buffer.size c.stable_snapshots_threshold).1 v.sized in
    let positive : (c.stable_snapshots_threshold == 0) ≡ false =
      ground (arith, v.held.next_in, v.sized) in
    let read = get_all-Holds c.snapshot_buffer v.snapshots v.held in rw (sized, positive, read) refl

-- The tests of `statusLocked` in its order.
tests_of_stable :
    (u f s r q b : Bool)
    → (if u
        then changing
        else if not f
        then initializing
        else if not s
        then changing
        else if not r
        then changing
        else if q || b
        then changing
        else stable)
      ≡ stable
    → (u ≡ false) × (f ≡ true) × (s ≡ true) × (r ≡ true) × (q ≡ false) × (b ≡ false)
tests_of_stable true f s r q b h = cc
tests_of_stable false false s r q b h = cc
tests_of_stable false true false r q b h = cc
tests_of_stable false true true false q b h = cc
tests_of_stable false true true true true b h = cc
tests_of_stable false true true true false true h = cc
tests_of_stable false true true true false false h = (refl, refl, refl, refl, refl, refl)

status_of-stable :
    (c : PtyConversation) (snapshots : List ScreenSnapshot)
    → status_of c snapshots (settled c snapshots) ≡ stable
    → IsAtRest c snapshots
unfolding status_of
status_of-stable c snapshots h =
    let (u, f, s, r, q, b) =
      tests_of_stable (last_has_role is_user c.messages)
        (length snapshots == c.stable_snapshots_threshold) (settled c snapshots)
        c.initial_prompt_ready (ltb 0 (length c.outbound_queue)) c.sending_message h in
    let full = (==_iff (length snapshots) c.stable_snapshots_threshold).0 f in
    let none_less =
      ltb-false (length snapshots) c.stable_snapshots_threshold (omega (arith, full)) in
    record {
      answered = u;
      full = full;
      equal = (are_equal_screens_iff snapshots).0 (rw none_less at s);
      ready = r;
      idle = grind tests;
      unsent = b;
    }

stable-status_of :
    (c : PtyConversation) (snapshots : List ScreenSnapshot)
    → IsAtRest c snapshots
    → status_of c snapshots (settled c snapshots) ≡ stable
unfolding status_of
stable-status_of c snapshots v =
    let full = (==_iff (length snapshots) c.stable_snapshots_threshold).1 v.full in
    let none_less =
      ltb-false (length snapshots) c.stable_snapshots_threshold (omega (arith, v.full)) in
    let equal = (are_equal_screens_iff snapshots).1 v.equal in
    let idle = ltb-false 0 (length c.outbound_queue) (omega (arith, v.idle)) in
    rw (v.answered, full, none_less, equal, v.ready, idle, v.unsent) refl

-- On a valid buffer the status is "stable" exactly if the last message is not the user's, the buffer is full of
-- snapshots that all show one screen, the agent has been ready for the initial prompt, and no message is
-- queued or being sent.
pub status-stable_iff :
    (c : PtyConversation) (v : IsValid c) → (status c ≡ some stable) ↔ IsAtRest c v.snapshots
status-stable_iff c v = (
  λ h. status_of-stable c v.snapshots (cc (h, status_total c v)),
  λ r. status_total c v ∙ ap (λ x. some x) (stable-status_of c v.snapshots r),
)
