-- ===== src/Conversation/Status/Buffer.antt =====
-- lib/screentracker/pty_conversation.go: the snapshot buffer of a conversation.
use agentapi_plusplus.Conversation.Status.Stable.{IsValid}
use agentapi_plusplus.Conversation.Messages.{MessagePartText}
use agentapi_plusplus.Conversation.Snapshots.{update_last_agent_message, snapshot}
use agentapi_plusplus.Conversation.Snapshots.Laws.{update-SameBut}
use agentapi_plusplus.Conversation.State.{
  PtyConversationConfig, PtyConversation, ScreenSnapshot, new_pty, fresh_pty, empty_snapshot,
  get_stable_snapshots_threshold,
}
use agentapi_plusplus.Prelude.{
  ℕ, ◌<◌, ◌≡◌, refl, sym, ap, ◌∙◌, subst, List, [], ◌∷◌, ◌++◌, some, arith, >>=-eq-some, take_last,
  Text,
}
use agentapi_plusplus.RingBuffer.Cells.{Holds, new_ring_buffer-Holds}
use agentapi_plusplus.RingBuffer.Refine.{add-Holds}

threshold-positive :
    (cfg : PtyConversationConfig) {t : ℕ} → get_stable_snapshots_threshold cfg ≡ some t → 0 < t
unfolding get_stable_snapshots_threshold
threshold-positive cfg {t} h = ground arith

fresh_pty-IsValid :
    (prompt : List MessagePartText) (now threshold : ℕ)
    → 0 < threshold
    → IsValid (fresh_pty prompt now threshold)
unfolding fresh_pty
fresh_pty-IsValid prompt now threshold h = record {
  snapshots = [];
  held = new_ring_buffer-Holds empty_snapshot threshold h;
  sized = refl;
}

-- A new conversation has a valid buffer.
pub new_pty-IsValid :
    (cfg : PtyConversationConfig) (prompt : List MessagePartText) (now : ℕ) {c : PtyConversation}
    → new_pty cfg prompt now ≡ some c
    → IsValid c
unfolding new_pty
new_pty-IsValid cfg prompt now {c} h =
    let (t, e, made) =
      >>=-eq-some (get_stable_snapshots_threshold cfg) (λ k. some (fresh_pty prompt now k)) h in
    let same : fresh_pty prompt now t ≡ c = cc made in
    subst IsValid same (fresh_pty-IsValid prompt now t (threshold-positive cfg e))

-- A snapshot keeps the buffer valid: it then holds the last screens, with the new one at the end.
pub snapshot-IsValid :
    (cfg : PtyConversationConfig) (c : PtyConversation) (screen : Text) (now : ℕ) (v : IsValid c)
    {c' : PtyConversation}
    → snapshot cfg c screen now ≡ some c'
    → (v' : IsValid c') × (v'.snapshots
        ≡ take_last c.stable_snapshots_threshold
            (v.snapshots ++ record { timestamp = now; screen = screen } ∷ []))
unfolding snapshot
snapshot-IsValid cfg c screen now v {c'} h =
    let taken : ScreenSnapshot = record { timestamp = now; screen = screen } in
    let (b, e, size, held) = add-Holds c.snapshot_buffer v.snapshots taken v.held in
    let updated : update_last_agent_message cfg (record c { snapshot_buffer = b }) screen now
        ≡ some c' =
      rw e at h in
    let same = update-SameBut cfg (record c { snapshot_buffer = b }) screen now updated in
    (
      record {
        snapshots = take_last c.snapshot_buffer.size (v.snapshots ++ taken ∷ []);
        held =
            subst (λ x. Holds x (take_last c.snapshot_buffer.size (v.snapshots ++ taken ∷ [])))
              (sym same.buffer) held;
        sized = ap (λ x. x.size) same.buffer ∙ size ∙ v.sized ∙ sym same.threshold;
      },
      ap (λ n. take_last n (v.snapshots ++ taken ∷ [])) v.sized,
    )
