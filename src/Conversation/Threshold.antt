-- ===== src/Conversation/Threshold.antt =====
-- lib/screentracker/pty_conversation.go: `getStableSnapshotsThreshold`.
use agentapi_plusplus.Conversation.State.{PtyConversationConfig, get_stable_snapshots_threshold}
use agentapi_plusplus.Prelude.{
  ℕ, ◌+◌, ◌-◌, ◌*◌, ◌/◌, ◌%◌, ◌≤◌, ◌<◌, ◌≡◌, refl, inl, inr, false, some, arith, ◌==◌, Bool-cases,
}

-- With an interval of at least a millisecond the threshold is the least number of snapshots, two in a
-- row one interval apart, that span the stability length: it is at least 1, `threshold - 1` intervals
-- are as long as the length, and one interval less is not.
pub get_stable_snapshots_threshold_lem :
    (cfg : PtyConversationConfig)
    → 0 < cfg.snapshot_interval
    → (t : ℕ) × (get_stable_snapshots_threshold cfg ≡ some t)
      × (0 < t)
      × (cfg.screen_stability_length ≤ (t - 1) * cfg.snapshot_interval)
      × ((t - 1) * cfg.snapshot_interval < cfg.screen_stability_length + cfg.snapshot_interval)
unfolding get_stable_snapshots_threshold
get_stable_snapshots_threshold_lem cfg h =
    elim (Bool-cases (cfg.screen_stability_length % cfg.snapshot_interval == 0)) [
      | inl even ↦ (
        q + 1,
        rw (positive, even) refl,
        omega arith,
        rw pred_one (grind arith),
        rw pred_one (grind arith),
      )
      | inr odd ↦ (
        q + 1 + 1,
        rw (positive, odd) refl,
        omega arith,
        rw pred_two (grind arith),
        rw pred_two (grind arith),
      )
    ]
  where
    q : ℕ
    q = cfg.screen_stability_length / cfg.snapshot_interval

    positive : (cfg.snapshot_interval == 0) ≡ false
    positive = ground arith

    pred_one : q + 1 - 1 ≡ q
    pred_one = omega arith

    pred_two : q + 1 + 1 - 1 ≡ q + 1
    pred_two = omega arith
