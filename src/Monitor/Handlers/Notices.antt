-- ===== src/Monitor/Handlers/Notices.antt =====
-- Whom the watcher notifies, and when a high value alerts (src/monitor/mod.rs).
use mathlib.Core.List.{Memᴰ}
use mathlib.Core.List.Memᴰ
use huntkey.Prelude.{
  ℕ, ◌≡◌, ◌∙◌, ap, true, ◌||◌, Option, some, String, List, [], ◌∷◌, map, ltb, ◌==◌, arith,
  Bool-cases, inl, inr,
}
use huntkey.Prelude.Bytes.{Bytes, bytes_eq_iff}
use huntkey.Prelude.Members.{member}
use huntkey.Monitor.Watcher.{
  SecurityAlert, IdentityWatcher, GuardianNotification, notify_guardians, is_known_guardian,
  members_of,
}
use huntkey.Monitor.Watcher.Registry.{member-members_of}
use huntkey.Monitor.Handlers.{alarming, on_recovery_state_changed, on_high_value_intent}

notice-Mem :
    (a : SecurityAlert) (g : Bytes) (gs : List Bytes)
    → member g gs ≡ true
    → Memᴰ {A = GuardianNotification}
        (record { guardian = g; alert = a })
        (map (λ h. record { guardian = h; alert = a }) gs)
notice-Mem a g [] e = absurd (ground arith)
notice-Mem a g (h ∷ gs) e = elim (Bool-cases (member g gs)) [
  | inl later ↦ Memᴰ.tail (notice-Mem a g gs later)
  | inr absent ↦
      Memᴰ.head (ap (λ x. record { guardian = x; alert = a }) ((bytes_eq_iff g h).0 (ground arith)))
]

alert_inj : (a b : SecurityAlert) → some a ≡ some b → a ≡ b
alert_inj a b e = ground arith

notify_guardians-reaches :
    (w : IdentityWatcher) (i : Bytes) (a : SecurityAlert) (g : Bytes)
    → is_known_guardian w i g ≡ true
    → Memᴰ (record { guardian = g; alert = a }) (notify_guardians w i a).pending_notifications
unfolding notify_guardians is_known_guardian
notify_guardians-reaches w i a g k =
    Memᴰ.append_right w.pending_notifications (
      notice-Mem a g (members_of w.known_guardians i) (member-members_of w.known_guardians i g ∙ k))

module _ (hex : Bytes → String) (w : IdentityWatcher) (identity : Bytes) where
  -- After a recovery event with a warning or critical alert, every guardian known for the identity
  -- has a pending notification with that alert.
  pub on_recovery_state_changed-reaches :
      (new_state : String) (guardian : Option Bytes) (block timestamp : ℕ) (g : Bytes)
      → alarming
          (on_recovery_state_changed hex w identity new_state guardian block timestamp).1.severity
        ≡ true
      → is_known_guardian w identity g ≡ true
      → Memᴰ
          (record {
            guardian = g;
            alert = (on_recovery_state_changed hex w identity new_state guardian block timestamp).1;
          })
          (on_recovery_state_changed hex w identity new_state guardian block
            timestamp).0.pending_notifications
  unfolding on_recovery_state_changed is_known_guardian
  on_recovery_state_changed-reaches new_state guardian block timestamp g loud k =
      rw loud (notify_guardians-reaches _ identity _ g k)

  module _ (key : Bytes) (value : ℕ) (selector : Bytes) (block timestamp : ℕ) where
    abbrev outcome : IdentityWatcher × Option SecurityAlert
    outcome = on_high_value_intent hex w identity key value selector block timestamp

    -- If a value alerts, every guardian known for the identity has a pending notification with the
    -- alert.
    on_high_value_intent-reaches :
        (a : SecurityAlert) (g : Bytes)
        → outcome.1 ≡ some a
        → is_known_guardian w identity g ≡ true
        → Memᴰ (record { guardian = g; alert = a }) outcome.0.pending_notifications
    unfolding on_high_value_intent is_known_guardian
    on_high_value_intent-reaches a g e k =
        elim (Bool-cases
          (w.config.high_value_threshold == 0 || ltb value w.config.high_value_threshold)) [
            | inl low ↦ absurd (ground arith)
            | inr high ↦
                rw high
                  (rw⁻¹ (alert_inj _ a (rw high at e)) (notify_guardians-reaches _ identity _ g k))
          ]
