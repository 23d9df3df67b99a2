-- ===== src/CrateTests/Watched.antt =====
-- The tests of the watcher of src/lib.rs pass, whatever `hex::encode` returns.
use huntkey.Prelude.{
  ℕ, ◌≡◌, ◌∙◌, refl, ap, Bool, true, ◌||◌, some, String, ◌<>◌, List, [], ◌∷◌, ◌++◌, arith,
}
use huntkey.Prelude.Bytes.{Bytes}
use huntkey.Prelude.Decimal.{codes, codes-append, to_decimal}
use huntkey.Monitor.Watcher as Watcher
use huntkey.Monitor.Watcher.{
  with_config, is_known_guardian, is_known_delegate, register_guardians, register_delegate,
  notify_guardians, members_of, drain_notifications, alerts_by_severity, alerts_for_identity,
  clear_alerts,
}
use huntkey.Monitor.Handlers.{
  on_recovery_state_changed, on_delegation_endorsed, on_session_invalidated, on_intent_executed,
  on_offline_session_detected, on_high_value_intent, recovery_alert, guardian_known,
}
use huntkey.CrateTests.{assert, passed}
use huntkey.CrateTests.Watching.{
  starts_with, has_within, contains, address, test_watcher_recovery_known_guardian,
  test_watcher_recovery_unknown_guardian, test_watcher_delegation_known_vs_unknown,
  test_watcher_offline_session_detected, test_watcher_alert_filtering,
  test_watcher_high_value_intent, test_watcher_guardian_notifications,
  test_watcher_recovery_triggers_guardian_notifications, test_watcher_session_invalidated,
  test_watcher_identity_frozen,
}

or-true : (a : Bool) → (a || true) ≡ true
or-true a = ground arith

pub has_within-append :
    (xs ys pattern : List ℕ) → has_within ys pattern ≡ true → has_within (xs ++ ys) pattern ≡ true
has_within-append [] ys pattern h = h
has_within-append (x ∷ xs) ys pattern h =
    ap (λ rest. starts_with (x ∷ (xs ++ ys)) pattern || rest) (has_within-append xs ys pattern h)
    ∙ or-true (starts_with (x ∷ (xs ++ ys)) pattern)

-- A text contains what its end contains.
pub contains-append :
    (s t pattern : String) → contains t pattern ≡ true → contains (s <> t) pattern ≡ true
contains-append s t pattern h =
    ap (λ text. has_within text (codes pattern)) (codes-append s t)
    ∙ has_within-append (codes s) (codes t) (codes pattern) h

starts_with-append :
    (xs ys pattern : List ℕ) → starts_with xs pattern ≡ true → starts_with (xs ++ ys) pattern ≡ true
starts_with-append xs ys [] h = refl
starts_with-append [] ys (c ∷ pattern) h = absurd (ground arith)
starts_with-append (x ∷ xs) ys (c ∷ pattern) h = ground (arith, starts_with-append xs ys pattern)

pub has_within-left :
    (xs ys pattern : List ℕ) → has_within xs pattern ≡ true → has_within (xs ++ ys) pattern ≡ true
has_within-left [] [] pattern h = h
has_within-left [] (y ∷ ys) [] h = refl
has_within-left [] (y ∷ ys) (c ∷ pattern) h = absurd (ground arith)
has_within-left (x ∷ xs) ys pattern h =
    ground (arith, starts_with-append (x ∷ xs) ys pattern, has_within-left xs ys pattern)

-- A text contains what its beginning contains.
pub contains-left :
    (s t pattern : String) → contains s pattern ≡ true → contains (s <> t) pattern ≡ true
contains-left s t pattern h =
    ap (λ text. has_within text (codes pattern)) (codes-append s t)
    ∙ has_within-left (codes s) (codes t) (codes pattern) h

module _ (hex : Bytes → String) where
  test_watcher_recovery_known_guardian_lem : test_watcher_recovery_known_guardian hex ≡ some passed
  unfolding test_watcher_recovery_known_guardian Watcher.new with_config is_known_guardian
      is_known_delegate register_guardians register_delegate notify_guardians members_of
      drain_notifications alerts_by_severity alerts_for_identity clear_alerts
      on_recovery_state_changed recovery_alert guardian_known on_delegation_endorsed
      on_session_invalidated on_intent_executed on_offline_session_detected on_high_value_intent
      to_decimal
  test_watcher_recovery_known_guardian_lem = rw codes-append refl

  test_watcher_recovery_unknown_guardian_lem :
      test_watcher_recovery_unknown_guardian hex ≡ some passed
  unfolding test_watcher_recovery_unknown_guardian Watcher.new with_config is_known_guardian
      is_known_delegate register_guardians register_delegate notify_guardians members_of
      drain_notifications alerts_by_severity alerts_for_identity clear_alerts
      on_recovery_state_changed recovery_alert guardian_known on_delegation_endorsed
      on_session_invalidated on_intent_executed on_offline_session_detected on_high_value_intent
      to_decimal
  test_watcher_recovery_unknown_guardian_lem = rw codes-append refl

  test_watcher_delegation_known_vs_unknown_lem :
      test_watcher_delegation_known_vs_unknown hex ≡ some passed
  unfolding test_watcher_delegation_known_vs_unknown Watcher.new with_config is_known_guardian
      is_known_delegate register_guardians register_delegate notify_guardians members_of
      drain_notifications alerts_by_severity alerts_for_identity clear_alerts
      on_recovery_state_changed recovery_alert guardian_known on_delegation_endorsed
      on_session_invalidated on_intent_executed on_offline_session_detected on_high_value_intent
      to_decimal
  test_watcher_delegation_known_vs_unknown_lem = refl

  test_watcher_offline_session_detected_lem :
      test_watcher_offline_session_detected hex ≡ some passed
  unfolding test_watcher_offline_session_detected Watcher.new with_config is_known_guardian
      is_known_delegate register_guardians register_delegate notify_guardians members_of
      drain_notifications alerts_by_severity alerts_for_identity clear_alerts
      on_recovery_state_changed recovery_alert guardian_known on_delegation_endorsed
      on_session_invalidated on_intent_executed on_offline_session_detected on_high_value_intent
      to_decimal
  test_watcher_offline_session_detected_lem = refl

  test_watcher_alert_filtering_lem : test_watcher_alert_filtering hex ≡ some passed
  unfolding test_watcher_alert_filtering Watcher.new with_config is_known_guardian is_known_delegate
      register_guardians register_delegate notify_guardians members_of drain_notifications
      alerts_by_severity alerts_for_identity clear_alerts on_recovery_state_changed recovery_alert
      guardian_known on_delegation_endorsed on_session_invalidated on_intent_executed
      on_offline_session_detected on_high_value_intent to_decimal
  test_watcher_alert_filtering_lem = refl

  test_watcher_high_value_intent_lem : test_watcher_high_value_intent hex ≡ some passed
  unfolding test_watcher_high_value_intent Watcher.new with_config is_known_guardian
      is_known_delegate register_guardians register_delegate notify_guardians members_of
      drain_notifications alerts_by_severity alerts_for_identity clear_alerts
      on_recovery_state_changed recovery_alert guardian_known on_delegation_endorsed
      on_session_invalidated on_intent_executed on_offline_session_detected on_high_value_intent
      to_decimal
  test_watcher_high_value_intent_lem = rw codes-append refl

  test_watcher_guardian_notifications_lem : test_watcher_guardian_notifications hex ≡ some passed
  unfolding test_watcher_guardian_notifications Watcher.new with_config is_known_guardian
      is_known_delegate register_guardians register_delegate notify_guardians members_of
      drain_notifications alerts_by_severity alerts_for_identity clear_alerts
      on_recovery_state_changed recovery_alert guardian_known on_delegation_endorsed
      on_session_invalidated on_intent_executed on_offline_session_detected on_high_value_intent
      to_decimal
  test_watcher_guardian_notifications_lem = refl

  test_watcher_recovery_triggers_guardian_notifications_lem :
      test_watcher_recovery_triggers_guardian_notifications hex ≡ some passed
  unfolding test_watcher_recovery_triggers_guardian_notifications Watcher.new with_config
      is_known_guardian is_known_delegate register_guardians register_delegate notify_guardians
      members_of drain_notifications alerts_by_severity alerts_for_identity clear_alerts
      on_recovery_state_changed recovery_alert guardian_known on_delegation_endorsed
      on_session_invalidated on_intent_executed on_offline_session_detected on_high_value_intent
      to_decimal
  test_watcher_recovery_triggers_guardian_notifications_lem = refl

  test_watcher_session_invalidated_lem : test_watcher_session_invalidated hex ≡ some passed
  unfolding test_watcher_session_invalidated on_session_invalidated to_decimal
  test_watcher_session_invalidated_lem = ap assert (
      contains-append "All sessions cancelled for identity 0x"
        (hex (address 0xAA) <> ". New epoch: 5") "epoch: 5"
        (contains-append (hex (address 0xAA)) ". New epoch: 5" "epoch: 5" refl))

  test_watcher_identity_frozen_lem : test_watcher_identity_frozen hex ≡ some passed
  unfolding test_watcher_identity_frozen Watcher.new with_config on_recovery_state_changed
      recovery_alert
  test_watcher_identity_frozen_lem = ap assert (
      contains-append "Identity 0x" (hex (address 0xAA) <> " has been FROZEN") "FROZEN"
        (contains-append (hex (address 0xAA)) " has been FROZEN" "FROZEN" refl))
