-- ===== src/CrateTests/Watching.antt =====
-- The tests of src/lib.rs of the identity watcher. `hex` is `hex::encode`.
use huntkey.Prelude.{
  ℕ, zero, suc, Bool, true, false, ◌&&◌, ◌||◌, not, ◌==◌, Option, none, some, String, List, [], ◌∷◌,
  ◌>>=◌, replicate, length,
}
use huntkey.Prelude.Bytes.{Bytes, bytes_eq}
use huntkey.Prelude.Decimal.{codes}
use huntkey.Monitor.Watcher as Watcher
use huntkey.Monitor.Watcher.{
  AlertSeverity, info, warning, critical, severity_eq, AlertCategory, recovery_initiated,
  identity_frozen, delegation_issued, unknown_delegation, sessions_invalidated,
  offline_session_detected, high_value_intent, SecurityAlert, GuardianNotification, WatcherConfig,
  IdentityWatcher, with_config, register_guardians, register_delegate, drain_notifications,
  alerts_by_severity, alerts_for_identity, clear_alerts,
}
use huntkey.Monitor.Handlers.{
  on_recovery_state_changed, on_delegation_endorsed, on_session_invalidated, on_intent_executed,
  on_offline_session_detected, on_high_value_intent,
}
use huntkey.CrateTests.{Outcome, assert, selector}

-- `str::contains`, on the codes of the characters.
abbrev pub starts_with : List ℕ → List ℕ → Bool
starts_with text [] = true
starts_with [] (c ∷ pattern) = false
starts_with (b ∷ text) (c ∷ pattern) = b == c && starts_with text pattern

abbrev pub has_within : List ℕ → List ℕ → Bool
has_within [] pattern = starts_with [] pattern
has_within (b ∷ text) pattern =
    let rest = has_within text pattern in starts_with (b ∷ text) pattern || rest

abbrev pub contains : String → String → Bool
contains text pattern = has_within (codes text) (codes pattern)

-- `==` of two categories that the tests compare.
abbrev pub category_eq : AlertCategory → AlertCategory → Bool
category_eq recovery_initiated recovery_initiated = true
category_eq identity_frozen identity_frozen = true
category_eq delegation_issued delegation_issued = true
category_eq unknown_delegation unknown_delegation = true
category_eq sessions_invalidated sessions_invalidated = true
category_eq offline_session_detected offline_session_detected = true
category_eq high_value_intent high_value_intent = true
category_eq _ _ = false

abbrev pub is_some {ℓ} : {A : Type ℓ} → Option A → Bool
is_some none = false
is_some (some a) = true

-- An index into a list, which panics out of range.
abbrev pub at {ℓ} : {A : Type ℓ} → List A → ℕ → Option A
at [] n = none
at (x ∷ xs) zero = some x
at (x ∷ xs) (suc n) = at xs n

abbrev pub address : ℕ → Bytes
address b = replicate 20 b

abbrev pub guardians : List Bytes
guardians = address 0xBB ∷ address 0xCC ∷ address 0xDD ∷ []

-- The alert has this severity and this category.
abbrev pub assert_alert : SecurityAlert → AlertSeverity → AlertCategory → Option Outcome
assert_alert alert severity category = do
  right_severity ← assert (severity_eq alert.severity severity)
  assert (category_eq alert.category category)

module _ (hex : Bytes → String) where
  unfoldable pub test_watcher_recovery_known_guardian : Option Outcome
  test_watcher_recovery_known_guardian = do
    let watcher = register_guardians Watcher.new (address 0xAA) guardians
    let alert =
        (on_recovery_state_changed hex watcher (address 0xAA) "RecoveryPending"
          (some (address 0xBB)) 100 1000).1
    judged ← assert_alert alert warning recovery_initiated
    assert (contains alert.message "known guardian")

  unfoldable pub test_watcher_recovery_unknown_guardian : Option Outcome
  test_watcher_recovery_unknown_guardian = do
    let watcher = register_guardians Watcher.new (address 0xAA) guardians
    let alert =
        (on_recovery_state_changed hex watcher (address 0xAA) "RecoveryPending"
          (some (address 0xFF)) 100 1000).1
    judged ← assert (severity_eq alert.severity critical)
    assert (contains alert.message "UNKNOWN guardian")

  unfoldable pub test_watcher_delegation_known_vs_unknown : Option Outcome
  test_watcher_delegation_known_vs_unknown = do
    let watcher = register_delegate Watcher.new (address 0xAA) (address 0xBB)
    let (watcher_1, alert_known) =
        on_delegation_endorsed hex watcher (address 0xAA) (address 0xBB) selector 100 1000
    known ← assert_alert alert_known info delegation_issued
    let (watcher_2, alert_unknown) =
        on_delegation_endorsed hex watcher_1 (address 0xAA) (address 0xFF) selector 101 1001
    assert_alert alert_unknown warning unknown_delegation

  unfoldable pub test_watcher_session_invalidated : Option Outcome
  test_watcher_session_invalidated = do
    let alert = (on_session_invalidated hex Watcher.new (address 0xAA) 5 200 2000).1
    judged ← assert_alert alert warning sessions_invalidated
    assert (contains alert.message "epoch: 5")

  unfoldable pub test_watcher_offline_session_detected : Option Outcome
  test_watcher_offline_session_detected =
      assert_alert
        (on_offline_session_detected hex Watcher.new (address 0xAA) (address 0xEE) 300 3000).1
        critical offline_session_detected

  unfoldable pub test_watcher_alert_filtering : Option Outcome
  test_watcher_alert_filtering = do
    let watcher_1 =
        (on_intent_executed hex Watcher.new (address 0xAA) (address 0x11) selector 100 1000).0
    let watcher_2 = (on_session_invalidated hex watcher_1 (address 0xBB) 1 101 1001).0
    let watcher_3 =
        (on_offline_session_detected hex watcher_2 (address 0xAA) (address 0x22) 102 1002).0
    stored ← assert (length watcher_3.alerts == 3)
    one_critical ← assert (length (alerts_by_severity watcher_3 critical) == 1)
    one_info ← assert (length (alerts_by_severity watcher_3 info) == 1)
    of_first ← assert (length (alerts_for_identity watcher_3 (address 0xAA)) == 2)
    of_second ← assert (length (alerts_for_identity watcher_3 (address 0xBB)) == 1)
    assert (length (clear_alerts watcher_3).alerts == 0)

  unfoldable pub test_watcher_identity_frozen : Option Outcome
  test_watcher_identity_frozen = do
    let alert = (on_recovery_state_changed hex Watcher.new (address 0xAA) "Frozen" none 100 1000).1
    judged ← assert_alert alert warning identity_frozen
    assert (contains alert.message "FROZEN")

  unfoldable pub test_watcher_high_value_intent : Option Outcome
  test_watcher_high_value_intent = do
    let watcher = with_config (record { high_value_threshold = 1000000000000000000 })
    let (watcher_1, result_1) =
        on_high_value_intent hex watcher (address 0xAA) (address 0xBB) 500000000000000000 selector
          100 1000
    below ← assert (not (is_some result_1))
    let (watcher_2, result_2) =
        on_high_value_intent hex watcher_1 (address 0xAA) (address 0xBB) 2000000000000000000
          selector 101 1001
    above ← assert (is_some result_2)
    alert ← result_2
    judged ← assert_alert alert warning high_value_intent
    assert (contains alert.message "High-value")

  unfoldable pub test_watcher_guardian_notifications : Option Outcome
  test_watcher_guardian_notifications = do
    let watcher =
        register_guardians (with_config (record { high_value_threshold = 1000000000000000000 }))
          (address 0xAA) (address 0x11 ∷ address 0x22 ∷ address 0x33 ∷ [])
    let watcher_1 =
        (on_high_value_intent hex watcher (address 0xAA) (address 0xBB) 5000000000000000000 selector
          100 1000).0
    let (notifications, watcher_2) = drain_notifications watcher_1
    all_notified ← assert (length notifications == 3)
    first ← at notifications 0
    to_first ← assert (bytes_eq first.guardian (address 0x11))
    second ← at notifications 1
    to_second ← assert (bytes_eq second.guardian (address 0x22))
    of_value ← assert (category_eq first.alert.category high_value_intent)
    assert (length (drain_notifications watcher_2).0 == 0)

  unfoldable pub test_watcher_recovery_triggers_guardian_notifications : Option Outcome
  test_watcher_recovery_triggers_guardian_notifications = do
    let watcher = register_guardians Watcher.new (address 0xAA) guardians
    let watcher_1 =
        (on_recovery_state_changed hex watcher (address 0xAA) "RecoveryPending"
          (some (address 0xFF)) 100 1000).0
    let (notifications, watcher_2) = drain_notifications watcher_1
    all_notified ← assert (length notifications == 3)
    first ← at notifications 0
    assert (severity_eq first.alert.severity critical)
