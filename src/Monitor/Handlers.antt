-- ===== src/Monitor/Handlers.antt =====
-- The event handlers of `IdentityWatcher` (src/monitor/mod.rs). A handler returns the watcher
-- and the alert that it raises. `hex` is `hex::encode`.
pub mod Recovery
pub mod Notices
pub mod Trace
use text.Mathlib.Text.{◌==◌ as str_eq}
use huntkey.Prelude.{
  ℕ, Bool, true, false, ◌||◌, Option, none, some, String, ◌<>◌, [], ◌∷◌, ◌++◌, ltb, ◌==◌,
  if◌then◌else◌,
}
use huntkey.Prelude.Bytes.{Bytes}
use huntkey.Prelude.Decimal.{to_decimal}
use huntkey.Monitor.EventLog
use huntkey.Monitor.Watcher.{
  AlertSeverity, info, warning, critical, AlertCategory, recovery_initiated, recovery_cancelled,
  identity_frozen, delegation_issued, unknown_delegation, sessions_invalidated, execution_recorded,
  offline_session_detected, high_value_intent, SecurityAlert, IdentityWatcher, is_known_guardian,
  is_known_delegate, notify_guardians,
}

-- `guardian.map_or(false, |g| self.is_known_guardian(&identity, &g))`
unfoldable pub guardian_known : IdentityWatcher → Bytes → Option Bytes → Bool
guardian_known w identity none = false
guardian_known w identity (some g) = is_known_guardian w identity g

-- `{}` of a `bool`.
abbrev bool_text : Bool → String
bool_text true = "true"
bool_text false = "false"

-- `matches!(severity, Warning | Critical)`
abbrev pub alarming : AlertSeverity → Bool
alarming info = false
alarming _ = true

-- The alert goes to the end of the log.
abbrev pub push_alert : IdentityWatcher → SecurityAlert → IdentityWatcher
push_alert w alert = record w { alerts = w.alerts ++ alert ∷ [] }

module _ (hex : Bytes → String) where
  abbrev pub guardian_text : Option Bytes → String
  guardian_text none = "unknown"
  guardian_text (some g) = hex g

  -- The `match` on the new state.
  unfoldable pub recovery_alert :
      IdentityWatcher → Bytes → String → Option Bytes → AlertSeverity × AlertCategory × String
  recovery_alert w identity new_state guardian =
      if str_eq new_state "RecoveryPending"
      then (if guardian_known w identity guardian
          then (
            warning,
            recovery_initiated,
            "Recovery initiated by known guardian 0x"
                <> (guardian_text guardian <> (" for identity 0x" <> hex identity)),
          )
          else (
            critical,
            recovery_initiated,
            "CRITICAL: Recovery initiated by UNKNOWN guardian 0x"
                <> (guardian_text guardian <> (" for identity 0x" <> hex identity)),
          ))
      else if str_eq new_state "Active"
      then (
        info,
        recovery_cancelled,
        "Recovery cancelled/finalized for identity 0x" <> hex identity,
      )
      else if str_eq new_state "Frozen"
      then (warning, identity_frozen, "Identity 0x" <> (hex identity <> " has been FROZEN"))
      else (
        info,
        recovery_cancelled,
        "Identity state changed to " <> (new_state <> (" for 0x" <> hex identity)),
      )

  unfoldable pub on_recovery_state_changed :
      IdentityWatcher → Bytes → String → Option Bytes → ℕ → ℕ → IdentityWatcher × SecurityAlert
  unfolding recovery_alert guardian_known
  on_recovery_state_changed w identity new_state guardian block_number timestamp =
      let found = recovery_alert w identity new_state guardian in
      let alert : SecurityAlert = record {
        severity = found.0;
        category = found.1;
        message = found.2;
        identity = identity;
        block_number = block_number;
        timestamp = timestamp;
      } in
      let logged = record (push_alert w alert) {
        event_log =
            EventLog.record_recovery_state_changed hex w.event_log identity new_state guardian
              block_number timestamp;
      } in
      (if alarming alert.severity then notify_guardians logged identity alert else logged, alert)

  unfoldable pub on_delegation_endorsed :
      IdentityWatcher → Bytes → Bytes → Bytes → ℕ → ℕ → IdentityWatcher × SecurityAlert
  on_delegation_endorsed w identity delegate scope block_number timestamp =
      let is_known = is_known_delegate w identity delegate in
      let alert : SecurityAlert = record {
        severity = if is_known then info else warning;
        category = if is_known then delegation_issued else unknown_delegation;
        message =
            "Delegation endorsed: delegate=0x"
            <> (hex delegate
                <> (" scope=0x"
                    <> (hex scope
                        <> (" identity=0x"
                            <> (hex identity <> (" known=" <> bool_text is_known))))));
        identity = identity;
        block_number = block_number;
        timestamp = timestamp;
      } in
      (push_alert w alert, alert)

  unfoldable pub on_session_invalidated :
      IdentityWatcher → Bytes → ℕ → ℕ → ℕ → IdentityWatcher × SecurityAlert
  on_session_invalidated w identity new_epoch block_number timestamp =
      let alert : SecurityAlert = record {
        severity = warning;
        category = sessions_invalidated;
        message =
            "All sessions cancelled for identity 0x"
            <> (hex identity <> (". New epoch: " <> to_decimal new_epoch));
        identity = identity;
        block_number = block_number;
        timestamp = timestamp;
      } in
      (
        record (push_alert w alert) {
          event_log =
              EventLog.record_session_invalidated w.event_log identity new_epoch block_number
                timestamp;
        },
        alert,
      )

  unfoldable pub on_intent_executed :
      IdentityWatcher → Bytes → Bytes → Bytes → ℕ → ℕ → IdentityWatcher × SecurityAlert
  on_intent_executed w identity session_key selector block_number timestamp =
      let alert : SecurityAlert = record {
        severity = info;
        category = execution_recorded;
        message =
            "Intent executed: session=0x"
            <> (hex session_key
                <> (" selector=0x" <> (hex selector <> (" identity=0x" <> hex identity))));
        identity = identity;
        block_number = block_number;
        timestamp = timestamp;
      } in
      (
        record (push_alert w alert) {
          event_log =
              EventLog.record_intent_executed hex w.event_log identity session_key selector
                block_number timestamp;
        },
        alert,
      )

  unfoldable pub on_offline_session_detected :
      IdentityWatcher → Bytes → Bytes → ℕ → ℕ → IdentityWatcher × SecurityAlert
  on_offline_session_detected w identity session_key block_number timestamp =
      let alert : SecurityAlert = record {
        severity = critical;
        category = offline_session_detected;
        message =
            "CRITICAL: Offline session key detected: session=0x"
            <> (hex session_key
                <> (" identity=0x"
                    <> (hex identity
                        <> ". Session was used without prior on-chain registration.")));
        identity = identity;
        block_number = block_number;
        timestamp = timestamp;
      } in
      (push_alert w alert, alert)

  unfoldable pub on_high_value_intent :
      IdentityWatcher → Bytes → Bytes → ℕ → Bytes → ℕ → ℕ → IdentityWatcher × Option SecurityAlert
  on_high_value_intent w identity session_key value selector block_number timestamp =
      let alert : SecurityAlert = record {
        severity = warning;
        category = high_value_intent;
        message =
            "High-value intent executed: session=0x"
            <> (hex session_key
                <> (" selector=0x"
                    <> (hex selector
                        <> (" value="
                            <> (to_decimal value <> (" wei identity=0x" <> hex identity))))));
        identity = identity;
        block_number = block_number;
        timestamp = timestamp;
      } in
      let logged = record (push_alert w alert) {
        event_log =
            EventLog.record_high_value_intent hex w.event_log identity session_key value selector
              block_number timestamp;
      } in
      if w.config.high_value_threshold == 0 || ltb value w.config.high_value_threshold
      then (w, none)
      else (notify_guardians logged identity alert, some alert)
