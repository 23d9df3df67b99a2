-- ===== src/Monitor/Interface/Alerts.antt =====
-- The alert that each event of src/monitor/mod.rs raises, told by the calls before it. `hex` is
-- `hex::encode`.
use text.Mathlib.Text.{◌==◌ as str_eq}
use huntkey.Prelude.{
  ℕ, Bool, true, false, ◌||◌, Option, none, some, String, ◌<>◌, ltb, ◌==◌, if◌then◌else◌,
}
use huntkey.Prelude.Bytes.{Bytes}
use huntkey.Prelude.Decimal.{to_decimal}
use huntkey.Monitor.Watcher.{
  AlertSeverity, info, warning, critical, AlertCategory, recovery_initiated, recovery_cancelled,
  identity_frozen, delegation_issued, unknown_delegation, sessions_invalidated, execution_recorded,
  offline_session_detected, high_value_intent, SecurityAlert,
}
use huntkey.Monitor.Handlers.{guardian_text}
use huntkey.Monitor.Handlers.Trace.{
  Event, recovery, delegation, session, intent, offline, high_value,
}
use huntkey.Monitor.Interface.History.{History, has_guardian, has_delegate}

-- What a state text announces.
pub data Change : Type 0 where
  begun ended frozen other : Change

unfoldable pub change_of : String → Change
change_of s =
    if str_eq s "RecoveryPending"
    then begun
    else if str_eq s "Active"
    then ended
    else if str_eq s "Frozen"
    then frozen
    else other

-- The judgement of a change, by whether a guardian is known.
unfoldable pub judge : Bool → Change → AlertSeverity × AlertCategory
judge true begun = (warning, recovery_initiated)
judge false begun = (critical, recovery_initiated)
judge known ended = (info, recovery_cancelled)
judge known frozen = (warning, identity_frozen)
judge known other = (info, recovery_cancelled)

-- A value raises no alert.
abbrev pub below : ℕ → ℕ → Bool
below threshold value = threshold == 0 || ltb value threshold

abbrev pub alert : AlertSeverity × AlertCategory → String → Bytes → ℕ → ℕ → SecurityAlert
alert (severity, category) message identity block_number timestamp = record {
  severity = severity;
  category = category;
  message = message;
  identity = identity;
  block_number = block_number;
  timestamp = timestamp;
}

module _ (hex : Bytes → String) where
  unfoldable pub change_message : Bool → Change → Bytes → String → Option Bytes → String
  change_message true begun i s g =
      "Recovery initiated by known guardian 0x"
      <> (guardian_text hex g <> (" for identity 0x" <> hex i))
  change_message false begun i s g =
      "CRITICAL: Recovery initiated by UNKNOWN guardian 0x"
      <> (guardian_text hex g <> (" for identity 0x" <> hex i))
  change_message known ended i s g = "Recovery cancelled/finalized for identity 0x" <> hex i
  change_message known frozen i s g = "Identity 0x" <> (hex i <> " has been FROZEN")
  change_message known other i s g = "Identity state changed to " <> (s <> (" for 0x" <> hex i))

  unfoldable pub alert_of : ℕ → History → Event → Option SecurityAlert
  alert_of threshold h (recovery i s g b n) =
      let known = has_guardian h i g in
      let change = change_of s in
      some (alert (judge known change) (change_message known change i s g) i b n)
  alert_of threshold h (delegation i d s b n) =
      let known = has_delegate h i d in
      let judgement = if known then (info, delegation_issued) else (warning, unknown_delegation) in
      let message =
        "Delegation endorsed: delegate=0x"
        <> (hex d
            <> (" scope=0x"
                <> (hex s
                    <> (" identity=0x"
                        <> (hex i <> (" known=" <> (if known then "true" else "false"))))))) in
      some (alert judgement message i b n)
  alert_of threshold h (session i e b n) =
      let message =
        "All sessions cancelled for identity 0x" <> (hex i <> (". New epoch: " <> to_decimal e)) in
      some (alert (warning, sessions_invalidated) message i b n)
  alert_of threshold h (intent i k s b n) =
      let message =
        "Intent executed: session=0x"
        <> (hex k <> (" selector=0x" <> (hex s <> (" identity=0x" <> hex i)))) in
      some (alert (info, execution_recorded) message i b n)
  alert_of threshold h (offline i k b n) =
      let message =
        "CRITICAL: Offline session key detected: session=0x"
        <> (hex k
            <> (" identity=0x"
                <> (hex i <> ". Session was used without prior on-chain registration."))) in
      some (alert (critical, offline_session_detected) message i b n)
  alert_of threshold h (high_value i k v s b n) =
      let message =
        "High-value intent executed: session=0x"
        <> (hex k
            <> (" selector=0x"
                <> (hex s <> (" value=" <> (to_decimal v <> (" wei identity=0x" <> hex i)))))) in
      if below threshold v then none else some (alert (warning, high_value_intent) message i b n)
  alert_of threshold h _ = none
