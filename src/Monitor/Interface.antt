-- ===== src/Monitor/Interface.antt =====
-- The public interface of `IdentityWatcher` (src/monitor/mod.rs): every call that a client may
-- make of it, with what the call returns. `hex` is `hex::encode`.
pub mod History
pub mod Alerts
pub mod Promise
pub mod Tracks
pub mod Steps
pub mod Refinement
use huntkey.Prelude.{ℕ, Option, some, String, List, [], ◌∷◌}
use huntkey.Prelude.Bytes.{Bytes}
use huntkey.Monitor.EventLog
use huntkey.Monitor.EventLog.{EventLogEntry}
use huntkey.Monitor.Watcher
use huntkey.Monitor.Watcher.{
  AlertSeverity, SecurityAlert, GuardianNotification, IdentityWatcher, register_guardians,
  register_delegate, drain_notifications, alerts_by_severity, alerts_for_identity, event_log_mut,
}
use huntkey.Monitor.Handlers.{
  on_recovery_state_changed, on_delegation_endorsed, on_session_invalidated, on_intent_executed,
  on_offline_session_detected, on_high_value_intent,
}
use huntkey.Monitor.Handlers.Trace.{
  Event, guardians, delegate, recovery, delegation, session, intent, offline, high_value, drain,
}

-- A call: of a registration, a handler or the drain; of `clear_alerts`; of `record` or `clear` on
-- the log of `event_log_mut`; or a question about the alerts or the log. The log's other `record_`
-- functions are each one `record`.
pub data Request : Type 0 where
  handle : Event → Request
  clear_alerts : Request
  record_entry : EventLogEntry → Request
  clear_log : Request
  alerts : Request
  by_severity : AlertSeverity → Request
  for_identity : Bytes → Request
  event_log : Request

-- What a call returns. A handler that always alerts answers `some`.
pub data Answer : Type 0 where
  done : Answer
  alerted : Option SecurityAlert → Answer
  listed : List SecurityAlert → Answer
  drained : List GuardianNotification → Answer
  logged : List EventLogEntry → Answer

abbrev pub alerted_by : IdentityWatcher × SecurityAlert → IdentityWatcher × Answer
alerted_by (w, alert) = (w, alerted (some alert))

module _ (hex : Bytes → String) where
  unfoldable pub respond : IdentityWatcher → Request → IdentityWatcher × Answer
  respond w (handle (guardians i gs)) = (register_guardians w i gs, done)
  respond w (handle (delegate i d)) = (register_delegate w i d, done)
  respond w (handle (recovery i s g b n)) = alerted_by (on_recovery_state_changed hex w i s g b n)
  respond w (handle (delegation i d s b n)) = alerted_by (on_delegation_endorsed hex w i d s b n)
  respond w (handle (session i e b n)) = alerted_by (on_session_invalidated hex w i e b n)
  respond w (handle (intent i k s b n)) = alerted_by (on_intent_executed hex w i k s b n)
  respond w (handle (offline i k b n)) = alerted_by (on_offline_session_detected hex w i k b n)
  respond w (handle (high_value i k v s b n)) =
      let found = on_high_value_intent hex w i k v s b n in (found.0, alerted found.1)
  respond w (handle drain) = ((drain_notifications w).1, drained (drain_notifications w).0)
  respond w clear_alerts = (Watcher.clear_alerts w, done)
  respond w (record_entry entry) = (event_log_mut (λ log. EventLog.record_entry log entry) w, done)
  respond w clear_log = (event_log_mut EventLog.clear w, done)
  respond w alerts = (w, listed w.alerts)
  respond w (by_severity severity) = (w, listed (alerts_by_severity w severity))
  respond w (for_identity identity) = (w, listed (alerts_for_identity w identity))
  respond w event_log = (w, logged w.event_log.entries)

  -- The answers of a watcher to a sequence of calls.
  unfoldable pub answers : IdentityWatcher → List Request → List Answer
  answers w [] = []
  answers w (r ∷ rs) = (respond w r).1 ∷ answers (respond w r).0 rs
