-- ===== src/Monitor/Interface/Promise.antt =====
-- What `IdentityWatcher` of src/monitor/mod.rs promises to answer: the answer to a call, told by
-- the calls before it. There is no state but their history.
use huntkey.Prelude.{
  ℕ, Bool, true, false, Option, none, some, String, List, [], ◌∷◌, ◌++◌, filter, if◌then◌else◌,
}
use huntkey.Prelude.Bytes.{Bytes, bytes_eq}
use huntkey.Monitor.EventLog.{EventLogEntry}
use huntkey.Monitor.Watcher.{severity_eq, SecurityAlert, GuardianNotification}
use huntkey.Monitor.Handlers.{alarming}
use huntkey.Monitor.Handlers.Trace.{Event, guardians, delegate, recovery, high_value, drain}
use huntkey.Monitor.Handlers.Trace.Outputs.{to_list, notices}
use huntkey.Monitor.Handlers.Trace.Records.{logs}
use huntkey.Monitor.Interface.{
  Request, handle, clear_alerts, record_entry, clear_log, alerts, by_severity, for_identity,
  event_log, Answer, done, alerted, listed, drained, logged,
}
use huntkey.Monitor.Interface.History.{History, guardians_of}
use huntkey.Monitor.Interface.Alerts.{alert_of}

-- The guardians hear of a recovery event and of a high value.
abbrev pub announced : Event → Bool
announced (recovery i s g b n) = true
announced (high_value i k v s b n) = true
announced _ = false

abbrev pub notices_for :
    Bool → Option SecurityAlert → (Bytes → List Bytes) → List GuardianNotification
notices_for false a known = []
notices_for true none known = []
notices_for true (some a) known = if alarming a.severity then notices a (known a.identity) else []

module _ (hex : Bytes → String) (threshold : ℕ) where
  -- The alerts since the last `clear_alerts`.
  unfoldable pub alerts_since : History → List SecurityAlert
  alerts_since [] = []
  alerts_since (clear_alerts ∷ h) = []
  alerts_since (handle e ∷ h) = alerts_since h ++ to_list (alert_of hex threshold h e)
  alerts_since (_ ∷ h) = alerts_since h

  -- The entries since the last `clear` of the log.
  unfoldable pub entries_since : History → List EventLogEntry
  entries_since [] = []
  entries_since (clear_log ∷ h) = []
  entries_since (record_entry entry ∷ h) = entries_since h ++ entry ∷ []
  entries_since (handle e ∷ h) = entries_since h ++ logs hex threshold e
  entries_since (_ ∷ h) = entries_since h

  -- The notifications since the last drain.
  unfoldable pub notices_since : History → List GuardianNotification
  notices_since [] = []
  notices_since (handle drain ∷ h) = []
  notices_since (handle e ∷ h) =
      notices_since h ++ notices_for (announced e) (alert_of hex threshold h e) (guardians_of h)
  notices_since (_ ∷ h) = notices_since h

  unfoldable pub reply : History → Request → Answer
  reply h (handle (guardians i gs)) = done
  reply h (handle (delegate i d)) = done
  reply h (handle drain) = drained (notices_since h)
  reply h (handle e) = alerted (alert_of hex threshold h e)
  reply h alerts = listed (alerts_since h)
  reply h (by_severity s) = listed (filter (λ a. severity_eq a.severity s) (alerts_since h))
  reply h (for_identity i) = listed (filter (λ a. bytes_eq a.identity i) (alerts_since h))
  reply h event_log = logged (entries_since h)
  reply h _ = done

  -- The answers to a sequence of calls.
  unfoldable pub promised : History → List Request → List Answer
  promised h [] = []
  promised h (r ∷ rs) = reply h r ∷ promised (r ∷ h) rs
