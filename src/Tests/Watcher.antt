-- ===== src/Tests/Watcher.antt =====
-- The watcher of src/monitor/mod.rs at concrete inputs.
use mathlib.Core.List.{Memᴰ}
use huntkey.Prelude.{ℕ, ◌≡◌, ◌++◌, refl, String, Option, none, some, List, [], ◌∷◌, filter, length}
use huntkey.Prelude.Bytes.{Bytes, zeros}
use huntkey.Prelude.Members.{dedup}
use huntkey.Monitor.EventLog
use huntkey.Monitor.Watcher.{
  IdentityWatcher, SecurityAlert, high_value_intent, warning, GuardianNotification,
  is_known_guardian, is_known_delegate, alerts_for_identity,
}
use huntkey.Monitor.Handlers.{on_recovery_state_changed, on_high_value_intent}
use huntkey.Monitor.Handlers.Notices.{on_recovery_state_changed-reaches}
use huntkey.Monitor.Handlers.Trace.{
  Event, Trace, guardians, recovery, delegation, high_value, drain, run,
}
use huntkey.Monitor.Handlers.Trace.Soundness.{IsSound, run-IsSound}
use huntkey.Monitor.Dashboard.{snapshot}
use huntkey.Monitor.Handlers.Trace.Views.{SameView, concerns}
use huntkey.Monitor.Handlers.Trace.Isolation.{run-SameView}
use huntkey.Monitor.Handlers.Trace.Snapshots.{
  is_intent, is_high, is_session, starts_recovery, subjects, run-snapshot,
}
use huntkey.Monitor.Handlers.Trace.Records.{entries_of, threshold_of, log_of, run-log}

abbrev hex : Bytes → String
hex bytes = "ff"

abbrev address : ℕ → Bytes
address n = n ∷ zeros 19

-- A watcher with a guardian and a delegate of the identity 1, and a threshold.
abbrev watcher : IdentityWatcher
watcher = record {
  known_guardians = (address 1, address 7 ∷ []) ∷ [];
  known_delegates = (address 1, address 8 ∷ []) ∷ [];
  alerts = [];
  pending_notifications = [];
  config = record { high_value_threshold = 100 };
  event_log = EventLog.new;
}

abbrev registrations : List (Bytes × Bytes)
registrations = (address 1, address 3) ∷ (address 2, address 3) ∷ (address 1, address 4) ∷ []

abbrev pending : String
pending = "RecoveryPending"

on_recovery_state_changed-reaches_example :
    Memᴰ {A = GuardianNotification}
      (record {
        guardian = address 7;
        alert = (on_recovery_state_changed hex watcher (address 1) "Frozen" none 5 50).1;
      })
      (on_recovery_state_changed hex watcher (address 1) "Frozen" none 5 50).0.pending_notifications
unfolding on_recovery_state_changed is_known_guardian
on_recovery_state_changed-reaches_example =
    on_recovery_state_changed-reaches hex watcher (address 1) "Frozen" none 5 50 (address 7) refl
      refl

abbrev reached : IdentityWatcher × Option SecurityAlert
reached = on_high_value_intent hex watcher (address 1) (address 6) 100 (1 ∷ 2 ∷ 3 ∷ 4 ∷ []) 5 50

abbrev high_alert : SecurityAlert
high_alert = record {
  severity = warning;
  category = high_value_intent;
  message = "High-value intent executed: session=0xff selector=0xff value=100 wei identity=0xff";
  identity = address 1;
  block_number = 5;
  timestamp = 50;
}

abbrev events : List Event
events =
    guardians (address 1) (address 5 ∷ [])
    ∷ recovery (address 1) "RecoveryPending" (some (address 9)) 5 50
    ∷ delegation (address 1) (address 8) (1 ∷ 2 ∷ 3 ∷ 4 ∷ []) 6 60
    ∷ drain
    ∷ high_value (address 1) (address 6) 100 (1 ∷ 2 ∷ 3 ∷ 4 ∷ []) 7 70
    ∷ []

abbrev start : Trace
start = record { watcher = watcher; raised = []; delivered = [] }

run-IsSound_example : IsSound (run hex start events)
run-IsSound_example = run-IsSound hex start events (tt, tt)

run-log_example :
    entries_of (run hex start events) ≡ entries_of start ++ log_of hex (threshold_of start) events
run-log_example = run-log hex start events

-- It holds the same of the identity 1 as `start`, and an alert and a delegate of the identity 2.
abbrev shared : Trace
shared = record {
  watcher = record watcher {
    known_delegates = (address 2, address 9 ∷ []) ∷ (address 1, address 8 ∷ []) ∷ [];
    alerts = record high_alert { identity = address 2 } ∷ [];
  };
  raised = record high_alert { identity = address 2 } ∷ [];
  delivered = [];
}

run-SameView_example :
    SameView
      (address 1)
      (run hex shared events)
      (run hex start (filter (concerns (address 1)) events))
unfolding alerts_for_identity is_known_delegate
run-SameView_example = run-SameView hex (address 1) shared start events (record {
  alerts = refl;
  raised = refl;
  entries = refl;
  pending = refl;
  delivered = refl;
  guardians = refl;
  delegates = λ d. refl;
  threshold = refl;
})

run-snapshot_example :
    let snap = snapshot (run hex start events).watcher.event_log 90 in
    (snap.executed_intents ≡ length (filter is_intent events))
    × (snap.high_value_intents ≡ length (filter (is_high (threshold_of start)) events))
    × (snap.revoked_sessions ≡ length (filter is_session events))
    × (snap.pending_recoveries ≡ length (filter starts_recovery events))
    × (snap.active_identities ≡ length (dedup (subjects (threshold_of start) events)))
run-snapshot_example = run-snapshot hex start events 90 refl
