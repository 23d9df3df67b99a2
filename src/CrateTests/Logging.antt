-- ===== src/CrateTests/Logging.antt =====
-- The tests of src/lib.rs of the event log, the dashboard and the user operation builder, and of
-- the tracking of a recovery. `hex` is `hex::encode`.
use huntkey.Prelude.{ℕ, ◌==◌, Option, some, String, [], ◌∷◌, ◌>>=◌, replicate, length}
use text.Mathlib.Text.{◌==◌ as str_eq}
use huntkey.Prelude.Bytes.{Bytes}
use huntkey.Monitor.Watcher as Watcher
use huntkey.Monitor.Watcher.{with_config, register_guardians}
use huntkey.Monitor.Handlers.{
  on_recovery_state_changed, on_session_invalidated, on_intent_executed, on_high_value_intent,
}
use huntkey.Monitor.EventLog as EventLog
use huntkey.Monitor.EventLog.{
  EventLog, intent_executed, session_invalidated, recovery_state_changed, high_value_intent,
  record_intent_executed, record_session_invalidated, record_high_value_intent,
  record_recovery_state_changed, entries_by_type, entries_for_identity, len,
}
use huntkey.Monitor.Dashboard.{
  snapshot, snapshot_in_range, entries_in_range, export_dashboard_state,
}
use huntkey.CrateTests.{Outcome, assert, selector}
use huntkey.CrateTests.Watching.{contains, at, address}

abbrev pub repeated : ℕ → Bytes
repeated b = replicate 4 b

module _ (hex : Bytes → String) where
  unfoldable pub test_event_log_records_and_queries : Option Outcome
  test_event_log_records_and_queries = do
    let watcher_1 =
        (on_intent_executed hex Watcher.new (address 0xAA) (address 0xBB) selector 100 1000).0
    let watcher_2 = (on_session_invalidated hex watcher_1 (address 0xAA) 1 101 1001).0
    let watcher_3 =
        (on_recovery_state_changed hex watcher_2 (address 0xAA) "RecoveryPending"
          (some (address 0xCC)) 102 1002).0
    let log = watcher_3.event_log
    three ← assert (len log == 3)
    let intent_events = entries_by_type log intent_executed
    one_intent ← assert (length intent_events == 1)
    intent ← at intent_events 0
    at_block ← assert (intent.block_number == 100)
    let session_events = entries_by_type log session_invalidated
    one_session ← assert (length session_events == 1)
    session ← at session_events 0
    (key, val) ← at session.metadata 0
    epoch ← assert (str_eq val "1")
    assert (length (entries_by_type log recovery_state_changed) == 1)

  unfoldable pub test_event_log_export_json : Option Outcome
  test_event_log_export_json = do
    let log =
        record_intent_executed hex EventLog.new (address 0xAA) (address 0xBB) selector 100 1000
    let json = EventLog.export_json hex log
    event_type ← assert (contains json "\"event_type\": \"IntentExecuted\"")
    block_number ← assert (contains json "\"block_number\": 100")
    session_key ← assert (contains json "\"session_key\"")
    assert (contains json "\"selector\"")

  unfoldable pub test_event_log_high_value_recorded : Option Outcome
  test_event_log_high_value_recorded = do
    let watcher =
        register_guardians (with_config (record { high_value_threshold = 1000000 })) (address 0xAA)
          (address 0xDD ∷ [])
    let watcher_1 =
        (on_high_value_intent hex watcher (address 0xAA) (address 0xBB) 500000 selector 100 1000).0
    none_logged ← assert (length (entries_by_type watcher_1.event_log high_value_intent) == 0)
    let watcher_2 =
        (on_high_value_intent hex watcher_1 (address 0xAA) (address 0xBB) 2000000 selector 101
          1001).0
    assert (length (entries_by_type watcher_2.event_log high_value_intent) == 1)

  unfoldable pub test_event_log_identity_filter : Option Outcome
  test_event_log_identity_filter = do
    let log_1 =
        record_intent_executed hex EventLog.new (address 0xAA) (address 0x01) (repeated 0x01) 100
          1000
    let log_2 =
        record_intent_executed hex log_1 (address 0xBB) (address 0x02) (repeated 0x02) 101 1001
    let log_3 = record_session_invalidated log_2 (address 0xAA) 1 102 1002
    of_first ← assert (length (entries_for_identity log_3 (address 0xAA)) == 2)
    assert (length (entries_for_identity log_3 (address 0xBB)) == 1)

  unfoldable pub test_dashboard_snapshot_basic : Option Outcome
  test_dashboard_snapshot_basic = do
    let log_1 =
        record_intent_executed hex EventLog.new (address 0xAA) (address 0x01) (repeated 0x01) 100
          1000
    let log_2 =
        record_intent_executed hex log_1 (address 0xBB) (address 0x02) (repeated 0x02) 101 1001
    let log_3 = record_session_invalidated log_2 (address 0xAA) 1 102 1002
    let log_4 =
        record_high_value_intent hex log_3 (address 0xAA) (address 0x03) 5000000 (repeated 0x01) 103
          1003
    let log_5 =
        record_recovery_state_changed hex log_4 (address 0xBB) "RecoveryPending"
          (some (address 0xCC)) 104 1004
    let snap = snapshot log_5 2000
    identities ← assert (snap.active_identities == 2)
    intents ← assert (snap.executed_intents == 2)
    sessions ← assert (snap.revoked_sessions == 1)
    values ← assert (snap.high_value_intents == 1)
    recoveries ← assert (snap.pending_recoveries == 1)
    assert (snap.snapshot_timestamp == 2000)

  -- The log of the two tests of a time range.
  abbrev pub timed_log : EventLog
  timed_log =
      record_intent_executed hex
        (record_intent_executed hex
          (record_intent_executed hex EventLog.new (address 0xAA) (address 0x01) (repeated 0x01) 100
            1000)
          (address 0xAA) (address 0x02) (repeated 0x02) 101 2000)
        (address 0xAA) (address 0x03) (repeated 0x03) 102 3000

  unfoldable pub test_dashboard_time_range_filter : Option Outcome
  test_dashboard_time_range_filter = do
    let snap = snapshot_in_range timed_log 1500 2500 4000
    one_intent ← assert (snap.executed_intents == 1)
    one_identity ← assert (snap.active_identities == 1)
    assert ((snapshot_in_range timed_log 0 5000 4000).executed_intents == 3)

  unfoldable pub test_dashboard_entries_in_range : Option Outcome
  test_dashboard_entries_in_range = do
    let entries = entries_in_range timed_log 1500 2500
    one_entry ← assert (length entries == 1)
    entry ← at entries 0
    assert (entry.timestamp == 2000)

  unfoldable pub test_dashboard_export_json : Option Outcome
  test_dashboard_export_json = do
    let log =
        record_session_invalidated
          (record_intent_executed hex EventLog.new (address 0xAA) (address 0x01) (repeated 0x01) 100
            1000)
          (address 0xAA) 1 101 1001
    let json = export_dashboard_state log 2000
    identities ← assert (contains json "\"active_identities\": 1")
    intents ← assert (contains json "\"executed_intents\": 1")
    sessions ← assert (contains json "\"revoked_sessions\": 1")
    assert (contains json "\"snapshot_timestamp\": 2000")
