-- ===== src/CrateTests/Logged.antt =====
-- The tests of the event log and of the dashboard of src/lib.rs pass, whatever `hex::encode`
-- returns.
use huntkey.Prelude.{◌≡◌, refl, true, some, ◌<>◌, [], ◌∷◌, String}
use huntkey.Prelude.Bytes.{Bytes}
use huntkey.Prelude.Decimal.{codes, codes-append, to_decimal}
use huntkey.Monitor.Watcher as Watcher
use huntkey.Monitor.Watcher.{
  with_config, register_guardians, is_known_guardian, notify_guardians, members_of,
}
use huntkey.Monitor.Handlers.{
  on_recovery_state_changed, on_session_invalidated, on_intent_executed, on_high_value_intent,
  recovery_alert, guardian_known,
}
use huntkey.Monitor.EventLog as EventLog
use huntkey.Monitor.EventLog.{
  debug_name, json_entry, json_metadata, intent_executed, EventLogEntry, EventLog, record_entry,
  record_intent_executed, record_session_invalidated, record_high_value_intent,
  record_recovery_state_changed, guardian_metadata, entries_by_type, entries_for_identity, len,
}
use huntkey.Monitor.Dashboard.{
  snapshot, snapshot_in_range, entries_in_range, export_dashboard_state,
}
use huntkey.CrateTests.{passed, selector}
use huntkey.CrateTests.Watching.{contains, address}
use huntkey.CrateTests.Watched.{has_within-append, has_within-left, contains-append, contains-left}
use huntkey.CrateTests.Logging.{
  test_event_log_records_and_queries, test_event_log_export_json,
  test_event_log_high_value_recorded, test_event_log_identity_filter, test_dashboard_snapshot_basic,
  test_dashboard_time_range_filter, test_dashboard_entries_in_range, test_dashboard_export_json,
}

module _ (hex : Bytes → String) where
  test_event_log_records_and_queries_lem : test_event_log_records_and_queries hex ≡ some passed
  unfolding test_event_log_records_and_queries Watcher.new with_config on_intent_executed
      on_session_invalidated on_recovery_state_changed recovery_alert guardian_known
      is_known_guardian notify_guardians members_of record_entry record_intent_executed
      record_session_invalidated record_recovery_state_changed entries_by_type len to_decimal
  test_event_log_records_and_queries_lem = refl

  test_event_log_high_value_recorded_lem : test_event_log_high_value_recorded hex ≡ some passed
  unfolding test_event_log_high_value_recorded with_config register_guardians on_high_value_intent
      notify_guardians record_entry record_high_value_intent entries_by_type
  test_event_log_high_value_recorded_lem = refl

  test_event_log_identity_filter_lem : test_event_log_identity_filter hex ≡ some passed
  unfolding test_event_log_identity_filter record_entry record_intent_executed
      record_session_invalidated entries_for_identity
  test_event_log_identity_filter_lem = refl

  test_dashboard_snapshot_basic_lem : test_dashboard_snapshot_basic hex ≡ some passed
  unfolding test_dashboard_snapshot_basic record_entry record_intent_executed
      record_session_invalidated record_high_value_intent record_recovery_state_changed snapshot
  test_dashboard_snapshot_basic_lem = refl

  test_dashboard_time_range_filter_lem : test_dashboard_time_range_filter hex ≡ some passed
  unfolding test_dashboard_time_range_filter record_entry record_intent_executed snapshot_in_range
  test_dashboard_time_range_filter_lem = refl

  test_dashboard_entries_in_range_lem : test_dashboard_entries_in_range hex ≡ some passed
  unfolding test_dashboard_entries_in_range record_entry record_intent_executed entries_in_range
  test_dashboard_entries_in_range_lem = refl

  test_dashboard_export_json_lem : test_dashboard_export_json hex ≡ some passed
  unfolding test_dashboard_export_json record_entry record_intent_executed
      record_session_invalidated snapshot export_dashboard_state to_decimal
  test_dashboard_export_json_lem = refl

  abbrev executed : EventLogEntry
  executed = record {
    event_type = intent_executed;
    identity = address 0xAA;
    block_number = 100;
    timestamp = 1000;
    metadata =
        ("session_key", "0x" <> hex (address 0xBB)) ∷ ("selector", "0x" <> hex selector) ∷ [];
  }

  abbrev logged : EventLog
  logged = record_intent_executed hex EventLog.new (address 0xAA) (address 0xBB) selector 100 1000

  -- The export contains what the text of its one entry contains.
  exported :
      (pattern : String)
      → contains (json_entry hex executed) pattern ≡ true
      → contains (EventLog.export_json hex logged) pattern ≡ true
  unfolding EventLog.export_json record_entry record_intent_executed
  exported pattern h = contains-append "[\n" _ pattern (
      contains-left _ "\n]" pattern
        (contains-append "" _ pattern (contains-left (json_entry hex executed) "" pattern h)))

  event_type_shown : contains (json_entry hex executed) "\"event_type\": \"IntentExecuted\"" ≡ true
  unfolding json_entry debug_name json_metadata to_decimal
  event_type_shown = simp codes-append refl

  block_number_shown : contains (json_entry hex executed) "\"block_number\": 100" ≡ true
  unfolding json_entry debug_name json_metadata to_decimal
  block_number_shown = simp codes-append (has_within-append (codes (hex (address 0xAA))) _ _ refl)

  session_key_shown : contains (json_entry hex executed) "\"session_key\"" ≡ true
  unfolding json_entry debug_name json_metadata to_decimal
  session_key_shown = simp codes-append (has_within-append (codes (hex (address 0xAA))) _ _ refl)

  -- The members of the entry's metadata, from the first key on.
  selector_member : contains (json_metadata true executed.metadata) "\"selector\"" ≡ true
  unfolding json_metadata
  selector_member = simp codes-append (has_within-append (codes (hex (address 0xBB))) _ _ refl)

  selector_shown : contains (json_entry hex executed) "\"selector\"" ≡ true
  unfolding json_entry debug_name to_decimal
  selector_shown = simp codes-append (
      has_within-append (codes (hex (address 0xAA))) _ (codes "\"selector\"") (
        has_within-left (codes (json_metadata true executed.metadata)) _ (codes "\"selector\"")
          selector_member))

  test_event_log_export_json_lem : test_event_log_export_json hex ≡ some passed
  unfolding test_event_log_export_json
  test_event_log_export_json_lem =
      rw
        (
          exported "\"event_type\": \"IntentExecuted\"" event_type_shown,
          exported "\"block_number\": 100" block_number_shown,
          exported "\"session_key\"" session_key_shown,
          exported "\"selector\"" selector_shown,
        )
        refl
