-- ===== src/Monitor/Dashboard.antt =====
-- `DashboardState` of src/monitor/mod.rs: metrics folded over an event log. The state is only a
-- reference to the log, so its methods take the log. The counters count entries of a list in
-- memory, so they do not overflow.
pub mod Metrics
pub mod Export
use text.Mathlib.Text.{◌==◌ as str_eq}
use huntkey.Prelude.{
  ℕ, ◌+◌, Bool, ◌&&◌, ◌||◌, String, ◌<>◌, List, [], ◌∷◌, any, filter, length, ltb, leb,
  if◌then◌else◌,
}
use huntkey.Prelude.Bytes.{Bytes, bytes_eq}
use huntkey.Prelude.Decimal.{to_decimal}
use huntkey.Monitor.EventLog.{
  EventType, intent_executed, session_invalidated, recovery_state_changed, high_value_intent,
  EventLogEntry, EventLog,
}

pub record DashboardSnapshot : Type 0 where
  pub active_identities : ℕ
  pub pending_recoveries : ℕ
  pub executed_intents : ℕ
  pub high_value_intents : ℕ
  pub revoked_sessions : ℕ
  pub snapshot_timestamp : ℕ

-- The variables of the loop. The set of identities is a list with no repetition.
pub record Counts : Type 0 where
  pub identities : List Bytes
  pub pending_recoveries : ℕ
  pub executed_intents : ℕ
  pub high_value_intents : ℕ
  pub revoked_sessions : ℕ

abbrev pub no_counts : Counts
no_counts = record {
  identities = [];
  pending_recoveries = 0;
  executed_intents = 0;
  high_value_intents = 0;
  revoked_sessions = 0;
}

-- `HashSet::insert`
insert : Bytes → List Bytes → List Bytes
insert x set = if any (bytes_eq x) set then set else x ∷ set

-- The metadata say that the new state is `RecoveryPending`.
abbrev pub enters_recovery : List (String × String) → Bool
enters_recovery = any (λ (k, v). str_eq k "new_state" && str_eq v "RecoveryPending")

-- The `match` on the event type.
tally_type : EventType → List (String × String) → Counts → Counts
tally_type intent_executed metadata c = record c { executed_intents = c.executed_intents + 1 }
tally_type high_value_intent metadata c = record c { high_value_intents = c.high_value_intents + 1 }
tally_type session_invalidated metadata c = record c { revoked_sessions = c.revoked_sessions + 1 }
tally_type recovery_state_changed metadata c =
    if enters_recovery metadata
    then record c { pending_recoveries = c.pending_recoveries + 1 }
    else c
tally_type _ metadata c = c

-- One round of the loop.
tally : Counts → EventLogEntry → Counts
unfolding tally_type insert
tally c entry =
    tally_type entry.event_type entry.metadata
      (record c { identities = insert entry.identity c.identities })

tally_all : Counts → List EventLogEntry → Counts
tally_all c [] = c
tally_all c (entry ∷ entries) = tally_all (tally c entry) entries

abbrev finish : Counts → ℕ → DashboardSnapshot
finish c timestamp = record {
  active_identities = length c.identities;
  pending_recoveries = c.pending_recoveries;
  executed_intents = c.executed_intents;
  high_value_intents = c.high_value_intents;
  revoked_sessions = c.revoked_sessions;
  snapshot_timestamp = timestamp;
}

unfoldable pub snapshot : EventLog → ℕ → DashboardSnapshot
unfolding tally_all tally
snapshot log timestamp = finish (tally_all no_counts log.entries) timestamp

-- The loop that passes over entries outside the range by `continue`.
tally_range : ℕ → ℕ → Counts → List EventLogEntry → Counts
tally_range from to c [] = c
tally_range from to c (entry ∷ entries) =
    tally_range from to
      (if ltb entry.timestamp from || ltb to entry.timestamp then c else tally c entry) entries

unfoldable pub snapshot_in_range : EventLog → ℕ → ℕ → ℕ → DashboardSnapshot
unfolding tally_range tally
snapshot_in_range log from to snapshot_timestamp =
    finish (tally_range from to no_counts log.entries) snapshot_timestamp

unfoldable pub entries_in_range : EventLog → ℕ → ℕ → List EventLogEntry
entries_in_range log from to = filter (λ e. leb from e.timestamp && leb e.timestamp to) log.entries

unfoldable pub export_json : EventLog → ℕ → String
export_json log timestamp =
    let snap = snapshot log timestamp in
    "{\n"
    <> ("  \"active_identities\": "
        <> (to_decimal snap.active_identities
            <> (",\n"
                <> ("  \"pending_recoveries\": "
                    <> (to_decimal snap.pending_recoveries
                        <> (",\n"
                            <> ("  \"executed_intents\": "
                                <> (to_decimal snap.executed_intents
                                    <> (",\n"
                                        <> ("  \"high_value_intents\": "
                                            <> (to_decimal snap.high_value_intents
                                                <> (",\n"
                                                    <> ("  \"revoked_sessions\": "
                                                        <> (to_decimal snap.revoked_sessions
                                                            <> (",\n"
                                                            <> ("  \"snapshot_timestamp\": "
                                                            <> (to_decimal snap.snapshot_timestamp
                                                            <> "\n}")))))))))))))))))

unfoldable pub export_dashboard_state : EventLog → ℕ → String
unfolding export_json
export_dashboard_state event_log timestamp = export_json event_log timestamp
