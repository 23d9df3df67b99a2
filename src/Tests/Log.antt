-- ===== src/Tests/Log.antt =====
-- The event log and the dashboard of src/monitor/mod.rs at concrete inputs.
use huntkey.Prelude.{ℕ, ◌≡◌, ◌≢◌, String, refl, arith, All, none, some, [], ◌∷◌, filter, length}
use huntkey.Prelude.Bytes.{Bytes, zeros}
use huntkey.Prelude.Members.{dedup}
use huntkey.Monitor.EventLog.{
  EventLog, intent_executed, session_invalidated, recovery_state_changed, high_value_intent,
  entries_by_type, export_json, record_recovery_state_changed, new, record_entry, guardian_metadata,
}
use huntkey.Monitor.EventLog.Json.{forged, export_json-forged}
use huntkey.Monitor.EventLog.Injective.{IsPlainEntry, export_json_inj}
use huntkey.Prelude.Texts.{lacks-Free}
use huntkey.Tests.Hex.{encode, encode-IsHex}
use huntkey.Monitor.Dashboard.{snapshot, snapshot_in_range, entries_in_range}
use huntkey.Monitor.Dashboard.Metrics.{
  identities_of, recovery_entry, snapshot_lem, snapshot_in_range_lem,
}

abbrev hex : Bytes → String
hex bytes = "ff"

abbrev identity : ℕ → Bytes
identity n = n ∷ zeros 19

-- Two executed intents and a recovery.
abbrev log : EventLog
log = record {
  entries =
      record {
        event_type = intent_executed;
        identity = identity 1;
        block_number = 1;
        timestamp = 100;
        metadata = [];
      }
      ∷ record {
        event_type = recovery_state_changed;
        identity = identity 2;
        block_number = 2;
        timestamp = 200;
        metadata = ("new_state", "RecoveryPending") ∷ [];
      }
      ∷ record {
        event_type = intent_executed;
        identity = identity 1;
        block_number = 3;
        timestamp = 300;
        metadata = [];
      }
      ∷ [];
}

snapshot_lem_example :
    ((snapshot log 999).active_identities ≡ length (dedup (identities_of log.entries)))
    × ((snapshot log 999).executed_intents ≡ length (entries_by_type log intent_executed))
    × ((snapshot log 999).high_value_intents ≡ length (entries_by_type log high_value_intent))
    × ((snapshot log 999).revoked_sessions ≡ length (entries_by_type log session_invalidated))
    × ((snapshot log 999).pending_recoveries ≡ length (filter recovery_entry log.entries))
    × ((snapshot log 999).snapshot_timestamp ≡ 999)
snapshot_lem_example = snapshot_lem log 999

snapshot_in_range_lem_example :
    snapshot_in_range log 150 300 999
    ≡ snapshot (record { entries = entries_in_range log 150 300 }) 999
snapshot_in_range_lem_example = snapshot_in_range_lem log 150 300 999

export_json-forged_example :
    (export_json hex (
        record_recovery_state_changed hex log
          (identity 2)
          (forged hex "Frozen" (identity 9))
          none
          4
          400)
      ≡ export_json hex
          (record_recovery_state_changed hex log (identity 2) "Frozen" (some (identity 9)) 4 400))
    × (record_recovery_state_changed hex log
          (identity 2)
          (forged hex "Frozen" (identity 9))
          none
          4
          400
        ≢ record_recovery_state_changed hex log (identity 2) "Frozen" (some (identity 9)) 4 400)
export_json-forged_example = export_json-forged hex log (identity 2) "Frozen" (identity 9) 4 400

-- One recorded recovery event, and the same log written out.
abbrev recorded : EventLog
recorded = record_recovery_state_changed encode new (1 ∷ 2 ∷ []) "Active" none 4 400

abbrev written : EventLog
written = record {
  entries =
      record {
        event_type = recovery_state_changed;
        identity = 1 ∷ 2 ∷ [];
        block_number = 4;
        timestamp = 400;
        metadata = ("new_state", "Active") ∷ [];
      }
      ∷ [];
}

written-IsPlain : All IsPlainEntry written.entries
written-IsPlain = (
  record {
    identity = (omega arith, (omega arith, tt));
    block_number = omega arith;
    timestamp = omega arith;
    metadata = ((lacks-Free 34 "new_state" refl, lacks-Free 34 "Active" refl), tt);
  },
  tt,
)

export_json_inj_example : recorded ≡ written
unfolding record_recovery_state_changed record_entry guardian_metadata
export_json_inj_example =
    export_json_inj encode encode-IsHex recorded written written-IsPlain written-IsPlain refl
