-- ===== src/Monitor/EventLog.antt =====
-- `EventLog` of src/monitor/mod.rs. `hex` is `hex::encode`.
pub mod Queries
pub mod Json
pub mod Metadata
pub mod Injective
use huntkey.Prelude.{
  ℕ, Bool, true, false, Option, none, some, String, ◌<>◌, List, [], ◌∷◌, ◌++◌, filter, length,
  if◌then◌else◌, ◌==◌,
}
use huntkey.Prelude.Bytes.{Bytes, bytes_eq}
use huntkey.Prelude.Decimal.{to_decimal}

pub data EventType : Type 0 where
  intent_executed session_invalidated recovery_state_changed delegation_endorsed high_value_intent :
      EventType

abbrev pub event_type_eq : EventType → EventType → Bool
event_type_eq intent_executed intent_executed = true
event_type_eq session_invalidated session_invalidated = true
event_type_eq recovery_state_changed recovery_state_changed = true
event_type_eq delegation_endorsed delegation_endorsed = true
event_type_eq high_value_intent high_value_intent = true
event_type_eq _ _ = false

-- `{:?}` of an event type.
unfoldable pub debug_name : EventType → String
debug_name intent_executed = "IntentExecuted"
debug_name session_invalidated = "SessionInvalidated"
debug_name recovery_state_changed = "RecoveryStateChanged"
debug_name delegation_endorsed = "DelegationEndorsed"
debug_name high_value_intent = "HighValueIntent"

pub record EventLogEntry : Type 0 where
  pub event_type : EventType
  pub identity : Bytes
  pub block_number : ℕ
  pub timestamp : ℕ
  pub metadata : List (String × String)

pub record EventLog : Type 0 where
  pub entries : List EventLogEntry

abbrev pub new : EventLog
new = record { entries = [] }

unfoldable pub record_entry : EventLog → EventLogEntry → EventLog
record_entry log entry = record { entries = log.entries ++ entry ∷ [] }

-- The optional guardian of a recovery event's metadata.
unfoldable pub guardian_metadata : (Bytes → String) → Option Bytes → List (String × String)
guardian_metadata hex none = []
guardian_metadata hex (some g) = ("guardian", "0x" <> hex g) ∷ []

module _ (hex : Bytes → String) where
  unfoldable pub record_intent_executed : EventLog → Bytes → Bytes → Bytes → ℕ → ℕ → EventLog
  record_intent_executed log identity session_key selector block_number timestamp =
      record_entry log (record {
        event_type = intent_executed;
        identity = identity;
        block_number = block_number;
        timestamp = timestamp;
        metadata =
            ("session_key", "0x" <> hex session_key) ∷ ("selector", "0x" <> hex selector) ∷ [];
      })

  unfoldable pub record_recovery_state_changed :
      EventLog → Bytes → String → Option Bytes → ℕ → ℕ → EventLog
  unfolding guardian_metadata
  record_recovery_state_changed log identity new_state guardian block_number timestamp =
      record_entry log (record {
        event_type = recovery_state_changed;
        identity = identity;
        block_number = block_number;
        timestamp = timestamp;
        metadata = ("new_state", new_state) ∷ guardian_metadata hex guardian;
      })

  unfoldable pub record_high_value_intent : EventLog → Bytes → Bytes → ℕ → Bytes → ℕ → ℕ → EventLog
  record_high_value_intent log identity session_key value selector block_number timestamp =
      record_entry log (record {
        event_type = high_value_intent;
        identity = identity;
        block_number = block_number;
        timestamp = timestamp;
        metadata =
            ("session_key", "0x" <> hex session_key)
            ∷ ("selector", "0x" <> hex selector)
            ∷ ("value_wei", to_decimal value)
            ∷ [];
      })

unfoldable pub record_session_invalidated : EventLog → Bytes → ℕ → ℕ → ℕ → EventLog
record_session_invalidated log identity new_epoch block_number timestamp =
    record_entry log (record {
      event_type = session_invalidated;
      identity = identity;
      block_number = block_number;
      timestamp = timestamp;
      metadata = ("new_epoch", to_decimal new_epoch) ∷ [];
    })

unfoldable pub entries_by_type : EventLog → EventType → List EventLogEntry
entries_by_type log event_type = filter (λ e. event_type_eq e.event_type event_type) log.entries

unfoldable pub entries_for_identity : EventLog → Bytes → List EventLogEntry
entries_for_identity log identity = filter (λ e. bytes_eq e.identity identity) log.entries

unfoldable pub len : EventLog → ℕ
len log = length log.entries

unfoldable is_empty : EventLog → Bool
is_empty log = len log == 0

unfoldable pub clear : EventLog → EventLog
clear log = record { entries = [] }

-- The members of a metadata object; `first` is the loop's `j == 0`.
unfoldable pub json_metadata : Bool → List (String × String) → String
json_metadata first [] = ""
json_metadata first ((key, val) ∷ rest) =
    (if first then "" else ",")
    <> ("\n      \"" <> (key <> ("\": \"" <> (val <> ("\"" <> json_metadata false rest)))))

module _ (hex : Bytes → String) where
  unfoldable pub json_entry : EventLogEntry → String
  json_entry e =
      "  {\n"
      <> ("    \"event_type\": \""
          <> (debug_name e.event_type
              <> ("\",\n"
                  <> ("    \"identity\": \"0x"
                      <> (hex e.identity
                          <> ("\",\n"
                              <> ("    \"block_number\": "
                                  <> (to_decimal e.block_number
                                      <> (",\n"
                                          <> ("    \"timestamp\": "
                                              <> (to_decimal e.timestamp
                                                  <> (",\n"
                                                      <> ("    \"metadata\": {"
                                                          <> (json_metadata true e.metadata
                                                            <> "\n    }\n  }"))))))))))))))

  json_entries : Bool → List EventLogEntry → String
  json_entries first [] = ""
  json_entries first (e ∷ rest) =
      (if first then "" else ",\n") <> (json_entry e <> json_entries false rest)

  unfoldable pub export_json : EventLog → String
  unfolding json_entries json_entry json_metadata debug_name
  export_json log = "[\n" <> (json_entries true log.entries <> "\n]")
