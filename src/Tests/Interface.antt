-- ===== src/Tests/Interface.antt =====
-- The public interface of the watcher of src/monitor/mod.rs at concrete calls.
use huntkey.Prelude.{ℕ, ◌≡◌, refl, String, some, List, [], ◌∷◌}
use huntkey.Prelude.Bytes.{Bytes, zeros}
use huntkey.Monitor.Watcher.{WatcherConfig, with_config, critical}
use huntkey.Monitor.Handlers.Trace.{guardians, recovery, delegation, session, high_value, drain}
use huntkey.Monitor.Interface.{
  Request, handle, clear_alerts, record_entry, clear_log, alerts, by_severity, for_identity,
  event_log, answers, done, listed, logged,
}
use huntkey.Monitor.EventLog.{session_invalidated}
use huntkey.Monitor.Interface.Promise.{promised, reply, entries_since, alerts_since}
use huntkey.Monitor.Interface.Refinement.{with_config-promised}

abbrev hex : Bytes → String
hex bytes = "ff"

abbrev address : ℕ → Bytes
address n = n ∷ zeros 19

abbrev config : WatcherConfig
config = record { high_value_threshold = 100 }

abbrev calls : List Request
calls =
    handle (guardians (address 1) (address 7 ∷ []))
    ∷ handle (recovery (address 1) "RecoveryPending" (some (address 7)) 5 50)
    ∷ handle (delegation (address 1) (address 8) (1 ∷ 2 ∷ 3 ∷ 4 ∷ []) 6 60)
    ∷ clear_alerts
    ∷ handle (high_value (address 1) (address 6) 100 (1 ∷ 2 ∷ 3 ∷ 4 ∷ []) 7 70)
    ∷ handle drain
    ∷ clear_log
    ∷ handle (session (address 1) 2 8 80)
    ∷ alerts
    ∷ by_severity critical
    ∷ for_identity (address 2)
    ∷ event_log
    ∷ []

with_config-promised_example : answers hex (with_config config) calls ≡ promised hex 100 [] calls
with_config-promised_example = with_config-promised hex config calls

abbrev entry_calls : List Request
entry_calls =
    record_entry (record {
      event_type = session_invalidated;
      identity = address 1;
      block_number = 1;
      timestamp = 2;
      metadata = [];
    })
    ∷ clear_log
    ∷ event_log
    ∷ alerts
    ∷ []

emptied : promised hex 100 [] entry_calls ≡ done ∷ done ∷ logged [] ∷ listed [] ∷ []
unfolding promised reply entries_since alerts_since
emptied = refl
