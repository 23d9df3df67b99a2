-- ===== src/Tests/Exports.antt =====
-- The exports of src/monitor/mod.rs at concrete inputs, with a toy in place of `hex::encode`.
use huntkey.Prelude.{ℕ, ◌≡◌, ◌∙◌, refl, sym, ap, some, List, [], ◌∷◌, All, arith}
use huntkey.Prelude.Texts.{lacks-Free}
use huntkey.Monitor.EventLog
use huntkey.Monitor.EventLog.{
  intent_executed, session_invalidated, EventLogEntry, EventLog, export_json,
}
use huntkey.Monitor.Dashboard.{snapshot, export_dashboard_state}
use huntkey.Monitor.Dashboard.Export.{export_dashboard_state_inj}
use huntkey.Monitor.Handlers.Trace.{Event, Trace, guardians, recovery, offline, run}
use huntkey.Monitor.Handlers.Trace.Records.{log_of, run-log}
use huntkey.Monitor.Handlers.Trace.Exports.{IsPlainEvent, run-export_inj}
use huntkey.Tests.Hex.{encode, encode-IsHex}

abbrev start : Trace
start = record {
  watcher = record {
    known_guardians = [];
    known_delegates = [];
    alerts = [];
    pending_notifications = [];
    config = record { high_value_threshold = 100 };
    event_log = EventLog.new;
  };
  raised = [];
  delivered = [];
}

-- A recovery event alone, and between two calls that log nothing.
abbrev alone : List Event
alone = recovery (1 ∷ []) "RecoveryPending" (some (7 ∷ [])) 5 50 ∷ []

abbrev between : List Event
between =
    guardians (1 ∷ []) ((7 ∷ []) ∷ [])
    ∷ recovery (1 ∷ []) "RecoveryPending" (some (7 ∷ [])) 5 50
    ∷ offline (1 ∷ []) (9 ∷ []) 6 60
    ∷ []

alone-IsPlain : All IsPlainEvent alone
alone-IsPlain = (
  (
    (omega arith, tt),
    lacks-Free 34 "RecoveryPending" refl,
    (omega arith, tt),
    omega arith,
    omega arith,
  ),
  tt,
)

same_export :
    export_json encode (run encode start alone).watcher.event_log
    ≡ export_json encode (run encode start between).watcher.event_log
unfolding log_of
same_export =
    ap (λ es. export_json encode (record { entries = es }))
      (run-log encode start alone ∙ sym (run-log encode start between))

run-export_inj_example :
    (run encode start alone).watcher.event_log ≡ (run encode start between).watcher.event_log
run-export_inj_example =
    run-export_inj encode encode-IsHex start start alone between tt tt alone-IsPlain
      (tt, (alone-IsPlain.0, (tt, tt))) same_export

-- Two logs with the same metrics.
abbrev entry : ℕ → EventLogEntry
entry block = record {
  event_type = intent_executed;
  identity = 1 ∷ [];
  block_number = block;
  timestamp = 50;
  metadata = [];
}

abbrev one : ℕ → EventLog
one block = record { entries = entry block ∷ [] }

export_dashboard_state_inj_example : snapshot (one 5) 90 ≡ snapshot (one 6) 90
unfolding export_dashboard_state huntkey.Monitor.Dashboard.export_json snapshot
export_dashboard_state_inj_example =
    export_dashboard_state_inj (one 5) (one 6) 90 90 (omega arith) (omega arith) (omega arith)
      (omega arith) refl
