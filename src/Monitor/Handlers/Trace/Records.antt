-- ===== src/Monitor/Handlers/Trace/Records.antt =====
-- What a run of the watcher writes to the event log (src/monitor/mod.rs).
use huntkey.Prelude.{
  some, ℕ, ◌≡◌, ◌∙◌, refl, sym, ap, ◌||◌, none, some, String, ◌<>◌, List, [], ◌∷◌, ◌++◌,
  append_assoc, append-nil, ltb, ◌==◌, if◌then◌else◌,
}
use huntkey.Prelude.Bytes.{Bytes}
use huntkey.Prelude.Decimal.{to_decimal}
use huntkey.Monitor.EventLog
use huntkey.Monitor.EventLog.{
  EventType, intent_executed, session_invalidated, recovery_state_changed, high_value_intent,
  EventLogEntry, guardian_metadata,
}
use huntkey.Monitor.Watcher.{
  IdentityWatcher, register_guardians, register_delegate, drain_notifications,
}
use huntkey.Monitor.Handlers.Trace.Outputs.{reported, logged_by, step-Emits}
use huntkey.Monitor.Handlers.Trace.{
  Event, guardians, delegate, recovery, delegation, session, intent, offline, high_value, drain,
  Trace, step, run,
}

abbrev pub threshold_of : Trace → ℕ
threshold_of t = t.watcher.config.high_value_threshold

abbrev pub entries_of : Trace → List EventLogEntry
entries_of t = t.watcher.event_log.entries

module _ (hex : Bytes → String) where
  abbrev prefixed : Bytes → String
  prefixed bytes = "0x" <> hex bytes

  -- What one call logs: one entry for a recovery, session or execution event and for a value that
  -- reaches a threshold which is not 0. A registration, a delegation, an offline session and a
  -- drain log nothing.
  abbrev pub logs : ℕ → Event → List EventLogEntry
  logs threshold (recovery i s none b n) =
      record {
        event_type = recovery_state_changed;
        identity = i;
        block_number = b;
        timestamp = n;
        metadata = ("new_state", s) ∷ [];
      }
      ∷ []
  logs threshold (recovery i s (some g) b n) =
      record {
        event_type = recovery_state_changed;
        identity = i;
        block_number = b;
        timestamp = n;
        metadata = ("new_state", s) ∷ ("guardian", prefixed g) ∷ [];
      }
      ∷ []
  logs threshold (session i e b n) =
      record {
        event_type = session_invalidated;
        identity = i;
        block_number = b;
        timestamp = n;
        metadata = ("new_epoch", to_decimal e) ∷ [];
      }
      ∷ []
  logs threshold (intent i k s b n) =
      record {
        event_type = intent_executed;
        identity = i;
        block_number = b;
        timestamp = n;
        metadata = ("session_key", prefixed k) ∷ ("selector", prefixed s) ∷ [];
      }
      ∷ []
  logs threshold (high_value i k v s b n) =
      if threshold == 0 || ltb v threshold
      then []
      else record {
        event_type = high_value_intent;
        identity = i;
        block_number = b;
        timestamp = n;
        metadata =
            ("session_key", prefixed k)
            ∷ ("selector", prefixed s)
            ∷ ("value_wei", to_decimal v)
            ∷ [];
      }
        ∷ []
  logs threshold _ = []

  unfoldable pub log_of : ℕ → List Event → List EventLogEntry
  log_of threshold [] = []
  log_of threshold (e ∷ es) = logs threshold e ++ log_of threshold es

  -- The entries that the handlers record are these.
  pub logged_by-logs :
      (w : IdentityWatcher) (e : Event) → logged_by hex w e ≡ logs w.config.high_value_threshold e
  unfolding EventLog.record_entry EventLog.record_recovery_state_changed
      EventLog.record_session_invalidated EventLog.record_intent_executed
      EventLog.record_high_value_intent guardian_metadata
  logged_by-logs w (recovery i s none b n) = refl
  logged_by-logs w (recovery i s (some g) b n) = refl
  logged_by-logs w (session i e b n) = refl
  logged_by-logs w (intent i k s b n) = refl
  logged_by-logs w (high_value i k v s b n) = refl
  logged_by-logs w _ = refl

  Logs : Trace → Event → Type 0
  Logs t e =
      (entries_of (step hex t e) ≡ entries_of t ++ logs (threshold_of t) e)
      × (threshold_of (step hex t e) ≡ threshold_of t)

  reported-Logs : (t : Trace) (e : Event) {i : Bytes} → reported e ≡ some i → Logs t e
  unfolding Logs
  reported-Logs t e h =
      let m = step-Emits hex t e h in
      (
        m.entries ∙ ap (λ es. entries_of t ++ es) (logged_by-logs t.watcher e),
        ap (λ c. c.high_value_threshold) m.config,
      )

  step-Logs : (t : Trace) (e : Event) → Logs t e
  unfolding Logs step register_guardians register_delegate drain_notifications
  step-Logs t (guardians i gs) = (sym (append-nil _), refl)
  step-Logs t (delegate i d) = (sym (append-nil _), refl)
  step-Logs t drain = (sym (append-nil _), refl)
  step-Logs t (recovery i s g b n) = reported-Logs t (recovery i s g b n) refl
  step-Logs t (delegation i d s b n) = reported-Logs t (delegation i d s b n) refl
  step-Logs t (session i e b n) = reported-Logs t (session i e b n) refl
  step-Logs t (intent i k s b n) = reported-Logs t (intent i k s b n) refl
  step-Logs t (offline i k b n) = reported-Logs t (offline i k b n) refl
  step-Logs t (high_value i k v s b n) = reported-Logs t (high_value i k v s b n) refl

  -- After any sequence of registrations, events and drains the event log holds, after its earlier
  -- entries, one entry for each recovery, session and execution event and for each value that
  -- reaches a threshold other than 0, in the order of the calls, with that call's type, identity,
  -- block and time, and with its arguments as metadata: the new state and the guardian, the new
  -- epoch, the session key and the selector, the value. Delegations and offline sessions are never
  -- logged.
  pub run-log :
      (t : Trace) (es : List Event)
      → entries_of (run hex t es) ≡ entries_of t ++ log_of (threshold_of t) es
  unfolding run log_of Logs
  run-log t [] = sym (append-nil _)
  run-log t (e ∷ es) =
      run-log (step hex t e) es
      ∙ rw ((step-Logs t e).0, (step-Logs t e).1)
          (append_assoc (entries_of t) (logs (threshold_of t) e) (log_of (threshold_of t) es))
