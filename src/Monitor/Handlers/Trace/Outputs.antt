-- ===== src/Monitor/Handlers/Trace/Outputs.antt =====
-- What an event adds to the logs and the queue of the watcher (src/monitor/mod.rs).
use huntkey.Prelude.{
  ℕ, ◌≡◌, refl, sym, Bool, ◌||◌, Option, none, some, String, List, [], ◌∷◌, ◌++◌, map, append-nil,
  ltb, ◌==◌, arith, Bool-cases, inl, inr, if◌then◌else◌,
}
use huntkey.Prelude.Bytes.{Bytes}
use huntkey.Monitor.EventLog
use huntkey.Monitor.EventLog.{EventLogEntry}
use huntkey.Monitor.Watcher.{
  SecurityAlert, IdentityWatcher, GuardianNotification, notify_guardians, members_of,
}
use huntkey.Monitor.Handlers.{
  alarming, on_recovery_state_changed, on_delegation_endorsed, on_session_invalidated,
  on_intent_executed, on_offline_session_detected, on_high_value_intent,
}
use huntkey.Monitor.Handlers.Trace.{
  Event, guardians, delegate, recovery, delegation, session, intent, offline, high_value, drain,
  Trace, step,
}

abbrev pub notices : SecurityAlert → List Bytes → List GuardianNotification
notices a = map (λ g. record { guardian = g; alert = a })

abbrev pub ignored : IdentityWatcher → ℕ → Bool
ignored w value = w.config.high_value_threshold == 0 || ltb value w.config.high_value_threshold

-- The identity that an event reports on. Registrations and drains report nothing.
abbrev pub reported : Event → Option Bytes
reported (recovery i s g b n) = some i
reported (delegation i d s b n) = some i
reported (session i e b n) = some i
reported (intent i k s b n) = some i
reported (offline i k b n) = some i
reported (high_value i k v s b n) = some i
reported _ = none

abbrev pub to_list : Option SecurityAlert → List SecurityAlert
to_list none = []
to_list (some a) = a ∷ []

abbrev pub notices_if : Option SecurityAlert → List Bytes → List GuardianNotification
notices_if none gs = []
notices_if (some a) gs = notices a gs

module _ (hex : Bytes → String) where
  abbrev pub alerts_of : IdentityWatcher → Event → List SecurityAlert
  alerts_of w (recovery i s g b n) = (on_recovery_state_changed hex w i s g b n).1 ∷ []
  alerts_of w (delegation i d s b n) = (on_delegation_endorsed hex w i d s b n).1 ∷ []
  alerts_of w (session i e b n) = (on_session_invalidated hex w i e b n).1 ∷ []
  alerts_of w (intent i k s b n) = (on_intent_executed hex w i k s b n).1 ∷ []
  alerts_of w (offline i k b n) = (on_offline_session_detected hex w i k b n).1 ∷ []
  alerts_of w (high_value i k v s b n) = to_list (on_high_value_intent hex w i k v s b n).1
  alerts_of w _ = []

  abbrev pub logged_by : IdentityWatcher → Event → List EventLogEntry
  logged_by w (recovery i s g b n) =
      (EventLog.record_recovery_state_changed hex EventLog.new i s g b n).entries
  logged_by w (session i e b n) = (EventLog.record_session_invalidated EventLog.new i e b n).entries
  logged_by w (intent i k s b n) =
      (EventLog.record_intent_executed hex EventLog.new i k s b n).entries
  logged_by w (high_value i k v s b n) =
      if ignored w v
      then []
      else (EventLog.record_high_value_intent hex EventLog.new i k v s b n).entries
  logged_by w _ = []

  abbrev pub notices_of : IdentityWatcher → Event → List GuardianNotification
  notices_of w (recovery i s g b n) =
      let a = (on_recovery_state_changed hex w i s g b n).1 in
      if alarming a.severity then notices a (members_of w.known_guardians i) else []
  notices_of w (high_value i k v s b n) =
      notices_if (on_high_value_intent hex w i k v s b n).1 (members_of w.known_guardians i)
  notices_of w _ = []

  -- The second trace is the first with the outputs of the event at the ends.
  pub record Emits (t u : Trace) (e : Event) : Type 0 where
    pub alerts : u.watcher.alerts ≡ t.watcher.alerts ++ alerts_of t.watcher e
    pub raised : u.raised ≡ t.raised ++ alerts_of t.watcher e
    pub entries : u.watcher.event_log.entries ≡ t.watcher.event_log.entries ++ logged_by t.watcher e
    pub pending :
        u.watcher.pending_notifications ≡ t.watcher.pending_notifications ++ notices_of t.watcher e
    pub delivered : u.delivered ≡ t.delivered
    pub known_guardians : u.watcher.known_guardians ≡ t.watcher.known_guardians
    pub known_delegates : u.watcher.known_delegates ≡ t.watcher.known_delegates
    pub config : u.watcher.config ≡ t.watcher.config

  pub step-Emits :
      (t : Trace) (e : Event) {i : Bytes} → reported e ≡ some i → Emits t (step hex t e) e
  unfolding step on_recovery_state_changed on_delegation_endorsed on_session_invalidated
      on_intent_executed on_offline_session_detected on_high_value_intent notify_guardians
      EventLog.record_entry EventLog.record_recovery_state_changed
      EventLog.record_session_invalidated EventLog.record_intent_executed
      EventLog.record_high_value_intent
  step-Emits t (guardians i gs) h = absurd (ground arith)
  step-Emits t (delegate i d) h = absurd (ground arith)
  step-Emits t drain h = absurd (ground arith)
  step-Emits t (recovery i s g b n) h =
      elim (Bool-cases (alarming (on_recovery_state_changed hex t.watcher i s g b n).1.severity)) [
        | inl loud ↦ record {
          alerts = rw loud refl;
          raised = refl;
          entries = rw loud refl;
          pending = rw loud refl;
          delivered = refl;
          known_guardians = rw loud refl;
          known_delegates = rw loud refl;
          config = rw loud refl;
        }
        | inr quiet ↦ record {
          alerts = rw quiet refl;
          raised = refl;
          entries = rw quiet refl;
          pending = rw quiet (sym (append-nil _));
          delivered = refl;
          known_guardians = rw quiet refl;
          known_delegates = rw quiet refl;
          config = rw quiet refl;
        }
      ]
  step-Emits t (delegation i d s b n) h = record {
    alerts = refl;
    raised = refl;
    entries = sym (append-nil _);
    pending = sym (append-nil _);
    delivered = refl;
    known_guardians = refl;
    known_delegates = refl;
    config = refl;
  }
  step-Emits t (session i e b n) h = record {
    alerts = refl;
    raised = refl;
    entries = refl;
    pending = sym (append-nil _);
    delivered = refl;
    known_guardians = refl;
    known_delegates = refl;
    config = refl;
  }
  step-Emits t (intent i k s b n) h = record {
    alerts = refl;
    raised = refl;
    entries = refl;
    pending = sym (append-nil _);
    delivered = refl;
    known_guardians = refl;
    known_delegates = refl;
    config = refl;
  }
  step-Emits t (offline i k b n) h = record {
    alerts = refl;
    raised = refl;
    entries = sym (append-nil _);
    pending = sym (append-nil _);
    delivered = refl;
    known_guardians = refl;
    known_delegates = refl;
    config = refl;
  }
  step-Emits t (high_value i k v s b n) h = elim (Bool-cases (ignored t.watcher v)) [
    | inl low ↦ record {
      alerts = rw low (sym (append-nil _));
      raised = rw low (sym (append-nil _));
      entries = rw low (sym (append-nil _));
      pending = rw low (sym (append-nil _));
      delivered = rw low refl;
      known_guardians = rw low refl;
      known_delegates = rw low refl;
      config = rw low refl;
    }
    | inr high ↦ record {
      alerts = rw high refl;
      raised = rw high refl;
      entries = rw high refl;
      pending = rw high refl;
      delivered = rw high refl;
      known_guardians = rw high refl;
      known_delegates = rw high refl;
      config = rw high refl;
    }
  ]
