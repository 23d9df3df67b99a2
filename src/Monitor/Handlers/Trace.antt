-- ===== src/Monitor/Handlers/Trace.antt =====
-- Runs of the watcher (src/monitor/mod.rs): the registrations, the event handlers and the
-- draining of the queue, in any order.
pub mod Outputs
pub mod Views
pub mod Isolation
pub mod Soundness
pub mod Records
pub mod Snapshots
pub mod Exports
use huntkey.Prelude.{
  ℕ, ◌≡◌, ◌∙◌, refl, sym, ap, Option, none, some, String, List, [], ◌∷◌, ◌++◌, ltb, ◌==◌, ◌||◌,
  arith, if◌then◌else◌, Bool-cases, inl, inr, append-nil,
}
use huntkey.Prelude.Bytes.{Bytes}
use huntkey.Monitor.Watcher.{
  SecurityAlert, IdentityWatcher, GuardianNotification, register_guardians, register_delegate,
  drain_notifications, notify_guardians,
}
use huntkey.Monitor.Handlers.{
  alarming, on_recovery_state_changed, on_delegation_endorsed, on_session_invalidated,
  on_intent_executed, on_offline_session_detected, on_high_value_intent,
}

-- A registration, an event or a drain. `clear_alerts` and the changes that a caller may make
-- through `event_log_mut` are none of these: Monitor.Interface has them.
pub data Event : Type 0 where
  guardians : Bytes → List Bytes → Event
  delegate : Bytes → Bytes → Event
  recovery : Bytes → String → Option Bytes → ℕ → ℕ → Event
  delegation : Bytes → Bytes → Bytes → ℕ → ℕ → Event
  session : Bytes → ℕ → ℕ → ℕ → Event
  intent : Bytes → Bytes → Bytes → ℕ → ℕ → Event
  offline : Bytes → Bytes → ℕ → ℕ → Event
  high_value : Bytes → Bytes → ℕ → Bytes → ℕ → ℕ → Event
  drain : Event

-- The watcher, the alerts that the handlers have returned and the notifications that were drained.
pub record Trace : Type 0 where
  pub watcher : IdentityWatcher
  pub raised : List SecurityAlert
  pub delivered : List GuardianNotification

abbrev pub raise : Trace → IdentityWatcher × SecurityAlert → Trace
raise t (w, alert) = record t { watcher = w; raised = t.raised ++ alert ∷ [] }

unfoldable pub raise_if : Trace → IdentityWatcher × Option SecurityAlert → Trace
raise_if t (w, none) = record t { watcher = w }
raise_if t (w, some alert) = raise t (w, alert)

module _ (hex : Bytes → String) where
  unfoldable pub step : Trace → Event → Trace
  unfolding raise_if
  step t (guardians i gs) = record t { watcher = register_guardians t.watcher i gs }
  step t (delegate i d) = record t { watcher = register_delegate t.watcher i d }
  step t (recovery i s g b n) = raise t (on_recovery_state_changed hex t.watcher i s g b n)
  step t (delegation i d s b n) = raise t (on_delegation_endorsed hex t.watcher i d s b n)
  step t (session i e b n) = raise t (on_session_invalidated hex t.watcher i e b n)
  step t (intent i k s b n) = raise t (on_intent_executed hex t.watcher i k s b n)
  step t (offline i k b n) = raise t (on_offline_session_detected hex t.watcher i k b n)
  step t (high_value i k v s b n) = raise_if t (on_high_value_intent hex t.watcher i k v s b n)
  step t drain = record t {
    watcher = (drain_notifications t.watcher).1;
    delivered = t.delivered ++ (drain_notifications t.watcher).0;
  }

  unfoldable pub run : Trace → List Event → Trace
  run t [] = t
  run t (e ∷ es) = run (step t e) es

  -- A handler appends the alert that it returns to the log, and to nothing else.
  step-alerts :
      (t : Trace) (e : Event)
      → t.watcher.alerts ≡ t.raised
      → (step t e).watcher.alerts ≡ (step t e).raised
  unfolding step register_guardians register_delegate on_recovery_state_changed
      on_delegation_endorsed on_session_invalidated on_intent_executed on_offline_session_detected
      on_high_value_intent drain_notifications notify_guardians
  step-alerts t (guardians i gs) h = h
  step-alerts t (delegate i d) h = h
  step-alerts t (recovery i s g b n) h =
      elim (Bool-cases (alarming (on_recovery_state_changed hex t.watcher i s g b n).1.severity)) [
        | inl loud ↦ rw (loud, h) refl
        | inr quiet ↦ rw (quiet, h) refl
      ]
  step-alerts t (delegation i d s b n) h = rw h refl
  step-alerts t (session i e b n) h = rw h refl
  step-alerts t (intent i k s b n) h = rw h refl
  step-alerts t (offline i k b n) h = rw h refl
  step-alerts t (high_value i k v s b n) h =
      elim (Bool-cases (
        t.watcher.config.high_value_threshold == 0
        || ltb v t.watcher.config.high_value_threshold)) [
          | inl low ↦ rw low h
          | inr high ↦ rw (high, h) refl
        ]
  step-alerts t drain h = h

  -- If the alert log holds exactly the alerts that the handlers have returned, in their order, then
  -- so it does after any sequence of registrations, events and drains.
  run-alerts :
      (t : Trace) (es : List Event)
      → t.watcher.alerts ≡ t.raised
      → (run t es).watcher.alerts ≡ (run t es).raised
  unfolding run
  run-alerts t [] h = h
  run-alerts t (e ∷ es) h = run-alerts (step t e) es (step-alerts t e h)
