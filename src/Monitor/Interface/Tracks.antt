-- ===== src/Monitor/Interface/Tracks.antt =====
-- The state of an `IdentityWatcher` (src/monitor/mod.rs) is what its history tells, and its
-- handlers raise the alerts that the history tells.
use text.Mathlib.Text.{◌==◌ as str_eq}
use huntkey.Prelude.{
  ℕ, ◌≡◌, ◌∙◌, refl, sym, ap, Bool, true, false, Option, none, some, String, List, Bool-cases, inl,
  inr, if◌then◌else◌,
}
use huntkey.Prelude.Bytes.{Bytes}
use huntkey.Prelude.Members.{member}
use huntkey.Monitor.EventLog
use huntkey.Monitor.Watcher.{
  SecurityAlert, GuardianNotification, IdentityWatcher, members_of, is_known_guardian,
  is_known_delegate,
}
use huntkey.Monitor.Watcher.Registry.{member-members_of}
use huntkey.Monitor.Handlers.{
  alarming, guardian_known, recovery_alert, on_recovery_state_changed, on_delegation_endorsed,
  on_session_invalidated, on_intent_executed, on_offline_session_detected, on_high_value_intent,
}
use huntkey.Monitor.Handlers.Trace.{
  Event, guardians, delegate, recovery, delegation, session, intent, offline, high_value, drain,
}
use huntkey.Monitor.Handlers.Trace.Outputs.{ignored, notices_if, alerts_of, notices_of, to_list}
use huntkey.Monitor.Interface.History.{History, guardians_of, has_guardian, has_delegate}
use huntkey.Monitor.Interface.Alerts.{alert_of, below, change_of, judge, change_message}
use huntkey.Monitor.Interface.Promise.{
  alerts_since, entries_since, notices_since, notices_for, announced,
}

-- The state of the watcher shows these guardians and delegates, alerts, entries and notifications.
pub record Shows (threshold : ℕ) (w : IdentityWatcher) (registered : Bytes → List Bytes)
    (delegated : Bytes → Bytes → Bool) (raised : List SecurityAlert)
    (recorded : List EventLog.EventLogEntry) (queued : List GuardianNotification) : Type 0 where
  pub config : w.config.high_value_threshold ≡ threshold
  pub known_guardians : (i : Bytes) → members_of w.known_guardians i ≡ registered i
  pub known_delegates : (i d : Bytes) → is_known_delegate w i d ≡ delegated i d
  pub alerts : w.alerts ≡ raised
  pub entries : w.event_log.entries ≡ recorded
  pub pending : w.pending_notifications ≡ queued

-- The state of the watcher is what its history tells.
pub record Tracks (hex : Bytes → String) (threshold : ℕ) (w : IdentityWatcher) (h : History)
    : Type 0 where
  pub shows :
      Shows threshold w
        (guardians_of h)
        (has_delegate h)
        (alerts_since hex threshold h)
        (entries_since hex threshold h)
        (notices_since hex threshold h)

second_if {ℓ} :
    {A B : Type ℓ} (b : Bool) (x y : A × B) → (if b then x else y).1 ≡ (if b then x.1 else y.1)
second_if true x y = refl
second_if false x y = refl

abbrev found_if :
    Bool
    → IdentityWatcher
    → IdentityWatcher
    → SecurityAlert
    → IdentityWatcher × Option SecurityAlert
found_if b x y a = if b then (x, none) else (y, some a)

notices_if-notices_for :
    (b : Bool) (x y : IdentityWatcher) (a : SecurityAlert) (known : Bytes → List Bytes)
    → alarming a.severity ≡ true
    → notices_if (found_if b x y a).1 (known a.identity)
      ≡ notices_for true (found_if b x y a).1 known
notices_if-notices_for true x y a known loud = refl
notices_if-notices_for false x y a known loud = rw loud refl

module _ (hex : Bytes → String) (threshold : ℕ) where
  -- The alert that a handler returns.
  abbrev pub returned : IdentityWatcher → Event → Option SecurityAlert
  returned w (recovery i s g b n) = some (on_recovery_state_changed hex w i s g b n).1
  returned w (delegation i d s b n) = some (on_delegation_endorsed hex w i d s b n).1
  returned w (session i e b n) = some (on_session_invalidated hex w i e b n).1
  returned w (intent i k s b n) = some (on_intent_executed hex w i k s b n).1
  returned w (offline i k b n) = some (on_offline_session_detected hex w i k b n).1
  returned w (high_value i k v s b n) = (on_high_value_intent hex w i k v s b n).1
  returned w _ = none

  guardian_known-has_guardian :
      {w : IdentityWatcher} {h : History} (i : Bytes) (g : Option Bytes)
      → Tracks hex threshold w h
      → guardian_known w i g ≡ has_guardian h i g
  unfolding guardian_known has_guardian is_known_guardian
  guardian_known-has_guardian i none t = refl
  guardian_known-has_guardian {w} i (some g) t =
      sym (member-members_of w.known_guardians i g) ∙ ap (member g) (t.shows.known_guardians i)

  recovery_alert-judge :
      (w : IdentityWatcher) (i : Bytes) (s : String) (g : Option Bytes)
      → recovery_alert hex w i s g ≡ (
        (judge (guardian_known w i g) (change_of s)).0,
        (judge (guardian_known w i g) (change_of s)).1,
        change_message hex (guardian_known w i g) (change_of s) i s g,
      )
  unfolding recovery_alert judge change_of change_message
  recovery_alert-judge w i s g = elim (Bool-cases (str_eq s "RecoveryPending")) [
    | inl pending ↦ elim (Bool-cases (guardian_known w i g)) [
      | inl known ↦ rw (pending, known) refl
      | inr unknown ↦ rw (pending, unknown) refl
    ]
    | inr idle ↦ elim (Bool-cases (str_eq s "Active")) [
      | inl active ↦ rw (idle, active) refl
      | inr passive ↦ elim (Bool-cases (str_eq s "Frozen")) [
        | inl stopped ↦ rw (idle, passive, stopped) refl
        | inr changed ↦ rw (idle, passive, changed) refl
      ]
    ]
  ]

  pub returned-alert_of :
      {w : IdentityWatcher} {h : History} (e : Event)
      → Tracks hex threshold w h
      → returned w e ≡ alert_of hex threshold h e
  unfolding alert_of on_recovery_state_changed on_delegation_endorsed on_session_invalidated
      on_intent_executed on_offline_session_detected on_high_value_intent
  returned-alert_of {w} {h} (recovery i s g b n) t =
      rw (recovery_alert-judge w i s g, guardian_known-has_guardian i g t) refl
  returned-alert_of {w} {h} (delegation i d s b n) t = elim (Bool-cases (has_delegate h i d)) [
    | inl known ↦ rw (t.shows.known_delegates i d, known) refl
    | inr unknown ↦ rw (t.shows.known_delegates i d, unknown) refl
  ]
  returned-alert_of {w} {h} (session i e b n) t = refl
  returned-alert_of {w} {h} (intent i k s b n) t = refl
  returned-alert_of {w} {h} (offline i k b n) t = refl
  returned-alert_of {w} {h} (high_value i k v s b n) t =
      second_if (below w.config.high_value_threshold v) _ _
      ∙ ap (λ c. alert_of hex c h (high_value i k v s b n)) t.shows.config
  returned-alert_of {w} {h} (guardians i gs) t = refl
  returned-alert_of {w} {h} (delegate i gs) t = refl
  returned-alert_of {w} {h} drain t = refl

  pub notices_of-notices_for :
      (w : IdentityWatcher) (e : Event)
      → notices_of hex w e ≡ notices_for (announced e) (returned w e) (members_of w.known_guardians)
  unfolding on_recovery_state_changed on_high_value_intent
  notices_of-notices_for w (recovery i s g b n) = refl
  notices_of-notices_for w (high_value i k v s b n) =
      notices_if-notices_for (ignored w v) _ _ _ (members_of w.known_guardians) refl
  notices_of-notices_for w _ = refl

  pub alerts_of-returned :
      (w : IdentityWatcher) (e : Event) → alerts_of hex w e ≡ to_list (returned w e)
  alerts_of-returned w (recovery i s g b n) = refl
  alerts_of-returned w (high_value i k v s b n) = refl
  alerts_of-returned w (offline i k b n) = refl
  alerts_of-returned w _ = refl
