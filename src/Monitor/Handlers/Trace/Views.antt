-- ===== src/Monitor/Handlers/Trace/Views.antt =====
-- What the watcher (src/monitor/mod.rs) holds of one identity, and what an event adds to it.
use huntkey.Prelude.{
  ℕ, ◌≡◌, ◌∙◌, refl, sym, ap, Bool, true, false, ◌||◌, Option, none, some, String, List, [], ◌∷◌,
  ◌++◌, filter, append-nil, append_assoc, ltb, ◌==◌, Bool-cases, inl, inr, if◌then◌else◌, arith,
}
use huntkey.Prelude.Bytes.{Bytes, bytes_eq, bytes_eq_iff}
use huntkey.Prelude.Members.{member}
use huntkey.Monitor.EventLog
use huntkey.Monitor.EventLog.{EventLogEntry, entries_for_identity}
use huntkey.Monitor.Watcher.{
  SecurityAlert, IdentityWatcher, GuardianNotification, WatcherConfig, alerts_for_identity,
  is_known_guardian, is_known_delegate, members_of,
}
use huntkey.Monitor.Watcher.Registry.{member-members_of}
use huntkey.Monitor.Handlers.{
  alarming, guardian_known, recovery_alert, on_recovery_state_changed, on_delegation_endorsed,
  on_session_invalidated, on_intent_executed, on_offline_session_detected, on_high_value_intent,
}
use huntkey.Monitor.Handlers.Trace.{
  Event, guardians, delegate, recovery, delegation, session, intent, offline, high_value, drain,
  Trace,
}
use huntkey.Monitor.Handlers.Trace.Outputs.{notices, ignored, alerts_of, logged_by, notices_of}

module _ (j : Bytes) where
  abbrev pub of_alerts : List SecurityAlert → List SecurityAlert
  of_alerts = filter (λ a. bytes_eq a.identity j)

  abbrev pub of_entries : List EventLogEntry → List EventLogEntry
  of_entries = filter (λ e. bytes_eq e.identity j)

  abbrev pub of_notices : List GuardianNotification → List GuardianNotification
  of_notices = filter (λ n. bytes_eq n.alert.identity j)

  -- Two traces hold the same of the identity: its alerts, entries, notifications and members.
  pub record SameView (t u : Trace) : Type 0 where
    pub alerts : alerts_for_identity t.watcher j ≡ alerts_for_identity u.watcher j
    pub raised : of_alerts t.raised ≡ of_alerts u.raised
    pub entries :
        entries_for_identity t.watcher.event_log j ≡ entries_for_identity u.watcher.event_log j
    pub pending :
        of_notices t.watcher.pending_notifications ≡ of_notices u.watcher.pending_notifications
    pub delivered : of_notices t.delivered ≡ of_notices u.delivered
    pub guardians : members_of t.watcher.known_guardians j ≡ members_of u.watcher.known_guardians j
    pub delegates : (d : Bytes) → is_known_delegate t.watcher j d ≡ is_known_delegate u.watcher j d
    pub threshold : t.watcher.config ≡ u.watcher.config

  -- The call is about the identity, or drains the queue.
  abbrev pub concerns : Event → Bool
  concerns (guardians i gs) = bytes_eq i j
  concerns (delegate i d) = bytes_eq i j
  concerns (recovery i s g b n) = bytes_eq i j
  concerns (delegation i d s b n) = bytes_eq i j
  concerns (session i e b n) = bytes_eq i j
  concerns (intent i k s b n) = bytes_eq i j
  concerns (offline i k b n) = bytes_eq i j
  concerns (high_value i k v s b n) = bytes_eq i j
  concerns drain = true

  of_notices-notices :
      (a : SecurityAlert) (gs : List Bytes)
      → of_notices (notices a gs) ≡ (if bytes_eq a.identity j then notices a gs else [])
  of_notices-notices a [] = ground arith
  of_notices-notices a (g ∷ gs) = ground (arith, of_notices-notices a gs)

  -- What an event about another identity adds is nothing to this one.
  module _ (hex : Bytes → String) where
    pub foreign :
        (w : IdentityWatcher) (e : Event)
        → concerns e ≡ false
        → (of_alerts (alerts_of hex w e) ≡ [])
          × (of_entries (logged_by hex w e) ≡ [])
          × (of_notices (notices_of hex w e) ≡ [])
    unfolding on_recovery_state_changed on_delegation_endorsed on_session_invalidated
        on_intent_executed on_offline_session_detected on_high_value_intent EventLog.record_entry
        EventLog.record_recovery_state_changed EventLog.record_session_invalidated
        EventLog.record_intent_executed EventLog.record_high_value_intent
    foreign w (recovery i s g b n) o =
        let a = (on_recovery_state_changed hex w i s g b n).1 in
        (
          rw o refl,
          rw o refl,
          elim (Bool-cases (alarming a.severity)) [
            | inl loud ↦ rw loud (of_notices-notices a (members_of w.known_guardians i) ∙ rw o refl)
            | inr quiet ↦ rw quiet refl
          ],
        )
    foreign w (delegation i d s b n) o = (rw o refl, refl, refl)
    foreign w (session i e b n) o = (rw o refl, rw o refl, refl)
    foreign w (intent i k s b n) o = (rw o refl, rw o refl, refl)
    foreign w (offline i k b n) o = (rw o refl, refl, refl)
    foreign w (high_value i k v s b n) o = elim (Bool-cases (ignored w v)) [
      | inl low ↦ rw low (refl, refl, refl)
      | inr high ↦
          rw high (
            rw o refl,
            rw o refl,
            of_notices-notices _ (members_of w.known_guardians i) ∙ rw o refl,
          )
    ]
    foreign w (guardians i gs) o = (refl, refl, refl)
    foreign w (delegate i d) o = (refl, refl, refl)
    foreign w drain o = (refl, refl, refl)

guardian_known_same :
    (w w' : IdentityWatcher) (i : Bytes) (g : Option Bytes)
    → members_of w.known_guardians i ≡ members_of w'.known_guardians i
    → guardian_known w i g ≡ guardian_known w' i g
unfolding guardian_known is_known_guardian
guardian_known_same w w' i none h = refl
guardian_known_same w w' i (some g) h =
    sym (member-members_of w.known_guardians i g)
    ∙ ap (member g) h
    ∙ member-members_of w'.known_guardians i g

module _ (hex : Bytes → String) (w w' : IdentityWatcher) (i : Bytes) where
  recovery_same :
      (s : String) (g : Option Bytes) (b n : ℕ)
      → guardian_known w i g ≡ guardian_known w' i g
      → (on_recovery_state_changed hex w i s g b n).1
        ≡ (on_recovery_state_changed hex w' i s g b n).1
  unfolding on_recovery_state_changed recovery_alert
  recovery_same s g b n h = rw h refl

  delegation_same :
      (d s : Bytes) (b n : ℕ)
      → is_known_delegate w i d ≡ is_known_delegate w' i d
      → (on_delegation_endorsed hex w i d s b n).1 ≡ (on_delegation_endorsed hex w' i d s b n).1
  unfolding on_delegation_endorsed
  delegation_same d s b n h = rw h refl

-- Of an event about the identity, two traces that hold the same of it get the same outputs.
module _ (hex : Bytes → String) (j : Bytes) (t u : Trace) (h : SameView j t u) where
  pub same_outputs :
      (e : Event)
      → concerns j e ≡ true
      → (alerts_of hex t.watcher e ≡ alerts_of hex u.watcher e)
        × (logged_by hex t.watcher e ≡ logged_by hex u.watcher e)
        × (notices_of hex t.watcher e ≡ notices_of hex u.watcher e)
  unfolding on_session_invalidated on_intent_executed on_offline_session_detected
      on_high_value_intent
  same_outputs (recovery i s g b n) o =
      let p = (bytes_eq_iff i j).0 o in
      let gs : members_of t.watcher.known_guardians i ≡ members_of u.watcher.known_guardians i =
        rw p h.guardians in
      let same =
        recovery_same hex t.watcher u.watcher i s g b n
          (guardian_known_same t.watcher u.watcher i g gs) in
      (rw same refl, refl, rw (same, gs) refl)
  same_outputs (delegation i d s b n) o =
      let p = (bytes_eq_iff i j).0 o in
      let known : is_known_delegate t.watcher i d ≡ is_known_delegate u.watcher i d =
        rw p (h.delegates d) in
      (rw (delegation_same hex t.watcher u.watcher i d s b n known) refl, refl, refl)
  same_outputs (session i e b n) o = (refl, refl, refl)
  same_outputs (intent i k s b n) o = (refl, refl, refl)
  same_outputs (offline i k b n) o = (refl, refl, refl)
  same_outputs (high_value i k v s b n) o =
      let p = (bytes_eq_iff i j).0 o in
      let gs : members_of t.watcher.known_guardians i ≡ members_of u.watcher.known_guardians i =
        rw p h.guardians in
      let same : ignored t.watcher v ≡ ignored u.watcher v =
        ap (λ (c : WatcherConfig). c.high_value_threshold == 0 || ltb v c.high_value_threshold)
          h.threshold in
      elim (Bool-cases (ignored u.watcher v)) [
        | inl low ↦ rw (same ∙ low, low) (refl, refl, refl)
        | inr high ↦ rw (same ∙ high, high) (refl, refl, ap (notices _) gs)
      ]
  same_outputs (guardians i gs) o = (refl, refl, refl)
  same_outputs (delegate i d) o = (refl, refl, refl)
  same_outputs drain o = (refl, refl, refl)

pub members_of-append :
    (entries : List (Bytes × List Bytes)) (i : Bytes) (gs : List Bytes) (j : Bytes)
    → members_of (entries ++ (i, gs) ∷ []) j
      ≡ members_of entries j ++ (if bytes_eq i j then gs else [])
unfolding members_of
members_of-append [] i gs j = ground (arith, append-nil gs)
members_of-append ((id, ms) ∷ entries) i gs j = ground (
  arith,
  members_of-append entries i gs j,
  append_assoc ms (members_of entries j) (if bytes_eq i j then gs else []),
)
