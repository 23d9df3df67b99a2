-- ===== src/Monitor/Handlers/Trace/Snapshots.antt =====
-- The dashboard's metrics after a run of the watcher (src/monitor/mod.rs).
use text.Mathlib.Text.{◌==◌ as str_eq}
use huntkey.Prelude.{
  ℕ, ◌≡◌, ◌∙◌, refl, Bool, true, false, ◌&&◌, ◌||◌, not, none, some, String, List, [], ◌∷◌, ◌++◌,
  filter, filter-append, length, length-append, leb, ltb, ◌==◌, Bool-cases, inl, inr, if◌then◌else◌,
  arith, map-append,
}
use huntkey.Prelude.Bytes.{Bytes}
use huntkey.Prelude.Members.{dedup}
use huntkey.Monitor.EventLog.{
  intent_executed, session_invalidated, high_value_intent, event_type_eq, EventLogEntry,
  entries_by_type,
}
use huntkey.Monitor.Dashboard.{snapshot}
use huntkey.Monitor.Dashboard.Metrics.{recovery_entry, identities_of, snapshot_lem}
use huntkey.Monitor.Handlers.Trace.{
  Event, guardians, delegate, recovery, delegation, session, intent, offline, high_value, drain,
  Trace, run,
}
use huntkey.Monitor.Handlers.Trace.Records.{entries_of, threshold_of, logs, log_of, run-log}

-- What the calls are, for the metrics.
abbrev pub is_intent : Event → Bool
is_intent (intent i k s b n) = true
is_intent _ = false

abbrev pub is_session : Event → Bool
is_session (session i e b n) = true
is_session _ = false

abbrev pub starts_recovery : Event → Bool
starts_recovery (recovery i s g b n) = str_eq s "RecoveryPending"
starts_recovery _ = false

abbrev pub is_high : ℕ → Event → Bool
is_high threshold (high_value i k v s b n) = not (threshold == 0) && leb threshold v
is_high threshold _ = false

-- The identity of a call that is logged.
abbrev pub subject : ℕ → Event → List Bytes
subject threshold (recovery i s g b n) = i ∷ []
subject threshold (session i e b n) = i ∷ []
subject threshold (intent i k s b n) = i ∷ []
subject threshold (high_value i k v s b n) =
    if not (threshold == 0) && leb threshold v then i ∷ [] else []
subject threshold _ = []

pub subjects : ℕ → List Event → List Bytes
subjects threshold [] = []
subjects threshold (e ∷ es) = subject threshold e ++ subjects threshold es

module _ (hex : Bytes → String) (threshold : ℕ) where
  -- Entries are counted as the calls are, if one call's entries are.
  count_log :
      (q : EventLogEntry → Bool) (p : Event → Bool)
      → ((e : Event) → length (filter q (logs hex threshold e)) ≡ length (filter p (e ∷ [])))
      → (es : List Event) → length (filter q (log_of hex threshold es)) ≡ length (filter p es)
  unfolding log_of
  count_log q p h [] = refl
  count_log q p h (e ∷ es) =
      rw (filter-append, length-append, h e, count_log q p h es) (ground arith)

  share :
      (e : Event)
      → let es = logs hex threshold e in
        (length (filter (λ x. event_type_eq x.event_type intent_executed) es)
          ≡ length (filter is_intent (e ∷ [])))
        × (length (filter (λ x. event_type_eq x.event_type high_value_intent) es)
            ≡ length (filter (is_high threshold) (e ∷ [])))
        × (length (filter (λ x. event_type_eq x.event_type session_invalidated) es)
            ≡ length (filter is_session (e ∷ [])))
        × (length (filter recovery_entry es) ≡ length (filter starts_recovery (e ∷ [])))
        × (identities_of es ≡ subject threshold e)
  share (recovery i s none b n) = elim (Bool-cases (str_eq s "RecoveryPending")) [
    | inl pending ↦ rw pending (refl, refl, refl, refl, refl)
    | inr other ↦ rw other (refl, refl, refl, refl, refl)
  ]
  share (recovery i s (some g) b n) = elim (Bool-cases (str_eq s "RecoveryPending")) [
    | inl pending ↦ rw pending (refl, refl, refl, refl, refl)
    | inr other ↦ rw other (refl, refl, refl, refl, refl)
  ]
  share (session i e b n) = (refl, refl, refl, refl, refl)
  share (intent i k s b n) = (refl, refl, refl, refl, refl)
  share (high_value i k v s b n) = elim (Bool-cases (threshold == 0 || ltb v threshold)) [
    | inl low ↦
        let small : (not (threshold == 0) && leb threshold v) ≡ false = ground arith in
        rw (low, small) (refl, refl, refl, refl, refl)
    | inr high ↦
        let large : (not (threshold == 0) && leb threshold v) ≡ true = ground arith in
        rw (high, large) (refl, refl, refl, refl, refl)
  ]
  share (guardians i gs) = (refl, refl, refl, refl, refl)
  share (delegate i d) = (refl, refl, refl, refl, refl)
  share (delegation i d s b n) = (refl, refl, refl, refl, refl)
  share (offline i k b n) = (refl, refl, refl, refl, refl)
  share drain = (refl, refl, refl, refl, refl)

  identities-log_of :
      (es : List Event) → identities_of (log_of hex threshold es) ≡ subjects threshold es
  unfolding log_of subjects
  identities-log_of [] = refl
  identities-log_of (e ∷ es) =
      map-append (λ x. x.identity) (logs hex threshold e) (log_of hex threshold es)
      ∙ rw ((share e).4, identities-log_of es) refl

-- If the event log was empty before a run of the watcher, a snapshot after it counts the calls: its
-- executed intents are the execution events; its high-value intents the values that reach a
-- threshold other than 0; its revoked sessions the session events; its pending recoveries the
-- recovery events whose new state is `RecoveryPending`; and its active identities the different
-- identities of the recovery, session and execution events and of those values.
pub run-snapshot :
    (hex : Bytes → String) (t : Trace) (es : List Event) (now : ℕ)
    → entries_of t ≡ []
    → let snap = snapshot (run hex t es).watcher.event_log now in
      (snap.executed_intents ≡ length (filter is_intent es))
      × (snap.high_value_intents ≡ length (filter (is_high (threshold_of t)) es))
      × (snap.revoked_sessions ≡ length (filter is_session es))
      × (snap.pending_recoveries ≡ length (filter starts_recovery es))
      × (snap.active_identities ≡ length (dedup (subjects (threshold_of t) es)))
unfolding entries_by_type
run-snapshot hex t es now empty =
    let log = (run hex t es).watcher.event_log in
    let written : entries_of (run hex t es) ≡ log_of hex (threshold_of t) es =
      run-log hex t es ∙ rw empty refl in
    let (active, executed, high, revoked, pending, stamp) = snapshot_lem log now in
    let count = count_log hex (threshold_of t) in
    let parts = share hex (threshold_of t) in
    (
      executed ∙ rw written (count _ is_intent (λ e. (parts e).0) es),
      high ∙ rw written (count _ (is_high (threshold_of t)) (λ e. (parts e).1) es),
      revoked ∙ rw written (count _ is_session (λ e. (parts e).2) es),
      pending ∙ rw written (count _ starts_recovery (λ e. (parts e).3) es),
      active ∙ rw written (rw (identities-log_of hex (threshold_of t) es) refl),
    )
