-- ===== src/Monitor/EventLog/Queries.antt =====
-- The queries of `EventLog` (src/monitor/mod.rs).
use huntkey.Prelude.{
  ℕ, ◌≡◌, ◌+◌, refl, Bool, Bool-cases, inl, inr, if◌then◌else◌, List, [], ◌∷◌, filter, length,
  arith,
}
use huntkey.Monitor.EventLog.{
  EventType, intent_executed, session_invalidated, recovery_state_changed, delegation_endorsed,
  high_value_intent, EventLogEntry, EventLog, event_type_eq, entries_by_type, len,
}

abbrev bit : Bool → ℕ
bit b = if b then 1 else 0

one_type :
    (t : EventType)
    → bit (event_type_eq t intent_executed)
        + bit (event_type_eq t session_invalidated)
        + bit (event_type_eq t recovery_state_changed)
        + bit (event_type_eq t delegation_endorsed)
        + bit (event_type_eq t high_value_intent)
      ≡ 1
one_type intent_executed = refl
one_type session_invalidated = refl
one_type recovery_state_changed = refl
one_type delegation_endorsed = refl
one_type high_value_intent = refl

length-filter_cons :
    (p : EventLogEntry → Bool) (e : EventLogEntry) (es : List EventLogEntry)
    → length (filter p (e ∷ es)) ≡ bit (p e) + length (filter p es)
length-filter_cons p e es = elim (Bool-cases (p e)) [
  | inl hit ↦ rw hit (omega arith)
  | inr miss ↦ rw miss (omega arith)
]

count_types :
    (es : List EventLogEntry)
    → length (filter (λ e. event_type_eq e.event_type intent_executed) es)
        + length (filter (λ e. event_type_eq e.event_type session_invalidated) es)
        + length (filter (λ e. event_type_eq e.event_type recovery_state_changed) es)
        + length (filter (λ e. event_type_eq e.event_type delegation_endorsed) es)
        + length (filter (λ e. event_type_eq e.event_type high_value_intent) es)
      ≡ length es
count_types [] = refl
count_types (e ∷ es) = omega (
  arith,
  count_types es,
  one_type e.event_type,
  length-filter_cons (λ x. event_type_eq x.event_type intent_executed) e es,
  length-filter_cons (λ x. event_type_eq x.event_type session_invalidated) e es,
  length-filter_cons (λ x. event_type_eq x.event_type recovery_state_changed) e es,
  length-filter_cons (λ x. event_type_eq x.event_type delegation_endorsed) e es,
  length-filter_cons (λ x. event_type_eq x.event_type high_value_intent) e es,
)

-- The entries by type are a partition: the five queries return together as many entries as the log
-- has.
entries_by_type-lengths :
    (log : EventLog)
    → length (entries_by_type log intent_executed)
        + length (entries_by_type log session_invalidated)
        + length (entries_by_type log recovery_state_changed)
        + length (entries_by_type log delegation_endorsed)
        + length (entries_by_type log high_value_intent)
      ≡ len log
unfolding entries_by_type len
entries_by_type-lengths log = count_types log.entries
