-- ===== src/Monitor/Dashboard/Metrics.antt =====
-- What the dashboard counts (src/monitor/mod.rs).
use text.Mathlib.Text.{◌==◌ as str_eq}
use huntkey.Prelude.{
  ℕ, ◌+◌, ◌≡◌, ◌∙◌, sym, refl, Bool, true, false, ◌&&◌, ◌||◌, or-false, String, Option, none, some,
  List, [], ◌∷◌, map, arith, filter, filter-append, length, length-append, ltb, leb, if◌then◌else◌,
  Distinct, Bool-cases, inl, inr,
}
use huntkey.Prelude.Bytes.{Bytes, bytes_eq, bytes_eq_iff}
use huntkey.Prelude.Members.{member, All-ne_of_not_member, dedup, length-eq-dedup}
use huntkey.Monitor.EventLog.{
  intent_executed, session_invalidated, recovery_state_changed, high_value_intent, EventType,
  event_type_eq, EventLogEntry, EventLog, entries_by_type, record_entry, guardian_metadata,
  record_recovery_state_changed,
}
use huntkey.Monitor.Dashboard.{
  Counts, no_counts, insert, enters_recovery, tally, tally_all, snapshot, tally_range,
  snapshot_in_range, entries_in_range,
}

module _ (from to : ℕ) where
  abbrev in_range : EventLogEntry → Bool
  in_range e = leb from e.timestamp && leb e.timestamp to

  tally_range-filter :
      (c : Counts) (es : List EventLogEntry)
      → tally_range from to c es ≡ tally_all c (filter in_range es)
  unfolding tally_range tally_all
  tally_range-filter c [] = refl
  tally_range-filter c (e ∷ es) = elim (Bool-cases (in_range e)) [
    | inl kept ↦
        let counted : (ltb e.timestamp from || ltb to e.timestamp) ≡ false = ground arith in
        rw (kept, counted) (tally_range-filter (tally c e) es)
    | inr dropped ↦
        let passed : (ltb e.timestamp from || ltb to e.timestamp) ≡ true = ground arith in
        rw (dropped, passed) (tally_range-filter c es)
  ]

-- The snapshot of a time range is the snapshot of the log's entries in that range.
pub snapshot_in_range_lem :
    (log : EventLog) (from to timestamp : ℕ)
    → snapshot_in_range log from to timestamp
      ≡ snapshot (record { entries = entries_in_range log from to }) timestamp
unfolding snapshot_in_range snapshot entries_in_range
snapshot_in_range_lem log from to timestamp = rw (tally_range-filter from to no_counts log.entries)

abbrev count_type : EventType → List EventLogEntry → ℕ
count_type ty es = length (filter (λ e. event_type_eq e.event_type ty) es)

-- A recovery event whose metadata say `RecoveryPending`.
abbrev pub recovery_entry : EventLogEntry → Bool
recovery_entry e = event_type_eq e.event_type recovery_state_changed && enters_recovery e.metadata

-- One round of the loop raises each counter by the entry's share.
tally_lem :
    (c : Counts) (e : EventLogEntry)
    → let c' = tally c e in
      (c'.executed_intents ≡ c.executed_intents + count_type intent_executed (e ∷ []))
      × (c'.high_value_intents ≡ c.high_value_intents + count_type high_value_intent (e ∷ []))
      × (c'.revoked_sessions ≡ c.revoked_sessions + count_type session_invalidated (e ∷ []))
      × (c'.pending_recoveries ≡ c.pending_recoveries + length (filter recovery_entry (e ∷ [])))
      × (c'.identities ≡ insert e.identity c.identities)
unfolding tally
tally_lem c e = ground arith

tally_all_lem :
    (c : Counts) (es : List EventLogEntry)
    → let c' = tally_all c es in
      (c'.executed_intents ≡ c.executed_intents + count_type intent_executed es)
      × (c'.high_value_intents ≡ c.high_value_intents + count_type high_value_intent es)
      × (c'.revoked_sessions ≡ c.revoked_sessions + count_type session_invalidated es)
      × (c'.pending_recoveries ≡ c.pending_recoveries + length (filter recovery_entry es))
unfolding tally_all
tally_all_lem c [] = omega arith
tally_all_lem c (e ∷ es) = ground (arith, tally_lem c e, tally_all_lem (tally c e) es)

insert-Distinct : (x : Bytes) (set : List Bytes) → Distinct set → Distinct (insert x set)
unfolding insert
insert-Distinct x set d = elim (Bool-cases (member x set)) [
  | inl old ↦ rw old d
  | inr new ↦ rw new (All-ne_of_not_member x set new, d)
]

member-insert :
    (g x : Bytes) (set : List Bytes) → member g (insert x set) ≡ (bytes_eq g x || member g set)
unfolding insert
member-insert g x set = elim (Bool-cases (member x set)) [
  | inl old ↦ rw old (ground (arith, old, bytes_eq_iff g x))
  | inr new ↦ rw new
]

abbrev pub identities_of : List EventLogEntry → List Bytes
identities_of = map (λ e. e.identity)

tally_all-identities :
    (c : Counts) (es : List EventLogEntry)
    → Distinct c.identities
    → Distinct (tally_all c es).identities
      × ((g : Bytes)
          → member g (tally_all c es).identities
            ≡ (member g c.identities || member g (identities_of es)))
unfolding tally_all
tally_all-identities c [] d = (d, λ g. or-false (member g c.identities))
tally_all-identities c (e ∷ es) d =
    let ids : (tally c e).identities ≡ insert e.identity c.identities = (tally_lem c e).4 in
    let (ds, same) =
      tally_all-identities (tally c e) es (rw ids (insert-Distinct e.identity c.identities d)) in
    (
      ds,
      λ g.
          same g
          ∙ rw (ids, member-insert) (or_swap (bytes_eq g e.identity) (member g c.identities) _),
    )
  where
    or_swap : (a b c : Bool) → ((a || b) || c) ≡ (b || (a || c))
    or_swap true true c = refl
    or_swap true false c = refl
    or_swap false true c = refl
    or_swap false false c = refl

-- A snapshot counts: the different identities of the log's entries; its executed intents, its
-- high-value intents and its session invalidations, by event type; and every recovery event whose
-- metadata say `RecoveryPending`. It carries the given timestamp.
pub snapshot_lem :
    (log : EventLog) (timestamp : ℕ)
    → let snap = snapshot log timestamp in
      (snap.active_identities ≡ length (dedup (identities_of log.entries)))
      × (snap.executed_intents ≡ length (entries_by_type log intent_executed))
      × (snap.high_value_intents ≡ length (entries_by_type log high_value_intent))
      × (snap.revoked_sessions ≡ length (entries_by_type log session_invalidated))
      × (snap.pending_recoveries ≡ length (filter recovery_entry log.entries))
      × (snap.snapshot_timestamp ≡ timestamp)
unfolding snapshot entries_by_type
snapshot_lem log timestamp =
    let (ds, same) = tally_all-identities no_counts log.entries tt in
    let (executed, high, revoked, pending) = tally_all_lem no_counts log.entries in
    (
      length-eq-dedup (tally_all no_counts log.entries).identities (identities_of log.entries) ds
          same,
      omega arith,
      omega arith,
      omega arith,
      omega arith,
      refl,
    )

-- The entry of a recovery state change counts if the new state is `RecoveryPending`.
recovery_entry_share :
    (hex : Bytes → String) (new_state : String) (guardian : Option Bytes)
    → enters_recovery (("new_state", new_state) ∷ guardian_metadata hex guardian)
      ≡ str_eq new_state "RecoveryPending"
unfolding guardian_metadata
recovery_entry_share hex new_state none = sym (or-false (str_eq new_state "RecoveryPending"))
recovery_entry_share hex new_state (some g) = sym (or-false (str_eq new_state "RecoveryPending"))

-- A recorded recovery state change raises the number of pending recoveries by one if the new state
-- is `RecoveryPending`, and else leaves it: no later state takes a recovery out of the count.
pending_recoveries-record :
    (hex : Bytes → String) (log : EventLog) (identity : Bytes) (new_state : String)
    (guardian : Option Bytes) (block timestamp now : ℕ)
    → let log' =
        record_recovery_state_changed hex log identity new_state guardian block timestamp in
      (snapshot log' now).pending_recoveries
      ≡ (snapshot log now).pending_recoveries
        + (if str_eq new_state "RecoveryPending" then 1 else 0)
unfolding record_recovery_state_changed record_entry
pending_recoveries-record hex log identity new_state guardian block timestamp now =
    let log' = record_recovery_state_changed hex log identity new_state guardian block timestamp in
    rw
      (
        (snapshot_lem log' now).4,
        (snapshot_lem log now).4,
        filter-append,
        length-append,
        recovery_entry_share hex new_state guardian,
      )
      (ground arith)
