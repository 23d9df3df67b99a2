-- ===== src/Monitor/Dashboard/Export.antt =====
-- `export_dashboard_state` (src/monitor/mod.rs): the text determines the metrics.
use text.Mathlib.TextLemmas
use huntkey.Prelude.{
  ℕ, ◌≡◌, ◌≤◌, refl, Bool, String, ◌<>◌, List, [], ◌∷◌, filter, length, IsU64, arith,
}
use huntkey.Prelude.Bytes.{Bytes}
use huntkey.Prelude.Decimal.{to_decimal, to_decimal-Free}
use huntkey.Prelude.Members.{dedup}
use huntkey.Prelude.Texts.{split}
use huntkey.Monitor.EventLog.{EventLogEntry, EventLog, entries_by_type}
use huntkey.Monitor.EventLog.Injective.{to_decimal_inj}
use huntkey.Monitor.Dashboard.{DashboardSnapshot, snapshot, export_json, export_dashboard_state}
use huntkey.Monitor.Dashboard.Metrics.{identities_of, snapshot_lem}

length-filter-le {ℓ} : {A : Type ℓ} (p : A → Bool) (xs : List A) → length (filter p xs) ≤ length xs
length-filter-le p [] = omega arith
length-filter-le p (x ∷ xs) = ground (arith, length-filter-le p xs)

length-dedup-le : (xs : List Bytes) → length (dedup xs) ≤ length xs
unfolding dedup
length-dedup-le [] = omega arith
length-dedup-le (x ∷ xs) = ground (arith, length-dedup-le xs)

length-identities_of : (es : List EventLogEntry) → length (identities_of es) ≡ length es
length-identities_of [] = refl
length-identities_of (e ∷ es) = omega (arith, length-identities_of es)

-- The numbers of a snapshot are of 64 bits.
record IsBounded (snap : DashboardSnapshot) : Type 0 where
  active_identities : IsU64 snap.active_identities
  pending_recoveries : IsU64 snap.pending_recoveries
  executed_intents : IsU64 snap.executed_intents
  high_value_intents : IsU64 snap.high_value_intents
  revoked_sessions : IsU64 snap.revoked_sessions
  snapshot_timestamp : IsU64 snap.snapshot_timestamp

snapshot-IsBounded :
    (log : EventLog) (timestamp : ℕ)
    → IsU64 (length log.entries)
    → IsU64 timestamp
    → IsBounded (snapshot log timestamp)
unfolding entries_by_type
snapshot-IsBounded log timestamp h ht =
    let (active, executed, high, revoked, pending, stamp) = snapshot_lem log timestamp in
    let counted = λ (p : EventLogEntry → Bool). length-filter-le p log.entries in
    record {
      active_identities =
          omega
            (arith, length-dedup-le (identities_of log.entries), length-identities_of log.entries);
      pending_recoveries = omega (arith, counted _);
      executed_intents = omega (arith, counted _);
      high_value_intents = omega (arith, counted _);
      revoked_sessions = omega (arith, counted _);
      snapshot_timestamp = omega arith;
    }

-- A number, up to the comma behind it.
number_inj :
    {m n : ℕ} (x y : String)
    → IsU64 m
    → IsU64 n
    → to_decimal m <> (",\n" <> x) ≡ to_decimal n <> (",\n" <> y)
    → (m ≡ n) × (x ≡ y)
number_inj {m} {n} x y h k e =
    let (digits, rests) =
      split "," "\n" (to_decimal m) (to_decimal n) x y (to_decimal-Free 44 m (omega arith))
        (to_decimal-Free 44 n (omega arith)) e in
    (to_decimal_inj h k digits, rests)

-- Of logs with fewer than 2^64 entries and 64-bit times, two equal exports of the dashboard show
-- the same snapshot: the same five metrics and the same time.
pub export_dashboard_state_inj :
    (log log' : EventLog) (timestamp timestamp' : ℕ)
    → IsU64 (length log.entries)
    → IsU64 (length log'.entries)
    → IsU64 timestamp
    → IsU64 timestamp'
    → export_dashboard_state log timestamp ≡ export_dashboard_state log' timestamp'
    → snapshot log timestamp ≡ snapshot log' timestamp'
unfolding export_dashboard_state export_json
export_dashboard_state_inj log log' timestamp timestamp' h h' ht ht' same =
    let s = snapshot-IsBounded log timestamp h ht in
    let s' = snapshot-IsBounded log' timestamp' h' ht' in
    let cut = λ (s x y : String). TextLemmas.append_cancel_left s x y in
    let (active, e₁) =
      number_inj _ _ s.active_identities s'.active_identities
        (cut "  \"active_identities\": " _ _ (cut "{\n" _ _ same)) in
    let (pending, e₂) =
      number_inj _ _ s.pending_recoveries s'.pending_recoveries
        (cut "  \"pending_recoveries\": " _ _ e₁) in
    let (executed, e₃) =
      number_inj _ _ s.executed_intents s'.executed_intents
        (cut "  \"executed_intents\": " _ _ e₂) in
    let (high, e₄) =
      number_inj _ _ s.high_value_intents s'.high_value_intents
        (cut "  \"high_value_intents\": " _ _ e₃) in
    let (revoked, e₅) =
      number_inj _ _ s.revoked_sessions s'.revoked_sessions
        (cut "  \"revoked_sessions\": " _ _ e₄) in
    let stamp =
      to_decimal_inj s.snapshot_timestamp s'.snapshot_timestamp
        (TextLemmas.append_cancel_right _ _ "\n}" (cut "  \"snapshot_timestamp\": " _ _ e₅)) in
    λ i. record {
      active_identities = active i;
      pending_recoveries = pending i;
      executed_intents = executed i;
      high_value_intents = high i;
      revoked_sessions = revoked i;
      snapshot_timestamp = stamp i;
    }
