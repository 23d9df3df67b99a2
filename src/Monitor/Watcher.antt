-- ===== src/Monitor/Watcher.antt =====
-- `IdentityWatcher` of src/monitor/mod.rs: its state, its registries and its queries.
pub mod Registry
use huntkey.Prelude.{
  ℕ, Bool, true, false, ◌&&◌, List, [], ◌∷◌, ◌++◌, String, any, filter, map, if◌then◌else◌,
}
use huntkey.Prelude.Bytes.{Bytes, bytes_eq}
use huntkey.Monitor.EventLog
use huntkey.Monitor.EventLog.{EventLog}

pub data AlertSeverity : Type 0 where
  info warning critical : AlertSeverity

abbrev pub severity_eq : AlertSeverity → AlertSeverity → Bool
severity_eq info info = true
severity_eq warning warning = true
severity_eq critical critical = true
severity_eq _ _ = false

pub data AlertCategory : Type 0 where
  recovery_initiated recovery_finalized recovery_cancelled identity_frozen identity_unfrozen
        delegation_issued unknown_delegation sessions_invalidated execution_recorded
        offline_session_detected high_value_intent :
      AlertCategory

pub record SecurityAlert : Type 0 where
  pub severity : AlertSeverity
  pub category : AlertCategory
  pub message : String
  pub identity : Bytes
  pub block_number : ℕ
  pub timestamp : ℕ

pub record GuardianNotification : Type 0 where
  pub guardian : Bytes
  pub alert : SecurityAlert

pub record WatcherConfig : Type 0 where
  pub high_value_threshold : ℕ

pub record IdentityWatcher : Type 0 where
  pub known_guardians : List (Bytes × List Bytes)
  pub known_delegates : List (Bytes × List Bytes)
  pub alerts : List SecurityAlert
  pub pending_notifications : List GuardianNotification
  pub config : WatcherConfig
  pub event_log : EventLog

unfoldable pub with_config : WatcherConfig → IdentityWatcher
with_config config = record {
  known_guardians = [];
  known_delegates = [];
  alerts = [];
  pending_notifications = [];
  config = config;
  event_log = EventLog.new;
}

unfoldable pub new : IdentityWatcher
unfolding with_config
new = with_config (record { high_value_threshold = 0 })

unfoldable pub register_guardians : IdentityWatcher → Bytes → List Bytes → IdentityWatcher
register_guardians w identity guardians = record w {
  known_guardians = w.known_guardians ++ (identity, guardians) ∷ [];
}

-- The delegate joins the first entry of its identity, or a new entry at the end.
add_delegate : List (Bytes × List Bytes) → Bytes → Bytes → List (Bytes × List Bytes)
add_delegate [] identity delegate = (identity, delegate ∷ []) ∷ []
add_delegate ((id, ds) ∷ entries) identity delegate =
    if bytes_eq id identity
    then (id, ds ++ delegate ∷ []) ∷ entries
    else (id, ds) ∷ add_delegate entries identity delegate

unfoldable pub register_delegate : IdentityWatcher → Bytes → Bytes → IdentityWatcher
unfolding add_delegate
register_delegate w identity delegate = record w {
  known_delegates = add_delegate w.known_delegates identity delegate;
}

-- Some entry of the identity lists the member.
abbrev pub lists : List (Bytes × List Bytes) → Bytes → Bytes → Bool
lists entries identity member =
    any (λ (id, members). bytes_eq id identity && any (bytes_eq member) members) entries

unfoldable pub is_known_guardian : IdentityWatcher → Bytes → Bytes → Bool
is_known_guardian w identity guardian = lists w.known_guardians identity guardian

unfoldable pub is_known_delegate : IdentityWatcher → Bytes → Bytes → Bool
is_known_delegate w identity delegate = lists w.known_delegates identity delegate

-- The members of every entry of the identity, in order.
unfoldable pub members_of : List (Bytes × List Bytes) → Bytes → List Bytes
members_of [] identity = []
members_of ((id, members) ∷ entries) identity =
    let rest = members_of entries identity in if bytes_eq id identity then members ++ rest else rest

unfoldable pub notify_guardians : IdentityWatcher → Bytes → SecurityAlert → IdentityWatcher
unfolding members_of
notify_guardians w identity alert = record w {
  pending_notifications =
      w.pending_notifications
      ++ map (λ g. record { guardian = g; alert = alert }) (members_of w.known_guardians identity);
}

-- The drained queue, and the watcher with an empty one.
unfoldable pub drain_notifications : IdentityWatcher → List GuardianNotification × IdentityWatcher
drain_notifications w = (w.pending_notifications, record w { pending_notifications = [] })

unfoldable pub alerts_by_severity : IdentityWatcher → AlertSeverity → List SecurityAlert
alerts_by_severity w severity = filter (λ a. severity_eq a.severity severity) w.alerts

unfoldable pub alerts_for_identity : IdentityWatcher → Bytes → List SecurityAlert
alerts_for_identity w identity = filter (λ a. bytes_eq a.identity identity) w.alerts

unfoldable pub clear_alerts : IdentityWatcher → IdentityWatcher
clear_alerts w = record w { alerts = [] }

-- A change of the event log through `event_log_mut`.
unfoldable pub event_log_mut : (EventLog → EventLog) → IdentityWatcher → IdentityWatcher
event_log_mut change w = record w { event_log = change w.event_log }
