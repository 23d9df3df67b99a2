-- ===== src/Monitor/Interface/Refinement.antt =====
-- `IdentityWatcher` of src/monitor/mod.rs keeps what its interface promises.
use huntkey.Prelude.{filter, ℕ, ◌≡◌, refl, ap, String, List, [], ◌∷◌, ◌++◌}
use huntkey.Prelude.Bytes.{Bytes, bytes_eq}
use huntkey.Monitor.EventLog
use huntkey.Monitor.Watcher
use huntkey.Monitor.Watcher.{
  severity_eq, SecurityAlert, IdentityWatcher, WatcherConfig, with_config, register_guardians,
  register_delegate, drain_notifications, members_of, is_known_guardian, is_known_delegate,
  event_log_mut, alerts_by_severity, alerts_for_identity,
}
use huntkey.Monitor.Handlers.Trace.{
  guardians, delegate, recovery, delegation, session, intent, offline, high_value, drain,
}
use huntkey.Monitor.Interface.{
  Request, handle, clear_alerts, record_entry, clear_log, alerts, by_severity, for_identity,
  event_log, respond, answers, alerted, listed, drained, logged,
}
use huntkey.Monitor.Interface.History.{History, guardians_of, has_delegate}
use huntkey.Monitor.Interface.Promise.{alerts_since, entries_since, notices_since, reply, promised}
use huntkey.Monitor.Interface.Steps.{handle-Tracks}
use huntkey.Monitor.Interface.Tracks.{Tracks, returned-alert_of}

module _ (hex : Bytes → String) (threshold : ℕ) where
  respond-Tracks :
      {w : IdentityWatcher} {h : History} (r : Request)
      → Tracks hex threshold w h
      → Tracks hex threshold (respond hex w r).0 (r ∷ h)
  unfolding respond guardians_of has_delegate alerts_since entries_since notices_since event_log_mut
      Watcher.clear_alerts EventLog.record_entry EventLog.clear is_known_delegate
  respond-Tracks (handle e) t = handle-Tracks hex threshold e t
  respond-Tracks clear_alerts t = record {
    shows = record {
      config = t.shows.config;
      known_guardians = t.shows.known_guardians;
      known_delegates = t.shows.known_delegates;
      alerts = refl;
      entries = t.shows.entries;
      pending = t.shows.pending;
    };
  }
  respond-Tracks (record_entry entry) t = record {
    shows = record {
      config = t.shows.config;
      known_guardians = t.shows.known_guardians;
      known_delegates = t.shows.known_delegates;
      alerts = t.shows.alerts;
      entries = ap (λ es. es ++ entry ∷ []) t.shows.entries;
      pending = t.shows.pending;
    };
  }
  respond-Tracks clear_log t = record {
    shows = record {
      config = t.shows.config;
      known_guardians = t.shows.known_guardians;
      known_delegates = t.shows.known_delegates;
      alerts = t.shows.alerts;
      entries = refl;
      pending = t.shows.pending;
    };
  }
  respond-Tracks alerts t = record { shows = t.shows }
  respond-Tracks (by_severity s) t = record { shows = t.shows }
  respond-Tracks (for_identity i) t = record { shows = t.shows }
  respond-Tracks event_log t = record { shows = t.shows }

  respond-reply :
      {w : IdentityWatcher} {h : History} (r : Request)
      → Tracks hex threshold w h
      → (respond hex w r).1 ≡ reply hex threshold h r
  unfolding respond reply alerts_by_severity alerts_for_identity drain_notifications
  respond-reply (handle (guardians i gs)) t = refl
  respond-reply (handle (delegate i d)) t = refl
  respond-reply (handle drain) t = ap drained t.shows.pending
  respond-reply (handle (recovery i s g b n)) t =
      ap alerted (returned-alert_of hex threshold (recovery i s g b n) t)
  respond-reply (handle (delegation i d s b n)) t =
      ap alerted (returned-alert_of hex threshold (delegation i d s b n) t)
  respond-reply (handle (session i e b n)) t =
      ap alerted (returned-alert_of hex threshold (session i e b n) t)
  respond-reply (handle (intent i k s b n)) t =
      ap alerted (returned-alert_of hex threshold (intent i k s b n) t)
  respond-reply (handle (offline i k b n)) t =
      ap alerted (returned-alert_of hex threshold (offline i k b n) t)
  respond-reply (handle (high_value i k v s b n)) t =
      ap alerted (returned-alert_of hex threshold (high_value i k v s b n) t)
  respond-reply clear_alerts t = refl
  respond-reply (record_entry entry) t = refl
  respond-reply clear_log t = refl
  respond-reply alerts t = ap listed t.shows.alerts
  respond-reply (by_severity s) t =
      ap (λ as'. listed (filter (λ a. severity_eq a.severity s) as')) t.shows.alerts
  respond-reply (for_identity i) t =
      ap (λ as'. listed (filter (λ a. bytes_eq a.identity i) as')) t.shows.alerts
  respond-reply event_log t = ap logged t.shows.entries

  answers-promised :
      (w : IdentityWatcher) (h : History) (rs : List Request)
      → Tracks hex threshold w h
      → answers hex w rs ≡ promised hex threshold h rs
  unfolding answers promised
  answers-promised w h [] t = refl
  answers-promised w h (r ∷ rs) t = λ i.
      respond-reply r t i ∷ answers-promised (respond hex w r).0 (r ∷ h) rs (respond-Tracks r t) i

-- A new watcher answers every sequence of calls of its public interface by the calls before each.
-- A handler raises the alert of its event, in which a guardian or a delegate is known if an earlier
-- call registered it for the identity. The alerts are those raised since the last `clear_alerts`,
-- the log holds the entries since its last `clear`, and a drain returns the notifications since
-- the last drain: one for each registered guardian of the identity of a recovery event with a
-- warning or critical alert, or of a value that reaches a threshold other than 0.
pub with_config-promised :
    (hex : Bytes → String) (config : WatcherConfig) (rs : List Request)
    → answers hex (with_config config) rs ≡ promised hex config.high_value_threshold [] rs
unfolding with_config members_of is_known_delegate guardians_of has_delegate alerts_since
    entries_since notices_since
with_config-promised hex config rs =
    answers-promised hex config.high_value_threshold (with_config config) [] rs (record {
      shows = record {
        config = refl;
        known_guardians = λ _. refl;
        known_delegates = λ _ _. refl;
        alerts = refl;
        entries = refl;
        pending = refl;
      };
    })
