-- ===== src/Monitor/Interface/Steps.antt =====
-- What each event does to the state of an `IdentityWatcher` (src/monitor/mod.rs), as its history
-- tells it.
use mathlib.Core.Path.{subst}
use huntkey.Prelude.{
  any, ℕ, ◌≡◌, ◌∙◌, refl, sym, ap, Bool, true, false, ◌||◌, ◌&&◌, Option, none, some, String, List,
  [], ◌∷◌, ◌++◌, append-nil, arith, if◌then◌else◌,
}
use huntkey.Prelude.Bytes.{Bytes, bytes_eq}
use huntkey.Monitor.Watcher.{
  SecurityAlert, IdentityWatcher, register_guardians, register_delegate, drain_notifications,
  members_of, is_known_delegate,
}
use huntkey.Monitor.Watcher.Registry.{is_known_delegate-register_delegate}
use huntkey.Monitor.Handlers.{on_high_value_intent}
use huntkey.Monitor.Handlers.Trace.{
  Event, guardians, delegate, recovery, delegation, session, intent, offline, high_value, drain,
  Trace, step, raise_if,
}
use huntkey.Monitor.Handlers.Trace.Outputs.{reported, step-Emits, to_list}
use huntkey.Monitor.Handlers.Trace.Views.{members_of-append}
use huntkey.Monitor.Handlers.Trace.Records.{logs, logged_by-logs}
use huntkey.Monitor.Interface.{Request, handle, respond}
use huntkey.Monitor.Interface.History.{History, guardians_of, has_delegate}
use huntkey.Monitor.Interface.Promise.{
  alerts_since, entries_since, notices_since, notices_for, announced,
}
use huntkey.Monitor.Interface.Alerts.{alert_of}
use huntkey.Monitor.Interface.Tracks.{
  Tracks, returned, returned-alert_of, notices_of-notices_for, alerts_of-returned,
}

append_if {ℓ} :
    {A : Type ℓ} (b : Bool) (xs ys : List A)
    → xs ++ (if b then ys else []) ≡ (if b then xs ++ ys else xs)
append_if true xs ys = refl
append_if false xs ys = append-nil xs

or_if : (b x y : Bool) → (x || (b && y)) ≡ (if b then x || y else x)
or_if b x y = ground arith

module _ (hex : Bytes → String) (threshold : ℕ) where
  abbrev start : IdentityWatcher → Trace
  start w = record { watcher = w; raised = []; delivered = [] }

  abbrev after : IdentityWatcher → Request → IdentityWatcher
  after w r = (respond hex w r).0

  -- The history says of registrations and of notifications what it says for an event that is no
  -- registration and no drain.
  record Plain (e : Event) (h : History) : Type 0 where
    registered : (i : Bytes) → guardians_of (handle e ∷ h) i ≡ guardians_of h i
    delegated : (i d : Bytes) → has_delegate (handle e ∷ h) i d ≡ has_delegate h i d
    announces :
        notices_since hex threshold (handle e ∷ h)
        ≡ notices_since hex threshold h
          ++ notices_for (announced e) (alert_of hex threshold h e) (guardians_of h)

  notices_for-guardians :
      {w : IdentityWatcher} {h : History} (e : Event)
      → Tracks hex threshold w h
      → notices_for (announced e) (returned hex threshold w e) (members_of w.known_guardians)
        ≡ notices_for (announced e) (alert_of hex threshold h e) (guardians_of h)
  notices_for-guardians e t = λ j.
      notices_for (announced e) (returned-alert_of hex threshold e t j)
        (λ i. t.shows.known_guardians i j)

  step-Tracks :
      {w : IdentityWatcher} {h : History} (e : Event) {i : Bytes}
      → reported e ≡ some i
      → Plain e h
      → Tracks hex threshold w h
      → Tracks hex threshold (step hex (start w) e).watcher (handle e ∷ h)
  unfolding is_known_delegate alerts_since entries_since
  step-Tracks {w} {h} e r plain t =
      let m = step-Emits hex (start w) e r in
      record {
        shows = record {
          config = ap (λ c. c.high_value_threshold) m.config ∙ t.shows.config;
          known_guardians = λ i.
              ap (λ k. members_of k i) m.known_guardians
              ∙ t.shows.known_guardians i
              ∙ sym (plain.registered i);
          known_delegates = λ i d.
              ap (λ k. any (λ (j, ds). bytes_eq j i && any (bytes_eq d) ds) k) m.known_delegates
              ∙ t.shows.known_delegates i d
              ∙ sym (plain.delegated i d);
          alerts = m.alerts ∙ (λ j.
              t.shows.alerts j
              ++ (alerts_of-returned hex threshold w e
                    ∙ ap to_list (returned-alert_of hex threshold e t))
                  j);
          entries = m.entries ∙ (λ j.
              t.shows.entries j
              ++ (logged_by-logs hex w e ∙ ap (λ c. logs hex c e) t.shows.config) j);
          pending =
              m.pending
              ∙ (λ j.
                  t.shows.pending j
                  ++ (notices_of-notices_for hex threshold w e ∙ notices_for-guardians e t) j)
              ∙ sym plain.announces;
        };
      }

  raise_if_watcher :
      (t : Trace) (found : IdentityWatcher × Option SecurityAlert)
      → (raise_if t found).watcher ≡ found.0
  unfolding raise_if
  raise_if_watcher t (w, none) = refl
  raise_if_watcher t (w, some a) = refl

  pub handle-Tracks :
      {w : IdentityWatcher} {h : History} (e : Event)
      → Tracks hex threshold w h
      → Tracks hex threshold (after w (handle e)) (handle e ∷ h)
  unfolding respond step guardians_of has_delegate alerts_since entries_since notices_since alert_of
      register_guardians register_delegate drain_notifications is_known_delegate
  handle-Tracks {w} {h} (recovery i s g b n) t =
      step-Tracks (recovery i s g b n) refl
        (record { registered = λ _. refl; delegated = λ _ _. refl; announces = refl }) t
  handle-Tracks {w} {h} (delegation i d s b n) t =
      step-Tracks (delegation i d s b n) refl
        (record { registered = λ _. refl; delegated = λ _ _. refl; announces = refl }) t
  handle-Tracks {w} {h} (session i e b n) t =
      step-Tracks (session i e b n) refl
        (record { registered = λ _. refl; delegated = λ _ _. refl; announces = refl }) t
  handle-Tracks {w} {h} (intent i k s b n) t =
      step-Tracks (intent i k s b n) refl
        (record { registered = λ _. refl; delegated = λ _ _. refl; announces = refl }) t
  handle-Tracks {w} {h} (offline i k b n) t =
      step-Tracks (offline i k b n) refl
        (record { registered = λ _. refl; delegated = λ _ _. refl; announces = refl }) t
  handle-Tracks {w} {h} (high_value i k v s b n) t =
      subst (λ u. Tracks hex threshold u (handle (high_value i k v s b n) ∷ h))
        (raise_if_watcher (start w) (on_high_value_intent hex w i k v s b n))
        (step-Tracks (high_value i k v s b n) refl
          (record { registered = λ _. refl; delegated = λ _ _. refl; announces = refl }) t)
  handle-Tracks {w} {h} (guardians i gs) t = record {
    shows = record {
      config = t.shows.config;
      known_guardians = λ j.
          members_of-append w.known_guardians i gs j
          ∙ append_if (bytes_eq i j) _ gs
          ∙ ap (λ rest. if bytes_eq i j then rest ++ gs else rest) (t.shows.known_guardians j);
      known_delegates = t.shows.known_delegates;
      alerts = t.shows.alerts ∙ sym (append-nil _);
      entries = t.shows.entries ∙ sym (append-nil _);
      pending = t.shows.pending ∙ sym (append-nil _);
    };
  }
  handle-Tracks {w} {h} (delegate i d) t = record {
    shows = record {
      config = t.shows.config;
      known_guardians = t.shows.known_guardians;
      known_delegates = λ j x.
          is_known_delegate-register_delegate w i d j x
          ∙ or_if (bytes_eq i j) _ (bytes_eq x d)
          ∙ ap (λ rest. if bytes_eq i j then rest || bytes_eq x d else rest)
              (t.shows.known_delegates j x);
      alerts = t.shows.alerts ∙ sym (append-nil _);
      entries = t.shows.entries ∙ sym (append-nil _);
      pending = t.shows.pending ∙ sym (append-nil _);
    };
  }
  handle-Tracks {w} {h} drain t = record {
    shows = record {
      config = t.shows.config;
      known_guardians = t.shows.known_guardians;
      known_delegates = t.shows.known_delegates;
      alerts = t.shows.alerts ∙ sym (append-nil _);
      entries = t.shows.entries ∙ sym (append-nil _);
      pending = refl;
    };
  }
