-- ===== src/Monitor/Handlers/Trace/Isolation.antt =====
-- Identities do not interfere in the watcher (src/monitor/mod.rs): what it holds of one of them
-- depends on the calls about that identity alone.
use huntkey.Prelude.{
  ◌≡◌, ◌∙◌, refl, sym, ap, Bool, true, false, ◌||◌, ◌&&◌, String, List, [], ◌∷◌, ◌++◌, filter,
  filter-append, append-nil, or-false, Bool-cases, inl, inr, arith,
}
use huntkey.Prelude.Bytes.{Bytes, bytes_eq}
use huntkey.Monitor.EventLog.{entries_for_identity}
use huntkey.Monitor.Watcher.{
  register_guardians, register_delegate, drain_notifications, alerts_for_identity,
  is_known_delegate,
}
use huntkey.Monitor.Watcher.Registry.{is_known_delegate-register_delegate}
use huntkey.Monitor.Handlers.Trace.{
  Event, guardians, delegate, recovery, delegation, session, intent, offline, high_value, drain,
  Trace, step, run,
}
use huntkey.Monitor.Handlers.Trace.Outputs.{Emits, step-Emits}
use huntkey.Monitor.Handlers.Trace.Views.{
  SameView, concerns, foreign, same_outputs, members_of-append,
}

filter-append_nil {ℓ} :
    {A : Type ℓ} (p : A → Bool) (xs ys : List A)
    → filter p ys ≡ []
    → filter p (xs ++ ys) ≡ filter p xs
filter-append_nil p xs ys h = filter-append p xs ys ∙ rw h (append-nil (filter p xs))

filter-append_same {ℓ} :
    {A : Type ℓ} (p : A → Bool) (xs ys xs' ys' : List A)
    → filter p xs ≡ filter p xs'
    → ys ≡ ys'
    → filter p (xs ++ ys) ≡ filter p (xs' ++ ys')
filter-append_same p xs ys xs' ys' h k = rw (filter-append, filter-append, h, k) refl

module _ (hex : Bytes → String) (j : Bytes) where
  other_lem : (t u : Trace) (e : Event) → Emits hex t u e → concerns j e ≡ false → SameView j u t
  unfolding alerts_for_identity entries_for_identity is_known_delegate
  other_lem t u e m o =
      let (no_alerts, no_entries, no_notices) = foreign j hex t.watcher e o in
      record {
        alerts = rw m.alerts (filter-append_nil _ t.watcher.alerts _ no_alerts);
        raised = rw m.raised (filter-append_nil _ t.raised _ no_alerts);
        entries = rw m.entries (filter-append_nil _ t.watcher.event_log.entries _ no_entries);
        pending = rw m.pending (filter-append_nil _ t.watcher.pending_notifications _ no_notices);
        delivered = rw m.delivered refl;
        guardians = rw m.known_guardians refl;
        delegates = λ d. rw m.known_delegates refl;
        threshold = m.config;
      }

  same_lem :
      (t u t' u' : Trace) (e : Event)
      → SameView j t u
      → concerns j e ≡ true
      → Emits hex t t' e
      → Emits hex u u' e
      → SameView j t' u'
  unfolding alerts_for_identity entries_for_identity is_known_delegate
  same_lem t u t' u' e h o m m' =
      let (same_alerts, same_entries, same_notices) = same_outputs hex j t u h e o in
      record {
        alerts =
            rw (m.alerts, m'.alerts)
              (filter-append_same _ t.watcher.alerts _ u.watcher.alerts _ h.alerts same_alerts);
        raised =
            rw (m.raised, m'.raised)
              (filter-append_same _ t.raised _ u.raised _ h.raised same_alerts);
        entries =
            rw (m.entries, m'.entries)
              (filter-append_same _ t.watcher.event_log.entries _ u.watcher.event_log.entries _
                h.entries same_entries);
        pending =
            rw (m.pending, m'.pending)
              (filter-append_same _ t.watcher.pending_notifications _
                u.watcher.pending_notifications _ h.pending same_notices);
        delivered = rw (m.delivered, m'.delivered) h.delivered;
        guardians = rw (m.known_guardians, m'.known_guardians) h.guardians;
        delegates = λ d. rw (m.known_delegates, m'.known_delegates) (h.delegates d);
        threshold = m.config ∙ h.threshold ∙ sym m'.config;
      }

  -- A call about another identity changes nothing of this one.
  step_other : (t : Trace) (e : Event) → concerns j e ≡ false → SameView j (step hex t e) t
  unfolding step register_guardians register_delegate alerts_for_identity entries_for_identity
      is_known_delegate
  step_other t (guardians i gs) o = record {
    alerts = refl;
    raised = refl;
    entries = refl;
    pending = refl;
    delivered = refl;
    guardians = members_of-append t.watcher.known_guardians i gs j ∙ rw o (append-nil _);
    delegates = λ d. refl;
    threshold = refl;
  }
  step_other t (delegate i d) o = record {
    alerts = refl;
    raised = refl;
    entries = refl;
    pending = refl;
    delivered = refl;
    guardians = refl;
    delegates =
        λ x. is_known_delegate-register_delegate t.watcher i d j x ∙ rw o (sym (or-false _));
    threshold = refl;
  }
  step_other t (recovery i s g b n) o =
      other_lem t _ (recovery i s g b n) (step-Emits hex t _ refl) o
  step_other t (delegation i d s b n) o =
      other_lem t _ (delegation i d s b n) (step-Emits hex t _ refl) o
  step_other t (session i e b n) o = other_lem t _ (session i e b n) (step-Emits hex t _ refl) o
  step_other t (intent i k s b n) o = other_lem t _ (intent i k s b n) (step-Emits hex t _ refl) o
  step_other t (offline i k b n) o = other_lem t _ (offline i k b n) (step-Emits hex t _ refl) o
  step_other t (high_value i k v s b n) o =
      other_lem t _ (high_value i k v s b n) (step-Emits hex t _ refl) o
  step_other t drain o = absurd (ground arith)

  -- A call about the identity keeps two traces alike that hold the same of it.
  step_same :
      (t u : Trace) (e : Event)
      → SameView j t u
      → concerns j e ≡ true
      → SameView j (step hex t e) (step hex u e)
  unfolding step register_guardians register_delegate drain_notifications alerts_for_identity
      entries_for_identity is_known_delegate
  step_same t u (guardians i gs) h o = record {
    alerts = h.alerts;
    raised = h.raised;
    entries = h.entries;
    pending = h.pending;
    delivered = h.delivered;
    guardians =
        members_of-append t.watcher.known_guardians i gs j
        ∙ rw h.guardians (sym (members_of-append u.watcher.known_guardians i gs j));
    delegates = h.delegates;
    threshold = h.threshold;
  }
  step_same t u (delegate i d) h o = record {
    alerts = h.alerts;
    raised = h.raised;
    entries = h.entries;
    pending = h.pending;
    delivered = h.delivered;
    guardians = h.guardians;
    delegates = λ x.
        is_known_delegate-register_delegate t.watcher i d j x
        ∙ ap (λ b. b || (bytes_eq i j && bytes_eq x d)) (h.delegates x)
        ∙ sym (is_known_delegate-register_delegate u.watcher i d j x);
    threshold = h.threshold;
  }
  step_same t u drain h o = record {
    alerts = h.alerts;
    raised = h.raised;
    entries = h.entries;
    pending = refl;
    delivered =
        filter-append _ t.delivered t.watcher.pending_notifications
        ∙ rw (h.delivered, h.pending)
            (sym (filter-append _ u.delivered u.watcher.pending_notifications));
    guardians = h.guardians;
    delegates = h.delegates;
    threshold = h.threshold;
  }
  step_same t u (recovery i s g b n) h o =
      same_lem t u _ _ (recovery i s g b n) h o (step-Emits hex t _ refl) (step-Emits hex u _ refl)
  step_same t u (delegation i d s b n) h o =
      same_lem t u _ _ (delegation i d s b n) h o (step-Emits hex t _ refl)
        (step-Emits hex u _ refl)
  step_same t u (session i e b n) h o =
      same_lem t u _ _ (session i e b n) h o (step-Emits hex t _ refl) (step-Emits hex u _ refl)
  step_same t u (intent i k s b n) h o =
      same_lem t u _ _ (intent i k s b n) h o (step-Emits hex t _ refl) (step-Emits hex u _ refl)
  step_same t u (offline i k b n) h o =
      same_lem t u _ _ (offline i k b n) h o (step-Emits hex t _ refl) (step-Emits hex u _ refl)
  step_same t u (high_value i k v s b n) h o =
      same_lem t u _ _ (high_value i k v s b n) h o (step-Emits hex t _ refl)
        (step-Emits hex u _ refl)

  SameView-trans : (t u v : Trace) → SameView j t u → SameView j u v → SameView j t v
  SameView-trans t u v h k = record {
    alerts = h.alerts ∙ k.alerts;
    raised = h.raised ∙ k.raised;
    entries = h.entries ∙ k.entries;
    pending = h.pending ∙ k.pending;
    delivered = h.delivered ∙ k.delivered;
    guardians = h.guardians ∙ k.guardians;
    delegates = λ d. h.delegates d ∙ k.delegates d;
    threshold = h.threshold ∙ k.threshold;
  }

  -- Of two traces with one configuration that hold the same of an identity, let one make all the
  -- calls of a list and the other only those about that identity, and the drains. Afterwards they
  -- hold the same of it: the same alerts, log entries, notifications, guardians and delegates. So
  -- no call about another identity shows.
  pub run-SameView :
      (t u : Trace) (es : List Event)
      → SameView j t u
      → SameView j (run hex t es) (run hex u (filter (concerns j) es))
  unfolding run
  run-SameView t u [] h = h
  run-SameView t u (e ∷ es) h = elim (Bool-cases (concerns j e)) [
    | inl mine ↦ rw mine (run-SameView (step hex t e) (step hex u e) es (step_same t u e h mine))
    | inr other ↦
        rw other (run-SameView (step hex t e) u es (SameView-trans _ t u (step_other t e other) h))
  ]
