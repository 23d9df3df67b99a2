-- ===== src/Monitor/Handlers/Trace/Soundness.antt =====
-- The notifications of a run (src/monitor/mod.rs): each has a reason, and every known guardian
-- gets one.
use mathlib.Core.List.{Memᴰ}
use mathlib.Core.List.Memᴰ
use huntkey.Prelude.{
  ◌≡◌, ◌∙◌, refl, sym, true, ◌||◌, String, List, [], ◌∷◌, ◌++◌, map, ltb, ◌==◌, arith, Bool-cases,
  inl, inr, All, All-append, All-imp,
}
use huntkey.Prelude.Bytes.{Bytes}
use huntkey.Prelude.Members.{member, bytes_eq_refl}
use huntkey.Monitor.Watcher.{
  SecurityAlert, IdentityWatcher, GuardianNotification, register_guardians, register_delegate,
  drain_notifications, notify_guardians, is_known_guardian, members_of,
}
use huntkey.Monitor.Watcher.Registry.{is_known_guardian-register_guardians, member-members_of}
use huntkey.Monitor.Handlers.{
  alarming, on_recovery_state_changed, on_delegation_endorsed, on_session_invalidated,
  on_intent_executed, on_offline_session_detected, on_high_value_intent,
}
use huntkey.Monitor.Handlers.Trace.{
  Event, guardians, delegate, recovery, delegation, session, intent, offline, high_value, drain,
  Trace, step, run,
}

-- The alert of the notification is in the log, is a warning or critical, and concerns an identity
-- that the guardian is registered for.
pub IsJustified : IdentityWatcher → GuardianNotification → Type 0
IsJustified w n =
    Memᴰ n.alert w.alerts
    × (alarming n.alert.severity ≡ true)
    × (is_known_guardian w n.alert.identity n.guardian ≡ true)

abbrev pub IsSound : Trace → Type 0
IsSound t =
    All (IsJustified t.watcher) t.delivered
    × All (IsJustified t.watcher) t.watcher.pending_notifications

-- The later watcher has every alert and every guardian of the earlier one.
Extends : IdentityWatcher → IdentityWatcher → Type 0
Extends w w' =
    ((a : SecurityAlert) → Memᴰ a w.alerts → Memᴰ a w'.alerts)
    × ((i g : Bytes) → is_known_guardian w i g ≡ true → is_known_guardian w' i g ≡ true)

IsJustified-mono :
    (w w' : IdentityWatcher)
    → Extends w w'
    → (n : GuardianNotification) → IsJustified w n
    → IsJustified w' n
unfolding IsJustified Extends
IsJustified-mono w w' (al, gu) n (m, s, k) = (al n.alert m, s, gu n.alert.identity n.guardian k)

-- What is justified stays so.
All-IsJustified_mono :
    (w w' : IdentityWatcher) (ns : List GuardianNotification)
    → Extends w w'
    → All (IsJustified w) ns
    → All (IsJustified w') ns
All-IsJustified_mono w w' ns x =
    All-imp (IsJustified w) (IsJustified w') (IsJustified-mono w w' x) ns

abbrev notices : SecurityAlert → List Bytes → List GuardianNotification
notices a = map (λ g. record { guardian = g; alert = a })

notices-IsJustified :
    (w : IdentityWatcher) (a : SecurityAlert) (gs : List Bytes)
    → Memᴰ a w.alerts
    → alarming a.severity ≡ true
    → ((g : Bytes) → member g gs ≡ true → is_known_guardian w a.identity g ≡ true)
    → All (IsJustified w) (notices a gs)
unfolding IsJustified
notices-IsJustified w a [] m s k = tt
notices-IsJustified w a (g ∷ gs) m s k = (
  (m, s, k g (rw (bytes_eq_refl g) refl)),
  notices-IsJustified w a gs m s (λ g' e. k g' (ground arith)),
)

alert-Extends :
    (w w' : IdentityWatcher) (a : SecurityAlert)
    → w'.alerts ≡ w.alerts ++ a ∷ []
    → w'.known_guardians ≡ w.known_guardians
    → Extends w w'
unfolding Extends is_known_guardian
alert-Extends w w' a e k = (λ b m. rw e (Memᴰ.append_left (a ∷ []) m), λ i g h. rw k h)

-- A call that adds an alert and notifies the known guardians, or nobody, keeps soundness.
module _ (t : Trace) (w' : IdentityWatcher) (a : SecurityAlert) where
  abbrev raised_trace : Trace
  raised_trace = record t { watcher = w'; raised = t.raised ++ a ∷ [] }

  quiet-IsSound :
      w'.alerts ≡ t.watcher.alerts ++ a ∷ []
      → w'.known_guardians ≡ t.watcher.known_guardians
      → w'.pending_notifications ≡ t.watcher.pending_notifications
      → IsSound t
      → IsSound raised_trace
  unfolding IsJustified is_known_guardian
  quiet-IsSound al gu pe (d, p) =
      let x = alert-Extends t.watcher w' a al gu in
      (
        All-IsJustified_mono t.watcher w' t.delivered x d,
        rw pe (All-IsJustified_mono t.watcher w' t.watcher.pending_notifications x p),
      )

  loud-IsSound :
      alarming a.severity ≡ true
      → w'.alerts ≡ t.watcher.alerts ++ a ∷ []
      → w'.known_guardians ≡ t.watcher.known_guardians
      → w'.pending_notifications
        ≡ t.watcher.pending_notifications
          ++ notices a (members_of t.watcher.known_guardians a.identity)
      → IsSound t
      → IsSound raised_trace
  unfolding IsJustified is_known_guardian
  loud-IsSound loud al gu pe (d, p) =
      let x = alert-Extends t.watcher w' a al gu in
      (
        All-IsJustified_mono t.watcher w' t.delivered x d,
        rw pe (
            All-append (IsJustified w') t.watcher.pending_notifications
              (notices a (members_of t.watcher.known_guardians a.identity))
              (All-IsJustified_mono t.watcher w' t.watcher.pending_notifications x p)
              (notices-IsJustified w' a (members_of t.watcher.known_guardians a.identity)
                (rw al (Memᴰ.append_right t.watcher.alerts (Memᴰ.head refl))) loud
                (λ g e.
                  rw gu (sym (member-members_of t.watcher.known_guardians a.identity g) ∙ e)))),
      )

registered-Extends :
    (w : IdentityWatcher) (i : Bytes) (gs : List Bytes) → Extends w (register_guardians w i gs)
unfolding Extends register_guardians is_known_guardian
registered-Extends w i gs =
    (λ a m. m, λ j g h. ground (arith, is_known_guardian-register_guardians w i gs j g))

delegate-Extends : (w : IdentityWatcher) (i d : Bytes) → Extends w (register_delegate w i d)
unfolding Extends register_delegate is_known_guardian
delegate-Extends w i d = (λ a m. m, λ j g h. h)

drained-Extends : (w : IdentityWatcher) → Extends w (drain_notifications w).1
unfolding Extends drain_notifications is_known_guardian
drained-Extends w = (λ a m. m, λ j g h. h)

module _ (hex : Bytes → String) where
  step-IsSound : (t : Trace) (e : Event) → IsSound t → IsSound (step hex t e)
  unfolding step register_guardians register_delegate on_recovery_state_changed
      on_delegation_endorsed on_session_invalidated on_intent_executed on_offline_session_detected
      on_high_value_intent drain_notifications notify_guardians
  step-IsSound t (guardians i gs) (d, p) =
      let x = registered-Extends t.watcher i gs in
      (
        All-IsJustified_mono t.watcher _ t.delivered x d,
        All-IsJustified_mono t.watcher _ t.watcher.pending_notifications x p,
      )
  step-IsSound t (delegate i x) (d, p) =
      let e = delegate-Extends t.watcher i x in
      (
        All-IsJustified_mono t.watcher _ t.delivered e d,
        All-IsJustified_mono t.watcher _ t.watcher.pending_notifications e p,
      )
  step-IsSound t (recovery i s g b n) h =
      elim (Bool-cases (alarming (on_recovery_state_changed hex t.watcher i s g b n).1.severity)) [
        | inl loud ↦ rw loud (loud-IsSound t _ _ loud refl refl refl h)
        | inr quiet ↦ rw quiet (quiet-IsSound t _ _ refl refl refl h)
      ]
  step-IsSound t (delegation i d s b n) h = quiet-IsSound t _ _ refl refl refl h
  step-IsSound t (session i e b n) h = quiet-IsSound t _ _ refl refl refl h
  step-IsSound t (intent i k s b n) h = quiet-IsSound t _ _ refl refl refl h
  step-IsSound t (offline i k b n) h = quiet-IsSound t _ _ refl refl refl h
  step-IsSound t (high_value i k v s b n) h =
      elim (Bool-cases (
        t.watcher.config.high_value_threshold == 0
        || ltb v t.watcher.config.high_value_threshold)) [
          | inl low ↦ rw low h
          | inr high ↦ rw high (loud-IsSound t _ _ refl refl refl refl h)
        ]
  step-IsSound t drain (d, p) =
      let x = drained-Extends t.watcher in
      (
        All-IsJustified_mono t.watcher _ (t.delivered ++ t.watcher.pending_notifications) x
            (All-append (IsJustified t.watcher) t.delivered t.watcher.pending_notifications d p),
        tt,
      )

  -- If each delivered and each pending notification carries a warning or critical alert of the log
  -- and goes to a guardian registered for the alert's identity, then so it is after any sequence of
  -- registrations, events and drains.
  pub run-IsSound : (t : Trace) (es : List Event) → IsSound t → IsSound (run hex t es)
  unfolding run
  run-IsSound t [] h = h
  run-IsSound t (e ∷ es) h = run-IsSound (step hex t e) es (step-IsSound t e h)
