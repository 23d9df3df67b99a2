-- ===== src/Monitor/Handlers/Recovery.antt =====
-- What the handler of recovery state changes does (src/monitor/mod.rs).
use text.Mathlib.Text.{◌==◌ as str_eq}
use text.Mathlib.TextEquality.{eq_iff}
use huntkey.Prelude.{
  ℕ, ◌≡◌, refl, ◌↔◌, ◌⊎◌, inl, inr, Bool, true, false, Option, String, arith, Bool-cases,
  if◌then◌else◌,
}
use huntkey.Prelude.Bytes.{Bytes}
use huntkey.Monitor.Watcher.{AlertSeverity, info, warning, critical, SecurityAlert, IdentityWatcher}
use huntkey.Monitor.Handlers.{guardian_known, recovery_alert, on_recovery_state_changed}

-- The severity of a recovery event, by its tests.
abbrev severity_of : Bool → Bool → Bool → Bool → AlertSeverity
severity_of known pending active frozen =
    if pending
    then (if known then warning else critical)
    else if active
    then info
    else if frozen
    then warning
    else info

severity_of_iff :
    (k p a f : Bool)
    → (f ≡ true → (p ≡ false) × (a ≡ false))
    → ((severity_of k p a f ≡ critical) ↔ ((p ≡ true) × (k ≡ false)))
      × ((severity_of k p a f ≡ warning) ↔ (((p ≡ true) × (k ≡ true)) ⊎ (f ≡ true)))
severity_of_iff true true a f h = ground arith
severity_of_iff false true a f h = ground arith
severity_of_iff k false true f h = ground arith
severity_of_iff k false false true h = ground arith
severity_of_iff k false false false h = ground arith

module _ (hex : Bytes → String) (w : IdentityWatcher) (identity : Bytes) (new_state : String)
    (guardian : Option Bytes) where
  abbrev pub state_alert : ℕ → ℕ → SecurityAlert
  state_alert block timestamp =
      (on_recovery_state_changed hex w identity new_state guardian block timestamp).1

  recovery_alert_severity :
      (recovery_alert hex w identity new_state guardian).0
      ≡ severity_of
          (guardian_known w identity guardian)
          (str_eq new_state "RecoveryPending")
          (str_eq new_state "Active")
          (str_eq new_state "Frozen")
  unfolding recovery_alert
  recovery_alert_severity = elim (Bool-cases (str_eq new_state "RecoveryPending")) [
    | inl pending ↦ elim (Bool-cases (guardian_known w identity guardian)) [
      | inl known ↦ rw (pending, known) refl
      | inr unknown ↦ rw (pending, unknown) refl
    ]
    | inr idle ↦ elim (Bool-cases (str_eq new_state "Active")) [
      | inl active ↦ rw (idle, active) refl
      | inr passive ↦ elim (Bool-cases (str_eq new_state "Frozen")) [
        | inl frozen ↦ rw (idle, passive, frozen) refl
        | inr other ↦ rw (idle, passive, other) refl
      ]
    ]
  ]

  frozen_alone :
      str_eq new_state "Frozen" ≡ true
      → (str_eq new_state "RecoveryPending" ≡ false) × (str_eq new_state "Active" ≡ false)
  frozen_alone e = rw ((eq_iff new_state "Frozen").0 e) (refl, refl)

  -- The alert is critical exactly if a recovery begins by a guardian that is absent or unknown for
  -- the identity, and a warning exactly if one begins by a known guardian or the identity is
  -- frozen.
  on_recovery_state_changed_severity :
      (block timestamp : ℕ)
      → (((state_alert block timestamp).severity ≡ critical)
          ↔ ((new_state ≡ "RecoveryPending") × (guardian_known w identity guardian ≡ false)))
        × (((state_alert block timestamp).severity ≡ warning) ↔ (
            ((new_state ≡ "RecoveryPending") × (guardian_known w identity guardian ≡ true))
            ⊎ (new_state ≡ "Frozen")))
  unfolding on_recovery_state_changed
  on_recovery_state_changed_severity block timestamp = rw recovery_alert_severity (
      ground (
        arith,
        severity_of_iff (guardian_known w identity guardian) (str_eq new_state "RecoveryPending")
            (str_eq new_state "Active") (str_eq new_state "Frozen") frozen_alone,
        eq_iff new_state "RecoveryPending",
        eq_iff new_state "Frozen",
      ))
