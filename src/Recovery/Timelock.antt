-- ===== src/Recovery/Timelock.antt =====
-- The 48-hour timelock (src/recovery/mod.rs), and what 64-bit overflow does to it.
use huntkey.Prelude.{
  ℕ, ◌+◌, ◌%◌, ◌^◌, ◌≤◌, ◌<◌, ◌≡◌, ◌↔◌, ◌⊎◌, ◌∙◌, ap, refl, inl, inr, Bool-cases, Option, List,
  Distinct, true, false, none, some, arith, leb, ltb, Build, debug, release, add_word_fits, IsU64,
}
use mathlib.Core.Path.{subst}
use huntkey.Prelude.Bytes.{Bytes}
use huntkey.Recovery.{PendingRecovery, timelock_expired}
use huntkey.Recovery.Approvals.{approve_all, approve_all_lem}

-- Of a timelock's start and a time: a timelock runs, and 48 hours have passed since its start.
abbrev pub HasPassed : Option ℕ → ℕ → Type 0
HasPassed start now = (t : ℕ) × (start ≡ some t) × (t + 172800 ≤ now)

-- No timelock runs, or its end is a 64-bit number and still to come.
abbrev pub IsWaiting : Option ℕ → ℕ → Type 0
IsWaiting start now =
    (start ≡ none) ⊎ ((t : ℕ) × (start ≡ some t) × (now < t + 172800) × (t + 172800 < 2 ^ 64))

-- A timelock runs whose end is no 64-bit number.
abbrev pub EndOverflows : Option ℕ → Type 0
EndOverflows start = (t : ℕ) × (start ≡ some t) × (2 ^ 64 ≤ t + 172800)

while_idle :
    (build : Build) (p : PendingRecovery) (now : ℕ)
    → p.initiated_at ≡ none
    → timelock_expired build p now ≡ some false
unfolding timelock_expired
while_idle build p now e = rw e

while_running :
    (build : Build) (p : PendingRecovery) (t now : ℕ)
    → p.initiated_at ≡ some t
    → t + 172800 < 2 ^ 64
    → timelock_expired build p now ≡ some (leb (t + 172800) now)
unfolding timelock_expired
while_running build p t now e fits = rw (e, add_word_fits build 64 t 172800 fits)

when_large :
    (p : PendingRecovery) (t now : ℕ)
    → p.initiated_at ≡ some t
    → 2 ^ 64 ≤ t + 172800
    → timelock_expired debug p now ≡ none
unfolding timelock_expired
when_large p t now e large =
    let wraps : ltb (t + 172800) (2 ^ 64) ≡ false = ground arith in rw (e, wraps)

-- No two of the three hold of a start and a 64-bit time.
passed-waiting : (start : Option ℕ) (now : ℕ) → HasPassed start now → IsWaiting start now → ⊥
passed-waiting start now (t, e, h) (inl idle) = ground arith
passed-waiting start now (t, e, h) (inr (t', e', early, _)) =
    let same : t ≡ t' = ground arith in omega arith

passed-overflows :
    (start : Option ℕ) (now : ℕ) → IsU64 now → HasPassed start now → EndOverflows start → ⊥
passed-overflows start now u (t, e, h) (t', e', large) =
    let same : t ≡ t' = ground arith in omega arith

waiting-overflows : (start : Option ℕ) (now : ℕ) → IsWaiting start now → EndOverflows start → ⊥
waiting-overflows start now (inl idle) (t', e', large) = ground arith
waiting-overflows start now (inr (t, e, _, fits)) (t', e', large) =
    let same : t ≡ t' = ground arith in omega arith

start_cases : (start : Option ℕ) → (start ≡ none) ⊎ ((t : ℕ) × (start ≡ some t))
start_cases none = inl refl
start_cases (some t) = inr (t, refl)

-- Whether a timelock has expired is decided by its start: by the three cases, in a debug build.
expired_cases :
    (p : PendingRecovery) (now : ℕ)
    → IsU64 now
    → ((timelock_expired debug p now ≡ some true) × HasPassed p.initiated_at now)
      ⊎ (((timelock_expired debug p now ≡ some false) × IsWaiting p.initiated_at now)
          ⊎ ((timelock_expired debug p now ≡ none) × EndOverflows p.initiated_at))
expired_cases p now u = elim (start_cases p.initiated_at) [
  | inl idle ↦ inr (inl (while_idle debug p now idle, inl idle))
  | inr (t, e) ↦ elim (Bool-cases (ltb (t + 172800) (2 ^ 64))) [
    | inr large ↦ inr (inr (when_large p t now e (ground arith), (t, e, ground arith)))
    | inl fits ↦ elim (Bool-cases (leb (t + 172800) now)) [
      | inl late ↦
          inl (while_running debug p t now e (ground arith) ∙ ap some late, (t, e, ground arith))
      | inr early ↦ inr (
          inl (
            while_running debug p t now e (ground arith) ∙ ap some early,
            inr (t, e, ground arith, ground arith),
          ))
    ]
  ]
]

debug_outcomes :
    (p : PendingRecovery) (now : ℕ)
    → IsU64 now
    → ((timelock_expired debug p now ≡ some true) ↔ HasPassed p.initiated_at now)
      × ((timelock_expired debug p now ≡ some false) ↔ IsWaiting p.initiated_at now)
      × ((timelock_expired debug p now ≡ none) ↔ EndOverflows p.initiated_at)
debug_outcomes p now u = elim (expired_cases p now u) [
  | inl (v, x) ↦ (
    (λ _. x, λ _. v),
    (λ h. absurd (ground (arith, v, h)), λ y. absurd (passed-waiting p.initiated_at now x y)),
    (λ h. absurd (ground (arith, v, h)), λ z. absurd (passed-overflows p.initiated_at now u x z)),
  )
  | inr (inl (v, y)) ↦ (
    (λ h. absurd (ground (arith, v, h)), λ x. absurd (passed-waiting p.initiated_at now x y)),
    (λ _. y, λ _. v),
    (λ h. absurd (ground (arith, v, h)), λ z. absurd (waiting-overflows p.initiated_at now y z)),
  )
  | inr (inr (v, z)) ↦ (
    (λ h. absurd (ground (arith, v, h)), λ x. absurd (passed-overflows p.initiated_at now u x z)),
    (λ h. absurd (ground (arith, v, h)), λ y. absurd (waiting-overflows p.initiated_at now y z)),
    (λ _. z, λ _. v),
  )
]

release_outcomes :
    (p : PendingRecovery) (now : ℕ)
    → IsU64 now
    → (HasPassed p.initiated_at now → timelock_expired release p now ≡ some true)
      × (IsWaiting p.initiated_at now → timelock_expired release p now ≡ some false)
release_outcomes p now u = (passed, waiting)
  where
    passed : HasPassed p.initiated_at now → timelock_expired release p now ≡ some true
    passed (t, e, h) =
        let late : leb (t + 172800) now ≡ true = ground arith in
        while_running release p t now e (omega arith) ∙ ap some late

    waiting : IsWaiting p.initiated_at now → timelock_expired release p now ≡ some false
    waiting (inl idle) = while_idle release p now idle
    waiting (inr (t, e, h, fits)) =
        let early : leb (t + 172800) now ≡ false = ground arith in
        while_running release p t now e fits ∙ ap some early

-- Of a tracker in which no guardian is twice, after any sequence of approvals, and a 64-bit time: a
-- debug build reports the timelock as expired exactly if a timelock runs and 48 hours have passed
-- since its start, as not expired exactly if none runs or its end fits 64 bits and is still to
-- come, and panics exactly if its end does not fit. A release build gives the same two reports in
-- the first two cases.
pub timelock_expired_iff :
    (p : PendingRecovery) (guardians : List Bytes) (now : ℕ)
    → Distinct p.approvals
    → IsU64 now
    → let q = approve_all p guardians in
      ((timelock_expired debug q now ≡ some true) ↔ HasPassed p.initiated_at now)
      × ((timelock_expired debug q now ≡ some false) ↔ IsWaiting p.initiated_at now)
      × ((timelock_expired debug q now ≡ none) ↔ EndOverflows p.initiated_at)
      × (HasPassed p.initiated_at now → timelock_expired release q now ≡ some true)
      × (IsWaiting p.initiated_at now → timelock_expired release q now ≡ some false)
timelock_expired_iff p guardians now d u =
    let q = approve_all p guardians in
    let (_, _, _, start) = approve_all_lem p guardians d in
    let (passed, waiting, overflows) = debug_outcomes q now u in
    let (late, early) = release_outcomes q now u in
    subst
      (λ s.
        ((timelock_expired debug q now ≡ some true) ↔ HasPassed s now)
        × ((timelock_expired debug q now ≡ some false) ↔ IsWaiting s now)
        × ((timelock_expired debug q now ≡ none) ↔ EndOverflows s)
        × (HasPassed s now → timelock_expired release q now ≡ some true)
        × (IsWaiting s now → timelock_expired release q now ≡ some false))
      start (passed, waiting, overflows, late, early)

-- A start so late that the end does not fit 64 bits makes a debug build panic, and a release build
-- report the timelock as expired from its very start on.
pub timelock_expired_overflow :
    (p : PendingRecovery) (t now : ℕ)
    → p.initiated_at ≡ some t
    → IsU64 t
    → 2 ^ 64 ≤ t + 172800
    → t ≤ now
    → (timelock_expired debug p now ≡ none) × (timelock_expired release p now ≡ some true)
unfolding timelock_expired
timelock_expired_overflow p t now e h large later =
    let wraps : ltb (t + 172800) (2 ^ 64) ≡ false = ground arith in
    let early : leb ((t + 172800) % 2 ^ 64) now ≡ true = ground arith in
    (rw (e, wraps), rw (e, wraps, early))
