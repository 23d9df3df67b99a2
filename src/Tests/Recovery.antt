-- ===== src/Tests/Recovery.antt =====
-- Approvals and timelocks of src/recovery/mod.rs at concrete inputs.
use huntkey.Prelude.{
  ℕ, ◌≡◌, ◌↔◌, ◌||◌, refl, arith, true, false, Option, none, some, List, [], ◌∷◌, debug, release,
  Distinct,
}
use huntkey.Prelude.Bytes.{Bytes, zeros}
use huntkey.Prelude.Members.{member}
use huntkey.Recovery.{
  RecoveryRequest, PendingRecovery, add_approval, threshold_met, is_alert, timelock_expired,
}
use huntkey.Recovery.Approvals.{approved, approve_all, approve_all_lem}
use huntkey.Recovery.GuardianSet.{of_list}
use huntkey.Recovery.Refinement.{Call, approve, met, alert, answers, expected, answers_refine}
use huntkey.Recovery.Timelock.{
  HasPassed, IsWaiting, EndOverflows, timelock_expired_iff, timelock_expired_overflow,
}

abbrev guardian : ℕ → Bytes
guardian n = n ∷ zeros 19

abbrev request : RecoveryRequest
request = record { old_root = guardian 17; new_root = guardian 255; chain_id = 1; nonce = 0 }

abbrev tracker : Option ℕ → PendingRecovery
tracker start = record { request = request; approvals = guardian 1 ∷ []; initiated_at = start }

one-Distinct : Distinct (tracker none).approvals
one-Distinct = (tt, tt)

abbrev calls : List Bytes
calls = guardian 1 ∷ guardian 2 ∷ guardian 1 ∷ []

approve_all_lem_example :
    Distinct (approve_all (tracker (some 1000)) calls).approvals
    × ((g : Bytes)
        → approved (approve_all (tracker (some 1000)) calls) g
          ≡ (approved (tracker (some 1000)) g || member g calls))
    × ((approve_all (tracker (some 1000)) calls).request ≡ request)
    × ((approve_all (tracker (some 1000)) calls).initiated_at ≡ some 1000)
approve_all_lem_example = approve_all_lem (tracker (some 1000)) calls one-Distinct

timelock_expired_iff_example :
    let q = approve_all (tracker (some 1000)) calls in
    ((timelock_expired debug q 173800 ≡ some true) ↔ HasPassed (some 1000) 173800)
    × ((timelock_expired debug q 173800 ≡ some false) ↔ IsWaiting (some 1000) 173800)
    × ((timelock_expired debug q 173800 ≡ none) ↔ EndOverflows (some 1000))
    × (HasPassed (some 1000) 173800 → timelock_expired release q 173800 ≡ some true)
    × (IsWaiting (some 1000) 173800 → timelock_expired release q 173800 ≡ some false)
timelock_expired_iff_example =
    timelock_expired_iff (tracker (some 1000)) calls 173800 one-Distinct (omega arith)

timelock_expired_overflow_example :
    (timelock_expired debug (tracker (some 18446744073709551615)) 18446744073709551615 ≡ none)
    × (timelock_expired release (tracker (some 18446744073709551615)) 18446744073709551615
        ≡ some true)
timelock_expired_overflow_example =
    timelock_expired_overflow (tracker (some 18446744073709551615)) 18446744073709551615
      18446744073709551615 refl (omega arith) (omega arith) (omega arith)

abbrev questions : List Call
questions = approve (guardian 2) ∷ met 2 ∷ approve (guardian 1) ∷ met 3 ∷ alert (guardian 17) ∷ []

answers_refine_example :
    answers (tracker none) questions ≡ expected (guardian 17) (of_list (guardian 1 ∷ [])) questions
answers_refine_example = answers_refine (tracker none) questions one-Distinct

answers_test : answers (tracker none) questions ≡ true ∷ true ∷ false ∷ false ∷ true ∷ []
unfolding answers add_approval threshold_met is_alert
answers_test = refl
