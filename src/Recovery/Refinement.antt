-- ===== src/Recovery/Refinement.antt =====
-- The tracker of src/recovery/mod.rs refines a finite set of guardians.
use mathlib.Core.Quot
use huntkey.Prelude.{
  ℕ, ◌≡◌, ◌∙◌, refl, ap, Bool, true, false, ◌||◌, not, List, [], ◌∷◌, leb, Distinct,
}
use huntkey.Prelude.Bytes.{Bytes, bytes_eq}
use huntkey.Prelude.Members.{member, length-eq-dedup}
use huntkey.Recovery.{PendingRecovery, add_approval, threshold_met, is_alert}
use huntkey.Recovery.Approvals.{add_approval_lem}
use huntkey.Recovery.GuardianSet.{GuardianSet, of_list, contains, add, size}

-- A use of a tracker: an approval, or a question to it.
pub data Call : Type 0 where
  approve : Bytes → Call
  met : ℕ → Call
  alert : Bytes → Call

-- The answers of the tracker to a sequence of calls.
unfoldable pub answers : PendingRecovery → List Call → List Bool
answers p [] = []
answers p (approve g ∷ cs) = (add_approval p g).1 ∷ answers (add_approval p g).0 cs
answers p (met n ∷ cs) = threshold_met p n ∷ answers p cs
answers p (alert root ∷ cs) = is_alert p root ∷ answers p cs

-- The answers of the specification: the root to be replaced, and the set of who approved.
pub expected : Bytes → GuardianSet → List Call → List Bool
expected old approvals [] = []
expected old approvals (approve g ∷ cs) =
    not (contains g approvals) ∷ expected old (add g approvals) cs
expected old approvals (met n ∷ cs) = leb n (size approvals) ∷ expected old approvals cs
expected old approvals (alert root ∷ cs) = bytes_eq old root ∷ expected old approvals cs

abbrev pub view : PendingRecovery → GuardianSet
view p = of_list p.approvals

or_swap : (a b : Bool) → (a || b) ≡ (b || a)
or_swap true true = refl
or_swap true false = refl
or_swap false true = refl
or_swap false false = refl

view-add_approval :
    (p : PendingRecovery) (g : Bytes)
    → Distinct p.approvals
    → view (add_approval p g).0 ≡ add g (view p)
unfolding add
view-add_approval p g d =
    let (_, same, _, _, _) = add_approval_lem p g d in
    Quot.sound (λ x. same x ∙ or_swap (member x p.approvals) (bytes_eq x g))

threshold_met-size :
    (p : PendingRecovery) (n : ℕ) → Distinct p.approvals → threshold_met p n ≡ leb n (size (view p))
unfolding threshold_met size
threshold_met-size p n d = ap (leb n) (length-eq-dedup p.approvals p.approvals d (λ g. refl))

-- A tracker in which no guardian is twice answers every sequence of calls as the set of its
-- approvals does: an approval is new if the guardian is not in the set, which it then joins, a
-- threshold is met if it is at most the size of the set, and an alert is raised for the old root.
pub answers_refine :
    (p : PendingRecovery) (cs : List Call)
    → Distinct p.approvals
    → answers p cs ≡ expected p.request.old_root (view p) cs
unfolding answers expected contains is_alert
answers_refine p [] d = refl
answers_refine p (approve g ∷ cs) d =
    let (fresh, same, distinct, request, start) = add_approval_lem p g d in
    let rest =
      answers_refine (add_approval p g).0 cs distinct
      ∙ (λ i. expected (request i).old_root (view-add_approval p g d i) cs) in
    λ i. fresh i ∷ rest i
answers_refine p (met n ∷ cs) d = rw (threshold_met-size p n d, answers_refine p cs d) refl
answers_refine p (alert root ∷ cs) d = rw (answers_refine p cs d) refl
