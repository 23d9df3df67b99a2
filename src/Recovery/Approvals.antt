-- ===== src/Recovery/Approvals.antt =====
-- Guardian approvals (src/recovery/mod.rs): no guardian counts twice.
use huntkey.Prelude.{
  ◌≤◌, ◌≡◌, ◌≢◌, ◌∙◌, refl, sym, Bool, true, false, ◌||◌, or-false, not, inl, inr, List, [], ◌∷◌,
  ◌++◌, arith, leb, ℕ, any, length, length-append, any-append, All, Distinct, Bool-cases,
}
use huntkey.Prelude.Bytes.{Bytes, bytes_eq, bytes_eq_iff}
use huntkey.Prelude.Members.{member, All-ne_of_not_member, dedup, length-eq-dedup}
use huntkey.Recovery.{RecoveryRequest, PendingRecovery, new, add_approval, threshold_met}

-- A guardian has approved.
abbrev pub approved : PendingRecovery → Bytes → Bool
approved p guardian = member guardian p.approvals

All-concat :
    (x : Bytes) (gs : List Bytes) (g : Bytes)
    → All (λ y. x ≢ y) gs
    → x ≢ g
    → All (λ y. x ≢ y) (gs ++ g ∷ [])
All-concat x [] g h ne = (ne, tt)
All-concat x (y ∷ gs) g (h, hs) ne = (h, All-concat x gs g hs ne)

Distinct-concat :
    (gs : List Bytes) (g : Bytes) → Distinct gs → All (λ x. g ≢ x) gs → Distinct (gs ++ g ∷ [])
Distinct-concat [] g d h = (tt, tt)
Distinct-concat (x ∷ gs) g (fresh, d) (ne, h) =
    (All-concat x gs g fresh (λ e. ne (sym e)), Distinct-concat gs g d h)

or_absorb : (a b : Bool) → (b ≡ true → a ≡ true) → a ≡ (a || b)
or_absorb true b h = refl
or_absorb false true h = h refl
or_absorb false false h = refl

or_assoc : (a b c : Bool) → ((a || b) || c) ≡ (a || (b || c))
or_assoc true b c = refl
or_assoc false b c = refl

-- An approval is new exactly if the guardian had not approved. Then the guardian has approved, in
-- both cases, every other guardian's standing is what it was, and distinct approvals stay distinct.
pub add_approval_lem :
    (p : PendingRecovery) (g : Bytes)
    → Distinct p.approvals
    → ((add_approval p g).1 ≡ not (approved p g))
      × ((other : Bytes)
          → approved (add_approval p g).0 other ≡ (approved p other || bytes_eq other g))
      × Distinct (add_approval p g).0.approvals
      × ((add_approval p g).0.request ≡ p.request)
      × ((add_approval p g).0.initiated_at ≡ p.initiated_at)
unfolding add_approval
add_approval_lem p g d = elim (Bool-cases (approved p g)) [
  | inl old ↦ rw old (refl, λ other. known p.approvals other old, d, refl, refl)
  | inr fresh ↦ rw fresh (
    refl,
    λ other. ground (arith, any-append (bytes_eq other) p.approvals (g ∷ [])),
    Distinct-concat p.approvals g d (All-ne_of_not_member g p.approvals fresh),
    refl,
    refl,
  )
]
  where
    known :
        (gs : List Bytes) (other : Bytes)
        → any (bytes_eq g) gs ≡ true
        → any (bytes_eq other) gs ≡ (any (bytes_eq other) gs || bytes_eq other g)
    known gs other old =
        or_absorb (any (bytes_eq other) gs) (bytes_eq other g)
          (λ same. rw ((bytes_eq_iff other g).0 same) old)

-- The approvals of a list of guardians, one after another.
pub approve_all : PendingRecovery → List Bytes → PendingRecovery
approve_all p [] = p
approve_all p (g ∷ gs) = approve_all (add_approval p g).0 gs

-- If no guardian is twice in a tracker, then after any sequence of approvals, repeated or not, it
-- holds each guardian that approved before or in the sequence, once, and no other, and the request
-- and the timelock are untouched.
pub approve_all_lem :
    (p : PendingRecovery) (gs : List Bytes)
    → Distinct p.approvals
    → Distinct (approve_all p gs).approvals
      × ((g : Bytes) → approved (approve_all p gs) g ≡ (approved p g || member g gs))
      × ((approve_all p gs).request ≡ p.request)
      × ((approve_all p gs).initiated_at ≡ p.initiated_at)
unfolding approve_all
approve_all_lem p [] d = (d, λ g. or-false (approved p g), refl, refl)
approve_all_lem p (g ∷ gs) d =
    let (_, one, d', req, start) = add_approval_lem p g d in
    let (ds, rest, req', start') = approve_all_lem (add_approval p g).0 gs d' in
    (
      ds,
      λ other. rest other ∙ rw (one other) (or_assoc (approved p other) (bytes_eq other g) _),
      req' ∙ req,
      start' ∙ start,
    )

length-add_approval-le :
    (p : PendingRecovery) (g : Bytes) → length p.approvals ≤ length (add_approval p g).0.approvals
unfolding add_approval
length-add_approval-le p g = ground (arith, length-append p.approvals (g ∷ []))

length-approve_all-le :
    (p : PendingRecovery) (gs : List Bytes)
    → length p.approvals ≤ length (approve_all p gs).approvals
unfolding approve_all
length-approve_all-le p [] = omega arith
length-approve_all-le p (g ∷ gs) =
    omega (arith, length-add_approval-le p g, length-approve_all-le (add_approval p g).0 gs)

-- A threshold that is met stays met whatever approvals follow.
threshold_met-approve_all :
    (p : PendingRecovery) (gs : List Bytes) (threshold : ℕ)
    → threshold_met p threshold ≡ true
    → threshold_met (approve_all p gs) threshold ≡ true
unfolding threshold_met
threshold_met-approve_all p gs threshold h = ground (arith, length-approve_all-le p gs)

-- For a new request, a threshold is met after a sequence of approvals exactly if it is at most the
-- number of different guardians in the sequence.
threshold_met-new :
    (request : RecoveryRequest) (gs : List Bytes) (threshold : ℕ)
    → threshold_met (approve_all (new request) gs) threshold ≡ leb threshold (length (dedup gs))
unfolding threshold_met new
threshold_met-new request gs threshold =
    let p = new request in
    let (distinct, same, _, _) = approve_all_lem p gs tt in
    rw (length-eq-dedup (approve_all p gs).approvals gs distinct same)
