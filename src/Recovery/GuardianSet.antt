-- ===== src/Recovery/GuardianSet.antt =====
-- What src/recovery/mod.rs promises of the approvals, as a finite set: a list of addresses up to
-- order and repetition.
use mathlib.Core.Quot
use mathlib.Core.Quot.{Quot, Quot-set}
use huntkey.Prelude.{ℕ, ◌≡◌, ◌∙◌, ap, Bool, ◌||◌, List, ◌∷◌, length}
use huntkey.Prelude.Bytes.{Bytes, bytes_eq}
use huntkey.Prelude.Members.{member, dedup, dedup-Distinct, member-dedup, length-eq-dedup}

abbrev pub SameMembers : List Bytes → List Bytes → Type 0
SameMembers xs ys = (g : Bytes) → member g xs ≡ member g ys

abbrev pub GuardianSet : Type 0
GuardianSet = Quot SameMembers

abbrev pub of_list : List Bytes → GuardianSet
of_list = Quot.mk

unfoldable pub contains : Bytes → GuardianSet → Bool
contains g = Quot.lift (hlevel) (member g) (λ xs ys h. h g)

unfoldable pub add : Bytes → GuardianSet → GuardianSet
add g =
    Quot.lift Quot-set (λ xs. of_list (g ∷ xs))
      (λ xs ys h. Quot.sound (λ x. ap (λ b. bytes_eq x g || b) (h x)))

pub size_same : (xs ys : List Bytes) → SameMembers xs ys → length (dedup xs) ≡ length (dedup ys)
size_same xs ys h = length-eq-dedup (dedup xs) ys (dedup-Distinct xs) (λ g. member-dedup g xs ∙ h g)

-- The number of different members.
unfoldable pub size : GuardianSet → ℕ
size = Quot.lift (hlevel) (λ xs. length (dedup xs)) size_same
