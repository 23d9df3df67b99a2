-- ===== src/Prelude/Members.antt =====
-- Lists of byte arrays as sets: membership, distinctness, and the number of different members.
use huntkey.Prelude.Tests.{if◌then◌else◌, Bool-cases}
use huntkey.Prelude.Lists.{length, any, All, Distinct}
use huntkey.Prelude.Bytes.{Bytes, bytes_eq, bytes_eq_iff}
use Prim.Native.Nat.{suc, ◌≤◌}
use mathlib.Core.Path.{◌≡◌, refl, sym, ◌∙◌}
use mathlib.Core.Logic.{◌≢◌, inl, inr}
use mathlib.Core.Bool.{Bool, true, false}
use mathlib.Core.List.{List, [], ◌∷◌}
use native.Mathlib.Omega.{arith}

-- `contains` of a slice.
abbrev pub member : Bytes → List Bytes → Bool
member x xs = any (bytes_eq x) xs

pub bytes_eq_refl : (x : Bytes) → bytes_eq x x ≡ true
bytes_eq_refl x = (bytes_eq_iff x x).1 refl

pub All-ne_of_not_member : (x : Bytes) (xs : List Bytes) → member x xs ≡ false → All (λ y. x ≢ y) xs
All-ne_of_not_member x [] h = tt
All-ne_of_not_member x (y ∷ xs) h =
    (λ e. ground (arith, (bytes_eq_iff x y).1 e), All-ne_of_not_member x xs (ground arith))

pub not_member_of_All-ne : (x : Bytes) (xs : List Bytes) → All (λ y. x ≢ y) xs → member x xs ≡ false
not_member_of_All-ne x [] h = refl
not_member_of_All-ne x (y ∷ xs) (ne, h) =
    ground (arith, bytes_eq_iff x y, not_member_of_All-ne x xs h)

-- The list without the first occurrence of an element.
without : Bytes → List Bytes → List Bytes
without x [] = []
without x (y ∷ ys) = let rest = without x ys in if bytes_eq x y then ys else y ∷ rest

member-without :
    (g x : Bytes) (ys : List Bytes) → g ≢ x → member g ys ≡ true → member g (without x ys) ≡ true
unfolding without
member-without g x [] ne h = h
member-without g x (y ∷ ys) ne h =
    ground (arith, bytes_eq_iff x y, bytes_eq_iff g y, member-without g x ys)

length-without :
    (x : Bytes) (ys : List Bytes) → member x ys ≡ true → suc (length (without x ys)) ≡ length ys
unfolding without
length-without x [] h = absurd (ground arith)
length-without x (y ∷ ys) h = ground (arith, length-without x ys)

abbrev pub Within : List Bytes → List Bytes → Type 0
Within xs ys = (g : Bytes) → member g xs ≡ true → member g ys ≡ true

-- Distinct members of a list are no more than the list is long.
length-le_of_Distinct : (xs ys : List Bytes) → Distinct xs → Within xs ys → length xs ≤ length ys
length-le_of_Distinct [] ys d h = omega arith
length-le_of_Distinct (x ∷ xs) ys (fresh, d) h =
    let found : member x ys ≡ true = h x (rw (bytes_eq_refl x)) in
    omega (arith, length-without x ys found, length-le_of_Distinct xs (without x ys) d rest)
  where
    rest : Within xs (without x ys)
    rest g m =
        member-without g x ys (λ e. ground (arith, rw e at m, not_member_of_All-ne x xs fresh))
          (h g (ground arith))

-- The list with each member once, at its last place.
unfoldable pub dedup : List Bytes → List Bytes
dedup [] = []
dedup (x ∷ xs) = let rest = dedup xs in if member x xs then rest else x ∷ rest

pub member-dedup : (g : Bytes) (xs : List Bytes) → member g (dedup xs) ≡ member g xs
unfolding dedup
member-dedup g [] = refl
member-dedup g (x ∷ xs) = elim (Bool-cases (member x xs)) [
  | inl old ↦ rw old (ground (arith, old, member-dedup g xs, bytes_eq_iff g x))
  | inr new ↦ rw new (rw (member-dedup g xs))
]

pub dedup-Distinct : (xs : List Bytes) → Distinct (dedup xs)
unfolding dedup
dedup-Distinct [] = tt
dedup-Distinct (x ∷ xs) = elim (Bool-cases (member x xs)) [
  | inl old ↦ rw old (dedup-Distinct xs)
  | inr new ↦
      rw new (All-ne_of_not_member x (dedup xs) (member-dedup x xs ∙ new), dedup-Distinct xs)
]

-- Two distinct lists with the same members are equally long.
length-eq_of_Distinct :
    (xs ys : List Bytes)
    → Distinct xs
    → Distinct ys
    → ((g : Bytes) → member g xs ≡ member g ys)
    → length xs ≡ length ys
length-eq_of_Distinct xs ys dx dy same = omega (
  arith,
  length-le_of_Distinct xs ys dx (λ g m. sym (same g) ∙ m),
  length-le_of_Distinct ys xs dy (λ g m. same g ∙ m),
)

-- A distinct list is as long as the deduplication of any list with its members.
pub length-eq-dedup :
    (xs ys : List Bytes)
    → Distinct xs
    → ((g : Bytes) → member g xs ≡ member g ys)
    → length xs ≡ length (dedup ys)
length-eq-dedup xs ys d same =
    length-eq_of_Distinct xs (dedup ys) d (dedup-Distinct ys)
      (λ g. same g ∙ sym (member-dedup g ys))
