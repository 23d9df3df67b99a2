-- ===== src/CrateTests/Derived.antt =====
-- Which assertions of the tests of src/lib.rs that derive keys can fail.
use huntkey.Prelude.{
  ℕ, ◌≡◌, ◌≢◌, ◌↔◌, refl, Bool, true, false, not, some, List, [], ◌∷◌, Distinct, arith, Build,
  Bool-cases, inl, inr,
}
use huntkey.Prelude.Bytes.{Bytes, bytes_eq, bytes_eq-false_iff}
use huntkey.Prelude.Decimal.{to_decimal}
use huntkey.Prelude.Members.{member, All-ne_of_not_member, not_member_of_All-ne}
use huntkey.Crypto.{Crypto}
use huntkey.Core.Keys as Keys
use huntkey.Core.Keys.{
  KeyRole, root_identity, action, proof, recovery, eth_address, role_path, segment, derive_key,
  derive_role, next_action_key,
}
use huntkey.Core.Keys.Paths.{Derives}
use huntkey.CrateTests.{assert, passed}
use huntkey.CrateTests.EndToEnd.{key_at}
use huntkey.CrateTests.Deriving.{
  all_different, distinct_keys_per_index, test_each_role_derives_different_key,
  test_action_key_auto_increment,
}

pub all_different_iff : (xs : List Bytes) → (all_different xs ≡ true) ↔ Distinct xs
all_different_iff [] = (λ _. tt, λ _. refl)
all_different_iff (x ∷ xs) = elim (Bool-cases (member x xs)) [
  | inl found ↦ (
    λ h. absurd (ground (arith, found)),
    λ (fresh, _). absurd (ground (arith, found, not_member_of_All-ne x xs fresh)),
  )
  | inr absent ↦ rw absent (
    λ h. (All-ne_of_not_member x xs absent, (all_different_iff xs).0 h),
    λ (_, h). (all_different_iff xs).1 h,
  )
]

assert_iff : (b : Bool) → (assert b ≡ some passed) ↔ (b ≡ true)
assert_iff true = ground arith
assert_iff false = ground arith

pub assert_different_iff :
    (xs : List Bytes) → (assert (all_different xs) ≡ some passed) ↔ Distinct xs
assert_different_iff xs = (
  λ h. (all_different_iff xs).0 ((assert_iff (all_different xs)).0 h),
  λ h. (assert_iff (all_different xs)).1 ((all_different_iff xs).1 h),
)

module _ (C : Crypto) (build : Build) (root : C.XPriv) where
  abbrev private_key : Derives C root → KeyRole → ℕ → Bytes
  private_key derives role index = C.key_bytes (key_at C root derives role index)

  abbrev role_keys : Derives C root → List Bytes
  role_keys derives =
      private_key derives root_identity 0
      ∷ private_key derives action 0
      ∷ private_key derives proof 0
      ∷ private_key derives recovery 0
      ∷ []

  -- If the first three keys of each role derive, the test of the roles passes exactly if the
  -- private keys of the four roles at index 0 are pairwise different.
  test_each_role_derives_different_key_iff :
      (derives : Derives C root)
      → (test_each_role_derives_different_key C build root ≡ some passed)
        ↔ Distinct (role_keys derives)
  unfolding test_each_role_derives_different_key derive_role derive_key Keys.new
  test_each_role_derives_different_key_iff derives =
      let at = λ (role : KeyRole). derives.found role 0 (omega arith) in
      rw (at root_identity, at action, at proof, at recovery)
        (assert_different_iff (role_keys derives))

  -- If the first three keys of each role derive, the test of the action keys passes exactly if the
  -- private keys of index 0 and 1 differ and those of index 1 and 2 differ: the index and the paths
  -- are as it asserts.
  test_action_key_auto_increment_iff :
      (derives : Derives C root)
      → (test_action_key_auto_increment C build root ≡ some passed) ↔ (
          (private_key derives action 0 ≢ private_key derives action 1)
          × (private_key derives action 1 ≢ private_key derives action 2))
  unfolding test_action_key_auto_increment derive_role derive_key next_action_key Keys.new role_path
      segment to_decimal
  test_action_key_auto_increment_iff derives =
      let at = λ (role : KeyRole). derives.found role 0 (omega arith) in
      let k0 = private_key derives action 0 in
      let k1 = private_key derives action 1 in
      let k2 = private_key derives action 2 in
      elim (Bool-cases (bytes_eq k0 k1)) [
        | inl same ↦
            rw
              (
                at action,
                derives.found action 1 (omega arith),
                derives.found action 2 (omega arith),
                same,
              )
              (ground (arith, bytes_eq-false_iff k0 k1))
        | inr differ ↦ elim (Bool-cases (bytes_eq k1 k2)) [
          | inl same ↦
              rw
                (
                  at action,
                  derives.found action 1 (omega arith),
                  derives.found action 2 (omega arith),
                  differ,
                  same,
                )
                (ground (arith, bytes_eq-false_iff k1 k2))
          | inr differ' ↦
              rw
                (
                  at action,
                  derives.found action 1 (omega arith),
                  derives.found action 2 (omega arith),
                  differ,
                  differ',
                )
                (ground (arith, bytes_eq-false_iff k0 k1, bytes_eq-false_iff k1 k2))
        ]
      ]

  -- If the two paths derive, the test of two Ethereum keys passes exactly if their private keys
  -- differ.
  distinct_keys_per_index_iff :
      {x0 x1 : C.XPriv}
      → C.derive_path root "m/44'/60'/0'/0/0" ≡ some x0
      → C.derive_path root "m/44'/60'/0'/0/1" ≡ some x1
      → (distinct_keys_per_index C build root ≡ some passed)
        ↔ (C.key_bytes (C.xpriv_key x0) ≢ C.key_bytes (C.xpriv_key x1))
  unfolding distinct_keys_per_index derive_key
  distinct_keys_per_index_iff {x0} {x1} e0 e1 =
      let k0 = C.key_bytes (C.xpriv_key x0) in
      let k1 = C.key_bytes (C.xpriv_key x1) in
      rw (e0, e1) (ground (arith, assert_iff (not (bytes_eq k0 k1)), bytes_eq-false_iff k0 k1))
