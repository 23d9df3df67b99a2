-- ===== src/CrateTests/Deriving.antt =====
-- The tests of src/lib.rs that derive keys, and the one that looks at the recovery byte of a
-- signature.
use text.Mathlib.Text.{◌==◌ as str_eq}
use huntkey.Prelude.{Bool, true, ◌==◌, ◌&&◌, ◌||◌, not, Option, List, [], ◌∷◌, ◌>>=◌, Build}
use huntkey.Prelude.Bytes.{Bytes, bytes_eq}
use huntkey.Prelude.Members.{member}
use huntkey.Crypto.{Crypto}
use huntkey.Core.Keys as Keys
use huntkey.Core.Keys.{
  root_identity, action, proof, recovery, derive_role, next_action_key, derive_key,
}
use huntkey.Intents.Intent.{sign_intent, recover_signer}
use huntkey.Sessions.{derive_session_key}
use huntkey.Demo.{to_array_32}
use huntkey.CrateTests.{Outcome, assert, plain_intent}
use huntkey.CrateTests.Proptests.{contract_cc, target_dd}

-- The loop of `assert_ne!` over all pairs.
abbrev pub all_different : List Bytes → Bool
all_different [] = true
all_different (x ∷ xs) = let rest = all_different xs in not (member x xs) && rest

module _ (C : Crypto) (build : Build) (root : C.XPriv) where
  unfoldable pub distinct_keys_per_index : Option Outcome
  distinct_keys_per_index = do
    k0 ← derive_key C root "m/44'/60'/0'/0/0" true
    k1 ← derive_key C root "m/44'/60'/0'/0/1" true
    assert (not (bytes_eq k0.private_key k1.private_key))

  unfoldable pub test_each_role_derives_different_key : Option Outcome
  test_each_role_derives_different_key = do
    let hierarchy = Keys.new C root
    root_key ← derive_role C hierarchy root_identity 0
    action_key ← derive_role C hierarchy action 0
    proof_key ← derive_role C hierarchy proof 0
    recovery_key ← derive_role C hierarchy recovery 0
    assert (
        all_different (
          root_key.private_key ∷ action_key.private_key ∷ proof_key.private_key
          ∷ recovery_key.private_key ∷ []))

  unfoldable pub test_action_key_auto_increment : Option Outcome
  test_action_key_auto_increment = do
    (k0, hierarchy_1) ← next_action_key C build (Keys.new C root)
    (k1, hierarchy_2) ← next_action_key C build hierarchy_1
    (k2, hierarchy_3) ← next_action_key C build hierarchy_2
    three ← assert (hierarchy_3.action_index == 3)
    differ_01 ← assert (not (bytes_eq k0.private_key k1.private_key))
    differ_12 ← assert (not (bytes_eq k1.private_key k2.private_key))
    path_0 ← assert (str_eq k0.path "m/999'/1'/0")
    path_1 ← assert (str_eq k1.path "m/999'/1'/1")
    assert (str_eq k2.path "m/999'/1'/2")

  unfoldable pub test_derive_session_key_different_nonces : Option Outcome
  test_derive_session_key_different_nonces = do
    action_key ← derive_role C (Keys.new C root) action 0
    action_privkey ← to_array_32 action_key.private_key
    s0 ← derive_session_key C action_privkey 0 1
    s1 ← derive_session_key C action_privkey 1 1
    s2 ← derive_session_key C action_privkey 2 1
    assert (all_different (s0.eth_address ∷ s1.eth_address ∷ s2.eth_address ∷ []))

  unfoldable pub test_hkdf_chain_id_isolation : Option Outcome
  test_hkdf_chain_id_isolation = do
    action_key ← derive_role C (Keys.new C root) action 0
    action_privkey ← to_array_32 action_key.private_key
    s_mainnet ← derive_session_key C action_privkey 0 1
    s_polygon ← derive_session_key C action_privkey 0 137
    s_arb ← derive_session_key C action_privkey 0 42161
    isolated ←
        assert
          (all_different (s_mainnet.eth_address ∷ s_polygon.eth_address ∷ s_arb.eth_address ∷ []))
    s_mainnet2 ← derive_session_key C action_privkey 0 1
    assert (bytes_eq s_mainnet.eth_address s_mainnet2.eth_address)

  unfoldable pub test_sign_and_recover_roundtrip : Option Outcome
  test_sign_and_recover_roundtrip = do
    (action_key, hierarchy) ← next_action_key C build (Keys.new C root)
    privkey ← to_array_32 action_key.private_key
    let intent = plain_intent target_dd 500000 1800000000 42
    sig ← sign_intent C build intent contract_cc privkey
    low_v ← assert (sig.v == 27 || sig.v == 28)
    recovered ← recover_signer C build intent contract_cc sig
    expected ← action_key.eth_address
    assert (bytes_eq recovered expected)
