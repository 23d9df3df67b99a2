-- ===== src/CrateTests/Proptests.antt =====
-- The tests of src/lib.rs that sign one message and recover its signer. A property test is a
-- function of the generated numbers.
use huntkey.Prelude.{ℕ, Option, ◌>>=◌, replicate, Build}
use huntkey.Prelude.Bytes.{Bytes, bytes_eq}
use huntkey.Crypto.{Crypto}
use huntkey.Core.Keys as Keys
use huntkey.Core.Keys.{root_identity, action, recovery, derive_role}
use huntkey.Intents.Intent.{SovereignIntent}
use huntkey.Sessions.{derive_session_key}
use huntkey.Demo.{to_array_32}
use huntkey.CrateTests.{
  Outcome, assert, plain_intent, plain_cert, plain_session, plain_request, intent_signer, delegator,
  session_signer, request_signer,
}

abbrev pub contract_11 : Bytes
contract_11 = replicate 20 0x11

abbrev pub contract_aa : Bytes
contract_aa = replicate 20 0xAA

abbrev pub contract_cc : Bytes
contract_cc = replicate 20 0xCC

abbrev pub target_bb : Bytes
target_bb = replicate 20 0xBB

abbrev pub target_dd : Bytes
target_dd = replicate 20 0xDD

abbrev pub claim_intent : SovereignIntent
claim_intent = record (plain_intent target_bb 1000000 1700000000 0) {
  required_claim = replicate 32 0x01;
  claim_proof_hash = replicate 32 0xDE;
}

abbrev pub sponsored_intent : SovereignIntent
sponsored_intent = record (plain_intent target_bb 1000000 1700000000 0) {
  gas_limit = 100000;
  max_fee_per_gas = 50000000000;
  max_priority_fee_per_gas = 2000000000;
  paymaster_mode = 1;
  paymaster = replicate 20 0xEE;
}

module _ (C : Crypto) (build : Build) (root : C.XPriv) where
  -- The steps that the tests of each kind of message share.
  unfoldable pub action_signs : SovereignIntent → Bytes → Option Outcome
  action_signs intent contract = do
    action_key ← derive_role C (Keys.new C root) action 0
    privkey ← to_array_32 action_key.private_key
    recovered ← intent_signer C build intent contract privkey
    expected ← action_key.eth_address
    assert (bytes_eq recovered expected)

  unfoldable pub root_endorses : Bytes → ℕ → ℕ → ℕ → Option Outcome
  root_endorses contract max_val exp nonce = do
    root_id ← derive_role C (Keys.new C root) root_identity 0
    action_key ← derive_role C (Keys.new C root) action 0
    delegate ← action_key.eth_address
    root_privkey ← to_array_32 root_id.private_key
    (certificate, recovered) ←
        delegator C build (plain_cert delegate max_val exp nonce) contract root_privkey
    expected ← root_id.eth_address
    assert (bytes_eq recovered expected)

  unfoldable pub guardian_signs : Bytes → ℕ → Option Outcome
  guardian_signs contract nonce = do
    guardian ← derive_role C (Keys.new C root) recovery 0
    guardian_privkey ← to_array_32 guardian.private_key
    recovered ←
        request_signer C build (plain_request contract_aa target_bb nonce) contract guardian_privkey
    expected ← guardian.eth_address
    assert (bytes_eq recovered expected)

  unfoldable pub session_certified : Bytes → ℕ → Option Outcome
  session_certified contract nonce = do
    action_key ← derive_role C (Keys.new C root) action 0
    action_privkey ← to_array_32 action_key.private_key
    session ← derive_session_key C action_privkey nonce 1
    parent ← action_key.eth_address
    (certificate, recovered) ←
        session_signer C build (plain_session session.eth_address parent target_dd 1000000) contract
          action_privkey
    assert (bytes_eq recovered parent)

  unfoldable pub prop_random_intents_produce_recoverable_signatures : ℕ → ℕ → ℕ → Option Outcome
  prop_random_intents_produce_recoverable_signatures max_val exp nonce =
      action_signs (plain_intent (replicate 20 0x22) max_val exp nonce) contract_11

  unfoldable pub prop_delegation_always_recoverable : ℕ → ℕ → ℕ → Option Outcome
  prop_delegation_always_recoverable = root_endorses contract_11

  unfoldable pub prop_recovery_always_recoverable : ℕ → Option Outcome
  prop_recovery_always_recoverable = guardian_signs contract_11

  unfoldable pub prop_session_cert_always_recoverable : ℕ → Option Outcome
  prop_session_cert_always_recoverable = session_certified contract_11

  unfoldable pub test_delegation_certificate_sign_and_recover : Option Outcome
  test_delegation_certificate_sign_and_recover = root_endorses contract_cc 1000000 1900000000 0

  unfoldable pub test_recovery_request_sign_and_recover : Option Outcome
  test_recovery_request_sign_and_recover = guardian_signs contract_cc 0

  unfoldable pub test_session_cert_sign_and_recover : Option Outcome
  test_session_cert_sign_and_recover = session_certified contract_cc 0

  unfoldable pub test_intent_with_claim_proof_hash : Option Outcome
  test_intent_with_claim_proof_hash = action_signs claim_intent contract_aa

  unfoldable pub test_intent_with_paymaster : Option Outcome
  test_intent_with_paymaster = action_signs sponsored_intent contract_aa
