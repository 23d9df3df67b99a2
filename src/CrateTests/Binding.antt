-- ===== src/CrateTests/Binding.antt =====
-- The tests of src/lib.rs that two messages have different signing hashes.
use huntkey.Prelude.{ℕ, not, Option, ◌>>=◌, replicate}
use huntkey.Prelude.Bytes.{Bytes, bytes_eq, zeros}
use huntkey.Crypto.{Crypto}
use huntkey.Intents.Intent.{SovereignIntent, intent_signing_hash}
use huntkey.Intents.Delegation.{DelegationCertificate, delegation_signing_hash}
use huntkey.Recovery.{RecoveryRequest, recovery_signing_hash}
use huntkey.CrateTests.{Outcome, assert, plain_intent, plain_cert, plain_request}
use huntkey.CrateTests.Proptests.{contract_aa, contract_cc, target_bb}

-- Both hashes are made, and `assert_ne!` compares them.
abbrev pub assert_ne : Option Bytes → Option Bytes → Option Outcome
assert_ne first second = do h1 ← first; h2 ← second; assert (not (bytes_eq h1 h2))

abbrev pub cert_on : ℕ → DelegationCertificate
cert_on chain_id = record (plain_cert target_bb 500000 1800000000 0) { chain_id = chain_id }

abbrev pub request_on : ℕ → RecoveryRequest
request_on chain_id = record (plain_request target_bb contract_cc 0) { chain_id = chain_id }

abbrev pub request_with : ℕ → RecoveryRequest
request_with nonce = plain_request target_bb contract_cc nonce

-- The test's `make_intent` with a paymaster, and the other test's with a claim proof.
abbrev pub paid_intent : ℕ → Bytes → SovereignIntent
paid_intent mode pm = record (plain_intent target_bb 1000000 1700000000 0) {
  paymaster_mode = mode;
  paymaster = pm;
}

abbrev pub proved_intent : Bytes → SovereignIntent
proved_intent proof = record (plain_intent target_bb 1000000 1700000000 0) {
  claim_proof_hash = proof;
}

module _ (C : Crypto) where
  unfoldable pub test_delegation_chain_id_binding : Option Outcome
  test_delegation_chain_id_binding =
      assert_ne (delegation_signing_hash C (cert_on 1) contract_aa)
        (delegation_signing_hash C (cert_on 137) contract_aa)

  unfoldable pub test_recovery_hash_chain_id_binding : Option Outcome
  test_recovery_hash_chain_id_binding =
      assert_ne (recovery_signing_hash C (request_on 1) contract_aa)
        (recovery_signing_hash C (request_on 137) contract_aa)

  unfoldable pub test_recovery_hash_nonce_binding : Option Outcome
  test_recovery_hash_nonce_binding =
      assert_ne (recovery_signing_hash C (request_with 0) contract_aa)
        (recovery_signing_hash C (request_with 1) contract_aa)

  unfoldable pub test_different_paymaster_modes_produce_different_hashes : Option Outcome
  test_different_paymaster_modes_produce_different_hashes = do
    h0 ← intent_signing_hash C (paid_intent 0 (zeros 20)) contract_aa
    h1 ← intent_signing_hash C (paid_intent 1 (zeros 20)) contract_aa
    h2 ← intent_signing_hash C (paid_intent 1 (replicate 20 0xEE)) contract_aa
    modes_differ ← assert (not (bytes_eq h0 h1))
    assert (not (bytes_eq h1 h2))

  unfoldable pub test_claim_proof_hash_binding : Option Outcome
  test_claim_proof_hash_binding =
      assert_ne (intent_signing_hash C (proved_intent (zeros 32)) contract_aa)
        (intent_signing_hash C (proved_intent (replicate 32 0xAA)) contract_aa)
