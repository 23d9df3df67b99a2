-- ===== src/CrateTests/Separate.antt =====
-- The tests of src/lib.rs on different signing hashes pass, or Keccak collides.
use huntkey.Prelude.{
  ℕ, IsU8, IsU64, ◌≡◌, ◌≢◌, ◌∙◌, sym, refl, ap, ◌⊎◌, inl, inr, false, some, replicate, arith,
  Bool-cases,
}
use huntkey.Prelude.Bytes.{Bytes, IsArray, bytes_eq, bytes_eq_iff, zeros}
use huntkey.Crypto.{Crypto, IsHash}
use huntkey.Core.Hash.{keccak256, typed_data_hash}
use huntkey.Core.Hash.Binding.{AnyCollides, preimages, domain_preimage}
use huntkey.Signing.Message.{Message, signing_hash_inj}
use huntkey.Intents.Intent.{SovereignIntent}
use huntkey.Intents.Intent.Preimage as Intent
use huntkey.Intents.Intent.Laws.{intent_message}
use huntkey.Intents.Delegation.{DelegationCertificate}
use huntkey.Intents.Delegation.Laws as Delegation
use huntkey.Intents.Delegation.Laws.{delegation_message}
use huntkey.Recovery.{RecoveryRequest}
use huntkey.Recovery.Laws as Request
use huntkey.Recovery.Laws.{recovery_message}
use huntkey.CrateTests.{passed}
use huntkey.CrateTests.Proptests.{contract_aa, contract_cc, target_bb}
use huntkey.CrateTests.Recoverable.{plain_request-IsValid, varied_intent-IsValid}
use huntkey.CrateTests.Binding.{
  assert_ne, cert_on, request_on, request_with, paid_intent, proved_intent,
  test_delegation_chain_id_binding, test_recovery_hash_chain_id_binding,
  test_recovery_hash_nonce_binding, test_different_paymaster_modes_produce_different_hashes,
  test_claim_proof_hash_binding,
}

paid_intent-IsValid :
    (mode : ℕ) (pm : Bytes) → IsU8 mode → IsArray 20 pm → Intent.IsValid (paid_intent mode pm)
paid_intent-IsValid mode pm h k =
    varied_intent-IsValid target_bb (zeros 20) (zeros 32) 1000000 1700000000 0 0 0 0 (zeros 32)
      (zeros 32) mode pm refl refl refl (omega arith) (omega arith) (omega arith) (omega arith)
      (omega arith) (omega arith) refl refl h k

proved_intent-IsValid : (proof : Bytes) → IsArray 32 proof → Intent.IsValid (proved_intent proof)
proved_intent-IsValid proof h =
    varied_intent-IsValid target_bb (zeros 20) (zeros 32) 1000000 1700000000 0 0 0 0 (zeros 32)
      proof 0 (zeros 20) refl refl refl (omega arith) (omega arith) (omega arith) (omega arith)
      (omega arith) (omega arith) refl h (omega arith) refl

cert_on-IsValid : (chain_id : ℕ) → IsU64 chain_id → Delegation.IsValid (cert_on chain_id)
cert_on-IsValid chain_id h = record {
  delegate = refl;
  scope = refl;
  max_value = omega arith;
  expiration = omega arith;
  chain_id = h;
  nonce = omega arith;
}

request_on-IsValid : (chain_id : ℕ) → IsU64 chain_id → Request.IsValid (request_on chain_id)
request_on-IsValid chain_id h = record {
  old_root = refl;
  new_root = refl;
  chain_id = h;
  nonce = omega arith;
}

module _ (C : Crypto) (H : IsHash C) where
  -- Keccak collides on preimages of two messages for the contract of the tests.
  abbrev pub Collision : (M : Message C) → M.Body → M.Body → Type 0
  Collision M m n = AnyCollides C (
      preimages C (domain_preimage C (M.chain_id m) contract_aa) (M.preimage m)
        (domain_preimage C (M.chain_id n) contract_aa) (M.preimage n))

  abbrev digest : (M : Message C) → M.Body → Bytes
  digest M m =
      typed_data_hash C (keccak256 C (domain_preimage C (M.chain_id m) contract_aa))
        (keccak256 C (M.preimage m))

  digests_differ :
      (M : Message C) (m n : M.Body)
      → M.IsValid m
      → M.IsValid n
      → m ≢ n
      → (bytes_eq (digest M m) (digest M n) ≡ false) ⊎ Collision M m n
  digests_differ M m n h k ne = elim (Bool-cases (bytes_eq (digest M m) (digest M n))) [
    | inr differ ↦ inl differ
    | inl same ↦
        let hashes : M.signing_hash m contract_aa ≡ M.signing_hash n contract_aa =
          M.signing_hash_lem m contract_aa h refl
          ∙ ap some ((bytes_eq_iff (digest M m) (digest M n)).0 same)
          ∙ sym (M.signing_hash_lem n contract_aa k refl) in
        elim (signing_hash_inj C H M m contract_aa n contract_aa h k refl refl hashes) [
          | inl (equal, _) ↦ absurd (ne equal)
          | inr found ↦ inr found
        ]
  ]

  assert_ne_lem :
      (M : Message C) (m n : M.Body)
      → M.IsValid m
      → M.IsValid n
      → m ≢ n
      → (assert_ne (M.signing_hash m contract_aa) (M.signing_hash n contract_aa) ≡ some passed)
        ⊎ Collision M m n
  assert_ne_lem M m n h k ne = elim (digests_differ M m n h k ne) [
    | inr found ↦ inr found
    | inl differ ↦ inl (
        rw
          (M.signing_hash_lem m contract_aa h refl, M.signing_hash_lem n contract_aa k refl, differ)
          refl)
  ]

  paymaster_modes_lem :
      (test_different_paymaster_modes_produce_different_hashes C ≡ some passed)
      ⊎ (Collision (intent_message C H) (paid_intent 0 (zeros 20)) (paid_intent 1 (zeros 20))
          ⊎ Collision
              (intent_message C H)
              (paid_intent 1 (zeros 20))
              (paid_intent 1 (replicate 20 0xEE)))
  unfolding test_different_paymaster_modes_produce_different_hashes
  paymaster_modes_lem =
      let M = intent_message C H in
      let m0 = paid_intent 0 (zeros 20) in
      let m1 = paid_intent 1 (zeros 20) in
      let m2 = paid_intent 1 (replicate 20 0xEE) in
      let h0 = paid_intent-IsValid 0 (zeros 20) (omega arith) refl in
      let h1 = paid_intent-IsValid 1 (zeros 20) (omega arith) refl in
      let h2 = paid_intent-IsValid 1 (replicate 20 0xEE) (omega arith) refl in
      elim (digests_differ M m0 m1 h0 h1
        (λ e. absurd (ground (arith, ap (λ (m : SovereignIntent). m.paymaster_mode) e)))) [
          | inr found ↦ inr (inl found)
          | inl modes ↦
              elim (digests_differ M m1 m2 h1 h2
                (λ e. absurd (ground (arith, ap (λ (m : SovereignIntent). m.paymaster) e)))) [
                  | inr found ↦ inr (inr found)
                  | inl payers ↦ inl (
                      rw
                        (
                          M.signing_hash_lem m0 contract_aa h0 refl,
                          M.signing_hash_lem m1 contract_aa h1 refl,
                          M.signing_hash_lem m2 contract_aa h2 refl,
                          modes,
                          payers,
                        )
                        refl)
                ]
        ]

  -- Each of the five tests that two messages have different signing hashes passes, or Keccak
  -- collides on the framed, the domain or the struct preimages of two messages that the test
  -- compares: a delegation or a recovery request on the chains 1 and 137, a recovery request with
  -- the nonces 0 and 1, an intent with another paymaster mode, with another paymaster, or with
  -- another claim proof.
  pub binding_tests_pass :
      ((test_delegation_chain_id_binding C ≡ some passed)
        ⊎ Collision (delegation_message C H) (cert_on 1) (cert_on 137))
      × ((test_recovery_hash_chain_id_binding C ≡ some passed)
          ⊎ Collision (recovery_message C H) (request_on 1) (request_on 137))
      × ((test_recovery_hash_nonce_binding C ≡ some passed)
          ⊎ Collision (recovery_message C H) (request_with 0) (request_with 1))
      × ((test_different_paymaster_modes_produce_different_hashes C ≡ some passed)
          ⊎ (Collision (intent_message C H) (paid_intent 0 (zeros 20)) (paid_intent 1 (zeros 20))
              ⊎ Collision
                  (intent_message C H)
                  (paid_intent 1 (zeros 20))
                  (paid_intent 1 (replicate 20 0xEE))))
      × ((test_claim_proof_hash_binding C ≡ some passed)
          ⊎ Collision
              (intent_message C H)
              (proved_intent (zeros 32))
              (proved_intent (replicate 32 0xAA)))
  unfolding test_delegation_chain_id_binding test_recovery_hash_chain_id_binding
      test_recovery_hash_nonce_binding test_claim_proof_hash_binding
  binding_tests_pass = (
    assert_ne_lem (delegation_message C H) (cert_on 1) (cert_on 137)
        (cert_on-IsValid 1 (omega arith)) (cert_on-IsValid 137 (omega arith))
        (λ e. absurd (ground (arith, ap (λ (m : DelegationCertificate). m.chain_id) e))),
    assert_ne_lem (recovery_message C H) (request_on 1) (request_on 137)
        (request_on-IsValid 1 (omega arith)) (request_on-IsValid 137 (omega arith))
        (λ e. absurd (ground (arith, ap (λ (m : RecoveryRequest). m.chain_id) e))),
    assert_ne_lem (recovery_message C H) (request_with 0) (request_with 1)
        (plain_request-IsValid target_bb contract_cc 0 refl refl (omega arith))
        (plain_request-IsValid target_bb contract_cc 1 refl refl (omega arith))
        (λ e. absurd (ground (arith, ap (λ (m : RecoveryRequest). m.nonce) e))),
    paymaster_modes_lem,
    assert_ne_lem (intent_message C H) (proved_intent (zeros 32))
        (proved_intent (replicate 32 0xAA)) (proved_intent-IsValid (zeros 32) refl)
        (proved_intent-IsValid (replicate 32 0xAA) refl)
        (λ e. absurd (ground (arith, ap (λ (m : SovereignIntent). m.claim_proof_hash) e))),
  )
