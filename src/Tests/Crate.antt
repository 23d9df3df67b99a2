-- ===== src/Tests/Crate.antt =====
-- The tests of src/lib.rs with the toy cryptography and the root 9.
use huntkey.Prelude.{ℕ, ◌≡◌, ◌≢◌, ◌↔◌, ◌⊎◌, ◌+◌, ◌∷◌, refl, some, replicate, arith, release}
use huntkey.Prelude.Bytes.{Bytes, zeros, to_be_bytes}
use huntkey.Prelude.Decimal.{codes, to_decimal}
use mathlib.Core.List.{foldl}
use huntkey.Crypto.{Crypto, IsHash, IsEcdsa}
use huntkey.Crypto.Toy.{toy, toy-IsHash, toy-IsEcdsa, digest_of}
use huntkey.Core.Keys.{action, recovery, role_path, segment, eth_address}
use huntkey.Sessions.{SessionKey, session_info, derive_session_key}
use huntkey.Sessions.Derivation.{IsRequest, HkdfCollides, derive_session_key_inj}
use huntkey.Core.Keys.Paths.{Derives}
use huntkey.Intents.Intent.Laws.{intent_message}
use huntkey.Intents.Delegation.Laws.{delegation_message}
use huntkey.Recovery.Laws.{recovery_message}
use huntkey.CrateTests.{passed}
use huntkey.CrateTests.Proptests.{
  prop_random_intents_produce_recoverable_signatures, prop_delegation_always_recoverable,
  prop_recovery_always_recoverable, prop_session_cert_always_recoverable,
}
use huntkey.CrateTests.Passing.{proptests_pass}
use huntkey.CrateTests.Flows.{test_end_to_end_protocol_flow}
use huntkey.CrateTests.EndToEnd.{address_of, key_at, test_end_to_end_protocol_flow_iff}
use huntkey.CrateTests.Binding.{
  cert_on, request_on, request_with, paid_intent, proved_intent, test_delegation_chain_id_binding,
  test_recovery_hash_chain_id_binding, test_recovery_hash_nonce_binding,
  test_different_paymaster_modes_produce_different_hashes, test_claim_proof_hash_binding,
}
use huntkey.CrateTests.Separate.{Collision, binding_tests_pass}

-- The toy with an HKDF whose output is the last byte of its info, which is that of the chain.
abbrev by_chain : Crypto
by_chain = record toy {
  hkdf_sha256 = λ salt ikm info n. some (foldl (λ (a b : ℕ). b) 0 info ∷ zeros 31);
}

by_chain-IsHash : IsHash by_chain
by_chain-IsHash = record { length-keccak = toy-IsHash.length-keccak }

by_chain-IsEcdsa : IsEcdsa by_chain
by_chain-IsEcdsa = record {
  length-key_bytes = toy-IsEcdsa.length-key_bytes;
  length-signature_bytes = toy-IsEcdsa.length-signature_bytes;
  signature-signature_bytes = toy-IsEcdsa.signature-signature_bytes;
  recovery_byte-le = toy-IsEcdsa.recovery_byte-le;
  recovery_id-recovery_byte = toy-IsEcdsa.recovery_id-recovery_byte;
  recovery_id_large = toy-IsEcdsa.recovery_id_large;
  signing_key-key_bytes = toy-IsEcdsa.signing_key-key_bytes;
  signs = toy-IsEcdsa.signs;
  recover-sign = toy-IsEcdsa.recover-sign;
}

abbrev toy_derives : Derives by_chain 9
toy_derives = record {
  key = λ role index. 9 + digest_of (codes (role_path role index));
  found = λ role index h. refl;
}

abbrev action_key : ℕ
action_key = 9 + digest_of (codes (role_path action 0))

proptests_pass_example :
    (prop_random_intents_produce_recoverable_signatures by_chain release 9 1000 2000 5
      ≡ some passed)
    × (prop_delegation_always_recoverable by_chain release 9 1000 2000 5 ≡ some passed)
    × (prop_recovery_always_recoverable by_chain release 9 5 ≡ some passed)
    × (prop_session_cert_always_recoverable by_chain release 9 5 ≡ some passed)
unfolding session_info to_be_bytes role_path segment to_decimal
proptests_pass_example =
    proptests_pass by_chain by_chain-IsHash by_chain-IsEcdsa release 9 toy_derives 1000 2000 5
      (1 ∷ zeros 31, 1, refl, refl) (omega arith) (omega arith) (omega arith)

abbrev guardian : ℕ → ℕ
guardian = key_at by_chain 9 toy_derives recovery

test_end_to_end_protocol_flow_iff_example :
    (test_end_to_end_protocol_flow by_chain release 9 ≡ some passed) ↔ (
      (address_of by_chain (guardian 0) ≢ address_of by_chain (guardian 1))
      × (address_of by_chain (guardian 1) ≢ address_of by_chain (guardian 2))
      × (address_of by_chain 1 ≢ address_of by_chain 137))
unfolding to_be_bytes role_path segment to_decimal session_info
test_end_to_end_protocol_flow_iff_example =
    test_end_to_end_protocol_flow_iff by_chain by_chain-IsHash by_chain-IsEcdsa release 9
      toy_derives (1 ∷ zeros 31, 1, refl, refl) (137 ∷ zeros 31, 137, refl, refl)

binding_tests_pass_example :
    ((test_delegation_chain_id_binding toy ≡ some passed)
      ⊎ Collision toy toy-IsHash (delegation_message toy toy-IsHash) (cert_on 1) (cert_on 137))
    × ((test_recovery_hash_chain_id_binding toy ≡ some passed)
        ⊎ Collision toy toy-IsHash
            (recovery_message toy toy-IsHash)
            (request_on 1)
            (request_on 137))
    × ((test_recovery_hash_nonce_binding toy ≡ some passed)
        ⊎ Collision toy toy-IsHash
            (recovery_message toy toy-IsHash)
            (request_with 0)
            (request_with 1))
    × ((test_different_paymaster_modes_produce_different_hashes toy ≡ some passed)
        ⊎ (Collision toy toy-IsHash
              (intent_message toy toy-IsHash)
              (paid_intent 0 (zeros 20))
              (paid_intent 1 (zeros 20))
            ⊎ Collision toy toy-IsHash
                (intent_message toy toy-IsHash)
                (paid_intent 1 (zeros 20))
                (paid_intent 1 (replicate 20 0xEE))))
    × ((test_claim_proof_hash_binding toy ≡ some passed)
        ⊎ Collision toy toy-IsHash
            (intent_message toy toy-IsHash)
            (proved_intent (zeros 32))
            (proved_intent (replicate 32 0xAA)))
binding_tests_pass_example = binding_tests_pass toy toy-IsHash

-- The session key that this HKDF gives on every chain whose last byte is 1.
abbrev session_of : SessionKey
session_of = record {
  private_key = 1 ∷ zeros 31;
  public_key = by_chain.sec1_bytes 1;
  eth_address = eth_address by_chain 1;
}

on_chain_1 : derive_session_key by_chain (5 ∷ zeros 31) 4 1 ≡ some session_of
unfolding derive_session_key session_info to_be_bytes
on_chain_1 = refl

on_chain_257 : derive_session_key by_chain (5 ∷ zeros 31) 6 257 ≡ some session_of
unfolding derive_session_key session_info to_be_bytes
on_chain_257 = refl

derive_session_key_inj_example :
    ((5 ∷ zeros 31 ≡ 5 ∷ zeros 31) × (◌≡◌ {A = ℕ} 4 6) × (◌≡◌ {A = ℕ} 1 257))
    ⊎ ((info : Bytes) × (info' : Bytes) × IsRequest by_chain (5 ∷ zeros 31) 4 1 info
        × IsRequest by_chain (5 ∷ zeros 31) 6 257 info'
        × HkdfCollides by_chain (5 ∷ zeros 31) info (5 ∷ zeros 31) info')
derive_session_key_inj_example =
    derive_session_key_inj by_chain by_chain-IsEcdsa (5 ∷ zeros 31) 4 1 (5 ∷ zeros 31) 6 257
      {session = session_of} {session' = session_of} (omega arith) (omega arith) (omega arith)
      (omega arith) on_chain_1 on_chain_257 refl
