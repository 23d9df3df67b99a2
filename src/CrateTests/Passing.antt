-- ===== src/CrateTests/Passing.antt =====
-- The tests of src/lib.rs that sign one message pass: the property tests, whatever numbers are
-- generated, and those of a fixed message.
use huntkey.Prelude.{ℕ, ◌≡◌, refl, some, replicate, arith, Build, IsU64, IsU128}
use huntkey.Prelude.Bytes.{zeros, Bytes, IsArray}
use huntkey.Prelude.Decimal.{codes}
use huntkey.Prelude.Members.{bytes_eq_refl}
use huntkey.Crypto.{Crypto, IsHash, IsEcdsa}
use huntkey.Core.Keys as Keys
use huntkey.Core.Keys.{
  KeyRole, root_identity, action, recovery, eth_address, role_path, derive_key, derive_role,
}
use huntkey.Sessions.{session_info}
use huntkey.Sessions.Derivation.{derive_session_key_lem}
use huntkey.Demo.Laws.{to_array_32_lem, length-eth_address}
use huntkey.Core.Keys.Paths.{Derives}
use huntkey.CrateTests.{passed, plain_intent, plain_cert, plain_session, plain_request}
use huntkey.CrateTests.Proptests.{
  contract_11, contract_aa, contract_cc, target_bb, target_dd, claim_intent, sponsored_intent,
  action_signs, root_endorses, guardian_signs, session_certified,
  prop_random_intents_produce_recoverable_signatures, prop_delegation_always_recoverable,
  prop_recovery_always_recoverable, prop_session_cert_always_recoverable,
  test_delegation_certificate_sign_and_recover, test_recovery_request_sign_and_recover,
  test_session_cert_sign_and_recover, test_intent_with_claim_proof_hash, test_intent_with_paymaster,
}
use huntkey.Intents.Intent.{SovereignIntent}
use huntkey.Intents.Intent.Preimage as Intent
use huntkey.CrateTests.Recoverable.{
  varied_intent-IsValid, plain_intent-IsValid, plain_cert-IsValid, plain_session-IsValid,
  plain_request-IsValid, intent_signer_lem, delegator_lem, session_signer_lem, request_signer_lem,
}

-- HKDF gives the session of the action key with this nonce and chain a valid key.
abbrev pub Expands : (C : Crypto) → C.XPriv → ℕ → ℕ → Type 0
Expands C a nonce chain_id =
    (okm : Bytes) × (s : C.SigningKey) × (C.hkdf_sha256 (codes "HuntKey-V1-Session-Key")
        (C.key_bytes (C.xpriv_key a))
        (session_info (C.sec1_bytes (C.verifying_key (C.xpriv_key a))) nonce chain_id) 32
      ≡ some okm)
    × (C.signing_key okm ≡ some s)

claim_intent-IsValid : Intent.IsValid claim_intent
claim_intent-IsValid =
    varied_intent-IsValid target_bb (zeros 20) (zeros 32) 1000000 1700000000 0 0 0 0
      (replicate 32 0x01) (replicate 32 0xDE) 0 (zeros 20) refl refl refl (omega arith)
      (omega arith) (omega arith) (omega arith) (omega arith) (omega arith) refl refl (omega arith)
      refl

sponsored_intent-IsValid : Intent.IsValid sponsored_intent
sponsored_intent-IsValid =
    varied_intent-IsValid target_bb (zeros 20) (zeros 32) 1000000 1700000000 0 100000 50000000000
      2000000000 (zeros 32) (zeros 32) 1 (replicate 20 0xEE) refl refl refl (omega arith)
      (omega arith) (omega arith) (omega arith) (omega arith) (omega arith) refl refl (omega arith)
      refl

module _ (C : Crypto) (H : IsHash C) (L : IsEcdsa C) (build : Build) (root : C.XPriv) where
  action_signs_lem :
      (a : C.XPriv) (m : SovereignIntent) (c : Bytes)
      → C.derive_path root (role_path action 0) ≡ some a
      → Intent.IsValid m
      → IsArray 20 c
      → action_signs C build root m c ≡ some passed
  unfolding action_signs derive_role derive_key Keys.new
  action_signs_lem a m c e h hc =
      let k = C.xpriv_key a in
      rw
        (
          e,
          to_array_32_lem (C.key_bytes k) (L.length-key_bytes k),
          intent_signer_lem C H L build k c (C.key_bytes k) m h hc (L.signing_key-key_bytes k),
          bytes_eq_refl (eth_address C (C.verifying_key k)),
        )
        refl

  root_endorses_lem :
      (r a : C.XPriv) (c : Bytes) (max_val exp nonce : ℕ)
      → C.derive_path root (role_path root_identity 0) ≡ some r
      → C.derive_path root (role_path action 0) ≡ some a
      → IsArray 20 c
      → IsU128 max_val
      → IsU64 exp
      → IsU64 nonce
      → root_endorses C build root c max_val exp nonce ≡ some passed
  unfolding root_endorses derive_role derive_key Keys.new
  root_endorses_lem r a c max_val exp nonce er ea hc v x n =
      let delegate = eth_address C (C.verifying_key (C.xpriv_key a)) in
      let k = C.xpriv_key r in
      rw
        (
          er,
          ea,
          to_array_32_lem (C.key_bytes k) (L.length-key_bytes k),
          delegator_lem C H L build k c (C.key_bytes k) (plain_cert delegate max_val exp nonce)
              (plain_cert-IsValid delegate max_val exp nonce
                (length-eth_address C H (C.verifying_key (C.xpriv_key a))) v x n)
              hc (L.signing_key-key_bytes k),
          bytes_eq_refl (eth_address C (C.verifying_key k)),
        )
        refl

  guardian_signs_lem :
      (g : C.XPriv) (c : Bytes) (nonce : ℕ)
      → C.derive_path root (role_path recovery 0) ≡ some g
      → IsArray 20 c
      → IsU64 nonce
      → guardian_signs C build root c nonce ≡ some passed
  unfolding guardian_signs derive_role derive_key Keys.new
  guardian_signs_lem g c nonce e hc n =
      let k = C.xpriv_key g in
      rw
        (
          e,
          to_array_32_lem (C.key_bytes k) (L.length-key_bytes k),
          request_signer_lem C H L build k c (C.key_bytes k)
              (plain_request contract_aa target_bb nonce)
              (plain_request-IsValid contract_aa target_bb nonce refl refl n) hc
              (L.signing_key-key_bytes k),
          bytes_eq_refl (eth_address C (C.verifying_key k)),
        )
        refl

  session_certified_lem :
      (a : C.XPriv) (c : Bytes) (nonce : ℕ)
      → C.derive_path root (role_path action 0) ≡ some a
      → IsArray 20 c
      → Expands C a nonce 1
      → session_certified C build root c nonce ≡ some passed
  unfolding session_certified derive_role derive_key Keys.new
  session_certified_lem a c nonce e hc (okm, s, expanded, parsed) =
      let k = C.xpriv_key a in
      let parent = eth_address C (C.verifying_key k) in
      let (session, derived, _, address) =
        derive_session_key_lem C L (C.key_bytes k) nonce 1 okm {parent = k} {k = s}
          (L.signing_key-key_bytes k) expanded parsed in
      let width : IsArray 20 session.eth_address =
        rw address (length-eth_address C H (C.verifying_key s)) in
      rw
        (
          e,
          to_array_32_lem (C.key_bytes k) (L.length-key_bytes k),
          derived,
          session_signer_lem C H L build k c (C.key_bytes k)
              (plain_session session.eth_address parent target_dd 1000000)
              (plain_session-IsValid session.eth_address parent target_dd 1000000 width
                (length-eth_address C H (C.verifying_key k)) refl (omega arith))
              hc (L.signing_key-key_bytes k),
          bytes_eq_refl (eth_address C (C.verifying_key k)),
        )
        refl

  -- If the first three keys of each role derive and HKDF gives the session of the nonce a valid
  -- key, each of the four property tests of signing passes for a 128-bit value, a 64-bit expiration
  -- and a 64-bit nonce, in either build, whatever the root: no call panics, and the recovered
  -- address is that of the key that signed.
  pub proptests_pass :
      (derives : Derives C root) (max_val exp nonce : ℕ)
      → Expands C (derives.key action 0) nonce 1
      → IsU128 max_val
      → IsU64 exp
      → IsU64 nonce
      → (prop_random_intents_produce_recoverable_signatures C build root max_val exp nonce
          ≡ some passed)
        × (prop_delegation_always_recoverable C build root max_val exp nonce ≡ some passed)
        × (prop_recovery_always_recoverable C build root nonce ≡ some passed)
        × (prop_session_cert_always_recoverable C build root nonce ≡ some passed)
  unfolding prop_random_intents_produce_recoverable_signatures prop_delegation_always_recoverable
      prop_recovery_always_recoverable prop_session_cert_always_recoverable
  proptests_pass derives max_val exp nonce x v e n =
      let at = λ (role : KeyRole). derives.found role 0 (omega arith) in
      (
        action_signs_lem _ (plain_intent (replicate 20 0x22) max_val exp nonce) contract_11
            (at action) (plain_intent-IsValid (replicate 20 0x22) max_val exp nonce refl v e n)
            refl,
        root_endorses_lem _ _ contract_11 max_val exp nonce (at root_identity) (at action) refl v e
            n,
        guardian_signs_lem _ contract_11 nonce (at recovery) refl n,
        session_certified_lem _ contract_11 nonce (at action) refl x,
      )

  -- If the first three keys of each role derive and HKDF gives the session of nonce 0 a valid key,
  -- the tests that sign a fixed message pass, in either build and whatever the root: a delegation,
  -- a recovery request, a session certificate, an intent with a claim proof and a sponsored intent.
  fixed_messages_pass :
      (derives : Derives C root)
      → Expands C (derives.key action 0) 0 1
      → (test_delegation_certificate_sign_and_recover C build root ≡ some passed)
        × (test_recovery_request_sign_and_recover C build root ≡ some passed)
        × (test_session_cert_sign_and_recover C build root ≡ some passed)
        × (test_intent_with_claim_proof_hash C build root ≡ some passed)
        × (test_intent_with_paymaster C build root ≡ some passed)
  unfolding test_delegation_certificate_sign_and_recover test_recovery_request_sign_and_recover
      test_session_cert_sign_and_recover test_intent_with_claim_proof_hash
      test_intent_with_paymaster
  fixed_messages_pass derives x =
      let at = λ (role : KeyRole). derives.found role 0 (omega arith) in
      (
        root_endorses_lem _ _ contract_cc 1000000 1900000000 0 (at root_identity) (at action) refl
            (omega arith) (omega arith) (omega arith),
        guardian_signs_lem _ contract_cc 0 (at recovery) refl (omega arith),
        session_certified_lem _ contract_cc 0 (at action) refl x,
        action_signs_lem _ claim_intent contract_aa (at action) claim_intent-IsValid refl,
        action_signs_lem _ sponsored_intent contract_aa (at action) sponsored_intent-IsValid refl,
      )
