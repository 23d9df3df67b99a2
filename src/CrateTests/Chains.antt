-- ===== src/CrateTests/Chains.antt =====
-- The tests of src/lib.rs that follow a flow of the protocol pass.
use huntkey.Prelude.{◌≡◌, refl, some, arith, Build}
use huntkey.Prelude.Bytes.{IsArray}
use huntkey.Prelude.Members.{bytes_eq_refl}
use huntkey.Crypto.{Crypto, IsHash, IsEcdsa}
use huntkey.Core.Keys as Keys
use huntkey.Core.Keys.{
  KeyRole, root_identity, action, eth_address, role_path, derive_key, derive_role, next_action_key,
}
use huntkey.Sessions.Derivation.{derive_session_key_lem}
use huntkey.Demo.Laws.{to_array_32_lem, length-eth_address}
use huntkey.Core.Keys.Paths.{Derives}
use huntkey.CrateTests.{passed, plain_intent, plain_cert, plain_session}
use huntkey.CrateTests.Proptests.{contract_cc, target_dd}
use huntkey.CrateTests.Flows.{test_full_delegation_flow, test_session_key_signs_intent}
use huntkey.CrateTests.Recoverable.{
  plain_intent-IsValid, plain_cert-IsValid, plain_session-IsValid, intent_signer_lem, delegator_lem,
  session_signer_lem,
}
use huntkey.CrateTests.Passing.{Expands}

module _ (C : Crypto) (H : IsHash C) (L : IsEcdsa C) (build : Build) (root : C.XPriv) where
  test_full_delegation_flow_lem :
      (r a : C.XPriv)
      → C.derive_path root (role_path root_identity 0) ≡ some r
      → C.derive_path root (role_path action 0) ≡ some a
      → test_full_delegation_flow C build root ≡ some passed
  unfolding test_full_delegation_flow derive_role derive_key next_action_key Keys.new
  test_full_delegation_flow_lem r a er ea =
      let rk = C.xpriv_key r in
      let ak = C.xpriv_key a in
      let address = eth_address C (C.verifying_key ak) in
      rw
        (
          er,
          ea,
          to_array_32_lem (C.key_bytes rk) (L.length-key_bytes rk),
          delegator_lem C H L build rk contract_cc (C.key_bytes rk)
              (plain_cert address 2000000000000000000 1900000000 0)
              (plain_cert-IsValid address 2000000000000000000 1900000000 0
                (length-eth_address C H (C.verifying_key ak)) (omega arith) (omega arith)
                (omega arith))
              refl (L.signing_key-key_bytes rk),
          bytes_eq_refl (eth_address C (C.verifying_key rk)),
          to_array_32_lem (C.key_bytes ak) (L.length-key_bytes ak),
          intent_signer_lem C H L build ak contract_cc (C.key_bytes ak)
              (plain_intent target_dd 1000000000000000000 1800000000 0)
              (plain_intent-IsValid target_dd 1000000000000000000 1800000000 0 refl (omega arith)
                (omega arith) (omega arith))
              refl (L.signing_key-key_bytes ak),
          bytes_eq_refl address,
        )
        refl

  test_session_key_signs_intent_lem :
      (a : C.XPriv)
      → C.derive_path root (role_path action 0) ≡ some a
      → Expands C a 42 1
      → test_session_key_signs_intent C build root ≡ some passed
  unfolding test_session_key_signs_intent derive_role derive_key Keys.new
  test_session_key_signs_intent_lem a e (okm, s, expanded, parsed) =
      let k = C.xpriv_key a in
      let parent = eth_address C (C.verifying_key k) in
      let (session, derived, session_parsed, address) =
        derive_session_key_lem C L (C.key_bytes k) 42 1 okm {parent = k} {k = s}
          (L.signing_key-key_bytes k) expanded parsed in
      let width : IsArray 20 session.eth_address =
        rw address (length-eth_address C H (C.verifying_key s)) in
      rw
        (
          e,
          to_array_32_lem (C.key_bytes k) (L.length-key_bytes k),
          derived,
          session_signer_lem C H L build k contract_cc (C.key_bytes k)
              (plain_session session.eth_address parent target_dd 2000000)
              (plain_session-IsValid session.eth_address parent target_dd 2000000 width
                (length-eth_address C H (C.verifying_key k)) refl (omega arith))
              refl (L.signing_key-key_bytes k),
          intent_signer_lem C H L build s contract_cc session.private_key
              (plain_intent target_dd 1000000 1800000000 0)
              (plain_intent-IsValid target_dd 1000000 1800000000 0 refl (omega arith) (omega arith)
                (omega arith))
              refl session_parsed,
          bytes_eq_refl parent,
          address,
          bytes_eq_refl (eth_address C (C.verifying_key s)),
        )
        refl

  -- If the first three keys of each role derive, the test of the delegation flow passes, in either
  -- build and whatever the root; and so does that of an intent signed by a session key, if HKDF
  -- gives the session of nonce 42 a valid key.
  flows_pass :
      (derives : Derives C root)
      → Expands C (derives.key action 0) 42 1
      → (test_full_delegation_flow C build root ≡ some passed)
        × (test_session_key_signs_intent C build root ≡ some passed)
  flows_pass derives x =
      let at = λ (role : KeyRole). derives.found role 0 (omega arith) in
      (
        test_full_delegation_flow_lem _ _ (at root_identity) (at action),
        test_session_key_signs_intent_lem _ (at action) x,
      )
