-- ===== src/CrateTests/Flows.antt =====
-- The tests of src/lib.rs that follow a whole flow of the protocol.
use huntkey.Prelude.{
  Bool, true, false, not, Option, none, some, [], ◌∷◌, ◌>>=◌, replicate, Build, leb,
}
use huntkey.Prelude.Bytes.{Bytes, bytes_eq}
use huntkey.Crypto.{Crypto}
use huntkey.Core.Hash.{call_data_hash}
use huntkey.Core.Keys as Keys
use huntkey.Core.Keys.{root_identity, action, recovery, derive_role, next_action_key}
use huntkey.Intents.Intent.{SovereignIntent}
use huntkey.Recovery as Recovery
use huntkey.Recovery.{add_approval, threshold_met}
use huntkey.Sessions.{derive_session_key}
use huntkey.Demo.{to_array_32}
use huntkey.CrateTests.Proptests.{contract_aa, contract_cc, target_bb, target_dd}
use huntkey.CrateTests.{
  Outcome, assert, plain_intent, plain_cert, plain_session, plain_request, intent_signer, delegator,
  session_signer, request_signer,
}

-- `==` of two `Option<[u8; 20]>`.
abbrev pub option_eq : Option Bytes → Option Bytes → Bool
option_eq none none = true
option_eq (some a) (some b) = bytes_eq a b
option_eq _ _ = false

abbrev pub call_data : Bytes
call_data = 0xa9 ∷ 0x05 ∷ 0x9c ∷ 0xbb ∷ 0x00 ∷ 0x01 ∷ 0x02 ∷ 0x03 ∷ []

-- The intent of the end-to-end test.
abbrev pub spending_intent : Bytes → SovereignIntent
spending_intent data_hash = record (plain_intent target_bb 1000000000000000000 1800000000 0) {
  recipient = replicate 20 0xCC;
  call_data_hash = data_hash;
  gas_limit = 100000;
  max_fee_per_gas = 50000000000;
  max_priority_fee_per_gas = 2000000000;
}

module _ (C : Crypto) (build : Build) where
  unfoldable pub test_full_delegation_flow : C.XPriv → Option Outcome
  test_full_delegation_flow root = do
    root_id ← derive_role C (Keys.new C root) root_identity 0
    (action_key, hierarchy) ← next_action_key C build (Keys.new C root)
    action_address ← action_key.eth_address
    root_privkey ← to_array_32 root_id.private_key
    (certificate, recovered_root) ←
        delegator C build (plain_cert action_address 2000000000000000000 1900000000 0) contract_cc
          root_privkey
    root_address ← root_id.eth_address
    root_endorses ← assert (bytes_eq recovered_root root_address)
    action_privkey ← to_array_32 action_key.private_key
    recovered_action ←
        intent_signer C build (plain_intent target_dd 1000000000000000000 1800000000 0) contract_cc
          action_privkey
    action_signed ← assert (bytes_eq recovered_action action_address)
    assert (bytes_eq certificate.delegate recovered_action)

  unfoldable pub test_session_key_signs_intent : C.XPriv → Option Outcome
  test_session_key_signs_intent root = do
    action_key ← derive_role C (Keys.new C root) action 0
    action_privkey ← to_array_32 action_key.private_key
    session ← derive_session_key C action_privkey 42 1
    action_address ← action_key.eth_address
    (certificate, recovered_parent) ←
        session_signer C build (plain_session session.eth_address action_address target_dd 2000000)
          contract_cc action_privkey
    recovered_session ←
        intent_signer C build (plain_intent target_dd 1000000 1800000000 0) contract_cc
          session.private_key
    parent_signed ← assert (bytes_eq recovered_parent action_address)
    session_signed ← assert (bytes_eq recovered_session session.eth_address)
    assert (bytes_eq certificate.session recovered_session)

  -- The new root is derived from the root of another seed phrase.
  unfoldable pub test_full_recovery_flow : C.XPriv → C.XPriv → Option Outcome
  test_full_recovery_flow root new_root = do
    old_root_id ← derive_role C (Keys.new C root) root_identity 0
    guardian_0 ← derive_role C (Keys.new C root) recovery 0
    guardian_1 ← derive_role C (Keys.new C root) recovery 1
    new_root_id ← derive_role C (Keys.new C new_root) root_identity 0
    old_address ← old_root_id.eth_address
    new_address ← new_root_id.eth_address
    let req = plain_request old_address new_address 0
    g0_privkey ← to_array_32 guardian_0.private_key
    g0_recovered ← request_signer C build req contract_cc g0_privkey
    g0_address ← guardian_0.eth_address
    g0_signed ← assert (bytes_eq g0_recovered g0_address)
    g1_privkey ← to_array_32 guardian_1.private_key
    g1_recovered ← request_signer C build req contract_cc g1_privkey
    g1_address ← guardian_1.eth_address
    g1_signed ← assert (bytes_eq g1_recovered g1_address)
    differ ← assert (not (bytes_eq g0_recovered g1_recovered))
    let pending = (add_approval (Recovery.new req) g0_recovered).0
    assert (threshold_met (add_approval pending g1_recovered).0 2)

  unfoldable pub test_end_to_end_protocol_flow : C.XPriv → Option Outcome
  test_end_to_end_protocol_flow root = do
    root_id ← derive_role C (Keys.new C root) root_identity 0
    root_privkey ← to_array_32 root_id.private_key
    g0 ← derive_role C (Keys.new C root) recovery 0
    g1 ← derive_role C (Keys.new C root) recovery 1
    g2 ← derive_role C (Keys.new C root) recovery 2
    differ_01 ← assert (not (option_eq g0.eth_address g1.eth_address))
    differ_12 ← assert (not (option_eq g1.eth_address g2.eth_address))
    (action_key, hierarchy) ← next_action_key C build (Keys.new C root)
    action_privkey ← to_array_32 action_key.private_key
    action_address ← action_key.eth_address
    let delegation = plain_cert action_address 5000000000000000000 2000000000 0
    (endorsed, recovered_root) ← delegator C build delegation contract_aa root_privkey
    root_address ← root_id.eth_address
    root_endorses ← assert (bytes_eq recovered_root root_address)
    session ← derive_session_key C action_privkey 0 1
    let session_cert =
        plain_session session.eth_address action_address target_bb 2000000000000000000
    (certified, recovered_parent) ← session_signer C build session_cert contract_aa action_privkey
    parent_signed ← assert (bytes_eq recovered_parent action_address)
    let intent = spending_intent (call_data_hash C call_data)
    recovered_session ← intent_signer C build intent contract_aa session.private_key
    session_signed ← assert (bytes_eq recovered_session session.eth_address)
    delegate_linked ← assert (bytes_eq endorsed.delegate action_address)
    parent_linked ← assert (bytes_eq certified.parent action_address)
    session_linked ← assert (bytes_eq certified.session recovered_session)
    selector_in_scope ← assert (bytes_eq intent.function_sig session_cert.scope)
    target_in_scope ← assert (bytes_eq intent.target_contract session_cert.target)
    value_capped ← assert (leb intent.max_value session_cert.max_value)
    session_capped ← assert (leb session_cert.max_value delegation.max_value)
    data_bound ← assert (bytes_eq intent.call_data_hash (call_data_hash C call_data))
    session_polygon ← derive_session_key C action_privkey 0 137
    assert (not (bytes_eq session.eth_address session_polygon.eth_address))
