-- ===== src/Demo.antt =====
-- The protocol part of src/main.rs, with its inputs and without its printing. A `YES` of its
-- output is `true`.
pub mod Laws
pub mod Guardians
pub mod Legacy
pub mod Program
use huntkey.Prelude.{
  ℕ, ◌+◌, Bool, Option, none, some, [], ◌∷◌, ◌>>=◌, replicate, length, ◌==◌, Build, if◌then◌else◌,
}
use huntkey.Prelude.Bytes.{Bytes, bytes_eq, zeros}
use huntkey.Crypto.{Crypto}
use huntkey.Core.Hash.{call_data_hash}
use huntkey.Core.Keys as Keys
use huntkey.Core.Keys.{
  DerivedKey, KeyHierarchy, root_identity, recovery, derive_role, next_action_key,
}
use huntkey.Intents.Intent.{SovereignIntent, sign_intent, recover_signer}
use huntkey.Intents.Delegation.{DelegationCertificate, sign_delegation, recover_delegator}
use huntkey.Sessions.{
  SessionCertificate, derive_session_key, sign_session_cert, recover_session_signer,
}
use huntkey.Recovery as Recovery
use huntkey.Recovery.{
  RecoveryRequest, add_approval, threshold_met, is_alert, timelock_expired, sign_recovery_request,
  recover_recovery_signer,
}

abbrev pub verifying_contract : Bytes
verifying_contract = replicate 20 0xAA

abbrev pub fn_sig : Bytes
fn_sig = 0xa9 ∷ 0x05 ∷ 0x9c ∷ 0xbb ∷ []

-- `as_slice().try_into().unwrap()` to 32 bytes.
unfoldable pub to_array_32 : Bytes → Option Bytes
to_array_32 bytes = if length bytes == 32 then some bytes else none

module _ (C : Crypto) where
  -- The two intents of the program differ in their recipient and their call data.
  abbrev pub sample_intent : Bytes → Bytes → SovereignIntent
  sample_intent recipient call_data = record {
    target_contract = replicate 20 0xBB;
    function_sig = fn_sig;
    recipient = recipient;
    asset_address = zeros 20;
    call_data_hash = call_data_hash C call_data;
    max_value = 1000000000000000000;
    expiration = 1800000000;
    chain_id = 1;
    nonce = 0;
    session_epoch = 0;
    gas_limit = 0;
    max_fee_per_gas = 0;
    max_priority_fee_per_gas = 0;
    required_claim = zeros 32;
    claim_proof_hash = zeros 32;
    paymaster_mode = 0;
    paymaster = zeros 20;
  }

  abbrev pub intent : SovereignIntent
  intent = sample_intent (replicate 20 0xCC) (0xa9 ∷ 0x05 ∷ 0x9c ∷ 0xbb ∷ 0x00 ∷ 0x00 ∷ [])

  abbrev pub session_intent : SovereignIntent
  session_intent = sample_intent (replicate 20 0xEE) (0xa9 ∷ 0x05 ∷ 0x9c ∷ 0xbb ∷ 0x01 ∷ 0x02 ∷ [])

  abbrev pub delegation_cert : Bytes → DelegationCertificate
  delegation_cert delegate = record {
    delegate = delegate;
    scope = fn_sig;
    max_value = 2000000000000000000;
    expiration = 1900000000;
    chain_id = 1;
    nonce = 0;
  }

  abbrev pub session_cert : Bytes → Bytes → SessionCertificate
  session_cert session parent = record {
    session = session;
    parent = parent;
    scope = fn_sig;
    target = replicate 20 0xBB;
    max_value = 2000000000000000000;
    expiration = 1900000000;
    chain_id = 1;
  }

  abbrev pub recovery_request : Bytes → RecoveryRequest
  recovery_request old_root = record {
    old_root = old_root;
    new_root = replicate 20 0xFF;
    chain_id = 1;
    nonce = 0;
  }

  module _ (build : Build) where
    -- The signer that is recovered from the signature of an intent.
    unfoldable pub signed_intent : SovereignIntent → Bytes → Option Bytes
    signed_intent m private_key = do
      sig ← sign_intent C build m verifying_contract private_key
      recover_signer C build m verifying_contract sig

    -- The delegator that is recovered from the root's delegation to an address.
    unfoldable pub signed_delegation : Bytes → Bytes → Option Bytes
    signed_delegation delegate root_privkey = do
      deleg_sig ← sign_delegation C build (delegation_cert delegate) verifying_contract root_privkey
      recover_delegator C build deleg_sig.certificate verifying_contract deleg_sig.v deleg_sig.r
          deleg_sig.s

    unfoldable pub signed_request : RecoveryRequest → Bytes → Option Bytes
    signed_request req privkey = do
      sig ← sign_recovery_request C build req verifying_contract privkey
      recover_recovery_signer C build req verifying_contract sig

    unfoldable pub signed_session : Bytes → Bytes → Bytes → Option Bytes
    signed_session session parent privkey = do
      signed ← sign_session_cert C build (session_cert session parent) verifying_contract privkey
      recover_session_signer C build signed.certificate verifying_contract signed.v signed.r
          signed.s

    -- The three-layer chain: the intent signer is the action key, the delegator is the root, the
    -- delegate is the intent signer, the session's parent is the action key, and the session's
    -- intent is signed by the session key.
    unfoldable pub chain_checks : C.XPriv → Option (Bool × Bool × Bool × Bool × Bool)
    unfolding to_array_32
    chain_checks root = do
      root_id ← derive_role C (Keys.new C root) root_identity 0
      (action_key, hierarchy) ← next_action_key C build (Keys.new C root)
      action_privkey ← to_array_32 action_key.private_key
      recovered ← signed_intent intent action_privkey
      expected ← action_key.eth_address
      root_privkey ← to_array_32 root_id.private_key
      recovered_root ← signed_delegation expected root_privkey
      root_address ← root_id.eth_address
      session ← derive_session_key C action_privkey 0 1
      recovered_parent ← signed_session session.eth_address expected action_privkey
      recovered_session ← signed_intent session_intent session.private_key
      some (
        bytes_eq recovered expected,
        bytes_eq recovered_root root_address,
        bytes_eq expected recovered,
        bytes_eq recovered_parent expected,
        bytes_eq recovered_session session.eth_address,
      )

    -- The recovery of the root by two of three guardians: the number of approvals, whether the
    -- threshold of 2 is met, whether the request concerns the root, and whether the timelock has
    -- expired after 47 and after 48 hours.
    unfoldable pub recovery_checks : C.XPriv → Option (ℕ × Bool × Bool × Bool × Bool)
    recovery_checks root = do
      root_id ← derive_role C (Keys.new C root) root_identity 0
      guardian_0 ← derive_role C (Keys.new C root) recovery 0
      guardian_1 ← derive_role C (Keys.new C root) recovery 1
      guardian_2 ← derive_role C (Keys.new C root) recovery 2
      old_root ← root_id.eth_address
      let recovery_req = recovery_request old_root
      g0_privkey ← to_array_32 guardian_0.private_key
      g0_recovered ← signed_request recovery_req g0_privkey
      g1_privkey ← to_array_32 guardian_1.private_key
      g1_recovered ← signed_request recovery_req g1_privkey
      let pending =
          (add_approval (add_approval (Recovery.new recovery_req) g0_recovered).0 g1_recovered).0
      let started = record pending { initiated_at = some 1000 }
      at_47h ← timelock_expired build started (1000 + 169200)
      at_48h ← timelock_expired build started (1000 + 172800)
      some (
        length pending.approvals,
        threshold_met pending 2,
        is_alert pending old_root,
        at_47h,
        at_48h,
      )
