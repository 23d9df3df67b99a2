-- ===== src/CrateTests.antt =====
-- The tests of src/lib.rs that sign and recover, as functions of the root key that they derive
-- from a fixed seed phrase. An assertion that fails is a panic, `none`.
pub mod Proptests
pub mod Recoverable
pub mod Passing
pub mod Flows
pub mod Chains
pub mod EndToEnd
pub mod RecoveryFlow
pub mod Binding
pub mod Separate
pub mod Watching
pub mod Watched
pub mod Logging
pub mod Logged
pub mod Building
pub mod Built
pub mod Deriving
pub mod Derived
pub mod SessionKeys
use huntkey.Prelude.{ℕ, Bool, true, false, Option, none, some, [], ◌∷◌, ◌>>=◌, replicate, Build}
use huntkey.Prelude.Bytes.{Bytes, zeros}
use huntkey.Crypto.{Crypto}
use huntkey.Intents.Intent.{SovereignIntent, sign_intent, recover_signer}
use huntkey.Intents.Delegation.{
  DelegationCertificate, SignedDelegation, sign_delegation, recover_delegator,
}
use huntkey.Sessions.{SessionCertificate, SignedSession, sign_session_cert, recover_session_signer}
use huntkey.Recovery.{RecoveryRequest, sign_recovery_request, recover_recovery_signer}

-- A test that runs to its end.
pub data Outcome : Type 0 where
  passed : Outcome

abbrev pub assert : Bool → Option Outcome
assert true = some passed
assert false = none

abbrev pub selector : Bytes
selector = 0xa9 ∷ 0x05 ∷ 0x9c ∷ 0xbb ∷ []

-- The messages of the tests, with the fields in which these differ.
abbrev pub plain_intent : Bytes → ℕ → ℕ → ℕ → SovereignIntent
plain_intent target_contract max_value expiration nonce = record {
  target_contract = target_contract;
  function_sig = selector;
  recipient = zeros 20;
  asset_address = zeros 20;
  call_data_hash = zeros 32;
  max_value = max_value;
  expiration = expiration;
  chain_id = 1;
  nonce = nonce;
  session_epoch = 0;
  gas_limit = 0;
  max_fee_per_gas = 0;
  max_priority_fee_per_gas = 0;
  required_claim = zeros 32;
  claim_proof_hash = zeros 32;
  paymaster_mode = 0;
  paymaster = zeros 20;
}

abbrev pub plain_cert : Bytes → ℕ → ℕ → ℕ → DelegationCertificate
plain_cert delegate max_value expiration nonce = record {
  delegate = delegate;
  scope = selector;
  max_value = max_value;
  expiration = expiration;
  chain_id = 1;
  nonce = nonce;
}

abbrev pub plain_session : Bytes → Bytes → Bytes → ℕ → SessionCertificate
plain_session session parent target max_value = record {
  session = session;
  parent = parent;
  scope = selector;
  target = target;
  max_value = max_value;
  expiration = 1900000000;
  chain_id = 1;
}

abbrev pub plain_request : Bytes → Bytes → ℕ → RecoveryRequest
plain_request old_root new_root nonce = record {
  old_root = old_root;
  new_root = new_root;
  chain_id = 1;
  nonce = nonce;
}

module _ (C : Crypto) (build : Build) where
  -- To sign a message and to recover from the signature, as each test does it.
  unfoldable pub intent_signer : SovereignIntent → Bytes → Bytes → Option Bytes
  intent_signer intent verifying_contract privkey = do
    sig ← sign_intent C build intent verifying_contract privkey
    recover_signer C build intent verifying_contract sig

  unfoldable pub delegator :
      DelegationCertificate → Bytes → Bytes → Option (DelegationCertificate × Bytes)
  delegator cert verifying_contract root_privkey = do
    signed ← sign_delegation C build cert verifying_contract root_privkey
    recovered ←
        recover_delegator C build signed.certificate verifying_contract signed.v signed.r signed.s
    some (signed.certificate, recovered)

  unfoldable pub session_signer :
      SessionCertificate → Bytes → Bytes → Option (SessionCertificate × Bytes)
  session_signer cert verifying_contract action_privkey = do
    signed ← sign_session_cert C build cert verifying_contract action_privkey
    recovered ←
        recover_session_signer C build signed.certificate verifying_contract signed.v signed.r
          signed.s
    some (signed.certificate, recovered)

  unfoldable pub request_signer : RecoveryRequest → Bytes → Bytes → Option Bytes
  request_signer req verifying_contract guardian_privkey = do
    sig ← sign_recovery_request C build req verifying_contract guardian_privkey
    recover_recovery_signer C build req verifying_contract sig
