-- ===== src/Tests/Signing.antt =====
-- Signed messages of src/intents/mod.rs, src/sessions/mod.rs and src/recovery/mod.rs at concrete
-- inputs, with a toy in place of the cryptography.
use huntkey.Prelude.{ℕ, ◌≡◌, ◌≤◌, inr, refl, arith, none, some, [], ◌∷◌, debug, release}
use huntkey.Prelude.Bytes.{Bytes, IsArray, zeros}
use huntkey.Crypto.Toy.{toy, toy-IsHash, toy-IsEcdsa}
use huntkey.Core.Keys.{eth_address}
use huntkey.Signing.{IntentSignature, sign_hash, recover_hash}
use huntkey.Signing.Typed.{IsSignature, sign_hash-IsSignature}
use huntkey.Signing.Laws.{recover_hash_panics}
use huntkey.Intents.Intent.{SovereignIntent, sign_intent, recover_signer}
use huntkey.Intents.Intent.Preimage as Intent
use huntkey.Intents.Intent.Laws.{recover_signer-sign_intent}
use huntkey.Intents.Intent.Preimage.{intent_preimage}
use huntkey.Intents.Delegation.{
  DelegationCertificate, SignedDelegation, sign_delegation, recover_delegator,
}
use huntkey.Intents.Delegation.Laws as Delegation
use huntkey.Intents.Delegation.Laws.{
  recover_delegator-sign_delegation, delegation_signing_hash_inj, delegation_preimage,
  delegation_message,
}
use huntkey.Sessions.{SessionCertificate, SignedSession, sign_session_cert, recover_session_signer}
use huntkey.Sessions.Laws as Session
use huntkey.Sessions.Laws.{
  recover_session_signer-sign_session_cert, session_signing_hash_inj, session_preimage,
  session_message,
}
use huntkey.Recovery.{RecoveryRequest, sign_recovery_request, recover_recovery_signer}
use huntkey.Recovery.Laws as Recovery
use huntkey.Recovery.Laws.{
  recover_recovery_signer-sign_recovery_request, recovery_signing_hash_inj, recovery_preimage,
  recovery_message,
}

abbrev pub contract : Bytes
contract = 170 ∷ zeros 19

abbrev pub private_key : Bytes
private_key = 5 ∷ zeros 31

-- An intent with the given nonce.
abbrev pub transfer : ℕ → SovereignIntent
transfer nonce = record {
  target_contract = 187 ∷ zeros 19;
  function_sig = 169 ∷ 5 ∷ 156 ∷ 187 ∷ [];
  recipient = 204 ∷ zeros 19;
  asset_address = zeros 20;
  call_data_hash = zeros 32;
  max_value = 1000000000000000000;
  expiration = 1800000000;
  chain_id = 1;
  nonce = nonce;
  session_epoch = 0;
  gas_limit = 0;
  max_fee_per_gas = 0;
  max_priority_fee_per_gas = 0;
  required_claim = zeros 32;
  claim_proof_hash = zeros 32;
  paymaster_mode = 0;
  paymaster = zeros 20;
}

pub transfer-IsValid : (n : ℕ) → n ≤ 1 → Intent.IsValid (transfer n)
transfer-IsValid n h = record {
  target_contract = refl;
  function_sig = refl;
  recipient = refl;
  asset_address = refl;
  call_data_hash = refl;
  max_value = omega arith;
  expiration = omega arith;
  chain_id = omega arith;
  nonce = omega arith;
  session_epoch = omega arith;
  gas_limit = omega arith;
  max_fee_per_gas = omega arith;
  max_priority_fee_per_gas = omega arith;
  required_claim = refl;
  claim_proof_hash = refl;
  paymaster_mode = omega arith;
  paymaster = refl;
}

recover_signer-sign_intent_example :
    (sig : IntentSignature) × (sign_intent toy debug (transfer 0) contract private_key ≡ some sig)
    × (27 ≤ sig.v)
    × (sig.v ≤ 30)
    × (recover_signer toy release (transfer 0) contract sig ≡ some (eth_address toy 5))
recover_signer-sign_intent_example =
    recover_signer-sign_intent toy toy-IsHash toy-IsEcdsa debug release (transfer 0) contract
      private_key {k = 5} (transfer-IsValid 0 (omega arith)) refl refl

abbrev pub endorsement : ℕ → DelegationCertificate
endorsement nonce = record {
  delegate = 17 ∷ zeros 19;
  scope = 169 ∷ 5 ∷ 156 ∷ 187 ∷ [];
  max_value = 2000000000000000000;
  expiration = 1900000000;
  chain_id = 1;
  nonce = nonce;
}

pub endorsement-IsValid : (n : ℕ) → n ≤ 1 → Delegation.IsValid (endorsement n)
endorsement-IsValid n h = record {
  delegate = refl;
  scope = refl;
  max_value = omega arith;
  expiration = omega arith;
  chain_id = omega arith;
  nonce = omega arith;
}

recover_delegator-sign_delegation_example :
    (signed : SignedDelegation) × (sign_delegation toy debug (endorsement 0) contract private_key
      ≡ some signed)
    × (signed.certificate ≡ endorsement 0)
    × (27 ≤ signed.v)
    × (signed.v ≤ 30)
    × (recover_delegator toy release (endorsement 0) contract signed.v signed.r signed.s
        ≡ some (eth_address toy 5))
recover_delegator-sign_delegation_example =
    recover_delegator-sign_delegation toy toy-IsHash toy-IsEcdsa debug release (endorsement 0)
      contract private_key {k = 5} (endorsement-IsValid 0 (omega arith)) refl refl

abbrev certificate : ℕ → SessionCertificate
certificate expiration = record {
  session = 33 ∷ zeros 19;
  parent = 17 ∷ zeros 19;
  scope = 169 ∷ 5 ∷ 156 ∷ 187 ∷ [];
  target = 187 ∷ zeros 19;
  max_value = 2000000000000000000;
  expiration = expiration;
  chain_id = 1;
}

certificate-IsValid : (n : ℕ) → n ≤ 1 → Session.IsValid (certificate n)
certificate-IsValid n h = record {
  session = refl;
  parent = refl;
  scope = refl;
  target = refl;
  max_value = omega arith;
  expiration = omega arith;
  chain_id = omega arith;
}

recover_session_signer-sign_session_cert_example :
    (signed : SignedSession) × (sign_session_cert toy debug (certificate 0) contract private_key
      ≡ some signed)
    × (signed.certificate ≡ certificate 0)
    × (27 ≤ signed.v)
    × (signed.v ≤ 30)
    × (recover_session_signer toy release (certificate 0) contract signed.v signed.r signed.s
        ≡ some (eth_address toy 5))
recover_session_signer-sign_session_cert_example =
    recover_session_signer-sign_session_cert toy toy-IsHash toy-IsEcdsa debug release
      (certificate 0) contract private_key {k = 5} (certificate-IsValid 0 (omega arith)) refl refl

abbrev pub request : ℕ → RecoveryRequest
request nonce = record {
  old_root = 17 ∷ zeros 19;
  new_root = 255 ∷ zeros 19;
  chain_id = 1;
  nonce = nonce;
}

pub request-IsValid : (n : ℕ) → n ≤ 1 → Recovery.IsValid (request n)
request-IsValid n h = record {
  old_root = refl;
  new_root = refl;
  chain_id = omega arith;
  nonce = omega arith;
}

recover_recovery_signer-sign_recovery_request_example :
    (sig : IntentSignature) × (sign_recovery_request toy debug (request 0) contract private_key
      ≡ some sig)
    × (27 ≤ sig.v)
    × (sig.v ≤ 30)
    × (recover_recovery_signer toy release (request 0) contract sig ≡ some (eth_address toy 5))
recover_recovery_signer-sign_recovery_request_example =
    recover_recovery_signer-sign_recovery_request toy toy-IsHash toy-IsEcdsa debug release
      (request 0) contract private_key {k = 5} (request-IsValid 0 (omega arith)) refl refl

recover_hash_panics_example : recover_hash toy release (zeros 32) 31 (zeros 32) (zeros 32) ≡ none
recover_hash_panics_example =
    recover_hash_panics toy toy-IsEcdsa release (zeros 32) 31 (zeros 32) (zeros 32) (omega arith)
      (inr (omega arith))

sign_hash-IsSignature_example :
    ((sig : IntentSignature)
      → sign_hash toy release private_key (zeros 32) ≡ some sig
      → IsSignature sig)
    × ((v : ℕ) (r s address : Bytes)
        → recover_hash toy release (zeros 32) v r s ≡ some address
        → IsArray 20 address)
sign_hash-IsSignature_example =
    sign_hash-IsSignature toy toy-IsHash toy-IsEcdsa release private_key (zeros 32)
