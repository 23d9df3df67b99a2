-- ===== src/CrateTests/Recoverable.antt =====
-- What the signing tests of src/lib.rs recover, whatever the key and the message.
use huntkey.Prelude.{◌≡◌, refl, some, arith, Build, ℕ, IsU8, IsU64, IsU128}
use huntkey.Prelude.Bytes.{Bytes, IsArray, zeros}
use huntkey.Crypto.{Crypto, IsHash, IsEcdsa}
use huntkey.Core.Keys.{eth_address}
use huntkey.Intents.Intent.{SovereignIntent}
use huntkey.Intents.Intent.Preimage as Intent
use huntkey.Intents.Intent.Laws.{recover_signer-sign_intent}
use huntkey.Intents.Delegation.{DelegationCertificate}
use huntkey.Intents.Delegation.Laws as Delegation
use huntkey.Intents.Delegation.Laws.{recover_delegator-sign_delegation}
use huntkey.Sessions.{SessionCertificate}
use huntkey.Sessions.Laws as Session
use huntkey.Sessions.Laws.{recover_session_signer-sign_session_cert}
use huntkey.Recovery.{RecoveryRequest}
use huntkey.Recovery.Laws as Request
use huntkey.Recovery.Laws.{recover_recovery_signer-sign_recovery_request}
use huntkey.CrateTests.{
  plain_intent, plain_cert, plain_session, plain_request, intent_signer, delegator, session_signer,
  request_signer,
}

-- The intents of the tests, in all the fields in which these differ.
abbrev pub varied_intent :
    Bytes → Bytes → Bytes → ℕ → ℕ → ℕ → ℕ → ℕ → ℕ → Bytes → Bytes → ℕ → Bytes → SovereignIntent
varied_intent target recipient data_hash value expiration nonce gas fee tip claim proof mode pm =
    record (plain_intent target value expiration nonce) {
      recipient = recipient;
      call_data_hash = data_hash;
      gas_limit = gas;
      max_fee_per_gas = fee;
      max_priority_fee_per_gas = tip;
      required_claim = claim;
      claim_proof_hash = proof;
      paymaster_mode = mode;
      paymaster = pm;
    }

pub varied_intent-IsValid :
    (target recipient data_hash : Bytes) (value expiration nonce gas fee tip : ℕ)
    (claim proof : Bytes) (mode : ℕ) (pm : Bytes)
    → IsArray 20 target
    → IsArray 20 recipient
    → IsArray 32 data_hash
    → IsU128 value
    → IsU64 expiration
    → IsU64 nonce
    → IsU64 gas
    → IsU128 fee
    → IsU128 tip
    → IsArray 32 claim
    → IsArray 32 proof
    → IsU8 mode
    → IsArray 20 pm
    → Intent.IsValid (
        varied_intent target recipient data_hash value expiration nonce gas fee tip claim proof mode
          pm)
varied_intent-IsValid target recipient data_hash value expiration nonce gas fee tip claim proof mode
      pm t r d v e n g f p c h m a =
    record {
      target_contract = t;
      function_sig = refl;
      recipient = r;
      asset_address = refl;
      call_data_hash = d;
      max_value = v;
      expiration = e;
      chain_id = omega arith;
      nonce = n;
      session_epoch = omega arith;
      gas_limit = g;
      max_fee_per_gas = f;
      max_priority_fee_per_gas = p;
      required_claim = c;
      claim_proof_hash = h;
      paymaster_mode = m;
      paymaster = a;
    }

pub plain_intent-IsValid :
    (target : Bytes) (max_value expiration nonce : ℕ)
    → IsArray 20 target
    → IsU128 max_value
    → IsU64 expiration
    → IsU64 nonce
    → Intent.IsValid (plain_intent target max_value expiration nonce)
plain_intent-IsValid target max_value expiration nonce h v e n =
    varied_intent-IsValid target (zeros 20) (zeros 32) max_value expiration nonce 0 0 0 (zeros 32)
      (zeros 32) 0 (zeros 20) h refl refl v e n (omega arith) (omega arith) (omega arith) refl refl
      (omega arith) refl

pub plain_cert-IsValid :
    (delegate : Bytes) (max_value expiration nonce : ℕ)
    → IsArray 20 delegate
    → IsU128 max_value
    → IsU64 expiration
    → IsU64 nonce
    → Delegation.IsValid (plain_cert delegate max_value expiration nonce)
plain_cert-IsValid delegate max_value expiration nonce h v e n = record {
  delegate = h;
  scope = refl;
  max_value = v;
  expiration = e;
  chain_id = omega arith;
  nonce = n;
}

pub plain_session-IsValid :
    (session parent target : Bytes) (max_value : ℕ)
    → IsArray 20 session
    → IsArray 20 parent
    → IsArray 20 target
    → IsU128 max_value
    → Session.IsValid (plain_session session parent target max_value)
plain_session-IsValid session parent target max_value h p t v = record {
  session = h;
  parent = p;
  scope = refl;
  target = t;
  max_value = v;
  expiration = omega arith;
  chain_id = omega arith;
}

pub plain_request-IsValid :
    (old_root new_root : Bytes) (nonce : ℕ)
    → IsArray 20 old_root
    → IsArray 20 new_root
    → IsU64 nonce
    → Request.IsValid (plain_request old_root new_root nonce)
plain_request-IsValid old_root new_root nonce h h' n = record {
  old_root = h;
  new_root = h';
  chain_id = omega arith;
  nonce = n;
}

module _ (C : Crypto) (H : IsHash C) (L : IsEcdsa C) (build : Build) (k : C.SigningKey)
    (c private_key : Bytes) where
  abbrev signer : Bytes
  signer = eth_address C (C.verifying_key k)

  pub intent_signer_lem :
      (m : SovereignIntent)
      → Intent.IsValid m
      → IsArray 20 c
      → C.signing_key private_key ≡ some k
      → intent_signer C build m c private_key ≡ some signer
  unfolding intent_signer
  intent_signer_lem m h hc e =
      let (sig, signed, _, _, back) =
        recover_signer-sign_intent C H L build build m c private_key {k = k} h hc e in
      rw signed back

  pub delegator_lem :
      (m : DelegationCertificate)
      → Delegation.IsValid m
      → IsArray 20 c
      → C.signing_key private_key ≡ some k
      → delegator C build m c private_key ≡ some (m, signer)
  unfolding delegator
  delegator_lem m h hc e =
      let (sig, signed, same, _, _, back) =
        recover_delegator-sign_delegation C H L build build m c private_key {k = k} h hc e in
      rw (signed, same, back) refl

  pub session_signer_lem :
      (m : SessionCertificate)
      → Session.IsValid m
      → IsArray 20 c
      → C.signing_key private_key ≡ some k
      → session_signer C build m c private_key ≡ some (m, signer)
  unfolding session_signer
  session_signer_lem m h hc e =
      let (sig, signed, same, _, _, back) =
        recover_session_signer-sign_session_cert C H L build build m c private_key {k = k} h hc e in
      rw (signed, same, back) refl

  pub request_signer_lem :
      (m : RecoveryRequest)
      → Request.IsValid m
      → IsArray 20 c
      → C.signing_key private_key ≡ some k
      → request_signer C build m c private_key ≡ some signer
  unfolding request_signer
  request_signer_lem m h hc e =
      let (sig, signed, _, _, back) =
        recover_recovery_signer-sign_recovery_request C H L build build m c private_key {k = k} h hc
          e in
      rw signed back
