-- ===== src/Demo/Laws.antt =====
-- Every check of the signing chain of src/main.rs succeeds.
use huntkey.Prelude.{◌≡◌, refl, true, some, length-drop, arith, Build}
use huntkey.Prelude.Bytes.{Bytes, IsArray}
use huntkey.Prelude.Decimal.{codes}
use huntkey.Prelude.Members.{bytes_eq_refl}
use huntkey.Crypto.{Crypto, IsHash, IsEcdsa}
use huntkey.Core.Hash.{keccak256, call_data_hash}
use huntkey.Core.Hash.Binding.{length-keccak256}
use huntkey.Core.Keys as Keys
use huntkey.Core.Keys.{
  KeyRole, DerivedKey, root_identity, action, recovery, eth_address, role_path, derive_key,
  derive_role, next_action_key,
}
use huntkey.Intents.Intent.{SovereignIntent}
use huntkey.Intents.Intent.Preimage as Intent
use huntkey.Intents.Intent.Laws.{recover_signer-sign_intent}
use huntkey.Intents.Delegation.Laws as Delegation
use huntkey.Intents.Delegation.Laws.{recover_delegator-sign_delegation}
use huntkey.Sessions.{session_info}
use huntkey.Sessions.Derivation.{derive_session_key_lem}
use huntkey.Sessions.Laws as Session
use huntkey.Sessions.Laws.{recover_session_signer-sign_session_cert}
use huntkey.Demo.{
  verifying_contract, to_array_32, sample_intent, intent, session_intent, delegation_cert,
  session_cert, signed_intent, signed_delegation, signed_session, chain_checks,
}

pub to_array_32_lem : (bytes : Bytes) → IsArray 32 bytes → to_array_32 bytes ≡ some bytes
unfolding to_array_32
to_array_32_lem bytes h = rw h

module _ (C : Crypto) (H : IsHash C) where
  pub length-eth_address : (v : C.VerifyingKey) → IsArray 20 (eth_address C v)
  unfolding eth_address
  length-eth_address v = omega (arith, length-drop 12 (keccak256 C _), length-keccak256 C H _)

  sample_intent-IsValid :
      (recipient call_data : Bytes)
      → IsArray 20 recipient
      → Intent.IsValid (sample_intent C recipient call_data)
  unfolding call_data_hash
  sample_intent-IsValid recipient call_data h = record {
    target_contract = refl;
    function_sig = refl;
    recipient = h;
    asset_address = refl;
    call_data_hash = length-keccak256 C H call_data;
    max_value = omega arith;
    expiration = omega arith;
    chain_id = omega arith;
    nonce = omega arith;
    session_epoch = omega arith;
    gas_limit = omega arith;
    max_fee_per_gas = omega arith;
    max_priority_fee_per_gas = omega arith;
    required_claim = refl;
    claim_proof_hash = refl;
    paymaster_mode = omega arith;
    paymaster = refl;
  }

  delegation_cert-IsValid :
      (delegate : Bytes) → IsArray 20 delegate → Delegation.IsValid (delegation_cert C delegate)
  delegation_cert-IsValid delegate h = record {
    delegate = h;
    scope = refl;
    max_value = omega arith;
    expiration = omega arith;
    chain_id = omega arith;
    nonce = omega arith;
  }

  session_cert-IsValid :
      (session parent : Bytes)
      → IsArray 20 session
      → IsArray 20 parent
      → Session.IsValid (session_cert C session parent)
  session_cert-IsValid session parent h k = record {
    session = h;
    parent = k;
    scope = refl;
    target = refl;
    max_value = omega arith;
    expiration = omega arith;
    chain_id = omega arith;
  }

  module _ (L : IsEcdsa C) (build : Build) (private_key : Bytes) {k : C.SigningKey} where
    signed_intent_lem :
        (m : SovereignIntent)
        → Intent.IsValid m
        → C.signing_key private_key ≡ some k
        → signed_intent C build m private_key ≡ some (eth_address C (C.verifying_key k))
    unfolding signed_intent
    signed_intent_lem m h e =
        let (sig, signed, _, _, back) =
          recover_signer-sign_intent C H L build build m verifying_contract private_key {k = k} h
            refl e in
        rw signed back

    signed_delegation_lem :
        (delegate : Bytes)
        → IsArray 20 delegate
        → C.signing_key private_key ≡ some k
        → signed_delegation C build delegate private_key ≡ some (eth_address C (C.verifying_key k))
    unfolding signed_delegation
    signed_delegation_lem delegate h e =
        let (sig, signed, same, _, _, back) =
          recover_delegator-sign_delegation C H L build build (delegation_cert C delegate)
            verifying_contract private_key {k = k} (delegation_cert-IsValid delegate h) refl e in
        rw (signed, same) back

    signed_session_lem :
        (session parent : Bytes)
        → IsArray 20 session
        → IsArray 20 parent
        → C.signing_key private_key ≡ some k
        → signed_session C build session parent private_key
          ≡ some (eth_address C (C.verifying_key k))
    unfolding signed_session
    signed_session_lem session parent h h' e =
        let (sig, signed, same, _, _, back) =
          recover_session_signer-sign_session_cert C H L build build (session_cert C session parent)
            verifying_contract private_key {k = k} (session_cert-IsValid session parent h h') refl
            e in
        rw (signed, same) back

  -- If the root's and the first action key's paths derive, and HKDF gives a valid session key, the
  -- program runs through its signing chain with no panic, in either build, and all five checks
  -- succeed.
  pub chain_checks_lem :
      IsEcdsa C
      → (build : Build) (root r a : C.XPriv) (okm : Bytes) {s : C.SigningKey}
      → C.derive_path root (role_path root_identity 0) ≡ some r
      → C.derive_path root (role_path action 0) ≡ some a
      → C.hkdf_sha256
          (codes "HuntKey-V1-Session-Key")
          (C.key_bytes (C.xpriv_key a))
          (session_info (C.sec1_bytes (C.verifying_key (C.xpriv_key a))) 0 1)
          32
        ≡ some okm
      → C.signing_key okm ≡ some s
      → chain_checks C build root ≡ some (true, true, true, true, true)
  unfolding chain_checks derive_role derive_key next_action_key Keys.new
  chain_checks_lem L build root r a okm {s} er ea eo es =
      let rk = C.xpriv_key r in
      let ak = C.xpriv_key a in
      let action_address = eth_address C (C.verifying_key ak) in
      let action_width = length-eth_address (C.verifying_key ak) in
      let parsed = L.signing_key-key_bytes ak in
      let (session, derived, session_parsed, address) =
        derive_session_key_lem C L (C.key_bytes ak) 0 1 okm {parent = ak} {k = s} parsed eo es in
      let width : IsArray 20 session.eth_address =
        rw address (length-eth_address (C.verifying_key s)) in
      rw (
        er,
        ea,
        to_array_32_lem (C.key_bytes ak) (L.length-key_bytes ak),
        signed_intent_lem L build (C.key_bytes ak) {k = ak} (intent C)
            (sample_intent-IsValid _ _ refl) parsed,
        to_array_32_lem (C.key_bytes rk) (L.length-key_bytes rk),
        signed_delegation_lem L build (C.key_bytes rk) {k = rk} action_address action_width
            (L.signing_key-key_bytes rk),
        derived,
        signed_session_lem L build (C.key_bytes ak) {k = ak} session.eth_address action_address
            width action_width parsed,
        signed_intent_lem L build session.private_key {k = s} (session_intent C)
            (sample_intent-IsValid _ _ refl) session_parsed,
        address,
        bytes_eq_refl action_address,
        bytes_eq_refl (eth_address C (C.verifying_key rk)),
        bytes_eq_refl (eth_address C (C.verifying_key s)),
      )
