-- ===== src/CrateTests/EndToEnd.antt =====
-- The end-to-end test of src/lib.rs and its test of the recovery flow: which of their assertions
-- can fail.
use huntkey.Prelude.{
  ℕ, ◌≡◌, ◌≢◌, ◌↔◌, refl, Bool, true, false, not, Option, some, ◌>>=◌, replicate, arith, Build,
  Bool-cases, inl, inr,
}
use huntkey.Prelude.Bytes.{zeros, Bytes, IsArray, bytes_eq, bytes_eq-false_iff}
use huntkey.Prelude.Members.{bytes_eq_refl}
use huntkey.Crypto.{Crypto, IsHash, IsEcdsa}
use huntkey.Core.Hash.{keccak256, call_data_hash}
use huntkey.Core.Hash.Binding.{length-keccak256}
use huntkey.Core.Keys as Keys
use huntkey.Core.Keys.{
  KeyRole, root_identity, action, recovery, eth_address, role_path, derive_key, derive_role,
  next_action_key,
}
use huntkey.Intents.Intent.Preimage as Intent
use huntkey.Sessions.Derivation.{derive_session_key_lem}
use huntkey.Demo.Laws.{to_array_32_lem, length-eth_address}
use huntkey.Core.Keys.Paths.{Derives}
use huntkey.CrateTests.{Outcome, assert, passed, plain_cert, plain_session}
use huntkey.CrateTests.Proptests.{contract_aa, target_bb}
use huntkey.CrateTests.Flows.{call_data, spending_intent, test_end_to_end_protocol_flow}
use huntkey.CrateTests.Recoverable.{
  varied_intent-IsValid, plain_cert-IsValid, plain_session-IsValid, intent_signer_lem,
  delegator_lem, session_signer_lem,
}
use huntkey.CrateTests.Passing.{Expands}

spending_intent-IsValid :
    (data_hash : Bytes) → IsArray 32 data_hash → Intent.IsValid (spending_intent data_hash)
spending_intent-IsValid data_hash h =
    varied_intent-IsValid target_bb (replicate 20 0xCC) data_hash 1000000000000000000 1800000000 0
      100000 50000000000 2000000000 (zeros 32) (zeros 32) 0 (zeros 20) refl refl h (omega arith)
      (omega arith) (omega arith) (omega arith) (omega arith) (omega arith) refl refl (omega arith)
      refl

-- What is left of the test: three assertions that two addresses differ.
abbrev remaining : Bool → Bool → Bool → Option Outcome
remaining a b c = do differ_01 ← assert (not a); differ_12 ← assert (not b); assert (not c)

remaining_iff :
    (a b c : Bool) → (remaining a b c ≡ some passed) ↔ ((a ≡ false) × (b ≡ false) × (c ≡ false))
remaining_iff true b c = ground arith
remaining_iff false true c = ground arith
remaining_iff false false true = ground arith
remaining_iff false false false = ground arith

abbrev pub address_of : (C : Crypto) → C.SigningKey → Bytes
address_of C k = eth_address C (C.verifying_key k)

abbrev pub key_at : (C : Crypto) (root : C.XPriv) → Derives C root → KeyRole → ℕ → C.SigningKey
key_at C root derives role index = C.xpriv_key (derives.key role index)

module _ (C : Crypto) (H : IsHash C) (L : IsEcdsa C) (build : Build) (root : C.XPriv) where
  test_end_to_end_protocol_flow_lem :
      (r g0 g1 g2 a : C.XPriv)
      → C.derive_path root (role_path root_identity 0) ≡ some r
      → C.derive_path root (role_path recovery 0) ≡ some g0
      → C.derive_path root (role_path recovery 1) ≡ some g1
      → C.derive_path root (role_path recovery 2) ≡ some g2
      → C.derive_path root (role_path action 0) ≡ some a
      → (x : Expands C a 0 1) (y : Expands C a 0 137)
      → test_end_to_end_protocol_flow C build root
        ≡ remaining
            (bytes_eq (address_of C (C.xpriv_key g0)) (address_of C (C.xpriv_key g1)))
            (bytes_eq (address_of C (C.xpriv_key g1)) (address_of C (C.xpriv_key g2)))
            (bytes_eq (address_of C x.1) (address_of C y.1))
  unfolding test_end_to_end_protocol_flow derive_role derive_key next_action_key Keys.new
      call_data_hash
  test_end_to_end_protocol_flow_lem r g0 g1 g2 a er e0 e1 e2 ea (okm, s, expanded, parsed)
        (okm', s', expanded', parsed') =
      let rk = C.xpriv_key r in
      let ak = C.xpriv_key a in
      let delegate = address_of C ak in
      let width = length-eth_address C H (C.verifying_key ak) in
      let data_hash = call_data_hash C call_data in
      let (session, derived, session_parsed, address) =
        derive_session_key_lem C L (C.key_bytes ak) 0 1 okm {parent = ak} {k = s}
          (L.signing_key-key_bytes ak) expanded parsed in
      let (session', derived', _, address') =
        derive_session_key_lem C L (C.key_bytes ak) 0 137 okm' {parent = ak} {k = s'}
          (L.signing_key-key_bytes ak) expanded' parsed' in
      let session_width : IsArray 20 session.eth_address =
        rw address (length-eth_address C H (C.verifying_key s)) in
      let key_width = to_array_32_lem (C.key_bytes rk) (L.length-key_bytes rk) in
      elim (Bool-cases (bytes_eq (address_of C (C.xpriv_key g0)) (address_of C (C.xpriv_key g1)))) [
        | inl same ↦ rw (er, key_width, e0, e1, e2, same) refl
        | inr differ ↦
            elim (Bool-cases
              (bytes_eq (address_of C (C.xpriv_key g1)) (address_of C (C.xpriv_key g2)))) [
                | inl same ↦ rw (er, key_width, e0, e1, e2, differ, same) refl
                | inr differ' ↦
                    rw
                      (
                        er,
                        key_width,
                        e0,
                        e1,
                        e2,
                        differ,
                        differ',
                        ea,
                        to_array_32_lem (C.key_bytes ak) (L.length-key_bytes ak),
                        delegator_lem C H L build rk contract_aa (C.key_bytes rk)
                            (plain_cert delegate 5000000000000000000 2000000000 0)
                            (plain_cert-IsValid delegate 5000000000000000000 2000000000 0 width
                              (omega arith) (omega arith) (omega arith))
                            refl (L.signing_key-key_bytes rk),
                        bytes_eq_refl (address_of C rk),
                        derived,
                        session_signer_lem C H L build ak contract_aa (C.key_bytes ak)
                            (plain_session session.eth_address delegate target_bb
                              2000000000000000000)
                            (plain_session-IsValid session.eth_address delegate target_bb
                              2000000000000000000 session_width width refl (omega arith))
                            refl (L.signing_key-key_bytes ak),
                        bytes_eq_refl delegate,
                        intent_signer_lem C H L build s contract_aa session.private_key
                            (spending_intent data_hash)
                            (spending_intent-IsValid data_hash (length-keccak256 C H call_data))
                            refl session_parsed,
                        address,
                        bytes_eq_refl (address_of C s),
                        bytes_eq_refl (keccak256 C call_data),
                        derived',
                        address',
                      )
                      refl
              ]
      ]

  -- If the first three keys of each role derive and HKDF gives the sessions of nonce 0 on the
  -- chains 1 and 137 valid keys, the end-to-end test passes, in either build and whatever the root,
  -- exactly if the addresses of the guardians 0 and 1 differ, those of the guardians 1 and 2
  -- differ, and those of the two sessions differ: no call panics and none of its other assertions
  -- can fail.
  pub test_end_to_end_protocol_flow_iff :
      (derives : Derives C root) (x : Expands C (derives.key action 0) 0 1)
      → (y : Expands C (derives.key action 0) 0 137)
      → (test_end_to_end_protocol_flow C build root ≡ some passed) ↔ (
          (address_of C (key_at C root derives recovery 0)
            ≢ address_of C (key_at C root derives recovery 1))
          × (address_of C (key_at C root derives recovery 1)
              ≢ address_of C (key_at C root derives recovery 2))
          × (address_of C x.1 ≢ address_of C y.1))
  test_end_to_end_protocol_flow_iff derives x y =
      let at = λ (role : KeyRole). derives.found role 0 (omega arith) in
      rw
        (test_end_to_end_protocol_flow_lem _ _ _ _ _ (at root_identity) (at recovery)
          (derives.found recovery 1 (omega arith)) (derives.found recovery 2 (omega arith))
          (at action) x y)
        (ground (
          arith,
          remaining_iff
              (bytes_eq (address_of C (key_at C root derives recovery 0))
                (address_of C (key_at C root derives recovery 1)))
              (bytes_eq (address_of C (key_at C root derives recovery 1))
                (address_of C (key_at C root derives recovery 2)))
              (bytes_eq (address_of C x.1) (address_of C y.1)),
          bytes_eq-false_iff (address_of C (key_at C root derives recovery 0))
              (address_of C (key_at C root derives recovery 1)),
          bytes_eq-false_iff (address_of C (key_at C root derives recovery 1))
              (address_of C (key_at C root derives recovery 2)),
          bytes_eq-false_iff (address_of C x.1) (address_of C y.1),
        ))
