-- ===== src/CrateTests/RecoveryFlow.antt =====
-- The test of the recovery flow of src/lib.rs: which of its assertions can fail.
use huntkey.Prelude.{
  ◌≡◌, ◌≢◌, ◌↔◌, refl, Bool, true, false, not, Option, some, arith, Build, Bool-cases, inl, inr,
}
use huntkey.Prelude.Bytes.{Bytes, bytes_eq, bytes_eq_iff, bytes_eq-false_iff}
use huntkey.Prelude.Members.{bytes_eq_refl}
use huntkey.Crypto.{Crypto, IsHash, IsEcdsa}
use huntkey.Core.Keys as Keys
use huntkey.Core.Keys.{
  KeyRole, root_identity, recovery, eth_address, role_path, derive_key, derive_role,
}
use huntkey.Recovery as Recovery
use huntkey.Recovery.{add_approval, threshold_met}
use huntkey.Demo.Laws.{to_array_32_lem, length-eth_address}
use huntkey.Core.Keys.Paths.{Derives}
use huntkey.CrateTests.{Outcome, assert, passed, plain_request}
use huntkey.CrateTests.Proptests.{contract_cc}
use huntkey.CrateTests.Flows.{test_full_recovery_flow}
use huntkey.CrateTests.Recoverable.{plain_request-IsValid, request_signer_lem}

abbrev distinct : Bool → Option Outcome
distinct same = assert (not same)

distinct_iff : (same : Bool) → (distinct same ≡ some passed) ↔ (same ≡ false)
distinct_iff true = ground arith
distinct_iff false = ground arith

module _ (C : Crypto) (H : IsHash C) (L : IsEcdsa C) (build : Build) (root new_root : C.XPriv) where
  abbrev account : C.XPriv → Bytes
  account x = eth_address C (C.verifying_key (C.xpriv_key x))

  test_full_recovery_flow_lem :
      (r g0 g1 r' : C.XPriv)
      → C.derive_path root (role_path root_identity 0) ≡ some r
      → C.derive_path root (role_path recovery 0) ≡ some g0
      → C.derive_path root (role_path recovery 1) ≡ some g1
      → C.derive_path new_root (role_path root_identity 0) ≡ some r'
      → test_full_recovery_flow C build root new_root
        ≡ distinct (bytes_eq (account g0) (account g1))
  unfolding test_full_recovery_flow derive_role derive_key Keys.new add_approval Recovery.new
      threshold_met
  test_full_recovery_flow_lem r g0 g1 r' er e0 e1 er' =
      let k0 = C.xpriv_key g0 in
      let k1 = C.xpriv_key g1 in
      let req = plain_request (account r) (account r') 0 in
      let valid =
        plain_request-IsValid (account r) (account r') 0
          (length-eth_address C H (C.verifying_key (C.xpriv_key r)))
          (length-eth_address C H (C.verifying_key (C.xpriv_key r'))) (omega arith) in
      let signed0 =
        request_signer_lem C H L build k0 contract_cc (C.key_bytes k0) req valid refl
          (L.signing_key-key_bytes k0) in
      let signed1 =
        request_signer_lem C H L build k1 contract_cc (C.key_bytes k1) req valid refl
          (L.signing_key-key_bytes k1) in
      let width0 = to_array_32_lem (C.key_bytes k0) (L.length-key_bytes k0) in
      let width1 = to_array_32_lem (C.key_bytes k1) (L.length-key_bytes k1) in
      elim (Bool-cases (bytes_eq (account g0) (account g1))) [
        | inl same ↦
            rw
              (
                er,
                e0,
                e1,
                er',
                width0,
                signed0,
                bytes_eq_refl (account g0),
                width1,
                signed1,
                bytes_eq_refl (account g1),
                same,
              )
              refl
        | inr differ ↦
            let other : bytes_eq (account g1) (account g0) ≡ false = ground (
              arith,
              bytes_eq_iff (account g1) (account g0),
              bytes_eq-false_iff (account g0) (account g1),
            ) in
            rw
              (
                er,
                e0,
                e1,
                er',
                width0,
                signed0,
                bytes_eq_refl (account g0),
                width1,
                signed1,
                bytes_eq_refl (account g1),
                differ,
                other,
              )
              refl
      ]

  -- If the first three keys of each role derive from the root and the new root's identity derives
  -- from its seed, the test of the recovery flow passes, in either build and whatever the roots,
  -- exactly if the addresses of the two guardians differ.
  test_full_recovery_flow_iff :
      (derives : Derives C root) {r' : C.XPriv}
      → C.derive_path new_root (role_path root_identity 0) ≡ some r'
      → (test_full_recovery_flow C build root new_root ≡ some passed)
        ↔ (account (derives.key recovery 0) ≢ account (derives.key recovery 1))
  test_full_recovery_flow_iff derives {r'} e =
      let at = λ (role : KeyRole). derives.found role 0 (omega arith) in
      let a = account (derives.key recovery 0) in
      let b = account (derives.key recovery 1) in
      rw
        (test_full_recovery_flow_lem _ _ _ r' (at root_identity) (at recovery)
          (derives.found recovery 1 (omega arith)) e)
        (ground (arith, distinct_iff (bytes_eq a b), bytes_eq-false_iff a b))
