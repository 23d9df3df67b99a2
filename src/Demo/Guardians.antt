-- ===== src/Demo/Guardians.antt =====
-- Every check of the recovery of src/main.rs succeeds.
use huntkey.Prelude.{◌≡◌, refl, ◌≢◌, true, false, some, arith, Build}
use huntkey.Prelude.Bytes.{Bytes, IsArray, bytes_eq, bytes_eq_iff}
use huntkey.Prelude.Members.{bytes_eq_refl}
use huntkey.Crypto.{Crypto, IsHash, IsEcdsa}
use huntkey.Core.Keys as Keys
use huntkey.Core.Keys.{
  KeyRole, DerivedKey, root_identity, action, recovery, eth_address, role_path, derive_key,
  derive_role, next_action_key,
}
use huntkey.Recovery as Recovery
use huntkey.Recovery.{add_approval, threshold_met, is_alert, timelock_expired}
use huntkey.Recovery.Laws as Request
use huntkey.Recovery.Laws.{recover_recovery_signer-sign_recovery_request}
use huntkey.Demo.{recovery_request, signed_request, recovery_checks, verifying_contract}
use huntkey.Demo.Laws.{to_array_32_lem, length-eth_address}

module _ (C : Crypto) (H : IsHash C) where
  recovery_request-IsValid :
      (old_root : Bytes) → IsArray 20 old_root → Request.IsValid (recovery_request C old_root)
  recovery_request-IsValid old_root h = record {
    old_root = h;
    new_root = refl;
    chain_id = omega arith;
    nonce = omega arith;
  }

  signed_request_lem :
      (L : IsEcdsa C) (build : Build) (private_key : Bytes) {k : C.SigningKey} (old_root : Bytes)
      → IsArray 20 old_root
      → C.signing_key private_key ≡ some k
      → signed_request C build (recovery_request C old_root) private_key
        ≡ some (eth_address C (C.verifying_key k))
  unfolding signed_request
  signed_request_lem L build private_key {k} old_root h e =
      let (sig, signed, _, _, back) =
        recover_recovery_signer-sign_recovery_request C H L build build
          (recovery_request C old_root) verifying_contract private_key {k = k}
          (recovery_request-IsValid old_root h) refl e in
      rw signed back

  -- If the root's and three guardians' paths derive, and the first two guardians have different
  -- addresses, the program runs through its recovery with no panic, in either build: there are two
  -- approvals, the threshold is met, the request concerns the root, and the timelock has expired
  -- after 48 hours and not after 47.
  pub recovery_checks_lem :
      IsEcdsa C
      → (build : Build) (root r g g' g'' : C.XPriv)
      → C.derive_path root (role_path root_identity 0) ≡ some r
      → C.derive_path root (role_path recovery 0) ≡ some g
      → C.derive_path root (role_path recovery 1) ≡ some g'
      → C.derive_path root (role_path recovery 2) ≡ some g''
      → eth_address C (C.verifying_key (C.xpriv_key g))
        ≢ eth_address C (C.verifying_key (C.xpriv_key g'))
      → recovery_checks C build root ≡ some (2, true, true, false, true)
  unfolding recovery_checks derive_role derive_key Keys.new add_approval Recovery.new threshold_met
      is_alert timelock_expired
  recovery_checks_lem L build root r g g' g'' er e0 e1 e2 differ =
      let old_root = eth_address C (C.verifying_key (C.xpriv_key r)) in
      let width = length-eth_address C H (C.verifying_key (C.xpriv_key r)) in
      let k = C.xpriv_key g in
      let k' = C.xpriv_key g' in
      let other : bytes_eq (eth_address C (C.verifying_key k')) (eth_address C (C.verifying_key k))
          ≡ false =
        ground (
          arith,
          bytes_eq_iff (eth_address C (C.verifying_key k')) (eth_address C (C.verifying_key k)),
          differ,
        ) in
      rw (
        er,
        e0,
        e1,
        e2,
        to_array_32_lem (C.key_bytes k) (L.length-key_bytes k),
        signed_request_lem L build (C.key_bytes k) {k = k} old_root width
            (L.signing_key-key_bytes k),
        to_array_32_lem (C.key_bytes k') (L.length-key_bytes k'),
        signed_request_lem L build (C.key_bytes k') {k = k'} old_root width
            (L.signing_key-key_bytes k'),
        other,
        bytes_eq_refl old_root,
      )
