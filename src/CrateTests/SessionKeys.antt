-- ===== src/CrateTests/SessionKeys.antt =====
-- Which assertions of the tests of src/lib.rs that derive session keys or look at a recovery byte
-- can fail.
use huntkey.Prelude.{
  ◌≡◌, ◌↔◌, ◌⊎◌, refl, ◌==◌, ◌||◌, some, List, [], ◌∷◌, Distinct, arith, Build, Bool-cases, inl,
  inr,
}
use huntkey.Prelude.Bytes.{Bytes}
use huntkey.Prelude.Members.{bytes_eq_refl}
use huntkey.Crypto.{Crypto, IsHash, IsEcdsa}
use huntkey.Core.Keys as Keys
use huntkey.Core.Keys.{action, eth_address, role_path, derive_key, derive_role, next_action_key}
use huntkey.Sessions.Derivation.{derive_session_key_lem}
use huntkey.Signing.{IntentSignature}
use huntkey.Intents.Intent.{sign_intent}
use huntkey.Intents.Intent.Laws.{recover_signer-sign_intent}
use huntkey.Demo.Laws.{to_array_32_lem}
use huntkey.CrateTests.{passed, plain_intent}
use huntkey.CrateTests.Proptests.{contract_cc, target_dd}
use huntkey.CrateTests.Recoverable.{plain_intent-IsValid}
use huntkey.CrateTests.Passing.{Expands}
use huntkey.CrateTests.EndToEnd.{address_of}
use huntkey.CrateTests.Deriving.{
  all_different, test_derive_session_key_different_nonces, test_hkdf_chain_id_isolation,
  test_sign_and_recover_roundtrip,
}
use huntkey.CrateTests.Derived.{all_different_iff, assert_different_iff}

module _ (C : Crypto) (H : IsHash C) (L : IsEcdsa C) (build : Build) (root a : C.XPriv) where
  abbrev addresses : C.SigningKey → C.SigningKey → C.SigningKey → List Bytes
  addresses s s' s'' = address_of C s ∷ address_of C s' ∷ address_of C s'' ∷ []

  -- If the action key derives and HKDF gives its sessions valid keys, the test of the nonces passes
  -- exactly if the addresses of the sessions of the nonces 0, 1 and 2 are pairwise different.
  test_derive_session_key_different_nonces_iff :
      C.derive_path root (role_path action 0) ≡ some a
      → (x : Expands C a 0 1) (y : Expands C a 1 1) (z : Expands C a 2 1)
      → (test_derive_session_key_different_nonces C build root ≡ some passed)
        ↔ Distinct (addresses x.1 y.1 z.1)
  unfolding test_derive_session_key_different_nonces derive_role derive_key Keys.new
  test_derive_session_key_different_nonces_iff e (o0, s0, e0, p0) (o1, s1, e1, p1)
        (o2, s2, e2, p2) =
      let k = C.xpriv_key a in
      let key = C.key_bytes k in
      let parsed = L.signing_key-key_bytes k in
      let (session0, d0, _, a0) =
        derive_session_key_lem C L key 0 1 o0 {parent = k} {k = s0} parsed e0 p0 in
      let (session1, d1, _, a1) =
        derive_session_key_lem C L key 1 1 o1 {parent = k} {k = s1} parsed e1 p1 in
      let (session2, d2, _, a2) =
        derive_session_key_lem C L key 2 1 o2 {parent = k} {k = s2} parsed e2 p2 in
      rw (e, to_array_32_lem key (L.length-key_bytes k), d0, d1, d2, a0, a1, a2)
        (assert_different_iff (addresses s0 s1 s2))

  -- If the action key derives and HKDF gives its sessions valid keys, the test of the chains passes
  -- exactly if the addresses of the sessions on the chains 1, 137 and 42161 are pairwise different:
  -- a session that is derived again is the same.
  test_hkdf_chain_id_isolation_iff :
      C.derive_path root (role_path action 0) ≡ some a
      → (x : Expands C a 0 1) (y : Expands C a 0 137) (z : Expands C a 0 42161)
      → (test_hkdf_chain_id_isolation C build root ≡ some passed) ↔ Distinct (addresses x.1 y.1 z.1)
  unfolding test_hkdf_chain_id_isolation derive_role derive_key Keys.new
  test_hkdf_chain_id_isolation_iff e (o0, s0, e0, p0) (o1, s1, e1, p1) (o2, s2, e2, p2) =
      let k = C.xpriv_key a in
      let key = C.key_bytes k in
      let parsed = L.signing_key-key_bytes k in
      let width = to_array_32_lem key (L.length-key_bytes k) in
      let (session0, d0, _, a0) =
        derive_session_key_lem C L key 0 1 o0 {parent = k} {k = s0} parsed e0 p0 in
      let (session1, d1, _, a1) =
        derive_session_key_lem C L key 0 137 o1 {parent = k} {k = s1} parsed e1 p1 in
      let (session2, d2, _, a2) =
        derive_session_key_lem C L key 0 42161 o2 {parent = k} {k = s2} parsed e2 p2 in
      elim (Bool-cases (all_different (addresses s0 s1 s2))) [
        | inl isolated ↦
            rw (e, width, d0, d1, d2, a0, a1, a2, isolated, bytes_eq_refl (address_of C s0))
              (λ _. (all_different_iff (addresses s0 s1 s2)).0 isolated, λ _. refl)
        | inr shared ↦
            rw (e, width, d0, d1, d2, a0, a1, a2, shared)
              (
                λ h. absurd (ground arith),
                λ h. absurd (ground (arith, shared, (all_different_iff (addresses s0 s1 s2)).1 h)),
              )
      ]

  -- If the action key derives, its signature of the test's intent exists, and the test passes
  -- exactly if the signature's `v` is 27 or 28: the code itself gives a `v` in 27..=30.
  test_sign_and_recover_roundtrip_iff :
      C.derive_path root (role_path action 0) ≡ some a
      → (sig : IntentSignature) × (sign_intent C build
            (plain_intent target_dd 500000 1800000000 42)
            contract_cc
            (C.key_bytes (C.xpriv_key a))
          ≡ some sig)
        × ((test_sign_and_recover_roundtrip C build root ≡ some passed)
            ↔ ((sig.v ≡ 27) ⊎ (sig.v ≡ 28)))
  unfolding test_sign_and_recover_roundtrip derive_role derive_key next_action_key Keys.new
  test_sign_and_recover_roundtrip_iff e =
      let k = C.xpriv_key a in
      let key = C.key_bytes k in
      let (sig, signed, _, _, back) =
        recover_signer-sign_intent C H L build build (plain_intent target_dd 500000 1800000000 42)
          contract_cc key {k = k}
          (plain_intent-IsValid target_dd 500000 1800000000 42 refl (omega arith) (omega arith)
            (omega arith))
          refl (L.signing_key-key_bytes k) in
      let width = to_array_32_lem key (L.length-key_bytes k) in
      (
        sig,
        signed,
        elim (Bool-cases (sig.v == 27 || sig.v == 28)) [
          | inl low ↦
              rw (e, width, signed, low, back, bytes_eq_refl (address_of C k)) (ground (arith, low))
          | inr high ↦ rw (e, width, signed, high) (ground (arith, high))
        ],
      )
