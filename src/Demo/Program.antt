-- ===== src/Demo/Program.antt =====
-- The whole of `main` of src/main.rs, without its printing.
use huntkey.Prelude.{ℕ, ◌≡◌, ◌≢◌, refl, arith, Bool, true, false, Option, some, ◌>>=◌, List, Build}
use huntkey.Prelude.Bytes.{Bytes}
use huntkey.Prelude.Decimal.{codes}
use huntkey.Crypto.{Crypto, IsHash, IsEcdsa}
use huntkey.Core.Keys as Keys
use huntkey.Core.Keys.{
  KeyRole, DerivedKey, KeyHierarchy, root_identity, action, recovery, role_path, derive_key,
  derive_role, next_action_key, generate_mnemonic, root_from_mnemonic, eth_address,
}
use huntkey.Sessions.{SessionKey, derive_session_key, session_info}
use huntkey.Sessions.Derivation.{derive_session_key_lem}
use huntkey.Demo.{to_array_32, chain_checks, recovery_checks}
use huntkey.Demo.Laws.{to_array_32_lem, chain_checks_lem}
use huntkey.Demo.Guardians.{recovery_checks_lem}
use huntkey.Core.Keys.Paths.{Derives}
use huntkey.Demo.Legacy.{legacy_keys, CoinsDerive, legacy_keys_lem}

module _ (C : Crypto) (build : Build) where
  -- The session key of the first action key with the nonce 1, which is only printed.
  second_session : C.XPriv → Option SessionKey
  second_session root = do
    (action_key, hierarchy) ← next_action_key C build (Keys.new C root)
    action_privkey2 ← to_array_32 action_key.private_key
    derive_session_key C action_privkey2 1 1

  -- The listed keys and the results of the checks, from the entropy of the seed phrase.
  unfoldable pub main :
      Bytes
      → Option
          (List DerivedKey × (Bool × Bool × Bool × Bool × Bool) × (ℕ × Bool × Bool × Bool × Bool))
  unfolding second_session
  main entropy = do
    mnemonic ← generate_mnemonic C entropy 12
    root ← root_from_mnemonic C mnemonic
    listed ← legacy_keys C root
    root2 ← root_from_mnemonic C mnemonic
    recovery_key ← derive_role C (Keys.new C root2) recovery 0
    chain ← chain_checks C build root2
    recovered ← recovery_checks C build root2
    session2 ← second_session root2
    some (listed, chain, recovered)

module _ (C : Crypto) (H : IsHash C) (L : IsEcdsa C) (build : Build) (root : C.XPriv) where
  -- HKDF gives the session of the action key with this nonce a valid key.
  abbrev pub HasSession : C.XPriv → ℕ → Type 0
  HasSession a nonce =
      (okm : Bytes) × (s : C.SigningKey) × (C.hkdf_sha256 (codes "HuntKey-V1-Session-Key")
          (C.key_bytes (C.xpriv_key a))
          (session_info (C.sec1_bytes (C.verifying_key (C.xpriv_key a))) nonce 1) 32
        ≡ some okm)
      × (C.signing_key okm ≡ some s)

  second_session_lem :
      (a : C.XPriv)
      → C.derive_path root (role_path action 0) ≡ some a
      → HasSession a 1
      → (session : SessionKey) × (second_session C build root ≡ some session)
  unfolding second_session next_action_key derive_role derive_key Keys.new
  second_session_lem a e (okm, s, expanded, parsed) =
      let ak = C.xpriv_key a in
      let (session, derived, _, _) =
        derive_session_key_lem C L (C.key_bytes ak) 1 1 okm {parent = ak} {k = s}
          (L.signing_key-key_bytes ak) expanded parsed in
      (session, rw (e, to_array_32_lem (C.key_bytes ak) (L.length-key_bytes ak)) derived)

  recovery_key_lem :
      Derives C root → (key : DerivedKey) × (derive_role C (Keys.new C root) recovery 0 ≡ some key)
  unfolding derive_role derive_key Keys.new
  recovery_key_lem derives =
      let x = derives.key recovery 0 in
      let k = C.xpriv_key x in
      let key : DerivedKey = record {
        path = role_path recovery 0;
        private_key = C.key_bytes k;
        public_key = C.sec1_bytes (C.verifying_key k);
        eth_address = some (eth_address C (C.verifying_key k));
      } in
      (key, rw (derives.found recovery 0 (omega arith)) refl)

  -- If the seed phrase and its root are made, the first three keys of each role and the paths of
  -- the six listed keys derive, HKDF gives both sessions valid keys, and the first two guardians
  -- have different addresses, then the program runs to its end with no panic, in either build. It
  -- lists keys, all five checks of its signing chain succeed, and its recovery has two approvals,
  -- which meet the threshold, concerns the root, and is past its timelock after 48 hours and not
  -- after 47.
  pub main_lem :
      (entropy : Bytes) {mnemonic : C.Mnemonic}
      → generate_mnemonic C entropy 12 ≡ some mnemonic
      → root_from_mnemonic C mnemonic ≡ some root
      → CoinsDerive C root
      → (derives : Derives C root) → HasSession (derives.key action 0) 0
      → HasSession (derives.key action 0) 1
      → eth_address C (C.verifying_key (C.xpriv_key (derives.key recovery 0)))
        ≢ eth_address C (C.verifying_key (C.xpriv_key (derives.key recovery 1)))
      → (keys : List DerivedKey) × (main C build entropy
          ≡ some (keys, (true, true, true, true, true), (2, true, true, false, true)))
  unfolding main
  main_lem entropy {mnemonic} made rooted coins derives (okm, s, expanded, parsed) second apart =
      let at = λ (role : KeyRole). derives.found role 0 (omega arith) in
      let a = derives.key action 0 in
      let (keys, listed, _, _) = legacy_keys_lem C root coins in
      let (recovery_key, shown) = recovery_key_lem derives in
      let (session2, again) = second_session_lem a (at action) second in
      (
        keys,
        rw
            (
              made,
              rooted,
              listed,
              shown,
              chain_checks_lem C H L build root _ a okm {s = s} (at root_identity) (at action)
                  expanded parsed,
              recovery_checks_lem C H L build root _ _ _ _ (at root_identity) (at recovery)
                  (derives.found recovery 1 (omega arith)) (derives.found recovery 2 (omega arith))
                  apart,
              again,
            )
            refl,
      )
