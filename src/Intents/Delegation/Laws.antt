-- ===== src/Intents/Delegation/Laws.antt =====
-- What a delegation's hash commits to, and that the root is recovered (src/intents/mod.rs).
use huntkey.Prelude.{Build, IsU128, IsU64, List, [], length, refl, some, ◌∷◌, ◌≡◌, ◌≤◌, ◌⊎◌}
use huntkey.Prelude.Bytes.{Bytes, IsArray}
use huntkey.Prelude.Decimal.{codes}
use huntkey.Crypto.{Crypto, IsHash, IsEcdsa}
use huntkey.Core.Words.Laws.{
  address_word, u64_word, address_to_word_lem, u64_to_word_lem, address_word-IsWord,
  u64_word-IsWord, address_word_inj, u64_word_inj, selector_word, right_pad_32_selector,
  selector_word-IsWord, selector_word_inj, u128_word, u128_to_word_lem, u128_word-IsWord,
  u128_word_inj,
}
use huntkey.Core.Words.Buffer.{
  ◌⊳◌, concat_words, Yields, AreWords, extend_all_lem, concat_words_inj, length-concat_words,
}
use huntkey.Core.Hash.{keccak256, typed_data_hash}
use huntkey.Core.Hash.Binding.{
  AnyCollides, preimages, domain_preimage, domain_separator_lem, length-keccak256,
}
use huntkey.Core.Keys.{eth_address}
use huntkey.Signing.Message.{Message, signing_hash_inj, sign-recover}
use huntkey.Intents.Delegation.{
  delegation_type_str, DelegationCertificate, delegation_steps, delegation_struct_hash,
  delegation_signing_hash, sign_delegation, recover_delegator, SignedDelegation,
}

-- The ranges that the Rust types give the fields.
pub record IsValid (m : DelegationCertificate) : Type 0 where
  pub delegate : IsArray 20 m.delegate
  pub scope : IsArray 4 m.scope
  pub max_value : IsU128 m.max_value
  pub expiration : IsU64 m.expiration
  pub chain_id : IsU64 m.chain_id
  pub nonce : IsU64 m.nonce

module _ (C : Crypto) where
  abbrev pub delegation_words : DelegationCertificate → List Bytes
  delegation_words m =
      keccak256 C (codes delegation_type_str)
      ∷ address_word m.delegate
      ∷ selector_word m.scope
      ∷ u128_word m.max_value
      ∷ u64_word m.expiration
      ∷ u64_word m.chain_id
      ∷ u64_word m.nonce
      ∷ []

  -- The bytes that the struct hash is the hash of.
  unfoldable pub delegation_preimage : DelegationCertificate → Bytes
  delegation_preimage m = concat_words (delegation_words m)

  delegation_steps-Yields :
      (m : DelegationCertificate) → IsValid m → Yields (delegation_steps C m) (delegation_words m)
  delegation_steps-Yields m h =
      refl
      ⊳ address_to_word_lem m.delegate h.delegate
      ⊳ right_pad_32_selector m.scope h.scope
      ⊳ u128_to_word_lem m.max_value
      ⊳ u64_to_word_lem m.expiration
      ⊳ u64_to_word_lem m.chain_id
      ⊳ u64_to_word_lem m.nonce
      ⊳ tt

  -- A valid message is hashed with no panic.
  delegation_struct_hash_lem :
      (m : DelegationCertificate)
      → IsValid m
      → delegation_struct_hash C m ≡ some (keccak256 C (delegation_preimage m))
  unfolding delegation_struct_hash delegation_preimage
  delegation_struct_hash_lem m h =
      rw (extend_all_lem (delegation_steps C m) (delegation_words m) (delegation_steps-Yields m h))

  pub delegation_signing_hash_lem :
      (m : DelegationCertificate) (c : Bytes)
      → IsValid m
      → IsArray 20 c
      → delegation_signing_hash C m c
        ≡ some (
            typed_data_hash C
              (keccak256 C (domain_preimage C m.chain_id c))
              (keccak256 C (delegation_preimage m)))
  unfolding delegation_signing_hash
  delegation_signing_hash_lem m c h hc =
      rw (domain_separator_lem C m.chain_id c hc, delegation_struct_hash_lem m h)

module _ (C : Crypto) (H : IsHash C) where
  delegation_words-AreWords :
      (m : DelegationCertificate) → IsValid m → AreWords (delegation_words C m)
  delegation_words-AreWords m h =
      length-keccak256 C H _
      ⊳ address_word-IsWord m.delegate h.delegate
      ⊳ selector_word-IsWord m.scope h.scope
      ⊳ u128_word-IsWord m.max_value
      ⊳ u64_word-IsWord m.expiration
      ⊳ u64_word-IsWord m.chain_id
      ⊳ u64_word-IsWord m.nonce
      ⊳ tt

  -- A message is determined by its preimage.
  pub delegation_preimage_inj :
      (m m' : DelegationCertificate)
      → IsValid m
      → IsValid m'
      → delegation_preimage C m ≡ delegation_preimage C m'
      → m ≡ m'
  unfolding delegation_preimage
  delegation_preimage_inj m m' h h' e =
      let w =
        concat_words_inj (delegation_words C m) (delegation_words C m')
          (delegation_words-AreWords m h) (delegation_words-AreWords m' h') refl e in
      let delegate = address_word_inj m.delegate m'.delegate w.1.0 in
      let scope = selector_word_inj m.scope m'.scope h.scope h'.scope w.1.1.0 in
      let max_value = u128_word_inj h.max_value h'.max_value w.1.1.1.0 in
      let expiration = u64_word_inj h.expiration h'.expiration w.1.1.1.1.0 in
      let chain_id = u64_word_inj h.chain_id h'.chain_id w.1.1.1.1.1.0 in
      let nonce = u64_word_inj h.nonce h'.nonce w.1.1.1.1.1.1.0 in
      λ i. record {
        delegate = delegate i;
        scope = scope i;
        max_value = max_value i;
        expiration = expiration i;
        chain_id = chain_id i;
        nonce = nonce i;
      }

  pub length-delegation_preimage :
      (m : DelegationCertificate) → IsValid m → length (delegation_preimage C m) ≡ 224
  unfolding delegation_preimage
  length-delegation_preimage m h =
      length-concat_words (delegation_words C m) (delegation_words-AreWords m h)

  abbrev pub delegation_message : Message C
  delegation_message = record {
    Body = DelegationCertificate;
    IsValid = IsValid;
    chain_id = λ m. m.chain_id;
    signing_hash = delegation_signing_hash C;
    preimage = delegation_preimage C;
    width = 224;
    chain_id-IsU64 = λ m h. h.chain_id;
    length-preimage = length-delegation_preimage;
    signing_hash_lem = delegation_signing_hash_lem C;
    preimage_inj = delegation_preimage_inj;
  }

  -- Two valid certificates with one signing hash, each for its contract, are the same certificate
  -- for the same contract, or Keccak collides on the framed, the domain or the struct preimages.
  pub delegation_signing_hash_inj :
      (m : DelegationCertificate) (c : Bytes) (m' : DelegationCertificate) (c' : Bytes)
      → IsValid m
      → IsValid m'
      → IsArray 20 c
      → IsArray 20 c'
      → delegation_signing_hash C m c ≡ delegation_signing_hash C m' c'
      → ((m ≡ m') × (c ≡ c'))
        ⊎ AnyCollides C (
            preimages C
              (domain_preimage C m.chain_id c)
              (delegation_preimage C m)
              (domain_preimage C m'.chain_id c')
              (delegation_preimage C m'))
  delegation_signing_hash_inj = signing_hash_inj C H delegation_message

  -- With a valid key and a contract address, signing a valid certificate does not panic, gives a
  -- `v` in 27..=30, and recovery from the signature gives the address of the root's key, whatever
  -- the builds of the signer and the verifier.
  pub recover_delegator-sign_delegation :
      IsEcdsa C
      → (signer verifier : Build) (m : DelegationCertificate) (c root_private_key : Bytes)
        {k : C.SigningKey}
      → IsValid m
      → IsArray 20 c
      → C.signing_key root_private_key ≡ some k
      → (sig : SignedDelegation) × (sign_delegation C signer m c root_private_key ≡ some sig)
        × (sig.certificate ≡ m)
        × (27 ≤ sig.v)
        × (sig.v ≤ 30)
        × (recover_delegator C verifier m c sig.v sig.r sig.s
            ≡ some (eth_address C (C.verifying_key k)))
  unfolding sign_delegation recover_delegator
  recover_delegator-sign_delegation L signer verifier m c root_private_key {k} h hc e =
      let (hash, sig, hashed, signed, low, high, back) =
        sign-recover C H delegation_message L signer verifier m c root_private_key {k = k} h hc e in
      (
        record { certificate = m; v = sig.v; r = sig.r; s = sig.s },
        rw (hashed, signed),
        refl,
        low,
        high,
        rw hashed back,
      )
