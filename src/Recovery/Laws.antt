-- ===== src/Recovery/Laws.antt =====
-- What a recovery request's hash commits to, and that the guardian is recovered
-- (src/recovery/mod.rs).
use huntkey.Prelude.{Build, IsU64, List, [], length, refl, some, ◌∷◌, ◌≡◌, ◌≤◌, ◌⊎◌}
use huntkey.Prelude.Bytes.{Bytes, IsArray}
use huntkey.Prelude.Decimal.{codes}
use huntkey.Crypto.{Crypto, IsHash, IsEcdsa}
use huntkey.Core.Words.Laws.{
  address_word, u64_word, address_to_word_lem, u64_to_word_lem, address_word-IsWord,
  u64_word-IsWord, address_word_inj, u64_word_inj,
}
use huntkey.Core.Words.Buffer.{
  ◌⊳◌, concat_words, Yields, AreWords, extend_all_lem, concat_words_inj, length-concat_words,
}
use huntkey.Core.Hash.{keccak256, typed_data_hash}
use huntkey.Core.Hash.Binding.{
  AnyCollides, preimages, domain_preimage, domain_separator_lem, length-keccak256,
}
use huntkey.Core.Keys.{eth_address}
use huntkey.Signing.{IntentSignature}
use huntkey.Signing.Message.{Message, signing_hash_inj, sign-recover}
use huntkey.Recovery.{
  recovery_type_str, RecoveryRequest, recovery_steps, recovery_struct_hash, recovery_signing_hash,
  sign_recovery_request, recover_recovery_signer,
}

-- The ranges that the Rust types give the fields.
pub record IsValid (m : RecoveryRequest) : Type 0 where
  pub old_root : IsArray 20 m.old_root
  pub new_root : IsArray 20 m.new_root
  pub chain_id : IsU64 m.chain_id
  pub nonce : IsU64 m.nonce

module _ (C : Crypto) where
  abbrev pub recovery_words : RecoveryRequest → List Bytes
  recovery_words m =
      keccak256 C (codes recovery_type_str)
      ∷ address_word m.old_root
      ∷ address_word m.new_root
      ∷ u64_word m.chain_id
      ∷ u64_word m.nonce
      ∷ []

  -- The bytes that the struct hash is the hash of.
  unfoldable pub recovery_preimage : RecoveryRequest → Bytes
  recovery_preimage m = concat_words (recovery_words m)

  recovery_steps-Yields :
      (m : RecoveryRequest) → IsValid m → Yields (recovery_steps C m) (recovery_words m)
  recovery_steps-Yields m h =
      refl
      ⊳ address_to_word_lem m.old_root h.old_root
      ⊳ address_to_word_lem m.new_root h.new_root
      ⊳ u64_to_word_lem m.chain_id
      ⊳ u64_to_word_lem m.nonce
      ⊳ tt

  -- A valid message is hashed with no panic.
  recovery_struct_hash_lem :
      (m : RecoveryRequest)
      → IsValid m
      → recovery_struct_hash C m ≡ some (keccak256 C (recovery_preimage m))
  unfolding recovery_struct_hash recovery_preimage
  recovery_struct_hash_lem m h =
      rw (extend_all_lem (recovery_steps C m) (recovery_words m) (recovery_steps-Yields m h))

  pub recovery_signing_hash_lem :
      (m : RecoveryRequest) (c : Bytes)
      → IsValid m
      → IsArray 20 c
      → recovery_signing_hash C m c
        ≡ some (
            typed_data_hash C
              (keccak256 C (domain_preimage C m.chain_id c))
              (keccak256 C (recovery_preimage m)))
  unfolding recovery_signing_hash
  recovery_signing_hash_lem m c h hc =
      rw (domain_separator_lem C m.chain_id c hc, recovery_struct_hash_lem m h)

module _ (C : Crypto) (H : IsHash C) where
  recovery_words-AreWords : (m : RecoveryRequest) → IsValid m → AreWords (recovery_words C m)
  recovery_words-AreWords m h =
      length-keccak256 C H _
      ⊳ address_word-IsWord m.old_root h.old_root
      ⊳ address_word-IsWord m.new_root h.new_root
      ⊳ u64_word-IsWord m.chain_id
      ⊳ u64_word-IsWord m.nonce
      ⊳ tt

  -- A message is determined by its preimage.
  pub recovery_preimage_inj :
      (m m' : RecoveryRequest)
      → IsValid m
      → IsValid m'
      → recovery_preimage C m ≡ recovery_preimage C m'
      → m ≡ m'
  unfolding recovery_preimage
  recovery_preimage_inj m m' h h' e =
      let w =
        concat_words_inj (recovery_words C m) (recovery_words C m') (recovery_words-AreWords m h)
          (recovery_words-AreWords m' h') refl e in
      let old_root = address_word_inj m.old_root m'.old_root w.1.0 in
      let new_root = address_word_inj m.new_root m'.new_root w.1.1.0 in
      let chain_id = u64_word_inj h.chain_id h'.chain_id w.1.1.1.0 in
      let nonce = u64_word_inj h.nonce h'.nonce w.1.1.1.1.0 in
      λ i. record {
        old_root = old_root i;
        new_root = new_root i;
        chain_id = chain_id i;
        nonce = nonce i;
      }

  pub length-recovery_preimage :
      (m : RecoveryRequest) → IsValid m → length (recovery_preimage C m) ≡ 160
  unfolding recovery_preimage
  length-recovery_preimage m h =
      length-concat_words (recovery_words C m) (recovery_words-AreWords m h)

  abbrev pub recovery_message : Message C
  recovery_message = record {
    Body = RecoveryRequest;
    IsValid = IsValid;
    chain_id = λ m. m.chain_id;
    signing_hash = recovery_signing_hash C;
    preimage = recovery_preimage C;
    width = 160;
    chain_id-IsU64 = λ m h. h.chain_id;
    length-preimage = length-recovery_preimage;
    signing_hash_lem = recovery_signing_hash_lem C;
    preimage_inj = recovery_preimage_inj;
  }

  -- Two valid requests with one signing hash, each for its contract, are the same request for the
  -- same contract, or Keccak collides on the framed, the domain or the struct preimages.
  pub recovery_signing_hash_inj :
      (m : RecoveryRequest) (c : Bytes) (m' : RecoveryRequest) (c' : Bytes)
      → IsValid m
      → IsValid m'
      → IsArray 20 c
      → IsArray 20 c'
      → recovery_signing_hash C m c ≡ recovery_signing_hash C m' c'
      → ((m ≡ m') × (c ≡ c'))
        ⊎ AnyCollides C (
            preimages C
              (domain_preimage C m.chain_id c)
              (recovery_preimage C m)
              (domain_preimage C m'.chain_id c')
              (recovery_preimage C m'))
  recovery_signing_hash_inj = signing_hash_inj C H recovery_message

  -- With a valid key and a contract address, signing a valid request does not panic, gives a `v` in
  -- 27..=30, and recovery from the signature gives the address of the guardian's key, whatever the
  -- builds of the signer and the verifier.
  pub recover_recovery_signer-sign_recovery_request :
      IsEcdsa C
      → (signer verifier : Build) (m : RecoveryRequest) (c guardian_private_key : Bytes)
        {k : C.SigningKey}
      → IsValid m
      → IsArray 20 c
      → C.signing_key guardian_private_key ≡ some k
      → (sig : IntentSignature) × (sign_recovery_request C signer m c guardian_private_key
          ≡ some sig)
        × (27 ≤ sig.v)
        × (sig.v ≤ 30)
        × (recover_recovery_signer C verifier m c sig ≡ some (eth_address C (C.verifying_key k)))
  unfolding sign_recovery_request recover_recovery_signer
  recover_recovery_signer-sign_recovery_request L signer verifier m c guardian_private_key {k} h hc
        e =
      let (hash, sig, hashed, signed, low, high, back) =
        sign-recover C H recovery_message L signer verifier m c guardian_private_key {k = k} h hc
          e in
      (sig, rw (hashed, signed), low, high, rw hashed back)
