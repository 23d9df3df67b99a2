-- ===== src/Sessions/Laws.antt =====
-- What a session certificate's hash commits to, and that the action key is recovered
-- (src/sessions/mod.rs).
use huntkey.Prelude.{Build, IsU128, IsU64, List, [], length, refl, some, ◌∷◌, ◌≡◌, ◌≤◌, ◌⊎◌}
use huntkey.Prelude.Bytes.{Bytes, IsArray}
use huntkey.Prelude.Decimal.{codes}
use huntkey.Crypto.{Crypto, IsHash, IsEcdsa}
use huntkey.Core.Words.Laws.{
  address_word, u64_word, address_to_word_lem, u64_to_word_lem, address_word-IsWord,
  u64_word-IsWord, address_word_inj, u64_word_inj, selector_word, right_pad_32_selector,
  selector_word-IsWord, selector_word_inj, u128_word, u128_to_word_lem, u128_word-IsWord,
  u128_word_inj,
}
use huntkey.Core.Words.Buffer.{
  ◌⊳◌, concat_words, Yields, AreWords, extend_all_lem, concat_words_inj, length-concat_words,
}
use huntkey.Core.Hash.{keccak256, typed_data_hash}
use huntkey.Core.Hash.Binding.{
  AnyCollides, preimages, domain_preimage, domain_separator_lem, length-keccak256,
}
use huntkey.Core.Keys.{eth_address}
use huntkey.Signing.Message.{Message, signing_hash_inj, sign-recover}
use huntkey.Sessions.{
  session_type_str, SessionCertificate, session_steps, session_struct_hash, session_signing_hash,
  sign_session_cert, recover_session_signer, SignedSession,
}

-- The ranges that the Rust types give the fields.
pub record IsValid (m : SessionCertificate) : Type 0 where
  pub session : IsArray 20 m.session
  pub parent : IsArray 20 m.parent
  pub scope : IsArray 4 m.scope
  pub target : IsArray 20 m.target
  pub max_value : IsU128 m.max_value
  pub expiration : IsU64 m.expiration
  pub chain_id : IsU64 m.chain_id

module _ (C : Crypto) where
  abbrev pub session_words : SessionCertificate → List Bytes
  session_words m =
      keccak256 C (codes session_type_str)
      ∷ address_word m.session
      ∷ address_word m.parent
      ∷ selector_word m.scope
      ∷ address_word m.target
      ∷ u128_word m.max_value
      ∷ u64_word m.expiration
      ∷ u64_word m.chain_id
      ∷ []

  -- The bytes that the struct hash is the hash of.
  unfoldable pub session_preimage : SessionCertificate → Bytes
  session_preimage m = concat_words (session_words m)

  session_steps-Yields :
      (m : SessionCertificate) → IsValid m → Yields (session_steps C m) (session_words m)
  session_steps-Yields m h =
      refl
      ⊳ address_to_word_lem m.session h.session
      ⊳ address_to_word_lem m.parent h.parent
      ⊳ right_pad_32_selector m.scope h.scope
      ⊳ address_to_word_lem m.target h.target
      ⊳ u128_to_word_lem m.max_value
      ⊳ u64_to_word_lem m.expiration
      ⊳ u64_to_word_lem m.chain_id
      ⊳ tt

  -- A valid message is hashed with no panic.
  session_struct_hash_lem :
      (m : SessionCertificate)
      → IsValid m
      → session_struct_hash C m ≡ some (keccak256 C (session_preimage m))
  unfolding session_struct_hash session_preimage
  session_struct_hash_lem m h =
      rw (extend_all_lem (session_steps C m) (session_words m) (session_steps-Yields m h))

  pub session_signing_hash_lem :
      (m : SessionCertificate) (c : Bytes)
      → IsValid m
      → IsArray 20 c
      → session_signing_hash C m c
        ≡ some (
            typed_data_hash C
              (keccak256 C (domain_preimage C m.chain_id c))
              (keccak256 C (session_preimage m)))
  unfolding session_signing_hash
  session_signing_hash_lem m c h hc =
      rw (domain_separator_lem C m.chain_id c hc, session_struct_hash_lem m h)

module _ (C : Crypto) (H : IsHash C) where
  session_words-AreWords : (m : SessionCertificate) → IsValid m → AreWords (session_words C m)
  session_words-AreWords m h =
      length-keccak256 C H _
      ⊳ address_word-IsWord m.session h.session
      ⊳ address_word-IsWord m.parent h.parent
      ⊳ selector_word-IsWord m.scope h.scope
      ⊳ address_word-IsWord m.target h.target
      ⊳ u128_word-IsWord m.max_value
      ⊳ u64_word-IsWord m.expiration
      ⊳ u64_word-IsWord m.chain_id
      ⊳ tt

  -- A message is determined by its preimage.
  pub session_preimage_inj :
      (m m' : SessionCertificate)
      → IsValid m
      → IsValid m'
      → session_preimage C m ≡ session_preimage C m'
      → m ≡ m'
  unfolding session_preimage
  session_preimage_inj m m' h h' e =
      let w =
        concat_words_inj (session_words C m) (session_words C m') (session_words-AreWords m h)
          (session_words-AreWords m' h') refl e in
      let session = address_word_inj m.session m'.session w.1.0 in
      let parent = address_word_inj m.parent m'.parent w.1.1.0 in
      let scope = selector_word_inj m.scope m'.scope h.scope h'.scope w.1.1.1.0 in
      let target = address_word_inj m.target m'.target w.1.1.1.1.0 in
      let max_value = u128_word_inj h.max_value h'.max_value w.1.1.1.1.1.0 in
      let expiration = u64_word_inj h.expiration h'.expiration w.1.1.1.1.1.1.0 in
      let chain_id = u64_word_inj h.chain_id h'.chain_id w.1.1.1.1.1.1.1.0 in
      λ i. record {
        session = session i;
        parent = parent i;
        scope = scope i;
        target = target i;
        max_value = max_value i;
        expiration = expiration i;
        chain_id = chain_id i;
      }

  pub length-session_preimage :
      (m : SessionCertificate) → IsValid m → length (session_preimage C m) ≡ 256
  unfolding session_preimage
  length-session_preimage m h = length-concat_words (session_words C m) (session_words-AreWords m h)

  abbrev pub session_message : Message C
  session_message = record {
    Body = SessionCertificate;
    IsValid = IsValid;
    chain_id = λ m. m.chain_id;
    signing_hash = session_signing_hash C;
    preimage = session_preimage C;
    width = 256;
    chain_id-IsU64 = λ m h. h.chain_id;
    length-preimage = length-session_preimage;
    signing_hash_lem = session_signing_hash_lem C;
    preimage_inj = session_preimage_inj;
  }

  -- Two valid certificates with one signing hash, each for its contract, are the same certificate
  -- for the same contract, or Keccak collides on the framed, the domain or the struct preimages.
  pub session_signing_hash_inj :
      (m : SessionCertificate) (c : Bytes) (m' : SessionCertificate) (c' : Bytes)
      → IsValid m
      → IsValid m'
      → IsArray 20 c
      → IsArray 20 c'
      → session_signing_hash C m c ≡ session_signing_hash C m' c'
      → ((m ≡ m') × (c ≡ c'))
        ⊎ AnyCollides C (
            preimages C
              (domain_preimage C m.chain_id c)
              (session_preimage C m)
              (domain_preimage C m'.chain_id c')
              (session_preimage C m'))
  session_signing_hash_inj = signing_hash_inj C H session_message

  -- With a valid key and a contract address, signing a valid certificate does not panic, gives a
  -- `v` in 27..=30, and recovery from the signature gives the address of the action key, whatever
  -- the builds of the signer and the verifier.
  pub recover_session_signer-sign_session_cert :
      IsEcdsa C
      → (signer verifier : Build) (m : SessionCertificate) (c action_privkey : Bytes)
        {k : C.SigningKey}
      → IsValid m
      → IsArray 20 c
      → C.signing_key action_privkey ≡ some k
      → (sig : SignedSession) × (sign_session_cert C signer m c action_privkey ≡ some sig)
        × (sig.certificate ≡ m)
        × (27 ≤ sig.v)
        × (sig.v ≤ 30)
        × (recover_session_signer C verifier m c sig.v sig.r sig.s
            ≡ some (eth_address C (C.verifying_key k)))
  unfolding sign_session_cert recover_session_signer
  recover_session_signer-sign_session_cert L signer verifier m c action_privkey {k} h hc e =
      let (hash, sig, hashed, signed, low, high, back) =
        sign-recover C H session_message L signer verifier m c action_privkey {k = k} h hc e in
      (
        record { certificate = m; v = sig.v; r = sig.r; s = sig.s },
        rw (hashed, signed),
        refl,
        low,
        high,
        rw hashed back,
      )
