-- ===== src/Intents/Intent/Laws.antt =====
-- What an intent's hash commits to, and that its signer is recovered (src/intents/mod.rs).
use huntkey.Prelude.{Build, some, ◌≡◌, ◌≤◌, ◌⊎◌}
use huntkey.Prelude.Bytes.{Bytes, IsArray}
use huntkey.Crypto.{Crypto, IsHash, IsEcdsa}
use huntkey.Core.Hash.Binding.{AnyCollides, preimages, domain_preimage}
use huntkey.Core.Keys.{eth_address}
use huntkey.Signing.{IntentSignature}
use huntkey.Signing.Message.{Message, signing_hash_inj, sign-recover}
use huntkey.Intents.Intent.{SovereignIntent, intent_signing_hash, sign_intent, recover_signer}
use huntkey.Intents.Intent.Preimage.{
  IsValid, intent_preimage, intent_preimage_inj, length-intent_preimage, intent_signing_hash_lem,
}

module _ (C : Crypto) (H : IsHash C) where
  abbrev pub intent_message : Message C
  intent_message = record {
    Body = SovereignIntent;
    IsValid = IsValid;
    chain_id = λ m. m.chain_id;
    signing_hash = intent_signing_hash C;
    preimage = intent_preimage C;
    width = 576;
    chain_id-IsU64 = λ m h. h.chain_id;
    length-preimage = length-intent_preimage C H;
    signing_hash_lem = intent_signing_hash_lem C;
    preimage_inj = intent_preimage_inj C H;
  }

  -- Two valid intents with one signing hash, each for its contract, are the same intent for the
  -- same contract, or Keccak collides on the framed, the domain or the struct preimages.
  intent_signing_hash_inj :
      (m : SovereignIntent) (c : Bytes) (m' : SovereignIntent) (c' : Bytes)
      → IsValid m
      → IsValid m'
      → IsArray 20 c
      → IsArray 20 c'
      → intent_signing_hash C m c ≡ intent_signing_hash C m' c'
      → ((m ≡ m') × (c ≡ c'))
        ⊎ AnyCollides C (
            preimages C
              (domain_preimage C m.chain_id c)
              (intent_preimage C m)
              (domain_preimage C m'.chain_id c')
              (intent_preimage C m'))
  intent_signing_hash_inj = signing_hash_inj C H intent_message

  -- With a valid key and a contract address, signing a valid intent does not panic, gives a `v` in
  -- 27..=30, and recovery from the signature gives the address of the key, whatever the builds of
  -- the signer and the verifier.
  pub recover_signer-sign_intent :
      IsEcdsa C
      → (signer verifier : Build) (m : SovereignIntent) (c private_key : Bytes) {k : C.SigningKey}
      → IsValid m
      → IsArray 20 c
      → C.signing_key private_key ≡ some k
      → (sig : IntentSignature) × (sign_intent C signer m c private_key ≡ some sig)
        × (27 ≤ sig.v)
        × (sig.v ≤ 30)
        × (recover_signer C verifier m c sig ≡ some (eth_address C (C.verifying_key k)))
  unfolding sign_intent recover_signer
  recover_signer-sign_intent L signer verifier m c private_key {k} h hc e =
      let (hash, sig, hashed, signed, low, high, back) =
        sign-recover C H intent_message L signer verifier m c private_key {k = k} h hc e in
      (sig, rw (hashed, signed), low, high, rw hashed back)
