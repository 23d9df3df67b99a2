-- ===== src/Intents/Intent/Preimage.antt =====
-- The bytes that an intent's hash is the hash of, and that they determine it (src/intents/mod.rs).
use huntkey.Prelude.{
  IsU128, IsU64, IsU8, List, [], append_inj, length, refl, some, ℕ, ◌++◌, ◌∷◌, ◌≡◌,
}
use huntkey.Prelude.Bytes.{Bytes, IsArray, zeros, copy_at}
use huntkey.Prelude.Decimal.{codes}
use huntkey.Crypto.{Crypto, IsHash}
use huntkey.Core.Words.Laws.{
  address_word, u64_word, address_to_word_lem, u64_to_word_lem, address_word-IsWord,
  u64_word-IsWord, address_word_inj, u64_word_inj, selector_word, right_pad_32_selector,
  selector_word-IsWord, selector_word_inj, u128_word, u128_to_word_lem, u128_word-IsWord,
  u128_word_inj, IsWord,
}
use huntkey.Core.Words.Buffer.{
  ◌⊳◌, concat_words, Yields, AreWords, extend_all_lem, concat_words_inj, length-concat_words,
}
use huntkey.Core.Hash.{keccak256, typed_data_hash}
use huntkey.Core.Hash.Binding.{domain_preimage, domain_separator_lem, length-keccak256}
use huntkey.Intents.Intent.{
  intent_type_str, SovereignIntent, intent_steps, intent_struct_hash, intent_signing_hash,
  paymaster_mode_word,
}

-- The ranges that the Rust types give the fields.
pub record IsValid (m : SovereignIntent) : Type 0 where
  pub target_contract : IsArray 20 m.target_contract
  pub function_sig : IsArray 4 m.function_sig
  pub recipient : IsArray 20 m.recipient
  pub asset_address : IsArray 20 m.asset_address
  pub call_data_hash : IsArray 32 m.call_data_hash
  pub max_value : IsU128 m.max_value
  pub expiration : IsU64 m.expiration
  pub chain_id : IsU64 m.chain_id
  pub nonce : IsU64 m.nonce
  pub session_epoch : IsU64 m.session_epoch
  pub gas_limit : IsU64 m.gas_limit
  pub max_fee_per_gas : IsU128 m.max_fee_per_gas
  pub max_priority_fee_per_gas : IsU128 m.max_priority_fee_per_gas
  pub required_claim : IsArray 32 m.required_claim
  pub claim_proof_hash : IsArray 32 m.claim_proof_hash
  pub paymaster_mode : IsU8 m.paymaster_mode
  pub paymaster : IsArray 20 m.paymaster

abbrev pub mode_word : ℕ → Bytes
mode_word mode = zeros 31 ++ mode ∷ []

paymaster_mode_word_lem : (mode : ℕ) → some (paymaster_mode_word mode) ≡ some (mode_word mode)
unfolding paymaster_mode_word copy_at
paymaster_mode_word_lem mode = refl

mode_word-IsWord : (mode : ℕ) → IsWord (mode_word mode)
mode_word-IsWord mode = refl

mode_word_inj : (a b : ℕ) → mode_word a ≡ mode_word b → a ≡ b
mode_word_inj a b e = cc (append_inj (zeros 31) (zeros 31) (a ∷ []) (b ∷ []) refl e).1

module _ (C : Crypto) where
  abbrev pub intent_words : SovereignIntent → List Bytes
  intent_words m =
      keccak256 C (codes intent_type_str)
      ∷ address_word m.target_contract
      ∷ selector_word m.function_sig
      ∷ address_word m.recipient
      ∷ address_word m.asset_address
      ∷ m.call_data_hash
      ∷ u128_word m.max_value
      ∷ u64_word m.expiration
      ∷ u64_word m.chain_id
      ∷ u64_word m.nonce
      ∷ u64_word m.session_epoch
      ∷ u64_word m.gas_limit
      ∷ u128_word m.max_fee_per_gas
      ∷ u128_word m.max_priority_fee_per_gas
      ∷ m.required_claim
      ∷ m.claim_proof_hash
      ∷ mode_word m.paymaster_mode
      ∷ address_word m.paymaster
      ∷ []

  -- The bytes that the struct hash is the hash of.
  unfoldable pub intent_preimage : SovereignIntent → Bytes
  intent_preimage m = concat_words (intent_words m)

  intent_steps-Yields :
      (m : SovereignIntent) → IsValid m → Yields (intent_steps C m) (intent_words m)
  intent_steps-Yields m h =
      refl
      ⊳ address_to_word_lem m.target_contract h.target_contract
      ⊳ right_pad_32_selector m.function_sig h.function_sig
      ⊳ address_to_word_lem m.recipient h.recipient
      ⊳ address_to_word_lem m.asset_address h.asset_address
      ⊳ refl
      ⊳ u128_to_word_lem m.max_value
      ⊳ u64_to_word_lem m.expiration
      ⊳ u64_to_word_lem m.chain_id
      ⊳ u64_to_word_lem m.nonce
      ⊳ u64_to_word_lem m.session_epoch
      ⊳ u64_to_word_lem m.gas_limit
      ⊳ u128_to_word_lem m.max_fee_per_gas
      ⊳ u128_to_word_lem m.max_priority_fee_per_gas
      ⊳ refl
      ⊳ refl
      ⊳ paymaster_mode_word_lem m.paymaster_mode
      ⊳ address_to_word_lem m.paymaster h.paymaster
      ⊳ tt

  -- A valid message is hashed with no panic.
  intent_struct_hash_lem :
      (m : SovereignIntent)
      → IsValid m
      → intent_struct_hash C m ≡ some (keccak256 C (intent_preimage m))
  unfolding intent_struct_hash intent_preimage
  intent_struct_hash_lem m h =
      rw (extend_all_lem (intent_steps C m) (intent_words m) (intent_steps-Yields m h))

  pub intent_signing_hash_lem :
      (m : SovereignIntent) (c : Bytes)
      → IsValid m
      → IsArray 20 c
      → intent_signing_hash C m c
        ≡ some (
            typed_data_hash C
              (keccak256 C (domain_preimage C m.chain_id c))
              (keccak256 C (intent_preimage m)))
  unfolding intent_signing_hash
  intent_signing_hash_lem m c h hc =
      rw (domain_separator_lem C m.chain_id c hc, intent_struct_hash_lem m h)

module _ (C : Crypto) (H : IsHash C) where
  intent_words-AreWords : (m : SovereignIntent) → IsValid m → AreWords (intent_words C m)
  intent_words-AreWords m h =
      length-keccak256 C H _
      ⊳ address_word-IsWord m.target_contract h.target_contract
      ⊳ selector_word-IsWord m.function_sig h.function_sig
      ⊳ address_word-IsWord m.recipient h.recipient
      ⊳ address_word-IsWord m.asset_address h.asset_address
      ⊳ h.call_data_hash
      ⊳ u128_word-IsWord m.max_value
      ⊳ u64_word-IsWord m.expiration
      ⊳ u64_word-IsWord m.chain_id
      ⊳ u64_word-IsWord m.nonce
      ⊳ u64_word-IsWord m.session_epoch
      ⊳ u64_word-IsWord m.gas_limit
      ⊳ u128_word-IsWord m.max_fee_per_gas
      ⊳ u128_word-IsWord m.max_priority_fee_per_gas
      ⊳ h.required_claim
      ⊳ h.claim_proof_hash
      ⊳ mode_word-IsWord m.paymaster_mode
      ⊳ address_word-IsWord m.paymaster h.paymaster
      ⊳ tt

  -- A message is determined by its preimage.
  pub intent_preimage_inj :
      (m m' : SovereignIntent)
      → IsValid m
      → IsValid m'
      → intent_preimage C m ≡ intent_preimage C m'
      → m ≡ m'
  unfolding intent_preimage
  intent_preimage_inj m m' h h' e =
      let w =
        concat_words_inj (intent_words C m) (intent_words C m') (intent_words-AreWords m h)
          (intent_words-AreWords m' h') refl e in
      let target_contract = address_word_inj m.target_contract m'.target_contract w.1.0 in
      let function_sig =
        selector_word_inj m.function_sig m'.function_sig h.function_sig h'.function_sig w.1.1.0 in
      let recipient = address_word_inj m.recipient m'.recipient w.1.1.1.0 in
      let asset_address = address_word_inj m.asset_address m'.asset_address w.1.1.1.1.0 in
      let call_data_hash = w.1.1.1.1.1.0 in
      let max_value = u128_word_inj h.max_value h'.max_value w.1.1.1.1.1.1.0 in
      let expiration = u64_word_inj h.expiration h'.expiration w.1.1.1.1.1.1.1.0 in
      let chain_id = u64_word_inj h.chain_id h'.chain_id w.1.1.1.1.1.1.1.1.0 in
      let nonce = u64_word_inj h.nonce h'.nonce w.1.1.1.1.1.1.1.1.1.0 in
      let session_epoch = u64_word_inj h.session_epoch h'.session_epoch w.1.1.1.1.1.1.1.1.1.1.0 in
      let gas_limit = u64_word_inj h.gas_limit h'.gas_limit w.1.1.1.1.1.1.1.1.1.1.1.0 in
      let max_fee_per_gas =
        u128_word_inj h.max_fee_per_gas h'.max_fee_per_gas w.1.1.1.1.1.1.1.1.1.1.1.1.0 in
      let max_priority_fee_per_gas =
        u128_word_inj h.max_priority_fee_per_gas h'.max_priority_fee_per_gas
          w.1.1.1.1.1.1.1.1.1.1.1.1.1.0 in
      let required_claim = w.1.1.1.1.1.1.1.1.1.1.1.1.1.1.0 in
      let claim_proof_hash = w.1.1.1.1.1.1.1.1.1.1.1.1.1.1.1.0 in
      let paymaster_mode =
        mode_word_inj m.paymaster_mode m'.paymaster_mode w.1.1.1.1.1.1.1.1.1.1.1.1.1.1.1.1.0 in
      let paymaster =
        address_word_inj m.paymaster m'.paymaster w.1.1.1.1.1.1.1.1.1.1.1.1.1.1.1.1.1.0 in
      λ i. record {
        target_contract = target_contract i;
        function_sig = function_sig i;
        recipient = recipient i;
        asset_address = asset_address i;
        call_data_hash = call_data_hash i;
        max_value = max_value i;
        expiration = expiration i;
        chain_id = chain_id i;
        nonce = nonce i;
        session_epoch = session_epoch i;
        gas_limit = gas_limit i;
        max_fee_per_gas = max_fee_per_gas i;
        max_priority_fee_per_gas = max_priority_fee_per_gas i;
        required_claim = required_claim i;
        claim_proof_hash = claim_proof_hash i;
        paymaster_mode = paymaster_mode i;
        paymaster = paymaster i;
      }

  pub length-intent_preimage :
      (m : SovereignIntent) → IsValid m → length (intent_preimage C m) ≡ 576
  unfolding intent_preimage
  length-intent_preimage m h = length-concat_words (intent_words C m) (intent_words-AreWords m h)
