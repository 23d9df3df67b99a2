-- ===== src/Core/Hash/Binding.antt =====
-- What a typed data hash commits to: two equal hashes have equal preimages, or show a collision of
-- Keccak between two named preimages.
use huntkey.Prelude.{
  ℕ, suc, ◌≡◌, ◌≢◌, refl, sym, ap, ◌∙◌, some, List, [], ◌∷◌, ◌++◌, ◌⊎◌, inl, inr, append_inj, IsU64,
  length,
}
use huntkey.Prelude.Bytes.{Bytes, Bytes-discrete, IsArray}
use huntkey.Prelude.Decimal.{codes}
use huntkey.Crypto.{Crypto, IsHash}
use huntkey.Core.Words.Laws.{
  address_word, u64_word, address_to_word_lem, u64_to_word_lem, address_word-IsWord,
  u64_word-IsWord, address_word_inj, u64_word_inj,
}
use huntkey.Core.Words.Buffer.{◌⊳◌, concat_words, extend_all_lem, concat_words_inj}
use huntkey.Core.Hash.{domain_type_str, keccak256, domain_steps, domain_separator, typed_data_hash}

module _ (C : Crypto) where
  -- Two different inputs of Keccak with one hash.
  abbrev pub Collides : Bytes → Bytes → Type 0
  Collides a b = (a ≢ b) × (keccak256 C a ≡ keccak256 C b)

  -- One of the listed pairs collides.
  abbrev pub AnyCollides : List (Bytes × Bytes) → Type 0
  AnyCollides [] = ⊥
  AnyCollides ((a, b) ∷ pairs) = Collides a b ⊎ AnyCollides pairs

  keccak256_inj : (a b : Bytes) → keccak256 C a ≡ keccak256 C b → (a ≡ b) ⊎ Collides a b
  keccak256_inj a b e = elim (Bytes-discrete a b) [ yes p ↦ inl p | no p ↦ inr (p, e) ]

  abbrev pub domain_words : ℕ → Bytes → List Bytes
  domain_words chain_id verifying_contract =
      keccak256 C (codes domain_type_str)
      ∷ keccak256 C (codes "HuntKey")
      ∷ keccak256 C (codes "1")
      ∷ u64_word chain_id
      ∷ address_word verifying_contract
      ∷ []

  -- The bytes that the domain separator is the hash of.
  unfoldable pub domain_preimage : ℕ → Bytes → Bytes
  domain_preimage chain_id verifying_contract =
      concat_words (domain_words chain_id verifying_contract)

  pub domain_separator_lem :
      (chain_id : ℕ) (verifying_contract : Bytes)
      → IsArray 20 verifying_contract
      → domain_separator C chain_id verifying_contract
        ≡ some (keccak256 C (domain_preimage chain_id verifying_contract))
  unfolding domain_separator domain_preimage
  domain_separator_lem chain_id c h = rw (
      extend_all_lem (domain_steps C chain_id c) (domain_words chain_id c)
        (refl ⊳ refl ⊳ refl ⊳ u64_to_word_lem chain_id ⊳ address_to_word_lem c h ⊳ tt))

  -- The bytes that a typed data hash is the hash of, from the preimages of its two parts.
  pub frame : Bytes → Bytes → Bytes
  frame d p = 0x19 ∷ 0x01 ∷ (keccak256 C d ++ keccak256 C p)

  abbrev pub preimages : Bytes → Bytes → Bytes → Bytes → List (Bytes × Bytes)
  preimages d p d' p' = (frame d p, frame d' p') ∷ (d, d') ∷ (p, p') ∷ []

module _ (C : Crypto) (H : IsHash C) where
  pub length-keccak256 : (m : Bytes) → IsArray 32 (keccak256 C m)
  unfolding keccak256
  length-keccak256 m = H.length-keccak m

  frame_inj :
      (d p d' p' : Bytes)
      → frame C d p ≡ frame C d' p'
      → (keccak256 C d ≡ keccak256 C d') × (keccak256 C p ≡ keccak256 C p')
  unfolding frame
  frame_inj d p d' p' e =
      let same : ◌≡◌ {A = ℕ} (suc (suc (length (keccak256 C d))))
          (suc (suc (length (keccak256 C d')))) =
        ap (λ (n : ℕ). suc (suc n)) (length-keccak256 d ∙ sym (length-keccak256 d')) in
      let (ds, ps) =
        append_inj (0x19 ∷ 0x01 ∷ keccak256 C d) (0x19 ∷ 0x01 ∷ keccak256 C d') (keccak256 C p)
          (keccak256 C p') same e in
      (cc ds, ps)

  -- Equal typed data hashes come from equal preimages, or one of three named pairs collides.
  pub typed_data_hash_inj :
      (d p d' p' : Bytes)
      → typed_data_hash C (keccak256 C d) (keccak256 C p)
        ≡ typed_data_hash C (keccak256 C d') (keccak256 C p')
      → ((d ≡ d') × (p ≡ p')) ⊎ AnyCollides C (preimages C d p d' p')
  unfolding typed_data_hash frame
  typed_data_hash_inj d p d' p' e = elim (keccak256_inj C (frame C d p) (frame C d' p') e) [
    | inr c ↦ inr (inl c)
    | inl same ↦ parts (frame_inj d p d' p' same)
  ]
    where
      parts :
          (keccak256 C d ≡ keccak256 C d') × (keccak256 C p ≡ keccak256 C p')
          → ((d ≡ d') × (p ≡ p')) ⊎ AnyCollides C (preimages C d p d' p')
      parts (ds, ps) = elim (keccak256_inj C d d' ds) [
        | inr c ↦ inr (inr (inl c))
        | inl dd ↦ elim (keccak256_inj C p p' ps) [
          | inr c ↦ inr (inr (inr (inl c)))
          | inl pp ↦ inl (dd, pp)
        ]
      ]

  -- A domain is determined by its preimage.
  pub domain_preimage_inj :
      (n : ℕ) (c : Bytes) (n' : ℕ) (c' : Bytes)
      → IsU64 n
      → IsU64 n'
      → IsArray 20 c
      → IsArray 20 c'
      → domain_preimage C n c ≡ domain_preimage C n' c'
      → (n ≡ n') × (c ≡ c')
  unfolding domain_preimage
  domain_preimage_inj n c n' c' hn hn' hc hc' e =
      let k = length-keccak256 in
      let words =
        concat_words_inj (domain_words C n c) (domain_words C n' c')
          (k _ ⊳ k _ ⊳ k _ ⊳ u64_word-IsWord n ⊳ address_word-IsWord c hc ⊳ tt)
          (k _ ⊳ k _ ⊳ k _ ⊳ u64_word-IsWord n' ⊳ address_word-IsWord c' hc' ⊳ tt) refl e in
      (u64_word_inj hn hn' words.1.1.1.0, address_word_inj c c' words.1.1.1.1.0)
