-- ===== src/Eip712/Conformance.antt =====
-- The signing hashes of src/intents/mod.rs, src/sessions/mod.rs and src/recovery/mod.rs, with the
-- domain of src/core/mod.rs, are EIP-712 digests.
use huntkey.Prelude.{ℕ, ◌≡◌, ◌∙◌, refl, some, IsU64}
use huntkey.Prelude.Bytes.{Bytes}
use huntkey.Prelude.Decimal.{to_decimal}
use huntkey.Crypto.{Crypto, IsHash}
use huntkey.Core.Hash.{keccak256, typed_data_hash}
use huntkey.Core.Hash.Binding.{domain_preimage, domain_words}
use huntkey.Core.Words.Buffer.{◌⊳◌}
use huntkey.Intents.Intent.{SovereignIntent}
use huntkey.Intents.Intent.Preimage as Intent
use huntkey.Intents.Intent.Preimage.{intent_preimage, intent_words}
use huntkey.Intents.Delegation.{DelegationCertificate}
use huntkey.Intents.Delegation.Laws as Delegation
use huntkey.Intents.Delegation.Laws.{delegation_preimage, delegation_words}
use huntkey.Sessions.{SessionCertificate}
use huntkey.Sessions.Laws as Session
use huntkey.Sessions.Laws.{session_preimage, session_words}
use huntkey.Recovery.{RecoveryRequest}
use huntkey.Recovery.Laws as Recovery
use huntkey.Recovery.Laws.{recovery_preimage, recovery_words}
use huntkey.Separation.{
  intent, delegation, session, recovery, Request, IsValidRequest, request_hash, request_preimage,
  kind_message,
}
use huntkey.Eip712.{Struct, digest}
use huntkey.Eip712.Structs.{
  domain_struct, intent_struct, delegation_struct, session_struct, recovery_struct,
}
use huntkey.Eip712.Encoding.{
  u64_word-uint, u128_word-uint, mode_word-uint, bytes32, struct_preimage,
  concat_words-struct_preimage,
}

module _ (C : Crypto) where
  domain_preimage-domain_struct :
      (chain_id : ℕ) (c : Bytes)
      → IsU64 chain_id
      → domain_preimage C chain_id c ≡ struct_preimage (keccak256 C) (domain_struct chain_id c)
  unfolding domain_preimage to_decimal
  domain_preimage-domain_struct n c h =
      concat_words-struct_preimage (keccak256 C) (domain_words C n c) (domain_struct n c)
        (refl ⊳ refl ⊳ refl ⊳ u64_word-uint n h ⊳ refl ⊳ tt)

  intent_preimage-intent_struct :
      (m : SovereignIntent)
      → Intent.IsValid m
      → intent_preimage C m ≡ struct_preimage (keccak256 C) (intent_struct m)
  unfolding intent_preimage to_decimal
  intent_preimage-intent_struct m h =
      concat_words-struct_preimage (keccak256 C) (intent_words C m) (intent_struct m) (
        refl
        ⊳ refl
        ⊳ refl
        ⊳ refl
        ⊳ refl
        ⊳ bytes32 m.call_data_hash
        ⊳ u128_word-uint m.max_value h.max_value
        ⊳ u64_word-uint m.expiration h.expiration
        ⊳ u64_word-uint m.chain_id h.chain_id
        ⊳ u64_word-uint m.nonce h.nonce
        ⊳ u64_word-uint m.session_epoch h.session_epoch
        ⊳ u64_word-uint m.gas_limit h.gas_limit
        ⊳ u128_word-uint m.max_fee_per_gas h.max_fee_per_gas
        ⊳ u128_word-uint m.max_priority_fee_per_gas h.max_priority_fee_per_gas
        ⊳ bytes32 m.required_claim
        ⊳ bytes32 m.claim_proof_hash
        ⊳ mode_word-uint m.paymaster_mode h.paymaster_mode
        ⊳ refl
        ⊳ tt)

  delegation_preimage-delegation_struct :
      (m : DelegationCertificate)
      → Delegation.IsValid m
      → delegation_preimage C m ≡ struct_preimage (keccak256 C) (delegation_struct m)
  unfolding delegation_preimage to_decimal
  delegation_preimage-delegation_struct m h =
      concat_words-struct_preimage (keccak256 C) (delegation_words C m) (delegation_struct m) (
        refl
        ⊳ refl
        ⊳ refl
        ⊳ u128_word-uint m.max_value h.max_value
        ⊳ u64_word-uint m.expiration h.expiration
        ⊳ u64_word-uint m.chain_id h.chain_id
        ⊳ u64_word-uint m.nonce h.nonce
        ⊳ tt)

  session_preimage-session_struct :
      (m : SessionCertificate)
      → Session.IsValid m
      → session_preimage C m ≡ struct_preimage (keccak256 C) (session_struct m)
  unfolding session_preimage to_decimal
  session_preimage-session_struct m h =
      concat_words-struct_preimage (keccak256 C) (session_words C m) (session_struct m) (
        refl
        ⊳ refl
        ⊳ refl
        ⊳ refl
        ⊳ refl
        ⊳ u128_word-uint m.max_value h.max_value
        ⊳ u64_word-uint m.expiration h.expiration
        ⊳ u64_word-uint m.chain_id h.chain_id
        ⊳ tt)

  recovery_preimage-recovery_struct :
      (m : RecoveryRequest)
      → Recovery.IsValid m
      → recovery_preimage C m ≡ struct_preimage (keccak256 C) (recovery_struct m)
  unfolding recovery_preimage to_decimal
  recovery_preimage-recovery_struct m h =
      concat_words-struct_preimage (keccak256 C) (recovery_words C m) (recovery_struct m) (
        refl
        ⊳ refl
        ⊳ refl
        ⊳ u64_word-uint m.chain_id h.chain_id
        ⊳ u64_word-uint m.nonce h.nonce
        ⊳ tt)

module _ (C : Crypto) (H : IsHash C) where
  -- The domain and the message of a request, as EIP-712 structs.
  abbrev pub request_chain : Request C H → ℕ
  request_chain (k, m, c) = (kind_message C H k).chain_id m

  abbrev pub request_struct : Request C H → Struct
  request_struct (intent, m, c) = intent_struct m
  request_struct (delegation, m, c) = delegation_struct m
  request_struct (session, m, c) = session_struct m
  request_struct (recovery, m, c) = recovery_struct m

  request_preimage-request_struct :
      (a : Request C H)
      → IsValidRequest C H a
      → request_preimage C H a ≡ struct_preimage (keccak256 C) (request_struct a)
  request_preimage-request_struct (intent, m, c) (h, hc) = intent_preimage-intent_struct C m h
  request_preimage-request_struct (delegation, m, c) (h, hc) =
      delegation_preimage-delegation_struct C m h
  request_preimage-request_struct (session, m, c) (h, hc) = session_preimage-session_struct C m h
  request_preimage-request_struct (recovery, m, c) (h, hc) = recovery_preimage-recovery_struct C m h

  -- The signing hash of a valid message of any of the four kinds, for a contract address, is the
  -- digest of EIP-712: of the domain "HuntKey", version "1", with the message's chain and the
  -- contract, and of the struct of that kind, whose type text is generated from its members' names
  -- and types.
  pub request_hash-digest :
      (a : Request C H)
      → IsValidRequest C H a
      → request_hash C H a
        ≡ some (digest (keccak256 C) (domain_struct (request_chain a) a.2) (request_struct a))
  unfolding typed_data_hash
  request_hash-digest (k, m, c) (h, hc) =
      (kind_message C H k).signing_hash_lem m c h hc
      ∙ rw
          (
            domain_preimage-domain_struct C ((kind_message C H k).chain_id m) c
                ((kind_message C H k).chain_id-IsU64 m h),
            request_preimage-request_struct (k, m, c) (h, hc),
          )
          refl
