-- ===== src/Intents/Delegation.antt =====
-- `DelegationCertificate` of src/intents/mod.rs: a root identity's grant to an action key.
pub mod Laws
use huntkey.Prelude.{ℕ, Option, some, String, List, [], ◌∷◌, ◌>>=◌, Build}
use huntkey.Prelude.Bytes.{Bytes}
use huntkey.Prelude.Decimal.{codes}
use huntkey.Crypto.{Crypto}
use huntkey.Core.Words.{address_to_word, right_pad_32, u64_to_word, u128_to_word, extend_all}
use huntkey.Core.Hash.{keccak256, domain_separator, typed_data_hash}
use huntkey.Signing.{sign_hash, recover_hash}

abbrev pub delegation_type_str : String
delegation_type_str =
    "DelegationCertificate(address delegate,bytes4 scope,uint128 maxValue,uint64 expiration,uint64 chainId,uint64 nonce)"

pub record DelegationCertificate : Type 0 where
  pub delegate : Bytes
  pub scope : Bytes
  pub max_value : ℕ
  pub expiration : ℕ
  pub chain_id : ℕ
  pub nonce : ℕ

pub record SignedDelegation : Type 0 where
  pub certificate : DelegationCertificate
  pub v : ℕ
  pub r : Bytes
  pub s : Bytes

module _ (C : Crypto) where
  -- What `delegation_struct_hash` appends to its buffer, in order.
  abbrev pub delegation_steps : DelegationCertificate → List (Option Bytes)
  delegation_steps cert =
      some (keccak256 C (codes delegation_type_str))
      ∷ address_to_word cert.delegate
      ∷ right_pad_32 cert.scope
      ∷ u128_to_word cert.max_value
      ∷ u64_to_word cert.expiration
      ∷ u64_to_word cert.chain_id
      ∷ u64_to_word cert.nonce
      ∷ []

  unfoldable pub delegation_struct_hash : DelegationCertificate → Option Bytes
  delegation_struct_hash cert = do buf ← extend_all (delegation_steps cert); some (keccak256 C buf)

  unfoldable pub delegation_signing_hash : DelegationCertificate → Bytes → Option Bytes
  delegation_signing_hash cert verifying_contract = do
    ds ← domain_separator C cert.chain_id verifying_contract
    sh ← delegation_struct_hash cert
    some (typed_data_hash C ds sh)

  unfoldable pub sign_delegation :
      Build → DelegationCertificate → Bytes → Bytes → Option SignedDelegation
  sign_delegation build cert verifying_contract root_private_key = do
    hash ← delegation_signing_hash cert verifying_contract
    sig ← sign_hash C build root_private_key hash
    some (record { certificate = cert; v = sig.v; r = sig.r; s = sig.s })

  unfoldable pub recover_delegator :
      Build → DelegationCertificate → Bytes → ℕ → Bytes → Bytes → Option Bytes
  recover_delegator build cert verifying_contract v r s = do
    hash ← delegation_signing_hash cert verifying_contract
    recover_hash C build hash v r s
