-- ===== src/Sessions.antt =====
-- src/sessions/mod.rs: ephemeral session keys and session certificates.
pub mod Laws
pub mod Derivation
use huntkey.Prelude.{ℕ, Option, some, String, List, [], ◌∷◌, ◌++◌, ◌>>=◌, Build}
use huntkey.Prelude.Bytes.{Bytes, to_be_bytes}
use huntkey.Prelude.Decimal.{codes}
use huntkey.Crypto.{Crypto}
use huntkey.Core.Words.{address_to_word, right_pad_32, u64_to_word, u128_to_word, extend_all}
use huntkey.Core.Hash.{keccak256, domain_separator, typed_data_hash}
use huntkey.Core.Keys.{eth_address}
use huntkey.Signing.{sign_hash, recover_hash}

abbrev pub session_type_str : String
session_type_str =
    "SessionCertificate(address session,address parent,bytes4 scope,address target,uint128 maxValue,uint64 expiration,uint64 chainId)"

pub record SessionKey : Type 0 where
  pub private_key : Bytes
  pub public_key : Bytes
  pub eth_address : Bytes

pub record SessionCertificate : Type 0 where
  pub session : Bytes
  pub parent : Bytes
  pub scope : Bytes
  pub target : Bytes
  pub max_value : ℕ
  pub expiration : ℕ
  pub chain_id : ℕ

pub record SignedSession : Type 0 where
  pub certificate : SessionCertificate
  pub v : ℕ
  pub r : Bytes
  pub s : Bytes

-- The HKDF info: the parent's public key, the nonce and the chain id.
unfoldable pub session_info : Bytes → ℕ → ℕ → Bytes
session_info parent_pubkey nonce chain_id =
    parent_pubkey ++ (to_be_bytes 8 nonce ++ to_be_bytes 8 chain_id)

module _ (C : Crypto) where
  unfoldable pub derive_session_key : Bytes → ℕ → ℕ → Option SessionKey
  derive_session_key action_privkey nonce chain_id = do
    parent_key ← C.signing_key action_privkey
    let parent_pubkey = C.sec1_bytes (C.verifying_key parent_key)
    let info = session_info parent_pubkey nonce chain_id
    okm ← C.hkdf_sha256 (codes "HuntKey-V1-Session-Key") action_privkey info 32
    signing_key ← C.signing_key okm
    let verifying_key = C.verifying_key signing_key
    some (record {
      private_key = C.key_bytes signing_key;
      public_key = C.sec1_bytes verifying_key;
      eth_address = eth_address C verifying_key;
    })

  -- What `session_struct_hash` appends to its buffer, in order.
  abbrev pub session_steps : SessionCertificate → List (Option Bytes)
  session_steps cert =
      some (keccak256 C (codes session_type_str))
      ∷ address_to_word cert.session
      ∷ address_to_word cert.parent
      ∷ right_pad_32 cert.scope
      ∷ address_to_word cert.target
      ∷ u128_to_word cert.max_value
      ∷ u64_to_word cert.expiration
      ∷ u64_to_word cert.chain_id
      ∷ []

  unfoldable pub session_struct_hash : SessionCertificate → Option Bytes
  session_struct_hash cert = do buf ← extend_all (session_steps cert); some (keccak256 C buf)

  unfoldable pub session_signing_hash : SessionCertificate → Bytes → Option Bytes
  session_signing_hash cert verifying_contract = do
    ds ← domain_separator C cert.chain_id verifying_contract
    sh ← session_struct_hash cert
    some (typed_data_hash C ds sh)

  unfoldable pub sign_session_cert :
      Build → SessionCertificate → Bytes → Bytes → Option SignedSession
  sign_session_cert build cert verifying_contract action_privkey = do
    hash ← session_signing_hash cert verifying_contract
    sig ← sign_hash C build action_privkey hash
    some (record { certificate = cert; v = sig.v; r = sig.r; s = sig.s })

  unfoldable pub recover_session_signer :
      Build → SessionCertificate → Bytes → ℕ → Bytes → Bytes → Option Bytes
  recover_session_signer build cert verifying_contract v r s = do
    hash ← session_signing_hash cert verifying_contract
    recover_hash C build hash v r s
