-- ===== src/Crypto.antt =====
-- The interface of the third-party crates that the Rust code calls: tiny_keccak, k256, hkdf with
-- sha2, coins_bip32 and bip39. A call that the code unwraps with `expect` gives an `Option`.
pub mod Toy
use huntkey.Prelude.{ℕ, ◌≤◌, ◌<◌, ◌≡◌, Option, none, some, String, length}
use huntkey.Prelude.Bytes.{Bytes, IsArray}

pub record Crypto : Type 1 where
  -- `Keccak::v256`, with the bytes of its `update` calls
  pub keccak_v256 : Bytes → Bytes
  -- k256
  pub SigningKey : Type 0
  pub VerifyingKey : Type 0
  pub Signature : Type 0
  pub RecoveryId : Type 0
  -- `SigningKey::from_bytes` and `to_bytes`
  pub signing_key : Bytes → Option SigningKey
  pub key_bytes : SigningKey → Bytes
  pub verifying_key : SigningKey → VerifyingKey
  -- `to_encoded_point(false)` and `to_sec1_bytes`
  pub encoded_point : VerifyingKey → Bytes
  pub sec1_bytes : VerifyingKey → Bytes
  pub sign_prehash_recoverable : SigningKey → Bytes → Option (Signature × RecoveryId)
  -- `Signature::from_bytes` and `to_bytes`
  pub signature : Bytes → Option Signature
  pub signature_bytes : Signature → Bytes
  -- `RecoveryId::from_byte` and `to_byte`
  pub recovery_id : ℕ → Option RecoveryId
  pub recovery_byte : RecoveryId → ℕ
  pub recover_from_prehash : Bytes → Signature → RecoveryId → Option VerifyingKey
  -- `Hkdf::<Sha256>::new(salt, ikm)` and `expand(info, okm)` for an `okm` of the given length
  pub hkdf_sha256 : Bytes → Bytes → Bytes → ℕ → Option Bytes
  -- coins_bip32
  pub XPriv : Type 0
  pub root_from_seed : Bytes → Option XPriv
  pub derive_path : XPriv → String → Option XPriv
  pub xpriv_key : XPriv → SigningKey
  -- bip39; `generate` draws its entropy from the given source
  pub Mnemonic : Type 0
  pub generate : Bytes → ℕ → Option Mnemonic
  pub to_seed : Mnemonic → String → Bytes

-- A Keccak-256 hash has 32 bytes.
pub record IsHash (C : Crypto) : Type 0 where
  pub length-keccak : (m : Bytes) → IsArray 32 (C.keccak_v256 m)

-- What k256 documents of recoverable signatures: a key has 32 bytes and a signature 64, each is
-- read back from them, a recovery id is a byte of at most 3, and recovery from a signature gives
-- the signer's key.
pub record IsEcdsa (C : Crypto) : Type 0 where
  pub length-key_bytes : (k : C.SigningKey) → IsArray 32 (C.key_bytes k)
  pub length-signature_bytes : (s : C.Signature) → IsArray 64 (C.signature_bytes s)
  pub signature-signature_bytes : (s : C.Signature) → C.signature (C.signature_bytes s) ≡ some s
  pub recovery_byte-le : (r : C.RecoveryId) → C.recovery_byte r ≤ 3
  pub recovery_id-recovery_byte : (r : C.RecoveryId) → C.recovery_id (C.recovery_byte r) ≡ some r
  pub recovery_id_large : (b : ℕ) → 3 < b → C.recovery_id b ≡ none
  pub signing_key-key_bytes : (k : C.SigningKey) → C.signing_key (C.key_bytes k) ≡ some k
  -- signing a 32-byte hash does not fail
  pub signs :
      (k : C.SigningKey) (hash : Bytes)
      → IsArray 32 hash
      → (s : C.Signature) × (r : C.RecoveryId) × (C.sign_prehash_recoverable k hash ≡ some (s, r))
  pub recover-sign :
      (k : C.SigningKey) (hash : Bytes) (s : C.Signature) (r : C.RecoveryId)
      → C.sign_prehash_recoverable k hash ≡ some (s, r)
      → C.recover_from_prehash hash s r ≡ some (C.verifying_key k)
