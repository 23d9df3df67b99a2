-- ===== src/Signing.antt =====
-- Signing a hash and recovering the signer, as src/intents/mod.rs, src/sessions/mod.rs and
-- src/recovery/mod.rs repeat it for each kind of message.
pub mod Laws
pub mod Message
pub mod Typed
use huntkey.Prelude.{ℕ, ◌++◌, Option, none, some, ◌>>=◌, take, drop, Build, add_word, sub_word}
use huntkey.Prelude.Bytes.{Bytes, zeros, copy_at}
use huntkey.Crypto.{Crypto}
use huntkey.Core.Keys.{eth_address}

pub record IntentSignature : Type 0 where
  pub v : ℕ
  pub r : Bytes
  pub s : Bytes

module _ (C : Crypto) (build : Build) where
  -- From `SigningKey::from_bytes` to the split of the signature's 64 bytes into `r` and `s`.
  unfoldable pub sign_hash : Bytes → Bytes → Option IntentSignature
  sign_hash private_key hash = do
    signing_key ← C.signing_key private_key
    (sig, recid) ← C.sign_prehash_recoverable signing_key hash
    let bytes = C.signature_bytes sig
    v ← add_word build 8 (C.recovery_byte recid) 27
    some (record { v = v; r = take 32 bytes; s = drop 32 bytes })

  -- From the assembly of the 64 bytes to the address of the recovered key.
  unfoldable pub recover_hash : Bytes → ℕ → Bytes → Bytes → Option Bytes
  recover_hash hash v r s = do
    let sig_bytes = copy_at 32 s (copy_at 0 r (zeros 64))
    signature ← C.signature sig_bytes
    id ← sub_word build 8 v 27
    recid ← C.recovery_id id
    recovered ← C.recover_from_prehash hash signature recid
    some (eth_address C recovered)
