-- ===== src/Signing/Laws.antt =====
-- Recovery from a fresh signature, and the signatures that recovery refuses.
use huntkey.Prelude.{
  ℕ, ◌+◌, ◌-◌, ◌^◌, ◌≤◌, ◌<◌, ◌≡◌, ◌∙◌, none, some, take, drop, Build, arith, ◌⊎◌, add_word_fits,
  sub_word_fits, length-drop, take-append-drop, length-take, IsU8,
}
use huntkey.Prelude.Bytes.{Bytes, IsArray, zeros, copy_at, copy_at-pair}
use huntkey.Crypto.{Crypto, IsEcdsa}
use huntkey.Core.Keys.{eth_address}
use huntkey.Signing.{IntentSignature, sign_hash, recover_hash}

-- The two copies put the halves of 64 bytes together again.
copy_at-halves :
    (bytes : Bytes)
    → IsArray 64 bytes
    → copy_at 32 (drop 32 bytes) (copy_at 0 (take 32 bytes) (zeros 64)) ≡ bytes
copy_at-halves bytes h =
    copy_at-pair 32 (take 32 bytes) (drop 32 bytes) (omega (arith, length-take 32 bytes))
      (omega (arith, length-drop 32 bytes))
    ∙ take-append-drop 32 bytes

signature_of : (C : Crypto) → C.Signature → C.RecoveryId → IntentSignature
signature_of C s r =
    let bytes = C.signature_bytes s in
    record { v = C.recovery_byte r + 27; r = take 32 bytes; s = drop 32 bytes }

module _ (C : Crypto) (L : IsEcdsa C) (private_key hash : Bytes) {k : C.SigningKey} where
  sign_hash_lem :
      (build : Build) (s : C.Signature) (r : C.RecoveryId)
      → C.signing_key private_key ≡ some k
      → C.sign_prehash_recoverable k hash ≡ some (s, r)
      → sign_hash C build private_key hash ≡ some (signature_of C s r)
  unfolding sign_hash signature_of
  sign_hash_lem build s r e signed =
      let small = L.recovery_byte-le r in
      rw (e, signed, add_word_fits build 8 (C.recovery_byte r) 27 (omega arith))

  recover_hash_lem :
      (build : Build) (s : C.Signature) (r : C.RecoveryId)
      → C.sign_prehash_recoverable k hash ≡ some (s, r)
      → let sig = signature_of C s r in
        recover_hash C build hash sig.v sig.r sig.s ≡ some (eth_address C (C.verifying_key k))
  unfolding recover_hash signature_of
  recover_hash_lem build s r signed =
      let v = C.recovery_byte r + 27 in
      let id : v - 27 ≡ C.recovery_byte r = omega arith in
      rw (
        copy_at-halves (C.signature_bytes s) (L.length-signature_bytes s),
        L.signature-signature_bytes s,
        sub_word_fits build 8 v 27 (omega arith),
        id,
        L.recovery_id-recovery_byte r,
        L.recover-sign k hash s r signed,
      )

module _ (C : Crypto) (L : IsEcdsa C) where
  -- A valid key signs any 32-byte hash, and recovery gives the key's address, in either build.
  pub recover_hash-sign_hash :
      (signer verifier : Build) (private_key hash : Bytes) {k : C.SigningKey}
      → C.signing_key private_key ≡ some k
      → IsArray 32 hash
      → (sig : IntentSignature) × (sign_hash C signer private_key hash ≡ some sig)
        × (27 ≤ sig.v)
        × (sig.v ≤ 30)
        × (recover_hash C verifier hash sig.v sig.r sig.s
            ≡ some (eth_address C (C.verifying_key k)))
  unfolding signature_of
  recover_hash-sign_hash signer verifier private_key hash {k} e h =
      let (s, r, signed) = L.signs k hash h in
      let small = L.recovery_byte-le r in
      (
        signature_of C s r,
        sign_hash_lem C L private_key hash signer s r e signed,
        omega arith,
        omega arith,
        recover_hash_lem C L private_key hash verifier s r signed,
      )

  -- A recovery byte outside 27..=30 is refused by a panic, in either build: without overflow
  -- checks `v - 27` wraps around to a byte that is no recovery id.
  pub recover_hash_panics :
      (build : Build) (hash : Bytes) (v : ℕ) (r s : Bytes)
      → IsU8 v
      → (v < 27) ⊎ (30 < v)
      → recover_hash C build hash v r s ≡ none
  unfolding recover_hash
  recover_hash_panics build hash v r s h bad =
      ground (arith, L.recovery_id_large (v - 27), L.recovery_id_large (v + 2 ^ 8 - 27))
