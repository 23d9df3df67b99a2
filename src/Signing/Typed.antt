-- ===== src/Signing/Typed.antt =====
-- What signing and recovery of src/intents/mod.rs, src/sessions/mod.rs and src/recovery/mod.rs
-- return, for any key, hash and signature.
use huntkey.Prelude.{
  ℕ, ◌≡◌, ◌∙◌, ◌≤◌, ◌+◌, refl, sym, Option, none, some, ◌>>=◌, Build, add_word, sub_word,
  add_word_fits, drop, length-take, length-drop, arith,
}
use mathlib.Core.Path.{subst}
use mathlib.Core.Option.{none-ne-some, some-injective}
use huntkey.Prelude.Bytes.{Bytes, IsArray, zeros, copy_at}
use huntkey.Crypto.{Crypto, IsHash, IsEcdsa}
use huntkey.Core.Hash.{keccak256}
use huntkey.Core.Keys.{eth_address}
use huntkey.Signing.{IntentSignature, sign_hash, recover_hash}

bind_some {ℓ κ} :
    {A : Type ℓ} {B : Type κ} (o : Option A) (f : A → Option B) {b : B}
    → (o >>= f) ≡ some b
    → (a : A) × (o ≡ some a) × (f a ≡ some b)
bind_some none f h = absurd (none-ne-some _ h)
bind_some (some a) f h = (a, refl, h)

-- The Rust types of a signature's parts, and the range of `v`.
pub record IsSignature (sig : IntentSignature) : Type 0 where
  v_lower : 27 ≤ sig.v
  v_upper : sig.v ≤ 30
  pub r : IsArray 32 sig.r
  pub s : IsArray 32 sig.s

-- Whatever the key and the hash, a signature that signing returns has an `r` and an `s` of 32 bytes
-- and a `v` in 27..=30; whatever the signature and the hash, an address that recovery returns has
-- 20 bytes.
pub sign_hash-IsSignature :
    (C : Crypto) (H : IsHash C) (L : IsEcdsa C) (build : Build) (private_key hash : Bytes)
    → ((sig : IntentSignature) → sign_hash C build private_key hash ≡ some sig → IsSignature sig)
      × ((v : ℕ) (r s address : Bytes)
          → recover_hash C build hash v r s ≡ some address
          → IsArray 20 address)
unfolding sign_hash recover_hash eth_address keccak256
sign_hash-IsSignature C H L build private_key hash = (signed, recovered)
  where
    signed :
        (sig : IntentSignature) → sign_hash C build private_key hash ≡ some sig → IsSignature sig
    signed sig h =
        let (key, _, h₁) = bind_some (C.signing_key private_key) _ h in
        let ((made, recid), _, h₂) = bind_some (C.sign_prehash_recoverable key hash) _ h₁ in
        let (v, added, h₃) = bind_some (add_word build 8 (C.recovery_byte recid) 27) _ h₂ in
        let value : C.recovery_byte recid + 27 ≡ v = some-injective _ _ (
          sym (
            add_word_fits build 8 (C.recovery_byte recid) 27
              (omega (arith, L.recovery_byte-le recid)))
          ∙ added) in
        subst IsSignature (some-injective _ _ h₃) (record {
          v_lower = omega arith;
          v_upper = omega (arith, L.recovery_byte-le recid);
          r = omega (arith, length-take 32 (C.signature_bytes made), L.length-signature_bytes made);
          s = omega (arith, length-drop 32 (C.signature_bytes made), L.length-signature_bytes made);
        })

    recovered :
        (v : ℕ) (r s address : Bytes)
        → recover_hash C build hash v r s ≡ some address
        → IsArray 20 address
    recovered v r s address h =
        let (sig, _, h₁) = bind_some (C.signature (copy_at 32 s (copy_at 0 r (zeros 64)))) _ h in
        let (id, _, h₂) = bind_some (sub_word build 8 v 27) _ h₁ in
        let (recid, _, h₃) = bind_some (C.recovery_id id) _ h₂ in
        let (key, _, h₄) = bind_some (C.recover_from_prehash hash sig recid) _ h₃ in
        let hashed = C.keccak_v256 (drop 1 (C.encoded_point key)) in
        subst (IsArray 20) (some-injective _ _ h₄)
          (omega (arith, length-drop 12 hashed, H.length-keccak (drop 1 (C.encoded_point key))))
