-- ===== src/Signing/Message.antt =====
-- The interface of a kind of signed message, which intents, delegations, sessions and recovery
-- requests fill, and what holds of every such kind.
use huntkey.Prelude.{
  ℕ, ◌≤◌, ◌≡◌, ◌≢◌, sym, ap, ◌∙◌, Option, some, ◌⊎◌, inl, inr, Build, IsU64, length,
}
use mathlib.Core.Option.{some-injective}
use huntkey.Prelude.Bytes.{Bytes, IsArray}
use huntkey.Crypto.{Crypto, IsHash, IsEcdsa}
use huntkey.Core.Hash.{keccak256, typed_data_hash}
use huntkey.Core.Hash.Binding.{
  AnyCollides, preimages, domain_preimage, length-keccak256, typed_data_hash_inj,
  domain_preimage_inj,
}
use huntkey.Core.Keys.{eth_address}
use huntkey.Signing.{IntentSignature, sign_hash, recover_hash}
use huntkey.Signing.Laws.{recover_hash-sign_hash}

pub record Message (C : Crypto) : Type 1 where
  pub Body : Type 0
  pub IsValid : Body → Type 0
  pub chain_id : Body → ℕ
  pub signing_hash : Body → Bytes → Option Bytes
  -- the bytes that the struct hash is the hash of, and their number
  pub preimage : Body → Bytes
  pub width : ℕ
  pub chain_id-IsU64 : (m : Body) → IsValid m → IsU64 (chain_id m)
  pub length-preimage : (m : Body) → IsValid m → length (preimage m) ≡ width
  pub signing_hash_lem :
      (m : Body) (c : Bytes)
      → IsValid m
      → IsArray 20 c
      → signing_hash m c
        ≡ some (
            typed_data_hash C
              (keccak256 C (domain_preimage C (chain_id m) c))
              (keccak256 C (preimage m)))
  pub preimage_inj : (m m' : Body) → IsValid m → IsValid m' → preimage m ≡ preimage m' → m ≡ m'

module _ (C : Crypto) (H : IsHash C) (M : Message C) where
  abbrev digest : M.Body → Bytes → Bytes
  digest m c =
      typed_data_hash C (keccak256 C (domain_preimage C (M.chain_id m) c))
        (keccak256 C (M.preimage m))

  pub signing_hash_inj :
      (m : M.Body) (c : Bytes) (m' : M.Body) (c' : Bytes)
      → M.IsValid m
      → M.IsValid m'
      → IsArray 20 c
      → IsArray 20 c'
      → M.signing_hash m c ≡ M.signing_hash m' c'
      → ((m ≡ m') × (c ≡ c'))
        ⊎ AnyCollides C (
            preimages C
              (domain_preimage C (M.chain_id m) c)
              (M.preimage m)
              (domain_preimage C (M.chain_id m') c')
              (M.preimage m'))
  signing_hash_inj m c m' c' h h' hc hc' e =
      elim (typed_data_hash_inj C H _ _ _ _ (some-injective (digest m c) (digest m' c') hashes)) [
        | inr found ↦ inr found
        | inl (ds, ps) ↦ inl (
          M.preimage_inj m m' h h' ps,
          (domain_preimage_inj C H (M.chain_id m) c (M.chain_id m') c' (M.chain_id-IsU64 m h)
              (M.chain_id-IsU64 m' h') hc hc' ds).1,
        )
      ]
    where
      hashes : some (digest m c) ≡ some (digest m' c')
      hashes = sym (M.signing_hash_lem m c h hc) ∙ e ∙ M.signing_hash_lem m' c' h' hc'

  -- A valid message is hashed with no panic, and a valid key's signature of it gives the key's
  -- address back.
  pub sign-recover :
      IsEcdsa C
      → (signer verifier : Build) (m : M.Body) (c private_key : Bytes) {k : C.SigningKey}
      → M.IsValid m
      → IsArray 20 c
      → C.signing_key private_key ≡ some k
      → (hash : Bytes) × (sig : IntentSignature) × (M.signing_hash m c ≡ some hash)
        × (sign_hash C signer private_key hash ≡ some sig)
        × (27 ≤ sig.v)
        × (sig.v ≤ 30)
        × (recover_hash C verifier hash sig.v sig.r sig.s
            ≡ some (eth_address C (C.verifying_key k)))
  sign-recover L signer verifier m c private_key {k} h hc e =
      let (sig, signed, low, high, back) =
        recover_hash-sign_hash C L signer verifier private_key (digest m c) {k = k} e
          (unfold typed_data_hash in length-keccak256 C H _) in
      (digest m c, sig, M.signing_hash_lem m c h hc, signed, low, high, back)

-- Messages of two kinds whose preimages differ in width never share a signing hash, unless one of
-- the named pairs collides.
pub signing_hash_separate :
    (C : Crypto) (H : IsHash C) (M N : Message C) (m : M.Body) (c : Bytes) (n : N.Body) (c' : Bytes)
    → M.width ≢ N.width
    → M.IsValid m
    → N.IsValid n
    → IsArray 20 c
    → IsArray 20 c'
    → M.signing_hash m c ≡ N.signing_hash n c'
    → AnyCollides C (
        preimages C
          (domain_preimage C (M.chain_id m) c)
          (M.preimage m)
          (domain_preimage C (N.chain_id n) c')
          (N.preimage n))
signing_hash_separate C H M N m c n c' wide h h' hc hc' e =
    elim (typed_data_hash_inj C H _ _ _ _
      (some-injective (digest C H M m c) (digest C H N n c') hashes)) [
        | inr found ↦ found
        | inl (ds, ps) ↦
            absurd (wide (sym (M.length-preimage m h) ∙ ap length ps ∙ N.length-preimage n h'))
      ]
  where
    hashes : some (digest C H M m c) ≡ some (digest C H N n c')
    hashes = sym (M.signing_hash_lem m c h hc) ∙ e ∙ N.signing_hash_lem n c' h' hc'
