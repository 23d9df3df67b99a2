-- ===== src/Sessions/Derivation.antt =====
-- Session keys are bound to the action key, the nonce and the chain (src/sessions/mod.rs).
use huntkey.Prelude.{
  ℕ, ◌≡◌, ◌≢◌, ◌⊎◌, inl, inr, ◌∙◌, sym, ap, refl, Option, none, some, ◌>>=◌, length, append_inj,
  IsU64, arith, Option-cases, [],
}
use mathlib.Core.Path.{subst}
use huntkey.Prelude.Bytes.{Bytes, Bytes-discrete, to_be_bytes, length-to_be_bytes, to_be_bytes_inj}
use huntkey.Prelude.Decimal.{codes}
use huntkey.Crypto.{Crypto, IsEcdsa}
use huntkey.Core.Keys.{eth_address}
use huntkey.Sessions.{SessionKey, session_info, derive_session_key}

-- Two derivations with 64-bit nonces and chains, whose public keys have one length, have the same
-- HKDF info only if the public key, the nonce and the chain are the same.
pub session_info_inj :
    (key : Bytes) (nonce chain_id : ℕ) (key' : Bytes) (nonce' chain_id' : ℕ)
    → length key ≡ length key'
    → IsU64 nonce
    → IsU64 nonce'
    → IsU64 chain_id
    → IsU64 chain_id'
    → session_info key nonce chain_id ≡ session_info key' nonce' chain_id'
    → (key ≡ key') × (nonce ≡ nonce') × (chain_id ≡ chain_id')
unfolding session_info
session_info_inj key n c key' n' c' w hn hn' hc hc' e =
    let (keys, rest) = append_inj key key' _ _ w e in
    let width = length-to_be_bytes 8 n ∙ sym (length-to_be_bytes 8 n') in
    let (nonces, chains) = append_inj (to_be_bytes 8 n) (to_be_bytes 8 n') _ _ width rest in
    (keys, to_be_bytes_inj 8 hn hn' nonces, to_be_bytes_inj 8 hc hc' chains)

module _ (C : Crypto) (L : IsEcdsa C) where
  -- From a valid action key whose HKDF output for this nonce and chain is a valid key, a session
  -- key is derived whose private bytes parse to that key, with that key's address.
  pub derive_session_key_lem :
      (action_privkey : Bytes) (nonce chain_id : ℕ) (okm : Bytes) {parent k : C.SigningKey}
      → C.signing_key action_privkey ≡ some parent
      → C.hkdf_sha256
          (codes "HuntKey-V1-Session-Key")
          action_privkey
          (session_info (C.sec1_bytes (C.verifying_key parent)) nonce chain_id)
          32
        ≡ some okm
      → C.signing_key okm ≡ some k
      → (session : SessionKey) × (derive_session_key C action_privkey nonce chain_id ≡ some session)
        × (C.signing_key session.private_key ≡ some k)
        × (session.eth_address ≡ eth_address C (C.verifying_key k))
  unfolding derive_session_key
  derive_session_key_lem action_privkey nonce chain_id okm {parent} {k} e expanded parsed = (
    record {
      private_key = C.key_bytes k;
      public_key = C.sec1_bytes (C.verifying_key k);
      eth_address = eth_address C (C.verifying_key k);
    },
    rw (e, expanded, parsed),
    L.signing_key-key_bytes k,
    refl,
  )

-- The key that HKDF gives for an action key's bytes and an info.
abbrev pub hkdf_key : (C : Crypto) → Bytes → Bytes → Option C.SigningKey
hkdf_key C ikm info = do
  okm ← C.hkdf_sha256 (codes "HuntKey-V1-Session-Key") ikm info 32
  C.signing_key okm

module _ (C : Crypto) where
  -- What HKDF is asked for a session: the bytes of the action key, and the info of its public key.
  pub record IsRequest (ikm : Bytes) (nonce chain_id : ℕ) (info : Bytes) : Type 0 where
    pub parent : C.SigningKey
    pub parsed : C.signing_key ikm ≡ some parent
    framed : info ≡ session_info (C.sec1_bytes (C.verifying_key parent)) nonce chain_id

  -- Two different inputs, with which HKDF gives one signing key.
  abbrev pub HkdfCollides : Bytes → Bytes → Bytes → Bytes → Type 0
  HkdfCollides ikm info ikm' info' =
      ((ikm ≢ ikm') ⊎ (info ≢ info'))
      × (k : C.SigningKey) × (hkdf_key C ikm info ≡ some k)
      × (hkdf_key C ikm' info' ≡ some k)

  -- A session key that is derived comes from such a request.
  derived_from :
      (ikm : Bytes) (nonce chain_id : ℕ) {session : SessionKey}
      → derive_session_key C ikm nonce chain_id ≡ some session
      → (info : Bytes) × IsRequest ikm nonce chain_id info
        × (k : C.SigningKey) × (hkdf_key C ikm info ≡ some k)
        × (session.private_key ≡ C.key_bytes k)
  unfolding derive_session_key
  derived_from ikm nonce chain_id {session} e = elim (Option-cases (C.signing_key ikm)) [
    | inl fails ↦ absurd (ground (arith, rw fails at e))
    | inr (parent, parsed) ↦
        let info = session_info (C.sec1_bytes (C.verifying_key parent)) nonce chain_id in
        elim (Option-cases (C.hkdf_sha256 (codes "HuntKey-V1-Session-Key") ikm info 32)) [
          | inl fails ↦ absurd (ground (arith, rw (parsed, fails) at e))
          | inr (okm, expanded) ↦ elim (Option-cases (C.signing_key okm)) [
            | inl fails ↦ absurd (ground (arith, rw (parsed, expanded, fails) at e))
            | inr (k, found) ↦
                let made = rw (parsed, expanded, found) at e in
                (
                  info,
                  record { parent = parent; parsed = parsed; framed = refl },
                  k,
                  rw expanded found,
                  ap private_bytes (sym made),
                )
          ]
        ]
  ]
    where
      private_bytes : Option SessionKey → Bytes
      private_bytes none = []
      private_bytes (some s) = s.private_key

module _ (C : Crypto) (L : IsEcdsa C) where
  -- One request for one action key determines the nonce and the chain.
  request_inj :
      (ikm info : Bytes) (nonce chain_id nonce' chain_id' : ℕ)
      → IsU64 nonce
      → IsU64 chain_id
      → IsU64 nonce'
      → IsU64 chain_id'
      → IsRequest C ikm nonce chain_id info
      → IsRequest C ikm nonce' chain_id' info
      → (nonce ≡ nonce') × (chain_id ≡ chain_id')
  request_inj ikm info n c n' c' hn hc hn' hc' r r' =
      let parsed = r.parsed in
      let parsed' = r'.parsed in
      let same : r.parent ≡ r'.parent = ground (arith, parsed, parsed') in
      let (_, nonces, chains) =
        session_info_inj (C.sec1_bytes (C.verifying_key r.parent)) n c
          (C.sec1_bytes (C.verifying_key r'.parent)) n' c'
          (ap (λ k. length (C.sec1_bytes (C.verifying_key k))) same) hn hn' hc hc'
          (sym r.framed ∙ r'.framed) in
      (nonces, chains)

  -- Two session keys that are derived, with 64-bit nonces and chains, and have the same private
  -- key, come from the same action key, the same nonce and the same chain, or HKDF gives one
  -- signing key for two different inputs, which are the action keys' bytes with the infos of the
  -- two derivations.
  pub derive_session_key_inj :
      (ikm : Bytes) (nonce chain_id : ℕ) (ikm' : Bytes) (nonce' chain_id' : ℕ)
      → {session session' : SessionKey} → IsU64 nonce
      → IsU64 chain_id
      → IsU64 nonce'
      → IsU64 chain_id'
      → derive_session_key C ikm nonce chain_id ≡ some session
      → derive_session_key C ikm' nonce' chain_id' ≡ some session'
      → session.private_key ≡ session'.private_key
      → ((ikm ≡ ikm') × (nonce ≡ nonce') × (chain_id ≡ chain_id'))
        ⊎ ((info : Bytes) × (info' : Bytes) × IsRequest C ikm nonce chain_id info
            × IsRequest C ikm' nonce' chain_id' info'
            × HkdfCollides C ikm info ikm' info')
  derive_session_key_inj ikm n c ikm' n' c' hn hc hn' hc' e e' same =
      let (info, r, k, gives, bytes) = derived_from C ikm n c e in
      let (info', r', k', gives', bytes') = derived_from C ikm' n' c' e' in
      let keys : some k ≡ some k' =
        sym (L.signing_key-key_bytes k)
        ∙ ap C.signing_key (sym bytes ∙ same ∙ bytes')
        ∙ L.signing_key-key_bytes k' in
      let agree : hkdf_key C ikm' info' ≡ some k = gives' ∙ sym keys in
      elim (Bytes-discrete ikm ikm') [
        | no differ ↦ inr (info, info', r, r', (inl differ, k, gives, agree))
        | yes p ↦ elim (Bytes-discrete info info') [
          | no differ ↦ inr (info, info', r, r', (inr differ, k, gives, agree))
          | yes q ↦
              let (nonces, chains) = request_inj ikm info n c n' c' hn hc hn' hc' r (
                subst (λ i. IsRequest C i n' c' info) (sym p)
                  (subst (λ i. IsRequest C ikm' n' c' i) (sym q) r')) in
              inl (p, nonces, chains)
        ]
      ]
