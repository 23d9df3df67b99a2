-- ===== src/Separation/Panics.antt =====
-- When the four signing functions of src/intents/mod.rs, src/sessions/mod.rs and
-- src/recovery/mod.rs panic.
use huntkey.Prelude.{
  ◌≡◌, ◌↔◌, refl, sym, ◌∙◌, ◌⊎◌, inl, inr, Bool, true, false, Option, none, some, Build,
}
use mathlib.Core.Bool.{true≢false}
use mathlib.Core.Option.{none-ne-some}
use huntkey.Prelude.Bytes.{Bytes, IsArray}
use huntkey.Crypto.{Crypto, IsHash, IsEcdsa}
use huntkey.Signing.{IntentSignature, sign_hash}
use huntkey.Signing.Message.{Message, sign-recover}
use huntkey.Intents.Intent.{sign_intent}
use huntkey.Intents.Delegation.{sign_delegation}
use huntkey.Sessions.{sign_session_cert}
use huntkey.Recovery.{sign_recovery_request}
use huntkey.Separation.{
  intent, delegation, session, recovery, Request, IsValidRequest, kind_message,
}

abbrev pub returns {ℓ} : {A : Type ℓ} → Option A → Bool
returns none = false
returns (some a) = true

module _ (C : Crypto) (H : IsHash C) where
  -- The signing function of the message's kind returns a signature; else it panics.
  abbrev pub signs : Build → Request C H → Bytes → Bool
  signs build (intent, m, c) key = returns (sign_intent C build m c key)
  signs build (delegation, m, c) key = returns (sign_delegation C build m c key)
  signs build (session, m, c) key = returns (sign_session_cert C build m c key)
  signs build (recovery, m, c) key = returns (sign_recovery_request C build m c key)

  -- What becomes of a message's hash and its signing.
  Outcome : (M : Message C) → Build → M.Body → Bytes → Bytes → Type 0
  Outcome M build m c key =
      (hash : Bytes) × (M.signing_hash m c ≡ some hash)
      × (((C.signing_key key ≡ none) × (sign_hash C build key hash ≡ none))
          ⊎ ((k : C.SigningKey) × (sig : IntentSignature) × (C.signing_key key ≡ some k)
              × (sign_hash C build key hash ≡ some sig)))

  outcome :
      IsEcdsa C
      → (M : Message C) (build : Build) (m : M.Body) (c key : Bytes) → M.IsValid m
      → IsArray 20 c
      → Outcome M build m c key
  unfolding Outcome sign_hash
  outcome L M build m c key h hc = by_key (C.signing_key key) refl
    where
      by_key : (found : Option C.SigningKey) → C.signing_key key ≡ found → Outcome M build m c key
      by_key none e = (_, M.signing_hash_lem m c h hc, inl (e, rw e refl))
      by_key (some k) e =
          let (hash, sig, hashed, signed, _, _, _) =
            sign-recover C H M L build build m c key {k = k} h hc e in
          (hash, hashed, inr (k, sig, e, signed))

  -- A test that fails and holds with the signing of the hash fails exactly for an invalid key.
  fails_iff :
      (M : Message C) (build : Build) (m : M.Body) (c key : Bytes) (test : Bool)
      → Outcome M build m c key
      → ((hash : Bytes)
          → M.signing_hash m c ≡ some hash
          → sign_hash C build key hash ≡ none
          → test ≡ false)
      → ((hash : Bytes) (sig : IntentSignature)
          → M.signing_hash m c ≡ some hash
          → sign_hash C build key hash ≡ some sig
          → test ≡ true)
      → (test ≡ false) ↔ (C.signing_key key ≡ none)
  unfolding Outcome
  fails_iff M build m c key test (hash, hashed, inl (bad, failed)) fails holds =
      (λ e. bad, λ e. fails hash hashed failed)
  fails_iff M build m c key test (hash, hashed, inr (k, sig, good, signed)) fails holds = (
    λ e. absurd (true≢false (sym (holds hash sig hashed signed) ∙ e)),
    λ e. absurd (none-ne-some k (sym e ∙ good)),
  )

  -- For a valid message and a contract address, each of the four signing functions panics exactly
  -- if the private key is no valid key, in either build.
  pub signs_panics :
      IsEcdsa C
      → (build : Build) (a : Request C H) (key : Bytes) → IsValidRequest C H a
      → (signs build a key ≡ false) ↔ (C.signing_key key ≡ none)
  unfolding sign_intent sign_delegation sign_session_cert sign_recovery_request
  signs_panics L build (intent, m, c) key (h, hc) =
      fails_iff (kind_message C H intent) build m c key _
        (outcome L (kind_message C H intent) build m c key h hc)
        (λ hash hashed failed. rw (hashed, failed) refl)
        (λ hash sig hashed signed. rw (hashed, signed) refl)
  signs_panics L build (delegation, m, c) key (h, hc) =
      fails_iff (kind_message C H delegation) build m c key _
        (outcome L (kind_message C H delegation) build m c key h hc)
        (λ hash hashed failed. rw (hashed, failed) refl)
        (λ hash sig hashed signed. rw (hashed, signed) refl)
  signs_panics L build (session, m, c) key (h, hc) =
      fails_iff (kind_message C H session) build m c key _
        (outcome L (kind_message C H session) build m c key h hc)
        (λ hash hashed failed. rw (hashed, failed) refl)
        (λ hash sig hashed signed. rw (hashed, signed) refl)
  signs_panics L build (recovery, m, c) key (h, hc) =
      fails_iff (kind_message C H recovery) build m c key _
        (outcome L (kind_message C H recovery) build m c key h hc)
        (λ hash hashed failed. rw (hashed, failed) refl)
        (λ hash sig hashed signed. rw (hashed, signed) refl)
