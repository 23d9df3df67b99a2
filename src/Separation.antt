-- ===== src/Separation.antt =====
-- The four kinds of signed message of src/intents/mod.rs, src/sessions/mod.rs and
-- src/recovery/mod.rs under one key: no signature of one kind serves for another.
pub mod Panics
use huntkey.Prelude.{◌≡◌, ◌≢◌, refl, arith, Option, ◌⊎◌, inl, inr}
use huntkey.Prelude.Bytes.{Bytes, IsArray}
use huntkey.Crypto.{Crypto, IsHash}
use huntkey.Core.Hash.Binding.{AnyCollides, preimages, domain_preimage}
use huntkey.Signing.Message.{Message, signing_hash_inj, signing_hash_separate}
use huntkey.Intents.Intent.Laws.{intent_message}
use huntkey.Intents.Delegation.Laws.{delegation_message}
use huntkey.Sessions.Laws.{session_message}
use huntkey.Recovery.Laws.{recovery_message}

pub data Kind : Type 0 where
  intent delegation session recovery : Kind

module _ (C : Crypto) (H : IsHash C) where
  abbrev pub kind_message : Kind → Message C
  kind_message intent = intent_message C H
  kind_message delegation = delegation_message C H
  kind_message session = session_message C H
  kind_message recovery = recovery_message C H

  width-ne : (k l : Kind) → k ≢ l → (kind_message k).width ≢ (kind_message l).width
  width-ne intent intent ne e = ne refl
  width-ne delegation delegation ne e = ne refl
  width-ne session session ne e = ne refl
  width-ne recovery recovery ne e = ne refl
  width-ne intent delegation ne e = absurd (omega arith)
  width-ne intent session ne e = absurd (omega arith)
  width-ne intent recovery ne e = absurd (omega arith)
  width-ne delegation intent ne e = absurd (omega arith)
  width-ne delegation session ne e = absurd (omega arith)
  width-ne delegation recovery ne e = absurd (omega arith)
  width-ne session intent ne e = absurd (omega arith)
  width-ne session delegation ne e = absurd (omega arith)
  width-ne session recovery ne e = absurd (omega arith)
  width-ne recovery intent ne e = absurd (omega arith)
  width-ne recovery delegation ne e = absurd (omega arith)
  width-ne recovery session ne e = absurd (omega arith)

  -- Valid messages of two different kinds have different signing hashes, whatever their contents
  -- and contracts, or Keccak collides on the framed, the domain or the struct preimages: no
  -- signature of a delegation, say, is one of an intent.
  kinds_separate :
      (k l : Kind) (m : (kind_message k).Body) (c : Bytes) (n : (kind_message l).Body) (c' : Bytes)
      → k ≢ l
      → (kind_message k).IsValid m
      → (kind_message l).IsValid n
      → IsArray 20 c
      → IsArray 20 c'
      → (kind_message k).signing_hash m c ≡ (kind_message l).signing_hash n c'
      → AnyCollides C (
          preimages C
            (domain_preimage C ((kind_message k).chain_id m) c)
            ((kind_message k).preimage m)
            (domain_preimage C ((kind_message l).chain_id n) c')
            ((kind_message l).preimage n))
  kinds_separate k l m c n c' ne =
      signing_hash_separate C H (kind_message k) (kind_message l) m c n c' (width-ne k l ne)

  -- A message of some kind, with the contract that it is for.
  abbrev pub Request : Type 0
  Request = (k : Kind) × (kind_message k).Body × Bytes

  abbrev pub IsValidRequest : Request → Type 0
  IsValidRequest (k, m, c) = (kind_message k).IsValid m × IsArray 20 c

  abbrev pub request_hash : Request → Option Bytes
  request_hash (k, m, c) = (kind_message k).signing_hash m c

  abbrev pub request_domain : Request → Bytes
  request_domain (k, m, c) = domain_preimage C ((kind_message k).chain_id m) c

  abbrev pub request_preimage : Request → Bytes
  request_preimage (k, m, c) = (kind_message k).preimage m

  abbrev pub Binds : Request → Request → Type 0
  Binds a b =
      (a ≡ b)
      ⊎ AnyCollides C (
          preimages C (request_domain a) (request_preimage a) (request_domain b)
            (request_preimage b))

  same_kind :
      (k : Kind) (m : (kind_message k).Body) (c : Bytes) (n : (kind_message k).Body) (c' : Bytes)
      → IsValidRequest (k, m, c)
      → IsValidRequest (k, n, c')
      → request_hash (k, m, c) ≡ request_hash (k, n, c')
      → Binds (k, m, c) (k, n, c')
  same_kind k m c n c' (h, hc) (h', hc') e =
      elim (signing_hash_inj C H (kind_message k) m c n c' h h' hc hc' e) [
        | inl (same, contract) ↦ inl (λ i. (k, same i, contract i))
        | inr found ↦ inr found
      ]

  -- Two valid messages with one signing hash, each an intent, a delegation, a session certificate
  -- or a recovery request, are of the same kind, are the same message and are for the same
  -- contract, or Keccak collides on the framed, the domain or the struct preimages.
  pub request_hash_inj :
      (a b : Request)
      → IsValidRequest a
      → IsValidRequest b
      → request_hash a ≡ request_hash b
      → Binds a b
  request_hash_inj (intent, m, c) (intent, n, c') h h' e = same_kind intent m c n c' h h' e
  request_hash_inj (delegation, m, c) (delegation, n, c') h h' e =
      same_kind delegation m c n c' h h' e
  request_hash_inj (session, m, c) (session, n, c') h h' e = same_kind session m c n c' h h' e
  request_hash_inj (recovery, m, c) (recovery, n, c') h h' e = same_kind recovery m c n c' h h' e
  request_hash_inj (intent, m, c) (delegation, n, c') (h, hc) (h', hc') e =
      inr (kinds_separate intent delegation m c n c' (λ e. absurd (ground arith)) h h' hc hc' e)
  request_hash_inj (intent, m, c) (session, n, c') (h, hc) (h', hc') e =
      inr (kinds_separate intent session m c n c' (λ e. absurd (ground arith)) h h' hc hc' e)
  request_hash_inj (intent, m, c) (recovery, n, c') (h, hc) (h', hc') e =
      inr (kinds_separate intent recovery m c n c' (λ e. absurd (ground arith)) h h' hc hc' e)
  request_hash_inj (delegation, m, c) (intent, n, c') (h, hc) (h', hc') e =
      inr (kinds_separate delegation intent m c n c' (λ e. absurd (ground arith)) h h' hc hc' e)
  request_hash_inj (delegation, m, c) (session, n, c') (h, hc) (h', hc') e =
      inr (kinds_separate delegation session m c n c' (λ e. absurd (ground arith)) h h' hc hc' e)
  request_hash_inj (delegation, m, c) (recovery, n, c') (h, hc) (h', hc') e =
      inr (kinds_separate delegation recovery m c n c' (λ e. absurd (ground arith)) h h' hc hc' e)
  request_hash_inj (session, m, c) (intent, n, c') (h, hc) (h', hc') e =
      inr (kinds_separate session intent m c n c' (λ e. absurd (ground arith)) h h' hc hc' e)
  request_hash_inj (session, m, c) (delegation, n, c') (h, hc) (h', hc') e =
      inr (kinds_separate session delegation m c n c' (λ e. absurd (ground arith)) h h' hc hc' e)
  request_hash_inj (session, m, c) (recovery, n, c') (h, hc) (h', hc') e =
      inr (kinds_separate session recovery m c n c' (λ e. absurd (ground arith)) h h' hc hc' e)
  request_hash_inj (recovery, m, c) (intent, n, c') (h, hc) (h', hc') e =
      inr (kinds_separate recovery intent m c n c' (λ e. absurd (ground arith)) h h' hc hc' e)
  request_hash_inj (recovery, m, c) (delegation, n, c') (h, hc) (h', hc') e =
      inr (kinds_separate recovery delegation m c n c' (λ e. absurd (ground arith)) h h' hc hc' e)
  request_hash_inj (recovery, m, c) (session, n, c') (h, hc) (h', hc') e =
      inr (kinds_separate recovery session m c n c' (λ e. absurd (ground arith)) h h' hc hc' e)
