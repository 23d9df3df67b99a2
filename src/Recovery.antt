-- ===== src/Recovery.antt =====
-- src/recovery/mod.rs: recovery requests, and the tracker of guardian approvals.
pub mod Laws
pub mod Approvals
pub mod GuardianSet
pub mod Refinement
pub mod Timelock
use huntkey.Prelude.{
  ℕ, Bool, true, false, Option, none, some, String, List, [], ◌∷◌, ◌++◌, ◌>>=◌, Build, add_word,
  any, leb, length, if◌then◌else◌,
}
use huntkey.Prelude.Bytes.{Bytes, bytes_eq}
use huntkey.Prelude.Decimal.{codes}
use huntkey.Crypto.{Crypto}
use huntkey.Core.Words.{address_to_word, u64_to_word, extend_all}
use huntkey.Core.Hash.{keccak256, domain_separator, typed_data_hash}
use huntkey.Signing.{IntentSignature, sign_hash, recover_hash}

abbrev pub recovery_type_str : String
recovery_type_str = "RecoveryRequest(address oldRoot,address newRoot,uint64 chainId,uint64 nonce)"

pub record RecoveryRequest : Type 0 where
  pub old_root : Bytes
  pub new_root : Bytes
  pub chain_id : ℕ
  pub nonce : ℕ

pub record PendingRecovery : Type 0 where
  pub request : RecoveryRequest
  pub approvals : List Bytes
  pub initiated_at : Option ℕ

unfoldable pub new : RecoveryRequest → PendingRecovery
new request = record { request = request; approvals = []; initiated_at = none }

-- The tracker after the call, and whether the approval is new.
unfoldable pub add_approval : PendingRecovery → Bytes → PendingRecovery × Bool
add_approval p guardian =
    if any (bytes_eq guardian) p.approvals
    then (p, false)
    else (record p { approvals = p.approvals ++ guardian ∷ [] }, true)

unfoldable pub threshold_met : PendingRecovery → ℕ → Bool
threshold_met p threshold = leb threshold (length p.approvals)

unfoldable pub is_alert : PendingRecovery → Bytes → Bool
is_alert p our_root = bytes_eq p.request.old_root our_root

-- The timelock's end is computed in 64 bits; 172800 seconds are 48 hours.
expired_since : Build → Option ℕ → ℕ → Option Bool
expired_since build none current_time = some false
expired_since build (some t) current_time = do
  end ← add_word build 64 t 172800
  some (leb end current_time)

unfoldable pub timelock_expired : Build → PendingRecovery → ℕ → Option Bool
unfolding expired_since
timelock_expired build p current_time = expired_since build p.initiated_at current_time

module _ (C : Crypto) where
  -- What `recovery_struct_hash` appends to its buffer, in order.
  abbrev pub recovery_steps : RecoveryRequest → List (Option Bytes)
  recovery_steps req =
      some (keccak256 C (codes recovery_type_str))
      ∷ address_to_word req.old_root
      ∷ address_to_word req.new_root
      ∷ u64_to_word req.chain_id
      ∷ u64_to_word req.nonce
      ∷ []

  unfoldable pub recovery_struct_hash : RecoveryRequest → Option Bytes
  recovery_struct_hash req = do buf ← extend_all (recovery_steps req); some (keccak256 C buf)

  unfoldable pub recovery_signing_hash : RecoveryRequest → Bytes → Option Bytes
  recovery_signing_hash req verifying_contract = do
    ds ← domain_separator C req.chain_id verifying_contract
    sh ← recovery_struct_hash req
    some (typed_data_hash C ds sh)

  unfoldable pub sign_recovery_request :
      Build → RecoveryRequest → Bytes → Bytes → Option IntentSignature
  sign_recovery_request build req verifying_contract guardian_private_key = do
    hash ← recovery_signing_hash req verifying_contract
    sign_hash C build guardian_private_key hash

  unfoldable pub recover_recovery_signer :
      Build → RecoveryRequest → Bytes → IntentSignature → Option Bytes
  recover_recovery_signer build req verifying_contract sig = do
    hash ← recovery_signing_hash req verifying_contract
    recover_hash C build hash sig.v sig.r sig.s
