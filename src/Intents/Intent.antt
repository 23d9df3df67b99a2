-- ===== src/Intents/Intent.antt =====
-- `SovereignIntent` of src/intents/mod.rs: its EIP-712 hashes, its signature and its signer.
pub mod Preimage
pub mod Laws
use huntkey.Prelude.{ℕ, Option, some, String, List, [], ◌∷◌, ◌>>=◌, Build}
use huntkey.Prelude.Bytes.{Bytes, zeros, copy_at}
use huntkey.Prelude.Decimal.{codes}
use huntkey.Crypto.{Crypto}
use huntkey.Core.Words.{address_to_word, right_pad_32, u64_to_word, u128_to_word, extend_all}
use huntkey.Core.Hash.{keccak256, domain_separator, typed_data_hash}
use huntkey.Signing.{IntentSignature, sign_hash, recover_hash}

abbrev pub intent_type_str : String
intent_type_str =
    "SovereignIntent(address targetContract,bytes4 functionSig,address recipient,address assetAddress,bytes32 callDataHash,uint128 maxValue,uint64 expiration,uint64 chainId,uint64 nonce,uint64 sessionEpoch,uint64 gasLimit,uint128 maxFeePerGas,uint128 maxPriorityFeePerGas,bytes32 requiredClaim,bytes32 claimProofHash,uint8 paymasterMode,address paymaster)"

pub record SovereignIntent : Type 0 where
  pub target_contract : Bytes
  pub function_sig : Bytes
  pub recipient : Bytes
  pub asset_address : Bytes
  pub call_data_hash : Bytes
  pub max_value : ℕ
  pub expiration : ℕ
  pub chain_id : ℕ
  pub nonce : ℕ
  pub session_epoch : ℕ
  pub gas_limit : ℕ
  pub max_fee_per_gas : ℕ
  pub max_priority_fee_per_gas : ℕ
  pub required_claim : Bytes
  pub claim_proof_hash : Bytes
  pub paymaster_mode : ℕ
  pub paymaster : Bytes

-- `pm_word[31] = intent.paymaster_mode`
unfoldable pub paymaster_mode_word : ℕ → Bytes
paymaster_mode_word mode = copy_at 31 (mode ∷ []) (zeros 32)

module _ (C : Crypto) where
  -- What `intent_struct_hash` appends to its buffer, in order.
  abbrev pub intent_steps : SovereignIntent → List (Option Bytes)
  intent_steps intent =
      some (keccak256 C (codes intent_type_str))
      ∷ address_to_word intent.target_contract
      ∷ right_pad_32 intent.function_sig
      ∷ address_to_word intent.recipient
      ∷ address_to_word intent.asset_address
      ∷ some intent.call_data_hash
      ∷ u128_to_word intent.max_value
      ∷ u64_to_word intent.expiration
      ∷ u64_to_word intent.chain_id
      ∷ u64_to_word intent.nonce
      ∷ u64_to_word intent.session_epoch
      ∷ u64_to_word intent.gas_limit
      ∷ u128_to_word intent.max_fee_per_gas
      ∷ u128_to_word intent.max_priority_fee_per_gas
      ∷ some intent.required_claim
      ∷ some intent.claim_proof_hash
      ∷ some (paymaster_mode_word intent.paymaster_mode)
      ∷ address_to_word intent.paymaster
      ∷ []

  unfoldable pub intent_struct_hash : SovereignIntent → Option Bytes
  intent_struct_hash intent = do buf ← extend_all (intent_steps intent); some (keccak256 C buf)

  unfoldable pub intent_signing_hash : SovereignIntent → Bytes → Option Bytes
  intent_signing_hash intent verifying_contract = do
    ds ← domain_separator C intent.chain_id verifying_contract
    sh ← intent_struct_hash intent
    some (typed_data_hash C ds sh)

  unfoldable pub sign_intent : Build → SovereignIntent → Bytes → Bytes → Option IntentSignature
  sign_intent build intent verifying_contract private_key = do
    hash ← intent_signing_hash intent verifying_contract
    sign_hash C build private_key hash

  unfoldable pub recover_signer : Build → SovereignIntent → Bytes → IntentSignature → Option Bytes
  recover_signer build intent verifying_contract sig = do
    hash ← intent_signing_hash intent verifying_contract
    recover_hash C build hash sig.v sig.r sig.s
