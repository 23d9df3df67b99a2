-- ===== src/Eip712/Structs.antt =====
-- The typed data of src/core/mod.rs, src/intents/mod.rs, src/sessions/mod.rs and
-- src/recovery/mod.rs, member by member.
use huntkey.Prelude.{ℕ, [], ◌∷◌}
use huntkey.Prelude.Bytes.{Bytes}
use huntkey.Intents.Intent.{SovereignIntent}
use huntkey.Intents.Delegation.{DelegationCertificate}
use huntkey.Sessions.{SessionCertificate}
use huntkey.Recovery.{RecoveryRequest}
use huntkey.Eip712.{address, bytes, uint, string, Struct}

abbrev pub domain_struct : ℕ → Bytes → Struct
domain_struct chain_id verifying_contract = record {
  name = "EIP712Domain";
  members =
      ("name", string "HuntKey")
      ∷ ("version", string "1")
      ∷ ("chainId", uint 256 chain_id)
      ∷ ("verifyingContract", address verifying_contract)
      ∷ [];
}

abbrev pub intent_struct : SovereignIntent → Struct
intent_struct m = record {
  name = "SovereignIntent";
  members =
      ("targetContract", address m.target_contract)
      ∷ ("functionSig", bytes 4 m.function_sig)
      ∷ ("recipient", address m.recipient)
      ∷ ("assetAddress", address m.asset_address)
      ∷ ("callDataHash", bytes 32 m.call_data_hash)
      ∷ ("maxValue", uint 128 m.max_value)
      ∷ ("expiration", uint 64 m.expiration)
      ∷ ("chainId", uint 64 m.chain_id)
      ∷ ("nonce", uint 64 m.nonce)
      ∷ ("sessionEpoch", uint 64 m.session_epoch)
      ∷ ("gasLimit", uint 64 m.gas_limit)
      ∷ ("maxFeePerGas", uint 128 m.max_fee_per_gas)
      ∷ ("maxPriorityFeePerGas", uint 128 m.max_priority_fee_per_gas)
      ∷ ("requiredClaim", bytes 32 m.required_claim)
      ∷ ("claimProofHash", bytes 32 m.claim_proof_hash)
      ∷ ("paymasterMode", uint 8 m.paymaster_mode)
      ∷ ("paymaster", address m.paymaster)
      ∷ [];
}

abbrev pub delegation_struct : DelegationCertificate → Struct
delegation_struct m = record {
  name = "DelegationCertificate";
  members =
      ("delegate", address m.delegate)
      ∷ ("scope", bytes 4 m.scope)
      ∷ ("maxValue", uint 128 m.max_value)
      ∷ ("expiration", uint 64 m.expiration)
      ∷ ("chainId", uint 64 m.chain_id)
      ∷ ("nonce", uint 64 m.nonce)
      ∷ [];
}

abbrev pub session_struct : SessionCertificate → Struct
session_struct m = record {
  name = "SessionCertificate";
  members =
      ("session", address m.session)
      ∷ ("parent", address m.parent)
      ∷ ("scope", bytes 4 m.scope)
      ∷ ("target", address m.target)
      ∷ ("maxValue", uint 128 m.max_value)
      ∷ ("expiration", uint 64 m.expiration)
      ∷ ("chainId", uint 64 m.chain_id)
      ∷ [];
}

abbrev pub recovery_struct : RecoveryRequest → Struct
recovery_struct m = record {
  name = "RecoveryRequest";
  members =
      ("oldRoot", address m.old_root)
      ∷ ("newRoot", address m.new_root)
      ∷ ("chainId", uint 64 m.chain_id)
      ∷ ("nonce", uint 64 m.nonce)
      ∷ [];
}
