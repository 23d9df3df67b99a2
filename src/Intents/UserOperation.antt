-- ===== src/Intents/UserOperation.antt =====
-- `UserOperationBuilder` of src/intents/mod.rs, and the packed ERC-4337 operation that it builds.
pub mod Laws
use huntkey.Prelude.{ℕ, []}
use huntkey.Prelude.Bytes.{Bytes, zeros, to_be_bytes, copy_at}

pub record PackedUserOperation : Type 0 where
  pub sender : Bytes
  pub nonce : Bytes
  pub init_code : Bytes
  pub call_data : Bytes
  pub account_gas_limits : Bytes
  pub pre_verification_gas : Bytes
  pub gas_fees : Bytes
  pub paymaster_and_data : Bytes
  pub signature : Bytes

pub record UserOperationBuilder : Type 0 where
  pub sender : Bytes
  pub nonce : ℕ
  pub call_data : Bytes
  pub call_gas_limit : ℕ
  pub verification_gas_limit : ℕ
  pub pre_verification_gas : ℕ
  pub max_fee_per_gas : ℕ
  pub max_priority_fee_per_gas : ℕ
  pub init_code : Bytes
  pub paymaster_and_data : Bytes

unfoldable pub new : Bytes → UserOperationBuilder
new sender = record {
  sender = sender;
  nonce = 0;
  call_data = [];
  call_gas_limit = 0;
  verification_gas_limit = 0;
  pre_verification_gas = 0;
  max_fee_per_gas = 0;
  max_priority_fee_per_gas = 0;
  init_code = [];
  paymaster_and_data = [];
}

unfoldable pub set_nonce : UserOperationBuilder → ℕ → UserOperationBuilder
set_nonce b nonce = record b { nonce = nonce }

unfoldable pub set_call_data : UserOperationBuilder → Bytes → UserOperationBuilder
set_call_data b bytes = record b { call_data = bytes }

unfoldable pub set_gas : UserOperationBuilder → ℕ → ℕ → ℕ → ℕ → ℕ → UserOperationBuilder
set_gas b call_gas_limit verification_gas_limit pre_verification_gas max_fee_per_gas
      max_priority_fee_per_gas =
    record b {
      call_gas_limit = call_gas_limit;
      verification_gas_limit = verification_gas_limit;
      pre_verification_gas = pre_verification_gas;
      max_fee_per_gas = max_fee_per_gas;
      max_priority_fee_per_gas = max_priority_fee_per_gas;
    }

unfoldable pub set_init_code : UserOperationBuilder → Bytes → UserOperationBuilder
set_init_code b code = record b { init_code = code }

unfoldable set_paymaster_and_data : UserOperationBuilder → Bytes → UserOperationBuilder
set_paymaster_and_data b bytes = record b { paymaster_and_data = bytes }

unfoldable pub build : UserOperationBuilder → Bytes → PackedUserOperation
build b signature_payload =
    let nonce_bytes = copy_at 24 (to_be_bytes 8 b.nonce) (zeros 32) in
    let gas_limits =
      copy_at 16 (to_be_bytes 16 b.verification_gas_limit)
        (copy_at 0 (to_be_bytes 16 b.call_gas_limit) (zeros 32)) in
    let pre_gas = copy_at 16 (to_be_bytes 16 b.pre_verification_gas) (zeros 32) in
    let gas_fees =
      copy_at 16 (to_be_bytes 16 b.max_priority_fee_per_gas)
        (copy_at 0 (to_be_bytes 16 b.max_fee_per_gas) (zeros 32)) in
    record {
      sender = b.sender;
      nonce = nonce_bytes;
      init_code = b.init_code;
      call_data = b.call_data;
      account_gas_limits = gas_limits;
      pre_verification_gas = pre_gas;
      gas_fees = gas_fees;
      paymaster_and_data = b.paymaster_and_data;
      signature = signature_payload;
    }
