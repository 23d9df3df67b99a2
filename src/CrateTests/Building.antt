-- ===== src/CrateTests/Building.antt =====
-- The tests of src/lib.rs of the user operation builder, of the derivation paths and of the
-- tracking of a recovery.
use text.Mathlib.Text.{◌==◌ as str_eq}
use huntkey.Prelude.{◌+◌, ◌==◌, not, Option, some, [], ◌∷◌, ◌>>=◌, take, drop, length, Build}
use huntkey.Prelude.Bytes.{bytes_eq, zeros, to_be_bytes}
use huntkey.Core.Keys.{root_identity, action, proof, recovery, role_path}
use huntkey.Intents.UserOperation as UserOperation
use huntkey.Intents.UserOperation.{set_nonce, set_call_data, set_gas, set_init_code, build}
use huntkey.Recovery as Recovery
use huntkey.Recovery.{add_approval, threshold_met, is_alert, timelock_expired}
use huntkey.CrateTests.{Outcome, assert, plain_request}
use huntkey.CrateTests.Watching.{address}

unfoldable pub test_key_role_paths : Option Outcome
test_key_role_paths = do
  root_path ← assert (str_eq (role_path root_identity 0) "m/999'/0'")
  first_action ← assert (str_eq (role_path action 0) "m/999'/1'/0")
  sixth_action ← assert (str_eq (role_path action 5) "m/999'/1'/5")
  proof_path ← assert (str_eq (role_path proof 0) "m/999'/2'/0")
  assert (str_eq (role_path recovery 0) "m/999'/3'/0")

unfoldable pub test_user_operation_builder_basic : Option Outcome
test_user_operation_builder_basic = do
  let call_data = 0xa9 ∷ 0x05 ∷ 0x9c ∷ 0xbb ∷ 0x01 ∷ 0x02 ∷ []
  let sig_payload = 0xDE ∷ 0xAD ∷ []
  let builder = set_call_data (set_nonce (UserOperation.new (address 0xAA)) 42) call_data
  let user_op = build (set_gas builder 100000 200000 50000 30000000000 2000000000) sig_payload
  sender ← assert (bytes_eq user_op.sender (address 0xAA))
  data_kept ← assert (bytes_eq user_op.call_data call_data)
  signature_kept ← assert (bytes_eq user_op.signature sig_payload)
  assert (bytes_eq (drop 24 user_op.nonce) (to_be_bytes 8 42))

unfoldable pub test_user_operation_builder_gas_packing : Option Outcome
test_user_operation_builder_gas_packing = do
  let builder =
      set_gas (UserOperation.new (address 0xBB)) 100000 200000 50000 30000000000 2000000000
  let user_op = build builder []
  call_gas ← assert (bytes_eq (take 16 user_op.account_gas_limits) (to_be_bytes 16 100000))
  verif_gas ← assert (bytes_eq (drop 16 user_op.account_gas_limits) (to_be_bytes 16 200000))
  max_fee ← assert (bytes_eq (take 16 user_op.gas_fees) (to_be_bytes 16 30000000000))
  assert (bytes_eq (drop 16 user_op.gas_fees) (to_be_bytes 16 2000000000))

unfoldable pub test_user_operation_builder_default_fields : Option Outcome
test_user_operation_builder_default_fields = do
  let user_op = build (UserOperation.new (address 0xCC)) []
  no_init_code ← assert (length user_op.init_code == 0)
  no_paymaster ← assert (length user_op.paymaster_and_data == 0)
  no_call_data ← assert (length user_op.call_data == 0)
  assert (bytes_eq user_op.nonce (zeros 32))

unfoldable pub test_user_operation_builder_with_init_code : Option Outcome
test_user_operation_builder_with_init_code = do
  let init = 0x60 ∷ 0x00 ∷ 0x60 ∷ 0x00 ∷ []
  let user_op = build (set_init_code (UserOperation.new (address 0xDD)) init) []
  assert (bytes_eq user_op.init_code init)

unfoldable pub test_pending_recovery_tracking : Build → Option Outcome
test_pending_recovery_tracking compiled = do
  let pending = Recovery.new (plain_request (address 0xAA) (address 0xBB) 0)
  concerns_us ← assert (is_alert pending (address 0xAA))
  unmet ← assert (not (threshold_met pending 2))
  expired ← timelock_expired compiled pending 1000
  not_started ← assert (not expired)
  let (pending_1, fresh_1) = add_approval pending (address 0x11)
  first_counts ← assert fresh_1
  still_unmet ← assert (not (threshold_met pending_1 2))
  let (pending_2, fresh_2) = add_approval pending_1 (address 0x11)
  duplicate_refused ← assert (not fresh_2)
  let (pending_3, fresh_3) = add_approval pending_2 (address 0x22)
  second_counts ← assert fresh_3
  met ← assert (threshold_met pending_3 2)
  let started = record pending_3 { initiated_at = some 1000 }
  before ← timelock_expired compiled started (1000 + 172799)
  too_early ← assert (not before)
  after ← timelock_expired compiled started (1000 + 172800)
  assert after
