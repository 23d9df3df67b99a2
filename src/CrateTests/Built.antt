-- ===== src/CrateTests/Built.antt =====
-- The tests of src/lib.rs of the builder, of the paths and of the tracking of a recovery pass.
use huntkey.Prelude.{◌≡◌, refl, some, Build, debug, release}
use huntkey.Prelude.Bytes.{to_be_bytes, copy_at}
use huntkey.Prelude.Decimal.{to_decimal}
use huntkey.Core.Keys.{role_path, segment}
use huntkey.Intents.UserOperation as UserOperation
use huntkey.Intents.UserOperation.{set_nonce, set_call_data, set_gas, set_init_code, build}
use huntkey.Recovery as Recovery
use huntkey.Recovery.{add_approval, threshold_met, is_alert, timelock_expired}
use huntkey.CrateTests.{passed}
use huntkey.CrateTests.Building.{
  test_key_role_paths, test_user_operation_builder_basic, test_user_operation_builder_gas_packing,
  test_user_operation_builder_default_fields, test_user_operation_builder_with_init_code,
  test_pending_recovery_tracking,
}

test_key_role_paths_lem : test_key_role_paths ≡ some passed
unfolding test_key_role_paths role_path segment to_decimal
test_key_role_paths_lem = refl

test_user_operation_builder_basic_lem : test_user_operation_builder_basic ≡ some passed
unfolding test_user_operation_builder_basic UserOperation.new set_nonce set_call_data set_gas build
    to_be_bytes copy_at
test_user_operation_builder_basic_lem = refl

test_user_operation_builder_gas_packing_lem : test_user_operation_builder_gas_packing ≡ some passed
unfolding test_user_operation_builder_gas_packing UserOperation.new set_gas build to_be_bytes
    copy_at
test_user_operation_builder_gas_packing_lem = refl

test_user_operation_builder_default_fields_lem :
    test_user_operation_builder_default_fields ≡ some passed
unfolding test_user_operation_builder_default_fields UserOperation.new build to_be_bytes copy_at
test_user_operation_builder_default_fields_lem = refl

test_user_operation_builder_with_init_code_lem :
    test_user_operation_builder_with_init_code ≡ some passed
unfolding test_user_operation_builder_with_init_code UserOperation.new set_init_code build
test_user_operation_builder_with_init_code_lem = refl

test_pending_recovery_tracking_lem :
    (compiled : Build) → test_pending_recovery_tracking compiled ≡ some passed
unfolding test_pending_recovery_tracking Recovery.new add_approval threshold_met is_alert
    timelock_expired
test_pending_recovery_tracking_lem debug = refl
test_pending_recovery_tracking_lem release = refl
