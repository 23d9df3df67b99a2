-- ===== src/Tests/Keys.antt =====
-- Keys, words, session keys and user operations (src/core/mod.rs, src/sessions/mod.rs,
-- src/intents/mod.rs) at concrete inputs.
use huntkey.Prelude.{
  ℕ, ◌≡◌, ◌↔◌, ◌+◌, refl, arith, none, some, List, [], ◌∷◌, map, length, debug, release, Distinct,
}
use huntkey.Prelude.Bytes.{zeros}
use huntkey.Prelude.Decimal.{codes}
use huntkey.Crypto.Toy.{toy, digest_of}
use huntkey.Core.Keys as Keys
use huntkey.Core.Keys.{DerivedKey, KeyHierarchy, action, proof, role_path, eth_address}
use huntkey.Core.Keys.Paths.{SameKey, role_path_iff}
use huntkey.Core.Keys.ActionKeys.{issue, action_paths, issue-Distinct}
use huntkey.Core.Keys.WrapAround.{after_keys, issue_wraps}
use huntkey.Sessions.Derivation.{session_info_inj}
use huntkey.Intents.UserOperation.{UserOperationBuilder, build}
use huntkey.Intents.UserOperation.Laws.{IsValid, unpack, exchanged, unpack-build}

role_path_iff_example : (role_path action 7 ≡ role_path proof 7) ↔ SameKey action 7 proof 7
role_path_iff_example = role_path_iff action 7 proof 7 (omega arith) (omega arith)

abbrev hierarchy : ℕ → KeyHierarchy toy
hierarchy index = record { root = 9; action_index = index }

issue-Distinct_example :
    (keys : List DerivedKey) × (last : KeyHierarchy toy) × (issue toy debug 3 (hierarchy 1)
      ≡ some (keys, last))
    × (length keys ≡ 3)
    × Distinct (map (λ k. k.path) keys)
    × (last.action_index ≡ 1 + 3)
issue-Distinct_example =
    issue-Distinct toy debug 3 (hierarchy 1) (omega arith)
      (λ j low high. (9 + digest_of (codes (role_path action j)), refl))

issue_wraps_example :
    (issue toy debug 4294967296 (Keys.new toy 9) ≡ none)
    × (keys : List DerivedKey) × (length keys ≡ 4294967296)
    × (map (λ k. k.path) keys ≡ action_paths toy release 0 4294967296)
    × (issue toy release 4294967296 (Keys.new toy 9) ≡ some (keys, Keys.new toy 9))
    × ((n : ℕ)
        → issue toy release (4294967296 + n) (Keys.new toy 9)
          ≡ after_keys toy keys (issue toy release n (Keys.new toy 9)))
issue_wraps_example =
    issue_wraps toy 9 (λ j low high. (9 + digest_of (codes (role_path action j)), refl))

abbrev builder : UserOperationBuilder
builder = record {
  sender = 170 ∷ zeros 19;
  nonce = 42;
  call_data = 1 ∷ 2 ∷ [];
  call_gas_limit = 100000;
  verification_gas_limit = 200000;
  pre_verification_gas = 21000;
  max_fee_per_gas = 30000000000;
  max_priority_fee_per_gas = 1000000000;
  init_code = [];
  paymaster_and_data = [];
}

builder-IsValid : IsValid builder
builder-IsValid = record {
  nonce = omega arith;
  call_gas_limit = omega arith;
  verification_gas_limit = omega arith;
  pre_verification_gas = omega arith;
  max_fee_per_gas = omega arith;
  max_priority_fee_per_gas = omega arith;
}

unpack-build_example :
    (unpack (build builder (zeros 65)) ≡ exchanged builder)
    × ((unpack (build builder (zeros 65)) ≡ builder)
        ↔ ((◌≡◌ {A = ℕ} 100000 200000) × (◌≡◌ {A = ℕ} 30000000000 1000000000)))
    × ((build builder (zeros 65)).signature ≡ zeros 65)
unpack-build_example = unpack-build builder (zeros 65) builder-IsValid

session_info_inj_example : (2 ∷ zeros 32 ≡ 2 ∷ zeros 32) × (◌≡◌ {A = ℕ} 3 3) × (◌≡◌ {A = ℕ} 137 137)
session_info_inj_example =
    session_info_inj (2 ∷ zeros 32) 3 137 (2 ∷ zeros 32) 3 137 refl (omega arith) (omega arith)
      (omega arith) (omega arith) refl
