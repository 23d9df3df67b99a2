-- ===== src/Tests/Wasm.antt =====
-- The intents of src/wasm_api/mod.rs at a concrete input.
use huntkey.Prelude.{◌≡◌, refl, [], ◌∷◌, arith}
use huntkey.Prelude.Bytes.{zeros}
use huntkey.Prelude.Decimal.{to_decimal}
use huntkey.Intents.Intent.{SovereignIntent}
use huntkey.Intents.Intent.Preimage.{IsValid}
use huntkey.Tests.Hex.{encode}
use huntkey.WasmApi.{ok, intent_json, parse_intent}
use huntkey.WasmApi.RoundTrip.{AreBytes, create_intent_wasm-to_string}
use huntkey.WasmApi.Accepted.{create_intent_wasm-IsValid}
use huntkey.Tests.Codecs.{codecs, codecs-IsCodec, zeros-All}

abbrev transfer : SovereignIntent
transfer = record {
  target_contract = 187 ∷ zeros 19;
  function_sig = 169 ∷ 5 ∷ 156 ∷ 187 ∷ [];
  recipient = 204 ∷ zeros 19;
  asset_address = zeros 20;
  call_data_hash = zeros 32;
  max_value = 1000000000000000000;
  expiration = 1800000000;
  chain_id = 1;
  nonce = 0;
  session_epoch = 0;
  gas_limit = 0;
  max_fee_per_gas = 7;
  max_priority_fee_per_gas = 5;
  required_claim = zeros 32;
  claim_proof_hash = zeros 32;
  paymaster_mode = 0;
  paymaster = zeros 20;
}

transfer-IsValid : IsValid transfer
transfer-IsValid = record {
  target_contract = refl;
  function_sig = refl;
  recipient = refl;
  asset_address = refl;
  call_data_hash = refl;
  max_value = omega arith;
  expiration = omega arith;
  chain_id = omega arith;
  nonce = omega arith;
  session_epoch = omega arith;
  gas_limit = omega arith;
  max_fee_per_gas = omega arith;
  max_priority_fee_per_gas = omega arith;
  required_claim = refl;
  claim_proof_hash = refl;
  paymaster_mode = omega arith;
  paymaster = refl;
}

transfer-AreBytes : AreBytes transfer
transfer-AreBytes = record {
  target_contract = (omega arith, zeros-All 19);
  function_sig = (omega arith, (omega arith, (omega arith, (omega arith, tt))));
  recipient = (omega arith, zeros-All 19);
  asset_address = zeros-All 20;
  call_data_hash = zeros-All 32;
  required_claim = zeros-All 32;
  claim_proof_hash = zeros-All 32;
  paymaster = zeros-All 20;
}

create_intent_wasm-IsValid_example :
    (m : SovereignIntent) × (parse_intent codecs
        (encode (187 ∷ zeros 19))
        (encode (169 ∷ 5 ∷ 156 ∷ 187 ∷ []))
        (encode (204 ∷ zeros 19))
        (encode (zeros 20))
        (encode (zeros 32))
        (to_decimal 1000000000000000000)
        1800000000
        1
        0
        0
        0
        (to_decimal 7)
        (to_decimal 5)
        (encode (zeros 32))
        (encode (zeros 32))
        0
        (encode (zeros 20))
      ≡ ok m)
    × (codecs.to_string (intent_json codecs m) ≡ ok "17")
    × IsValid m
unfolding intent_json to_decimal
create_intent_wasm-IsValid_example =
    create_intent_wasm-IsValid codecs codecs-IsCodec (encode (187 ∷ zeros 19))
      (encode (169 ∷ 5 ∷ 156 ∷ 187 ∷ [])) (encode (204 ∷ zeros 19)) (encode (zeros 20))
      (encode (zeros 32)) (to_decimal 1000000000000000000) 1800000000 1 0 0 0 (to_decimal 7)
      (to_decimal 5) (encode (zeros 32)) (encode (zeros 32)) 0 (encode (zeros 20)) "17"
      (record {
        expiration_range = omega arith;
        chain_id_range = omega arith;
        nonce_range = omega arith;
        session_epoch_range = omega arith;
        gas_limit_range = omega arith;
        paymaster_mode_range = omega arith;
      })
      (create_intent_wasm-to_string codecs codecs-IsCodec transfer transfer-IsValid
        transfer-AreBytes)
