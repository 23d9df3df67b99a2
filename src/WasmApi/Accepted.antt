-- ===== src/WasmApi/Accepted.antt =====
-- The intents that `create_intent_wasm` of src/wasm_api/mod.rs accepts.
use huntkey.Prelude.{ℕ, ◌≡◌, String, IsU64, IsU8}
use mathlib.Core.Path.{subst}
use huntkey.Intents.Intent.{SovereignIntent}
use huntkey.Intents.Intent.Preimage.{IsValid}
use huntkey.WasmApi.{
  Result, ok, map_err, Codecs, hex_to_array, parse_intent, intent_json, create_intent_wasm,
}
use huntkey.WasmApi.Results.{ok_inj, bind_ok, map_err_ok, hex_to_array-IsArray}
use huntkey.WasmApi.RoundTrip.{IsCodec}

module _ (T : Codecs) (L : IsCodec T)
    (target_contract function_sig recipient asset_address call_data_hash_hex max_value : String)
    (expiration chain_id nonce session_epoch gas_limit : ℕ)
    (max_fee_per_gas max_priority_fee_per_gas required_claim_hex claim_proof_hash_hex : String)
    (paymaster_mode : ℕ) (paymaster_hex : String) where
  abbrev pub parsed : Result SovereignIntent
  parsed =
      parse_intent T target_contract function_sig recipient asset_address call_data_hash_hex
        max_value expiration chain_id nonce session_epoch gas_limit max_fee_per_gas
        max_priority_fee_per_gas required_claim_hex claim_proof_hash_hex paymaster_mode
        paymaster_hex

  -- The ranges of the Rust types of the numeric arguments.
  pub record AreInRange : Type 0 where
    pub expiration_range : IsU64 expiration
    pub chain_id_range : IsU64 chain_id
    pub nonce_range : IsU64 nonce
    pub session_epoch_range : IsU64 session_epoch
    pub gas_limit_range : IsU64 gas_limit
    pub paymaster_mode_range : IsU8 paymaster_mode

  parse_intent-IsValid : (m : SovereignIntent) → AreInRange → parsed ≡ ok m → IsValid m
  unfolding parse_intent
  parse_intent-IsValid m n h =
      let read = hex_to_array T in
      let (target, e₁, h₁) = bind_ok (read 20 target_contract) _ h in
      let (fn_sig, e₂, h₂) = bind_ok (read 4 function_sig) _ h₁ in
      let (recip, e₃, h₃) = bind_ok (read 20 recipient) _ h₂ in
      let (asset, e₄, h₄) = bind_ok (read 20 asset_address) _ h₃ in
      let (data_hash, e₅, h₅) = bind_ok (read 32 call_data_hash_hex) _ h₄ in
      let (req_claim, e₆, h₆) = bind_ok (read 32 required_claim_hex) _ h₅ in
      let (proof_hash, e₇, h₇) = bind_ok (read 32 claim_proof_hash_hex) _ h₆ in
      let (pm_addr, e₈, h₈) = bind_ok (read 20 paymaster_hex) _ h₇ in
      let (max_val, e₉, h₉) =
        bind_ok (map_err "invalid max_value: " (T.parse_u128 max_value)) _ h₈ in
      let (max_fee, f₁, g₁) =
        bind_ok (map_err "invalid max_fee_per_gas: " (T.parse_u128 max_fee_per_gas)) _ h₉ in
      let (max_priority, f₂, g₂) =
        bind_ok
          (map_err "invalid max_priority_fee_per_gas: " (T.parse_u128 max_priority_fee_per_gas)) _
          g₁ in
      subst IsValid (ok_inj g₂) (record {
        target_contract = hex_to_array-IsArray T 20 target_contract e₁;
        function_sig = hex_to_array-IsArray T 4 function_sig e₂;
        recipient = hex_to_array-IsArray T 20 recipient e₃;
        asset_address = hex_to_array-IsArray T 20 asset_address e₄;
        call_data_hash = hex_to_array-IsArray T 32 call_data_hash_hex e₅;
        max_value =
            L.parse_u128-IsU128 max_value max_val
              (map_err_ok "invalid max_value: " (T.parse_u128 max_value) e₉);
        expiration = n.expiration_range;
        chain_id = n.chain_id_range;
        nonce = n.nonce_range;
        session_epoch = n.session_epoch_range;
        gas_limit = n.gas_limit_range;
        max_fee_per_gas =
            L.parse_u128-IsU128 max_fee_per_gas max_fee
              (map_err_ok "invalid max_fee_per_gas: " (T.parse_u128 max_fee_per_gas) f₁);
        max_priority_fee_per_gas = L.parse_u128-IsU128 max_priority_fee_per_gas max_priority (
            map_err_ok "invalid max_priority_fee_per_gas: " (T.parse_u128 max_priority_fee_per_gas)
              f₂);
        required_claim = hex_to_array-IsArray T 32 required_claim_hex e₆;
        claim_proof_hash = hex_to_array-IsArray T 32 claim_proof_hash_hex e₇;
        paymaster_mode = n.paymaster_mode_range;
        paymaster = hex_to_array-IsArray T 20 paymaster_hex e₈;
      })

  -- With numeric arguments in the ranges of their types, text that the call returns is the JSON
  -- text of an intent that its arguments are read as, and that intent is well-formed: every array
  -- has its length and every number its range.
  pub create_intent_wasm-IsValid :
      (json : String)
      → AreInRange
      → create_intent_wasm T target_contract function_sig recipient asset_address call_data_hash_hex
          max_value expiration chain_id nonce session_epoch gas_limit max_fee_per_gas
          max_priority_fee_per_gas required_claim_hex claim_proof_hash_hex paymaster_mode
          paymaster_hex
        ≡ ok json
      → (m : SovereignIntent) × (parsed ≡ ok m)
        × (T.to_string (intent_json T m) ≡ ok json)
        × IsValid m
  unfolding create_intent_wasm
  create_intent_wasm-IsValid json n h =
      let (m, read, made) = bind_ok parsed _ h in
      (
        m,
        read,
        map_err_ok "serialization failed: " (T.to_string (intent_json T m)) made,
        parse_intent-IsValid m n read,
      )
