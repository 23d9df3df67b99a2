-- ===== src/WasmApi/RoundTrip.antt =====
-- An intent that src/wasm_api/mod.rs writes out can be given back to it.
use package.text.Mathlib.Text.{◌==◌ as str_eq}
use huntkey.Prelude.{
  ℕ, String, ◌≡◌, ◌<◌, refl, Option, none, some, List, [], ◌∷◌, if◌then◌else◌, All, IsU128, arith,
}
use huntkey.Prelude.Bytes.{Bytes, IsArray}
use huntkey.Prelude.Decimal.{to_decimal}
use huntkey.Intents.Intent.{SovereignIntent}
use huntkey.Intents.Intent.Preimage.{IsValid}
use huntkey.WasmApi.{
  Result, Json, text, number, Codecs, ok, map_err, hex_to_array, parse_intent, intent_json,
  create_intent_wasm,
}

-- What the code relies on: hex text decodes to the bytes that it encodes, and the decimal text of a
-- `u128` parses to it; what is parsed fits 128 bits.
pub record IsCodec (T : Codecs) : Type 0 where
  pub hex_decode-hex_encode :
      (bytes : Bytes) → All (λ b. b < 256) bytes → T.hex_decode (T.hex_encode bytes) ≡ ok bytes
  pub parse_u128-to_decimal : (n : ℕ) → IsU128 n → T.parse_u128 (to_decimal n) ≡ ok n
  pub parse_u128-IsU128 : (s : String) (n : ℕ) → T.parse_u128 s ≡ ok n → IsU128 n

-- Every element of the intent's arrays is a byte.
pub record AreBytes (m : SovereignIntent) : Type 0 where
  pub target_contract : All (λ b. b < 256) m.target_contract
  pub function_sig : All (λ b. b < 256) m.function_sig
  pub recipient : All (λ b. b < 256) m.recipient
  pub asset_address : All (λ b. b < 256) m.asset_address
  pub call_data_hash : All (λ b. b < 256) m.call_data_hash
  pub required_claim : All (λ b. b < 256) m.required_claim
  pub claim_proof_hash : All (λ b. b < 256) m.claim_proof_hash
  pub paymaster : All (λ b. b < 256) m.paymaster

-- What serde_json documents of an object of texts and numbers: it is written with no error.
abbrev pub WritesObjects : Codecs → Type 0
WritesObjects T = (fields : List (String × Json)) → (s : String) × (T.to_string fields ≡ ok s)

-- The value under a name.
field : String → List (String × Json) → Option Json
field name [] = none
field name ((key, value) ∷ fields) = if str_eq key name then some value else field name fields

-- The text, and the number, under a name; the empty text and zero if there is none.
text_of : String → List (String × Json) → String
unfolding field
text_of name fields = elim (field name fields) [
  | none ↦ ""
  | some v ↦ elim v [ text s ↦ s | number n ↦ "" ]
]

number_of : String → List (String × Json) → ℕ
unfolding field
number_of name fields = elim (field name fields) [
  | none ↦ 0
  | some v ↦ elim v [ text s ↦ 0 | number n ↦ n ]
]

-- Reading a JSON object: the texts and the numbers are taken by the names of the parameters of
-- `create_intent_wasm`, in the order of those.
pub read_intent : Codecs → List (String × Json) → Result SovereignIntent
read_intent T fields =
    parse_intent T (text_of "target_contract" fields) (text_of "function_sig" fields)
      (text_of "recipient" fields) (text_of "asset_address" fields)
      (text_of "call_data_hash" fields) (text_of "max_value" fields) (number_of "expiration" fields)
      (number_of "chain_id" fields) (number_of "nonce" fields) (number_of "session_epoch" fields)
      (number_of "gas_limit" fields) (text_of "max_fee_per_gas" fields)
      (text_of "max_priority_fee_per_gas" fields) (text_of "required_claim" fields)
      (text_of "claim_proof_hash" fields) (number_of "paymaster_mode" fields)
      (text_of "paymaster" fields)

module _ (T : Codecs) (L : IsCodec T) where
  pub hex_to_array_lem :
      (n : ℕ) (bytes : Bytes)
      → All (λ b. b < 256) bytes
      → IsArray n bytes
      → hex_to_array T n (T.hex_encode bytes) ≡ ok bytes
  unfolding hex_to_array
  hex_to_array_lem n bytes b h = rw (L.hex_decode-hex_encode bytes b) (ground arith)

  -- Of a valid intent whose arrays hold bytes, the hexadecimal, decimal and numeric texts are read
  -- as that intent.
  parse_intent_lem :
      (m : SovereignIntent)
      → IsValid m
      → AreBytes m
      → parse_intent T
          (T.hex_encode m.target_contract)
          (T.hex_encode m.function_sig)
          (T.hex_encode m.recipient)
          (T.hex_encode m.asset_address)
          (T.hex_encode m.call_data_hash)
          (to_decimal m.max_value)
          m.expiration
          m.chain_id
          m.nonce
          m.session_epoch
          m.gas_limit
          (to_decimal m.max_fee_per_gas)
          (to_decimal m.max_priority_fee_per_gas)
          (T.hex_encode m.required_claim)
          (T.hex_encode m.claim_proof_hash)
          m.paymaster_mode
          (T.hex_encode m.paymaster)
        ≡ ok m
  unfolding parse_intent
  parse_intent_lem m h b =
      rw
        (
          hex_to_array_lem 20 m.target_contract b.target_contract h.target_contract,
          hex_to_array_lem 4 m.function_sig b.function_sig h.function_sig,
          hex_to_array_lem 20 m.recipient b.recipient h.recipient,
          hex_to_array_lem 20 m.asset_address b.asset_address h.asset_address,
          hex_to_array_lem 32 m.call_data_hash b.call_data_hash h.call_data_hash,
          hex_to_array_lem 32 m.required_claim b.required_claim h.required_claim,
          hex_to_array_lem 32 m.claim_proof_hash b.claim_proof_hash h.claim_proof_hash,
          hex_to_array_lem 20 m.paymaster b.paymaster h.paymaster,
          L.parse_u128-to_decimal m.max_value h.max_value,
          L.parse_u128-to_decimal m.max_fee_per_gas h.max_fee_per_gas,
          L.parse_u128-to_decimal m.max_priority_fee_per_gas h.max_priority_fee_per_gas,
        )
        refl

  -- The call then ends as the writing of the intent's JSON object does.
  pub create_intent_wasm-to_string :
      (m : SovereignIntent)
      → IsValid m
      → AreBytes m
      → create_intent_wasm T
          (T.hex_encode m.target_contract)
          (T.hex_encode m.function_sig)
          (T.hex_encode m.recipient)
          (T.hex_encode m.asset_address)
          (T.hex_encode m.call_data_hash)
          (to_decimal m.max_value)
          m.expiration
          m.chain_id
          m.nonce
          m.session_epoch
          m.gas_limit
          (to_decimal m.max_fee_per_gas)
          (to_decimal m.max_priority_fee_per_gas)
          (T.hex_encode m.required_claim)
          (T.hex_encode m.claim_proof_hash)
          m.paymaster_mode
          (T.hex_encode m.paymaster)
        ≡ map_err "serialization failed: " (T.to_string (intent_json T m))
  unfolding create_intent_wasm
  create_intent_wasm-to_string m h b = rw (parse_intent_lem m h b) refl
