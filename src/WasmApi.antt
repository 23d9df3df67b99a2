-- ===== src/WasmApi.antt =====
-- The WASM bindings of src/wasm_api/mod.rs. The crates hex and serde_json and the parser of `u128`
-- are parameters; a `JsValue` error is its text.
pub mod RoundTrip
pub mod Results
pub mod Accepted
pub mod Signing
use huntkey.Prelude.{
  ℕ, String, ◌<>◌, List, [], ◌∷◌, length, ◌==◌, if◌then◌else◌, Build, Option, some, none,
}
use huntkey.Prelude.Bytes.{Bytes}
use huntkey.Prelude.Decimal.{to_decimal}
use huntkey.Crypto.{Crypto}
use huntkey.Core.Hash.{call_data_hash}
use huntkey.Sessions.{SessionCertificate, SignedSession, sign_session_cert}
use huntkey.Intents.Intent.{SovereignIntent}

pub data Result (A : Type 0) : Type 0 where
  ok : A → Result A
  err : String → Result A

infixl 5 ◌>>=◌
abbrev pub ◌>>=◌ : {A B : Type 0} → Result A → (A → Result B) → Result B
ok a >>= f = f a
err e >>= f = err e

abbrev pub map_err : {A : Type 0} → String → Result A → Result A
map_err label (ok a) = ok a
map_err label (err e) = err (label <> e)

pub data Json : Type 0 where
  text : String → Json
  number : ℕ → Json

pub record Codecs : Type 0 where
  pub hex_encode : Bytes → String
  pub hex_decode : String → Result Bytes
  pub parse_u128 : String → Result ℕ
  pub to_string : List (String × Json) → Result String

module _ (T : Codecs) where
  unfoldable pub hex_to_array : ℕ → String → Result Bytes
  hex_to_array n hex_str = do
    bytes ← map_err "invalid hex: " (T.hex_decode hex_str)
    (if length bytes == n
        then ok bytes
        else err ("expected " <> (to_decimal n <> (" bytes, got " <> to_decimal (length bytes)))))

  unfoldable pub parse_intent :
      (target_contract function_sig recipient asset_address call_data_hash_hex max_value : String)
      → (expiration chain_id nonce session_epoch gas_limit : ℕ)
      → (max_fee_per_gas max_priority_fee_per_gas required_claim_hex claim_proof_hash_hex : String)
      → (paymaster_mode : ℕ) → (paymaster_hex : String) → Result SovereignIntent
  parse_intent target_contract function_sig recipient asset_address call_data_hash_hex max_value
        expiration chain_id nonce session_epoch gas_limit max_fee_per_gas max_priority_fee_per_gas
        required_claim_hex claim_proof_hash_hex paymaster_mode paymaster_hex =
      do
        target ← hex_to_array 20 target_contract
        fn_sig ← hex_to_array 4 function_sig
        recip ← hex_to_array 20 recipient
        asset ← hex_to_array 20 asset_address
        data_hash ← hex_to_array 32 call_data_hash_hex
        req_claim ← hex_to_array 32 required_claim_hex
        proof_hash ← hex_to_array 32 claim_proof_hash_hex
        pm_addr ← hex_to_array 20 paymaster_hex
        max_val ← map_err "invalid max_value: " (T.parse_u128 max_value)
        max_fee ← map_err "invalid max_fee_per_gas: " (T.parse_u128 max_fee_per_gas)
        max_priority_fee ←
            map_err "invalid max_priority_fee_per_gas: " (T.parse_u128 max_priority_fee_per_gas)
        ok (record {
          target_contract = target;
          function_sig = fn_sig;
          recipient = recip;
          asset_address = asset;
          call_data_hash = data_hash;
          max_value = max_val;
          expiration = expiration;
          chain_id = chain_id;
          nonce = nonce;
          session_epoch = session_epoch;
          gas_limit = gas_limit;
          max_fee_per_gas = max_fee;
          max_priority_fee_per_gas = max_priority_fee;
          required_claim = req_claim;
          claim_proof_hash = proof_hash;
          paymaster_mode = paymaster_mode;
          paymaster = pm_addr;
        })

  -- The JSON object of an intent.
  unfoldable pub intent_json : SovereignIntent → List (String × Json)
  intent_json m =
      ("target_contract", text (T.hex_encode m.target_contract))
      ∷ ("function_sig", text (T.hex_encode m.function_sig))
      ∷ ("recipient", text (T.hex_encode m.recipient))
      ∷ ("asset_address", text (T.hex_encode m.asset_address))
      ∷ ("call_data_hash", text (T.hex_encode m.call_data_hash))
      ∷ ("max_value", text (to_decimal m.max_value))
      ∷ ("expiration", number m.expiration)
      ∷ ("chain_id", number m.chain_id)
      ∷ ("nonce", number m.nonce)
      ∷ ("session_epoch", number m.session_epoch)
      ∷ ("gas_limit", number m.gas_limit)
      ∷ ("max_fee_per_gas", text (to_decimal m.max_fee_per_gas))
      ∷ ("max_priority_fee_per_gas", text (to_decimal m.max_priority_fee_per_gas))
      ∷ ("required_claim", text (T.hex_encode m.required_claim))
      ∷ ("claim_proof_hash", text (T.hex_encode m.claim_proof_hash))
      ∷ ("paymaster_mode", number m.paymaster_mode)
      ∷ ("paymaster", text (T.hex_encode m.paymaster))
      ∷ []

  unfoldable pub create_intent_wasm :
      (target_contract function_sig recipient asset_address call_data_hash_hex max_value : String)
      → (expiration chain_id nonce session_epoch gas_limit : ℕ)
      → (max_fee_per_gas max_priority_fee_per_gas required_claim_hex claim_proof_hash_hex : String)
      → (paymaster_mode : ℕ) → (paymaster_hex : String) → Result String
  create_intent_wasm target_contract function_sig recipient asset_address call_data_hash_hex
        max_value expiration chain_id nonce session_epoch gas_limit max_fee_per_gas
        max_priority_fee_per_gas required_claim_hex claim_proof_hash_hex paymaster_mode
        paymaster_hex =
      do
        intent ←
            parse_intent target_contract function_sig recipient asset_address call_data_hash_hex
              max_value expiration chain_id nonce session_epoch gas_limit max_fee_per_gas
              max_priority_fee_per_gas required_claim_hex claim_proof_hash_hex paymaster_mode
              paymaster_hex
        map_err "serialization failed: " (T.to_string (intent_json intent))

  unfoldable compute_call_hash_wasm : Crypto → String → Result String
  compute_call_hash_wasm C call_data_hex = do
    bytes ← map_err "invalid hex: " (T.hex_decode call_data_hex)
    ok (T.hex_encode (call_data_hash C bytes))

  -- The certificate, the contract and the private key that a call names.
  unfoldable pub parse_session :
      (session_addr parent_addr scope target max_value : String)
      → (expiration chain_id : ℕ) → (verifying_contract action_privkey_hex : String)
      → Result (SessionCertificate × Bytes × Bytes)
  parse_session session_addr parent_addr scope target max_value expiration chain_id
        verifying_contract action_privkey_hex =
      do
        session ← hex_to_array 20 session_addr
        parent ← hex_to_array 20 parent_addr
        scope_bytes ← hex_to_array 4 scope
        target_bytes ← hex_to_array 20 target
        contract ← hex_to_array 20 verifying_contract
        privkey ← hex_to_array 32 action_privkey_hex
        max_val ← map_err "invalid max_value: " (T.parse_u128 max_value)
        ok (
          record {
            session = session;
            parent = parent;
            scope = scope_bytes;
            target = target_bytes;
            max_value = max_val;
            expiration = expiration;
            chain_id = chain_id;
          },
          contract,
          privkey,
        )

  pub signed_json : Option SignedSession → Option (Result String)
  signed_json none = none
  signed_json (some signed) = some (
      map_err "serialization failed: " (
        T.to_string (
          ("v", number signed.v)
          ∷ ("r", text (T.hex_encode signed.r))
          ∷ ("s", text (T.hex_encode signed.s))
          ∷ [])))

  pub sign_parsed :
      Crypto → Build → Result (SessionCertificate × Bytes × Bytes) → Option (Result String)
  sign_parsed C build (err e) = some (err e)
  sign_parsed C build (ok (cert, contract, privkey)) =
      signed_json (sign_session_cert C build cert contract privkey)

  -- A panic of the signing is `none`.
  unfoldable pub sign_session_cert_wasm :
      Crypto
      → Build
      → (session_addr parent_addr scope target max_value : String) → (expiration chain_id : ℕ)
      → (verifying_contract action_privkey_hex : String) → Option (Result String)
  unfolding sign_parsed signed_json
  sign_session_cert_wasm C build session_addr parent_addr scope target max_value expiration chain_id
        verifying_contract action_privkey_hex =
      sign_parsed C build (
        parse_session session_addr parent_addr scope target max_value expiration chain_id
          verifying_contract action_privkey_hex)
