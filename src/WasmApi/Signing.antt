-- ===== src/WasmApi/Signing.antt =====
-- `sign_session_cert_wasm` of src/wasm_api/mod.rs: what it parses, what it signs, and when it
-- panics.
use huntkey.Prelude.{
  ℕ, ◌≡◌, ◌↔◌, ◌∙◌, refl, sym, ap, false, String, [], ◌∷◌, Option, none, some, Build, IsU64,
}
use mathlib.Core.Path.{subst}
use mathlib.Core.Bool.{true≢false}
use mathlib.Core.Option.{none-ne-some}
use huntkey.Prelude.Bytes.{Bytes, IsArray}
use huntkey.Crypto.{Crypto, IsHash, IsEcdsa}
use huntkey.Core.Keys.{eth_address}
use huntkey.Sessions.{SessionCertificate, SignedSession, sign_session_cert, recover_session_signer}
use huntkey.Sessions.Laws.{IsValid, recover_session_signer-sign_session_cert}
use huntkey.Separation.{session}
use huntkey.Separation.Panics.{returns, signs_panics}
use huntkey.WasmApi.{
  Result, ok, err, map_err, Codecs, text, number, hex_to_array, parse_session, signed_json,
  sign_parsed, sign_session_cert_wasm,
}
use huntkey.WasmApi.Results.{ok_inj, bind_ok, map_err_ok, hex_to_array-IsArray}
use huntkey.WasmApi.RoundTrip.{IsCodec}

unsigned : (T : Codecs) (o : Option SignedSession) → (signed_json T o ≡ none) ↔ (returns o ≡ false)
unfolding signed_json
unsigned T none = (λ e. refl, λ e. refl)
unsigned T (some signed) = (λ e. absurd (none-ne-some _ (sym e)), λ e. absurd (true≢false e))

module _ (T : Codecs) (L : IsCodec T) where
  module _ (session_addr parent_addr scope target max_value : String) (expiration chain_id : ℕ)
      (verifying_contract action_privkey_hex : String) where
    abbrev pub parsed : Result (SessionCertificate × Bytes × Bytes)
    parsed =
        parse_session T session_addr parent_addr scope target max_value expiration chain_id
          verifying_contract action_privkey_hex

    -- What is parsed has the lengths and ranges of the Rust types.
    parse_session-IsValid :
        (cert : SessionCertificate) (contract privkey : Bytes)
        → IsU64 expiration
        → IsU64 chain_id
        → parsed ≡ ok (cert, contract, privkey)
        → IsValid cert × IsArray 20 contract × IsArray 32 privkey
    unfolding parse_session
    parse_session-IsValid cert contract privkey he hc h =
        let (session_bytes, e₁, h₁) = bind_ok (hex_to_array T 20 session_addr) _ h in
        let (parent_bytes, e₂, h₂) = bind_ok (hex_to_array T 20 parent_addr) _ h₁ in
        let (scope_bytes, e₃, h₃) = bind_ok (hex_to_array T 4 scope) _ h₂ in
        let (target_bytes, e₄, h₄) = bind_ok (hex_to_array T 20 target) _ h₃ in
        let (contract_bytes, e₅, h₅) = bind_ok (hex_to_array T 20 verifying_contract) _ h₄ in
        let (key, e₆, h₆) = bind_ok (hex_to_array T 32 action_privkey_hex) _ h₅ in
        let (max_val, e₇, h₇) =
          bind_ok (map_err "invalid max_value: " (T.parse_u128 max_value)) _ h₆ in
        subst (λ r. IsValid r.0 × IsArray 20 r.1 × IsArray 32 r.2) (ok_inj h₇)
          (
            record {
              session = hex_to_array-IsArray T 20 session_addr e₁;
              parent = hex_to_array-IsArray T 20 parent_addr e₂;
              scope = hex_to_array-IsArray T 4 scope e₃;
              target = hex_to_array-IsArray T 20 target e₄;
              max_value =
                  L.parse_u128-IsU128 max_value max_val
                    (map_err_ok "invalid max_value: " (T.parse_u128 max_value) e₇);
              expiration = he;
              chain_id = hc;
            },
            hex_to_array-IsArray T 20 verifying_contract e₅,
            hex_to_array-IsArray T 32 action_privkey_hex e₆,
          )

    module _ (C : Crypto) (H : IsHash C) (build : Build) where
      abbrev pub outcome : Option (Result String)
      outcome =
          sign_session_cert_wasm T C build session_addr parent_addr scope target max_value
            expiration chain_id verifying_contract action_privkey_hex

      -- Given a 64-bit expiration and chain, the call panics exactly if all its arguments are read
      -- without an error and the private key that they give, of 32 bytes, is no valid key.
      pub sign_session_cert_wasm_panics :
          IsEcdsa C
          → IsU64 expiration
          → IsU64 chain_id
          → (outcome ≡ none) ↔ (
              (cert : SessionCertificate) × (contract : Bytes) × (privkey : Bytes) × (parsed
                ≡ ok (cert, contract, privkey))
              × IsArray 32 privkey
              × (C.signing_key privkey ≡ none))
      unfolding sign_session_cert_wasm sign_parsed
      sign_session_cert_wasm_panics E he hc = (
        panics parsed refl,
        λ found.
            let (cert, contract, privkey, h, hk, bad) = found in
            let (valid, contract-IsArray, _) =
              parse_session-IsValid cert contract privkey he hc h in
            ap (sign_parsed T C build) h
            ∙ (unsigned T (sign_session_cert C build cert contract privkey)).1 (
                (signs_panics C H E build (session, cert, contract) privkey
                    (valid, contract-IsArray)).1
                  bad),
      )
        where
          panics :
              (r : Result (SessionCertificate × Bytes × Bytes))
              → parsed ≡ r
              → sign_parsed T C build r ≡ none
              → (cert : SessionCertificate) × (contract : Bytes) × (privkey : Bytes) × (parsed
                  ≡ ok (cert, contract, privkey))
                × IsArray 32 privkey
                × (C.signing_key privkey ≡ none)
          panics (err e) h failed = absurd (none-ne-some _ (sym failed))
          panics (ok (cert, contract, privkey)) h failed =
              let (valid, contract-IsArray, key-IsArray) =
                parse_session-IsValid cert contract privkey he hc h in
              (
                cert,
                contract,
                privkey,
                h,
                key-IsArray,
                (signs_panics C H E build (session, cert, contract) privkey
                      (valid, contract-IsArray)).0
                    ((unsigned T (sign_session_cert C build cert contract privkey)).0 failed),
              )

      -- If the arguments, with a 64-bit expiration and chain, are read as a certificate, a contract
      -- and a valid private key, the call returns the JSON text of a `v`, an `r` and an `s`, or the
      -- error of the serialization, and from these three the session's signer is recovered: the
      -- address of the private key.
      pub sign_session_cert_wasm_lem :
          IsEcdsa C
          → IsU64 expiration
          → IsU64 chain_id
          → (verifier : Build) (cert : SessionCertificate) (contract privkey : Bytes)
            {k : C.SigningKey}
          → parsed ≡ ok (cert, contract, privkey)
          → C.signing_key privkey ≡ some k
          → (v : ℕ) × (r : Bytes) × (s : Bytes) × (outcome
              ≡ some (
                  map_err "serialization failed: " (
                    T.to_string (
                      ("v", number v)
                      ∷ ("r", text (T.hex_encode r))
                      ∷ ("s", text (T.hex_encode s))
                      ∷ []))))
            × (recover_session_signer C verifier cert contract v r s
                ≡ some (eth_address C (C.verifying_key k)))
      unfolding sign_session_cert_wasm sign_parsed signed_json
      sign_session_cert_wasm_lem E he hc verifier cert contract privkey {k} h good =
          let (valid, contract-IsArray, _) = parse_session-IsValid cert contract privkey he hc h in
          let (signed, made, _, _, _, back) =
            recover_session_signer-sign_session_cert C H E build verifier cert contract privkey
              {k = k} valid contract-IsArray good in
          (
            signed.v,
            signed.r,
            signed.s,
            ap (sign_parsed T C build) h ∙ ap (signed_json T) made,
            back,
          )
