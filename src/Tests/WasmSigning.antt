-- ===== src/Tests/WasmSigning.antt =====
-- The signing of src/wasm_api/mod.rs at concrete inputs.
use Prim.Native.Nat.{ℕ}
use huntkey.Prelude.{Option, none, some, debug, release, ◌↔◌, ◌≡◌, refl, String, [], ◌∷◌, arith}
use huntkey.Prelude.Bytes.{Bytes, IsArray, zeros}
use huntkey.Prelude.Decimal.{to_decimal}
use huntkey.Tests.Hex.{encode}
use huntkey.Crypto.Toy.{toy, toy-IsHash, toy-IsEcdsa}
use huntkey.Core.Keys.{eth_address}
use huntkey.Sessions.{SessionCertificate, recover_session_signer}
use huntkey.WasmApi.{Result, ok, text, number, map_err, parse_session, sign_session_cert_wasm}
use huntkey.WasmApi.RoundTrip.{hex_to_array_lem}
use huntkey.WasmApi.Signing.{sign_session_cert_wasm_panics, sign_session_cert_wasm_lem}
use huntkey.Tests.Codecs.{codecs, codecs-IsCodec, parse-to_decimal, zeros-All}

abbrev contract : Bytes
contract = 170 ∷ zeros 19

abbrev private_key : Bytes
private_key = 5 ∷ zeros 31

abbrev certificate : SessionCertificate
certificate = record {
  session = 33 ∷ zeros 19;
  parent = 17 ∷ zeros 19;
  scope = 169 ∷ 5 ∷ 156 ∷ 187 ∷ [];
  target = 187 ∷ zeros 19;
  max_value = 2000000000000000000;
  expiration = 1900000000;
  chain_id = 1;
}

certificate_parsed :
    parse_session codecs
      (encode (33 ∷ zeros 19))
      (encode (17 ∷ zeros 19))
      (encode (169 ∷ 5 ∷ 156 ∷ 187 ∷ []))
      (encode (187 ∷ zeros 19))
      (to_decimal 2000000000000000000)
      1900000000
      1
      (encode contract)
      (encode private_key)
    ≡ ok (certificate, contract, private_key)
unfolding parse_session
certificate_parsed =
    let read = hex_to_array_lem codecs codecs-IsCodec in
    rw (
      read 20 (33 ∷ zeros 19) (omega arith, zeros-All 19) refl,
      read 20 (17 ∷ zeros 19) (omega arith, zeros-All 19) refl,
      read 4 (169 ∷ 5 ∷ 156 ∷ 187 ∷ [])
          (omega arith, (omega arith, (omega arith, (omega arith, tt)))) refl,
      read 20 (187 ∷ zeros 19) (omega arith, zeros-All 19) refl,
      read 20 contract (omega arith, zeros-All 19) refl,
      read 32 private_key (omega arith, zeros-All 31) refl,
      parse-to_decimal 2000000000000000000 (omega arith),
    )

abbrev signing : String → Option (Result String)
signing key =
    sign_session_cert_wasm codecs toy release (encode (33 ∷ zeros 19)) (encode (17 ∷ zeros 19))
      (encode (169 ∷ 5 ∷ 156 ∷ 187 ∷ [])) (encode (187 ∷ zeros 19)) (to_decimal 2000000000000000000)
      1900000000 1 (encode contract) key

sign_session_cert_wasm_panics_example : (signing "10" ≡ none) ↔ (
    (cert : SessionCertificate) × (c : Bytes) × (privkey : Bytes) × (parse_session codecs
        (encode (33 ∷ zeros 19))
        (encode (17 ∷ zeros 19))
        (encode (169 ∷ 5 ∷ 156 ∷ 187 ∷ []))
        (encode (187 ∷ zeros 19))
        (to_decimal 2000000000000000000)
        1900000000
        1
        (encode contract)
        "10"
      ≡ ok (cert, c, privkey))
    × IsArray 32 privkey
    × (toy.signing_key privkey ≡ none))
sign_session_cert_wasm_panics_example =
    sign_session_cert_wasm_panics codecs codecs-IsCodec (encode (33 ∷ zeros 19))
      (encode (17 ∷ zeros 19)) (encode (169 ∷ 5 ∷ 156 ∷ 187 ∷ [])) (encode (187 ∷ zeros 19))
      (to_decimal 2000000000000000000) 1900000000 1 (encode contract) "10" toy toy-IsHash release
      toy-IsEcdsa (omega arith) (omega arith)

sign_session_cert_wasm_lem_example :
    (v : ℕ) × (r : Bytes) × (s : Bytes) × (signing (encode private_key)
      ≡ some (
          map_err "serialization failed: " (
            codecs.to_string
              (("v", number v) ∷ ("r", text (encode r)) ∷ ("s", text (encode s)) ∷ []))))
    × (recover_session_signer toy debug certificate contract v r s ≡ some (eth_address toy 5))
sign_session_cert_wasm_lem_example =
    sign_session_cert_wasm_lem codecs codecs-IsCodec (encode (33 ∷ zeros 19))
      (encode (17 ∷ zeros 19)) (encode (169 ∷ 5 ∷ 156 ∷ 187 ∷ [])) (encode (187 ∷ zeros 19))
      (to_decimal 2000000000000000000) 1900000000 1 (encode contract) (encode private_key) toy
      toy-IsHash release toy-IsEcdsa (omega arith) (omega arith) debug certificate contract
      private_key {k = 5} certificate_parsed refl
