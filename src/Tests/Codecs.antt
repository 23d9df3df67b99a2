-- ===== src/Tests/Codecs.antt =====
-- A toy in place of the text formats of src/wasm_api/mod.rs: a JSON object is its number of
-- members.
use Prim.Native.Nat.{ℕ}
use huntkey.Prelude.{
  ltb, IsU128, Bool-cases, inl, inr, ◌^◌, true, zero, suc, ◌≡◌, refl, ap, String, ◌<◌, All, length,
  if◌then◌else◌, arith,
}
use huntkey.Prelude.Bytes.{zeros}
use huntkey.Prelude.Decimal.{to_decimal, decimal_value, decimal_value-to_decimal}
use huntkey.Tests.Hex.{encode, decode_from, decode-encode}
use huntkey.WasmApi.{Result, ok, err, Codecs}
use huntkey.WasmApi.RoundTrip.{IsCodec}
use huntkey.WasmApi.Results.{ok_inj, err-ne-ok}

abbrev pub parse : String → Result ℕ
parse s = if ltb (decimal_value s) (2 ^ 128) then ok (decimal_value s) else err "too large"

pub parse-to_decimal : (n : ℕ) → IsU128 n → parse (to_decimal n) ≡ ok n
parse-to_decimal n h =
    let fits : ltb n (2 ^ 128) ≡ true = ground arith in rw (decimal_value-to_decimal h, fits) refl

parse-IsU128 : (s : String) (n : ℕ) → parse s ≡ ok n → IsU128 n
parse-IsU128 s n h = elim (Bool-cases (ltb (decimal_value s) (2 ^ 128))) [
  | inl fits ↦ let same : decimal_value s ≡ n = ok_inj (rw fits at h) in ground arith
  | inr large ↦ absurd (err-ne-ok (rw large at h))
]

abbrev pub codecs : Codecs
codecs = record {
  hex_encode = encode;
  hex_decode = λ s. ok (decode_from 0 s);
  parse_u128 = parse;
  to_string = λ members. ok (to_decimal (length members));
}

pub codecs-IsCodec : IsCodec codecs
codecs-IsCodec = record {
  hex_decode-hex_encode = λ bytes h. ap ok (decode-encode bytes);
  parse_u128-to_decimal = parse-to_decimal;
  parse_u128-IsU128 = parse-IsU128;
}

pub zeros-All : (n : ℕ) → All (λ b. b < 256) (zeros n)
zeros-All zero = tt
zeros-All (suc n) = (omega arith, zeros-All n)
