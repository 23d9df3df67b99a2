-- ===== src/Crypto/Toy.antt =====
-- A concrete value of the crates' interface, with no security at all: it shows that the documented
-- behaviour can be met, and runs in tests. The first byte of a key or a signature is the key.
use huntkey.Prelude.{
  ℕ, zero, suc, ◌+◌, ◌*◌, Bool, false, true, Option, none, some, [], ◌∷◌, ◌++◌, ◌≡◌, refl, arith,
  ◌==◌, ◌||◌, length, if◌then◌else◌, ◌≤◌,
}
use mathlib.Core.List.{foldl}
use huntkey.Prelude.Bytes.{Bytes, zeros, to_be_bytes, length-to_be_bytes}
use huntkey.Prelude.Decimal.{codes}
use huntkey.Crypto.{Crypto, IsHash, IsEcdsa}

abbrev pub digest_of : Bytes → ℕ
digest_of = foldl (λ a b. a * 257 + (b + 1)) 0

abbrev first_of : ℕ → Bytes → Option ℕ
first_of n [] = none
first_of n (b ∷ bs) = if suc (length bs) == n then some b else none

abbrev byte_of : Bool → ℕ
byte_of false = 0
byte_of true = 1

abbrev id_of : ℕ → Option Bool
id_of zero = some false
id_of (suc zero) = some true
id_of _ = none

abbrev pub toy : Crypto
toy = record {
  keccak_v256 = λ m. to_be_bytes 32 (digest_of m);
  SigningKey = ℕ;
  VerifyingKey = ℕ;
  Signature = ℕ;
  RecoveryId = Bool;
  signing_key = first_of 32;
  key_bytes = λ k. k ∷ zeros 31;
  verifying_key = λ k. k;
  encoded_point = λ k. 4 ∷ to_be_bytes 64 k;
  sec1_bytes = λ k. 2 ∷ to_be_bytes 32 k;
  sign_prehash_recoverable = λ k hash. some (k, true);
  signature = first_of 64;
  signature_bytes = λ s. s ∷ zeros 63;
  recovery_id = id_of;
  recovery_byte = byte_of;
  recover_from_prehash = λ hash s r. some s;
  hkdf_sha256 = λ salt ikm info n. some (to_be_bytes n (digest_of (salt ++ (ikm ++ info))));
  XPriv = ℕ;
  root_from_seed = λ seed. some (digest_of seed);
  derive_path = λ root path. some (root + digest_of (codes path));
  xpriv_key = λ k. k;
  Mnemonic = Bytes;
  generate = λ entropy n. if n == 12 || n == 24 then some entropy else none;
  to_seed = λ mnemonic password. mnemonic ++ codes password;
}

recovery_byte-le : (r : Bool) → byte_of r ≤ 3
recovery_byte-le false = omega arith
recovery_byte-le true = omega arith

recovery_id-recovery_byte : (r : Bool) → id_of (byte_of r) ≡ some r
recovery_id-recovery_byte false = refl
recovery_id-recovery_byte true = refl

recovery_id_large : (b : ℕ) → 4 ≤ b → id_of b ≡ none
recovery_id_large zero h = absurd (omega arith)
recovery_id_large (suc zero) h = absurd (omega arith)
recovery_id_large (suc (suc b)) h = refl

pub toy-IsHash : IsHash toy
toy-IsHash = record { length-keccak = λ m. length-to_be_bytes 32 (digest_of m) }

pub toy-IsEcdsa : IsEcdsa toy
toy-IsEcdsa = record {
  length-key_bytes = λ k. refl;
  length-signature_bytes = λ s. refl;
  signature-signature_bytes = λ s. refl;
  recovery_byte-le = recovery_byte-le;
  recovery_id-recovery_byte = recovery_id-recovery_byte;
  recovery_id_large = recovery_id_large;
  signing_key-key_bytes = λ k. refl;
  signs = λ k hash h. (k, true, refl);
  recover-sign = λ k hash s r e. ground arith;
}
