-- ===== src/Eip712/Encoding.antt =====
-- The words of src/core/mod.rs are the encodings of EIP-712.
use huntkey.Prelude.{
  ℕ, ◌≡◌, ◌∙◌, ◌%◌, refl, sym, ap, String, List, [], ◌∷◌, ◌++◌, append-nil, IsU8, IsU64, IsU128,
  arith,
}
use huntkey.Prelude.Bytes.{Bytes, zeros, to_be_bytes}
use huntkey.Prelude.Decimal.{codes}
use huntkey.Core.Words.Laws.{u64_word, u128_word, to_be_bytes-widen}
use huntkey.Core.Words.Buffer.{concat_words}
use huntkey.Intents.Intent.Preimage.{mode_word}
use huntkey.Eip712.{Struct, encode_type, Value, encode_value, encode_data}

pub u64_word-uint : (v : ℕ) → IsU64 v → u64_word v ≡ to_be_bytes 32 v
u64_word-uint v h = to_be_bytes-widen 24 8 v h

pub u128_word-uint : (v : ℕ) → IsU128 v → u128_word v ≡ to_be_bytes 32 v
u128_word-uint v h = to_be_bytes-widen 16 16 v h

pub mode_word-uint : (v : ℕ) → IsU8 v → mode_word v ≡ to_be_bytes 32 v
unfolding to_be_bytes
mode_word-uint v h =
    ap (λ (b : ℕ). zeros 31 ++ b ∷ []) {x = v} {y = v % 256} (omega arith)
    ∙ to_be_bytes-widen 31 1 v h

pub bytes32 : (b : Bytes) → b ≡ b ++ zeros 0
bytes32 b = sym (append-nil b)

-- Each word is its member's encoding.
abbrev pub AreEncoded : (Bytes → Bytes) → List Bytes → List (String × Value) → Type 0
AreEncoded keccak [] [] = Unit
AreEncoded keccak [] (m ∷ ms) = ⊥
AreEncoded keccak (w ∷ ws) [] = ⊥
AreEncoded keccak (w ∷ ws) ((name, value) ∷ ms) =
    (w ≡ encode_value keccak value) × AreEncoded keccak ws ms

concat_words-encode_data :
    (keccak : Bytes → Bytes) (ws : List Bytes) (ms : List (String × Value))
    → AreEncoded keccak ws ms
    → concat_words ws ≡ encode_data keccak ms
concat_words-encode_data keccak [] [] h = refl
concat_words-encode_data keccak [] (m ∷ ms) h = absurd h
concat_words-encode_data keccak (w ∷ ws) [] h = absurd h
concat_words-encode_data keccak (w ∷ ws) ((name, value) ∷ ms) (e, h) =
    rw (e, concat_words-encode_data keccak ws ms h) refl

-- What a struct's hash is the hash of: the type's hash before the encoded members.
abbrev pub struct_preimage : (Bytes → Bytes) → Struct → Bytes
struct_preimage keccak s = keccak (codes (encode_type s)) ++ encode_data keccak s.members

abbrev pub IsEncoded : (Bytes → Bytes) → List Bytes → Struct → Type 0
IsEncoded keccak [] s = ⊥
IsEncoded keccak (w ∷ ws) s = (w ≡ keccak (codes (encode_type s))) × AreEncoded keccak ws s.members

pub concat_words-struct_preimage :
    (keccak : Bytes → Bytes) (ws : List Bytes) (s : Struct)
    → IsEncoded keccak ws s
    → concat_words ws ≡ struct_preimage keccak s
concat_words-struct_preimage keccak [] s h = absurd h
concat_words-struct_preimage keccak (w ∷ ws) s (e, h) =
    rw (e, concat_words-encode_data keccak ws s.members h) refl
