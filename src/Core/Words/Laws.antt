-- ===== src/Core/Words/Laws.antt =====
-- What the words hold, and that a buffer of words determines its words.
use huntkey.Prelude.{
  ℕ, zero, suc, ◌+◌, ◌-◌, ◌/◌, ◌^◌, ◌≤◌, ◌<◌, ◌≡◌, refl, sym, ap, ◌∙◌, some, false, [], ◌∷◌, ◌++◌,
  append-nil, append_assoc, arith, ltb, length, length-append, length-replicate, append_inj, IsU64,
  IsU128,
}
use huntkey.Prelude.Bytes.{
  Bytes, IsArray, zeros, to_be_bytes, length-to_be_bytes, copy_at-zeros, to_be_bytes_inj,
}
use native.Mathlib.Nat.{pow-suc}
use huntkey.Core.Words.{left_pad_32, right_pad_32, u64_to_word, u128_to_word, address_to_word}

left_pad_32_lem :
    (bytes : Bytes)
    → length bytes ≤ 32
    → left_pad_32 bytes ≡ some (zeros (32 - length bytes) ++ bytes)
unfolding left_pad_32
left_pad_32_lem bytes h =
    let fits : ltb 32 (length bytes) ≡ false = ground arith in
    let full : ◌≡◌ {A = ℕ} (32 - (32 - length bytes + length bytes)) 0 = omega arith in
    rw (fits, copy_at-zeros (32 - length bytes) 32 bytes (omega arith), full, append-nil)

right_pad_32_lem :
    (bytes : Bytes)
    → length bytes ≤ 32
    → right_pad_32 bytes ≡ some (bytes ++ zeros (32 - length bytes))
unfolding right_pad_32
right_pad_32_lem bytes h =
    let fits : ltb 32 (length bytes) ≡ false = ground arith in
    let rest : ◌≡◌ {A = ℕ} (32 - (0 + length bytes)) (32 - length bytes) = omega arith in
    rw (fits, copy_at-zeros 0 32 bytes (omega arith), rest)

-- The pure contents of the words.
abbrev pub address_word : Bytes → Bytes
address_word addr = zeros 12 ++ addr

abbrev pub selector_word : Bytes → Bytes
selector_word selector = selector ++ zeros 28

abbrev pub u64_word : ℕ → Bytes
u64_word val = zeros 24 ++ to_be_bytes 8 val

abbrev pub u128_word : ℕ → Bytes
u128_word val = zeros 16 ++ to_be_bytes 16 val

pub address_to_word_lem :
    (addr : Bytes) → IsArray 20 addr → address_to_word addr ≡ some (address_word addr)
unfolding address_to_word
address_to_word_lem addr h = left_pad_32_lem addr (omega arith) ∙ rw h

pub right_pad_32_selector :
    (selector : Bytes) → IsArray 4 selector → right_pad_32 selector ≡ some (selector_word selector)
right_pad_32_selector selector h = right_pad_32_lem selector (omega arith) ∙ rw h

pub u64_to_word_lem : (val : ℕ) → u64_to_word val ≡ some (u64_word val)
unfolding u64_to_word
u64_to_word_lem val =
    let e = length-to_be_bytes 8 val in left_pad_32_lem (to_be_bytes 8 val) (omega arith) ∙ rw e

pub u128_to_word_lem : (val : ℕ) → u128_to_word val ≡ some (u128_word val)
unfolding u128_to_word
u128_to_word_lem val =
    let e = length-to_be_bytes 16 val in left_pad_32_lem (to_be_bytes 16 val) (omega arith) ∙ rw e

-- The independent description: an integer's word is its 32-byte big-endian representation.
to_be_bytes-zero : (n : ℕ) → to_be_bytes n 0 ≡ zeros n
unfolding to_be_bytes
to_be_bytes-zero zero = refl
to_be_bytes-zero (suc n) = rw (to_be_bytes-zero n) (replicate-concat n)
  where
    replicate-concat : (k : ℕ) → zeros k ++ 0 ∷ [] ≡ 0 ∷ zeros k
    replicate-concat zero = refl
    replicate-concat (suc k) = ap (λ l. 0 ∷ l) (replicate-concat k)

pub to_be_bytes-widen :
    (k n v : ℕ) → v < 256 ^ n → zeros k ++ to_be_bytes n v ≡ to_be_bytes (n + k) v
unfolding to_be_bytes
to_be_bytes-widen k zero v h =
    let none_left : v ≡ 0 = omega arith in
    let width : ◌≡◌ {A = ℕ} (0 + k) k = omega arith in
    rw (none_left, width, to_be_bytes-zero k) (append-nil (zeros k))
to_be_bytes-widen k (suc n) v h =
    let width : ◌≡◌ {A = ℕ} (suc n + k) (suc (n + k)) = omega arith in
    let fits : v / 256 < 256 ^ n = omega (arith, pow-suc 256 n) in
    rw (width, ← to_be_bytes-widen k n (v / 256) fits) (sym (append_assoc (zeros k) _ _))

-- A word of a `u64` is the 32-byte big-endian integer that the ABI asks for.
u64_to_word-abi : (val : ℕ) → IsU64 val → u64_to_word val ≡ some (to_be_bytes 32 val)
u64_to_word-abi val h = u64_to_word_lem val ∙ ap some (to_be_bytes-widen 24 8 val h)

abbrev pub IsWord : Bytes → Type 0
IsWord = IsArray 32

left_padded-IsWord :
    (k n : ℕ) (bytes : Bytes) → IsArray n bytes → k + n ≡ 32 → IsWord (zeros k ++ bytes)
left_padded-IsWord k n bytes h e =
    omega (arith, length-append (zeros k) bytes, length-replicate {A = ℕ} k 0)

pub address_word-IsWord : (addr : Bytes) → IsArray 20 addr → IsWord (address_word addr)
address_word-IsWord addr h = left_padded-IsWord 12 20 addr h (omega arith)

pub selector_word-IsWord : (selector : Bytes) → IsArray 4 selector → IsWord (selector_word selector)
selector_word-IsWord selector h =
    omega (arith, length-append selector (zeros 28), length-replicate {A = ℕ} 28 0)

pub u64_word-IsWord : (val : ℕ) → IsWord (u64_word val)
u64_word-IsWord val = left_padded-IsWord 24 8 _ (length-to_be_bytes 8 val) (omega arith)

pub u128_word-IsWord : (val : ℕ) → IsWord (u128_word val)
u128_word-IsWord val = left_padded-IsWord 16 16 _ (length-to_be_bytes 16 val) (omega arith)

-- Each kind of word determines what it holds.
pub address_word_inj : (a b : Bytes) → address_word a ≡ address_word b → a ≡ b
address_word_inj a b e = (append_inj (zeros 12) (zeros 12) a b refl e).1

pub selector_word_inj :
    (a b : Bytes) → IsArray 4 a → IsArray 4 b → selector_word a ≡ selector_word b → a ≡ b
selector_word_inj a b ha hb e = (append_inj a b (zeros 28) (zeros 28) (ha ∙ sym hb) e).0

pub u64_word_inj : {a b : ℕ} → IsU64 a → IsU64 b → u64_word a ≡ u64_word b → a ≡ b
u64_word_inj ha hb e = to_be_bytes_inj 8 ha hb (append_inj (zeros 24) (zeros 24) _ _ refl e).1

pub u128_word_inj : {a b : ℕ} → IsU128 a → IsU128 b → u128_word a ≡ u128_word b → a ≡ b
u128_word_inj ha hb e = to_be_bytes_inj 16 ha hb (append_inj (zeros 16) (zeros 16) _ _ refl e).1
