-- ===== src/Core/Words.antt =====
-- The ABI words of src/core/mod.rs. `none` is the panic of an index out of range.
pub mod Laws
pub mod Buffer
use huntkey.Prelude.{
  ℕ, ◌-◌, Option, none, some, ltb, if◌then◌else◌, length, List, [], ◌∷◌, ◌++◌, ◌>>=◌,
}
use huntkey.Prelude.Bytes.{Bytes, zeros, to_be_bytes, copy_at}

-- With more than 32 bytes `32 - data.len()` overflows, and without overflow checks the range is
-- refused, so both builds panic.
unfoldable pub left_pad_32 : Bytes → Option Bytes
left_pad_32 bytes =
    if ltb 32 (length bytes) then none else some (copy_at (32 - length bytes) bytes (zeros 32))

unfoldable pub right_pad_32 : Bytes → Option Bytes
right_pad_32 bytes = if ltb 32 (length bytes) then none else some (copy_at 0 bytes (zeros 32))

unfoldable pub u64_to_word : ℕ → Option Bytes
u64_to_word val = left_pad_32 (to_be_bytes 8 val)

unfoldable pub u128_to_word : ℕ → Option Bytes
u128_to_word val = left_pad_32 (to_be_bytes 16 val)

unfoldable pub address_to_word : Bytes → Option Bytes
address_to_word addr = left_pad_32 addr

-- `buf.extend_from_slice` of one word after another.
unfoldable pub extend_all : List (Option Bytes) → Option Bytes
extend_all [] = some []
extend_all (word ∷ words) = do w ← word; buf ← extend_all words; some (w ++ buf)
