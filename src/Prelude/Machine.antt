-- ===== src/Prelude/Machine.antt =====
-- Machine words, and the arithmetic that Rust compiles in two ways: with overflow checks (a debug
-- build) an overflow panics, and without them (a release build) it wraps around.
use Prim.Native.Nat.{ℕ, ◌+◌, ◌-◌, ◌%◌, ◌^◌, ◌≤◌, ◌<◌}
use mathlib.Core.Path.{◌≡◌}
use mathlib.Core.Bool.{true, false}
use native.Mathlib.Omega.{arith}
use mathlib.Core.Option.{Option, none, some}
use huntkey.Prelude.Tests.{ltb, if◌then◌else◌}

abbrev pub IsU8 : ℕ → Type 0
IsU8 n = n < 2 ^ 8

abbrev pub IsU32 : ℕ → Type 0
IsU32 n = n < 2 ^ 32

abbrev pub IsU64 : ℕ → Type 0
IsU64 n = n < 2 ^ 64

abbrev pub IsU128 : ℕ → Type 0
IsU128 n = n < 2 ^ 128

-- How the crate was compiled.
pub data Build : Type 0 where
  debug release : Build

-- `a + b` and `a - b` at a width of `w` bits.
abbrev wrapped : Build → ℕ → Option ℕ
wrapped debug n = none
wrapped release n = some n

abbrev pub add_word : Build → ℕ → ℕ → ℕ → Option ℕ
add_word build w a b = if ltb (a + b) (2 ^ w) then some (a + b) else wrapped build ((a + b) % 2 ^ w)

abbrev pub sub_word : Build → ℕ → ℕ → ℕ → Option ℕ
sub_word build w a b = if ltb a b then wrapped build (a + 2 ^ w - b) else some (a - b)

pub add_word_fits :
    (build : Build) (w a b : ℕ) → a + b < 2 ^ w → add_word build w a b ≡ some (a + b)
add_word_fits build w a b h = let fits : ltb (a + b) (2 ^ w) ≡ true = ground arith in rw fits

pub sub_word_fits : (build : Build) (w a b : ℕ) → b ≤ a → sub_word build w a b ≡ some (a - b)
sub_word_fits build w a b h = let fits : ltb a b ≡ false = ground arith in rw fits
