-- ===== src/Prelude/Bytes.antt =====
-- Byte strings, big-endian integers, and copies into a slice.
use huntkey.Prelude.Lists.{
  length, take, drop, replicate, length-append, take-replicate, drop-replicate, length-replicate,
  length-drop, drop_of_length-le, take-length_append,
}
use Prim.Native.Nat.{ℕ, zero, suc, ◌+◌, ◌-◌, ◌*◌, ◌/◌, ◌%◌, ◌^◌, ◌≤◌, ◌<◌}
use mathlib.Core.Path.{◌≡◌, refl, ap, sym, ◌∙◌}
use mathlib.Core.List.{List, [], ◌∷◌, ◌++◌, append-nil}
use mathlib.Core.Bool.{Bool, true, false, ◌&&◌}
use mathlib.Core.Logic.{◌↔◌, ◌≢◌}
use huntkey.Prelude.Tests.{◌==◌}
use native.Mathlib.Decide.{ℕ_discrete}
use native.Mathlib.Nat.{pow-suc}
use native.Mathlib.Omega.{arith}

abbrev pub Bytes : Type 0
Bytes = List ℕ

-- A `[u8; n]`.
abbrev pub IsArray : ℕ → Bytes → Type 0
IsArray n bytes = length bytes ≡ n

pub Bytes-discrete : Discrete Bytes
Bytes-discrete = hlevel ℕ_discrete

-- `==` of byte arrays.
abbrev pub bytes_eq : Bytes → Bytes → Bool
bytes_eq [] [] = true
bytes_eq [] (b ∷ bs) = false
bytes_eq (a ∷ as') [] = false
bytes_eq (a ∷ as') (b ∷ bs) = a == b && bytes_eq as' bs

pub bytes_eq_iff : (a b : Bytes) → (bytes_eq a b ≡ true) ↔ (a ≡ b)
bytes_eq_iff [] [] = (λ _. refl, λ _. refl)
bytes_eq_iff [] (b ∷ bs) = ground arith
bytes_eq_iff (a ∷ as') [] = ground arith
bytes_eq_iff (a ∷ as') (b ∷ bs) = ground (arith, bytes_eq_iff as' bs)

pub bytes_eq-false_iff : (a b : Bytes) → (bytes_eq a b ≡ false) ↔ (a ≢ b)
bytes_eq-false_iff a b = ground (arith, bytes_eq_iff a b)

abbrev pub zeros : ℕ → Bytes
zeros n = replicate n 0

-- `to_be_bytes` of an integer of `n` bytes.
unfoldable pub to_be_bytes : ℕ → ℕ → Bytes
to_be_bytes zero v = []
to_be_bytes (suc n) v = to_be_bytes n (v / 256) ++ (v % 256) ∷ []

-- `word[start..start + data.len()].copy_from_slice(data)`, in range.
unfoldable pub copy_at : ℕ → Bytes → Bytes → Bytes
copy_at start bytes word = take start word ++ (bytes ++ drop (start + length bytes) word)

pub length-to_be_bytes : (n v : ℕ) → length (to_be_bytes n v) ≡ n
unfolding to_be_bytes
length-to_be_bytes zero v = refl
length-to_be_bytes (suc n) v = omega (
  arith,
  length-append (to_be_bytes n (v / 256)) ((v % 256) ∷ []),
  length-to_be_bytes n (v / 256),
)

-- What big-endian bytes stand for, behind a number read so far.
be_value_from : ℕ → Bytes → ℕ
be_value_from acc [] = acc
be_value_from acc (b ∷ bytes) = be_value_from (acc * 256 + b) bytes

unfoldable pub be_value : Bytes → ℕ
unfolding be_value_from
be_value bytes = be_value_from 0 bytes

be_value_from-concat :
    (acc : ℕ) (bytes : Bytes) (b : ℕ)
    → be_value_from acc (bytes ++ b ∷ []) ≡ be_value_from acc bytes * 256 + b
unfolding be_value_from
be_value_from-concat acc [] b = refl
be_value_from-concat acc (x ∷ bytes) b = be_value_from-concat (acc * 256 + x) bytes b

pub be_value-to_be_bytes : (n v : ℕ) → v < 256 ^ n → be_value (to_be_bytes n v) ≡ v
unfolding to_be_bytes be_value
be_value-to_be_bytes zero v h = omega arith
be_value-to_be_bytes (suc n) v h = omega (
  arith,
  pow-suc 256 n,
  be_value_from-concat 0 (to_be_bytes n (v / 256)) (v % 256),
  be_value-to_be_bytes n (v / 256),
)

-- An integer of `n` bytes is determined by its bytes.
pub to_be_bytes_inj :
    (n : ℕ) {v v' : ℕ} → v < 256 ^ n → v' < 256 ^ n → to_be_bytes n v ≡ to_be_bytes n v' → v ≡ v'
to_be_bytes_inj n {v} {v'} h h' e =
    sym (be_value-to_be_bytes n v h) ∙ ap be_value e ∙ be_value-to_be_bytes n v' h'

-- A copy into an array of zeros.
pub copy_at-zeros :
    (start k : ℕ) (bytes : Bytes)
    → start ≤ k
    → copy_at start bytes (zeros k) ≡ zeros start ++ (bytes ++ zeros (k - (start + length bytes)))
unfolding copy_at
copy_at-zeros start k bytes h =
    rw (take-replicate {A = ℕ} start k 0 h, drop-replicate {A = ℕ} (start + length bytes) k 0)

-- Two copies side by side fill an array.
pub copy_at-pair :
    (n : ℕ) (a b : Bytes)
    → IsArray n a
    → IsArray n b
    → copy_at n b (copy_at 0 a (zeros (n + n))) ≡ a ++ b
unfolding copy_at
copy_at-pair n a b ha hb =
    let rest = drop (0 + n) (zeros (n + n)) in
    let width : length rest ≤ n =
      omega (arith, length-drop (0 + n) (zeros (n + n)), length-replicate {A = ℕ} (n + n) 0) in
    let total : length (a ++ rest) ≤ n + n = omega (arith, length-append a rest) in
    rw (ha, hb)
      (rw (take-length_append n a rest ha, drop_of_length-le (n + n) (a ++ rest) total, append-nil))

be_value_from-zeros :
    (k : ℕ) (bytes : Bytes) → be_value_from 0 (zeros k ++ bytes) ≡ be_value_from 0 bytes
unfolding be_value_from
be_value_from-zeros zero bytes = refl
be_value_from-zeros (suc k) bytes = be_value_from-zeros k bytes

-- Leading zeros do not count.
pub be_value-zeros : (k : ℕ) (bytes : Bytes) → be_value (zeros k ++ bytes) ≡ be_value bytes
unfolding be_value
be_value-zeros = be_value_from-zeros
