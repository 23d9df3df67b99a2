-- ===== src/Prelude/Decimal.antt =====
-- Decimal text, as `Display` prints an unsigned integer.
use Prim.Native.Nat.{ℕ, zero, suc, ◌+◌, ◌-◌, ◌*◌, ◌/◌, ◌%◌, ◌^◌, ◌<◌}
use Prim.Native.Char.{code}
use Prim.Native.String.{String, ◌++◌ as ◌<>◌}
use mathlib.Core.Path.{◌≡◌, refl, ap, sym, ◌∙◌}
use mathlib.Core.List.{List, [], ◌∷◌, ◌++◌}
use native.Mathlib.Nat.{pow-suc}
use native.Mathlib.Omega.{arith}
use text.Mathlib.TextLemmas.{nil-append, cons-append}
use huntkey.Prelude.Tests.{ltb, if◌then◌else◌, Bool-cases}
use huntkey.Prelude.Machine.{IsU128}
use huntkey.Prelude.Texts.{Free, Free-append}
use mathlib.Core.Logic.{inl, inr}

-- The code points of a text.
abbrev pub codes : String → List ℕ
codes String.[] = []
codes (String.◌∷◌ c s) = code c ∷ codes s

pub codes-append : (s t : String) → codes (s <> t) ≡ codes s ++ codes t
codes-append String.[] t = rw nil-append
codes-append (String.◌∷◌ c s) t = rw cons-append (ap (λ l. code c ∷ l) (codes-append s t))

digit : ℕ → String
digit zero = "0"
digit (suc zero) = "1"
digit (suc (suc zero)) = "2"
digit (suc (suc (suc zero))) = "3"
digit (suc (suc (suc (suc zero)))) = "4"
digit (suc (suc (suc (suc (suc zero))))) = "5"
digit (suc (suc (suc (suc (suc (suc zero)))))) = "6"
digit (suc (suc (suc (suc (suc (suc (suc zero))))))) = "7"
digit (suc (suc (suc (suc (suc (suc (suc (suc zero)))))))) = "8"
digit _ = "9"

codes-digit : (n : ℕ) → n < 10 → codes (digit n) ≡ (b'0' + n) ∷ []
unfolding digit
codes-digit zero h = refl
codes-digit (suc zero) h = refl
codes-digit (suc (suc zero)) h = refl
codes-digit (suc (suc (suc zero))) h = refl
codes-digit (suc (suc (suc (suc zero)))) h = refl
codes-digit (suc (suc (suc (suc (suc zero))))) h = refl
codes-digit (suc (suc (suc (suc (suc (suc zero)))))) h = refl
codes-digit (suc (suc (suc (suc (suc (suc (suc zero))))))) h = refl
codes-digit (suc (suc (suc (suc (suc (suc (suc (suc zero)))))))) h = refl
codes-digit (suc (suc (suc (suc (suc (suc (suc (suc (suc zero))))))))) h = refl
codes-digit (suc (suc (suc (suc (suc (suc (suc (suc (suc (suc n)))))))))) h = absurd (omega arith)

-- `n` in at most `fuel` digits, the last digit split off in each round.
digits : ℕ → ℕ → String
unfolding digit
digits zero n = ""
digits (suc fuel) n =
    let front = digits fuel (n / 10) in if ltb n 10 then digit n else front <> digit (n % 10)

-- The widest integers of the program, of 128 bits, have 39 digits.
unfoldable pub to_decimal : ℕ → String
unfolding digits
to_decimal n = digits 39 n

-- The number that decimal digits spell, behind a number read so far.
value_from : ℕ → List ℕ → ℕ
value_from acc [] = acc
value_from acc (c ∷ cs) = value_from (acc * 10 + (c - b'0')) cs

value_from-append :
    (acc : ℕ) (cs ds : List ℕ) → value_from acc (cs ++ ds) ≡ value_from (value_from acc cs) ds
unfolding value_from
value_from-append acc [] ds = refl
value_from-append acc (c ∷ cs) ds = value_from-append (acc * 10 + (c - b'0')) cs ds

value_from-digits : (fuel n : ℕ) → n < 10 ^ fuel → value_from 0 (codes (digits fuel n)) ≡ n
unfolding digits value_from
value_from-digits zero n h = omega arith
value_from-digits (suc fuel) n h = elim (Bool-cases (ltb n 10)) [
  | inl small ↦ rw small (rw (codes-digit n (ground arith)) (omega arith))
  | inr large ↦ rw large (
      rw
        (
          codes-append,
          value_from-append,
          codes-digit (n % 10) (omega arith),
          value_from-digits fuel (n / 10) (omega (arith, pow-suc 10 fuel)),
        )
        (omega arith))
]

-- The text of a number that fits 128 bits determines it.
pub codes-to_decimal_inj :
    {m n : ℕ} → IsU128 m → IsU128 n → codes (to_decimal m) ≡ codes (to_decimal n) → m ≡ n
unfolding to_decimal
codes-to_decimal_inj {m} {n} hm hn e =
    sym (value_from-digits 39 m (omega arith))
    ∙ ap (value_from 0) e
    ∙ value_from-digits 39 n (omega arith)

digit-Free : (c n : ℕ) → c < b'0' → Free c (digit n)
unfolding digit
digit-Free c zero h = ((λ e. absurd (omega arith)), tt)
digit-Free c (suc zero) h = ((λ e. absurd (omega arith)), tt)
digit-Free c (suc (suc zero)) h = ((λ e. absurd (omega arith)), tt)
digit-Free c (suc (suc (suc zero))) h = ((λ e. absurd (omega arith)), tt)
digit-Free c (suc (suc (suc (suc zero)))) h = ((λ e. absurd (omega arith)), tt)
digit-Free c (suc (suc (suc (suc (suc zero))))) h = ((λ e. absurd (omega arith)), tt)
digit-Free c (suc (suc (suc (suc (suc (suc zero)))))) h = ((λ e. absurd (omega arith)), tt)
digit-Free c (suc (suc (suc (suc (suc (suc (suc zero))))))) h = ((λ e. absurd (omega arith)), tt)
digit-Free c (suc (suc (suc (suc (suc (suc (suc (suc zero)))))))) h =
    ((λ e. absurd (omega arith)), tt)
digit-Free c (suc (suc (suc (suc (suc (suc (suc (suc (suc n))))))))) h =
    ((λ e. absurd (omega arith)), tt)

-- The text of a number has digits only, so no comma for one.
pub to_decimal-Free : (c n : ℕ) → c < b'0' → Free c (to_decimal n)
unfolding to_decimal digits
to_decimal-Free c n h = digits-Free 39 n
  where
    digits-Free : (fuel n : ℕ) → Free c (digits fuel n)
    digits-Free zero n = tt
    digits-Free (suc fuel) n = elim (Bool-cases (ltb n 10)) [
      | inl small ↦ rw small (digit-Free c n h)
      | inr large ↦ rw large (
          Free-append c (digits fuel (n / 10)) (digit (n % 10)) (digits-Free fuel (n / 10))
            (digit-Free c (n % 10) h))
    ]

-- The number that a decimal text spells.
pub decimal_value : String → ℕ
decimal_value s = value_from 0 (codes s)

pub decimal_value-to_decimal : {n : ℕ} → IsU128 n → decimal_value (to_decimal n) ≡ n
unfolding decimal_value to_decimal
decimal_value-to_decimal {n} h = value_from-digits 39 n (omega arith)

to_decimal_test : codes (to_decimal 18446744073709551615) ≡ codes "18446744073709551615"
unfolding to_decimal digit
to_decimal_test = refl
