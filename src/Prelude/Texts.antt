-- ===== src/Prelude/Texts.antt =====
-- Printed text that ends at a character which does not occur in it.
use text.Mathlib.TextLemmas
use Prim.Native.Nat.{ℕ}
use Prim.Native.Char.{Char, code}
use Prim.Native.String.{String, ◌++◌ as ◌<>◌}
use mathlib.Core.Path.{◌≡◌, refl, ap, sym, ◌∙◌}
use mathlib.Core.Logic.{◌≢◌}
use mathlib.Core.Bool.{Bool, true, ◌&&◌, not}
use native.Mathlib.Omega.{arith}
use huntkey.Prelude.Tests.{◌==◌}

-- A character of the text has not the given code.
abbrev pub Free : ℕ → String → Type 0
Free c String.[] = Unit
Free c (String.◌∷◌ x s) = (code x ≢ c) × Free c s

pub Free-append : (c : ℕ) (s t : String) → Free c s → Free c t → Free c (s <> t)
Free-append c String.[] t h k = rw TextLemmas.nil-append k
Free-append c (String.◌∷◌ x s) t (ne, h) k = rw TextLemmas.cons-append (ne, Free-append c s t h k)

-- The test for it.
abbrev pub lacks : ℕ → String → Bool
lacks c String.[] = true
lacks c (String.◌∷◌ x s) = not (code x == c) && lacks c s

pub lacks-Free : (c : ℕ) (s : String) → lacks c s ≡ true → Free c s
lacks-Free c String.[] h = tt
lacks-Free c (String.◌∷◌ x s) h = (λ e. ground arith, lacks-Free c s (ground arith))

-- Texts that begin with different characters differ.
pub differ :
    (d e : Char) (s t x y : String)
    → code d ≢ code e
    → (String.◌∷◌ d s) <> x ≡ (String.◌∷◌ e t) <> y
    → ⊥
differ d e s t x y ne same = ne (
    ap code (
      TextLemmas.head-eq_of_cons-eq
        (sym (TextLemmas.cons-append d s x) ∙ same ∙ TextLemmas.cons-append e t y)))

-- Two equal texts are equal part by part, when each is cut at its first separator.
pub split :
    (d : Char) (s a b x y : String)
    → Free (code d) a
    → Free (code d) b
    → a <> ((String.◌∷◌ d s) <> x) ≡ b <> ((String.◌∷◌ d s) <> y)
    → (a ≡ b) × (x ≡ y)
split d s String.[] String.[] x y h k e = (
  refl,
  TextLemmas.append_cancel_left (String.◌∷◌ d s) x y (TextLemmas.append_cancel_left "" _ _ e),
)
split d s String.[] (String.◌∷◌ c b) x y h (ne, k) e =
    absurd (differ c d b s _ x ne (sym e ∙ TextLemmas.nil-append _))
split d s (String.◌∷◌ c a) String.[] x y (ne, h) k e =
    absurd (differ c d a s _ y ne (e ∙ TextLemmas.nil-append _))
split d s (String.◌∷◌ c a) (String.◌∷◌ c' b) x y (ne, h) (ne', k) e =
    let same = sym (TextLemmas.cons-append c a _) ∙ e ∙ TextLemmas.cons-append c' b _ in
    let (fronts, rests) = split d s a b x y h k (TextLemmas.tail-eq_of_cons-eq same) in
    (λ i. String.◌∷◌ (TextLemmas.head-eq_of_cons-eq same i) (fronts i), rests)
