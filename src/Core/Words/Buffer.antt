-- ===== src/Core/Words/Buffer.antt =====
-- A buffer that is filled word by word holds its words, and determines them.
use huntkey.Prelude.{
  ◌≡◌, refl, Option, some, List, [], ◌∷◌, ◌++◌, arith, length, length-append, append_inj, ◌*◌, ◌∙◌,
  sym,
}
use huntkey.Prelude.Bytes.{Bytes}
use huntkey.Core.Words.{extend_all}
use huntkey.Core.Words.Laws.{IsWord}

abbrev pub concat_words : List Bytes → Bytes
concat_words [] = []
concat_words (w ∷ ws) = w ++ concat_words ws

-- A proof for each word in turn.
infixr 6 ◌⊳◌
abbrev pub ◌⊳◌ : {P Q : Type 0} → P → Q → P × Q
p ⊳ q = (p, q)

-- The steps yield the words one for one, and each is a whole word.
abbrev pub Yields : List (Option Bytes) → List Bytes → Type 0
Yields [] [] = Unit
Yields [] (w ∷ ws) = ⊥
Yields (o ∷ os) [] = ⊥
Yields (o ∷ os) (w ∷ ws) = (o ≡ some w) × Yields os ws

abbrev pub AreWords : List Bytes → Type 0
AreWords [] = Unit
AreWords (w ∷ ws) = IsWord w × AreWords ws

pub extend_all_lem :
    (os : List (Option Bytes)) (ws : List Bytes)
    → Yields os ws
    → extend_all os ≡ some (concat_words ws)
unfolding extend_all
extend_all_lem [] [] h = refl
extend_all_lem [] (w ∷ ws) h = absurd h
extend_all_lem (o ∷ os) [] h = absurd h
extend_all_lem (o ∷ os) (w ∷ ws) (e, h) = rw (e, extend_all_lem os ws h)

abbrev pub Pointwise : List Bytes → List Bytes → Type 0
Pointwise [] [] = Unit
Pointwise [] (v ∷ vs) = ⊥
Pointwise (w ∷ ws) [] = ⊥
Pointwise (w ∷ ws) (v ∷ vs) = (w ≡ v) × Pointwise ws vs

pub concat_words_inj :
    (ws vs : List Bytes)
    → AreWords ws
    → AreWords vs
    → length ws ≡ length vs
    → concat_words ws ≡ concat_words vs
    → Pointwise ws vs
concat_words_inj [] [] a b n e = tt
concat_words_inj [] (v ∷ vs) a b n e = absurd (omega arith)
concat_words_inj (w ∷ ws) [] a b n e = absurd (omega arith)
concat_words_inj (w ∷ ws) (v ∷ vs) (a, as') (b, bs) n e =
    let (p, q) = append_inj w v (concat_words ws) (concat_words vs) (a ∙ sym b) e in
    (p, concat_words_inj ws vs as' bs (omega arith) q)

pub length-concat_words :
    (ws : List Bytes) → AreWords ws → length (concat_words ws) ≡ 32 * length ws
length-concat_words [] h = refl
length-concat_words (w ∷ ws) (h, hs) =
    omega (arith, length-append w (concat_words ws), length-concat_words ws hs)
