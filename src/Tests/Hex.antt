-- ===== src/Tests/Hex.antt =====
-- A toy in place of `hex::encode`: each byte in unary.
use Prim.Native.Nat.{ℕ}
use Prim.Native.Char.{code}
use huntkey.Prelude.{
  zero, suc, ◌+◌, ◌≡◌, refl, ap, sym, ◌∙◌, String, [], ◌∷◌, ◌==◌, if◌then◌else◌, arith,
}
use huntkey.Prelude.Bytes.{Bytes}
use huntkey.Prelude.Texts.{Free}
use huntkey.Monitor.EventLog.Injective.{IsHex}

unary : ℕ → String → String
unary zero rest = String.◌∷◌ "0" rest
unary (suc n) rest = String.◌∷◌ "1" (unary n rest)

pub encode : Bytes → String
unfolding unary
encode [] = ""
encode (b ∷ bs) = unary b (encode bs)

-- The byte that is being counted, and the rest.
pub decode_from : ℕ → String → Bytes
decode_from n String.[] = []
decode_from n (String.◌∷◌ c s) =
    if code c == b'1' then decode_from (suc n) s else n ∷ decode_from 0 s

decode_from-unary :
    (n b : ℕ) (rest : String) → decode_from n (unary b rest) ≡ (n + b) ∷ decode_from 0 rest
unfolding decode_from unary
decode_from-unary n zero rest =
    ap (λ (m : ℕ). m ∷ decode_from 0 rest) {x = n} {y = n + 0} (omega arith)
decode_from-unary n (suc b) rest =
    decode_from-unary (suc n) b rest
    ∙ ap (λ (m : ℕ). m ∷ decode_from 0 rest) {x = suc n + b} {y = n + suc b} (omega arith)

pub decode-encode : (bs : Bytes) → decode_from 0 (encode bs) ≡ bs
unfolding encode decode_from
decode-encode [] = refl
decode-encode (b ∷ bs) =
    decode_from-unary 0 b (encode bs)
    ∙ rw (decode-encode bs) (ap (λ (m : ℕ). m ∷ bs) {x = 0 + b} {y = b} (omega arith))

unary-Free : (b : ℕ) (rest : String) → Free 34 rest → Free 34 (unary b rest)
unfolding unary
unary-Free zero rest h = (λ e. absurd (omega arith), h)
unary-Free (suc b) rest h = (λ e. absurd (omega arith), unary-Free b rest h)

encode-Free : (bs : Bytes) → Free 34 (encode bs)
unfolding encode
encode-Free [] = tt
encode-Free (b ∷ bs) = unary-Free b (encode bs) (encode-Free bs)

pub encode-IsHex : IsHex encode
encode-IsHex = record {
  hex_inj = λ a b ha hb e. sym (decode-encode a) ∙ ap (decode_from 0) e ∙ decode-encode b;
  hex-Free = λ a h. encode-Free a;
}
