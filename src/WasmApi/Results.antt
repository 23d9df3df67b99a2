-- ===== src/WasmApi/Results.antt =====
-- The results of src/wasm_api/mod.rs: what an `ok` at the end of a chain of `?` says of its steps.
use huntkey.Prelude.{ℕ, ◌≡◌, ◌∙◌, refl, sym, ap, String, Bool-cases, inl, inr, length, ◌==◌, arith}
use mathlib.Core.Path.{subst}
use huntkey.Prelude.Bytes.{IsArray, Bytes}
use huntkey.WasmApi.{Result, ok, err, ◌>>=◌, map_err, Codecs, hex_to_array}

IsOk : {A : Type 0} → Result A → Type 0
IsOk (ok a) = Unit
IsOk (err e) = ⊥

value_or : {A : Type 0} → A → Result A → A
value_or b (ok a) = a
value_or b (err e) = b

pub ok_inj : {A : Type 0} {a b : A} → ok a ≡ ok b → a ≡ b
unfolding value_or
ok_inj {A} {a} {b} e = ap (value_or a) e

pub err-ne-ok : {A : Type 0} {e : String} {a : A} → err e ≡ ok a → ⊥
unfolding IsOk
err-ne-ok h = subst IsOk (sym h) tt

-- A chain that ends well began well.
pub bind_ok :
    {A B : Type 0} (r : Result A) (f : A → Result B) {b : B}
    → (r >>= f) ≡ ok b
    → (a : A) × (r ≡ ok a) × (f a ≡ ok b)
bind_ok (ok a) f h = (a, refl, h)
bind_ok (err e) f h = absurd (err-ne-ok h)

pub map_err_ok :
    {A : Type 0} (label : String) (r : Result A) {a : A} → map_err label r ≡ ok a → r ≡ ok a
map_err_ok label (ok a) h = h
map_err_ok label (err e) h = absurd (err-ne-ok h)

module _ (T : Codecs) where
  -- Text that is read has the length that the call asks for.
  pub hex_to_array-IsArray :
      (n : ℕ) (s : String) {bytes : Bytes} → hex_to_array T n s ≡ ok bytes → IsArray n bytes
  unfolding hex_to_array
  hex_to_array-IsArray n s h =
      let (bytes, _, checked) = bind_ok (map_err "invalid hex: " (T.hex_decode s)) _ h in
      elim (Bool-cases (length bytes == n)) [
        | inl fits ↦
            let same = ok_inj (rw fits at checked) in ap (λ b. length b) (sym same) ∙ ground arith
        | inr unfit ↦ absurd (err-ne-ok (rw unfit at checked))
      ]
