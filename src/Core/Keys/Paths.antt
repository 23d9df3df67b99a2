-- ===== src/Core/Keys/Paths.antt =====
-- Distinct roles and indices have distinct derivation paths (src/core/mod.rs).
use huntkey.Prelude.{
  ℕ, ◌≡◌, refl, ap, sym, ◌∙◌, List, [], ◌∷◌, ◌++◌, IsU32, arith, append_inj, ◌↔◌, ◌⊎◌, inl, inr,
  some, ◌<◌,
}
use mathlib.Core.Path.{ap₂}
use huntkey.Crypto.{Crypto}
use huntkey.Prelude.Decimal.{codes, codes-append, to_decimal, codes-to_decimal_inj}
use huntkey.Core.Keys.{KeyRole, root_identity, action, proof, recovery, segment, role_path}

-- The code points behind `m/999'/`.
path_codes : KeyRole → ℕ → List ℕ
path_codes root_identity index = b'0' ∷ b'\'' ∷ []
path_codes action index = b'1' ∷ b'\'' ∷ b'/' ∷ codes (to_decimal index)
path_codes proof index = b'2' ∷ b'\'' ∷ b'/' ∷ codes (to_decimal index)
path_codes recovery index = b'3' ∷ b'\'' ∷ b'/' ∷ codes (to_decimal index)

codes-role_path :
    (role : KeyRole) (index : ℕ)
    → codes (role_path role index) ≡ codes "m/999'/" ++ path_codes role index
unfolding role_path segment path_codes
codes-role_path root_identity index = rw codes-append
codes-role_path action index = simp codes-append
codes-role_path proof index = simp codes-append
codes-role_path recovery index = simp codes-append

-- The same role and, unless it is the root identity, the same index.
abbrev pub SameKey : KeyRole → ℕ → KeyRole → ℕ → Type 0
SameKey role index role' index' = (role ≡ role') × ((role ≡ root_identity) ⊎ (index ≡ index'))

path_codes_inj :
    (role : KeyRole) (index : ℕ) (role' : KeyRole) (index' : ℕ)
    → IsU32 index
    → IsU32 index'
    → path_codes role index ≡ path_codes role' index'
    → SameKey role index role' index'
unfolding path_codes
path_codes_inj root_identity n root_identity n' h h' e = (refl, inl refl)
path_codes_inj action n action n' h h' e =
    (refl, inr (codes-to_decimal_inj (omega arith) (omega arith) (cc e)))
path_codes_inj proof n proof n' h h' e =
    (refl, inr (codes-to_decimal_inj (omega arith) (omega arith) (cc e)))
path_codes_inj recovery n recovery n' h h' e =
    (refl, inr (codes-to_decimal_inj (omega arith) (omega arith) (cc e)))
path_codes_inj _ n _ n' h h' e = absurd (ground arith)

-- With 32-bit indices, two keys of the hierarchy share a derivation path exactly if they have the
-- same role and, unless that is the root identity, the same index.
pub role_path_iff :
    (role : KeyRole) (index : ℕ) (role' : KeyRole) (index' : ℕ)
    → IsU32 index
    → IsU32 index'
    → (role_path role index ≡ role_path role' index') ↔ SameKey role index role' index'
role_path_iff role index role' index' h h' = (apart, together)
  where
    apart : role_path role index ≡ role_path role' index' → SameKey role index role' index'
    apart e =
        let same : codes "m/999'/" ++ path_codes role index
            ≡ codes "m/999'/" ++ path_codes role' index' =
          sym (codes-role_path role index) ∙ ap codes e ∙ codes-role_path role' index' in
        path_codes_inj role index role' index' h h'
          (append_inj (codes "m/999'/") (codes "m/999'/") _ _ refl same).1

    together : SameKey role index role' index' → role_path role index ≡ role_path role' index'
    together (same, inl root) = rw (← same, root) (unfold role_path in refl)
    together (same, inr e) = ap₂ role_path same e

-- The first three keys of each role derive from a root; `key` are the extended keys.
pub record Derives (C : Crypto) (root : C.XPriv) : Type 0 where
  pub key : KeyRole → ℕ → C.XPriv
  pub found :
      (role : KeyRole) (index : ℕ)
      → index < 3
      → C.derive_path root (role_path role index) ≡ some (key role index)
