-- ===== src/Demo/Legacy.antt =====
-- The BIP-44 keys that src/main.rs lists before the protocol part.
use text.Mathlib.TextLemmas
use huntkey.Prelude.{
  ℕ, suc, zero, ◌≡◌, ◌≢◌, ◌∙◌, refl, sym, ap, Bool, true, false, Option, none, some, ◌>>=◌, String,
  ◌<>◌, List, [], ◌∷◌, ◌++◌, ◌+◌, ◌<◌, ◌≤◌, map, All, All-append, map-append, if◌then◌else◌, arith,
}
use huntkey.Prelude.Decimal.{to_decimal}
use huntkey.Prelude.Texts.{differ}
use huntkey.Crypto.{Crypto}
use huntkey.Core.Keys.{
  KeyRole, root_identity, action, proof, recovery, role_path, DerivedKey, derive_key, eth_address,
}

pub data Coin : Type 0 where
  bitcoin ethereum : Coin

-- The `format!` of each loop.
pub coin_path : Coin → ℕ → String
coin_path bitcoin i = "m/44'/0'/0'/0/" <> to_decimal i
coin_path ethereum i = "m/44'/60'/0'/0/" <> to_decimal i

-- Only the loop for Ethereum asks for addresses.
abbrev is_eth : Coin → Bool
is_eth bitcoin = false
is_eth ethereum = true

module _ (C : Crypto) (root : C.XPriv) where
  -- The keys of a number of indices from one on.
  coin_keys : Coin → ℕ → ℕ → Option (List DerivedKey)
  coin_keys coin from zero = some []
  coin_keys coin from (suc n) = do
    dk ← derive_key C root (coin_path coin from) (is_eth coin)
    rest ← coin_keys coin (suc from) n
    some (dk ∷ rest)

  -- The two loops over `0..3`.
  pub legacy_keys : Option (List DerivedKey)
  legacy_keys = do
    bitcoin_keys ← coin_keys bitcoin 0 3
    ethereum_keys ← coin_keys ethereum 0 3
    some (bitcoin_keys ++ ethereum_keys)

coin_paths : Coin → ℕ → ℕ → List String
coin_paths coin from zero = []
coin_paths coin from (suc n) = coin_path coin from ∷ coin_paths coin (suc from) n

coin_path_start : (coin : Coin) (i : ℕ) → (t : String) × (coin_path coin i ≡ "m/4" <> t)
unfolding coin_path
coin_path_start bitcoin i = (_, TextLemmas.append_assoc "m/4" "4'/0'/0'/0/" (to_decimal i))
coin_path_start ethereum i = (_, TextLemmas.append_assoc "m/4" "4'/60'/0'/0/" (to_decimal i))

role_path_start : (role : KeyRole) (j : ℕ) → (t : String) × (role_path role j ≡ "m/9" <> t)
unfolding role_path
role_path_start root_identity j = (_, TextLemmas.append_assoc "m/9" "99'/" _)
role_path_start action j = (_, TextLemmas.append_assoc "m/9" "99'/" _)
role_path_start proof j = (_, TextLemmas.append_assoc "m/9" "99'/" _)
role_path_start recovery j = (_, TextLemmas.append_assoc "m/9" "99'/" _)

coin_path-ne-role_path :
    (coin : Coin) (i : ℕ) (role : KeyRole) (j : ℕ) → coin_path coin i ≢ role_path role j
coin_path-ne-role_path coin i role j e =
    let (t, left) = coin_path_start coin i in
    let (u, right) = role_path_start role j in
    differ "4" "9" "" "" t u (λ h. absurd (omega arith))
      (TextLemmas.append_cancel_left "m/" _ _ (
        sym (TextLemmas.append_assoc "m/" "4" t)
        ∙ (sym left ∙ e ∙ right)
        ∙ TextLemmas.append_assoc "m/" "9" u))

module _ (C : Crypto) (root : C.XPriv) where
  -- The six keys that the program lists derive.
  abbrev pub CoinsDerive : Type 0
  CoinsDerive =
      (coin : Coin) (i : ℕ)
      → i < 3
      → (x : C.XPriv) × (C.derive_path root (coin_path coin i) ≡ some x)

  -- No key of the hierarchy has the key's path.
  abbrev pub IsApart : DerivedKey → Type 0
  IsApart k = (role : KeyRole) (j : ℕ) → k.path ≢ role_path role j

  coin_keys_lem :
      CoinsDerive
      → (coin : Coin) (from n : ℕ) → from + n ≤ 3
      → (keys : List DerivedKey) × (coin_keys C root coin from n ≡ some keys)
        × (map (λ k. k.path) keys ≡ coin_paths coin from n)
        × All IsApart keys
  unfolding coin_keys coin_paths derive_key
  coin_keys_lem derives coin from zero fits = ([], refl, refl, tt)
  coin_keys_lem derives coin from (suc n) fits =
      let (x, found) = derives coin from (omega arith) in
      let (keys, listed, paths, apart) = coin_keys_lem derives coin (suc from) n (omega arith) in
      let eth = eth_address C (C.verifying_key (C.xpriv_key x)) in
      let dk : DerivedKey = record {
        path = coin_path coin from;
        private_key = C.key_bytes (C.xpriv_key x);
        public_key = C.sec1_bytes (C.verifying_key (C.xpriv_key x));
        eth_address = if is_eth coin then some eth else none;
      } in
      (
        dk ∷ keys,
        rw (found, listed) refl,
        ap (λ l. coin_path coin from ∷ l) paths,
        (coin_path-ne-role_path coin from, apart),
      )

  -- If the paths of the six keys derive, the program lists six keys at these paths, in this order,
  -- and none of them is the path of a key of the hierarchy, whatever its role and index.
  pub legacy_keys_lem :
      CoinsDerive
      → (keys : List DerivedKey) × (legacy_keys C root ≡ some keys)
        × (map (λ k. k.path) keys
            ≡ "m/44'/0'/0'/0/0" ∷ "m/44'/0'/0'/0/1" ∷ "m/44'/0'/0'/0/2" ∷ "m/44'/60'/0'/0/0"
              ∷ "m/44'/60'/0'/0/1" ∷ "m/44'/60'/0'/0/2" ∷ [])
        × All IsApart keys
  unfolding legacy_keys coin_paths coin_path to_decimal
  legacy_keys_lem derives =
      let (first, listed, paths, apart) = coin_keys_lem derives bitcoin 0 3 (omega arith) in
      let (second, listed', paths', apart') = coin_keys_lem derives ethereum 0 3 (omega arith) in
      (
        first ++ second,
        rw (listed, listed') refl,
        map-append (λ k. k.path) first second ∙ rw (paths, paths') refl,
        All-append IsApart first second apart apart',
      )
