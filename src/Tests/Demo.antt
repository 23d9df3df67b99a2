-- ===== src/Tests/Demo.antt =====
-- The program of src/main.rs with the toy cryptography and the root 9.
use huntkey.Prelude.{
  ℕ, ◌≡◌, ◌≢◌, ◌+◌, ◌++◌, ◌∷◌, List, [], map, All, refl, true, false, some, arith, release,
}
use huntkey.Prelude.Bytes.{Bytes, bytes_eq, bytes_eq_iff, zeros, to_be_bytes}
use huntkey.Prelude.Decimal.{codes, to_decimal}
use huntkey.Crypto.Toy.{toy, toy-IsHash, toy-IsEcdsa, digest_of}
use huntkey.Core.Hash.{keccak256}
use huntkey.Core.Keys.{
  generate_mnemonic, root_from_mnemonic, DerivedKey, KeyRole, action, recovery, role_path, segment,
  eth_address,
}
use huntkey.Sessions.{session_info}
use huntkey.Demo.Program.{main, main_lem}
use huntkey.Core.Keys.Paths.{Derives}
use huntkey.Demo.Legacy.{legacy_keys, coin_path, CoinsDerive, IsApart, legacy_keys_lem}

-- What the toy derives along a path.
abbrev derived : KeyRole → ℕ → ℕ
derived role index = 9 + digest_of (codes (role_path role index))

abbrev action_key : ℕ
action_key = derived action 0

-- The toy's HKDF output for the session, and the key that it reads from it.
abbrev output : Bytes
output = to_be_bytes 32 (
    digest_of (
      codes "HuntKey-V1-Session-Key"
      ++ ((action_key ∷ zeros 31) ++ session_info (2 ∷ to_be_bytes 32 action_key) 0 1)))

abbrev output_key : ℕ
output_key = 39

apart : (a b : Bytes) → bytes_eq a b ≡ false → a ≢ b
apart a b h e = ground (arith, bytes_eq_iff a b)

abbrev toy_derives : Derives toy 9
toy_derives = record { key = derived; found = λ role index h. refl }

abbrev toy_coins : CoinsDerive toy 9
toy_coins coin i h = (9 + digest_of (codes (coin_path coin i)), refl)

legacy_keys_lem_example :
    (keys : List DerivedKey) × (legacy_keys toy 9 ≡ some keys)
    × (map (λ k. k.path) keys
        ≡ "m/44'/0'/0'/0/0" ∷ "m/44'/0'/0'/0/1" ∷ "m/44'/0'/0'/0/2" ∷ "m/44'/60'/0'/0/0"
          ∷ "m/44'/60'/0'/0/1" ∷ "m/44'/60'/0'/0/2" ∷ [])
    × All (IsApart toy 9) keys
legacy_keys_lem_example = legacy_keys_lem toy 9 toy_coins

-- The toy's HKDF output for the second session.
abbrev second_output : Bytes
second_output = to_be_bytes 32 (
    digest_of (
      codes "HuntKey-V1-Session-Key"
      ++ ((action_key ∷ zeros 31) ++ session_info (2 ∷ to_be_bytes 32 action_key) 1 1)))

main_lem_example :
    (keys : List DerivedKey) × (main toy release (8 ∷ [])
      ≡ some (keys, (true, true, true, true, true), (2, true, true, false, true)))
unfolding generate_mnemonic root_from_mnemonic eth_address keccak256 role_path segment to_decimal
    to_be_bytes session_info
main_lem_example =
    main_lem toy toy-IsHash toy-IsEcdsa release 9 (8 ∷ []) {mnemonic = 8 ∷ []} refl refl toy_coins
      toy_derives (output, output_key, refl, refl) (second_output, output_key, refl, refl)
      (apart (eth_address toy (derived recovery 0)) (eth_address toy (derived recovery 1)) refl)
