-- ===== src/Core/Hash.antt =====
-- The hashes of src/core/mod.rs, over the Keccak of the crates.
pub mod Binding
use huntkey.Prelude.{ℕ, Option, some, String, List, [], ◌∷◌, ◌++◌, ◌>>=◌}
use huntkey.Prelude.Bytes.{Bytes}
use huntkey.Prelude.Decimal.{codes}
use huntkey.Crypto.{Crypto}
use huntkey.Core.Words.{address_to_word, u64_to_word, extend_all}

abbrev pub domain_type_str : String
domain_type_str =
    "EIP712Domain(string name,string version,uint256 chainId,address verifyingContract)"

module _ (C : Crypto) where
  unfoldable pub keccak256 : Bytes → Bytes
  keccak256 bytes = C.keccak_v256 bytes

  -- What `domain_separator` appends to its buffer.
  abbrev pub domain_steps : ℕ → Bytes → List (Option Bytes)
  domain_steps chain_id verifying_contract =
      some (keccak256 (codes domain_type_str))
      ∷ some (keccak256 (codes "HuntKey"))
      ∷ some (keccak256 (codes "1"))
      ∷ u64_to_word chain_id
      ∷ address_to_word verifying_contract
      ∷ []

  unfoldable pub domain_separator : ℕ → Bytes → Option Bytes
  domain_separator chain_id verifying_contract = do
    buf ← extend_all (domain_steps chain_id verifying_contract)
    some (keccak256 buf)

  unfoldable pub call_data_hash : Bytes → Bytes
  call_data_hash call_data = keccak256 call_data

  -- The last lines of each signing hash: `0x19 0x01`, the domain separator and the struct hash.
  unfoldable pub typed_data_hash : Bytes → Bytes → Bytes
  typed_data_hash ds sh = keccak256 (0x19 ∷ 0x01 ∷ (ds ++ sh))
