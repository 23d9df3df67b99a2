-- ===== src/Core/Keys.antt =====
-- Addresses and the key hierarchy of src/core/mod.rs.
pub mod Paths
pub mod ActionKeys
pub mod WrapAround
use huntkey.Prelude.{
  ℕ, Bool, true, false, Option, none, some, String, ◌<>◌, List, [], ◌∷◌, ◌>>=◌, drop, Build,
  add_word, if◌then◌else◌,
}
use huntkey.Prelude.Bytes.{Bytes}
use huntkey.Prelude.Decimal.{to_decimal}
use huntkey.Crypto.{Crypto}
use huntkey.Core.Hash.{keccak256}

pub record DerivedKey : Type 0 where
  pub path : String
  pub private_key : Bytes
  pub public_key : Bytes
  pub eth_address : Option Bytes

pub data KeyRole : Type 0 where
  root_identity action proof recovery : KeyRole

unfoldable pub segment : KeyRole → String
segment root_identity = "0'"
segment action = "1'"
segment proof = "2'"
segment recovery = "3'"

unfoldable pub role_path : KeyRole → ℕ → String
role_path root_identity index = "m/999'/" <> segment root_identity
role_path role index = "m/999'/" <> (segment role <> ("/" <> to_decimal index))

module _ (C : Crypto) where
  -- An encoded point begins with the byte 0x04, which is skipped.
  unfoldable pub eth_address : C.VerifyingKey → Bytes
  eth_address pubkey = drop 12 (keccak256 C (drop 1 (C.encoded_point pubkey)))

  unfoldable pub derive_key : C.XPriv → String → Bool → Option DerivedKey
  derive_key root path is_eth = do
    derived ← C.derive_path root path
    let signing_key = C.xpriv_key derived
    let verifying_key = C.verifying_key signing_key
    some (record {
      path = path;
      private_key = C.key_bytes signing_key;
      public_key = C.sec1_bytes verifying_key;
      eth_address = if is_eth then some (eth_address verifying_key) else none;
    })

  unfoldable pub generate_mnemonic : Bytes → ℕ → Option C.Mnemonic
  generate_mnemonic entropy word_count = C.generate entropy word_count

  unfoldable pub root_from_mnemonic : C.Mnemonic → Option C.XPriv
  root_from_mnemonic mnemonic = C.root_from_seed (C.to_seed mnemonic "")

  pub record KeyHierarchy : Type 0 where
    pub root : C.XPriv
    pub action_index : ℕ

  unfoldable pub new : C.XPriv → KeyHierarchy
  new root = record { root = root; action_index = 0 }

  unfoldable pub derive_role : KeyHierarchy → KeyRole → ℕ → Option DerivedKey
  derive_role h role index = derive_key h.root (role_path role index) true

  -- The key is derived before the index is advanced, in 32 bits.
  unfoldable pub next_action_key : Build → KeyHierarchy → Option (DerivedKey × KeyHierarchy)
  next_action_key build h = do
    key ← derive_role h action h.action_index
    next ← add_word build 32 h.action_index 1
    some (key, record h { action_index = next })
