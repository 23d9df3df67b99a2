-- ===== src/Eip712.antt =====
-- The rules of EIP-712 for structs of atomic members, as the standard states them, independently of
-- the code: the typed data that src/core/mod.rs, src/intents/mod.rs, src/sessions/mod.rs and
-- src/recovery/mod.rs hash by hand.
pub mod Encoding
pub mod Structs
pub mod Conformance
use huntkey.Prelude.{ℕ, ◌-◌, Bool, true, false, String, ◌<>◌, List, [], ◌∷◌, ◌++◌, if◌then◌else◌}
use huntkey.Prelude.Bytes.{Bytes, zeros, to_be_bytes}
use huntkey.Prelude.Decimal.{codes, to_decimal}

-- A member's type with its value: `bytesN` and `uintN` have their N first.
pub data Value : Type 0 where
  address : Bytes → Value
  bytes : ℕ → Bytes → Value
  uint : ℕ → ℕ → Value
  string : String → Value

pub record Struct : Type 0 where
  pub name : String
  pub members : List (String × Value)

abbrev pub type_name : Value → String
type_name (address a) = "address"
type_name (bytes n b) = "bytes" <> to_decimal n
type_name (uint n v) = "uint" <> to_decimal n
type_name (string s) = "string"

abbrev pub members_text : Bool → List (String × Value) → String
members_text first [] = ""
members_text first ((name, value) ∷ rest) =
    (if first then "" else ",") <> (type_name value <> (" " <> (name <> members_text false rest)))

-- `encodeType`: the name, and the members with their types in parentheses.
abbrev pub encode_type : Struct → String
encode_type s = s.name <> ("(" <> (members_text true s.members <> ")"))

module _ (keccak : Bytes → Bytes) where
  -- `encodeData` of a member: 32 bytes, in which addresses and integers stand at the right,
  -- `bytesN` at the left, and a string is its hash.
  abbrev pub encode_value : Value → Bytes
  encode_value (address a) = zeros 12 ++ a
  encode_value (bytes n b) = b ++ zeros (32 - n)
  encode_value (uint n v) = to_be_bytes 32 v
  encode_value (string s) = keccak (codes s)

  abbrev pub encode_data : List (String × Value) → Bytes
  encode_data [] = []
  encode_data ((name, value) ∷ rest) = encode_value value ++ encode_data rest

  -- `hashStruct`: the hash of the type's hash and the encoded members.
  abbrev pub hash_struct : Struct → Bytes
  hash_struct s = keccak (keccak (codes (encode_type s)) ++ encode_data s.members)

  -- The digest to sign: `0x19 0x01`, the domain and the message.
  abbrev pub digest : Struct → Struct → Bytes
  digest domain message = keccak (0x19 ∷ 0x01 ∷ (hash_struct domain ++ hash_struct message))
