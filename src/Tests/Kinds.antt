-- ===== src/Tests/Kinds.antt =====
-- The kinds of signed message of src/intents/mod.rs, src/sessions/mod.rs and src/recovery/mod.rs
-- side by side, at concrete inputs.
use huntkey.Prelude.{◌≡◌, ◌↔◌, false, refl, sym, ◌∙◌, arith, none, some, release}
use huntkey.Prelude.Bytes.{Bytes, IsArray, zeros}
use huntkey.Crypto.{Crypto, IsHash}
use huntkey.Crypto.Toy.{toy, toy-IsHash, toy-IsEcdsa}
use huntkey.Core.Hash.{keccak256, typed_data_hash}
use huntkey.Signing.Message.{Message}
use huntkey.Intents.Intent.Laws.{intent_message}
use huntkey.Intents.Delegation.Laws.{delegation_message}
use huntkey.Eip712.{digest}
use huntkey.Eip712.Structs.{domain_struct, intent_struct}
use huntkey.Eip712.Conformance.{request_hash-digest}
use huntkey.Separation.{request_hash, intent, delegation, recovery, Binds, request_hash_inj}
use huntkey.Separation.Panics.{signs, signs_panics}
use huntkey.Tests.Signing.{
  contract, private_key, transfer, endorsement, request, transfer-IsValid, endorsement-IsValid,
  request-IsValid,
}

-- The cryptography with a hash on which all inputs collide.
abbrev constant : Crypto
constant = record toy { keccak_v256 = λ m. zeros 32 }

constant-IsHash : IsHash constant
constant-IsHash = record { length-keccak = λ m. refl }

-- Every valid message has one signing hash.
constant_hash :
    (M : Message constant) (m : M.Body) (c : Bytes)
    → M.IsValid m
    → IsArray 20 c
    → M.signing_hash m c ≡ some (zeros 32)
unfolding typed_data_hash keccak256
constant_hash M m c h hc = M.signing_hash_lem m c h hc

constant_hashes :
    (M N : Message constant) (m : M.Body) (n : N.Body)
    → M.IsValid m
    → N.IsValid n
    → M.signing_hash m contract ≡ N.signing_hash n contract
constant_hashes M N m n h k =
    constant_hash M m contract h refl ∙ sym (constant_hash N n contract k refl)

-- An intent and a delegation, on the hash on which all inputs collide.
request_hash_inj_example :
    Binds constant constant-IsHash
      (intent, transfer 0, contract)
      (delegation, endorsement 0, contract)
request_hash_inj_example =
    request_hash_inj constant constant-IsHash (intent, transfer 0, contract)
      (delegation, endorsement 0, contract) (transfer-IsValid 0 (omega arith), refl)
      (endorsement-IsValid 0 (omega arith), refl)
      (constant_hashes (intent_message constant constant-IsHash)
        (delegation_message constant constant-IsHash) (transfer 0) (endorsement 0)
        (transfer-IsValid 0 (omega arith)) (endorsement-IsValid 0 (omega arith)))

signs_panics_example :
    (signs toy toy-IsHash release (recovery, request 0, contract) private_key ≡ false)
    ↔ (toy.signing_key private_key ≡ none)
signs_panics_example =
    signs_panics toy toy-IsHash toy-IsEcdsa release (recovery, request 0, contract) private_key
      (request-IsValid 0 (omega arith), refl)

request_hash-digest_example :
    request_hash toy toy-IsHash (intent, transfer 0, contract)
    ≡ some (digest (keccak256 toy) (domain_struct 1 contract) (intent_struct (transfer 0)))
request_hash-digest_example =
    request_hash-digest toy toy-IsHash (intent, transfer 0, contract)
      (transfer-IsValid 0 (omega arith), refl)
