-- ===== src/Intents/UserOperation/Laws.antt =====
-- What the EntryPoint reads from a built operation (`UserOperationBuilder::build` of
-- src/intents/mod.rs); its packed words have 32 bytes each.
use huntkey.Prelude.{
  ℕ, ◌+◌, ◌-◌, ◌^◌, ◌<◌, ◌≡◌, refl, ap, sym, ◌∙◌, ◌↔◌, ◌++◌, arith, IsU64, IsU128, length, take,
  drop, length-append, length-replicate, take-length_append, drop-length_append, append-nil,
}
use huntkey.Prelude.Bytes.{
  Bytes, IsArray, zeros, to_be_bytes, length-to_be_bytes, copy_at, copy_at-zeros, copy_at-pair,
  be_value, be_value-to_be_bytes, be_value-zeros,
}
use huntkey.Intents.UserOperation.{PackedUserOperation, UserOperationBuilder, build}

-- The ranges that the Rust types give the numbers.
pub record IsValid (b : UserOperationBuilder) : Type 0 where
  pub nonce : IsU64 b.nonce
  pub call_gas_limit : IsU128 b.call_gas_limit
  pub verification_gas_limit : IsU128 b.verification_gas_limit
  pub pre_verification_gas : IsU128 b.pre_verification_gas
  pub max_fee_per_gas : IsU128 b.max_fee_per_gas
  pub max_priority_fee_per_gas : IsU128 b.max_priority_fee_per_gas

-- How the EntryPoint of ERC-4337, version 0.7, reads a packed operation: `accountGasLimits` are
-- `verificationGasLimit` (16 bytes) and `callGasLimit` (16 bytes), `gasFees` are
-- `maxPriorityFeePerGas` (16 bytes) and `maxFeePerGas` (16 bytes), all big-endian.
pub unpack : PackedUserOperation → UserOperationBuilder
unpack op = record {
  sender = op.sender;
  nonce = be_value op.nonce;
  call_data = op.call_data;
  call_gas_limit = be_value (drop 16 op.account_gas_limits);
  verification_gas_limit = be_value (take 16 op.account_gas_limits);
  pre_verification_gas = be_value op.pre_verification_gas;
  max_fee_per_gas = be_value (drop 16 op.gas_fees);
  max_priority_fee_per_gas = be_value (take 16 op.gas_fees);
  init_code = op.init_code;
  paymaster_and_data = op.paymaster_and_data;
}

-- The builder with its two gas limits exchanged, and its two fees exchanged.
abbrev pub exchanged : UserOperationBuilder → UserOperationBuilder
exchanged b = record b {
  call_gas_limit = b.verification_gas_limit;
  verification_gas_limit = b.call_gas_limit;
  max_fee_per_gas = b.max_priority_fee_per_gas;
  max_priority_fee_per_gas = b.max_fee_per_gas;
}

-- A number that is right-aligned in 32 bytes.
aligned :
    (k n v : ℕ) → k + n ≡ 32 → copy_at k (to_be_bytes n v) (zeros 32) ≡ zeros k ++ to_be_bytes n v
aligned k n v h =
    let full : 32 - (k + length (to_be_bytes n v)) ≡ 0 = omega (arith, length-to_be_bytes n v) in
    copy_at-zeros k 32 (to_be_bytes n v) (omega arith) ∙ rw (full, append-nil)

be_value_aligned :
    (k n v : ℕ) → k + n ≡ 32 → v < 256 ^ n → be_value (copy_at k (to_be_bytes n v) (zeros 32)) ≡ v
be_value_aligned k n v h fits =
    ap be_value (aligned k n v h)
    ∙ be_value-zeros k (to_be_bytes n v)
    ∙ be_value-to_be_bytes n v fits

-- Two numbers of 16 bytes, side by side.
packed : ℕ → ℕ → Bytes
packed high low = copy_at 16 (to_be_bytes 16 low) (copy_at 0 (to_be_bytes 16 high) (zeros 32))

packed_lem : (high low : ℕ) → packed high low ≡ to_be_bytes 16 high ++ to_be_bytes 16 low
unfolding packed
packed_lem high low = copy_at-pair 16 _ _ (length-to_be_bytes 16 high) (length-to_be_bytes 16 low)

be_value-take-packed : (high low : ℕ) → IsU128 high → be_value (take 16 (packed high low)) ≡ high
be_value-take-packed high low h =
    rw (packed_lem, take-length_append 16 _ (to_be_bytes 16 low) (length-to_be_bytes 16 high))
      (be_value-to_be_bytes 16 high h)

be_value-drop-packed : (high low : ℕ) → IsU128 low → be_value (drop 16 (packed high low)) ≡ low
be_value-drop-packed high low h =
    rw (packed_lem, drop-length_append 16 _ (to_be_bytes 16 low) (length-to_be_bytes 16 high))
      (be_value-to_be_bytes 16 low h)

-- Of a builder whose numbers fit their Rust types, the operation that is built, read as ERC-4337
-- version 0.7 reads it, gives the builder with its two gas limits exchanged and its two fees
-- exchanged, and all other fields as they were; it is the builder itself exactly if the two limits
-- are equal and the two fees are equal. The signature payload is carried as it is.
pub unpack-build :
    (b : UserOperationBuilder) (signature_payload : Bytes)
    → IsValid b
    → (unpack (build b signature_payload) ≡ exchanged b)
      × ((unpack (build b signature_payload) ≡ b) ↔ (
          (b.call_gas_limit ≡ b.verification_gas_limit)
          × (b.max_fee_per_gas ≡ b.max_priority_fee_per_gas)))
      × ((build b signature_payload).signature ≡ signature_payload)
unfolding unpack build packed
unpack-build b payload h = (fields, (needs, suffices), refl)
  where
    fields : unpack (build b payload) ≡ exchanged b
    fields i = record {
      sender = b.sender;
      nonce = be_value_aligned 24 8 b.nonce refl h.nonce i;
      call_data = b.call_data;
      call_gas_limit =
          be_value-drop-packed b.call_gas_limit b.verification_gas_limit h.verification_gas_limit i;
      verification_gas_limit =
          be_value-take-packed b.call_gas_limit b.verification_gas_limit h.call_gas_limit i;
      pre_verification_gas =
          be_value_aligned 16 16 b.pre_verification_gas refl h.pre_verification_gas i;
      max_fee_per_gas =
          be_value-drop-packed b.max_fee_per_gas b.max_priority_fee_per_gas
            h.max_priority_fee_per_gas i;
      max_priority_fee_per_gas =
          be_value-take-packed b.max_fee_per_gas b.max_priority_fee_per_gas h.max_fee_per_gas i;
      init_code = b.init_code;
      paymaster_and_data = b.paymaster_and_data;
    }

    needs :
        unpack (build b payload) ≡ b
        → (b.call_gas_limit ≡ b.verification_gas_limit)
          × (b.max_fee_per_gas ≡ b.max_priority_fee_per_gas)
    needs e =
        let same : exchanged b ≡ b = sym fields ∙ e in
        (
          sym (ap (λ (x : UserOperationBuilder). x.call_gas_limit) same),
          sym (ap (λ (x : UserOperationBuilder). x.max_fee_per_gas) same),
        )

    suffices :
        (b.call_gas_limit ≡ b.verification_gas_limit)
          × (b.max_fee_per_gas ≡ b.max_priority_fee_per_gas)
        → unpack (build b payload) ≡ b
    suffices (limits, fees) = fields ∙ (λ i. record {
      sender = b.sender;
      nonce = b.nonce;
      call_data = b.call_data;
      call_gas_limit = sym limits i;
      verification_gas_limit = limits i;
      pre_verification_gas = b.pre_verification_gas;
      max_fee_per_gas = sym fees i;
      max_priority_fee_per_gas = fees i;
      init_code = b.init_code;
      paymaster_and_data = b.paymaster_and_data;
    })

aligned-IsArray : (k n v : ℕ) → k + n ≡ 32 → IsArray 32 (copy_at k (to_be_bytes n v) (zeros 32))
aligned-IsArray k n v h = rw (aligned k n v h) (
    omega (
      arith,
      length-append (zeros k) (to_be_bytes n v),
      length-replicate {A = ℕ} k 0,
      length-to_be_bytes n v,
    ))

packed-IsArray : (high low : ℕ) → IsArray 32 (packed high low)
packed-IsArray high low = rw packed_lem (
    omega (
      arith,
      length-append (to_be_bytes 16 high) (to_be_bytes 16 low),
      length-to_be_bytes 16 high,
      length-to_be_bytes 16 low,
    ))

-- Each of the four packed words of an operation has 32 bytes, whatever the builder holds.
build-IsArray :
    (b : UserOperationBuilder) (signature_payload : Bytes)
    → let op = build b signature_payload in
      IsArray 32 op.nonce
      × IsArray 32 op.account_gas_limits
      × IsArray 32 op.pre_verification_gas
      × IsArray 32 op.gas_fees
unfolding build packed
build-IsArray b payload = (
  aligned-IsArray 24 8 b.nonce refl,
  packed-IsArray b.call_gas_limit b.verification_gas_limit,
  aligned-IsArray 16 16 b.pre_verification_gas refl,
  packed-IsArray b.max_fee_per_gas b.max_priority_fee_per_gas,
)
