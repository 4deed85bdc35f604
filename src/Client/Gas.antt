-- ===== src/Client/Gas.antt =====
-- packages/core/src/evm/gas-model.ts and pricing.ts: what a send on the native rail costs.
use avok_js.Base.{
  ℕ, ◌+◌, ◌*◌, String, Bool, true, false, Option, none, some, List, [], ◌∷◌, Settled,
}
use avok_js.Consent.Types.{RawCall}
use avok_js.Client.Io.{Io, call, pure, network, ◌>>=◌}

abbrev pub base_tx_gas : ℕ
base_tx_gas = 21000

abbrev pub auth_7702_gas : ℕ
auth_7702_gas = 25000

abbrev pub native_gas_fee_mul : ℕ
native_gas_fee_mul = 2

abbrev pub native_gas_tip_mul : ℕ
native_gas_tip_mul = 1

pub record Fees : Type 0 where
  pub max_fee_per_gas : ℕ
  pub max_priority_fee_per_gas : ℕ

abbrev pub native_gas_fees : (suggested_tip base_fee : ℕ) → Fees
native_gas_fees suggested_tip base_fee = record {
  max_fee_per_gas = base_fee * native_gas_fee_mul + suggested_tip * native_gas_tip_mul;
  max_priority_fee_per_gas = suggested_tip * native_gas_tip_mul;
}

abbrev pub native_gas_effective_gas_price : (suggested_tip base_fee : ℕ) → ℕ
native_gas_effective_gas_price suggested_tip base_fee =
    base_fee + suggested_tip * native_gas_tip_mul

-- What a simulated call did.
pub record SimCallResult : Type 0 where
  pub has_failed : Bool
  pub gas_used : ℕ
  pub error : Option String

-- What the RPC answers. `simulate_calls to data code` gives what each call did; `code` is injected at the
-- account, if any. `encode_execute_batch` is viem's encoding of `execute(MODE_BATCH, calls)`.
pub record Rpc : Type 0 where
  pub get_code : String → Settled String
  pub get_transaction_count : String → Settled ℕ
  pub get_max_priority_fee_per_gas : Settled ℕ
  pub get_base_fee_per_gas : Settled ℕ
  pub simulate_calls :
      (wallet data_ : String) → (code : Option String) → Settled (List SimCallResult)
  pub encode_execute_batch : List RawCall → String

abbrev pub total_gas_used : List SimCallResult → ℕ
total_gas_used [] = 0
total_gas_used (r ∷ rs) = r.gas_used + total_gas_used rs

pub record NativeFeeEstimate : Type 0 where
  pub amount : ℕ
  pub gas_units : ℕ
  pub gas_price : ℕ

abbrev pub native_estimate : (gas_units base_fee suggested_tip : ℕ) → NativeFeeEstimate
native_estimate gas_units base_fee suggested_tip =
    let gas_price = native_gas_effective_gas_price suggested_tip base_fee in
    record { amount = gas_units * gas_price; gas_units = gas_units; gas_price = gas_price }

module _ (rpc : Rpc) where
  abbrev pub override_code : Bool → String → Io (Option String)
  override_code true implementation =
      call (network "eth_getCode") (rpc.get_code implementation) >>= λ code. pure (some code)
  override_code false implementation = pure none

  abbrev pub simulate_batch_gas : (wallet implementation : String) → List RawCall → Bool → Io ℕ
  simulate_batch_gas wallet implementation [] undelegated = pure base_tx_gas
  simulate_batch_gas wallet implementation (c ∷ cs) undelegated =
      override_code undelegated implementation >>= λ code.
      call (network "eth_simulateV1")
        (rpc.simulate_calls wallet (rpc.encode_execute_batch (c ∷ cs)) code)
      >>= λ results. pure (total_gas_used results)

  abbrev pub authorization_gas : Bool → ℕ
  authorization_gas true = auth_7702_gas
  authorization_gas false = 0

  abbrev pub native_gas_gas_estimate : (wallet implementation : String) → List RawCall → Bool → Io ℕ
  native_gas_gas_estimate wallet implementation calls undelegated =
      simulate_batch_gas wallet implementation calls undelegated >>= λ gas.
      pure (gas + authorization_gas undelegated)

  unfoldable pub estimate_native_fee :
      (wallet implementation : String) → List RawCall → Bool → Io NativeFeeEstimate
  estimate_native_fee wallet implementation calls undelegated =
      native_gas_gas_estimate wallet implementation calls undelegated >>= λ gas_units.
      call (network "eth_getBlock") rpc.get_base_fee_per_gas >>= λ base_fee.
      call (network "eth_maxPriorityFeePerGas") rpc.get_max_priority_fee_per_gas
      >>= λ suggested_tip. pure (native_estimate gas_units base_fee suggested_tip)
