-- ===== src/Client/Rpc/Priced.antt =====
-- packages/core/src/evm/rpc.ts and pricing.ts: what a cost on the native rail is made of.
use avok_js.Base.{
  ◌>>=◌, ℕ, ◌+◌, ◌*◌, ◌≡◌, refl, ◌⊎◌, inl, inr, String, ◌===◌, ===_iff, if◌then◌else◌, Bool, true,
  false, Option, none, some, List, Failure, Settled, fulfilled, rejected, fulfilled-injective,
  subst, sym,
}
use avok_js.Consent.Types.{RawCall}
use avok_js.Client.Io.{Reads, pure-Reads, answered-Reads, >>=-Reads}
use avok_js.Client.Asked.{gas_estimate-Reads}
use avok_js.Client.Gas.{NativeFeeEstimate, estimate_native_fee}
use avok_js.Client.Rpc.{ViemLike, base_fee_else, tip_or_zero, create_viem_rpc_client}

-- The base fee of the latest block, or the gas price on a chain whose blocks have none.
abbrev pub IsBaseFee : ViemLike → ℕ → Type 0
IsBaseFee client n =
    (client.get_block ≡ fulfilled (some n))
    ⊎ ((client.get_block ≡ fulfilled none) × (client.get_gas_price ≡ fulfilled n))

-- The tip that the chain suggests, or none on a chain without a market for tips.
abbrev pub IsTip : ViemLike → ℕ → Type 0
IsTip client n =
    (client.estimate_max_priority_fee_per_gas ≡ fulfilled n)
    ⊎ ((e : Failure) × (client.estimate_max_priority_fee_per_gas ≡ rejected e)
        × (e.name ≡ "Eip1559FeesNotSupportedError")
        × (n ≡ 0))

abbrev pub IsPriced : ViemLike → NativeFeeEstimate → Type 0
IsPriced client e =
    (base : ℕ) × (tip : ℕ) × IsBaseFee client base
    × IsTip client tip
    × (e.gas_price ≡ base + tip * 1)
    × (e.amount ≡ e.gas_units * e.gas_price)

base_fee_else-IsBaseFee :
    (client : ViemLike) (block : Settled (Option ℕ)) (n : ℕ)
    → client.get_block ≡ block
    → (block >>= λ fee. base_fee_else fee client.get_gas_price) ≡ fulfilled n
    → IsBaseFee client n
base_fee_else-IsBaseFee client (fulfilled none) n h k = inr (h, k)
base_fee_else-IsBaseFee client (fulfilled (some fee)) n h k =
    inl (subst (λ m. client.get_block ≡ fulfilled (some m)) (fulfilled-injective k) h)
base_fee_else-IsBaseFee client (rejected e) n h k = cc

tip_or_zero-IsTip :
    (client : ViemLike) (tip : Settled ℕ) (n : ℕ)
    → client.estimate_max_priority_fee_per_gas ≡ tip
    → tip_or_zero tip ≡ fulfilled n
    → IsTip client n
tip_or_zero-IsTip client (fulfilled tip) n h k =
    inl (
      subst (λ m. client.estimate_max_priority_fee_per_gas ≡ fulfilled m) (fulfilled-injective k) h)
tip_or_zero-IsTip client (rejected e) n h k =
    no_market (e.name === "Eip1559FeesNotSupportedError") refl k
  where
    no_market :
        (b : Bool)
        → (e.name === "Eip1559FeesNotSupportedError") ≡ b
        → (if b then fulfilled 0 else rejected e) ≡ fulfilled n
        → IsTip client n
    no_market true f k = inr (e, h, (===_iff _ _).0 f, sym (fulfilled-injective k))
    no_market false f k = cc

-- The cost that is estimated is at the chain's own base fee and suggested tip, or at the gas price alone where the
-- chain has neither; no read that fails in another way is priced as 0.
pub native_fee-IsPriced :
    (encode : List RawCall → String) (client : ViemLike) (wallet implementation : String)
    (calls : List RawCall) (undelegated : Bool) {e : NativeFeeEstimate}
    → (estimate_native_fee
        (create_viem_rpc_client encode client)
        wallet
        implementation
        calls
        undelegated).result
      ≡ fulfilled e
    → IsPriced client e
unfolding estimate_native_fee create_viem_rpc_client
native_fee-IsPriced encode client wallet implementation calls undelegated {e} h =
    let rpc = create_viem_rpc_client encode client in
    let reads : Reads (IsPriced client)
        (estimate_native_fee rpc wallet implementation calls undelegated) =
      >>=-Reads _ _ (gas_estimate-Reads rpc wallet implementation calls undelegated) (λ gas g.
        >>=-Reads _ _
          (answered-Reads {P = IsBaseFee client} "eth_getBlock" rpc.get_base_fee_per_gas
            (λ n k. base_fee_else-IsBaseFee client client.get_block n refl k))
          (λ base is_base.
            >>=-Reads _ _
              (answered-Reads {P = IsTip client} "eth_maxPriorityFeePerGas"
                rpc.get_max_priority_fee_per_gas
                (λ n k. tip_or_zero-IsTip client client.estimate_max_priority_fee_per_gas n refl k))
              (λ tip is_tip. pure-Reads _ (base, tip, is_base, is_tip, refl, refl)))) in
    reads.yields e h
