-- ===== src/Client/Rpc.antt =====
-- packages/core/src/evm/rpc.ts: the client's reads of a chain, over a client of viem, and the transport that fails
-- over between endpoints.
pub mod Priced
pub mod Reasons
use Prim.Native.String
use avok_js.Base.{
  ◌>>=◌, ℕ, String, ◌===◌, ◌==◌, if◌then◌else◌, Bool, Option, none, some, List, [], ◌∷◌, map,
  Failure, Settled, fulfilled, rejected, throw,
}
use avok_js.Consent.Types.{RawCall}
use avok_js.Client.Gas.{Rpc, SimCallResult}

-- `status === "failure"`, with the gas and the data.
pub record ViemCallResult : Type 0 where
  pub has_failed : Bool
  pub gas_used : ℕ
  pub return_data : String

-- What viem's client answers. `get_block` is the latest block's base fee, if it has one.
pub record ViemLike : Type 0 where
  pub get_code : String → Settled (Option String)
  pub get_transaction_count : String → Settled ℕ
  pub simulate_calls :
      (wallet data_ : String) → (code : Option String) → Settled (List ViemCallResult)
  pub get_gas_price : Settled ℕ
  pub estimate_max_priority_fee_per_gas : Settled ℕ
  pub get_block : Settled (Option ℕ)

-- `?? "0x"`
abbrev pub or_0x : Option String → String
or_0x none = "0x"
or_0x (some code) = code

-- The adapter passes on no error of a call.
abbrev pub sim_result_of : ViemCallResult → SimCallResult
sim_result_of r = record { has_failed = r.has_failed; gas_used = r.gas_used; error = none }

abbrev pub base_fee_else : Option ℕ → Settled ℕ → Settled ℕ
base_fee_else none gas_price = gas_price
base_fee_else (some fee) gas_price = fulfilled fee

-- Only the lack of a market for tips is a tip of 0.
abbrev pub tip_or_zero : Settled ℕ → Settled ℕ
tip_or_zero (fulfilled tip) = fulfilled tip
tip_or_zero (rejected e) =
    if e.name === "Eip1559FeesNotSupportedError" then fulfilled 0 else rejected e

-- Receipts are read in `Track`. `encode` is viem's encoding of a batch.
unfoldable pub create_viem_rpc_client : (encode : List RawCall → String) → ViemLike → Rpc
create_viem_rpc_client encode client = record {
  get_code = λ address. do
    code ← client.get_code address
    fulfilled (or_0x code);
  get_transaction_count = client.get_transaction_count;
  get_max_priority_fee_per_gas = tip_or_zero client.estimate_max_priority_fee_per_gas;
  get_base_fee_per_gas = do
    fee ← client.get_block
    base_fee_else fee client.get_gas_price;
  simulate_calls = λ wallet data_ code. do
    results ← client.simulate_calls wallet data_ code
    fulfilled (map sim_result_of results);
  encode_execute_batch = encode;
}

-- `http` and `fallback` are viem's transports; an error that is not thrown makes `fallback` try the next.
module _ {ℓ} {Transport : Type ℓ} (http : String → Transport)
    (fallback : List Transport → (Failure → Bool) → Transport) where
  unfoldable pub create_failover_transport : (urls : List String) → Settled Transport
  create_failover_transport [] = throw "createFailoverTransport: at least one RPC URL is required"
  create_failover_transport (url ∷ []) = fulfilled (http url)
  create_failover_transport (url ∷ next ∷ urls) =
      fulfilled (fallback (map http (url ∷ next ∷ urls)) (λ e. e.name === "RpcRequestError"))
