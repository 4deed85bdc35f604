-- ===== src/Helpers/Balances.antt =====
-- packages/core/src/helpers/balances.ts: the balances of an address on a chain. The client that reads them, over the
-- endpoints chosen, is a parameter.
pub mod Shown
use Prim.Native.String
use avok_js.Base.{
  ◌>>=◌, ℕ, String, Option, none, some, List, [], ◌∷◌, map, Settled, fulfilled, rejected,
}
use avok_js.Registry.Profiles.{EvmTokenProfile}
use avok_js.Registry.Rpc.{RpcOverrides, evm_rpc_urls}
use avok_js.Helpers.Amount.{pos, format_amount}
use avok_js.Helpers.Chains.{ChainInfo, get_chain}

pub record TokenBalance : Type 0 where
  pub symbol : String
  -- None for the native gas asset.
  pub address : Option String
  pub decimals : ℕ
  pub base : ℕ
  pub formatted : String

-- `getBalance`, and `balanceOf` of a token.
pub record PublicClient : Type 0 where
  pub get_balance : (address : String) → Settled ℕ
  pub balance_of : (token address : String) → Settled ℕ

-- `.catch(() => 0n)`
abbrev pub or_zero : Settled ℕ → ℕ
or_zero (fulfilled n) = n
or_zero (rejected e) = 0

abbrev pub native_balance : PublicClient → ChainInfo → (address : String) → TokenBalance
native_balance client chain address =
    let native_base = or_zero (client.get_balance address) in
    record {
      symbol = chain.native_symbol;
      address = none;
      decimals = 18;
      base = native_base;
      formatted = format_amount (pos native_base) 18;
    }

abbrev pub token_balance : PublicClient → (address : String) → EvmTokenProfile → TokenBalance
token_balance client address t =
    let base = or_zero (client.balance_of t.address address) in
    record {
      symbol = t.symbol;
      address = some t.address;
      decimals = t.decimals;
      base = base;
      formatted = format_amount (pos base) t.decimals;
    }

abbrev pub balances_on : PublicClient → ChainInfo → (address : String) → List TokenBalance
balances_on client chain address =
    native_balance client chain address ∷ map (token_balance client address) chain.tokens

-- `publicClientFor`: viem makes a client of the endpoints, which fails over between them, or throws.
abbrev pub balances_of :
    (public_client : List String → Settled PublicClient)
    → (address : String) → (urls : Settled (List String)) → Option ChainInfo
    → Settled (List TokenBalance)
balances_of public_client address urls none = fulfilled []
balances_of public_client address urls (some chain) = do
  found ← urls
  client ← public_client found
  fulfilled (balances_on client chain address)

unfoldable pub read_balances :
    (public_client : List String → Settled PublicClient)
    → (chain_id : ℕ) → (address : String) → RpcOverrides
    → Settled (List TokenBalance)
read_balances public_client chain_id address rpc_urls =
    balances_of public_client address (evm_rpc_urls chain_id rpc_urls) (get_chain chain_id)
