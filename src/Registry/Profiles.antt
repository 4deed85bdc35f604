-- ===== src/Registry/Profiles.antt =====
-- contracts/src-ts/registry.ts: the registered chains, in the table's order.
use avok_js.Base.{ℕ, String, Bool, true, false, List, [], ◌∷◌}

pub data ChainTier : Type 0 where
  unverified supported live : ChainTier

pub record ChainCapabilities : Type 0 where
  pub simulate_v1 : Bool
  pub multicall : Bool
  pub same_asset_gas : Bool
  pub state_override : Bool

pub record EvmTokenProfile : Type 0 where
  pub address : String
  pub symbol : String
  pub decimals : ℕ

-- The tokens are a table keyed by the address that each of them carries.
pub record EvmChainProfile : Type 0 where
  pub kind : String
  pub id : String
  pub chain_id : ℕ
  pub name : String
  pub tier : ChainTier
  pub canonical_implementation : String
  pub is_testnet : Bool
  pub explorer : String
  pub default_rpc : List String
  pub capabilities : ChainCapabilities
  pub tokens : List EvmTokenProfile

abbrev op_usdc : String
op_usdc = "0x0b2C639c533813f4Aa9D7837CAf62653d097Ff85"

abbrev op_usdt : String
op_usdt = "0x94b008aA00579c1307B0EF2c499aD98a8ce58e58"

abbrev base_usdc : String
base_usdc = "0x833589fCD6eDb6E08f4c7C32D4f71b54bdA02913"

abbrev base_usdt : String
base_usdt = "0xfde4C96c8593536E31F229EA8f37b2ADa2699bb2"

abbrev eth_usdc : String
eth_usdc = "0xA0b86991c6218b36c1d19D4a2e9Eb0cE3606eB48"

abbrev eth_usdt : String
eth_usdt = "0xdAC17F958D2ee523a2206206994597C13D831ec7"

abbrev arb_usdc : String
arb_usdc = "0xaf88d065e77c8cC2239327C5EDb3A432268e5831"

abbrev arb_usdt : String
arb_usdt = "0xFd086bC7CD5C481DCC9C85ebE478A1C0b69FCbb9"

abbrev bsc_usdc : String
bsc_usdc = "0x8AC76a51cc950d9822D68b83fE1Ad97B32Cd580d"

abbrev bsc_usdt : String
bsc_usdt = "0x55d398326f99059fF775485246999027B3197955"

abbrev arc_usdc : String
arc_usdc = "0x3600000000000000000000000000000000000000"

abbrev base_sepolia_usdc : String
base_sepolia_usdc = "0x036CbD53842c5426634e7929541eC2318f3dCF7e"

abbrev rhc_usdg : String
rhc_usdg = "0x5fc5360D0400a0Fd4f2af552ADD042D716F1d168"

abbrev canonical : String
canonical = "0x1a29eF50E033371d9686F027BD7d0743B1A0Cc3e"

abbrev token : String → String → ℕ → EvmTokenProfile
token a s d = record { address = a; symbol = s; decimals = d }

abbrev optimism : EvmChainProfile
optimism = record {
  kind = "evm";
  id = "eip155:10";
  chain_id = 10;
  name = "Optimism";
  tier = unverified;
  canonical_implementation = canonical;
  is_testnet = false;
  explorer = "https://optimistic.etherscan.io";
  default_rpc = "https://mainnet.optimism.io" ∷ "https://optimism-rpc.publicnode.com" ∷ [];
  capabilities = record {
    simulate_v1 = true;
    multicall = true;
    same_asset_gas = false;
    state_override = true;
  };
  tokens = token op_usdc "USDC" 6 ∷ token op_usdt "USDT" 6 ∷ [];
}

abbrev ethereum : EvmChainProfile
ethereum = record {
  kind = "evm";
  id = "eip155:1";
  chain_id = 1;
  name = "Ethereum";
  tier = unverified;
  canonical_implementation = canonical;
  is_testnet = false;
  explorer = "https://etherscan.io";
  default_rpc = "https://ethereum-rpc.publicnode.com" ∷ "https://ethereum.drpc.org" ∷ [];
  capabilities = record {
    simulate_v1 = true;
    multicall = true;
    same_asset_gas = false;
    state_override = true;
  };
  tokens = token eth_usdc "USDC" 6 ∷ token eth_usdt "USDT" 6 ∷ [];
}

abbrev arbitrum : EvmChainProfile
arbitrum = record {
  kind = "evm";
  id = "eip155:42161";
  chain_id = 42161;
  name = "Arbitrum";
  tier = unverified;
  canonical_implementation = canonical;
  is_testnet = false;
  explorer = "https://arbiscan.io";
  default_rpc = "https://arb1.arbitrum.io/rpc" ∷ "https://arbitrum-one-rpc.publicnode.com" ∷ [];
  capabilities = record {
    simulate_v1 = true;
    multicall = true;
    same_asset_gas = false;
    state_override = true;
  };
  tokens = token arb_usdc "USDC" 6 ∷ token arb_usdt "USDT" 6 ∷ [];
}

abbrev bsc : EvmChainProfile
bsc = record {
  kind = "evm";
  id = "eip155:56";
  chain_id = 56;
  name = "BSC";
  tier = unverified;
  canonical_implementation = canonical;
  is_testnet = false;
  explorer = "https://bscscan.com";
  default_rpc = "https://bsc-dataseed.bnbchain.org" ∷ "https://bsc-rpc.publicnode.com" ∷ [];
  capabilities = record {
    simulate_v1 = true;
    multicall = true;
    same_asset_gas = false;
    state_override = true;
  };
  tokens = token bsc_usdc "USDC" 18 ∷ token bsc_usdt "USDT" 18 ∷ [];
}

abbrev pub base : EvmChainProfile
base = record {
  kind = "evm";
  id = "eip155:8453";
  chain_id = 8453;
  name = "Base";
  tier = unverified;
  canonical_implementation = canonical;
  is_testnet = false;
  explorer = "https://basescan.org";
  default_rpc = "https://mainnet.base.org" ∷ "https://base-rpc.publicnode.com" ∷ [];
  capabilities = record {
    simulate_v1 = true;
    multicall = true;
    same_asset_gas = false;
    state_override = true;
  };
  tokens = token base_usdc "USDC" 6 ∷ token base_usdt "USDT" 6 ∷ [];
}

abbrev robinhood : EvmChainProfile
robinhood = record {
  kind = "evm";
  id = "eip155:4663";
  chain_id = 4663;
  name = "Robinhood";
  tier = unverified;
  canonical_implementation = canonical;
  is_testnet = false;
  explorer = "https://robinhoodchain.blockscout.com";
  default_rpc =
      "https://rpc.mainnet.chain.robinhood.com"
      ∷ "https://gateway.tenderly.co/public/robinhood-chain" ∷ [];
  capabilities = record {
    simulate_v1 = true;
    multicall = true;
    same_asset_gas = false;
    state_override = true;
  };
  tokens = token rhc_usdg "USDG" 6 ∷ [];
}

abbrev arc : EvmChainProfile
arc = record {
  kind = "evm";
  id = "eip155:5042002";
  chain_id = 5042002;
  name = "Arc";
  tier = unverified;
  canonical_implementation = canonical;
  is_testnet = true;
  explorer = "https://testnet.arcscan.app";
  default_rpc = "https://rpc.testnet.arc.network" ∷ "https://rpc.drpc.testnet.arc.io" ∷ [];
  capabilities = record {
    simulate_v1 = true;
    multicall = true;
    same_asset_gas = false;
    state_override = true;
  };
  tokens = token arc_usdc "USDC" 6 ∷ [];
}

abbrev base_sepolia : EvmChainProfile
base_sepolia = record {
  kind = "evm";
  id = "eip155:84532";
  chain_id = 84532;
  name = "Base Sepolia";
  tier = supported;
  canonical_implementation = canonical;
  is_testnet = true;
  explorer = "https://sepolia.basescan.org";
  default_rpc =
      "https://base-sepolia-rpc.publicnode.com" ∷ "https://gateway.tenderly.co/public/base-sepolia"
      ∷ [];
  capabilities = record {
    simulate_v1 = true;
    multicall = true;
    same_asset_gas = false;
    state_override = true;
  };
  tokens = token base_sepolia_usdc "USDC" 6 ∷ [];
}

abbrev ethereum_sepolia : EvmChainProfile
ethereum_sepolia = record {
  kind = "evm";
  id = "eip155:11155111";
  chain_id = 11155111;
  name = "Ethereum Sepolia";
  tier = unverified;
  canonical_implementation = canonical;
  is_testnet = true;
  explorer = "https://sepolia.etherscan.io";
  default_rpc =
      "https://ethereum-sepolia-rpc.publicnode.com" ∷ "https://gateway.tenderly.co/public/sepolia"
      ∷ [];
  capabilities = record {
    simulate_v1 = true;
    multicall = true;
    same_asset_gas = false;
    state_override = true;
  };
  tokens = [];
}

abbrev pub chain_profiles : List (String × EvmChainProfile)
chain_profiles =
    ("eip155:10", optimism)
    ∷ ("eip155:1", ethereum)
    ∷ ("eip155:42161", arbitrum)
    ∷ ("eip155:56", bsc)
    ∷ ("eip155:8453", base)
    ∷ ("eip155:4663", robinhood)
    ∷ ("eip155:5042002", arc)
    ∷ ("eip155:84532", base_sepolia)
    ∷ ("eip155:11155111", ethereum_sepolia)
    ∷ []

abbrev pub chain_name_to_id : List (String × String)
chain_name_to_id =
    ("ethereum", "eip155:1")
    ∷ ("optimism", "eip155:10")
    ∷ ("base", "eip155:8453")
    ∷ ("arbitrum", "eip155:42161")
    ∷ ("bsc", "eip155:56")
    ∷ ("robinhood", "eip155:4663")
    ∷ ("arc-testnet", "eip155:5042002")
    ∷ ("sepolia", "eip155:11155111")
    ∷ ("base-sepolia", "eip155:84532")
    ∷ []
