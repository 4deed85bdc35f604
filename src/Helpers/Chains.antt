-- ===== src/Helpers/Chains.antt =====
-- packages/core/src/helpers/chains.ts and explorers.ts: the chains that an app shows.
pub mod Agree
use Prim.Native.String
use avok_js.Base.{
  ℕ, zero, suc, ◌==◌, ltb, String, ◌===◌, to_text, if◌then◌else◌, Bool, true, false, Option, none,
  some, List, [], ◌∷◌, map, find_first, Settled, fulfilled, rejected, ◌≡◌, refl,
}
use avok_js.Registry.{list_chains, get_chain_profile}
use avok_js.Registry.Profiles.{EvmTokenProfile, EvmChainProfile}
use avok_js.Registry.Rpc.{RpcOverrides, evm_rpc_urls}
use avok_js.Helpers.Amount.{ℤ, pos, format_amount}

abbrev pub number_else {ℓ} : {V : Type ℓ} → ℕ → List (ℕ × V) → V → V
number_else n [] other = other
number_else n ((m, v) ∷ t) other = if m == n then v else number_else n t other

abbrev pub evm_explorer : List (ℕ × String)
evm_explorer =
    (1, "https://etherscan.io")
    ∷ (10, "https://optimistic.etherscan.io")
    ∷ (56, "https://bscscan.com")
    ∷ (8453, "https://basescan.org")
    ∷ (84532, "https://sepolia.basescan.org")
    ∷ (42161, "https://arbiscan.io")
    ∷ (5042002, "https://testnet.arcscan.app")
    ∷ []

abbrev pub evm_explorer_tx_url : (chain_id : ℕ) → (hash : String) → String
evm_explorer_tx_url chain_id hash =
    String.◌++◌ (number_else chain_id evm_explorer "https://blockscan.com")
      (String.◌++◌ "/tx/" hash)

abbrev pub native_symbol : List (ℕ × String)
native_symbol =
    (1, "ETH")
    ∷ (10, "ETH")
    ∷ (8453, "ETH")
    ∷ (42161, "ETH")
    ∷ (56, "BNB")
    ∷ (5042002, "USDC")
    ∷ (11155111, "ETH")
    ∷ []

abbrev pub order : List ℕ
order = 5042002 ∷ 8453 ∷ 10 ∷ 42161 ∷ 1 ∷ 56 ∷ 11155111 ∷ []

name_else : (chain_id : ℕ) → Option EvmChainProfile → String
name_else chain_id none = String.◌++◌ "Chain " (to_text chain_id)
name_else chain_id (some p) = p.name

unfoldable pub chain_name : (chain_id : ℕ) → String
unfolding name_else
chain_name chain_id = name_else chain_id (get_chain_profile chain_id)

pub record ChainInfo : Type 0 where
  pub id : ℕ
  pub name : String
  pub native_symbol : String
  pub native_decimals : ℕ
  pub tokens : List EvmTokenProfile
  pub explorer_tx_url : (hash : String) → String

abbrev pub to_chain_info : EvmChainProfile → ChainInfo
to_chain_info p = record {
  id = p.chain_id;
  name = p.name;
  native_symbol = number_else p.chain_id native_symbol "ETH";
  native_decimals = 18;
  tokens = p.tokens;
  explorer_tx_url = evm_explorer_tx_url p.chain_id;
}

-- The index of a chain in an order, or the greatest safe integer.
abbrev pub rank : (at : ℕ) → List ℕ → ℕ → ℕ
rank at [] n = 9007199254740991
rank at (m ∷ ms) n = if m == n then at else rank (suc at) ms n

abbrev pub before : ChainInfo → ChainInfo → Bool
before a b = ltb (rank 0 order a.id) (rank 0 order b.id)

-- A stable sort: a chain goes behind those that it is not before.
abbrev pub insert : ChainInfo → List ChainInfo → List ChainInfo
insert c [] = c ∷ []
insert c (d ∷ ds) = if before d c then d ∷ insert c ds else c ∷ d ∷ ds

abbrev pub sort : List ChainInfo → List ChainInfo
sort [] = []
sort (c ∷ cs) = insert c (sort cs)

abbrev pub filter {ℓ} : {A : Type ℓ} → (A → Bool) → List A → List A
filter p [] = []
filter p (x ∷ xs) = let rest = filter p xs in if p x then x ∷ rest else rest

unfoldable pub evm_chains : List ChainInfo
unfolding list_chains
evm_chains = sort (map to_chain_info (filter (λ p. p.kind === "evm") list_chains))

unfoldable pub get_chain : (chain_id : ℕ) → Option ChainInfo
get_chain chain_id = find_first (λ c. c.id == chain_id) evm_chains

abbrev pub is_usable_chain : ChainInfo → Bool
is_usable_chain chain = elim chain.tokens [ [] ↦ false | _ ∷ _ ↦ true ]

unfoldable pub selectable_chains : List ChainInfo
selectable_chains = filter is_usable_chain evm_chains

order_test :
    map (λ c. c.id) evm_chains ≡ 5042002 ∷ 8453 ∷ 10 ∷ 42161 ∷ 1 ∷ 56 ∷ 11155111 ∷ 4663 ∷ 84532 ∷ []
unfolding evm_chains
order_test = refl

selectable_test :
    map (λ c. c.id) selectable_chains ≡ 5042002 ∷ 8453 ∷ 10 ∷ 42161 ∷ 1 ∷ 56 ∷ 4663 ∷ 84532 ∷ []
unfolding selectable_chains evm_chains
selectable_test = refl
