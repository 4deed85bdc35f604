-- ===== src/Registry.antt =====
-- contracts/src-ts/registry.ts: looking chains and tokens up.
pub mod Profiles
pub mod Laws
pub mod Rpc
use Prim.Native.String
use avok_js.Base.{
  ◌>>=◌, ℕ, String, ◌===◌, to_lower_case, to_text, if◌then◌else◌, Bool, ◌||◌, Option, none, some,
  List, [], ◌∷◌, ◌++◌, map, find_first, flat_map, Settled, fulfilled, throw,
}
use avok_js.Registry.Profiles.{EvmTokenProfile, EvmChainProfile, chain_profiles, chain_name_to_id}

-- An object used as a table: its own entries.
abbrev pub lookup {ℓ} : {V : Type ℓ} → String → List (String × V) → Option V
lookup k [] = none
lookup k ((j, v) ∷ t) = if j === k then some v else lookup k t

-- What a lookup by name finds: an entry, or a member that every object inherits.
pub data ChainId : Type 0 where
  id : String → ChainId
  prototype_member : ChainId

-- The members of `Object.prototype` whose names have no capital letter.
abbrev is_inherited : String → Bool
is_inherited k = k === "constructor" || k === "__proto__"

unfoldable pub get_chain_profile : ℕ → Option EvmChainProfile
get_chain_profile chain_id = lookup (String.◌++◌ "eip155:" (to_text chain_id)) chain_profiles

unfoldable pub get_token_profile : ℕ → String → Option EvmTokenProfile
get_token_profile chain_id token = elim (get_chain_profile chain_id) [
  | none ↦ none
  | some profile ↦ find_first (λ t. to_lower_case t.address === to_lower_case token) profile.tokens
]

unfoldable pub get_chain_profile_by_id : ChainId → Option EvmChainProfile
get_chain_profile_by_id (id k) = lookup k chain_profiles
get_chain_profile_by_id prototype_member = none

unfoldable pub resolve_anchor_chain : String → Settled EvmChainProfile
resolve_anchor_chain k = elim (lookup k chain_profiles) [
  | none ↦ throw "resolveAnchorChain: unknown chain id"
  | some profile ↦
      if profile.kind === "evm"
      then fulfilled profile
      else throw "resolveAnchorChain: anchor chain must be an EVM chain"
]

unfoldable pub resolve_chain_by_name : String → Settled ChainId
resolve_chain_by_name name =
    if is_inherited (to_lower_case name)
    then fulfilled prototype_member
    else elim (lookup (to_lower_case name) chain_name_to_id) [
      | none ↦ throw "resolveChainByName: unknown chain name"
      | some k ↦ fulfilled (id k)
    ]

unfoldable pub chain_id_number_by_name : String → Settled ℕ
chain_id_number_by_name name = do
  found ← resolve_chain_by_name name
  elim (get_chain_profile_by_id found) [
    | none ↦ throw "chainIdNumberByName: not an EVM chain"
    | some profile ↦
        if profile.kind === "evm"
        then fulfilled profile.chain_id
        else throw "chainIdNumberByName: not an EVM chain"
  ]

unfoldable pub list_chains : List EvmChainProfile
list_chains = map (λ e. e.1) chain_profiles

fee_tokens_of : Option String → EvmChainProfile → List (String × EvmTokenProfile)
fee_tokens_of none chain = map (λ t. (chain.id, t)) chain.tokens
fee_tokens_of (some k) chain = if chain.id === k then map (λ t. (chain.id, t)) chain.tokens else []

unfoldable pub list_fee_tokens : Option String → List (String × EvmTokenProfile)
unfolding fee_tokens_of list_chains
list_fee_tokens k = flat_map (fee_tokens_of k) list_chains
