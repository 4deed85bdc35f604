-- ===== src/Registry/Rpc.antt =====
-- contracts/src-ts/rpc.ts: the endpoints of a chain.
pub mod Redundancy
use Prim.Native.String
use avok_js.Base.{
  ℕ, ◌≤◌, ◌≡◌, refl, String, Bool, true, false, not, Option, none, some, List, [], ◌∷◌, length, All,
  Settled, fulfilled, throw, ◌>>=◌,
}
use avok_js.Registry.Profiles.{EvmChainProfile}
use avok_js.Registry.{get_chain_profile}

-- One URL, or a list of them.
pub data RpcOverride : Type 0 where
  one_url : String → RpcOverride
  many_urls : List String → RpcOverride

-- `overrides?.evm`: the override of each chain's number.
abbrev pub RpcOverrides : Type 0
RpcOverrides = ℕ → Option RpcOverride

abbrev pub normalize_override : RpcOverride → List String
normalize_override (one_url url) = url ∷ []
normalize_override (many_urls urls) = urls

-- The test `if (override)`: an empty text counts as none, an empty list does not.
abbrev pub is_override : Option RpcOverride → Bool
is_override none = false
is_override (some (one_url String.[])) = false
is_override (some (one_url (String.◌∷◌ c s))) = true
is_override (some (many_urls urls)) = true

abbrev pub default_urls : ℕ → Settled (List String)
default_urls chain_id = elim (get_chain_profile chain_id) [
  | none ↦ throw "No RPC for this chain: not in the registry and no override given."
  | some profile ↦ fulfilled profile.default_rpc
]

abbrev pub urls_of_override : Option RpcOverride → Settled (List String) → Settled (List String)
urls_of_override none default = default
urls_of_override (some (one_url String.[])) default = default
urls_of_override (some (one_url (String.◌∷◌ c s))) default =
    fulfilled (normalize_override (one_url (String.◌∷◌ c s)))
urls_of_override (some (many_urls urls)) default = fulfilled (normalize_override (many_urls urls))

unfoldable pub evm_rpc_urls : ℕ → RpcOverrides → Settled (List String)
evm_rpc_urls chain_id overrides = urls_of_override (overrides chain_id) (default_urls chain_id)

-- `urls[0]`, none where the list is empty.
abbrev first_url : List String → Option String
first_url [] = none
first_url (url ∷ urls) = some url

unfoldable pub evm_rpc_url : ℕ → RpcOverrides → Settled (Option String)
evm_rpc_url chain_id overrides = do
  urls ← evm_rpc_urls chain_id overrides
  fulfilled (first_url urls)

unfoldable pub is_public_default_rpc : ℕ → RpcOverrides → Bool
is_public_default_rpc chain_id overrides = not (is_override (overrides chain_id))
