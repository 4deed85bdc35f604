-- ===== src/Registry/Rpc/Redundancy.antt =====
-- contracts/src-ts/rpc.ts: how many public endpoints a chain has.
use avok_js.Base.{
  ℕ, ◌≤◌, ◌≡◌, refl, sym, subst, String, Bool, true, false, Option, none, some, List, length, All,
  Settled, fulfilled, fulfilled-injective, arith, ◌∙◌, throw, not,
}
use avok_js.Registry.Profiles.{EvmChainProfile, chain_profiles}
use avok_js.Registry.{get_chain_profile}
use avok_js.Registry.Laws.{lookup-All, caip2}
use avok_js.Registry.Rpc.{
  RpcOverride, one_url, many_urls, RpcOverrides, is_override, default_urls, urls_of_override,
  evm_rpc_urls, is_public_default_rpc,
}

-- At least two endpoints.
abbrev pub IsRedundant : List String → Type 0
IsRedundant urls = 2 ≤ length urls

chain_profiles-IsRedundant : All (λ e. IsRedundant e.1.default_rpc) chain_profiles
chain_profiles-IsRedundant =
    let two : 2 ≤ 2 = omega arith in
    (two, (two, (two, (two, (two, (two, (two, (two, (two, tt)))))))))

-- Without an override the endpoints are the default ones.
not_overridden :
    (o : Option RpcOverride) (default : Settled (List String))
    → is_override o ≡ false
    → urls_of_override o default ≡ default
not_overridden none default h = refl
not_overridden (some (one_url String.[])) default h = refl
not_overridden (some (one_url (String.◌∷◌ c s))) default h = cc
not_overridden (some (many_urls urls)) default h = cc

not-true : (b : Bool) → not b ≡ true → b ≡ false
not-true true h = cc
not-true false h = refl

default_in :
    (o : Option EvmChainProfile) (urls : List String)
    → (elim o as (λ _. Settled (List String)) [
      | none ↦ throw "No RPC for this chain: not in the registry and no override given."
      | some profile ↦ fulfilled profile.default_rpc
    ])
      ≡ fulfilled urls
    → (p : EvmChainProfile) × (o ≡ some p) × (p.default_rpc ≡ urls)
default_in none urls h = cc
default_in (some p) urls h = (p, refl, fulfilled-injective h)

-- On the public endpoints, a chain that has any is registered, and they are the two or more of its
-- profile.
pub public_default-IsRedundant :
    (n : ℕ) (overrides : RpcOverrides) (urls : List String)
    → is_public_default_rpc n overrides ≡ true
    → evm_rpc_urls n overrides ≡ fulfilled urls
    → IsRedundant urls
      × ((p : EvmChainProfile) × (get_chain_profile n ≡ some p) × (p.default_rpc ≡ urls))
unfolding is_public_default_rpc evm_rpc_urls get_chain_profile
public_default-IsRedundant n overrides urls h e =
    let plain : is_override (overrides n) ≡ false = not-true (is_override (overrides n)) h in
    let (p, f, g) =
      default_in (get_chain_profile n) urls
        (sym (not_overridden (overrides n) (default_urls n) plain) ∙ e) in
    (
      subst IsRedundant g (
          lookup-All (λ k q. IsRedundant q.default_rpc) (caip2 n) chain_profiles
            chain_profiles-IsRedundant f),
      (p, f, g),
    )
