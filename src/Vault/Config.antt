-- ===== src/Vault/Config.antt =====
-- packages/vault/src/config.ts: the operator's configuration, checked when the vault is built.
pub mod Sound
use Prim.Native.String
use Prim.Native.Char.{code}
use avok_js.Base.{
  ℕ, leb, ltb, ◌==◌, String, ◌===◌, if◌then◌else◌, Bool, true, false, not, ◌&&◌, ◌||◌, all, Option,
  none, some, ◌or_else◌, List, [], ◌∷◌, ◌++◌, length, map, property, Value, Props, Items, end, prop,
  arr, obj, str, items, nil, cons, Failure, Settled, fulfilled, rejected, ◌>>=◌, ◌>>◌, has_member,
  is_string, is_object, optional_member, to_text,
}
use avok_js.Channel.Web.{Url, is_localhost}
use avok_js.Registry.{
  ChainId, resolve_chain_by_name, get_chain_profile_by_id, chain_id_number_by_name,
}
use avok_js.Registry.Profiles.{EvmChainProfile}
use avok_js.Registry.Rpc.{RpcOverride, one_url, many_urls}

pub record VaultConfig : Type 0 where
  pub rp_id : String
  pub vault_origin : String
  pub chains : List String
  pub rpc_overrides : List (String × RpcOverride)
  pub operator_name : Option String
  pub management_url : Option String

abbrev pub config_error {ℓ} : {A : Type ℓ} → String → Settled A
config_error message = rejected (record { name = "VaultConfigError"; message = message })

abbrev pub config_require : Bool → String → Settled (Unit {0})
config_require true message = fulfilled tt
config_require false message = config_error message

-- The code points that `trim` removes.
abbrev pub is_space : ℕ → Bool
is_space n =
    (leb 9 n && leb n 13)
    || (n == 32)
    || (n == 160)
    || (n == 5760)
    || (leb 8192 n && leb n 8202)
    || (n == 8232)
    || (n == 8233)
    || (n == 8239)
    || (n == 8287)
    || (n == 12288)
    || (n == 65279)

-- `s.trim() === ""`
abbrev pub is_blank : String → Bool
is_blank String.[] = true
is_blank (String.◌∷◌ c s) = is_space (code c) && is_blank s

-- `s.endsWith(t)`
abbrev pub ends_with : String → String → Bool
ends_with String.[] t = String.[] === t
ends_with (String.◌∷◌ c s) t = let rest = ends_with s t in (String.◌∷◌ c s === t) || rest

abbrev pub placeholder_rp_id : String
placeholder_rp_id = "wallet.example.com"

abbrev pub is_registrable_suffix : (rp_id host : String) → Bool
is_registrable_suffix rp_id host = (rp_id === host) || ends_with host (String.◌++◌ "." rp_id)

abbrev pub text_given : String → Value → Settled String
text_given k (str s) =
    if is_blank s then config_error (String.◌++◌ k " is required") else fulfilled s
text_given k v = config_error (String.◌++◌ k " is required")

abbrev pub text_member : String → Value → Settled String
text_member k v = text_given k (optional_member k v)

-- The elements of an array of texts only.
abbrev pub texts : Items → Option (List String)
texts nil = some []
texts (cons (str s) vs) = elim (texts vs) [ none ↦ none | some ss ↦ some (s ∷ ss) ]
texts (cons v vs) = none

abbrev pub no_chains {ℓ} : {A : Type ℓ} → Settled A
no_chains = config_error "chains is required and must be a non-empty array of registry chain names"

abbrev pub chain_list : Option (List String) → Settled (List String)
chain_list (some (c ∷ cs)) = fulfilled (c ∷ cs)
chain_list _ = no_chains

abbrev pub chain_names : Value → Settled (List String)
chain_names (arr vs) = chain_list (texts vs)
chain_names v = no_chains

abbrev pub named : Settled ChainId → Settled (Unit {0})
named (fulfilled k) = fulfilled tt
named (rejected e) = config_error e.message

-- Every name must resolve.
abbrev pub each_named : List String → Settled (Unit {0})
each_named [] = fulfilled tt
each_named (name ∷ names) = named (resolve_chain_by_name name) >>= λ _. each_named names

abbrev pub urls_of : Option (List String) → Option RpcOverride
urls_of (some (u ∷ us)) = some (many_urls (u ∷ us))
urls_of _ = none

abbrev pub override_of : Value → Option RpcOverride
override_of (str s) = some (one_url s)
override_of (arr vs) = urls_of (texts vs)
override_of v = none

abbrev pub kept_override :
    String → Option RpcOverride → List (String × RpcOverride) → List (String × RpcOverride)
kept_override k none rest = rest
kept_override k (some o) rest = (k, o) ∷ rest

-- An entry of another shape is left out.
abbrev pub overrides_of : Props → List (String × RpcOverride)
overrides_of end = []
overrides_of (prop k v ps) = kept_override k (override_of v) (overrides_of ps)

abbrev pub rpc_overrides_of : Value → List (String × RpcOverride)
rpc_overrides_of (obj ps) = overrides_of ps
rpc_overrides_of v = []

abbrev pub text_or_none : Value → Option String
text_or_none (str s) = some s
text_or_none v = none

module _ (new_url : String → Settled Url) where
  abbrev pub parsed_origin : String → Settled Url
  parsed_origin vault_origin = elim (new_url vault_origin) [
    | fulfilled u ↦ fulfilled u
    | rejected e ↦ config_error "vaultOrigin is not a URL"
  ]

  abbrev pub is_secure : Url → Bool
  is_secure u = (u.protocol === "https:") || is_localhost u.hostname

  unfoldable pub parse_vault_config : Value → Settled VaultConfig
  unfolding resolve_chain_by_name
  parse_vault_config raw = do
    config_require (is_object raw) "avok-origin.config.json must contain a JSON object"
    config_require (not (has_member "anchorChainId" raw))
        "anchorChainId is not a Vault config value"
    rp_id ← text_member "rpId" raw
    config_require (not (rp_id === placeholder_rp_id)) "rpId is still the placeholder"
    vault_origin ← text_member "vaultOrigin" raw
    url ← parsed_origin vault_origin
    config_require (is_secure url) "vaultOrigin must use https"
    config_require (is_registrable_suffix rp_id url.hostname) "rpId is not valid for the Vault"
    chains ← chain_names (optional_member "chains" raw)
    each_named chains
    fulfilled (record {
      rp_id = rp_id;
      vault_origin = vault_origin;
      chains = chains;
      rpc_overrides = rpc_overrides_of (optional_member "rpcOverrides" raw);
      operator_name =
          text_or_none (optional_member "operatorName" (optional_member "branding" raw));
      management_url = text_or_none (optional_member "managementUrl" raw);
    })

-- The last entry of a name that an object was given twice.
abbrev pub override_for : String → List (String × RpcOverride) → Option RpcOverride
override_for name [] = none
override_for name ((k, o) ∷ os) =
    let rest = override_for name os in
    elim rest [ some r ↦ some r | none ↦ if k === name then some o else none ]

abbrev pub default_rpcs : Option EvmChainProfile → Settled (List String)
default_rpcs none = config_error "chain has no RPC default in the registry"
default_rpcs (some profile) =
    if profile.kind === "evm"
    then fulfilled profile.default_rpc
    else config_error "chain has no RPC default in the registry"

abbrev pub registry_rpcs : String → Settled (List String)
registry_rpcs name = resolve_chain_by_name name >>= λ k. default_rpcs (get_chain_profile_by_id k)

abbrev pub urls_or : Option RpcOverride → Settled (List String) → Settled (List String)
urls_or none default = default
urls_or (some (one_url String.[])) default = default
urls_or (some (one_url (String.◌∷◌ c s))) default = fulfilled (String.◌∷◌ c s ∷ [])
urls_or (some (many_urls us)) default = fulfilled us

abbrev pub rpcs_of :
    List String → List (String × RpcOverride) → Settled (List (String × List String))
rpcs_of [] overrides = fulfilled []
rpcs_of (name ∷ names) overrides = do
  urls ← urls_or (override_for name overrides) (registry_rpcs name)
  rest ← rpcs_of names overrides
  fulfilled ((name, urls) ∷ rest)

unfoldable pub resolve_vault_rpcs : VaultConfig → Settled (List (String × List String))
unfolding resolve_chain_by_name get_chain_profile_by_id
resolve_vault_rpcs config = rpcs_of config.chains config.rpc_overrides

-- At least two endpoints for each chain.
unfoldable pub assert_rpc_redundancy : List (String × List String) → Settled (Unit {0})
assert_rpc_redundancy [] = fulfilled tt
assert_rpc_redundancy ((name, urls) ∷ rest) =
    let checked = assert_rpc_redundancy rest in
    if ltb (length urls) 2
    then config_error "at least 2 independent providers are required"
    else checked

pub record BakedAppConfig : Type 0 where
  pub operator_name : String
  pub vault_origin : String
  pub rp_id : String
  pub management_url : Option String
  pub rpc_urls : List (String × List String)
  pub rpc_urls_by_chain_id : List (ℕ × List String)
  pub recovery_chain_id : ℕ

abbrev pub by_chain_id : List (String × List String) → Settled (List (ℕ × List String))
by_chain_id [] = fulfilled []
by_chain_id ((name, urls) ∷ rest) = do
  n ← chain_id_number_by_name name
  more ← by_chain_id rest
  fulfilled ((n, urls) ∷ more)

abbrev pub first_chain : List String → String
first_chain [] = "undefined"
first_chain (c ∷ cs) = c

-- An empty text is left out.
abbrev pub given_url : Option String → Option String
given_url none = none
given_url (some u) = if u === "" then none else some u

unfoldable pub baked_app_config : VaultConfig → Settled BakedAppConfig
unfolding resolve_vault_rpcs assert_rpc_redundancy chain_id_number_by_name
baked_app_config config = do
  rpc_urls ← resolve_vault_rpcs config
  assert_rpc_redundancy rpc_urls
  by_id ← by_chain_id rpc_urls
  recovery ← chain_id_number_by_name (first_chain config.chains)
  fulfilled (record {
    operator_name = config.operator_name or_else config.rp_id;
    vault_origin = config.vault_origin;
    rp_id = config.rp_id;
    management_url = given_url config.management_url;
    rpc_urls = rpc_urls;
    rpc_urls_by_chain_id = by_id;
    recovery_chain_id = recovery;
  })
