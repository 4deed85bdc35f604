-- ===== src/Tests/Vault.antt =====
-- The theorem on the vault's configuration at a concrete one.
use avok_js.Base.{
  refl, String, none, List, [], ◌∷◌, Value, str, arr, obj, end, prop, nil, cons, Settled, fulfilled,
  to_lower_case,
}
use avok_js.Channel.Web.{Url}
use avok_js.Registry.{resolve_chain_by_name, get_chain_profile_by_id, chain_id_number_by_name}
use avok_js.Vault.Config.{
  BakedAppConfig, parse_vault_config, baked_app_config, resolve_vault_rpcs, assert_rpc_redundancy,
}
use avok_js.Vault.Config.Sound.{IsDeployable, built_vault-IsDeployable}

abbrev at_vault : String → Settled Url
at_vault t = fulfilled (record { protocol = "https:"; hostname = "vault.example1.com"; origin = t })

abbrev two_urls : List String
two_urls = "https://a.example" ∷ "https://b.example" ∷ []

abbrev operator_config : Value
operator_config = obj (
    prop "rpId" (str "example1.com") (
      prop "vaultOrigin" (str "https://vault.example1.com") (
        prop "chains" (arr (cons (str "base") nil)) (
          prop "rpcOverrides"
            (obj (
              prop "base"
                (arr (cons (str "https://a.example") (cons (str "https://b.example") nil))) end))
            end))))

abbrev built : BakedAppConfig
built = record {
  operator_name = "example1.com";
  vault_origin = "https://vault.example1.com";
  rp_id = "example1.com";
  management_url = none;
  rpc_urls = ("base", two_urls) ∷ [];
  rpc_urls_by_chain_id = (8453, two_urls) ∷ [];
  recovery_chain_id = 8453;
}

built_vault-IsDeployable_example : IsDeployable at_vault built
unfolding parse_vault_config baked_app_config resolve_vault_rpcs assert_rpc_redundancy
    resolve_chain_by_name get_chain_profile_by_id chain_id_number_by_name to_lower_case
built_vault-IsDeployable_example = built_vault-IsDeployable at_vault operator_config built refl
