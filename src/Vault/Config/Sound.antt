-- ===== src/Vault/Config/Sound.antt =====
-- A vault that is built from a configuration can be deployed.
use avok_js.Base.{
  ℕ, ◌≤◌, sym, throw, to_lower_case, ltb, ltb-false, ◌≡◌, ◌≢◌, refl, ◌∙◌, subst, String, ◌===◌,
  if◌then◌else◌, Bool, true, false, not, Option, none, some, List, [], ◌∷◌, length, All, Value,
  undefined, null, bool, num, str, arr, obj, Settled, fulfilled, rejected, ◌>>=◌, >>=-eq-fulfilled,
  fulfilled-injective, is_object, has_member, optional_member,
}
use avok_js.Channel.Web.{Url}
use avok_js.Registry.{
  lookup, ChainId, id, prototype_member, get_chain_profile_by_id, resolve_chain_by_name,
  chain_id_number_by_name,
}
use avok_js.Registry.Laws.{own_name, resolved_name-agrees}
use avok_js.Registry.Profiles.{EvmChainProfile, chain_profiles, chain_name_to_id}
use avok_js.Registry.Rpc.{RpcOverride}
use avok_js.Vault.Config.{
  VaultConfig, config_error, config_require, is_blank, placeholder_rp_id, is_registrable_suffix,
  text_member, text_given, first_chain, chain_names, chain_list, texts, parsed_origin, is_secure,
  parse_vault_config, rpcs_of, resolve_vault_rpcs, assert_rpc_redundancy, BakedAppConfig,
  baked_app_config, each_named, by_chain_id, urls_or, override_for, registry_rpcs,
}

required : (b : Bool) (m : String) {u : Unit {0}} → config_require b m ≡ fulfilled u → b ≡ true
required true m h = refl
required false m h = cc

required_not :
    (b : Bool) (m : String) {u : Unit {0}} → config_require (not b) m ≡ fulfilled u → b ≡ false
required_not true m h = cc
required_not false m h = refl

unblank :
    (b : Bool) (s t m : String)
    → (if b then config_error m else fulfilled s) ≡ fulfilled t
    → is_blank s ≡ b
    → is_blank t ≡ false
unblank true s t m h e = cc
unblank false s t m h e = subst (λ u. is_blank u ≡ false) (fulfilled-injective h) e

text_given-unblank :
    (k : String) (v : Value) (t : String) → text_given k v ≡ fulfilled t → is_blank t ≡ false
text_given-unblank k (str s) t h = unblank (is_blank s) s t _ h refl
text_given-unblank k undefined t h = cc
text_given-unblank k null t h = cc
text_given-unblank k (bool b) t h = cc
text_given-unblank k (num n) t h = cc
text_given-unblank k (arr vs) t h = cc
text_given-unblank k (obj ps) t h = cc

read_origin :
    (new_url : String → Settled Url) (s : String) (u : Url)
    → parsed_origin new_url s ≡ fulfilled u
    → new_url s ≡ fulfilled u
read_origin new_url s u h = kept (new_url s) h
  where
    kept :
        (r : Settled Url)
        → (elim r [
          | fulfilled w ↦ fulfilled w
          | rejected e ↦ config_error "vaultOrigin is not a URL"
        ])
          ≡ fulfilled u
        → r ≡ fulfilled u
    kept (fulfilled w) k = k
    kept (rejected e) k = cc

chain_list-nonempty :
    (o : Option (List String)) (cs : List String) → chain_list o ≡ fulfilled cs → cs ≢ []
chain_list-nonempty none cs h e = cc
chain_list-nonempty (some []) cs h e = cc
chain_list-nonempty (some (c ∷ ds)) cs h e = cc

chain_names-nonempty : (v : Value) (cs : List String) → chain_names v ≡ fulfilled cs → cs ≢ []
chain_names-nonempty (arr vs) cs h e = chain_list-nonempty (texts vs) cs h e
chain_names-nonempty undefined cs h e = cc
chain_names-nonempty null cs h e = cc
chain_names-nonempty (bool b) cs h e = cc
chain_names-nonempty (num n) cs h e = cc
chain_names-nonempty (str s) cs h e = cc
chain_names-nonempty (obj ps) cs h e = cc

rpcs_of-nonempty :
    (names : List String) (os : List (String × RpcOverride)) (rs : List (String × List String))
    → names ≢ []
    → rpcs_of names os ≡ fulfilled rs
    → rs ≢ []
rpcs_of-nonempty [] os rs n h e = n refl
rpcs_of-nonempty (name ∷ names) os rs n h e =
    let (urls, a, h1) =
      >>=-eq-fulfilled (urls_or (override_for name os) (registry_rpcs name)) _ h in
    let (rest, b, h2) = >>=-eq-fulfilled (rpcs_of names os) _ h1 in
    let same = fulfilled-injective h2 ∙ e in cc

abbrev pub IsRedundant : (String × List String) → Type 0
IsRedundant (name, urls) = 2 ≤ length urls

redundant_if :
    (b : Bool) (m : String) (k : Settled (Unit {0})) {u : Unit {0}}
    → (if b then config_error m else k) ≡ fulfilled u
    → (b ≡ false) × (k ≡ fulfilled u)
redundant_if true m k h = cc
redundant_if false m k h = (refl, h)

assert_rpc_redundancy-IsRedundant :
    (rs : List (String × List String)) {u : Unit {0}}
    → assert_rpc_redundancy rs ≡ fulfilled u
    → All IsRedundant rs
unfolding assert_rpc_redundancy
assert_rpc_redundancy-IsRedundant [] h = tt
assert_rpc_redundancy-IsRedundant ((name, urls) ∷ rs) h =
    let (few, rest) = redundant_if (ltb (length urls) 2) _ (assert_rpc_redundancy rs) h in
    (ltb-false (length urls) 2 few, assert_rpc_redundancy-IsRedundant rs rest)

-- The table of names has this one, whatever the case of its letters, for a profile with this number.
pub record IsRegistered (name : String) (chain_id : ℕ) : Type 0 where
  pub k : String
  pub profile : EvmChainProfile
  pub is_named : lookup (to_lower_case name) chain_name_to_id ≡ some k
  pub has_profile : lookup k chain_profiles ≡ some profile
  pub numbered : profile.chain_id ≡ chain_id

chain_id_number_by_name-IsRegistered :
    (name : String) (n : ℕ) → chain_id_number_by_name name ≡ fulfilled n → IsRegistered name n
unfolding chain_id_number_by_name get_chain_profile_by_id
chain_id_number_by_name-IsRegistered name n h =
    let (found, resolved, numbered) = >>=-eq-fulfilled (resolve_chain_by_name name) _ h in
    by_found found resolved numbered
  where
    by_found :
        (f : ChainId)
        → resolve_chain_by_name name ≡ fulfilled f
        → (elim (get_chain_profile_by_id f) as (λ _. Settled ℕ) [
          | none ↦ throw "chainIdNumberByName: not an EVM chain"
          | some profile ↦
              if profile.kind === "evm"
              then fulfilled profile.chain_id
              else throw "chainIdNumberByName: not an EVM chain"
        ])
          ≡ fulfilled n
        → IsRegistered name n
    by_found prototype_member resolved numbered = cc
    by_found (id k) resolved numbered =
        let (p, found, number, back) = resolved_name-agrees name k resolved in
        record {
          k = k;
          profile = p;
          is_named = own_name name k resolved;
          has_profile = found;
          numbered = fulfilled-injective (sym number ∙ h);
        }

-- Each name's endpoints are kept under the number of its registered chain.
abbrev pub Serves : List (String × List String) → List (ℕ × List String) → Type 0
Serves [] [] = Unit
Serves ((name, urls) ∷ rs) ((n, us) ∷ bs) = IsRegistered name n × (us ≡ urls) × Serves rs bs
Serves _ _ = ⊥

by_chain_id-Serves :
    (rs : List (String × List String)) (bs : List (ℕ × List String))
    → by_chain_id rs ≡ fulfilled bs
    → Serves rs bs
by_chain_id-Serves [] [] h = tt
by_chain_id-Serves [] (b ∷ bs) h = cc
by_chain_id-Serves ((name, urls) ∷ rs) bs h =
    let (n, named, h1) = >>=-eq-fulfilled (chain_id_number_by_name name) _ h in
    let (more, rest, same) = >>=-eq-fulfilled (by_chain_id rs) _ h1 in
    subst (Serves ((name, urls) ∷ rs)) (fulfilled-injective same)
      (chain_id_number_by_name-IsRegistered name n named, refl, by_chain_id-Serves rs more rest)

-- What the page that is built relies on.
pub record IsDeployable (new_url : String → Settled Url) (baked : BakedAppConfig) : Type 0 where
  pub rp_id_given : is_blank baked.rp_id ≡ false
  pub rp_id_set : (baked.rp_id === placeholder_rp_id) ≡ false
  pub url : Url
  pub origin_read : new_url baked.vault_origin ≡ fulfilled url
  pub secure : is_secure new_url url ≡ true
  pub rp_id_valid : is_registrable_suffix baked.rp_id url.hostname ≡ true
  pub serves_chains : baked.rpc_urls ≢ []
  pub redundant : All IsRedundant baked.rpc_urls
  pub known_chains : Serves baked.rpc_urls baked.rpc_urls_by_chain_id

module _ (new_url : String → Settled Url) where
  -- A parsed configuration, as the build relies on it.
  record IsChecked (c : VaultConfig) : Type 0 where
    rp_id_given : is_blank c.rp_id ≡ false
    rp_id_set : (c.rp_id === placeholder_rp_id) ≡ false
    url : Url
    origin_read : new_url c.vault_origin ≡ fulfilled url
    secure : is_secure new_url url ≡ true
    rp_id_valid : is_registrable_suffix c.rp_id url.hostname ≡ true
    has_chains : c.chains ≢ []

  parse_vault_config-IsChecked :
      (raw : Value) (c : VaultConfig) → parse_vault_config new_url raw ≡ fulfilled c → IsChecked c
  unfolding parse_vault_config
  parse_vault_config-IsChecked raw c h =
      let (u₁, object, h1) = >>=-eq-fulfilled (config_require (is_object raw) _) _ h in
      let (u₂, no_anchor, h2) =
        >>=-eq-fulfilled (config_require (not (has_member "anchorChainId" raw)) _) _ h1 in
      let (rp_id, rp_id_read, h3) = >>=-eq-fulfilled (text_member "rpId" raw) _ h2 in
      let (u₃, set, h4) =
        >>=-eq-fulfilled (config_require (not (rp_id === placeholder_rp_id)) _) _ h3 in
      let (origin, origin_given, h5) = >>=-eq-fulfilled (text_member "vaultOrigin" raw) _ h4 in
      let (url, url_read, h6) = >>=-eq-fulfilled (parsed_origin new_url origin) _ h5 in
      let (u₄, secure, h7) = >>=-eq-fulfilled (config_require (is_secure new_url url) _) _ h6 in
      let (u₅, valid, h8) =
        >>=-eq-fulfilled (config_require (is_registrable_suffix rp_id url.hostname) _) _ h7 in
      let (chains, chains_read, h9) =
        >>=-eq-fulfilled (chain_names (optional_member "chains" raw)) _ h8 in
      let (u₆, all_named, same) = >>=-eq-fulfilled (each_named chains) _ h9 in
      subst IsChecked (fulfilled-injective same) (record {
        rp_id_given = text_given-unblank "rpId" (optional_member "rpId" raw) rp_id rp_id_read;
        rp_id_set = required_not _ _ set;
        url = url;
        origin_read = read_origin new_url origin url url_read;
        secure = required _ _ secure;
        rp_id_valid = required _ _ valid;
        has_chains = chain_names-nonempty (optional_member "chains" raw) chains chains_read;
      })

  baked_app_config-IsDeployable :
      (c : VaultConfig) (baked : BakedAppConfig)
      → IsChecked c
      → baked_app_config c ≡ fulfilled baked
      → IsDeployable new_url baked
  unfolding baked_app_config resolve_vault_rpcs
  baked_app_config-IsDeployable c baked k h =
      let (rpc_urls, resolved, h1) = >>=-eq-fulfilled (resolve_vault_rpcs c) _ h in
      let (u, redundant, h2) = >>=-eq-fulfilled (assert_rpc_redundancy rpc_urls) _ h1 in
      let (by_id, numbered, h3) = >>=-eq-fulfilled (by_chain_id rpc_urls) _ h2 in
      let (recovery, chosen, same) =
        >>=-eq-fulfilled (chain_id_number_by_name (first_chain c.chains)) _ h3 in
      subst (IsDeployable new_url) (fulfilled-injective same) (record {
        rp_id_given = k.rp_id_given;
        rp_id_set = k.rp_id_set;
        url = k.url;
        origin_read = k.origin_read;
        secure = k.secure;
        rp_id_valid = k.rp_id_valid;
        serves_chains = rpcs_of-nonempty c.chains c.rpc_overrides rpc_urls k.has_chains resolved;
        redundant = assert_rpc_redundancy-IsRedundant rpc_urls redundant;
        known_chains = by_chain_id-Serves rpc_urls by_id numbered;
      })

  -- A configuration that is parsed and baked gives a page whose RP ID is no blank and no placeholder and is
  -- the host of its origin or a suffix of it at a dot, whose origin is a URL with https or on this machine,
  -- which serves some chain and has at least two RPC endpoints for each, and whose chains are each in the
  -- registry by name, with their endpoints under the number of the chain's profile.
  pub built_vault-IsDeployable :
      (raw : Value) (baked : BakedAppConfig)
      → (parse_vault_config new_url raw >>= baked_app_config) ≡ fulfilled baked
      → IsDeployable new_url baked
  built_vault-IsDeployable raw baked h =
      let (c, parsed, h1) = >>=-eq-fulfilled (parse_vault_config new_url raw) _ h in
      baked_app_config-IsDeployable c baked (parse_vault_config-IsChecked raw c parsed) h1
