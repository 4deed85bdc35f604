-- ===== src/Helpers/Balances/Shown.antt =====
-- packages/core/src/helpers/balances.ts: what is to be shown of the assets of a chain.
use avok_js.Base.{
  ℕ, ◌≡◌, refl, ap, sym, subst, String, Option, none, some, List, [], ◌∷◌, map, All, Settled,
  fulfilled, rejected, ◌>>=◌,
}
use avok_js.Registry.{get_chain_profile}
use avok_js.Registry.Profiles.{EvmChainProfile, EvmTokenProfile}
use avok_js.Registry.Rpc.{
  RpcOverrides, RpcOverride, one_url, many_urls, default_urls, urls_of_override, evm_rpc_urls,
}
use avok_js.Helpers.Amount.ReadBack.{read_amount, format_amount-read_back}
use avok_js.Helpers.Chains.{to_chain_info}
use avok_js.Helpers.Chains.Agree.{info_of, get_chain-agrees}
use avok_js.Helpers.Balances.{
  TokenBalance, PublicClient, token_balance, balances_on, balances_of, read_balances, or_zero,
}

-- The text of a balance stands for the balance.
abbrev pub IsShown : TokenBalance → Type 0
IsShown b = read_amount b.decimals b.formatted ≡ b.base

-- The assets of a profile: the native one, and the tokens in order.
abbrev pub addresses : EvmChainProfile → List (Option String)
addresses p = none ∷ map (λ t. some t.address) p.tokens

-- What the client answers for each asset, where a read that fails counts as 0.
abbrev pub amounts : PublicClient → (address : String) → EvmChainProfile → List ℕ
amounts client a p =
    or_zero (client.get_balance a) ∷ map (λ t. or_zero (client.balance_of t.address a)) p.tokens

urls_found :
    (o : Option RpcOverride) (default : Settled (List String)) (urls : List String)
    → default ≡ fulfilled urls
    → (found : List String) × (urls_of_override o default ≡ fulfilled found)
urls_found none default urls h = (urls, h)
urls_found (some (one_url String.[])) default urls h = (urls, h)
urls_found (some (one_url (String.◌∷◌ c s))) default urls h = (_, refl)
urls_found (some (many_urls found)) default urls h = (found, refl)

-- The balances are these assets, with these amounts, each shown.
pub record AreOf (client : PublicClient) (a : String) (assets : List (Option String))
    (amounts : List ℕ) (bs : List TokenBalance) : Type 0 where
  pub shown : All IsShown bs
  pub each_asset : map (λ b. b.address) bs ≡ assets
  pub as_answered : map (λ b. b.base) bs ≡ amounts

module _ (client : PublicClient) (a : String) where
  tokens-AreOf :
      (ts : List EvmTokenProfile)
      → AreOf client a
          (map (λ t. some t.address) ts)
          (map (λ t. or_zero (client.balance_of t.address a)) ts)
          (map (token_balance client a) ts)
  tokens-AreOf [] = record { shown = tt; each_asset = refl; as_answered = refl }
  tokens-AreOf (t ∷ ts) =
      let rest = tokens-AreOf ts in
      record {
        shown = ((format_amount-read_back _ t.decimals).0, rest.shown);
        each_asset = ap (λ l. some t.address ∷ l) rest.each_asset;
        as_answered = ap (λ l. or_zero (client.balance_of t.address a) ∷ l) rest.as_answered;
      }

  balances_on-AreOf :
      (p : EvmChainProfile)
      → AreOf client a (addresses p) (amounts client a p) (balances_on client (to_chain_info p) a)
  balances_on-AreOf p =
      let rest = tokens-AreOf p.tokens in
      record {
        shown = ((format_amount-read_back _ 18).0, rest.shown);
        each_asset = ap (λ l. none ∷ l) rest.each_asset;
        as_answered = ap (λ l. or_zero (client.get_balance a) ∷ l) rest.as_answered;
      }

-- What comes of a client that was made, or that could not be made.
abbrev pub ShownBy :
    Settled PublicClient → String → EvmChainProfile → Settled (List TokenBalance) → Type 0
ShownBy (rejected e) a p r = r ≡ rejected e
ShownBy (fulfilled client) a p r =
    (bs : List TokenBalance) × (r ≡ fulfilled bs)
    × AreOf client a (addresses p) (amounts client a p) bs

-- What comes of a chain, by its profile and its endpoints.
abbrev pub ShowsAll :
    (List String → Settled PublicClient)
    → String
    → Settled (List String)
    → Option EvmChainProfile
    → Settled (List TokenBalance)
    → Type 0
ShowsAll public_client a urls none r = r ≡ fulfilled []
ShowsAll public_client a urls (some p) r =
    (found : List String) × (urls ≡ fulfilled found) × ShownBy (public_client found) a p r

module _ (public_client : List String → Settled PublicClient) (a : String) where
  made_shown :
      (made : Settled PublicClient) (p : EvmChainProfile)
      → ShownBy made a p (made >>= λ client. fulfilled (balances_on client (to_chain_info p) a))
  made_shown (fulfilled client) p = (_, refl, balances_on-AreOf client a p)
  made_shown (rejected e) p = refl

  on_chain_shown :
      (chain_id : ℕ) (rpc_urls : RpcOverrides) (o : Option EvmChainProfile)
      → get_chain_profile chain_id ≡ o
      → ShowsAll public_client a
          (evm_rpc_urls chain_id rpc_urls)
          o
          (balances_of public_client a (evm_rpc_urls chain_id rpc_urls) (info_of o))
  unfolding evm_rpc_urls
  on_chain_shown chain_id rpc_urls none h = refl
  on_chain_shown chain_id rpc_urls (some p) h =
      let default : default_urls chain_id ≡ fulfilled p.default_rpc = rw (default_urls, h) refl in
      let (urls, found) =
        urls_found (rpc_urls chain_id) (default_urls chain_id) p.default_rpc default in
      (
        urls,
        found,
        subst
            (λ us.
              ShownBy (public_client urls) a p (balances_of public_client a us (info_of (some p))))
            (sym found) (made_shown (public_client urls) p),
      )

  -- For every chain, address and override, and whatever the endpoints answer or fail to answer: reading
  -- the balances of a chain that is not registered gives none; of a registered one it throws only what
  -- making the client of the chain's endpoints throws, and otherwise gives one balance for the native
  -- asset and one for each token of the chain's profile, in order, each what the client answers, or 0
  -- where that read fails, with a text that reads back as the balance.
  pub balances-AreShown :
      (chain_id : ℕ) (rpc_urls : RpcOverrides)
      → ShowsAll public_client a
          (evm_rpc_urls chain_id rpc_urls)
          (get_chain_profile chain_id)
          (read_balances public_client chain_id a rpc_urls)
  unfolding read_balances
  balances-AreShown chain_id rpc_urls =
      rw (get_chain-agrees chain_id)
        (on_chain_shown chain_id rpc_urls (get_chain_profile chain_id) refl)
