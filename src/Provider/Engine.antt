-- ===== src/Provider/Engine.antt =====
-- packages/core/src/internal/send.ts: the send engine that the provider drives.
use avok_js.Base.{
  ℕ, String, if◌then◌else◌, Option, none, some, List, [], ◌∷◌, Value, Settled, throw,
}
use avok_js.Registry.{list_fee_tokens}
use avok_js.Registry.Profiles.{EvmTokenProfile}
use avok_js.Client.Send.{Config, Receipt, on_chain, can_sponsor, send_calls}
use avok_js.Client.Track.{Polls, wait}
use avok_js.Provider.Types.{Capabilities}
use avok_js.Provider.Methods.{Wallet}

-- `feeTokens` of the client.
abbrev pub tokens_on : ℕ → List (String × EvmTokenProfile) → List EvmTokenProfile
tokens_on chain_id [] = []
tokens_on chain_id ((chain, token) ∷ es) =
    let rest = tokens_on chain_id es in
    if on_chain chain_id (chain, token) then token ∷ rest else rest

-- Waiting always ends: `Track.Outcomes`.
abbrev pub ended : Option (Settled Receipt) → Settled Receipt
ended none = throw "out of fuel"
ended (some r) = r

-- What the connection answers to the methods that do not send.
pub record Connection : Type 0 where
  pub log_in : Option (Settled String)
  pub sign_message : String → Settled String
  pub sign_typed_data : Value → Settled String

unfoldable pub capabilities_on : Config → ℕ → Capabilities
unfolding list_fee_tokens
capabilities_on config chain_id = record {
  is_supported = can_sponsor config;
  fee_tokens = if can_sponsor config then tokens_on chain_id (list_fee_tokens none) else [];
}

-- The status is one poll of `wait`, which has no time left after it.
abbrev pub create_send_engine : Config → Polls → Connection → Wallet
create_send_engine config polls connection = record {
  log_in = connection.log_in;
  sign_message = connection.sign_message;
  sign_typed_data = connection.sign_typed_data;
  send = λ calls opts. (send_calls config calls opts).result;
  status = λ r. ended (wait (can_sponsor config) polls 0 r);
  capabilities = capabilities_on config;
}
