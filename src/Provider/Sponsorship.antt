-- ===== src/Provider/Sponsorship.antt =====
-- The rail of a `wallet_sendCalls` request that asks for a paymaster.
use avok_js.Registry.{list_fee_tokens}
use avok_js.Base.{
  ℕ, String, ◌≡◌, refl, ap, ◌∙◌, subst, if◌then◌else◌, Bool, true, false, ◌⊎◌, inl, inr, Option,
  none, some, [], ◌∷◌, All, Value, undefined, null, optional_member, member, truthy,
}
use avok_js.Client.Discipline.{Sends}
use avok_js.Client.Asked.{rail_asked}
use avok_js.Client.Signed.{SubmitsCalls}
use avok_js.Client.Rails.{send_on_asked_rail}
use avok_js.Client.Resolve.{native_gas, Rail}
use avok_js.Client.Send.{Config, can_sponsor, send_calls}
use avok_js.Client.Track.{Polls}
use avok_js.Provider.Acts.{nothing_done, check-Acts, act-Acts}
use avok_js.Provider.Engine.{Connection, create_send_engine, capabilities_on, tokens_on}
use avok_js.Provider.Methods.{
  Js, paymaster_service, send_calls_opts, dispatch, chain_or_active, call_values, to_calls,
  token_or_default, first_token,
}
use avok_js.Provider.Types.{
  Action, send, Runtime, from_settled, ◌>>=◌, log_in, sign_message, sign_typed_data, ask_status,
  emit_chain_changed,
}

-- `req.capabilities?.paymasterService?.context?.token`
abbrev pub token_named : Value → Value
token_named req = optional_member "token" (
    optional_member "context"
      (optional_member "paymasterService" (optional_member "capabilities" req)))

-- The request names no token to repay a paymaster in.
abbrev pub NamesNoToken : Value → Type 0
NamesNoToken req = (token_named req ≡ undefined) ⊎ (token_named req ≡ null)

-- What is sent goes out on the native rail, which the user pays.
abbrev pub PaidByUser : Config → Action → Type 0
PaidByUser config (send calls opts) =
    Sends native_gas (SubmitsCalls config calls opts native_gas) (send_calls config calls opts)
PaidByUser config log_in = Unit
PaidByUser config (sign_message m) = Unit
PaidByUser config (sign_typed_data v) = Unit
PaidByUser config (ask_status r) = Unit
PaidByUser config (emit_chain_changed v) = Unit

module _ (js : Js) (config : Config) (polls : Polls) (connection : Connection)
    (unserved : can_sponsor config ≡ false) where
  no_default :
      (n : ℕ)
      → first_token js
          (create_send_engine config polls connection)
          (capabilities_on config n).fee_tokens
        ≡ none
  unfolding capabilities_on
  no_default n =
      ap
        (λ b.
          first_token js (create_send_engine config polls connection)
            (if b then tokens_on n (list_fee_tokens none) else []))
        unserved

  no_token :
      (v : Value) (n : ℕ)
      → (v ≡ undefined) ⊎ (v ≡ null)
      → token_or_default js (create_send_engine config polls connection) v n ≡ none
  no_token v n (inl e) =
      ap (λ t. token_or_default js (create_send_engine config polls connection) t n) e
      ∙ no_default n
  no_token v n (inr e) =
      ap (λ t. token_or_default js (create_send_engine config polls connection) t n) e
      ∙ no_default n

  opts_native :
      (req : Value) (n : ℕ)
      → NamesNoToken req
      → rail_asked config (send_calls_opts js (create_send_engine config polls connection) req n)
        ≡ native_gas
  unfolding send_calls_opts
  opts_native req n h =
      ap asked
        (tokens (truthy (paymaster_service js (create_send_engine config polls connection) req)))
    where
      asked : Option String → Rail
      asked t =
          rail_asked config (record { chain_id = some n; fee_token = t; is_sponsored = false })

      tokens :
          (b : Bool)
          → (if b
              then token_or_default js
                  (create_send_engine config polls connection)
                  (token_named req)
                  n
              else none)
            ≡ none
      tokens true = no_token _ n h
      tokens false = refl

  -- On a client without a paymaster or without a bundler, whatever a `wallet_sendCalls` request sends that names
  -- no token goes out on the native rail, at the user's expense, also where the request asks for a paymaster.
  pub unserved_ask_is_paid :
      (rt : Runtime) (req : Value)
      → NamesNoToken req
      → All
          (PaidByUser config)
          (dispatch js
            (create_send_engine config polls connection)
            rt
            "wallet_sendCalls"
            (req ∷ [])).did
  unfolding dispatch
  unserved_ask_is_paid rt req h =
      (check-Acts (PaidByUser config) rt
        (from_settled (member "chainId" req)
          >>= chain_or_active js (create_send_engine config polls connection) rt)
        _
        (λ n k.
          check-Acts _ rt
            (call_values js (create_send_engine config polls connection)
                (optional_member "calls" req)
              >>= to_calls js (create_send_engine config polls connection))
            _
            (λ cs l.
              act-Acts _ rt
                (send cs (send_calls_opts js (create_send_engine config polls connection) req n))
                ((create_send_engine config polls connection).send cs _) _
                (subst
                  (λ r.
                    Sends r
                      (SubmitsCalls config cs
                        (send_calls_opts js (create_send_engine config polls connection) req n) r)
                      (send_calls config cs
                        (send_calls_opts js (create_send_engine config polls connection) req n)))
                  (opts_native req n h) (send_on_asked_rail config cs _))
                (λ r. nothing_done _ _ refl)))).each
