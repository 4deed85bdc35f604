-- ===== src/Client/Rails.antt =====
-- A send takes the rail that its options ask for, and submits what was signed for its calls.
use avok_js.Base.{
  ◌≡◌, sym, ap, ◌∙◌, subst, if◌then◌else◌, Bool, true, false, ◌&&◌, Bool-cases, inl, inr, none,
  some, List, [], ◌++◌,
}
use avok_js.Consent.Types.{RawCall}
use avok_js.Client.Io.{Io, settle, ◌>>=◌}
use avok_js.Client.Resolve.{native_gas, sponsored, ResolvedBatch}
use avok_js.Client.Send.{
  Config, TxOpts, Receipt, resolve_chain_id, require_chain, asks_sponsorship, can_sponsor,
  resolve_sponsorship, build_batch, submit_sponsored, reused_or_prepared, send_native, send_batch,
  send_calls, is_sponsored_rail, context_of,
}
use avok_js.Client.Discipline.{Sends, >>=-Sends, settle-Reads}
use avok_js.Client.Asked.{
  prepared-Reads, build_batch-Reads, resolved-IsServed, IsServed, IsFor, IsBatchOf, rail_asked,
}
use avok_js.Client.Signed.{
  SubmitsCalls, submit_sponsored-Sends, send_native-Sends, resolved_chain_id, require_chain-found,
}

module _ (config : Config) where
  module _ (calls : List RawCall) (opts : TxOpts) (batch : ResolvedBatch)
      (on_chain : some batch.chain_id ≡ opts.chain_id) (fee_calls : batch.fee_calls ≡ [])
      (user_calls : batch.user_calls ≡ calls) where
    sponsored-Sends :
        Sends sponsored
          (SubmitsCalls config calls opts sponsored)
          (reused_or_prepared config none batch >>= submit_sponsored config batch)
    sponsored-Sends =
        >>=-Sends sponsored (reused_or_prepared config none batch) _ (prepared-Reads config batch)
          (λ p (h : IsFor config batch p). submit_sponsored-Sends config _ batch p (
            ap some h.chain_id ∙ on_chain,
            h.call_data
                ∙ ap (λ c. (config.infra c).encode_execute_batch batch.user_calls) (sym h.chain_id)
                ∙ ap (config.infra p.chain_id).encode_execute_batch user_calls,
          ))

    native-Sends :
        Sends native_gas (SubmitsCalls config calls opts native_gas) (send_native config batch)
    native-Sends = send_native-Sends config _ batch (λ n tip base. (
      on_chain,
      ap (λ fs. (config.rpc batch.chain_id).encode_execute_batch (fs ++ batch.user_calls)) fee_calls
          ∙ ap (config.rpc batch.chain_id).encode_execute_batch user_calls,
    ))

    asked_as :
        (b : Bool)
        → asks_sponsorship opts ≡ b
        → rail_asked config opts ≡ (if b then sponsored else native_gas)
    asked_as b e = ap (λ x. if x then sponsored else native_gas) e

    sent-Sends :
        batch.rail ≡ rail_asked config opts
        → (asks_sponsorship opts ≡ true → can_sponsor config ≡ true)
        → Sends
            (rail_asked config opts)
            (SubmitsCalls config calls opts (rail_asked config opts))
            (send_batch config batch none)
    unfolding send_batch
    sent-Sends r p = elim (Bool-cases (asks_sponsorship opts)) [
      | inl e ↦
          subst (λ x. Sends x (SubmitsCalls config calls opts x) (send_batch config batch none))
            (sym (asked_as true e))
            (subst
              (λ b.
                Sends sponsored (SubmitsCalls config calls opts sponsored)
                  (if b then sponsored_send else send_native config batch))
              (sym (
                ap (λ x. is_sponsored_rail config x && can_sponsor config) (r ∙ asked_as true e)
                ∙ p e))
              sponsored-Sends)
      | inr e ↦
          subst (λ x. Sends x (SubmitsCalls config calls opts x) (send_batch config batch none))
            (sym (asked_as false e))
            (subst
              (λ b.
                Sends native_gas (SubmitsCalls config calls opts native_gas)
                  (if b then sponsored_send else send_native config batch))
              (sym
                (ap (λ x. is_sponsored_rail config x && can_sponsor config) (r ∙ asked_as false e)))
              native-Sends)
    ]
      where
        sponsored_send : Io Receipt
        sponsored_send = reused_or_prepared config none batch >>= submit_sponsored config batch

  -- A send of calls reads, then makes at most one gesture, and submits at most once, all on the rail that
  -- its options ask for, whatever the configuration, the network and the connection answer: a send that
  -- asks for sponsorship is served so or rejects, never paid by the user. What the gesture signs carries
  -- these calls, on the chain that the options name; what is submitted is this with the signature that
  -- the gesture gave; and the receipt is named by what the submission answered.
  pub send_on_asked_rail :
      (calls : List RawCall) (opts : TxOpts)
      → Sends
          (rail_asked config opts)
          (SubmitsCalls config calls opts (rail_asked config opts))
          (send_calls config calls opts)
  unfolding send_calls
  send_on_asked_rail calls opts =
      >>=-Sends _ (settle (resolve_chain_id opts.chain_id)) _
        (settle-Reads {P = λ n. some n ≡ opts.chain_id} _ (resolved_chain_id opts.chain_id))
        (λ n named.
          >>=-Sends _ (settle (require_chain n)) _
            (settle-Reads {P = λ c. c.chain_id ≡ n} _ (λ c e. (require_chain-found n c e).1))
            (λ chain numbered.
              >>=-Sends _ (settle (resolve_sponsorship config n opts)) _
                (settle-Reads {P = IsServed config opts} _ (resolved-IsServed config n opts))
                (λ s served.
                  >>=-Sends _ (build_batch config calls chain s) _
                    (build_batch-Reads config calls chain s)
                    (λ batch (same : IsBatchOf chain calls (context_of s) batch).
                      sent-Sends calls opts batch (ap some (same.chain_id ∙ numbered) ∙ named)
                        same.fee_calls same.user_calls (same.rail ∙ served.on_rail)
                        served.is_possible))))
