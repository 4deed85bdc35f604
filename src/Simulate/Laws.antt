-- ===== src/Simulate/Laws.antt =====
-- What a simulation reports of a batch.
use avok_js.Base.{
  ℕ, ◌+◌, ◌≡◌, refl, sym, ◌∙◌, subst, arith, ◌==◌, String, ===_refl, to_lower_case, true, false,
  none, some, List, [], ◌∷◌, Any, here, there, Any-append_left, Any-append_right, get_elem?, length,
  find_first-found, fulfilled, >>=-eq-fulfilled, fulfilled-injective,
}
use avok_js.Consent.Types.{RawCall}
use avok_js.Consent.Payload.{SignTxPayload}
use avok_js.Simulate.{
  AssetDelta, erc20, outgoing, SimLog, CallResult, Transfer, Events, Outcome, direction_for,
  event_outcome, decode_deltas_and_approvals, log_outcome, native_deltas_from_calls, reverted,
  simulate_request, revert_reason,
}

abbrev pub total_amount : List AssetDelta → ℕ
total_amount [] = 0
total_amount (d ∷ ds) = d.amount + total_amount ds

abbrev pub total_value : List RawCall → ℕ
total_value [] = 0
total_value (c ∷ cs) = c.value + total_value cs

-- The native amounts reported for a batch add up to the values that its calls send: calls without a
-- value are left out, and nothing else is.
pub native_total : (cs : List RawCall) → total_amount (native_deltas_from_calls cs) ≡ total_value cs
unfolding native_deltas_from_calls
native_total [] = refl
native_total (c ∷ cs) = ground (arith, native_total cs)

sent_delta : String → ℕ → AssetDelta
sent_delta token amount = record {
  kind = erc20;
  token = some token;
  amount = amount;
  direction = outgoing;
  token_id = none;
}

abbrev pub IsOutgoing : String → ℕ → AssetDelta → Type 0
IsOutgoing token amount d =
    (d.kind ≡ erc20) × (d.token ≡ some token) × (d.amount ≡ amount) × (d.direction ≡ outgoing)

module _ (events : Events) where
  -- A batch of which some call failed is reported as reverted, with the reason that the return data of
  -- a failed call gives.
  pub failure_is_reverted :
      (request : SignTxPayload) (rs : List CallResult)
      → Any (λ r. r.failed ≡ true) rs
      → (r : CallResult) × (r.failed ≡ true)
        × (simulate_request events request (fulfilled rs)
            ≡ fulfilled (reverted (revert_reason events r.return_data)))
  unfolding simulate_request
  failure_is_reverted request rs a =
      let (r, e, f) = find_first-found (λ r. r.failed) rs a in (r, e, rw (simulate_request, f) refl)

  -- The log is an ERC-20 transfer of this amount out of the account.
  pub record LeavesAccount (account token : String) (amount : ℕ) (log : SimLog) : Type 0 where
    pub topic : get_elem? log.topics 0 ≡ some events.transfer
    pub not_indexed : (length log.topics == 4) ≡ false
    pub token_address : events.get_address log.address ≡ fulfilled token
    pub args : Transfer
    pub decoded : events.erc20_transfer log ≡ fulfilled args
    pub sender : to_lower_case args.from ≡ to_lower_case account
    pub sent : args.amount ≡ amount

  log_outcome-sent :
      (account token : String) (amount : ℕ) (log : SimLog)
      → LeavesAccount account token amount log
      → (log_outcome events account log token).0 ≡ sent_delta token amount ∷ []
  unfolding event_outcome direction_for sent_delta
  log_outcome-sent account token amount log s =
      rw (log_outcome, s.topic)
        (rw (===_refl events.transfer) (
          rw s.not_indexed
            (rw s.decoded (rw s.sender (rw (===_refl (to_lower_case account)) (rw s.sent refl))))))

  -- Each ERC-20 transfer out of the account that the logs of a simulation hold is reported, with its
  -- token and its amount, wherever it stands among the logs.
  pub sent_tokens_reported :
      (account token : String) (amount : ℕ) (logs : List SimLog) (o : Outcome)
      → Any (LeavesAccount account token amount) logs
      → decode_deltas_and_approvals events account logs ≡ fulfilled o
      → Any (IsOutgoing token amount) o.0
  unfolding decode_deltas_and_approvals sent_delta
  sent_tokens_reported account token amount [] o a h = elim a [ ]
  sent_tokens_reported account token amount (log ∷ logs) o a h =
      let (t, b, c) = >>=-eq-fulfilled (events.get_address log.address) _ h in
      let (rest, d, e) = >>=-eq-fulfilled (decode_deltas_and_approvals events account logs) _ c in
      subst (λ w. Any (IsOutgoing token amount) w.0) (fulfilled-injective e)
        (elim a [
          | here s ↦
              let same : t ≡ token = fulfilled-injective (sym b ∙ s.token_address) in
              let first : Any (IsOutgoing token amount) (log_outcome events account log t).0 =
                rw (same, log_outcome-sent account token amount log s)
                  (here (refl, refl, refl, refl)) in
              Any-append_left rest.0 first
          | there k ↦
              Any-append_right (log_outcome events account log t).0
                (sent_tokens_reported account token amount logs rest k d)
        ])
