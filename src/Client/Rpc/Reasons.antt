-- ===== src/Client/Rpc/Reasons.antt =====
-- packages/core/src/evm/rpc.ts and simulate.ts: what a simulation of a send says of a call that fails.
use avok_js.Base.{
  ◌>>=◌, ◌≡◌, refl, ap, ◌∙◌, subst, String, Bool, true, false, none, List, [], ◌∷◌, map, find_first,
  find_first-head, find_first-tail, Bool-cases, inl, inr, Settled, fulfilled, >>=-eq-fulfilled,
  fulfilled-injective,
}
use avok_js.Consent.Types.{RawCall}
use avok_js.Registry.Profiles.{EvmChainProfile}
use avok_js.Client.Io.{Reads, pure-Reads, answered-Reads, >>=-Reads}
use avok_js.Client.Asked.{override-Reads, if-Reads}
use avok_js.Client.Discipline.{settle-Reads}
use avok_js.Client.Gas.{SimCallResult}
use avok_js.Client.Resolve.{ResolvedBatch}
use avok_js.Client.Simulate.{
  SimOutcome, SimulationResult, run_method, revert_reason_of, summarize, simulate_resolved,
}
use avok_js.Client.Rpc.{ViemLike, ViemCallResult, sim_result_of, create_viem_rpc_client}

none_found :
    (rs : List ViemCallResult)
    → revert_reason_of (find_first (λ r. r.has_failed) (map sim_result_of rs)) ≡ none
none_found [] = refl
none_found (r ∷ rs) = elim (Bool-cases r.has_failed) [
  | inl e ↦
      ap revert_reason_of
        (find_first-head (λ r. r.has_failed) (sim_result_of r) (map sim_result_of rs) e)
  | inr e ↦
      ap revert_reason_of
        (find_first-tail (λ r. r.has_failed) (sim_result_of r) (map sim_result_of rs) e)
      ∙ none_found rs
]

abbrev HasNoReason : SimOutcome → Type 0
HasNoReason o = o.revert_reason ≡ none

summarized :
    (r : Settled (List ViemCallResult)) (found : List SimCallResult)
    → (r >>= λ results. fulfilled (map sim_result_of results)) ≡ fulfilled found
    → HasNoReason (summarize found)
summarized r found h =
    let (rs, e, f) = >>=-eq-fulfilled r _ h in
    subst (λ x. HasNoReason (summarize x)) (fulfilled-injective f) (none_found rs)

module _ (slice : String → String) (encode : List RawCall → String) (client : ViemLike)
    (chain : EvmChainProfile) where
  run_method-HasNoReason :
      (b : Bool) (batch : ResolvedBatch)
      → Reads HasNoReason (run_method slice (create_viem_rpc_client encode client) chain b batch)
  unfolding create_viem_rpc_client
  run_method-HasNoReason b batch =
      >>=-Reads _ _
        (override-Reads (create_viem_rpc_client encode client) b chain.canonical_implementation)
        (λ code h.
          >>=-Reads _ _
            (answered-Reads {P = λ found. HasNoReason (summarize found)} "eth_simulateV1" _
              (λ found e. summarized _ found e))
            (λ found k. pure-Reads _ k))

  -- Over the adapter of viem's client, no simulation of a batch gives a reason, also where it has failed.
  pub reason_never_given :
      (batch : ResolvedBatch) {sim : SimulationResult}
      → (simulate_resolved slice (create_viem_rpc_client encode client) chain batch).result
        ≡ fulfilled sim
      → sim.revert_reason ≡ none
  unfolding simulate_resolved
  reason_never_given batch {sim} h =
      let reads : Reads (λ s. s.revert_reason ≡ none)
          (simulate_resolved slice (create_viem_rpc_client encode client) chain batch) =
        if-Reads _ _ _ (>>=-Reads _ _ (run_method-HasNoReason true batch) (λ o k. pure-Reads _ k)) (
          if-Reads _ _ _
            (>>=-Reads _ _ (run_method-HasNoReason false batch) (λ o k. pure-Reads _ k))
            (settle-Reads _ (λ a k. cc))) in
      reads.yields sim h
