-- ===== src/Client/Quote.antt =====
-- What a simulation shows is what the send of it signs.
use avok_js.Base.{
  ℕ, ◌*◌, ◌++◌, String, ◌≡◌, refl, sym, ap, ◌∙◌, subst, if◌then◌else◌, Bool, true, false, ◌&&◌,
  Option, none, some, List, [], Settled, fulfilled,
}
use avok_js.Consent.Types.{RawCall}
use avok_js.Registry.Profiles.{EvmChainProfile}
use avok_js.Client.Io.{call, settle, network, ◌>>=◌, Reads, pure-Reads, >>=-Reads}
use avok_js.Client.Gas.{Rpc, NativeFeeEstimate}
use avok_js.Client.Resolve.{Rail, native_gas, sponsored, ResolvedBatch, PendingAuthorization}
use avok_js.Client.UserOp.{PreparedUserOp}
use avok_js.Client.Send.{
  Config, TxOpts, NativeTx, asks_sponsorship, can_sponsor, require_chain, resolve_chain_id,
  resolve_sponsorship, build_batch, submit_sponsored, send_native, send_batch, is_sponsored_rail,
  context_of, Sponsorship, reused_or_prepared, gas_limit,
}
use avok_js.Client.Discipline.{AnyResult, settle-Reads, Sends}
use avok_js.Client.Signed.{
  SubmitsOp, SubmitsTx, submit_sponsored-Sends, send_native-Sends, require_chain-found,
}
use avok_js.Client.Asked.{
  if-Reads, settled-Reads, network-Reads, IsBatchOf, IsFor, prepared-Reads, rail_asked, IsServed,
  resolved-IsServed, build_batch-Reads, override-Reads, taken-Reads,
}
use avok_js.Client.Simulate.{
  SimulationResult, quoted_fee, quoted, simulate, simulate_resolved, send_simulated, run_method,
  simulated, SimMethod, SimOutcome, with_quote,
}

-- A simulation of the batch, without a fee or an operation yet.
record IsPlain (batch : ResolvedBatch) (sim : SimulationResult) : Type 0 where
  of_batch : sim.batch ≡ batch
  no_fee : sim.fee ≡ none
  not_prepared : sim.prepared_user_op ≡ none
  same_estimate : sim.native_fee ≡ batch.native_fee

module _ (slice : String → String) (rpc : Rpc) (chain : EvmChainProfile) where
  run-Reads :
      (b : Bool) (batch : ResolvedBatch) → Reads AnyResult (run_method slice rpc chain b batch)
  run-Reads b batch = >>=-Reads _ _ (override-Reads rpc b chain.canonical_implementation) (λ code h.
      >>=-Reads (call (network "eth_simulateV1") _) _ (network-Reads _ _)
        (λ results k. pure-Reads _ tt))

  simulated-Reads :
      (batch : ResolvedBatch) → Reads (IsPlain batch) (simulate_resolved slice rpc chain batch)
  unfolding simulate_resolved
  simulated-Reads batch =
      if-Reads _ _ _ (>>=-Reads _ _ (run-Reads true batch) (λ o h. pure-Reads _ plain)) (
        if-Reads _ _ _ (>>=-Reads _ _ (run-Reads false batch) (λ o h. pure-Reads _ plain))
          (settle-Reads _ (λ a h. cc)))
    where
      plain : {m : SimMethod} {o : SimOutcome} → IsPlain batch (simulated slice rpc chain batch m o)
      plain = record { of_batch = refl; no_fee = refl; not_prepared = refl; same_estimate = refl }

module _ (slice : String → String) (config : Config) where
  -- The gas limit that an estimate gives: twice the units that were estimated, or a million.
  abbrev pub LimitFrom : Option NativeFeeEstimate → ℕ → Type 0
  LimitFrom none gas = gas ≡ 1000000
  LimitFrom (some e) gas = gas ≡ e.gas_units * 2

  -- The transaction has the gas limit of the estimate that is shown, and carries the batch on its chain.
  abbrev pub IsQuotedTx : SimulationResult → NativeTx → Option PendingAuthorization → Type 0
  IsQuotedTx sim tx a =
      LimitFrom sim.native_fee tx.gas
      × (tx.chain_id ≡ sim.batch.chain_id)
      × (tx.data_
          ≡ (config.rpc tx.chain_id).encode_execute_batch
              (sim.batch.fee_calls ++ sim.batch.user_calls))

  -- On the sponsored rail, an operation is prepared for the batch, the fee is that of the operation's own
  -- limits, and the send signs and submits this operation, with no further read. On the native rail the cost
  -- is the estimate that the signed transaction's gas limit is made of, and it carries the calls.
  abbrev pub Shown : Rail → SimulationResult → Type 0
  Shown sponsored sim =
      (p : PreparedUserOp) × (sim.prepared_user_op ≡ some p)
      × IsFor config sim.batch p
      × (sim.fee ≡ quoted_fee slice config p sim.batch.fee_token)
      × (send_simulated slice config sim ≡ submit_sponsored config sim.batch p)
      × Sends sponsored (SubmitsOp config (λ q. q ≡ p)) (send_simulated slice config sim)
  Shown native_gas sim =
      (sim.fee ≡ none)
      × Sends native_gas (SubmitsTx config (IsQuotedTx sim)) (send_simulated slice config sim)

  limited : (o : Option NativeFeeEstimate) → LimitFrom o (gas_limit config o)
  limited none = refl
  limited (some e) = refl

  pub record IsQuoted (calls : List RawCall) (opts : TxOpts) (sim : SimulationResult) : Type 0 where
    pub user_calls : sim.batch.user_calls ≡ calls
    pub fee_calls : sim.batch.fee_calls ≡ []
    pub on_rail : sim.batch.rail ≡ rail_asked config opts
    pub is_shown : Shown (rail_asked config opts) sim

  on_chain-send :
      (sim : SimulationResult) (chain : EvmChainProfile)
      → require_chain sim.batch.chain_id ≡ fulfilled chain
      → send_simulated slice config sim ≡ send_batch config sim.batch sim.prepared_user_op
  unfolding send_simulated
  on_chain-send sim chain h =
      ap
        (λ (r : Settled EvmChainProfile).
          settle r >>= λ c. send_batch config sim.batch sim.prepared_user_op)
        h

  send_prepared :
      (sim : SimulationResult) (chain : EvmChainProfile) (p : PreparedUserOp)
      → require_chain sim.batch.chain_id ≡ fulfilled chain
      → (is_sponsored_rail config sim.batch.rail && can_sponsor config) ≡ true
      → sim.prepared_user_op ≡ some p
      → send_simulated slice config sim ≡ submit_sponsored config sim.batch p
  unfolding send_batch
  send_prepared sim chain p h k e =
      on_chain-send sim chain h
      ∙ ap
          (λ b.
            if b
            then (reused_or_prepared config sim.prepared_user_op sim.batch
                >>= submit_sponsored config sim.batch)
            else send_native config sim.batch)
          k
      ∙ ap (λ o. reused_or_prepared config o sim.batch >>= submit_sponsored config sim.batch) e

  send_unprepared :
      (sim : SimulationResult) (chain : EvmChainProfile)
      → require_chain sim.batch.chain_id ≡ fulfilled chain
      → (is_sponsored_rail config sim.batch.rail && can_sponsor config) ≡ false
      → send_simulated slice config sim ≡ send_native config sim.batch
  unfolding send_batch
  send_unprepared sim chain h k =
      on_chain-send sim chain h
      ∙ ap
          (λ b.
            if b
            then (reused_or_prepared config sim.prepared_user_op sim.batch
                >>= submit_sponsored config sim.batch)
            else send_native config sim.batch)
          k

  -- The chain of a resolved batch is found again when it is sent.
  chain_again :
      (n : ℕ) (chain : EvmChainProfile)
      → require_chain n ≡ fulfilled chain
      → require_chain chain.chain_id ≡ fulfilled chain
  chain_again n chain h = ap require_chain (require_chain-found n chain h).1 ∙ h

  rail_asked_as :
      (opts : TxOpts) (b : Bool)
      → asks_sponsorship opts ≡ b
      → rail_asked config opts ≡ (if b then sponsored else native_gas)
  rail_asked_as opts b e = ap (λ x. if x then sponsored else native_gas) e

  module _ (opts : TxOpts) (calls : List RawCall) (sim : SimulationResult)
      (user_calls : sim.batch.user_calls ≡ calls) (fee_calls : sim.batch.fee_calls ≡ [])
      (chain : EvmChainProfile) (known : require_chain sim.batch.chain_id ≡ fulfilled chain)
      (on_rail : sim.batch.rail ≡ rail_asked config opts) where
    on_rail-IsQuoted :
        (rail : Rail) (shown : SimulationResult)
        → shown.batch ≡ sim.batch
        → rail_asked config opts ≡ rail
        → Shown rail shown
        → IsQuoted calls opts shown
    on_rail-IsQuoted rail shown e r q = record {
      user_calls = ap (λ (b : ResolvedBatch). b.user_calls) e ∙ user_calls;
      fee_calls = ap (λ (b : ResolvedBatch). b.fee_calls) e ∙ fee_calls;
      on_rail = ap (λ (b : ResolvedBatch). b.rail) e ∙ on_rail;
      is_shown = subst (λ x. Shown x shown) (sym r) q;
    }

    prepared-IsQuoted :
        (p : PreparedUserOp)
        → rail_asked config opts ≡ sponsored
        → can_sponsor config ≡ true
        → IsFor config sim.batch p
        → IsQuoted calls opts (with_quote slice config sim sim.batch p)
    prepared-IsQuoted p r possible is_for =
        let sent =
          send_prepared (with_quote slice config sim sim.batch p) chain p known
            (ap (λ x. is_sponsored_rail config x && can_sponsor config) (on_rail ∙ r) ∙ possible)
            refl in
        on_rail-IsQuoted sponsored _ refl r (
          p,
          refl,
          is_for,
          refl,
          sent,
          subst (λ m. Sends sponsored (SubmitsOp config (λ q. q ≡ p)) m) (sym sent)
              (submit_sponsored-Sends config _ sim.batch p refl),
        )

    unprepared-IsQuoted :
        rail_asked config opts ≡ native_gas → IsPlain sim.batch sim → IsQuoted calls opts sim
    unprepared-IsQuoted r plain = on_rail-IsQuoted native_gas _ refl r (
      plain.no_fee,
      subst (λ m. Sends native_gas (SubmitsTx config (IsQuotedTx sim)) m)
          (sym (
            send_unprepared sim chain known
              (ap (λ x. is_sponsored_rail config x && can_sponsor config) (on_rail ∙ r))))
          (send_native-Sends config (IsQuotedTx sim) sim.batch (λ n tip base. (
            subst (λ o. LimitFrom o (gas_limit config sim.batch.native_fee))
                (sym plain.same_estimate) (limited sim.batch.native_fee),
            refl,
            refl,
          ))),
    )

    quoted-IsQuoted :
        (asks : Bool)
        → asks_sponsorship opts ≡ asks
        → (asks ≡ true → can_sponsor config ≡ true)
        → IsPlain sim.batch sim
        → Reads (IsQuoted calls opts) (quoted slice config sim.batch sim)
    quoted-IsQuoted true e possible plain =
        let test : (is_sponsored_rail config sim.batch.rail && can_sponsor config) ≡ true =
          ap (λ x. is_sponsored_rail config x && can_sponsor config)
            (on_rail ∙ rail_asked_as opts true e)
          ∙ possible refl in
        taken-Reads true _ _ _ test (
          >>=-Reads _ _ (prepared-Reads config sim.batch) (λ p is_for.
            pure-Reads _ (prepared-IsQuoted p (rail_asked_as opts true e) (possible refl) is_for)))
    quoted-IsQuoted false e possible plain =
        let test : (is_sponsored_rail config sim.batch.rail && can_sponsor config) ≡ false =
          ap (λ x. is_sponsored_rail config x && can_sponsor config)
            (on_rail ∙ rail_asked_as opts false e) in
        taken-Reads false _ _ _ test
          (pure-Reads _ (unprepared-IsQuoted (rail_asked_as opts false e) plain))

  quoted-Reads :
      (n : ℕ) (chain : EvmChainProfile) (opts : TxOpts) (s : Sponsorship) (calls : List RawCall)
      (batch : ResolvedBatch) (sim : SimulationResult)
      → require_chain n ≡ fulfilled chain
      → IsServed config opts s
      → IsBatchOf chain calls (context_of s) batch
      → IsPlain batch sim
      → Reads (IsQuoted calls opts) (quoted slice config batch sim)
  quoted-Reads n chain opts s calls batch sim h served of plain =
      subst
        (λ b.
          IsBatchOf chain calls (context_of s) b
          → IsPlain b sim
          → Reads (IsQuoted calls opts) (quoted slice config b sim))
        plain.of_batch
        (λ mine same.
          quoted-IsQuoted opts calls sim mine.user_calls mine.fee_calls chain
            (ap require_chain mine.chain_id ∙ chain_again n chain h) (mine.rail ∙ served.on_rail)
            (asks_sponsorship opts) refl served.is_possible same)
        of plain

  -- A simulation only reads: it makes no gesture and submits nothing. What it returns is of the calls given and
  -- on the rail asked for, and it shows what a send of it signs. On the sponsored rail the fee is that of an
  -- operation for these calls, and the send reads nothing further, signs this operation and submits it with its
  -- signature. On the native rail the transaction that the send signs and submits carries these calls on the
  -- batch's chain, and its gas limit is twice the units of the estimate that is shown, or a million without one.
  pub simulation-IsQuoted :
      (calls : List RawCall) (opts : TxOpts)
      → Reads (IsQuoted calls opts) (simulate slice config calls opts)
  unfolding simulate
  simulation-IsQuoted calls opts =
      >>=-Reads (settle (resolve_chain_id opts.chain_id)) _ (settled-Reads _) (λ n h.
        >>=-Reads (settle (require_chain n)) _
          (settle-Reads {P = λ c. require_chain n ≡ fulfilled c} _ (λ c e. e))
          (λ chain k.
            >>=-Reads (settle (resolve_sponsorship config n opts)) _
              (settle-Reads {P = IsServed config opts} _ (resolved-IsServed config n opts))
              (λ s served.
                >>=-Reads (build_batch config calls chain s) _
                  (build_batch-Reads config calls chain s)
                  (λ batch of.
                    >>=-Reads (simulate_resolved slice (config.rpc n) chain batch) _
                      (simulated-Reads slice (config.rpc n) chain batch)
                      (λ sim plain.
                        quoted-Reads n chain opts s calls batch sim k served of plain)))))
