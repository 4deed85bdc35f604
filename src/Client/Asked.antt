-- ===== src/Client/Asked.antt =====
-- What is read before a send, and what the batch and the prepared operation carry.
use avok_js.Base.{
  ℕ, String, ◌≡◌, refl, sym, ap, ◌∙◌, subst, if◌then◌else◌, Bool, true, false, Option, none, List,
  [], ◌∷◌, Settled, fulfilled, fulfilled-injective,
}
use avok_js.Consent.Types.{RawCall}
use avok_js.Registry.Profiles.{EvmChainProfile}
use avok_js.Client.Io.{Io, call, settle, network, Reads, pure-Reads, call-Reads, >>=-Reads}
use avok_js.Client.Gas.{
  Rpc, estimate_native_fee, override_code, simulate_batch_gas, native_gas_gas_estimate,
}
use avok_js.Client.Resolve.{
  Rail, native_gas, sponsored, ExecutionContext, ResolvedBatch, PendingAuthorization, lean_resolve,
  rail_from_context, authorization_for, pending_authorization, fee_for, token_of,
}
use avok_js.Client.UserOp.{PreparedUserOp, prepare_sponsored_user_op}
use avok_js.Client.Send.{
  Config, TxOpts, Sponsorship, asks_sponsorship, can_sponsor, is_unsupported, resolve_sponsorship,
  build_batch, prepare_sponsored, require_address, unsupported_token, no_rail, context_of,
}
use avok_js.Client.Discipline.{AnyResult, settle-Reads}

pub if-Reads {ℓ κ} :
    {A : Type ℓ} {P : A → Type κ} (b : Bool) (m n : Io A)
    → Reads P m
    → Reads P n
    → Reads P (if b then m else n)
if-Reads true m n h k = h
if-Reads false m n h k = k

-- The branch that a test takes.
pub taken-Reads {ℓ κ} :
    {A : Type ℓ} {P : A → Type κ} (c b : Bool) (m n : Io A)
    → b ≡ c
    → Reads P (if c then m else n)
    → Reads P (if b then m else n)
taken-Reads {P} c b m n e h = subst (λ t. Reads P (if t then m else n)) (sym e) h

pub settled-Reads {ℓ} : {A : Type ℓ} (r : Settled A) → Reads AnyResult (settle r)
settled-Reads r = settle-Reads r (λ a h. tt)

pub network-Reads {ℓ} :
    {A : Type ℓ} (what : String) (r : Settled A) → Reads AnyResult (call (network what) r)
network-Reads what r = call-Reads what r (λ a. tt)

-- The batch of these calls on this chain, on the rail of its context.
pub record IsBatchOf (chain : EvmChainProfile) (calls : List RawCall) (ctx : ExecutionContext)
    (batch : ResolvedBatch) : Type 0 where
  pub rail : batch.rail ≡ rail_from_context ctx
  pub chain_id : batch.chain_id ≡ chain.chain_id
  pub fee_calls : batch.fee_calls ≡ []
  pub user_calls : batch.user_calls ≡ calls
  pub fee_token : rail_from_context ctx ≡ sponsored → batch.fee_token ≡ ctx.fee_token

module _ (rpc : Rpc) where
  pub override-Reads : (b : Bool) (i : String) → Reads AnyResult (override_code rpc b i)
  override-Reads true i =
      >>=-Reads (call (network "eth_getCode") (rpc.get_code i)) _ (network-Reads _ _)
        (λ c h. pure-Reads _ tt)
  override-Reads false i = pure-Reads none tt

  batch_gas-Reads :
      (w i : String) (cs : List RawCall) (b : Bool)
      → Reads AnyResult (simulate_batch_gas rpc w i cs b)
  batch_gas-Reads w i [] b = pure-Reads _ tt
  batch_gas-Reads w i (c ∷ cs) b =
      >>=-Reads (override_code rpc b i) _ (override-Reads b i) (λ code h.
        >>=-Reads
          (call (network "eth_simulateV1")
            (rpc.simulate_calls w (rpc.encode_execute_batch (c ∷ cs)) code))
          _ (network-Reads _ _) (λ gas k. pure-Reads _ tt))

  pub gas_estimate-Reads :
      (w i : String) (cs : List RawCall) (b : Bool)
      → Reads AnyResult (native_gas_gas_estimate rpc w i cs b)
  gas_estimate-Reads w i cs b =
      >>=-Reads (simulate_batch_gas rpc w i cs b) _ (batch_gas-Reads w i cs b)
        (λ gas h. pure-Reads _ tt)

  native_fee-Reads :
      (w i : String) (cs : List RawCall) (b : Bool)
      → Reads AnyResult (estimate_native_fee rpc w i cs b)
  unfolding estimate_native_fee
  native_fee-Reads w i cs b =
      >>=-Reads (native_gas_gas_estimate rpc w i cs b) _ (gas_estimate-Reads w i cs b) (λ gas h.
        >>=-Reads (call (network "eth_getBlock") rpc.get_base_fee_per_gas) _ (network-Reads _ _)
          (λ base k.
            >>=-Reads (call (network "eth_maxPriorityFeePerGas") rpc.get_max_priority_fee_per_gas) _
              (network-Reads _ _) (λ tip l. pure-Reads _ tt)))

  module _ (chain : EvmChainProfile) where
    authorization-Reads : (a code : String) → Reads AnyResult (authorization_for rpc chain a code)
    authorization-Reads a code = if-Reads _ _ _ (pure-Reads none tt) (
        >>=-Reads (pending_authorization rpc chain a) _
          (if-Reads _ _ _ (settled-Reads _) (
            >>=-Reads (call (network "eth_getCode") (rpc.get_code chain.canonical_implementation)) _
              (network-Reads _ _)
              (λ c h. if-Reads _ _ _ (settled-Reads _) (
                >>=-Reads (call (network "eth_getTransactionCount") (rpc.get_transaction_count a)) _
                  (network-Reads _ _) (λ n k. pure-Reads _ tt)))))
          (λ p h. pure-Reads _ tt))

    fee-Reads :
        (r : Rail) (a : String) (cs : List RawCall) (p : Option PendingAuthorization)
        → Reads AnyResult (fee_for rpc chain r a cs p)
    fee-Reads sponsored a cs p = pure-Reads none tt
    fee-Reads native_gas a cs p =
        >>=-Reads (estimate_native_fee rpc a chain.canonical_implementation cs _) _
          (native_fee-Reads _ _ cs _) (λ e h. pure-Reads _ tt)

    lean_resolve-Reads :
        (a : String) (cs : List RawCall) (ctx : ExecutionContext) (nonce deadline : ℕ)
        → Reads (IsBatchOf chain cs ctx) (lean_resolve rpc chain a cs ctx nonce deadline)
    unfolding lean_resolve
    lean_resolve-Reads a cs ctx nonce deadline =
        >>=-Reads (call (network "eth_getCode") (rpc.get_code a)) _ (network-Reads _ _) (λ code h.
          >>=-Reads (authorization_for rpc chain a code) _ (authorization-Reads a code) (λ p k.
            >>=-Reads (fee_for rpc chain (rail_from_context ctx) a cs p) _ (fee-Reads _ a cs p)
              (λ fee l. pure-Reads _ (record {
                rail = refl;
                chain_id = refl;
                fee_calls = refl;
                user_calls = refl;
                fee_token = λ e. ap (λ r. token_of rpc chain r ctx.fee_token) e;
              }))))

module _ (config : Config) where
  -- The operation that was prepared for a batch carries its calls, for its wallet.
  pub record IsFor (batch : ResolvedBatch) (p : PreparedUserOp) : Type 0 where
    pub sender : p.op.sender ≡ batch.wallet_address
    pub call_data :
        p.op.call_data ≡ (config.infra batch.chain_id).encode_execute_batch batch.user_calls
    pub chain_id : p.chain_id ≡ batch.chain_id
    pub authorization : p.authorization ≡ batch.authorization

  pub prepared-Reads :
      (batch : ResolvedBatch) → Reads (IsFor batch) (prepare_sponsored config batch)
  unfolding prepare_sponsored prepare_sponsored_user_op
  prepared-Reads batch =
      >>=-Reads (call (network "eth_maxPriorityFeePerGas") _) _ (network-Reads _ _) (λ tip h.
        >>=-Reads (call (network "eth_getBlock") _) _ (network-Reads _ _) (λ base k.
          >>=-Reads (call (network "getNonce") _) _ (network-Reads _ _) (λ nonce a.
            >>=-Reads (call (network "pm_getPaymasterStubData") _) _ (network-Reads _ _) (λ stub b.
              >>=-Reads (call (network "eth_estimateUserOperationGas") _) _ (network-Reads _ _)
                (λ gas c.
                  >>=-Reads (call (network "pm_getPaymasterData") _) _ (network-Reads _ _)
                    (λ answer d. pure-Reads _ (record {
                      sender = refl;
                      call_data = refl;
                      chain_id = refl;
                      authorization = refl;
                    })))))))

  abbrev pub rail_asked : TxOpts → Rail
  rail_asked opts = if asks_sponsorship opts then sponsored else native_gas

  -- The sponsorship of these options resolves to their rail, and only where that can be sponsored.
  pub record IsServed (opts : TxOpts) (s : Sponsorship) : Type 0 where
    pub on_rail : rail_from_context (context_of s) ≡ rail_asked opts
    pub is_possible : asks_sponsorship opts ≡ true → can_sponsor config ≡ true

  IsServed-cases :
      (asks possible unsupported : Bool) (opts : TxOpts) (s : Sponsorship)
      → asks_sponsorship opts ≡ asks
      → can_sponsor config ≡ possible
      → (if asks
          then (if possible
              then (if unsupported
                  then unsupported_token config
                  else fulfilled (record { is_sponsored = true; fee_token = opts.fee_token }))
              else no_rail config)
          else fulfilled (record { is_sponsored = false; fee_token = none }))
        ≡ fulfilled s
      → IsServed opts s
  IsServed-cases true true true opts s e f h = cc
  IsServed-cases true true false opts s e f h = record {
    on_rail =
        subst (λ (t : Sponsorship). rail_from_context (context_of t) ≡ rail_asked opts)
          (fulfilled-injective h) (rw e refl);
    is_possible = λ k. f;
  }
  IsServed-cases true false u opts s e f h = cc
  IsServed-cases false p u opts s e f h = record {
    on_rail =
        subst (λ (t : Sponsorship). rail_from_context (context_of t) ≡ rail_asked opts)
          (fulfilled-injective h) (rw e refl);
    is_possible = λ k. let c = sym e ∙ k in cc;
  }

  pub resolved-IsServed :
      (n : ℕ) (opts : TxOpts) (s : Sponsorship)
      → resolve_sponsorship config n opts ≡ fulfilled s
      → IsServed opts s
  unfolding resolve_sponsorship
  resolved-IsServed n opts s h =
      IsServed-cases (asks_sponsorship opts) (can_sponsor config)
        (is_unsupported config n opts.fee_token) opts s refl refl h

  pub build_batch-Reads :
      (calls : List RawCall) (chain : EvmChainProfile) (s : Sponsorship)
      → Reads (IsBatchOf chain calls (context_of s)) (build_batch config calls chain s)
  unfolding build_batch
  build_batch-Reads calls chain s =
      >>=-Reads (settle (require_address config)) _ (settled-Reads _) (λ address a.
        >>=-Reads (call (network "nonce allocator") (config.next_nonce address)) _
          (network-Reads _ _)
          (λ nonce b.
            lean_resolve-Reads (config.rpc chain.chain_id) chain address calls (context_of s) nonce
              config.deadline))
