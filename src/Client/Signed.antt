-- ===== src/Client/Signed.antt =====
-- packages/core/src/client/evm.ts: that a send submits what was signed, and signs what it was asked to.
use avok_js.Base.{
  ℕ, String, ◌≡◌, refl, sym, ap, Option, none, some, List, Settled, fulfilled, throw,
  fulfilled-injective,
}
use avok_js.Consent.Types.{RawCall}
use avok_js.Registry.{get_chain_profile}
use avok_js.Registry.Laws.{get_chain_profile-chain_id}
use avok_js.Registry.Profiles.{EvmChainProfile}
use avok_js.Client.Io.{call, settle, network}
use avok_js.Client.Resolve.{Rail, native_gas, sponsored, ResolvedBatch, PendingAuthorization}
use avok_js.Client.UserOp.{UserOp, PreparedUserOp}
use avok_js.Client.Send.{
  Config, TxOpts, NativeTx, resolve_chain_id, require_chain, require_signer_address,
  submit_sponsored, send_native, native_tx, outer_authorization, signed_op,
}
use avok_js.Client.Discipline.{Sends, >>=-Sends, gesture-Sends}
use avok_js.Client.Asked.{settled-Reads, network-Reads}

-- The operation with this signature, and with the authorization that was signed along with it, if any; all
-- else is as it was.
pub record IsSigned (op : UserOp) (signature : String) (authorization : Option PendingAuthorization)
    (sent : UserOp) : Type 0 where
  pub with_signature : sent.signature ≡ signature
  pub with_authorization :
      sent.authorization ≡ (elim authorization as (λ _. Option PendingAuthorization) [
        | none ↦ op.authorization
        | some a ↦ some a
      ])
  pub same_sender : sent.sender ≡ op.sender
  pub same_nonce : sent.nonce ≡ op.nonce
  pub same_call_data : sent.call_data ≡ op.call_data
  pub same_gas : sent.gas ≡ op.gas
  pub same_fees : sent.fees ≡ op.fees
  pub same_paymaster : sent.paymaster ≡ op.paymaster

module _ (config : Config) where
  -- An operation with the property was signed, and this came of submitting it with its signature.
  pub record SubmitsOp (P : PreparedUserOp → Type 0) (r : Settled String) : Type 0 where
    pub prepared : PreparedUserOp
    pub is_wanted : P prepared
    pub signature : String
    pub authorization : Option PendingAuthorization
    pub was_signed : config.sign_user_op prepared ≡ fulfilled (signature, authorization)
    pub sent : UserOp
    pub is_signed : IsSigned prepared.op signature authorization sent
    pub submitted : r ≡ config.send_user_operation sent

  -- A transaction with the property was signed, and this came of submitting what its signature gave.
  pub record SubmitsTx (P : NativeTx → Option PendingAuthorization → Type 0) (r : Settled String)
      : Type 0 where
    pub tx : NativeTx
    pub authorization : Option PendingAuthorization
    pub is_wanted : P tx authorization
    pub serialized : String
    pub was_signed : config.sign_send tx authorization ≡ fulfilled serialized
    pub submitted : r ≡ config.send_raw_transaction serialized

  signed-SubmitsOp :
      (P : PreparedUserOp → Type 0) (p : PreparedUserOp)
      (answer : String × Option PendingAuthorization)
      → P p
      → config.sign_user_op p ≡ fulfilled answer
      → SubmitsOp P (config.send_user_operation (signed_op config p.op answer))
  signed-SubmitsOp P p (signature, none) w h = record {
    prepared = p;
    is_wanted = w;
    signature = signature;
    authorization = none;
    was_signed = h;
    sent = record p.op { signature = signature };
    is_signed = record {
      with_signature = refl;
      with_authorization = refl;
      same_sender = refl;
      same_nonce = refl;
      same_call_data = refl;
      same_gas = refl;
      same_fees = refl;
      same_paymaster = refl;
    };
    submitted = refl;
  }
  signed-SubmitsOp P p (signature, some a) w h = record {
    prepared = p;
    is_wanted = w;
    signature = signature;
    authorization = some a;
    was_signed = h;
    sent = record p.op { signature = signature; authorization = some a };
    is_signed = record {
      with_signature = refl;
      with_authorization = refl;
      same_sender = refl;
      same_nonce = refl;
      same_call_data = refl;
      same_gas = refl;
      same_fees = refl;
      same_paymaster = refl;
    };
    submitted = refl;
  }

  -- The prepared operation is what is signed and submitted.
  pub submit_sponsored-Sends :
      (P : PreparedUserOp → Type 0) (batch : ResolvedBatch) (p : PreparedUserOp)
      → P p
      → Sends sponsored (SubmitsOp P) (submit_sponsored config batch p)
  submit_sponsored-Sends P batch p w =
      gesture-Sends sponsored (config.sign_user_op p)
        (λ answer. config.send_user_operation (signed_op config p.op answer)) _ (λ id. (refl, refl))
        (λ answer h. signed-SubmitsOp P p answer w h)

  -- The transaction of the batch is what is signed and submitted.
  pub send_native-Sends :
      (P : NativeTx → Option PendingAuthorization → Type 0) (batch : ResolvedBatch)
      → ((nonce tip base : ℕ)
          → P
              (native_tx config batch nonce tip base)
              (outer_authorization config batch.authorization nonce))
      → Sends native_gas (SubmitsTx P) (send_native config batch)
  send_native-Sends P batch w =
      >>=-Sends native_gas (settle (require_signer_address config)) _ (settled-Reads _) (λ signer h.
        >>=-Sends native_gas (call (network "eth_getTransactionCount") _) _ (network-Reads _ _)
          (λ n k.
            >>=-Sends native_gas (call (network "eth_maxPriorityFeePerGas") _) _ (network-Reads _ _)
              (λ tip a.
                >>=-Sends native_gas (call (network "eth_getBlock") _) _ (network-Reads _ _)
                  (λ base b.
                    gesture-Sends native_gas (config.sign_send _ _) config.send_raw_transaction _
                      (λ id. (refl, refl))
                      (λ serialized e. record {
                        tx = native_tx config batch n tip base;
                        authorization = outer_authorization config batch.authorization n;
                        is_wanted = w n tip base;
                        serialized = serialized;
                        was_signed = e;
                        submitted = refl;
                      })))))

  -- On each rail, what is signed carries these calls, on the chain that the options name.
  abbrev pub SubmitsCalls : List RawCall → TxOpts → Rail → Settled String → Type 0
  SubmitsCalls calls opts sponsored = SubmitsOp (λ p.
      (some p.chain_id ≡ opts.chain_id)
      × (p.op.call_data ≡ (config.infra p.chain_id).encode_execute_batch calls))
  SubmitsCalls calls opts native_gas = SubmitsTx (λ tx a.
      (some tx.chain_id ≡ opts.chain_id)
      × (tx.data_ ≡ (config.rpc tx.chain_id).encode_execute_batch calls))

pub resolved_chain_id : (o : Option ℕ) (n : ℕ) → resolve_chain_id o ≡ fulfilled n → some n ≡ o
resolved_chain_id none n h = cc
resolved_chain_id (some m) n h = ap some (sym (fulfilled-injective h))

found_chain :
    (o : Option EvmChainProfile) (chain : EvmChainProfile)
    → (elim o as (λ _. Settled EvmChainProfile) [
      | none ↦ throw "Unknown chainId"
      | some c ↦ fulfilled c
    ])
      ≡ fulfilled chain
    → o ≡ some chain
found_chain none chain h = cc
found_chain (some c) chain h = ap some (fulfilled-injective h)

pub require_chain-found :
    (n : ℕ) (chain : EvmChainProfile)
    → require_chain n ≡ fulfilled chain
    → (get_chain_profile n ≡ some chain) × (chain.chain_id ≡ n)
unfolding require_chain
require_chain-found n chain h =
    let there = found_chain (get_chain_profile n) chain h in
    (there, (get_chain_profile-chain_id n chain there).0)
