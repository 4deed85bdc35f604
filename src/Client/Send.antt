-- ===== src/Client/Send.antt =====
-- packages/core/src/client/evm.ts: the rail of a send, and the send. Configuration, connection and network are
-- arguments; the reads of `Promise.all` stand one after the other.
use Prim.Native.String
use avok_js.Base.{
  ℕ, ◌+◌, ◌*◌, String, ◌===◌, to_lower_case, to_text, if◌then◌else◌, Bool, true, false, not, ◌&&◌,
  ◌||◌, any, Option, none, some, ◌or_else◌, List, ◌++◌, Settled, fulfilled, rejected, throw,
}
use avok_js.Consent.Types.{RawCall}
use avok_js.Registry.{get_chain_profile, list_fee_tokens}
use avok_js.Registry.Profiles.{EvmChainProfile, EvmTokenProfile}
use avok_js.Client.Io.{
  Io, call, settle, pure, network, gesture_user_op, gesture_send, send_user_operation,
  send_raw_transaction, ◌>>=◌,
}
use avok_js.Client.Gas.{Rpc, Fees, NativeFeeEstimate, native_gas_fees}
use avok_js.Client.Resolve.{
  Rail, native_gas, sponsored, ExecutionContext, ResolvedBatch, PendingAuthorization, lean_resolve,
  has_token,
}
use avok_js.Client.UserOp.{Infra, UserOp, PreparedUserOp, prepare_sponsored_user_op}

pub record TxOpts : Type 0 where
  pub chain_id : Option ℕ
  pub fee_token : Option String
  pub is_sponsored : Bool

pub record Account : Type 0 where
  pub address : String
  pub signer_address : Option String

pub record NativeTx : Type 0 where
  pub chain_id : ℕ
  pub to : String
  pub data_ : String
  pub value : ℕ
  pub nonce : ℕ
  pub gas : ℕ
  pub fees : Fees

-- The configuration, what the connection signs, and what is submitted. A paymaster or a bundler is there by
-- its URL or injected.
pub record Config : Type 0 where
  pub account : Option Account
  pub has_paymaster : Bool
  pub has_bundler : Bool
  pub entry_point_version : String
  pub rpc : ℕ → Rpc
  pub infra : ℕ → Infra
  pub next_nonce : String → Settled ℕ
  pub deadline : ℕ
  pub sign_user_op : PreparedUserOp → Settled (String × Option PendingAuthorization)
  pub sign_send : NativeTx → Option PendingAuthorization → Settled String
  pub send_user_operation : UserOp → Settled String
  pub send_raw_transaction : String → Settled String

pub data ReceiptStatus : Type 0 where
  pending submitted confirmed failed : ReceiptStatus

pub record Receipt : Type 0 where
  pub id : String
  pub rail : Rail
  pub status : ReceiptStatus
  pub tx_hash : Option String
  pub chain_id : ℕ
  pub error : Option String

abbrev pub resolve_chain_id : Option ℕ → Settled ℕ
resolve_chain_id none = throw "chainId is required (pass it per call)"
resolve_chain_id (some chain_id) = fulfilled chain_id

unfoldable pub require_chain : ℕ → Settled EvmChainProfile
unfolding get_chain_profile
require_chain chain_id = elim (get_chain_profile chain_id) [
  | none ↦ throw "Unknown chainId"
  | some chain ↦ fulfilled chain
]

-- `feeTokens`: the registry's tokens of the chain.
abbrev pub on_chain : ℕ → String × EvmTokenProfile → Bool
on_chain chain_id (chain, token) = chain === String.◌++◌ "eip155:" (to_text chain_id)

unfoldable pub is_fee_token : ℕ → String → Bool
unfolding list_fee_tokens to_text to_lower_case
is_fee_token chain_id token =
    any (λ e. on_chain chain_id e && (to_lower_case e.1.address === to_lower_case token))
      (list_fee_tokens none)

pub record Sponsorship : Type 0 where
  pub is_sponsored : Bool
  pub fee_token : Option String

abbrev pub context_of : Sponsorship → ExecutionContext
context_of s = record { fee_token = s.fee_token; is_sponsored = s.is_sponsored }

abbrev pub asks_sponsorship : TxOpts → Bool
asks_sponsorship opts = has_token opts.fee_token || opts.is_sponsored

module _ (config : Config) where
  abbrev pub can_sponsor : Bool
  can_sponsor = config.has_paymaster && config.has_bundler

  abbrev pub no_rail {ℓ} : {A : Type ℓ} → Settled A
  no_rail = rejected (record {
    name = "SponsorshipUnavailableError";
    message = "Sponsorship was requested but is unavailable";
  })

  abbrev pub unsupported_token {ℓ} : {A : Type ℓ} → Settled A
  unsupported_token = rejected (record {
    name = "UnsupportedFeeTokenError";
    message = "Fee token is not a supported fee token";
  })

  abbrev pub is_unsupported : ℕ → Option String → Bool
  is_unsupported chain_id token = has_token token && not (is_fee_token chain_id (token or_else ""))

  abbrev pub sponsorship_with : ℕ → Option String → Settled Sponsorship
  sponsorship_with chain_id token =
      if is_unsupported chain_id token
      then unsupported_token
      else fulfilled (record { is_sponsored = true; fee_token = token })

  unfoldable pub resolve_sponsorship : ℕ → TxOpts → Settled Sponsorship
  unfolding is_fee_token
  resolve_sponsorship chain_id opts =
      if asks_sponsorship opts
      then (if can_sponsor then sponsorship_with chain_id opts.fee_token else no_rail)
      else fulfilled (record { is_sponsored = false; fee_token = none })

  abbrev pub require_address : Settled String
  require_address = elim config.account [
    | none ↦ throw "no active account"
    | some a ↦ if a.address === "" then throw "no active account" else fulfilled a.address
  ]

  abbrev pub signer_of : Account → String
  signer_of a = a.signer_address or_else a.address

  abbrev pub require_signer_address : Settled String
  require_signer_address = elim config.account [
    | none ↦ throw "no active account"
    | some a ↦ if signer_of a === "" then throw "no active account" else fulfilled (signer_of a)
  ]

  unfoldable pub build_batch : List RawCall → EvmChainProfile → Sponsorship → Io ResolvedBatch
  unfolding lean_resolve
  build_batch calls chain s = settle require_address >>= λ address.
      call (network "nonce allocator") (config.next_nonce address) >>= λ nonce.
      lean_resolve (config.rpc chain.chain_id) chain address calls (context_of s) nonce
        config.deadline

  unfoldable pub prepare_sponsored : ResolvedBatch → Io PreparedUserOp
  unfolding prepare_sponsored_user_op
  prepare_sponsored batch =
      let rpc = config.rpc batch.chain_id in
      call (network "eth_maxPriorityFeePerGas") rpc.get_max_priority_fee_per_gas
      >>= λ suggested_tip. call (network "eth_getBlock") rpc.get_base_fee_per_gas >>= λ base_fee.
          prepare_sponsored_user_op (config.infra batch.chain_id) batch.wallet_address
            batch.user_calls batch.chain_id batch.authorization batch.fee_token suggested_tip
            base_fee config.entry_point_version

  abbrev pub signed_op : UserOp → String × Option PendingAuthorization → UserOp
  signed_op op (signature, none) = record op { signature = signature }
  signed_op op (signature, some a) = record op { signature = signature; authorization = some a }

  -- One gesture, and one submission, on what was prepared.
  abbrev pub submit_sponsored : ResolvedBatch → PreparedUserOp → Io Receipt
  submit_sponsored batch prepared =
      call gesture_user_op (config.sign_user_op prepared) >>= λ answer.
      call send_user_operation (config.send_user_operation (signed_op prepared.op answer)) >>= λ id.
      pure (record {
        id = id;
        rail = sponsored;
        status = pending;
        tx_hash = none;
        chain_id = batch.chain_id;
        error = none;
      })

  abbrev pub reused_or_prepared : Option PreparedUserOp → ResolvedBatch → Io PreparedUserOp
  reused_or_prepared (some p) batch = pure p
  reused_or_prepared none batch = prepare_sponsored batch

  abbrev pub gas_limit : Option NativeFeeEstimate → ℕ
  gas_limit none = 1000000
  gas_limit (some e) = e.gas_units * 2

  abbrev pub native_tx : ResolvedBatch → (tx_nonce suggested_tip base_fee : ℕ) → NativeTx
  native_tx batch tx_nonce suggested_tip base_fee = record {
    chain_id = batch.chain_id;
    to = batch.wallet_address;
    data_ = (config.rpc batch.chain_id).encode_execute_batch (batch.fee_calls ++ batch.user_calls);
    value = 0;
    nonce = tx_nonce;
    gas = gas_limit batch.native_fee;
    fees = native_gas_fees suggested_tip base_fee;
  }

  -- The authorization is signed over the account's nonce after the transaction's own.
  abbrev pub outer_authorization : Option PendingAuthorization → ℕ → Option PendingAuthorization
  outer_authorization none tx_nonce = none
  outer_authorization (some a) tx_nonce = some (record a { nonce = tx_nonce + 1 })

  abbrev pub submit_native : ResolvedBatch → (tx_nonce suggested_tip base_fee : ℕ) → Io Receipt
  submit_native batch tx_nonce suggested_tip base_fee =
      call gesture_send (
        config.sign_send (native_tx batch tx_nonce suggested_tip base_fee)
          (outer_authorization batch.authorization tx_nonce))
      >>= λ serialized.
          call send_raw_transaction (config.send_raw_transaction serialized) >>= λ tx_hash.
          pure (record {
            id = tx_hash;
            rail = native_gas;
            status = submitted;
            tx_hash = some tx_hash;
            chain_id = batch.chain_id;
            error = none;
          })

  abbrev pub send_native : ResolvedBatch → Io Receipt
  send_native batch = settle require_signer_address >>= λ signer.
      call (network "eth_getTransactionCount")
        ((config.rpc batch.chain_id).get_transaction_count signer)
      >>= λ tx_nonce.
          call (network "eth_maxPriorityFeePerGas")
            (config.rpc batch.chain_id).get_max_priority_fee_per_gas
          >>= λ suggested_tip.
              call (network "eth_getBlock") (config.rpc batch.chain_id).get_base_fee_per_gas
              >>= λ base_fee. submit_native batch tx_nonce suggested_tip base_fee

  abbrev pub is_sponsored_rail : Rail → Bool
  is_sponsored_rail sponsored = true
  is_sponsored_rail native_gas = false

  -- `send`, from the batch on.
  unfoldable pub send_batch : ResolvedBatch → Option PreparedUserOp → Io Receipt
  unfolding prepare_sponsored
  send_batch batch reused =
      if is_sponsored_rail batch.rail && can_sponsor
      then (reused_or_prepared reused batch >>= submit_sponsored batch)
      else send_native batch

  -- `send`, of calls.
  unfoldable pub send_calls : List RawCall → TxOpts → Io Receipt
  unfolding require_chain resolve_sponsorship build_batch send_batch
  send_calls calls opts = settle (resolve_chain_id opts.chain_id) >>= λ chain_id.
      settle (require_chain chain_id) >>= λ chain.
      settle (resolve_sponsorship chain_id opts) >>= λ s.
      build_batch calls chain s >>= λ batch. send_batch batch none
