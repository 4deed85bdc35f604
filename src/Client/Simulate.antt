-- ===== src/Client/Simulate.antt =====
-- packages/core/src/client/evm.ts, `simulate` and the send of what it returned, with evm/simulate.ts and
-- evm/sim-methods.ts. viem's `slice` of a call's bytes is an argument.
use avok_js.Base.{
  ℕ, leb, String, ◌===◌, if◌then◌else◌, Bool, true, false, not, ◌&&◌, Option, none, some, is_some,
  List, [], ◌∷◌, ◌++◌, map, find_first, throw, suc,
}
use avok_js.Consent.Types.{RawCall}
use avok_js.Registry.{lookup}
use avok_js.Registry.Profiles.{EvmChainProfile}
use avok_js.Client.Io.{Io, call, settle, pure, network, ◌>>=◌}
use avok_js.Client.Gas.{Rpc, SimCallResult, total_gas_used, override_code, NativeFeeEstimate}
use avok_js.Client.Resolve.{ResolvedBatch}
use avok_js.Client.UserOp.{PreparedUserOp, FeeBreakdown, bounded_sponsored_fee}
use avok_js.Client.Send.{
  Config, TxOpts, Receipt, resolve_chain_id, require_chain, can_sponsor, resolve_sponsorship,
  build_batch, prepare_sponsored, is_sponsored_rail, send_batch,
}

pub data SimMethod : Type 0 where
  eth_simulate_v1 state_override : SimMethod

pub record SimOutcome : Type 0 where
  pub success : Bool
  pub gas_used : ℕ
  pub revert_reason : Option String

abbrev pub revert_reason_of : Option SimCallResult → Option String
revert_reason_of none = none
revert_reason_of (some r) = r.error

abbrev pub summarize : List SimCallResult → SimOutcome
summarize results =
    let failed = find_first (λ r. r.has_failed) results in
    record {
      success = not (is_some failed);
      gas_used = total_gas_used results;
      revert_reason = revert_reason_of failed;
    }

pub record DecodedCall : Type 0 where
  pub to : String
  pub value : ℕ
  pub selector : String
  pub label : Option String

abbrev pub known_selectors : List (String × String)
known_selectors =
    ("0xa9059cbb", "transfer(address,uint256)")
    ∷ ("0x095ea7b3", "approve(address,uint256)")
    ∷ ("0x23b872dd", "transferFrom(address,address,uint256)")
    ∷ ("0xd505accf", "permit(address,address,uint256,uint256,uint8,bytes32,bytes32)")
    ∷ ("0x42842e0e", "safeTransferFrom(address,address,uint256)")
    ∷ ("0xb88d4fde", "safeTransferFrom(address,address,uint256,bytes)")
    ∷ ("0xa22cb465", "setApprovalForAll(address,bool)")
    ∷ ("0xf242432a", "safeTransferFrom(address,address,uint256,uint256,bytes)")
    ∷ ("0xd0e30db0", "deposit()")
    ∷ ("0x2e1a7d4d", "withdraw(uint256)")
    ∷ []

-- `data.length`
abbrev pub text_length : String → ℕ
text_length String.[] = 0
text_length (String.◌∷◌ c s) = suc (text_length s)

-- A result that `simulate` returns. Its fee is that of the sponsored operation; a resolved batch carries none.
pub record SimulationResult : Type 0 where
  pub batch : ResolvedBatch
  pub success : Bool
  pub gas_estimate : ℕ
  pub fee : Option FeeBreakdown
  pub native_fee : Option NativeFeeEstimate
  pub decoded_calls : List DecodedCall
  pub delegation_disclosed : Option String
  pub method : SimMethod
  pub revert_reason : Option String
  pub prepared_user_op : Option PreparedUserOp

module _ (slice : String → String) where
  abbrev pub selector_of : RawCall → String
  selector_of c = if leb 10 (text_length c.bytes) then slice c.bytes else "0x"

  abbrev pub decode_call : RawCall → DecodedCall
  decode_call c = record {
    to = c.to;
    value = c.value;
    selector = selector_of c;
    label = lookup (selector_of c) known_selectors;
  }

  module _ (rpc : Rpc) (chain : EvmChainProfile) where
    -- The batch runs as one call of the wallet to itself.
    abbrev pub run_method : Bool → ResolvedBatch → Io SimOutcome
    run_method overriding batch =
        override_code rpc overriding chain.canonical_implementation >>= λ code.
        call (network "eth_simulateV1") (
          rpc.simulate_calls batch.wallet_address
            (rpc.encode_execute_batch (batch.fee_calls ++ batch.user_calls)) code)
        >>= λ results. pure (summarize results)

    abbrev pub simulated : ResolvedBatch → SimMethod → SimOutcome → SimulationResult
    simulated batch method outcome = record {
      batch = batch;
      success = outcome.success;
      gas_estimate = outcome.gas_used;
      fee = none;
      native_fee = batch.native_fee;
      decoded_calls = map decode_call (batch.fee_calls ++ batch.user_calls);
      delegation_disclosed = batch.delegation_disclosed;
      method = method;
      revert_reason = outcome.revert_reason;
      prepared_user_op = none;
    }

    unfoldable pub simulate_resolved : ResolvedBatch → Io SimulationResult
    simulate_resolved batch =
        if is_some batch.authorization && chain.capabilities.state_override
        then (run_method true batch >>= λ outcome. pure (simulated batch state_override outcome))
        else (if chain.capabilities.simulate_v1
            then (run_method false batch >>= λ outcome.
                pure (simulated batch eth_simulate_v1 outcome))
            else settle (throw "chain lacks eth_simulateV1 and state-override"))

  module _ (config : Config) where
    abbrev pub quoted_fee : PreparedUserOp → Option String → Option FeeBreakdown
    quoted_fee prepared none = none
    quoted_fee prepared (some token) =
        if token === "" then none else some (bounded_sponsored_fee prepared.op token)

    abbrev pub with_quote : SimulationResult → ResolvedBatch → PreparedUserOp → SimulationResult
    with_quote sim batch prepared = record sim {
      fee = quoted_fee prepared batch.fee_token;
      prepared_user_op = some prepared;
    }

    -- The handshake is run for a sponsored batch, and what was prepared is kept for the send.
    abbrev pub quoted : ResolvedBatch → SimulationResult → Io SimulationResult
    quoted batch sim =
        if is_sponsored_rail config batch.rail && can_sponsor config
        then (prepare_sponsored config batch >>= λ prepared. pure (with_quote sim batch prepared))
        else pure sim

    unfoldable pub simulate : List RawCall → TxOpts → Io SimulationResult
    unfolding require_chain resolve_sponsorship build_batch prepare_sponsored simulate_resolved
    simulate calls opts = settle (resolve_chain_id opts.chain_id) >>= λ chain_id.
        settle (require_chain chain_id) >>= λ chain.
        settle (resolve_sponsorship config chain_id opts) >>= λ s.
        build_batch config calls chain s >>= λ batch.
        simulate_resolved (config.rpc chain_id) chain batch >>= λ sim. quoted batch sim

    -- `send`, of what `simulate` returned.
    unfoldable pub send_simulated : SimulationResult → Io Receipt
    unfolding require_chain send_batch
    send_simulated sim = settle (require_chain sim.batch.chain_id) >>= λ chain.
        send_batch config sim.batch sim.prepared_user_op
