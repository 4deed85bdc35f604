-- ===== src/Consent/Payload.antt =====
-- packages/core/src/auth-popup/sign/simulate-payload.ts: what is simulated for a request.
use avok_js.Base.{
  ◌>>=◌, ℕ, String, ◌===◌, if◌then◌else◌, Option, none, some, ◌or_else◌, List, [], ◌∷◌, ◌++◌,
  Settled, fulfilled,
}
use avok_js.Consent.Types.{
  RawCall, Viem, TypedData, Transaction, SignConsentRequest, sign_typed_data, sign_transaction,
  sign_send, sign_sponsored, sign_user_op,
}
use avok_js.Consent.Decode.{map_settled}
use avok_js.Consent.TypedData.{field, is_avok_batch_typed_data, calls_of, message_fields}

pub record SignTxPayload : Type 0 where
  pub chain_id : ℕ
  pub account : String
  pub calls : List RawCall

module _ (viem : Viem) where
  unfoldable pub to_sign_tx_call : RawCall → Settled RawCall
  to_sign_tx_call c = do
    to ← viem.get_address c.to
    fulfilled (record { to = to; value = c.value; bytes = c.bytes })

  abbrev self_call : ℕ → String → RawCall → SignTxPayload
  self_call chain_id wallet call = record {
    chain_id = chain_id;
    account = wallet;
    calls = call ∷ [];
  }

  -- `to` and the chain both there, and `to` not empty.
  unfoldable pub payload_at :
      Transaction → Option String → Option ℕ → Settled (Option SignTxPayload)
  payload_at tx (some to) (some chain_id) = if to === "" then fulfilled none else do
    wallet ← viem.get_address to
    fulfilled (
        some (
          self_call chain_id wallet
            (record { to = wallet; value = tx.value or_else 0; bytes = tx.bytes or_else "0x" })))
  payload_at tx _ _ = fulfilled none

  unfoldable pub payload_for_tx : Transaction → Settled (Option SignTxPayload)
  unfolding payload_at
  payload_for_tx tx = payload_at tx tx.to tx.chain_id

  unfoldable pub batch_payload :
      TypedData → Option String → Option ℕ → Settled (Option SignTxPayload)
  unfolding to_sign_tx_call
  batch_payload td (some verifying_contract) (some chain_id) = do
    account ← viem.get_address verifying_contract
    fee_calls ← calls_of (field "feeCalls" (message_fields td.message))
    user_calls ← calls_of (field "userCalls" (message_fields td.message))
    calls ← map_settled to_sign_tx_call (fee_calls ++ user_calls)
    fulfilled (some (record { chain_id = chain_id; account = account; calls = calls }))
  batch_payload td _ _ = fulfilled none

  unfoldable pub payload_for_avok_batch : TypedData → Settled (Option SignTxPayload)
  unfolding batch_payload
  payload_for_avok_batch td =
      if is_avok_batch_typed_data td.message
      then batch_payload td td.domain.verifying_contract td.domain.chain_id
      else fulfilled none

  unfoldable pub simulation_payload_for : SignConsentRequest → Settled (Option SignTxPayload)
  unfolding payload_for_tx payload_for_avok_batch
  simulation_payload_for (sign_transaction tx) = payload_for_tx tx
  simulation_payload_for (sign_send tx a) = payload_for_tx tx
  simulation_payload_for (sign_user_op op chain_id version a) = do
    account ← viem.get_address op.sender
    fulfilled (
        some
          (self_call chain_id account (record { to = account; value = 0; bytes = op.call_data })))
  simulation_payload_for (sign_typed_data td) = payload_for_avok_batch td
  simulation_payload_for (sign_sponsored td a) = payload_for_avok_batch td
  simulation_payload_for _ = fulfilled none
