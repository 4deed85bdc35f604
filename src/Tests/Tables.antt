-- ===== src/Tests/Tables.antt =====
-- The theorems on the registry and on simulation at concrete inputs.
use avok_js.Nonce.{Storage, written, written_and_failed, allocation, reload, run, begin, Event}
use avok_js.Nonce.Laws.{IsAscending, nonces_ascend}
use avok_js.Base.{refl, true, false, none, some, List, [], ◌∷◌, Any, here, to_lower_case}
use avok_js.Consent.Payload.{SignTxPayload}
use avok_js.Simulate.{
  CallResult, direction_for, event_outcome, decode_deltas_and_approvals, AssetDelta, erc20,
  outgoing,
}
use avok_js.Simulate.Laws.{IsOutgoing, sent_tokens_reported}
use avok_js.Tests.Fixtures.{wallet_batch, toy_events, sent_log}

abbrev simulated_batch : SignTxPayload
simulated_batch = record { chain_id = 10; account = "0xme"; calls = wallet_batch }

abbrev call_results : List CallResult
call_results =
    record { failed = false; return_data = "0x"; logs = some (sent_log ∷ []) }
    ∷ record { failed = true; return_data = "0x08c379a0ff"; logs = none }
    ∷ []

abbrev sent_delta : AssetDelta
sent_delta = record {
  kind = erc20;
  token = some "0xtoken";
  amount = 12;
  direction = outgoing;
  token_id = none;
}

sent_tokens_reported_example : Any (IsOutgoing "0xtoken" 12) (sent_delta ∷ [])
unfolding decode_deltas_and_approvals event_outcome direction_for to_lower_case
sent_tokens_reported_example =
    sent_tokens_reported toy_events "0xMe" "0xtoken" 12 (sent_log ∷ []) (sent_delta ∷ [], [])
      (here (record {
        topic = refl;
        not_indexed = refl;
        token_address = refl;
        args = record { from = "0xME"; to = "0xyou"; amount = 12 };
        decoded = refl;
        sender = refl;
        sent = refl;
      }))
      refl

abbrev broken : Storage
broken = record { readable = true; write = written_and_failed }

abbrev sound : Storage
sound = record { readable = true; write = written }

abbrev allocations : List Event
allocations =
    allocation "0xAb" sound ∷ allocation "0xaB" broken ∷ reload ∷ allocation "0xab" sound ∷ []

nonces_ascend_example : IsAscending (run (begin (λ k. none)) allocations).issued
nonces_ascend_example = nonces_ascend (λ k. none) allocations
