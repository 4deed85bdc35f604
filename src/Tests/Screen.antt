-- ===== src/Tests/Screen.antt =====
-- The theorems on the approval screen, on signing and on simulation at concrete inputs.
use avok_js.Registry.{get_token_profile, get_chain_profile}
use avok_js.Base.{
  ◌≡◌, refl, ◌≤◌, ◌^◌, ◌↔◌, String, Option, none, some, List, [], ◌∷◌, Any, here, there, get_elem?,
  fulfilled, Value, num, arr, obj, nil, cons, end, prop, to_text, to_lower_case,
}
use avok_js.Consent.Lines.{danger}
use avok_js.Consent.Types.{
  ConsentLine, sign_user_op, UserOpRequest, TypedData, fields, Field, value, calls, SignConsent,
  transaction, send, sign_send, erc20_approve, native,
}
use avok_js.Consent.Decode.{decode_call, or_erc20, or_extra, erc20_line, plain_line}
use avok_js.Consent.Display.{call_line}
use avok_js.Consent.Danger.{unlimited_uint160_threshold}
use avok_js.Consent.TypedData.{
  is_avok_batch_typed_data, batch_fields, flatten_fields, decode_consent,
}
use avok_js.Consent.Request.{
  decode_sign_consent, decode_tx_consent, unwrap_wallet_batch, call_lines,
}
use avok_js.Consent.Format.{format_consent_display}
use avok_js.Consent.Screen.{batch_calls_shown}
use avok_js.Consent.Grants.{allowance_danger, by_approve}
use avok_js.Consent.Batch.{IsIn, batch_has_no_other_field}
use avok_js.Consent.Leaves.{
  Row, leaf, in_array, in_object, entry_first, entry_next, member_first, leaves_shown,
}
use avok_js.Consent.Fees.{IsSimulated, fees-IsSimulated}
use avok_js.Consent.Payload.{
  SignTxPayload, to_sign_tx_call, batch_payload, payload_for_avok_batch, simulation_payload_for,
}
use avok_js.Consent.Sign.{
  perform_sign, account_authorization, SignedAuthorization, composite, wrap_roster_signature,
}
use avok_js.Consent.Delegation.{a_send, LeadsWith, delegation_shown_first, contract_address_hidden}
use avok_js.Consent.Roster.{RosterAnswer, roster_answers}
use avok_js.Tests.Fixtures.{
  toy_viem, toy_crypto, wallet_batch, approve_call, pay_call, batch_tx, delegation_at,
  roster_device,
}

abbrev shown_tx : ConsentLine → ConsentLine → SignConsent
shown_tx a b =
    transaction (record { chain_id = 8453; calls = a ∷ b ∷ []; fee = none; max_fee_wei = some 700 })

abbrev approve_line : ConsentLine
approve_line = record {
  to = "0xtoken";
  value_wei = "0";
  kind = erc20_approve;
  token = some (record {
    symbol = none;
    decimals = none;
    amount = none;
    base_units = to_text (2 ^ 200);
    counterparty = "0xspender";
    from = none;
    approved = none;
  });
  raw = "approve";
}

abbrev pay_line : ConsentLine
pay_line = record { to = "0xfriend"; value_wei = "5"; kind = native; token = none; raw = "0x" }

batch_calls_shown_example :
    (l : ConsentLine) × (decode_call toy_viem 8453 pay_call ≡ fulfilled l)
    × (get_elem? (format_consent_display toy_viem (shown_tx approve_line pay_line)) 2
        ≡ some (call_line toy_viem 8453 l))
unfolding unwrap_wallet_batch decode_sign_consent decode_tx_consent call_lines decode_call or_erc20
    or_extra erc20_line plain_line to_text get_token_profile get_chain_profile to_lower_case
batch_calls_shown_example =
    batch_calls_shown toy_viem batch_tx wallet_batch 1 pay_call (shown_tx approve_line pay_line)
      refl refl refl

allowance_danger_example :
    (l : ConsentLine) × (decode_call toy_viem 8453 approve_call ≡ fulfilled l)
    × (((call_line toy_viem 8453 l).severity ≡ danger) ↔ (unlimited_uint160_threshold ≤ 2 ^ 200))
allowance_danger_example =
    allowance_danger toy_viem 8453 approve_call "0xspender" "0xspender" "0xtoken" (2 ^ 200)
      (by_approve refl) refl refl

abbrev batch_message : List (String × Field)
batch_message =
    ("nonce", value (num 1))
    ∷ ("feeCalls", calls [])
    ∷ ("userCalls", calls wallet_batch)
    ∷ ("deadline", value (num 9))
    ∷ []

batch_has_no_other_field_example : IsIn "userCalls" batch_fields
unfolding is_avok_batch_typed_data
batch_has_no_other_field_example =
    batch_has_no_other_field batch_message "userCalls" refl (there (there (here refl)))

abbrev permit_message : Value
permit_message =
    obj (prop "details" (arr (cons (num 1) (cons (obj (prop "amount" (num 77) end)) nil))) end)

leaves_shown_example : Any (Row "details[1].amount" "77") (flatten_fields permit_message "")
unfolding to_text
leaves_shown_example =
    leaves_shown
      (in_object member_first
        (in_array (entry_next entry_first) (in_object member_first (leaf refl))))
      ""

abbrev fee_batch : TypedData
fee_batch = record {
  domain = record {
    name = none;
    version = none;
    chain_id = some 10;
    verifying_contract = some "0xwallet";
  };
  primary_type = none;
  message = fields (
      ("nonce", value (num 1))
      ∷ ("feeCalls", calls (approve_call ∷ pay_call ∷ []))
      ∷ ("userCalls", calls (pay_call ∷ []))
      ∷ ("deadline", value (num 9))
      ∷ []);
}

abbrev fee_payload : Option SignTxPayload
fee_payload = some (record {
  chain_id = 10;
  account = "0xwallet";
  calls = approve_call ∷ pay_call ∷ pay_call ∷ [];
})

fees-IsSimulated_example :
    IsSimulated toy_viem "0xwallet" 10 (approve_call ∷ pay_call ∷ pay_call ∷ []) fee_payload
    × (decode_consent toy_viem 10 (approve_call ∷ pay_call ∷ []) (pay_call ∷ [])
        ≡ decode_consent toy_viem 10 (pay_call ∷ []) (pay_call ∷ []))
unfolding is_avok_batch_typed_data simulation_payload_for payload_for_avok_batch batch_payload
    to_sign_tx_call
fees-IsSimulated_example =
    fees-IsSimulated toy_viem fee_batch "0xwallet" 10 (approve_call ∷ pay_call ∷ []) (pay_call ∷ [])
      refl refl (approve_call ∷ []) pay_call none fee_payload refl refl refl refl refl

abbrev shown_send : SignConsent
shown_send =
    send
      (record {
        chain_id = 8453;
        calls = approve_line ∷ pay_line ∷ [];
        fee = none;
        max_fee_wei = some 700;
      })
      (some "0xdelegate")

delegation_shown_first_example : LeadsWith "0xdelegate" (format_consent_display toy_viem shown_send)
unfolding unwrap_wallet_batch decode_sign_consent decode_tx_consent call_lines decode_call or_erc20
    or_extra erc20_line plain_line to_text get_token_profile get_chain_profile to_lower_case
delegation_shown_first_example =
    delegation_shown_first toy_viem (a_send batch_tx) (delegation_at (some "0xdelegate") none)
      "0xdelegate" shown_send refl (λ e. cc) refl

abbrev hidden_delegation : SignedAuthorization
hidden_delegation = record {
  address = "0xhidden";
  chain_id = 8453;
  nonce = 3;
  signature = "authorization";
}

contract_address_hidden_example :
    (decode_sign_consent toy_viem (sign_send batch_tx (some (delegation_at none (some "0xhidden"))))
      ≡ decode_sign_consent toy_viem (sign_send batch_tx none))
    × (some hidden_delegation.address ≡ (delegation_at none (some "0xhidden")).contract_address)
unfolding account_authorization
contract_address_hidden_example =
    contract_address_hidden toy_viem toy_crypto (a_send batch_tx)
      (delegation_at none (some "0xhidden")) hidden_delegation refl refl

abbrev roster_op : UserOpRequest
roster_op = record { sender = "0xab"; call_data = "batch" }

roster_answers_example :
    RosterAnswer toy_crypto roster_device
      (sign_user_op roster_op 8453 "0.8" none)
      (composite "operation" none)
unfolding perform_sign wrap_roster_signature to_lower_case
roster_answers_example =
    roster_answers toy_crypto (sign_user_op roster_op 8453 "0.8" none) roster_device
      (composite "operation" none) refl refl
