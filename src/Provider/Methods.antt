-- ===== src/Provider/Methods.antt =====
-- packages/core/src/provider/eip1193-methods.ts: `dispatch`, with one function for each method.
use Prim.Native.String
use avok_js.Base.{
  ℕ, zero, suc, ◌+◌, ◌/◌, ◌%◌, ltb, ◌==◌, String, ◌===◌, ascii, to_lower_case, if◌then◌else◌, Bool,
  true, false, Option, none, some, ◌or_else◌, is_some, List, [], ◌∷◌, ◌++◌, Value, undefined, null,
  str, num, arr, items, Settled, rejected, member, optional_member, truthy, cons,
}
use avok_js.Consent.Types.{RawCall}
use avok_js.Registry.{lookup}
use avok_js.Registry.Profiles.{EvmTokenProfile}
use avok_js.Client.Send.{Receipt, ReceiptStatus, pending, submitted, confirmed, failed, TxOpts}
use avok_js.Provider.Types.{
  Reply, answered, refused, ◌>>=◌, from_settled, log_in, sign_message, sign_typed_data, send,
  ask_status, emit_chain_changed, Capabilities, CallsStatus, Answer, accounts, chain, signature,
  bundle, capabilities, calls_status, transaction, nothing, Runtime, Run, check, act, answer,
  invalid_params, unauthorized, unsupported_method,
}

-- The language's conversions and viem's.
pub record Js : Type 0 where
  pub big_int : Value → Settled ℕ
  pub to_string : Value → String
  pub json_parse : String → Settled Value
  pub is_hex : String → Bool
  pub hex_to_string : String → Settled String
  pub hex_to_number : Value → Settled ℕ

-- What the connection and the send engine answer to this request. `log_in` is there if the connection has
-- `continue`, and gives the address of the account that it leaves.
pub record Wallet : Type 0 where
  pub log_in : Option (Settled String)
  pub sign_message : String → Settled String
  pub sign_typed_data : Value → Settled String
  pub send : List RawCall → TxOpts → Settled Receipt
  pub status : Receipt → Settled Receipt
  pub capabilities : ℕ → Capabilities

-- `_params[i]`
abbrev pub param : List Value → ℕ → Value
param [] i = undefined
param (v ∷ vs) zero = v
param (v ∷ vs) (suc i) = param vs i

abbrev pub hex_digit : ℕ → ℕ
hex_digit d = if ltb d 10 then 48 + d else 87 + d

-- `id.toString(16)`, with fuel for the number of digits.
unfoldable pub hexadecimal : ℕ → ℕ → String → String
unfolding ascii
hexadecimal zero n acc = acc
hexadecimal (suc f) n acc =
    let more = hexadecimal f (n / 16) (String.◌∷◌ (ascii (hex_digit (n % 16))) acc) in
    if n / 16 == 0 then String.◌∷◌ (ascii (hex_digit (n % 16))) acc else more

unfoldable pub chain_id_hex : ℕ → String
unfolding hexadecimal
chain_id_hex id = String.◌++◌ "0x" (hexadecimal (suc id) id "")

abbrev pub accounts_of : Option String → List String
accounts_of none = []
accounts_of (some a) = a ∷ []

abbrev pub is_mined : ReceiptStatus → Bool
is_mined confirmed = true
is_mined failed = true
is_mined pending = false
is_mined submitted = false

abbrev pub receipt_status : ReceiptStatus → String
receipt_status confirmed = "0x1"
receipt_status s = "0x0"

-- Of the receipts, the status and the hash; the block's fields are zero.
unfoldable pub to_calls_status : Receipt → CallsStatus
unfolding chain_id_hex
to_calls_status r = record {
  id = r.id;
  chain_id = chain_id_hex r.chain_id;
  status = if is_mined r.status then 200 else 100;
  receipts =
      if is_mined r.status then (receipt_status r.status, r.tx_hash or_else r.id) ∷ [] else [];
}

abbrev pub is_active : String → Value → Bool
is_active active (str s) = to_lower_case s === to_lower_case active
is_active active v = false

unfoldable pub require_active_address : Option String → Value → Reply (Unit {0})
unfolding to_lower_case
require_active_address none claimed = refused unauthorized "No active account"
require_active_address (some active) claimed =
    if active === ""
    then refused unauthorized "No active account"
    else if is_active active claimed
    then answered tt
    else refused unauthorized "Not authorized to sign"

abbrev pub with_receipt : Runtime → Receipt → Runtime
with_receipt rt r = record rt { calls = (r.id, r) ∷ rt.calls }

module _ (js : Js) (w : Wallet) where
  -- A member that is no text goes by its text.
  abbrev pub text_of : Value → String
  text_of (str s) = s
  text_of v = js.to_string v

  abbrev pub data_of : Value → String
  data_of undefined = "0x"
  data_of null = "0x"
  data_of v = text_of v

  abbrev pub value_of : Value → Reply ℕ
  value_of v = if truthy v then from_settled (js.big_int v) else answered 0

  unfoldable pub to_call : Value → Reply RawCall
  to_call c = from_settled (member "to" c) >>= λ to.
      if truthy to
      then (value_of (optional_member "value" c) >>= λ value.
          answered
            (record { to = text_of to; value = value; bytes = data_of (optional_member "data" c) }))
      else refused invalid_params "Each call requires a `to` address"

  abbrev pub to_calls : List Value → Reply (List RawCall)
  to_calls [] = answered []
  to_calls (c ∷ cs) = to_call c >>= λ call. to_calls cs >>= λ calls. answered (call ∷ calls)

  -- What is sent, and its receipt kept.
  abbrev pub sent_then : Runtime → List RawCall → TxOpts → (Receipt → Answer) → Run Answer
  sent_then rt calls opts k =
      act rt (send calls opts) (w.send calls opts) (λ r. answer (with_receipt rt r) (k r))

  abbrev pub eth_request_accounts : Runtime → Run Answer
  eth_request_accounts rt = elim rt.account [
    | some a ↦ answer rt (accounts (a ∷ []))
    | none ↦ elim w.log_in [
      | none ↦ answer rt (accounts [])
      | some login ↦
          act rt log_in login (λ a. answer (record rt { account = some a }) (accounts (a ∷ [])))
    ]
  ]

  abbrev pub message_of : Value → Reply String
  message_of (str s) = if js.is_hex s then from_settled (js.hex_to_string s) else answered s
  message_of v = answered (js.to_string v)

  abbrev pub personal_sign : Runtime → List Value → Run Answer
  personal_sign rt params = check rt (require_active_address rt.account (param params 1)) (λ u.
      check rt (message_of (param params 0)) (λ message.
        act rt (sign_message message) (w.sign_message message) (λ s. answer rt (signature s))))

  abbrev pub payload_of : Value → Reply Value
  payload_of (str s) = from_settled (js.json_parse s)
  payload_of v = answered v

  abbrev pub eth_sign_typed_data : Runtime → List Value → Run Answer
  eth_sign_typed_data rt params =
      check rt (require_active_address rt.account (param params 0)) (λ u.
        check rt (payload_of (param params 1)) (λ payload.
          act rt (sign_typed_data payload) (w.sign_typed_data payload)
            (λ s. answer rt (signature s))))

  abbrev pub chain_or_active : Runtime → Value → Reply ℕ
  chain_or_active rt v =
      if truthy v then from_settled (js.hex_to_number v) else answered rt.chain_id

  abbrev pub first_token : List EvmTokenProfile → Option String
  first_token [] = none
  first_token (t ∷ ts) = some t.address

  -- `pm.context?.token ?? capabilities(chainId).feeTokens[0]?.address ?? null`
  abbrev pub token_or_default : Value → ℕ → Option String
  token_or_default undefined chain_id = first_token (w.capabilities chain_id).fee_tokens
  token_or_default null chain_id = first_token (w.capabilities chain_id).fee_tokens
  token_or_default v chain_id = some (text_of v)

  abbrev pub paymaster_service : Value → Value
  paymaster_service req = optional_member "paymasterService" (optional_member "capabilities" req)

  -- No token stands for one that is `null` or left out.
  unfoldable pub send_calls_opts : Value → ℕ → TxOpts
  send_calls_opts req chain_id = record {
    chain_id = some chain_id;
    fee_token =
        if truthy (paymaster_service req)
        then token_or_default
            (optional_member "token" (optional_member "context" (paymaster_service req))) chain_id
        else none;
    is_sponsored = false;
  }

  abbrev pub call_values : Value → Reply (List Value)
  call_values undefined = answered []
  call_values null = answered []
  call_values (arr vs) = answered (items vs)
  call_values v = from_settled (
      rejected (record { name = "TypeError"; message = "(req.calls ?? []).map is not a function" }))

  abbrev pub wallet_send_calls : Runtime → List Value → Run Answer
  wallet_send_calls rt params =
      check rt (from_settled (member "chainId" (param params 0)) >>= chain_or_active rt)
        (λ chain_id.
          check rt (call_values (optional_member "calls" (param params 0)) >>= to_calls) (λ calls.
            sent_then rt calls (send_calls_opts (param params 0) chain_id) (λ r. bundle r.id)))

  abbrev pub plain_opts : ℕ → TxOpts
  plain_opts chain_id = record { chain_id = some chain_id; fee_token = none; is_sponsored = false }

  abbrev pub eth_send_transaction : Runtime → List Value → Run Answer
  eth_send_transaction rt params =
      check rt (from_settled (member "chainId" (param params 0)) >>= chain_or_active rt)
        (λ chain_id. check rt (to_call (param params 0)) (λ call.
          sent_then rt (call ∷ []) (plain_opts chain_id)
            (λ r. transaction (r.tx_hash or_else r.id))))

  -- The chains are texts or numbers.
  abbrev pub chain_number : Value → Reply ℕ
  chain_number (num n) = answered n
  chain_number v = from_settled (js.hex_to_number v)

  abbrev pub chain_numbers : List Value → Reply (List ℕ)
  chain_numbers [] = answered []
  chain_numbers (v ∷ vs) = chain_number v >>= λ n. chain_numbers vs >>= λ ns. answered (n ∷ ns)

  abbrev pub asked_chains : Runtime → Value → Reply (List ℕ)
  asked_chains rt (arr (cons v vs)) = chain_numbers (v ∷ items vs)
  asked_chains rt v = answered (rt.chain_id ∷ [])

  -- `out[key] = value`, where a key that is there already has the same value.
  abbrev pub capabilities_of : List ℕ → List (String × Capabilities) → List (String × Capabilities)
  capabilities_of [] out = out
  capabilities_of (n ∷ ns) out = capabilities_of ns (
      if is_some (lookup (chain_id_hex n) out)
      then out
      else out ++ ((chain_id_hex n, w.capabilities n) ∷ []))

  abbrev pub wallet_get_capabilities : Runtime → List Value → Run Answer
  wallet_get_capabilities rt params =
      check rt (asked_chains rt (param params 1))
        (λ ids. answer rt (capabilities (capabilities_of ids [])))

  abbrev pub known_receipt : Runtime → Value → Reply (String × Receipt)
  known_receipt rt (str id) = elim (lookup id rt.calls) [
    | none ↦ refused invalid_params "Unknown bundle id"
    | some r ↦ answered (id, r)
  ]
  known_receipt rt v = refused invalid_params "Unknown bundle id"

  abbrev pub wallet_get_calls_status : Runtime → List Value → Run Answer
  wallet_get_calls_status rt params = check rt (known_receipt rt (param params 0)) (λ known.
      act rt (ask_status known.1) (w.status known.1) (λ updated.
        answer (record rt { calls = (known.0, updated) ∷ rt.calls })
          (calls_status (to_calls_status updated))))

  abbrev pub switched : Runtime → Value → ℕ → Run Answer
  switched rt v n = record {
    did = emit_chain_changed v ∷ [];
    runtime = record rt { chain_id = n };
    result = answered nothing;
  }

  abbrev pub wallet_switch_ethereum_chain : Runtime → List Value → Run Answer
  wallet_switch_ethereum_chain rt params =
      check rt (from_settled (member "chainId" (param params 0)))
        (λ v. check rt (from_settled (js.hex_to_number v)) (λ n. switched rt v n))

  unfoldable pub dispatch : Runtime → String → List Value → Run Answer
  unfolding require_active_address to_call to_calls_status chain_id_hex send_calls_opts
  dispatch rt method params =
      if method === "eth_requestAccounts"
      then eth_request_accounts rt
      else if method === "eth_accounts"
      then answer rt (accounts (accounts_of rt.account))
      else if method === "eth_chainId"
      then answer rt (chain (chain_id_hex rt.chain_id))
      else if method === "personal_sign"
      then personal_sign rt params
      else if method === "eth_signTypedData_v4"
      then eth_sign_typed_data rt params
      else if method === "wallet_sendCalls"
      then wallet_send_calls rt params
      else if method === "wallet_getCapabilities"
      then wallet_get_capabilities rt params
      else if method === "wallet_getCallsStatus"
      then wallet_get_calls_status rt params
      else if method === "eth_sendTransaction"
      then eth_send_transaction rt params
      else if method === "wallet_switchEthereumChain"
      then wallet_switch_ethereum_chain rt params
      else check rt (refused unsupported_method "Unsupported method") (λ (a : Answer). answer rt a)
