-- ===== src/Consent/Types.antt =====
-- packages/core/src/auth-popup/sign/consent.ts: the requests, what they are decoded to, and what the
-- decoder takes from viem. `bigint` and `number` are natural numbers; addresses and bytes are texts.
use avok_js.Base.{ℕ, String, Bool, Option, List, Value, Settled}

pub record RawCall : Type 0 where
  pub to : String
  pub value : ℕ
  pub bytes : String

-- `decodeFunctionData` at `erc20Abi`, at `EXTRA_APPROVAL_ABI` and at the wallet's own ABI.
pub data Erc20Call : Type 0 where
  transfer : (to : String) → ℕ → Erc20Call
  approve : (spender : String) → ℕ → Erc20Call
  transfer_from : (from to : String) → ℕ → Erc20Call
  other_erc20 : Erc20Call

pub data ExtraCall : Type 0 where
  set_approval_for_all : (operator : String) → Bool → ExtraCall
  increase_allowance : (spender : String) → ℕ → ExtraCall

pub data WalletCall : Type 0 where
  execute : (mode execution_data : String) → WalletCall
  other_wallet_call : WalletCall

-- viem: each may throw. `decode_calls` is `decodeAbiParameters` at `CALLS_PARAM`.
pub record Viem : Type 0 where
  pub get_address : String → Settled String
  pub decode_erc20 : String → Settled Erc20Call
  pub decode_extra : String → Settled ExtraCall
  pub decode_wallet : String → Settled WalletCall
  pub decode_calls : String → Settled (List RawCall)
  pub format_units : ℕ → ℕ → String

pub data ConsentKind : Type 0 where
  erc20_transfer erc20_approve erc20_increase_allowance erc20_transfer_from : ConsentKind
  erc721_approve_all native raw : ConsentKind

pub record ConsentToken : Type 0 where
  pub symbol : Option String
  pub decimals : Option ℕ
  pub amount : Option String
  pub base_units : String
  pub counterparty : String
  pub from : Option String
  pub approved : Option Bool

pub record ConsentLine : Type 0 where
  pub to : String
  pub value_wei : String
  pub kind : ConsentKind
  pub token : Option ConsentToken
  pub raw : String

pub record ConsentView : Type 0 where
  pub chain_id : ℕ
  pub fee : Option ConsentLine
  pub max_fee_wei : Option ℕ
  pub calls : List ConsentLine

-- A field of a typed-data message: an array of calls, or any other value.
pub data Field : Type 0 where
  calls : List RawCall → Field
  value : Value → Field

pub data Fields : Type 0 where
  no_message : Fields
  fields : List (String × Field) → Fields

pub record Domain : Type 0 where
  pub name : Option String
  pub version : Option String
  pub chain_id : Option ℕ
  pub verifying_contract : Option String

pub record TypedData : Type 0 where
  pub domain : Domain
  pub primary_type : Option String
  pub message : Fields

pub record LabelledValue : Type 0 where
  pub label : String
  pub value : String

pub record GenericTypedDataView : Type 0 where
  pub domain : Domain
  pub primary_type : String
  pub fields : List LabelledValue

-- Dates are their ISO texts.
pub record SiweParams : Type 0 where
  pub domain : String
  pub uri : String
  pub version : String
  pub chain_id : ℕ
  pub nonce : String
  pub statement : Option String
  pub issued_at : Option String
  pub expiration_time : Option String
  pub not_before : Option String
  pub scheme : Option String
  pub request_id : Option String
  pub resources : Option (List String)

-- Both spellings of the delegate may be there: the request is cast, not checked.
pub record AuthorizationRequest : Type 0 where
  pub chain_id : ℕ
  pub address : Option String
  pub contract_address : Option String
  pub nonce : ℕ

pub record Transaction : Type 0 where
  pub chain_id : Option ℕ
  pub to : Option String
  pub value : Option ℕ
  pub bytes : Option String
  pub gas : Option ℕ
  pub max_fee_per_gas : Option ℕ

pub record UserOpRequest : Type 0 where
  pub sender : String
  pub call_data : String

pub data SignConsentRequest : Type 0 where
  sign_message : String → SignConsentRequest
  sign_typed_data : TypedData → SignConsentRequest
  sign_siwe : SiweParams → SignConsentRequest
  sign_authorization : AuthorizationRequest → SignConsentRequest
  sign_transaction : Transaction → SignConsentRequest
  sign_send : Transaction → Option AuthorizationRequest → SignConsentRequest
  sign_sponsored : TypedData → Option AuthorizationRequest → SignConsentRequest
  sign_user_op :
      UserOpRequest
      → (chain_id : ℕ) → (entry_point_version : String) → Option AuthorizationRequest
      → SignConsentRequest

pub record TxConsent : Type 0 where
  pub chain_id : ℕ
  pub calls : List ConsentLine
  pub fee : Option ConsentLine
  pub max_fee_wei : Option ℕ

pub data SignConsent : Type 0 where
  typed_data : ConsentView → SignConsent
  typed_data_generic : GenericTypedDataView → SignConsent
  message : String → SignConsent
  siwe : List (String × String) → SignConsent
  transaction : TxConsent → SignConsent
  send : TxConsent → (delegation : Option String) → SignConsent
  sponsored : ConsentView → (delegation : Option String) → SignConsent
  user_op : (chain_id : ℕ) → List ConsentLine → (delegation : Option String) → SignConsent
  authorization : (chain_id : ℕ) → (implementation : String) → SignConsent
