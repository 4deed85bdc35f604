-- ===== src/Provider/Types.antt =====
-- packages/core/src/provider/eip1193-methods.ts: what a request is answered with, and what it makes the wallet do.
use avok_js.Base.{
  ℕ, String, Option, List, [], ◌∷◌, Value, Failure, Settled, fulfilled, rejected, Bool,
}
use avok_js.Consent.Types.{RawCall}
use avok_js.Registry.Profiles.{EvmTokenProfile}
use avok_js.Client.Send.{Receipt, TxOpts}

-- -32602, 4100 and 4200.
pub data Code : Type 0 where
  invalid_params unauthorized unsupported_method : Code

-- `ProviderRpcError` is a refusal with its code; any other error is a failure.
pub data Reply {ℓ} (A : Type ℓ) : Type ℓ where
  answered : A → Reply A
  refused : Code → String → Reply A
  errored : Failure → Reply A

infixl 5 ◌>>=◌
abbrev pub ◌>>=◌ {ℓ κ} : {A : Type ℓ} {B : Type κ} → Reply A → (A → Reply B) → Reply B
answered a >>= f = f a
refused code message >>= f = refused code message
errored e >>= f = errored e

abbrev pub from_settled {ℓ} : {A : Type ℓ} → Settled A → Reply A
from_settled (fulfilled a) = answered a
from_settled (rejected e) = errored e

-- What the wallet is asked to do, in its order.
pub data Action : Type 0 where
  log_in : Action
  sign_message : String → Action
  sign_typed_data : Value → Action
  send : List RawCall → TxOpts → Action
  ask_status : Receipt → Action
  emit_chain_changed : Value → Action

pub record Capabilities : Type 0 where
  pub is_supported : Bool
  pub fee_tokens : List EvmTokenProfile

-- The result of `wallet_getCallsStatus`: 100 while pending, 200 once included.
pub record CallsStatus : Type 0 where
  pub id : String
  pub chain_id : String
  pub status : ℕ
  pub receipts : List (String × String)

pub data Answer : Type 0 where
  accounts : List String → Answer
  chain : String → Answer
  signature : String → Answer
  bundle : String → Answer
  capabilities : List (String × Capabilities) → Answer
  calls_status : CallsStatus → Answer
  transaction : String → Answer
  nothing : Answer

-- The account of the connection, the chain, and the receipts of what was sent, newest first.
pub record Runtime : Type 0 where
  pub account : Option String
  pub chain_id : ℕ
  pub calls : List (String × Receipt)

pub record Run {ℓ} (A : Type ℓ) : Type ℓ where
  pub did : List Action
  pub runtime : Runtime
  pub result : Reply A

module _ {ℓ κ} {A : Type ℓ} {B : Type κ} where
  -- A check or a conversion comes first: what it throws ends the request.
  abbrev pub check : Runtime → Reply A → (A → Run B) → Run B
  check rt (answered a) k = k a
  check rt (refused code message) k = record {
    did = [];
    runtime = rt;
    result = refused code message;
  }
  check rt (errored e) k = record { did = []; runtime = rt; result = errored e }

  -- The wallet does this, and the request goes on with its answer.
  abbrev pub act : Runtime → Action → Settled A → (A → Run B) → Run B
  act rt action (fulfilled a) k = record {
    did = action ∷ (k a).did;
    runtime = (k a).runtime;
    result = (k a).result;
  }
  act rt action (rejected e) k = record { did = action ∷ []; runtime = rt; result = errored e }

abbrev pub answer : Runtime → Answer → Run Answer
answer rt a = record { did = []; runtime = rt; result = answered a }
