-- ===== src/Simulate.antt =====
-- packages/core/src/vault/simulate: what a simulated batch did, out of the logs of its calls.
-- `decodeEventLog`, the event selectors and `decodeErrorResult` are parameters, as is what the RPC
-- answers.
pub mod Display
pub mod Laws
use Prim.Native.String
use avok_js.Base.{
  ℕ, ltb, ◌==◌, String, ◌===◌, to_lower_case, to_text, if◌then◌else◌, Bool, true, false, Option,
  none, some, ◌or_else◌, List, [], ◌∷◌, ◌++◌, length, get_elem?, find_first, flat_map, Settled,
  fulfilled, rejected, ◌>>=◌,
}
use avok_js.Consent.Danger.{is_unlimited_amount}
use avok_js.Consent.Types.{RawCall}
use avok_js.Consent.Payload.{SignTxPayload}

pub data AssetDeltaKind : Type 0 where
  native erc20 erc721 erc1155 : AssetDeltaKind

pub data Direction : Type 0 where
  incoming outgoing : Direction

pub record AssetDelta : Type 0 where
  pub kind : AssetDeltaKind
  pub token : Option String
  pub amount : ℕ
  pub direction : Direction
  pub token_id : Option ℕ

pub data GrantKind : Type 0 where
  erc20_allowance erc721_all : GrantKind

pub record ApprovalGrant : Type 0 where
  pub token : String
  pub spender : String
  pub amount : ℕ
  pub unlimited : Bool
  pub kind : GrantKind
  pub approved : Bool

pub record SimLog : Type 0 where
  pub address : String
  pub topics : List String
  pub bytes : String

pub record CallResult : Type 0 where
  pub failed : Bool
  pub return_data : String
  pub logs : Option (List SimLog)

-- The arguments of the events, as viem decodes them.
pub record Transfer : Type 0 where
  pub from : String
  pub to : String
  pub amount : ℕ

pub record BatchTransfer : Type 0 where
  pub from : String
  pub to : String
  pub ids : List ℕ
  pub values : List ℕ

pub record Events : Type 0 where
  pub get_address : String → Settled String
  pub transfer : String
  pub approval : String
  pub approval_for_all : String
  pub transfer_single : String
  pub transfer_batch : String
  pub erc20_transfer : SimLog → Settled Transfer
  pub erc721_transfer : SimLog → Settled Transfer
  pub erc20_approval : SimLog → Settled (String × ℕ)
  pub operator_approval : SimLog → Settled (String × Bool)
  pub single_transfer : SimLog → Settled (ℕ × Transfer)
  pub batch_transfer : SimLog → Settled BatchTransfer
  pub error_string : String → Settled String
  pub error_result : String → Settled String

abbrev pub Outcome : Type 0
Outcome = List AssetDelta × List ApprovalGrant

unfoldable pub direction_for : String → String → String → Option Direction
direction_for account from to =
    if to_lower_case from === to_lower_case account
    then some outgoing
    else if to_lower_case to === to_lower_case account
    then some incoming
    else none

abbrev delta_of : AssetDeltaKind → String → ℕ → Option ℕ → Direction → AssetDelta
delta_of kind token amount token_id direction = record {
  kind = kind;
  token = some token;
  amount = amount;
  direction = direction;
  token_id = token_id;
}

-- `if (direction) deltas.push(...)`
abbrev moved : Option Direction → (Direction → List AssetDelta) → Outcome
moved none f = ([], [])
moved (some d) f = (f d, [])

-- One delta for each id, with the value at the same index, or 0.
abbrev pub batch_deltas : String → Direction → List ℕ → List ℕ → List AssetDelta
batch_deltas token d [] values = []
batch_deltas token d (i ∷ ids) [] =
    delta_of erc1155 token 0 (some i) d ∷ batch_deltas token d ids []
batch_deltas token d (i ∷ ids) (v ∷ values) =
    delta_of erc1155 token v (some i) d ∷ batch_deltas token d ids values

-- `decodeErrorResult`'s selector of `Error(string)`, and what follows it in the text.
abbrev error_string_selector : String
error_string_selector = "0x08c379a0"

strip_prefix : String → String → Option String
strip_prefix String.[] s = some s
strip_prefix (String.◌∷◌ c p) String.[] = none
strip_prefix (String.◌∷◌ c p) (String.◌∷◌ d s) =
    let rest = strip_prefix p s in if String.◌∷◌ c "" === String.◌∷◌ d "" then rest else none

module _ (events : Events) (account : String) where
  transfer_outcome : String → SimLog → Settled Outcome
  transfer_outcome token log =
      if length log.topics == 4
      then events.erc721_transfer log >>= (λ t. fulfilled (
          moved (direction_for account t.from t.to)
            (λ d. delta_of erc721 token 1 (some t.amount) d ∷ [])))
      else events.erc20_transfer log >>= (λ t. fulfilled (
          moved (direction_for account t.from t.to)
            (λ d. delta_of erc20 token t.amount none d ∷ [])))

  approval_outcome : String → SimLog → Settled Outcome
  approval_outcome token log = do
    args ← events.erc20_approval log
    spender ← events.get_address args.0
    fulfilled (
      [],
      record {
        token = token;
        spender = spender;
        amount = args.1;
        unlimited = is_unlimited_amount (to_text args.1);
        kind = erc20_allowance;
        approved = true;
      }
          ∷ [],
    )

  operator_outcome : String → SimLog → Settled Outcome
  operator_outcome token log = do
    args ← events.operator_approval log
    spender ← events.get_address args.0
    fulfilled (
      [],
      record {
        token = token;
        spender = spender;
        amount = 0;
        unlimited = false;
        kind = erc721_all;
        approved = args.1;
      }
          ∷ [],
    )

  single_outcome : String → SimLog → Settled Outcome
  single_outcome token log = do
    args ← events.single_transfer log
    fulfilled (
        moved (direction_for account args.1.from args.1.to)
          (λ d. delta_of erc1155 token args.1.amount (some args.0) d ∷ []))

  batch_outcome : String → SimLog → Settled Outcome
  batch_outcome token log = do
    args ← events.batch_transfer log
    fulfilled (
        moved (direction_for account args.from args.to)
          (λ d. batch_deltas token d args.ids args.values))

  -- The body of the `try`, by the first topic.
  unfoldable pub event_outcome : String → String → SimLog → Settled Outcome
  unfolding transfer_outcome approval_outcome operator_outcome single_outcome batch_outcome
  event_outcome topic0 token log =
      if topic0 === events.transfer
      then transfer_outcome token log
      else if topic0 === events.approval
      then approval_outcome token log
      else if topic0 === events.approval_for_all
      then operator_outcome token log
      else if topic0 === events.transfer_single
      then single_outcome token log
      else if topic0 === events.transfer_batch
      then batch_outcome token log
      else fulfilled ([], [])

  -- A throw in the `try` leaves nothing.
  abbrev pub caught : Settled Outcome → Outcome
  caught (fulfilled o) = o
  caught (rejected f) = ([], [])

  abbrev pub log_outcome : SimLog → String → Outcome
  log_outcome log token = elim (get_elem? log.topics 0) [
    | none ↦ ([], [])
    | some topic0 ↦ caught (event_outcome topic0 token log)
  ]

  -- The address of a log is read before the `try`.
  unfoldable pub decode_deltas_and_approvals : List SimLog → Settled Outcome
  decode_deltas_and_approvals [] = fulfilled ([], [])
  decode_deltas_and_approvals (log ∷ logs) = do
    token ← events.get_address log.address
    rest ← decode_deltas_and_approvals logs
    fulfilled ((log_outcome log token).0 ++ rest.0, (log_outcome log token).1 ++ rest.1)

abbrev native_delta : RawCall → AssetDelta
native_delta c = record {
  kind = native;
  token = none;
  amount = c.value;
  direction = outgoing;
  token_id = none;
}

unfoldable pub native_deltas_from_calls : List RawCall → List AssetDelta
native_deltas_from_calls [] = []
native_deltas_from_calls (c ∷ cs) =
    let rest = native_deltas_from_calls cs in if ltb 0 c.value then native_delta c ∷ rest else rest

pub data SimulationResult : Type 0 where
  unsimulated : SimulationResult
  reverted : (reason : String) → SimulationResult
  simulated : List AssetDelta → List ApprovalGrant → SimulationResult

module _ (events : Events) where
  generic_reason : String → String
  generic_reason bytes =
      if bytes === "0x" then "Reverted with no reason given" else elim (events.error_result bytes) [
        | fulfilled named ↦ named
        | rejected f ↦ String.◌++◌ "Reverted (undecoded return data: " (String.◌++◌ bytes ")")
      ]

  unfoldable pub revert_reason : String → String
  unfolding generic_reason strip_prefix
  revert_reason bytes = elim (strip_prefix error_string_selector bytes) [
    | none ↦ generic_reason bytes
    | some rest ↦ elim (events.error_string (String.◌++◌ "0x" rest)) [
      | fulfilled reason ↦ reason
      | rejected f ↦ generic_reason bytes
    ]
  ]

  abbrev pub all_logs : List CallResult → List SimLog
  all_logs results = flat_map (λ r. r.logs or_else []) results

  -- The outcome of a batch whose calls all succeeded.
  unfoldable pub simulated_outcome : SignTxPayload → List CallResult → Settled SimulationResult
  simulated_outcome request results = do
    account ← events.get_address request.account
    found ← decode_deltas_and_approvals events account (all_logs results)
    fulfilled (simulated (native_deltas_from_calls request.calls ++ found.0) found.1)

  -- `answer` is what `rpc.simulateCalls` settles to.
  unfoldable pub simulate_request :
      SignTxPayload → Settled (List CallResult) → Settled SimulationResult
  unfolding simulated_outcome revert_reason
  simulate_request request (rejected f) = fulfilled unsimulated
  simulate_request request (fulfilled results) = elim (find_first (λ r. r.failed) results) [
    | some r ↦ fulfilled (reverted (revert_reason r.return_data))
    | none ↦ simulated_outcome request results
  ]
