-- ===== src/Client/Track.antt =====
-- packages/core/src/client/evm.ts, `wait`, with evm/track.ts and the receipts of evm/rpc.ts and evm/bundler.ts.
pub mod Outcomes
use avok_js.Base.{
  ℕ, zero, suc, ◌+◌, leb, String, ◌===◌, if◌then◌else◌, Bool, true, false, ◌&&◌, ◌||◌, Option, none,
  some, Failure, Settled, fulfilled, rejected, ◌>>=◌, suc,
}
use avok_js.Client.Resolve.{Rail, native_gas, sponsored}
use avok_js.Client.Send.{Receipt, ReceiptStatus, pending, submitted, confirmed, failed}

-- What the chain says of a mined transaction or operation.
pub record Mined : Type 0 where
  pub success : Bool
  pub tx_hash : String

-- What viem's clients answer in each round of the loop, and `Date.now()` when the loop starts and at the end of
-- each round.
pub record Polls : Type 0 where
  pub transaction_receipt : ℕ → String → Settled Mined
  pub user_operation_receipt : ℕ → String → Settled Mined
  pub started : ℕ
  pub now : ℕ → ℕ

-- `getTransactionReceipt` of the RPC: an error counts as not mined yet.
abbrev pub receipt_or_null : Settled Mined → Option Mined
receipt_or_null (fulfilled m) = some m
receipt_or_null (rejected e) = none

abbrev pub is_not_found : Failure → Bool
is_not_found e = e.name === "UserOperationReceiptNotFoundError"

-- `getUserOperationReceipt` of the bundler: only this error counts so.
abbrev pub op_receipt_or_null : Settled Mined → Settled (Option Mined)
op_receipt_or_null (fulfilled m) = fulfilled (some m)
op_receipt_or_null (rejected e) = if is_not_found e then fulfilled none else rejected e

abbrev pub mined_status : Bool → ReceiptStatus
mined_status true = confirmed
mined_status false = failed

abbrev pub with_mined_tx : Receipt → Option Mined → Receipt
with_mined_tx r none = r
with_mined_tx r (some m) = record r { status = mined_status m.success; tx_hash = some m.tx_hash }

abbrev pub asked_status : (String → Settled Mined) → Receipt → Option String → Receipt
asked_status ask r none = r
asked_status ask r (some h) = if h === "" then r else with_mined_tx r (receipt_or_null (ask h))

-- On the native rail.
abbrev pub get_receipt_status : (String → Settled Mined) → Receipt → Receipt
get_receipt_status ask r = asked_status ask r r.tx_hash

abbrev pub error_of : Bool → Option String → Option String
error_of true error = error
error_of false error = some "UserOperation reverted on-chain"

abbrev pub with_mined_op : Receipt → Option Mined → Receipt
with_mined_op r none = r
with_mined_op r (some m) = record r {
  status = mined_status m.success;
  tx_hash = some m.tx_hash;
  error = error_of m.success r.error;
}

abbrev pub is_final : ReceiptStatus → Bool
is_final confirmed = true
is_final failed = true
is_final pending = false
is_final submitted = false

module _ (can_sponsor : Bool) (polls : Polls) where
  abbrev pub poll_on : Rail → ℕ → Receipt → Settled Receipt
  poll_on native_gas k r = fulfilled (get_receipt_status (polls.transaction_receipt k) r)
  poll_on sponsored k r =
      if can_sponsor
      then (op_receipt_or_null (polls.user_operation_receipt k r.id) >>= λ m.
          fulfilled (with_mined_op r m))
      else fulfilled r

  -- One round: the receipt after it.
  unfoldable pub poll : ℕ → Receipt → Settled Receipt
  poll k r = poll_on r.rail k r

  abbrev pub is_over : (deadline : ℕ) → ℕ → Receipt → Bool
  is_over deadline k r = is_final r.status || leb deadline (polls.now k)

  -- The loop, from round k on. `none` means that the fuel ran out.
  unfoldable pub wait_from : ℕ → (deadline : ℕ) → ℕ → Receipt → Option (Settled Receipt)
  wait_from zero deadline k r = none
  wait_from (suc fuel) deadline k r = elim (poll k r) [
    | rejected e ↦ some (rejected e)
    | fulfilled c ↦ elim (is_over deadline k c) [
      | true ↦ some (fulfilled c)
      | false ↦ wait_from fuel deadline (suc k) c
    ]
  ]

  -- `wait`, with fuel for one round more than the milliseconds to wait.
  unfoldable pub wait : (timeout_ms : ℕ) → Receipt → Option (Settled Receipt)
  unfolding wait_from poll
  wait timeout_ms r = wait_from (suc timeout_ms) (polls.started + timeout_ms) 0 r
