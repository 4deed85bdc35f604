-- ===== src/Tests/Client.antt =====
-- The theorems on the client at concrete configurations.
use avok_js.Client.Resolve.{native_gas, ResolvedBatch}
use avok_js.Client.Track.Outcomes.{Outcome, wait_ends}
use avok_js.Client.Track.{Mined, Polls, wait}
use avok_js.Client.Simulate.{simulate, simulate_resolved, SimulationResult, eth_simulate_v1}
use avok_js.Client.Rpc.{ViemLike, create_viem_rpc_client}
use avok_js.Client.Rpc.Priced.{IsPriced, native_fee-IsPriced}
use avok_js.Client.Rpc.Reasons.{reason_never_given}
use avok_js.Registry.Profiles.{base}
use avok_js.Client.Quote.{IsQuoted, simulation-IsQuoted}
use avok_js.Client.Io.{Reads}
use avok_js.Base.{
  true, false, none, some, refl, rejected, [], ◌∷◌, fulfilled, ℕ, Settled, ◌==◌, if◌then◌else◌,
  throw, ◌*◌, ◌≡◌, arith,
}
use avok_js.Consent.Types.{RawCall}
use avok_js.Client.Gas.{Rpc, estimate_native_fee}
use avok_js.Client.UserOp.{Infra, no_gas, PaymasterFields}
use avok_js.Client.Send.{Config, TxOpts, send_calls, Receipt, submitted}
use avok_js.Client.Discipline.{Sends}
use avok_js.Client.Asked.{rail_asked}
use avok_js.Client.Signed.{SubmitsCalls}
use avok_js.Client.Rails.{send_on_asked_rail}

abbrev quiet_rpc : Rpc
quiet_rpc = record {
  get_code = λ a. fulfilled "0xef0100";
  get_transaction_count = λ a. fulfilled 4;
  get_max_priority_fee_per_gas = fulfilled 1;
  get_base_fee_per_gas = fulfilled 10;
  simulate_calls =
      λ w d c. fulfilled (record { has_failed = false; gas_used = 56090; error = none } ∷ []);
  encode_execute_batch = λ cs. "0x";
}

abbrev stub_fields : PaymasterFields
stub_fields = record {
  paymaster = "0xPaymaster";
  paymaster_data = "0x";
  verification_gas_limit = none;
  post_op_gas_limit = some 5;
}

abbrev quiet_infra : Infra
quiet_infra = record {
  get_nonce = λ s. fulfilled 0;
  get_paymaster_stub_data = λ op t. fulfilled stub_fields;
  estimate_user_operation_gas = λ op. fulfilled (record {
    limits = no_gas;
    paymaster_verification_gas_limit = some 3;
    paymaster_post_op_gas_limit = none;
  });
  get_paymaster_data = λ op t. fulfilled ("0xPaymaster", "0x");
  encode_execute_batch = λ cs. "0x";
  user_op_hash = λ op c v. "0xhash";
}

abbrev pub sponsoring : Config
sponsoring = record {
  account = some (record { address = "0xWallet"; signer_address = none });
  has_paymaster = true;
  has_bundler = true;
  entry_point_version = "0.8";
  rpc = λ c. quiet_rpc;
  infra = λ c. quiet_infra;
  next_nonce = λ a. fulfilled 9;
  deadline = 3600;
  sign_user_op = λ p. fulfilled ("0xsig", none);
  sign_send = λ t a. fulfilled "0xtx";
  send_user_operation = λ op. fulfilled "0xop";
  send_raw_transaction = λ t. fulfilled "0xhash";
}

abbrev free_send : TxOpts
free_send = record { chain_id = some 8453; fee_token = none; is_sponsored = true }

abbrev a_call : RawCall
a_call = record { to = "0xTo"; value = 1; bytes = "0x" }

send_on_asked_rail_example :
    Sends
      (rail_asked sponsoring free_send)
      (SubmitsCalls sponsoring (a_call ∷ []) free_send (rail_asked sponsoring free_send))
      (send_calls sponsoring (a_call ∷ []) free_send)
send_on_asked_rail_example = send_on_asked_rail sponsoring (a_call ∷ []) free_send

simulation-IsQuoted_example :
    Reads
      (IsQuoted (λ s. "0xa9059cbb") sponsoring (a_call ∷ []) free_send)
      (simulate (λ s. "0xa9059cbb") sponsoring (a_call ∷ []) free_send)
simulation-IsQuoted_example =
    simulation-IsQuoted (λ s. "0xa9059cbb") sponsoring (a_call ∷ []) free_send

abbrev mined_at : ℕ → Settled Mined
mined_at k =
    if k == 2 then fulfilled (record { success = true; tx_hash = "0xhash" }) else throw "not mined"

-- A clock that shows a second more in each round; the transaction is mined in the third.
abbrev pub late_polls : Polls
late_polls = record {
  transaction_receipt = λ k h. mined_at k;
  user_operation_receipt = λ k h. mined_at k;
  started = 0;
  now = λ k. 1000 * k;
}

abbrev sent_receipt : Receipt
sent_receipt = record {
  id = "0xhash";
  rail = native_gas;
  status = submitted;
  tx_hash = some "0xhash";
  chain_id = 10;
  error = none;
}

wait_ends_example :
    (o : Settled Receipt) × (wait true late_polls 90000 sent_receipt ≡ some o)
    × Outcome true late_polls 90000 sent_receipt o
wait_ends_example =
    wait_ends true late_polls (record { starts = omega arith; advances = λ k. omega arith }) 90000
      sent_receipt

-- A chain without a market for tips, on which every call fails.
abbrev legacy_client : ViemLike
legacy_client = record {
  get_code = λ a. fulfilled none;
  get_transaction_count = λ a. fulfilled 0;
  simulate_calls = λ w d c.
      fulfilled (record { has_failed = true; gas_used = 21000; return_data = "0x08c379a0" } ∷ []);
  get_gas_price = fulfilled 7;
  estimate_max_priority_fee_per_gas =
      rejected (record { name = "Eip1559FeesNotSupportedError"; message = "no tips" });
  get_block = fulfilled none;
}

native_fee-IsPriced_example :
    IsPriced legacy_client (record { amount = 7 * 21000; gas_units = 21000; gas_price = 7 })
unfolding estimate_native_fee create_viem_rpc_client
native_fee-IsPriced_example =
    native_fee-IsPriced (λ cs. "0x") legacy_client "0xWallet" "0xImpl" (a_call ∷ []) false refl

abbrev failing_batch : ResolvedBatch
failing_batch = record {
  rail = native_gas;
  chain_id = 8453;
  wallet_address = "0xWallet";
  fee_calls = [];
  user_calls = a_call ∷ [];
  authorization = none;
  nonce = 0;
  deadline = 3600;
  delegation_disclosed = none;
  fee_token = none;
  native_fee = none;
}

abbrev failed_simulation : SimulationResult
failed_simulation = record {
  batch = failing_batch;
  success = false;
  gas_estimate = 21000;
  fee = none;
  native_fee = none;
  decoded_calls = record { to = "0xTo"; value = 1; selector = "0x"; label = none } ∷ [];
  delegation_disclosed = none;
  method = eth_simulate_v1;
  revert_reason = none;
  prepared_user_op = none;
}

reason_never_given_example : failed_simulation.revert_reason ≡ none
unfolding simulate_resolved create_viem_rpc_client
reason_never_given_example =
    reason_never_given (λ s. "0xa9059cbb") (λ cs. "0x") legacy_client base failing_batch
      {sim = failed_simulation} refl
