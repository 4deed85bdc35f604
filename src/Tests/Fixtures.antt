-- ===== src/Tests/Fixtures.antt =====
-- The inputs that the tests share: a decoder of three texts, a wallet, and transactions.
use avok_js.Base.{
  ◌^◌, String, ◌===◌, if◌then◌else◌, Option, none, some, List, [], ◌∷◌, fulfilled, throw,
}
use avok_js.Consent.Types.{RawCall, Viem, approve, execute, AuthorizationRequest, Transaction}
use avok_js.Consent.Sign.{Crypto, WalletState}
use avok_js.Simulate.{Events, SimLog}

abbrev pub toy_viem : Viem
toy_viem = record {
  get_address = fulfilled;
  decode_erc20 =
      λ b. if b === "approve" then fulfilled (approve "0xspender" (2 ^ 200)) else throw "selector";
  decode_extra = λ b. throw "selector";
  decode_wallet =
      λ b. if b === "batch" then fulfilled (execute "mode" "calls") else throw "selector";
  decode_calls = λ b. fulfilled (
      record { to = "0xtoken"; value = 0; bytes = "approve" }
      ∷ record { to = "0xfriend"; value = 5; bytes = "0x" }
      ∷ []);
  format_units = λ n d. "units";
}

abbrev pub toy_crypto : Crypto
toy_crypto = record {
  sign_digest = λ d. d;
  hash_message = λ m. m;
  hash_typed_data = λ td. fulfilled "typed";
  hash_authorization = λ d c n. fulfilled "authorization";
  keccak256 = λ b. b;
  serialize = λ tx l s. fulfilled "raw";
  create_siwe_message = λ p a. fulfilled "siwe";
  user_operation_hash = λ op c v. fulfilled "operation";
  wrap_signature = λ k s. s;
  encode_address = λ a. a;
  encode_key = λ t k. k;
}

abbrev pub wallet_batch : List RawCall
wallet_batch =
    record { to = "0xtoken"; value = 0; bytes = "approve" }
    ∷ record { to = "0xfriend"; value = 5; bytes = "0x" }
    ∷ []

abbrev pub approve_call : RawCall
approve_call = record { to = "0xtoken"; value = 0; bytes = "approve" }

abbrev pub pay_call : RawCall
pay_call = record { to = "0xfriend"; value = 5; bytes = "0x" }

abbrev pub batch_tx : Transaction
batch_tx = record {
  chain_id = some 8453;
  to = some "0xwallet";
  value = none;
  bytes = some "batch";
  gas = some 100;
  max_fee_per_gas = some 7;
}

abbrev pub delegation_at : Option String → Option String → AuthorizationRequest
delegation_at address contract = record {
  chain_id = 8453;
  address = address;
  contract_address = contract;
  nonce = 3;
}

abbrev pub founder : WalletState
founder = record { evm_address = "0xAb"; wallet_address = "0xaB" }

abbrev pub roster_device : WalletState
roster_device = record { evm_address = "0xcd"; wallet_address = "0xab" }

abbrev pub sent_log : SimLog
sent_log = record { address = "0xtoken"; topics = "transfer" ∷ "from" ∷ "to" ∷ []; bytes = "12" }

abbrev pub toy_events : Events
toy_events = record {
  get_address = fulfilled;
  transfer = "transfer";
  approval = "approval";
  approval_for_all = "approval_for_all";
  transfer_single = "transfer_single";
  transfer_batch = "transfer_batch";
  erc20_transfer = λ l. fulfilled (record { from = "0xME"; to = "0xyou"; amount = 12 });
  erc721_transfer = λ l. throw "shape";
  erc20_approval = λ l. throw "shape";
  operator_approval = λ l. throw "shape";
  single_transfer = λ l. throw "shape";
  batch_transfer = λ l. throw "shape";
  error_string = λ b. fulfilled "no funds";
  error_result = λ b. throw "unknown";
}
