-- ===== src/Client/UserOp.antt =====
-- packages/core/src/client/sponsored-userop.ts with evm/userop.ts: the sponsored operation is prepared.
use avok_js.Base.{
  ℕ, ◌+◌, ◌*◌, String, ◌===◌, if◌then◌else◌, Option, none, some, ◌or_else◌, List, Settled,
}
use avok_js.Consent.Types.{RawCall}
use avok_js.Client.Io.{Io, call, pure, network, ◌>>=◌}
use avok_js.Client.Gas.{Fees, native_gas_fees}
use avok_js.Client.Resolve.{PendingAuthorization}

pub record PaymasterFields : Type 0 where
  pub paymaster : String
  pub paymaster_data : String
  pub verification_gas_limit : Option ℕ
  pub post_op_gas_limit : Option ℕ

pub record GasLimits : Type 0 where
  pub call_gas_limit : ℕ
  pub verification_gas_limit : ℕ
  pub pre_verification_gas : ℕ

pub record UserOp : Type 0 where
  pub sender : String
  pub nonce : ℕ
  pub call_data : String
  pub gas : GasLimits
  pub fees : Fees
  pub paymaster : Option PaymasterFields
  pub authorization : Option PendingAuthorization
  pub signature : String

-- What the bundler estimates.
pub record GasEstimate : Type 0 where
  pub limits : GasLimits
  pub paymaster_verification_gas_limit : Option ℕ
  pub paymaster_post_op_gas_limit : Option ℕ

pub record Infra : Type 0 where
  pub get_nonce : (sender : String) → Settled ℕ
  pub get_paymaster_stub_data : UserOp → (token : Option String) → Settled PaymasterFields
  pub estimate_user_operation_gas : UserOp → Settled GasEstimate
  pub get_paymaster_data : UserOp → (token : Option String) → Settled (String × String)
  pub encode_execute_batch : List RawCall → String
  pub user_op_hash : UserOp → (chain_id : ℕ) → (version : String) → String

abbrev pub stub_signature : String
stub_signature =
    "0xfffffffffffffffffffffffffffffffffffffffffffffffffffffffffffffff77fffffffffffffffffffffffffffffffffffffffffffffffffffffffffffffff71b"

abbrev pub no_gas : GasLimits
no_gas = record { call_gas_limit = 0; verification_gas_limit = 0; pre_verification_gas = 0 }

pub record OpBase : Type 0 where
  pub sender : String
  pub calls : List RawCall
  pub nonce : ℕ
  pub fees : Fees
  pub authorization : Option PendingAuthorization

-- An authorization stands here without the stub signature that estimation adds to it.
abbrev pub build_user_op : Infra → OpBase → Option GasLimits → Option PaymasterFields → UserOp
build_user_op infra b gas paymaster = record {
  sender = b.sender;
  nonce = b.nonce;
  call_data = infra.encode_execute_batch b.calls;
  gas = gas or_else no_gas;
  fees = b.fees;
  paymaster = paymaster;
  authorization = b.authorization;
  signature = stub_signature;
}

-- `a ?? b`, where `b` may be missing too.
abbrev pub first_given : Option ℕ → Option ℕ → Option ℕ
first_given (some a) b = some a
first_given none b = b

abbrev pub final_paymaster : (String × String) → GasEstimate → PaymasterFields → PaymasterFields
final_paymaster (paymaster, paymaster_data) gas stub = record {
  paymaster = paymaster;
  paymaster_data = paymaster_data;
  verification_gas_limit =
      first_given gas.paymaster_verification_gas_limit stub.verification_gas_limit;
  post_op_gas_limit = first_given gas.paymaster_post_op_gas_limit stub.post_op_gas_limit;
}

pub record PreparedUserOp : Type 0 where
  pub op : UserOp
  pub user_op_hash : String
  pub chain_id : ℕ
  pub entry_point_version : String
  pub authorization : Option PendingAuthorization

abbrev pub context_token : Option String → Option String
context_token none = none
context_token (some t) = if t === "" then none else some t

module _ (infra : Infra) where
  unfoldable pub prepare_sponsored_user_op :
      (sender : String)
      → List RawCall
      → (chain_id : ℕ) → Option PendingAuthorization
      → (fee_token : Option String) → (suggested_tip base_fee : ℕ) → (version : String)
      → Io PreparedUserOp
  prepare_sponsored_user_op sender calls chain_id authorization fee_token suggested_tip base_fee
        version =
      call (network "getNonce") (infra.get_nonce sender) >>= λ nonce.
      let base : OpBase = record {
        sender = sender;
        calls = calls;
        nonce = nonce;
        fees = native_gas_fees suggested_tip base_fee;
        authorization = authorization;
      } in
      call (network "pm_getPaymasterStubData") (
        infra.get_paymaster_stub_data (build_user_op infra base none none)
          (context_token fee_token))
      >>= λ stub.
          call (network "eth_estimateUserOperationGas")
            (infra.estimate_user_operation_gas (build_user_op infra base none (some stub)))
          >>= λ gas.
              call (network "pm_getPaymasterData") (
                infra.get_paymaster_data (build_user_op infra base (some gas.limits) (some stub))
                  (context_token fee_token))
              >>= λ answer.
                  let op =
                    build_user_op infra base (some gas.limits)
                      (some (final_paymaster answer gas stub)) in
                  pure (record {
                    op = op;
                    user_op_hash = infra.user_op_hash op chain_id version;
                    chain_id = chain_id;
                    entry_point_version = version;
                    authorization = authorization;
                  })

abbrev pub paymaster_gas : Option PaymasterFields → ℕ
paymaster_gas none = 0
paymaster_gas (some p) = (p.verification_gas_limit or_else 0) + (p.post_op_gas_limit or_else 0)

abbrev pub total_gas_units : UserOp → ℕ
total_gas_units op =
    op.gas.call_gas_limit
    + op.gas.verification_gas_limit
    + op.gas.pre_verification_gas
    + paymaster_gas op.paymaster

pub record FeeBreakdown : Type 0 where
  pub fee_token : String
  pub amount : ℕ
  pub gas_units : ℕ
  pub gas_price : ℕ

abbrev pub bounded_sponsored_fee : UserOp → String → FeeBreakdown
bounded_sponsored_fee op fee_token = record {
  fee_token = fee_token;
  amount = total_gas_units op * op.fees.max_fee_per_gas;
  gas_units = total_gas_units op;
  gas_price = op.fees.max_fee_per_gas;
}
