-- ===== src/Client/Resolve.antt =====
-- packages/core/src/client/resolve.ts, with the rail of evm/types.ts and evm/resolve.ts: a batch is resolved.
use Prim.Native.String
use avok_js.Base.{
  ℕ, String, ◌===◌, to_lower_case, if◌then◌else◌, Bool, false, not, ◌||◌, Option, none, some,
  is_some, List, [], throw,
}
use avok_js.Consent.Types.{RawCall}
use avok_js.Registry.Profiles.{EvmChainProfile}
use avok_js.Client.Io.{Io, call, settle, pure, network, ◌>>=◌}
use avok_js.Client.Gas.{Rpc, NativeFeeEstimate, estimate_native_fee}

pub data Rail : Type 0 where
  native_gas sponsored : Rail

pub record ExecutionContext : Type 0 where
  pub fee_token : Option String
  pub is_sponsored : Bool

-- A token that is not the empty text.
abbrev pub has_token : Option String → Bool
has_token none = false
has_token (some t) = not (t === "")

abbrev pub rail_from_context : ExecutionContext → Rail
rail_from_context ctx =
    if ctx.is_sponsored || has_token ctx.fee_token then sponsored else native_gas

-- `implementation.slice(2)`
abbrev pub without_prefix : String → String
without_prefix String.[] = String.[]
without_prefix (String.◌∷◌ c String.[]) = String.[]
without_prefix (String.◌∷◌ c (String.◌∷◌ d s)) = s

unfoldable pub is_delegated_to : (code implementation : String) → Bool
unfolding to_lower_case
is_delegated_to code implementation =
    to_lower_case code === to_lower_case (String.◌++◌ "0xef0100" (without_prefix implementation))

pub record PendingAuthorization : Type 0 where
  pub chain_id : ℕ
  pub address : String
  pub nonce : ℕ

pub record ResolvedBatch : Type 0 where
  pub rail : Rail
  pub chain_id : ℕ
  pub wallet_address : String
  pub fee_calls : List RawCall
  pub user_calls : List RawCall
  pub authorization : Option PendingAuthorization
  pub nonce : ℕ
  pub deadline : ℕ
  pub delegation_disclosed : Option String
  pub fee_token : Option String
  pub native_fee : Option NativeFeeEstimate

abbrev pub zero_implementation : String
zero_implementation = "0x0000000000000000000000000000000000000000"

module _ (rpc : Rpc) (chain : EvmChainProfile) where
  abbrev pub deployed_then : String → Io PendingAuthorization → Io PendingAuthorization
  deployed_then code k =
      if code === "" || code === "0x"
      then settle (throw "canonicalImplementation is not deployed")
      else k

  -- The authorization of a wallet that is not delegated yet.
  abbrev pub pending_authorization : (address : String) → Io PendingAuthorization
  pending_authorization address =
      if chain.canonical_implementation === zero_implementation
      then settle (throw "canonicalImplementation is unset")
      else (call (network "eth_getCode") (rpc.get_code chain.canonical_implementation) >>= λ code.
          deployed_then code (
            call (network "eth_getTransactionCount") (rpc.get_transaction_count address)
            >>= λ nonce. pure (record {
              chain_id = chain.chain_id;
              address = chain.canonical_implementation;
              nonce = nonce;
            })))

  abbrev pub authorization_for : (address code : String) → Io (Option PendingAuthorization)
  authorization_for address code =
      if is_delegated_to code chain.canonical_implementation
      then pure none
      else (pending_authorization address >>= λ a. pure (some a))

  abbrev pub fee_for :
      Rail
      → (address : String) → List RawCall
      → Option PendingAuthorization
      → Io (Option NativeFeeEstimate)
  fee_for sponsored address calls authorization = pure none
  fee_for native_gas address calls authorization =
      estimate_native_fee rpc address chain.canonical_implementation calls (is_some authorization)
      >>= λ e. pure (some e)

  abbrev pub implementation_of : PendingAuthorization → String
  implementation_of a = a.address

  abbrev pub disclosed : Option PendingAuthorization → Option String
  disclosed none = none
  disclosed (some a) = some a.address

  abbrev pub token_of : Rail → Option String → Option String
  token_of sponsored t = t
  token_of native_gas t = none

  unfoldable pub lean_resolve :
      (address : String) → List RawCall → ExecutionContext → (nonce deadline : ℕ) → Io ResolvedBatch
  unfolding is_delegated_to estimate_native_fee
  lean_resolve address user_calls ctx nonce deadline =
      call (network "eth_getCode") (rpc.get_code address) >>= λ code.
      authorization_for address code >>= λ authorization.
      fee_for (rail_from_context ctx) address user_calls authorization >>= λ native_fee.
      pure (record {
        rail = rail_from_context ctx;
        chain_id = chain.chain_id;
        wallet_address = address;
        fee_calls = [];
        user_calls = user_calls;
        authorization = authorization;
        nonce = nonce;
        deadline = deadline;
        delegation_disclosed = disclosed authorization;
        fee_token = token_of (rail_from_context ctx) ctx.fee_token;
        native_fee = native_fee;
      })
