-- ===== src/Consent/Sign.antt =====
-- packages/core/src/auth-popup/sign/perform-sign.ts, with the account of wallet/sandbox.ts that it
-- signs with: what is signed for an approved request. Keys are live for the whole call.
use Prim.Native.String
use avok_js.Base.{
  ◌>>=◌, ℕ, String, ◌===◌, to_lower_case, if◌then◌else◌, Bool, true, false, not, ◌&&◌, Option, none,
  some, Settled, fulfilled, throw,
}
use avok_js.Consent.Types.{
  TypedData, SiweParams, AuthorizationRequest, Transaction, UserOpRequest, SignConsentRequest,
  sign_message, sign_typed_data, sign_siwe, sign_authorization, sign_transaction, sign_send,
  sign_sponsored, sign_user_op,
}

pub record WalletState : Type 0 where
  pub evm_address : String
  pub wallet_address : String

pub record SignedAuthorization : Type 0 where
  pub address : String
  pub chain_id : ℕ
  pub nonce : ℕ
  pub signature : String

-- viem and @noble/curves: hashing, serializing, and the signature of a digest with the wallet's key.
-- `serialize` takes the transaction, the authorization list where it is replaced, and the signature.
pub record Crypto : Type 0 where
  pub sign_digest : String → String
  pub hash_message : String → String
  pub hash_typed_data : TypedData → Settled String
  pub hash_authorization : Option String → ℕ → ℕ → Settled String
  pub keccak256 : String → String
  pub serialize : Transaction → Option SignedAuthorization → Option String → Settled String
  pub create_siwe_message : SiweParams → String → Settled String
  pub user_operation_hash : UserOpRequest → ℕ → String → Settled String
  pub wrap_signature : (key_hash signature : String) → String
  pub encode_address : String → String
  pub encode_key : (key_type : ℕ) → (public_key_hash : String) → String

pub data SignResult : Type 0 where
  signature : String → SignResult
  siwe_signature : (message signature : String) → SignResult
  authorization_signed : SignedAuthorization → SignResult
  raw_transaction : String → SignResult
  composite : (signature : String) → Option SignedAuthorization → SignResult

-- `(a ?? b)`, for the two spellings of the delegate: the account signs the other one first.
abbrev pub signed_delegate : AuthorizationRequest → Option String
signed_delegate a = elim a.contract_address [ some x ↦ some x | none ↦ a.address ]

abbrev pub is_roster_signer : WalletState → Bool
is_roster_signer s = not (to_lower_case s.wallet_address === to_lower_case s.evm_address)

abbrev not_yet_supported : {A : Type 0} → String → Settled A
not_yet_supported op = throw (
    String.◌++◌ op (
      String.◌++◌
        " is not yet supported for a roster (non-founding) signer — Calibur verifies it via "
        "ERC-7739, which this device does not implement. Sign in from the founding device for now."))

abbrev pub no_delegation : {A : Type 0} → Settled A
no_delegation = throw "A roster signer cannot authorize an EIP-7702 delegation"

abbrev pub account_signed : Option String → ℕ → ℕ → String → Settled SignedAuthorization
account_signed none chain_id nonce sig = throw "hashAuthorization: no address"
account_signed (some delegate) chain_id nonce sig =
    fulfilled (record { address = delegate; chain_id = chain_id; nonce = nonce; signature = sig })

module _ (crypto : Crypto) where
  -- `signAuthorization` of the account.
  unfoldable pub account_authorization : AuthorizationRequest → Settled SignedAuthorization
  account_authorization a = do
    digest ← crypto.hash_authorization (signed_delegate a) a.chain_id a.nonce
    account_signed (signed_delegate a) a.chain_id a.nonce (crypto.sign_digest digest)

  -- `signTransaction` of the account.
  account_transaction : Transaction → Option SignedAuthorization → Settled String
  account_transaction tx list = do
    body ← crypto.serialize tx list none
    crypto.serialize tx list (some (crypto.sign_digest (crypto.keccak256 body)))

  account_message : String → String
  account_message m = crypto.sign_digest (crypto.hash_message m)

  account_typed_data : TypedData → Settled String
  account_typed_data td = do
    digest ← crypto.hash_typed_data td
    fulfilled (crypto.sign_digest digest)

  optional_authorization : Option AuthorizationRequest → Settled (Option SignedAuthorization)
  unfolding account_authorization
  optional_authorization none = fulfilled none
  optional_authorization (some a) = do signed ← account_authorization a; fulfilled (some signed)

  unfoldable pub compute_secp256k1_key_hash : String → String
  compute_secp256k1_key_hash address =
      crypto.keccak256 (crypto.encode_key 2 (crypto.keccak256 (crypto.encode_address address)))

  unfoldable pub wrap_roster_signature : String → String → String
  unfolding compute_secp256k1_key_hash
  wrap_roster_signature signer raw = crypto.wrap_signature (compute_secp256k1_key_hash signer) raw

  unfoldable pub signed_send :
      WalletState → Transaction → Option AuthorizationRequest → Settled SignResult
  unfolding account_authorization account_transaction
  signed_send state tx none = do raw ← account_transaction tx none; fulfilled (raw_transaction raw)
  signed_send state tx (some a) = if is_roster_signer state then no_delegation else do
    signed ← account_authorization a
    raw ← account_transaction tx (some signed)
    fulfilled (raw_transaction raw)

  signed_user_op :
      WalletState → UserOpRequest → ℕ → String → Option SignedAuthorization → Settled SignResult
  unfolding wrap_roster_signature
  signed_user_op state op chain_id version authorization = do
    digest ← crypto.user_operation_hash op chain_id version
    fulfilled (
        composite
          (if is_roster_signer state
            then wrap_roster_signature state.evm_address (crypto.sign_digest digest)
            else crypto.sign_digest digest)
          authorization)

  abbrev some_authorization : Option AuthorizationRequest → Bool
  some_authorization none = false
  some_authorization (some a) = true

  unfoldable pub perform_sign : SignConsentRequest → WalletState → Settled SignResult
  unfolding account_message account_typed_data account_authorization account_transaction
      optional_authorization signed_send signed_user_op
  perform_sign (sign_message m) state =
      if is_roster_signer state
      then not_yet_supported "signMessage"
      else fulfilled (signature (account_message m))
  perform_sign (sign_typed_data td) state =
      if is_roster_signer state
      then not_yet_supported "signTypedData"
      else do s ← account_typed_data td; fulfilled (signature s)
  perform_sign (sign_siwe p) state =
      if is_roster_signer state then not_yet_supported "signSiwe" else do
        m ← crypto.create_siwe_message p state.wallet_address
        fulfilled (siwe_signature m (account_message m))
  perform_sign (sign_authorization a) state =
      if is_roster_signer state
      then no_delegation
      else do signed ← account_authorization a; fulfilled (authorization_signed signed)
  perform_sign (sign_transaction tx) state = do
    raw ← account_transaction tx none
    fulfilled (raw_transaction raw)
  perform_sign (sign_send tx a) state = signed_send state tx a
  perform_sign (sign_sponsored td a) state = do
    signed ← optional_authorization a
    s ← account_typed_data td
    fulfilled (composite s signed)
  perform_sign (sign_user_op op chain_id version a) state =
      if is_roster_signer state && some_authorization a
      then no_delegation
      else do signed ← optional_authorization a; signed_user_op state op chain_id version signed
