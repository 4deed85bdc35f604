-- ===== src/Channel/Connection.antt =====
-- packages/core/src/channel/connection.ts and authorize-proof.ts: the account of a shared-origin wallet, from
-- the reply that proves it to the storage; and packages/core/src/shared-origin/connection.ts, which shapes it.
pub mod Proof
pub mod Session
use Prim.Native.String
use avok_js.Base.{
  String, if◌then◌else◌, Bool, false, not, Option, none, some, Value, Settled, fulfilled, rejected,
  ◌>>=◌, throw, member, optional_member, nullish_else, truthy, is_string, is_null, equals_text,
  null,
}
use avok_js.Channel.Storage.{StorageAdapter, Json, save_account, load_account, clear_account}

-- viem's `verifyMessage`, and the origin of `new URL(text)`.
pub record Verifier : Type 0 where
  pub url_origin : String → Settled String
  pub verify_message : (address : Value) (message : String) (proof : Value) → Settled Bool

abbrev pub challenge_text : (nonce origin : String) → String
challenge_text nonce origin =
    String.◌++◌ "Avok shared-origin authorization v1\norigin: "
      (String.◌++◌ origin (String.◌++◌ "\nnonce: " nonce))

module _ (v : Verifier) where
  unfoldable pub authorize_challenge : (nonce origin_point : String) → Settled String
  authorize_challenge nonce origin_point =
      v.url_origin origin_point >>= λ origin. fulfilled (challenge_text nonce origin)

  abbrev pub or_false : Settled Bool → Bool
  or_false (fulfilled b) = b
  or_false (rejected e) = false

  -- A call that throws is a failed proof.
  unfoldable pub verify_authorize_proof : Value → (nonce origin_point : String) → Value → Bool
  unfolding authorize_challenge
  verify_authorize_proof evm_address nonce origin_point proof = or_false (
      authorize_challenge nonce origin_point >>= λ message.
      v.verify_message evm_address message proof)

abbrev pub unverified_reason : String
unverified_reason =
    "Shared-origin authorization failed verification: the reply did not prove control of the address it returned. Refusing to connect."

module _ (json : Json) (storage : StorageAdapter) (v : Verifier) (origin_point : String) where
  -- `current` in memory, `null` where there is none, and the store.
  pub record Connection : Type 0 where
    pub current : Value
    pub store : storage.Store

  -- The connection of a page that has just been loaded.
  abbrev pub create_connection : storage.Store → Connection
  create_connection s = record { current = null; store = s }

  unfoldable pub resolve_account : Connection → Value
  unfolding load_account
  resolve_account c = nullish_else c.current (load_account json storage c.store)

  unfoldable pub status : Connection → Bool
  unfolding resolve_account
  status c = not (is_null (resolve_account c))

  unfoldable pub logout : Connection → Connection
  unfolding clear_account
  logout c = record { current = null; store = clear_account json storage c.store }

  abbrev pub checked : Bool → Value → Settled Value
  checked verified account = if verified then fulfilled account else throw unverified_reason

  abbrev pub verified_account : (nonce : String) → Value → Settled Value
  verified_account nonce result = do
    account ← member "account" result
    evm_address ← member "evmAddress" account
    proof ← member "proof" result
    checked (verify_authorize_proof v evm_address nonce origin_point proof) account

  abbrev pub unexpected_kind : Value → String
  unexpected_kind kind =
      String.◌++◌ "Unexpected channel result kind: expected \"authorize\", got \""
        (String.◌++◌ (json.template kind) "\"")

  -- Of the reply, the account that its proof answers for.
  unfoldable pub proven_account : (nonce : String) → Value → Settled Value
  unfolding verify_authorize_proof
  proven_account nonce result = member "kind" result >>= λ kind.
      if equals_text kind "authorize"
      then verified_account nonce result
      else throw (unexpected_kind kind)

  -- Where the write throws, the memory has not been changed yet.
  abbrev pub kept_in : Connection → Value → Settled storage.Store → Settled Value × Connection
  kept_in c account (fulfilled store) =
      (fulfilled account, record { current = account; store = store })
  kept_in c account (rejected e) = (rejected e, c)

  abbrev pub keep_proven : Connection → Settled Value → Settled Value × Connection
  keep_proven c (fulfilled account) = kept_in c account (save_account json storage c.store account)
  keep_proven c (rejected e) = (rejected e, c)

  -- `connect`, for the nonce that it draws and what the channel settles with.
  unfoldable pub connect :
      (nonce : String) → Settled Value → Connection → Settled Value × Connection
  unfolding proven_account save_account
  connect nonce reply c = keep_proven c (reply >>= proven_account nonce)

  -- `requireAccount`, and the credential that signing requests carry.
  unfoldable pub require_account : Connection → Settled Value
  unfolding resolve_account
  require_account c =
      if truthy (resolve_account c)
      then fulfilled (resolve_account c)
      else throw "Not connected: call connect() first"

  -- `Account`: the wallet's address and the signer's.
  pub record Account : Type 0 where
    pub address : Value
    pub signer_address : Value

  unfoldable pub shape_account : Value → Account
  shape_account a = record {
    address = nullish_else (optional_member "walletAddress" a) (optional_member "evmAddress" a);
    signer_address = optional_member "evmAddress" a;
  }

  unfoldable pub has_address : Value → Bool
  has_address a = is_string (optional_member "evmAddress" a)

  -- `account()` of the wrapping connection.
  unfoldable pub restored_account : Connection → Option Account × Connection
  unfolding resolve_account has_address shape_account logout
  restored_account c =
      if truthy (resolve_account c)
      then if has_address (resolve_account c)
        then (some (shape_account (resolve_account c)), c)
        else (none, logout c)
      else (none, c)

  abbrev pub shaped_or_throw : Value → Settled Account
  shaped_or_throw a =
      if truthy a
      then if has_address a
        then fulfilled (shape_account a)
        else throw "authorize() returned an account with no evmAddress"
      else throw "authorize() succeeded but account() returned null"

  abbrev pub then_account : Settled Value × Connection → Settled Account × Connection
  then_account (fulfilled a, c) = (shaped_or_throw (resolve_account c), c)
  then_account (rejected e, c) = (rejected e, c)

  -- `continue()`
  unfoldable pub authorize_and_return :
      (nonce : String) → Settled Value → Connection → Settled Account × Connection
  unfolding connect resolve_account has_address shape_account
  authorize_and_return nonce reply c = then_account (connect nonce reply c)
