-- ===== src/Consent/Request.antt =====
-- packages/core/src/auth-popup/sign/consent.ts: transactions, and the dispatch over the requests.
use Prim.Native.String
use avok_js.Base.{
  ◌>>=◌, ℕ, ◌*◌, String, if◌then◌else◌, Option, none, some, ◌or_else◌, List, [], ◌∷◌, ◌++◌, Settled,
  fulfilled, rejected, throw, to_text, not,
}
use avok_js.Consent.Types.{
  RawCall, WalletCall, execute, other_wallet_call, Viem, ConsentLine, TypedData, SiweParams,
  AuthorizationRequest, Transaction, SignConsentRequest, sign_message, sign_typed_data, sign_siwe,
  sign_authorization, sign_transaction, sign_send, sign_sponsored, sign_user_op, TxConsent,
  SignConsent, typed_data, typed_data_generic, message, siwe, transaction, send, sponsored, user_op,
  authorization,
}
use avok_js.Consent.Decode.{map_settled, decode_call}
use avok_js.Consent.TypedData.{
  field, is_avok_batch_typed_data, decode_generic_typed_data, decode_consent, calls_of,
  message_fields,
}

-- `lines.join("\n")`
join_lines : List String → String
join_lines [] = ""
join_lines (l ∷ []) = l
join_lines (l ∷ m ∷ ls) = String.◌++◌ l (String.◌++◌ "\n" (join_lines (m ∷ ls)))

abbrev optional : String → Option String → List (String × String)
optional k none = []
optional k (some v) = (k, v) ∷ []

siwe_resources : Option (List String) → List (String × String)
unfolding join_lines
siwe_resources none = []
siwe_resources (some rs) = ("resources", join_lines rs) ∷ []

unfoldable pub siwe_fields : SiweParams → List (String × String)
unfolding siwe_resources
siwe_fields p =
    (("domain", p.domain)
      ∷ ("uri", p.uri)
      ∷ ("version", p.version)
      ∷ ("chainId", to_text p.chain_id)
      ∷ ("nonce", p.nonce)
      ∷ [])
    ++ (optional "statement" p.statement
        ++ (optional "issuedAt" p.issued_at
            ++ (optional "expirationTime" p.expiration_time
                ++ (optional "notBefore" p.not_before
                    ++ (optional "scheme" p.scheme
                        ++ (optional "requestId" p.request_id ++ siwe_resources p.resources))))))

-- `request.authorization ? { delegation: request.authorization.address } : {}`
abbrev pub delegation_of : Option AuthorizationRequest → Option String
delegation_of none = none
delegation_of (some a) = a.address

-- The delegate that the screen names: `address ?? contractAddress`.
abbrev pub shown_delegate : AuthorizationRequest → Option String
shown_delegate a = elim a.address [ some x ↦ some x | none ↦ a.contract_address ]

abbrev max_fee : Option ℕ → Option ℕ → Option ℕ
max_fee (some gas) (some price) = some (gas * price)
max_fee _ _ = none

module _ (viem : Viem) where
  unwrap_execute : WalletCall → Option (List RawCall)
  unwrap_execute (execute mode execution_data) = elim (viem.decode_calls execution_data) [
    | fulfilled cs ↦ some cs
    | rejected f ↦ none
  ]
  unwrap_execute other_wallet_call = none

  -- The calls inside the wallet's own batch, none where it is no such batch. There are no fee calls.
  unfoldable pub unwrap_wallet_batch : String → Option (List RawCall)
  unfolding unwrap_execute
  unwrap_wallet_batch bytes = elim (viem.decode_wallet bytes) [
    | fulfilled c ↦ unwrap_execute c
    | rejected f ↦ none
  ]

  -- The lines of a call, or of the calls of the batch that it is.
  unfoldable pub call_lines : ℕ → RawCall → Option (List RawCall) → Settled (List ConsentLine)
  call_lines chain_id call none = map_settled (decode_call viem chain_id) (call ∷ [])
  call_lines chain_id call (some batch) = map_settled (decode_call viem chain_id) batch

  abbrev pub tx_call : String → Transaction → RawCall
  tx_call to tx = record { to = to; value = tx.value or_else 0; bytes = tx.bytes or_else "0x" }

  unfoldable pub decode_tx_consent : Transaction → Settled TxConsent
  unfolding call_lines
  decode_tx_consent tx = do
    to ← viem.get_address (tx.to or_else "0x0000000000000000000000000000000000000000")
    lines ←
        call_lines (tx.chain_id or_else 0) (tx_call to tx)
          (unwrap_wallet_batch (tx_call to tx).bytes)
    fulfilled (record {
      chain_id = tx.chain_id or_else 0;
      calls = lines;
      fee = none;
      max_fee_wei = max_fee tx.gas tx.max_fee_per_gas;
    })

  unfoldable pub decode_typed_data : TypedData → Settled SignConsent
  decode_typed_data td = elim td.domain.chain_id [
    | none ↦ throw "typedData.domain.chainId is required for signTypedData"
    | some chain_id ↦
        if not (is_avok_batch_typed_data td.message)
        then fulfilled (typed_data_generic (decode_generic_typed_data td))
        else do
          fee_calls ← calls_of (field "feeCalls" (message_fields td.message))
          user_calls ← calls_of (field "userCalls" (message_fields td.message))
          view ← decode_consent viem chain_id fee_calls user_calls
          fulfilled (typed_data view)
  ]

  unfoldable pub sponsored_view : Option AuthorizationRequest → SignConsent → Settled SignConsent
  sponsored_view auth (typed_data view) = fulfilled (sponsored view (delegation_of auth))
  sponsored_view auth _ = throw "signSponsored consent: expected a typed-data view"

  unfoldable pub authorization_consent : Option String → ℕ → Settled SignConsent
  authorization_consent none chain_id = throw "authorization must carry address or contractAddress"
  authorization_consent (some delegate) chain_id = do
    implementation ← viem.get_address delegate
    fulfilled (authorization chain_id implementation)

  unfoldable pub decode_sign_consent : SignConsentRequest → Settled SignConsent
  unfolding decode_tx_consent decode_typed_data sponsored_view authorization_consent
  decode_sign_consent (sign_message m) = fulfilled (message m)
  decode_sign_consent (sign_typed_data td) = decode_typed_data td
  decode_sign_consent (sign_siwe p) = fulfilled (siwe (siwe_fields p))
  decode_sign_consent (sign_authorization a) = authorization_consent (shown_delegate a) a.chain_id
  decode_sign_consent (sign_transaction tx) = do t ← decode_tx_consent tx; fulfilled (transaction t)
  decode_sign_consent (sign_send tx auth) = do
    t ← decode_tx_consent tx
    fulfilled (send t (delegation_of auth))
  decode_sign_consent (sign_sponsored td auth) = do
    view ← decode_typed_data td
    sponsored_view auth view
  decode_sign_consent (sign_user_op op chain_id version auth) = do
    lines ←
        call_lines chain_id (record { to = op.sender; value = 0; bytes = op.call_data })
          (unwrap_wallet_batch op.call_data)
    fulfilled (user_op chain_id lines (delegation_of auth))
