-- ===== src/Channel/Signer.antt =====
-- packages/core/src/channel/signer.ts and sign-errors.ts: the signer that asks the popup.
use Prim.Native.String
use avok_js.Base.{
  String, if◌then◌else◌, Option, none, some, Value, Props, end, prop, obj, str, Settled, fulfilled,
  rejected, ◌>>=◌, ◌>>◌, throw, member, has_member, equals_text, undefined,
}
use avok_js.Channel.Storage.{Json}

abbrev pub or_undefined : Option Value → Value
or_undefined none = undefined
or_undefined (some v) = v

-- What is posted to the popup.
abbrev pub channel_request : (request credential_id : Value) → Value
channel_request request credential_id =
    obj (prop "kind" (str "sign") (prop "request" request (prop "credentialId" credential_id end)))

abbrev pub an_op : String → Props → Value
an_op op ps = obj (prop "op" (str op) ps)

-- The requests of the verbs.
abbrev pub sign_message_request : String → Value
sign_message_request message = an_op "signMessage" (prop "message" (str message) end)

abbrev pub sign_typed_data_request : Value → Value
sign_typed_data_request typed_data = an_op "signTypedData" (prop "typedData" typed_data end)

abbrev pub sign_siwe_request : Value → Value
sign_siwe_request params = an_op "signSiwe" (prop "params" params end)

abbrev pub sign_send_request : Value → Option Value → Value
sign_send_request tx authorization =
    an_op "signSend" (prop "tx" tx (prop "authorization" (or_undefined authorization) end))

abbrev pub sign_sponsored_request : Value → Option Value → Value
sign_sponsored_request typed_data authorization =
    an_op "signSponsored"
      (prop "typedData" typed_data (prop "authorization" (or_undefined authorization) end))

abbrev pub sign_user_op_request : (user_op chain_id version : Value) → Option Value → Value
sign_user_op_request user_op chain_id version authorization = an_op "signUserOp" (
    prop "userOp" user_op (
      prop "chainId" chain_id
        (prop "entryPointVersion" version (prop "authorization" (or_undefined authorization) end))))

abbrev pub sign_authorization_request : Value → Value
sign_authorization_request authorization =
    an_op "signAuthorization" (prop "authorization" authorization end)

abbrev pub sign_transaction_request : Value → Value
sign_transaction_request tx = an_op "signTransaction" (prop "tx" tx end)

module _ (json : Json) where
  abbrev pub refusal : Value → Settled (Unit {0})
  refusal error =
      if equals_text error "user_rejected"
      then rejected
          (record { name = "UserRejectedError"; message = "The signing request was rejected" })
      else throw (String.◌++◌ "Signing failed: " (json.template error))

  unfoldable pub throw_if_sign_error : Value → Settled (Unit {0})
  throw_if_sign_error result =
      if has_member "error" result then member "error" result >>= refusal else fulfilled tt

  abbrev pub violated : Value → String
  violated kind =
      String.◌++◌ "SigningChannel contract violated: expected kind=\"sign\", got kind=\""
        (String.◌++◌ (json.template kind) "\"")

  abbrev pub granted : Value → Settled Value
  granted result = throw_if_sign_error result >> fulfilled result

  -- `sign`, of what the channel settles with.
  unfoldable pub sign : Settled Value → Settled Value
  unfolding throw_if_sign_error
  sign reply = do
    result ← reply
    kind ← member "kind" result
    if equals_text kind "sign" then (member "result" result >>= granted) else throw (violated kind)

  unfoldable pub sign_message : Settled Value → Settled Value
  unfolding sign
  sign_message reply = sign reply >>= member "signature"

  unfoldable pub sign_typed_data : Settled Value → Settled Value
  unfolding sign
  sign_typed_data reply = sign reply >>= member "signature"

  pub record SiweAnswer : Type 0 where
    pub message : Value
    pub signature : Value

  unfoldable pub sign_siwe : Settled Value → Settled SiweAnswer
  unfolding sign
  sign_siwe reply = do
    result ← sign reply
    message ← member "message" result
    signature ← member "signature" result
    fulfilled (record { message = message; signature = signature })
