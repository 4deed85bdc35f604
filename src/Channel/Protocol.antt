-- ===== src/Channel/Protocol.antt =====
-- packages/core/src/channel/protocol.ts: the versioned envelopes of requests and replies.
pub mod RoundTrip
use Prim.Native.String
use avok_js.Base.{
  ℕ, ◌==◌, String, ◌===◌, if◌then◌else◌, Bool, true, false, not, ◌&&◌, any, Option, none, some,
  List, [], ◌∷◌, Value, end, prop, obj, str, num, bool, Settled, fulfilled, rejected, ◌>>=◌,
  is_object, is_string, has_member, optional_member, truthy,
}
use avok_js.Channel.Storage.{Json}

abbrev pub protocol_version : ℕ
protocol_version = 1

abbrev pub envelope_kinds : List String
envelope_kinds =
    "connect" ∷ "sign-tx" ∷ "sign-message" ∷ "create" ∷ "recover" ∷ "guardian-op" ∷ "device-enroll"
    ∷ []

pub record RequestEnvelope : Type 0 where
  pub id : String
  pub kind : String
  pub chain : String
  pub payload : Value
  pub requester_origin : String

pub data ReplyEnvelope : Type 0 where
  success : (id : String) (result : Value) → ReplyEnvelope
  failure : (id error : String) → ReplyEnvelope

-- `createRequestEnvelope`, for the identifier that it draws: the object that is sent.
unfoldable pub create_request_envelope : RequestEnvelope → Value
create_request_envelope e = obj (
    prop "v" (num protocol_version) (
      prop "id" (str e.id) (
        prop "kind" (str e.kind) (
          prop "chain" (str e.chain) (
            prop "payload" e.payload
              (prop "requester" (obj (prop "origin" (str e.requester_origin) end)) end))))))

unfoldable pub create_reply : ReplyEnvelope → Value
create_reply (success id result) = obj (
    prop "v" (num protocol_version)
      (prop "id" (str id) (prop "ok" (bool true) (prop "result" result end))))
create_reply (failure id error) = obj (
    prop "v" (num protocol_version)
      (prop "id" (str id) (prop "ok" (bool false) (prop "error" (str error) end))))

-- `value.v === PROTOCOL_VERSION`
abbrev pub is_version : Value → Bool
is_version (num n) = n == protocol_version
is_version v = false

abbrev pub is_kind : Value → Bool
is_kind (str k) = any (λ known. known === k) envelope_kinds
is_kind v = false

abbrev pub is_boolean : Value → Bool
is_boolean (bool b) = true
is_boolean v = false

abbrev pub unknown_version : Settled (Option Value)
unknown_version =
    rejected
      (record { name = "UnknownProtocolVersionError"; message = "Unknown vault protocol version" })

abbrev pub accepted_if : Bool → Value → Settled (Option Value)
accepted_if b value = fulfilled (if b then some value else none)

abbrev pub is_request_shape : Value → Bool
is_request_shape value =
    is_string (optional_member "id" value)
    && is_kind (optional_member "kind" value)
    && is_string (optional_member "chain" value)
    && has_member "payload" value
    && is_object (optional_member "requester" value)
    && is_string (optional_member "origin" (optional_member "requester" value))

abbrev pub is_reply_shape : Value → Bool
is_reply_shape value =
    is_string (optional_member "id" value)
    && is_boolean (optional_member "ok" value)
    && (if truthy (optional_member "ok" value)
        then has_member "result" value
        else is_string (optional_member "error" value))

-- What both parsers do with the version.
abbrev pub versioned : (Value → Bool) → Value → Settled (Option Value)
versioned shape value =
    if is_object value
    then if has_member "v" value && not (is_version (optional_member "v" value))
      then unknown_version
      else accepted_if (is_version (optional_member "v" value) && shape value) value
    else fulfilled none

unfoldable pub parse_request_envelope : Value → Settled (Option Value)
parse_request_envelope value = versioned is_request_shape value

unfoldable pub parse_reply_envelope : Value → Settled (Option Value)
parse_reply_envelope value = versioned is_reply_shape value

module _ (json : Json) where
  unfoldable pub encode_envelope : Value → String
  encode_envelope envelope = json.stringify envelope

  unfoldable pub decode_request_envelope : String → Settled (Option Value)
  unfolding parse_request_envelope
  decode_request_envelope text = json.parse text >>= parse_request_envelope

  unfoldable pub decode_reply_envelope : String → Settled (Option Value)
  unfolding parse_reply_envelope
  decode_reply_envelope text = json.parse text >>= parse_reply_envelope
