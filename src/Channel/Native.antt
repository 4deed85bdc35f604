-- ===== src/Channel/Native.antt =====
-- packages/core/src/channel/channels/native.ts: the channel of one browser session and its callback URL.
use Prim.Native.String
use avok_js.Base.{
  String, ◌===◌, if◌then◌else◌, Bool, ◌||◌, Option, none, some, Value, Settled, fulfilled, rejected,
  ◌>>=◌, throw, member, truthy, equals_text,
}
use avok_js.Channel.Storage.{Json}
use avok_js.Channel.Web.{is_localhost}
use avok_js.Channel.Redirect.{Browser, encode_request_url, decode_result_url}

-- What the browser session ended with.
pub record SessionOutcome : Type 0 where
  pub type : String
  pub url : Option String

abbrev pub cancelled {ℓ} : {A : Type ℓ} → Settled A
cancelled = rejected (record {
  name = "AuthSessionCancelledError";
  message = "The signing session was dismissed before it completed";
})

abbrev pub callback_url : Option String → Settled String
callback_url none = cancelled
callback_url (some String.[]) = cancelled
callback_url (some (String.◌∷◌ c s)) = fulfilled (String.◌∷◌ c s)

abbrev pub ended_at : SessionOutcome → Settled String
ended_at o = if o.type === "success" then callback_url o.url else cancelled

abbrev pub no_payload : String
no_payload = "The signing session returned no result — the callback URL carried no payload"

abbrev pub some_result : Option Value → Settled Value
some_result none = throw no_payload
some_result (some v) = if truthy v then fulfilled v else throw no_payload

abbrev pub is_result_kind : Value → Bool
is_result_kind kind = equals_text kind "sign" || equals_text kind "authorize"

module _ (b : Browser) (json : Json) where
  -- `createNativeChannel`: the transport of the origin is checked once.
  unfoldable pub create_native_channel : (origin_point : String) → Settled (Unit {0})
  create_native_channel origin_point = b.new_url origin_point >>= λ url.
      if b.protocol url === "https:" || is_localhost (b.hostname url)
      then fulfilled tt
      else throw "createNativeChannel: originPoint must use HTTPS"

  abbrev pub of_kind : (asked : String) → Value → Settled Value
  of_kind asked result = member "kind" result >>= λ kind.
      if is_result_kind kind
      then (if equals_text kind asked
          then fulfilled result
          else throw (
              String.◌++◌ "Expected a \"" (
                String.◌++◌ asked
                  (String.◌++◌ "\" result, got \"" (String.◌++◌ (json.template kind) "\"")))))
      else throw "The signing session returned an unrecognised result kind"

  -- What `open` makes of the session's outcome.
  unfoldable pub receive : (asked : String) → SessionOutcome → Settled Value
  unfolding decode_result_url
  receive asked outcome = do
    href ← ended_at outcome
    answer ← decode_result_url b json href
    result ← some_result answer
    of_kind asked result

  -- `open`: the URL that is opened, and with the session's outcome what the channel settles with.
  unfoldable pub open_session :
      (origin_point redirect_uri : String)
      → (asked : String) → (request : Value) → (String → Settled SessionOutcome)
      → Settled Value
  unfolding encode_request_url receive
  open_session origin_point redirect_uri asked request open_auth_session = do
    url ← encode_request_url b json origin_point request redirect_uri none
    outcome ← open_auth_session url
    receive asked outcome
