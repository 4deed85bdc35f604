-- ===== src/Channel/Redirect.antt =====
-- packages/core/src/channel/redirect-protocol.ts: requests and results that travel in the fragment of a URL.
-- A `Uint8Array` is a list of its bytes. `btoa`, `atob`, `TextEncoder`, `TextDecoder`, `URL` and
-- `URLSearchParams` are parameters.
pub mod Alphabet
pub mod Carry
use Prim.Native.String
use Prim.Native.Char.{Char, code}
use avok_js.Base.{
  ℕ, ltb, ◌==◌, String, if◌then◌else◌, Option, none, some, List, length, to_text, Value, end, prop,
  obj, str, Settled, fulfilled, rejected, ◌>>=◌, ascii, ◌or_else◌,
}
use avok_js.Channel.Storage.{Json}

-- `protocol` and `hostname` are read, `with_hash` is the text of the URL with that fragment, and
-- `search_get query name` is `new URLSearchParams(query).get(name)`.
pub record Browser : Type 1 where
  pub Url : Type 0
  pub new_url : String → Settled Url
  pub protocol : Url → String
  pub hostname : Url → String
  pub hash : Url → String
  pub with_hash : Url → String → String
  pub search_get : String → String → Option String
  pub btoa : List ℕ → String
  pub atob : String → Settled (List ℕ)
  pub utf8 : String → List ℕ
  pub utf8_text : List ℕ → String

abbrev pub max_redirect_payload_bytes : ℕ
max_redirect_payload_bytes = 4096

abbrev pub req_param : String
req_param = "avokReq"

abbrev pub res_param : String
res_param = "avokRes"

-- `s.replace(/x/g, y)`
abbrev pub replace_all : ℕ → ℕ → String → String
replace_all x y String.[] = String.[]
replace_all x y (String.◌∷◌ c s) =
    String.◌∷◌ (if code c == x then ascii y else c) (replace_all x y s)

abbrev pub padded : Char → String → String
padded c String.[] = if code c == 61 then String.[] else String.◌∷◌ c String.[]
padded c (String.◌∷◌ d s) = String.◌∷◌ c (String.◌∷◌ d s)

-- `s.replace(/=+$/, "")`
abbrev pub strip_padding : String → String
strip_padding String.[] = String.[]
strip_padding (String.◌∷◌ c s) = padded c (strip_padding s)

-- `s.replace(/^#/, "")`
abbrev pub strip_mark : String → String
strip_mark String.[] = String.[]
strip_mark (String.◌∷◌ c s) = if code c == 35 then s else String.◌∷◌ c s

-- `.replace(/\+/g, "-").replace(/\//g, "_")` and back.
unfoldable pub to_url_alphabet : String → String
to_url_alphabet s = replace_all 47 95 (replace_all 43 45 s)

unfoldable pub from_url_alphabet : String → String
from_url_alphabet s = replace_all 95 47 (replace_all 45 43 s)

abbrev pub too_large {ℓ} : {A : Type ℓ} → ℕ → ℕ → Settled A
too_large bytes limit = rejected (record {
  name = "RedirectPayloadTooLargeError";
  message = String.◌++◌ "Signing payload is " (
      String.◌++◌ (to_text bytes)
        (String.◌++◌ " bytes, over the " (String.◌++◌ (to_text limit) "-byte redirect limit.")));
})

abbrev pub fragment : (name payload : String) → String
fragment name payload = String.◌++◌ name (String.◌++◌ "=" payload)

module _ (b : Browser) (json : Json) where
  unfoldable pub encode : Value → (limit : ℕ) → Settled String
  unfolding to_url_alphabet to_text
  encode value limit =
      let bytes = b.utf8 (json.stringify value) in
      if ltb limit (length bytes)
      then too_large (length bytes) limit
      else fulfilled (strip_padding (to_url_alphabet (b.btoa bytes)))

  unfoldable pub decode : String → Settled Value
  unfolding from_url_alphabet
  decode encoded = b.atob (from_url_alphabet encoded) >>= λ bytes. json.parse (b.utf8_text bytes)

  -- The URL of `point` that carries the value under the name.
  abbrev pub carrying : (point name : String) → Value → (limit : ℕ) → Settled String
  carrying point name value limit = do
    url ← b.new_url point
    payload ← encode value limit
    fulfilled (b.with_hash url (fragment name payload))

  abbrev pub decode_some : Option String → Settled (Option Value)
  decode_some none = fulfilled none
  decode_some (some String.[]) = fulfilled none
  decode_some (some (String.◌∷◌ c s)) = decode (String.◌∷◌ c s) >>= λ v. fulfilled (some v)

  -- The value that a URL carries under the name.
  abbrev pub carried : (name href : String) → Settled (Option Value)
  carried name href = do
    url ← b.new_url href
    decode_some (b.search_get (strip_mark (b.hash url)) name)

  abbrev pub request_payload : Value → (redirect_uri : String) → Value
  request_payload request redirect_uri =
      obj (prop "request" request (prop "redirectUri" (str redirect_uri) end))

  unfoldable pub encode_request_url :
      (origin_point : String) → Value → (redirect_uri : String) → Option ℕ → Settled String
  unfolding encode
  encode_request_url origin_point request redirect_uri limit =
      carrying origin_point req_param (request_payload request redirect_uri)
        (limit or_else max_redirect_payload_bytes)

  unfoldable pub decode_request_url : (href : String) → Settled (Option Value)
  unfolding decode
  decode_request_url href = carried req_param href

  unfoldable pub encode_result_url : (redirect_uri : String) → Value → Option ℕ → Settled String
  unfolding encode
  encode_result_url redirect_uri result limit =
      carrying redirect_uri res_param result (limit or_else max_redirect_payload_bytes)

  unfoldable pub decode_result_url : (href : String) → Settled (Option Value)
  unfolding decode
  decode_result_url href = carried res_param href
