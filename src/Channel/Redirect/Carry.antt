-- ===== src/Channel/Redirect/Carry.antt =====
-- packages/core/src/channel/redirect-protocol.ts: what is put in a URL and read out of it.
use Prim.Native.String
use Prim.Native.Char.{Char}
use text.Mathlib.TextLemmas.{cons-append, nil-append}
use avok_js.Base.{
  ℕ, ◌≤◌, ltb, String, true, ◌≡◌, sym, ap, ◌∙◌, subst, Option, some, length, Value, Settled,
  fulfilled, ◌>>=◌, Bool-cases, inl, inr, ◌or_else◌, ◌<◌, ltb_iff, ltb-false,
}
use avok_js.Channel.Storage.{Json}
use avok_js.Channel.Redirect.{
  Browser, encode, decode, strip_padding, strip_mark, to_url_alphabet, from_url_alphabet, fragment,
  carrying, carried, decode_some, too_large, encode_request_url, decode_request_url,
  request_payload, req_param, res_param, encode_result_url, decode_result_url,
  max_redirect_payload_bytes,
}
use avok_js.Channel.Redirect.Alphabet.{
  all_chars, is_base64, is_base64url, is_padding, from_url_alphabet-to_url_alphabet,
  to_url_alphabet_safe, strip_padding-to_url_alphabet,
}

-- What the built-ins promise on one value: its JSON is read back, its bytes decode to its text, and `btoa`
-- writes them in the base64 alphabet, with padding that `atob` does not need.
pub record IsEncodable (b : Browser) (json : Json) (v : Value) : Type 0 where
  pub parse_back : json.parse (json.stringify v) ≡ fulfilled v
  pub text_back : b.utf8_text (b.utf8 (json.stringify v)) ≡ json.stringify v
  pub first : Char
  pub body : String
  pub pad : String
  pub btoa_form : b.btoa (b.utf8 (json.stringify v)) ≡ String.◌++◌ (String.◌∷◌ first body) pad
  pub body_base64 : all_chars is_base64 (String.◌∷◌ first body) ≡ true
  pub pad_padding : all_chars is_padding pad ≡ true
  pub atob_body : b.atob (String.◌∷◌ first body) ≡ fulfilled (b.utf8 (json.stringify v))

-- What URLs promise of fragments that need no escape, under one name.
pub record KeepsFragments (b : Browser) (name : String) : Type 0 where
  pub loads :
      (u : b.Url) (payload : String)
      → all_chars is_base64url payload ≡ true
      → (u' : b.Url) × (b.new_url (b.with_hash u (fragment name payload)) ≡ fulfilled u')
        × (b.hash u' ≡ String.◌++◌ "#" (fragment name payload))
  pub reads :
      (payload : String)
      → all_chars is_base64url payload ≡ true
      → b.search_get (fragment name payload) name ≡ some payload

strip_mark-marked : (s : String) → strip_mark (String.◌++◌ "#" s) ≡ s
strip_mark-marked s = ap strip_mark (cons-append _ String.[] s) ∙ nil-append s

module _ (b : Browser) (json : Json) where
  abbrev pub size : Value → ℕ
  size v = length (b.utf8 (json.stringify v))

  abbrev pub payload_of : Value → String
  payload_of v = strip_padding (to_url_alphabet (b.btoa (b.utf8 (json.stringify v))))

  payload_of-body :
      (v : Value) (e : IsEncodable b json v)
      → payload_of v ≡ to_url_alphabet (String.◌∷◌ e.first e.body)
  payload_of-body v e =
      ap (λ t. strip_padding (to_url_alphabet t)) e.btoa_form
      ∙ strip_padding-to_url_alphabet (String.◌∷◌ e.first e.body) e.pad e.body_base64 e.pad_padding

  payload_of_safe :
      (v : Value) → IsEncodable b json v → all_chars is_base64url (payload_of v) ≡ true
  payload_of_safe v e =
      subst (λ t. all_chars is_base64url t ≡ true) (sym (payload_of-body v e))
        (to_url_alphabet_safe (String.◌∷◌ e.first e.body) e.body_base64)

  decode-payload_of :
      (v : Value) → IsEncodable b json v → decode b json (payload_of v) ≡ fulfilled v
  unfolding decode
  decode-payload_of v e =
      ap (λ t. b.atob t >>= λ bytes. json.parse (b.utf8_text bytes))
        (ap from_url_alphabet (payload_of-body v e)
          ∙ from_url_alphabet-to_url_alphabet (String.◌∷◌ e.first e.body) e.body_base64)
      ∙ ap (λ m. m >>= λ bytes. json.parse (b.utf8_text bytes)) e.atob_body
      ∙ ap json.parse e.text_back
      ∙ e.parse_back

  decode_some-payload_of :
      (v : Value)
      → IsEncodable b json v
      → decode_some b json (some (payload_of v)) ≡ fulfilled (some v)
  unfolding to_url_alphabet
  decode_some-payload_of v e =
      ap (λ t. decode_some b json (some t)) (payload_of-body v e)
      ∙ ap (λ m. m >>= λ w. fulfilled (some w))
          (ap (decode b json) (sym (payload_of-body v e)) ∙ decode-payload_of v e)

  -- Sent where the payload is within the limit, and then read back; refused where it is over.
  pub data Carries (read : String → Settled (Option Value)) (v : Value) (limit : ℕ)
      : Settled String → Type 0 where
    sent :
        (href : String)
        → size v ≤ limit
        → read href ≡ fulfilled (some v)
        → Carries read v limit (fulfilled href)
    refused : limit < size v → Carries read v limit (too_large (size v) limit)

  carried_back :
      (name : String) (v : Value) (u : b.Url)
      → KeepsFragments b name
      → IsEncodable b json v
      → carried b json name (b.with_hash u (fragment name (payload_of v))) ≡ fulfilled (some v)
  carried_back name v u k e =
      let (u', loaded, hashed) = k.loads u (payload_of v) (payload_of_safe v e) in
      ap (λ m. m >>= λ url. decode_some b json (b.search_get (strip_mark (b.hash url)) name)) loaded
      ∙ ap (λ t. decode_some b json (b.search_get t name))
          (ap strip_mark hashed ∙ strip_mark-marked (fragment name (payload_of v)))
      ∙ ap (decode_some b json) (k.reads (payload_of v) (payload_of_safe v e))
      ∙ decode_some-payload_of v e

  carrying-Carries :
      (point name : String) (v : Value) (limit : ℕ) (u : b.Url)
      → b.new_url point ≡ fulfilled u
      → KeepsFragments b name
      → IsEncodable b json v
      → Carries (carried b json name) v limit (carrying b json point name v limit)
  unfolding encode
  carrying-Carries point name v limit u url k e = rw url (elim (Bool-cases (ltb limit (size v))) [
    | inl over ↦ rw over (refused ((ltb_iff limit (size v)).0 over))
    | inr within ↦ rw within (sent _ (ltb-false limit (size v) within) (carried_back name v u k e))
  ])

  module _ (point other : String) (u : b.Url) (limit : Option ℕ) where
    -- A request that fits the limit is put in the URL of the wallet's page and read out of it as it was,
    -- with its redirect; a result that fits is put in the callback's URL and read out of it; and what is
    -- over the limit is refused, with its size; where the origin and the redirect are URLs and the browser
    -- keeps its promises on the fragments and on these two values.
    pub fragments_carry :
        (request result : Value)
        → b.new_url point ≡ fulfilled u
        → KeepsFragments b req_param
        → KeepsFragments b res_param
        → IsEncodable b json (request_payload b json request other)
        → IsEncodable b json result
        → Carries
            (decode_request_url b json)
            (request_payload b json request other)
            (limit or_else max_redirect_payload_bytes)
            (encode_request_url b json point request other limit)
          × Carries
              (decode_result_url b json)
              result
              (limit or_else max_redirect_payload_bytes)
              (encode_result_url b json point result limit)
    unfolding encode_request_url decode_request_url encode_result_url decode_result_url
    fragments_carry request result url k k' e e' = (
      carrying-Carries point req_param _ _ u url k e,
      carrying-Carries point res_param result _ u url k' e',
    )
