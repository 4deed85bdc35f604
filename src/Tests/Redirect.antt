-- ===== src/Tests/Redirect.antt =====
-- The theorem on the fragments of URLs at a concrete browser.
use Prim.Native.String
use Prim.Native.String.{len, slice}
use text.Mathlib.TextPositions.{len-append, slice-append_right}
use text.Mathlib.TextLemmas.{append_assoc}
use avok_js.Base.{
  ◌≡◌, refl, sym, ap, ◌∙◌, String, ◌===◌, if◌then◌else◌, none, some, [], ◌∷◌, Value, str, obj, end,
  prop, fulfilled, ◌==◌, has_member, ◌or_else◌, get_elem?,
}
use avok_js.Channel.Storage.{Json}
use avok_js.Channel.Redirect.{
  Browser, request_payload, fragment, decode_request_url, encode_request_url, decode_result_url,
  encode_result_url, req_param, res_param, max_redirect_payload_bytes,
}
use avok_js.Channel.Redirect.Carry.{KeepsFragments, Carries, fragments_carry}

abbrev a_request : Value
a_request = str "sign this"

abbrev a_result : Value
a_result = str "0xsig"

abbrev the_payload : Value
the_payload = obj (prop "request" (str "sign this") (prop "redirectUri" (str "app://back") end))

-- A `JSON`, and a browser, that know the two values.
abbrev pub two_texts : Json
two_texts = record {
  stringify = λ v. if has_member "redirectUri" v then "q" else "r";
  parse = λ t. if t === "q" then fulfilled the_payload else fulfilled a_result;
  template = λ w. "";
}

abbrev after_name : String → String → String
after_name query name = slice query (len (String.◌++◌ name "=")) (len query)

abbrev pub toy_browser : Browser
toy_browser = record {
  Url = String;
  new_url = λ t. fulfilled t;
  protocol = λ u. "https:";
  hostname = λ u. "vault.example";
  hash = λ u. u;
  with_hash = λ u h. String.◌++◌ "#" h;
  search_get = λ query name. some (after_name query name);
  btoa = λ bytes. if (get_elem? bytes 0 or_else 0) == 113 then "cQ==" else "cg==";
  atob = λ t. if t === "cQ" then fulfilled (113 ∷ []) else fulfilled (114 ∷ []);
  utf8 = λ t. if t === "q" then 113 ∷ [] else 114 ∷ [];
  utf8_text = λ bytes. if (get_elem? bytes 0 or_else 0) == 113 then "q" else "r";
}

after_name-fragment : (name payload : String) → after_name (fragment name payload) name ≡ payload
after_name-fragment name payload =
    ap (λ q. after_name q name) (sym (append_assoc name "=" payload))
    ∙ ap (slice _ _) (len-append (String.◌++◌ name "=") payload)
    ∙ slice-append_right (String.◌++◌ name "=") payload

toy_browser-KeepsFragments : (name : String) → KeepsFragments toy_browser name
toy_browser-KeepsFragments name = record {
  loads = λ u payload safe. (_, refl, refl);
  reads = λ payload safe. ap some (after_name-fragment name payload);
}

fragments_carry_example :
    Carries toy_browser two_texts
      (decode_request_url toy_browser two_texts)
      (request_payload toy_browser two_texts a_request "app://back")
      (none or_else max_redirect_payload_bytes)
      (encode_request_url toy_browser two_texts "https://vault.example" a_request "app://back" none)
    × Carries toy_browser two_texts
        (decode_result_url toy_browser two_texts)
        a_result
        (none or_else max_redirect_payload_bytes)
        (encode_result_url toy_browser two_texts "https://vault.example" a_result none)
fragments_carry_example =
    fragments_carry toy_browser two_texts "https://vault.example" "app://back"
      "https://vault.example" none a_request a_result refl (toy_browser-KeepsFragments req_param)
      (toy_browser-KeepsFragments res_param)
      (record {
        parse_back = refl;
        text_back = refl;
        first = "c";
        body = "Q";
        pad = "==";
        btoa_form = refl;
        body_base64 = refl;
        pad_padding = refl;
        atob_body = refl;
      })
      (record {
        parse_back = refl;
        text_back = refl;
        first = "c";
        body = "g";
        pad = "==";
        btoa_form = refl;
        body_base64 = refl;
        pad_padding = refl;
        atob_body = refl;
      })
