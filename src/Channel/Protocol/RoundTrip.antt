-- ===== src/Channel/Protocol/RoundTrip.antt =====
-- packages/core/src/channel/protocol.ts: the envelopes that one side builds and the other parses.
use avok_js.Base.{
  ◌≡◌, refl, ap, ◌∙◌, String, ◌===◌, true, any, Value, fulfilled, some, optional_member, is_string,
  Bool, num, str, &&-both, bool, subst, has_member, arr, ==_iff, obj, ◌>>=◌, ◌&&◌, undefined, null,
  is_object, arith,
}
use avok_js.Channel.Storage.{Json}
use avok_js.Channel.Protocol.{
  RequestEnvelope, ReplyEnvelope, success, failure, create_request_envelope, create_reply,
  parse_request_envelope, parse_reply_envelope, encode_envelope, decode_request_envelope,
  decode_reply_envelope, envelope_kinds, is_kind, is_version, is_request_shape, versioned,
  protocol_version,
}

request_parses :
    (e : RequestEnvelope)
    → any (λ known. known === e.kind) envelope_kinds ≡ true
    → parse_request_envelope (create_request_envelope e)
      ≡ fulfilled (some (create_request_envelope e))
unfolding create_request_envelope parse_request_envelope
request_parses e h = rw h refl

reply_parses :
    (r : ReplyEnvelope) → parse_reply_envelope (create_reply r) ≡ fulfilled (some (create_reply r))
unfolding create_reply parse_reply_envelope
reply_parses (success id result) = refl
reply_parses (failure id error) = refl

module _ (json : Json) where
  abbrev pub IsKept : Value → Type 0
  IsKept v = json.parse (json.stringify v) ≡ fulfilled v

  -- A request of a known kind and any reply, built by one side and written as JSON, are read by the other
  -- side as what was built; where JSON keeps them.
  pub envelopes_read_back :
      (e : RequestEnvelope) (r : ReplyEnvelope)
      → any (λ known. known === e.kind) envelope_kinds ≡ true
      → IsKept (create_request_envelope e)
      → IsKept (create_reply r)
      → (decode_request_envelope json (encode_envelope json (create_request_envelope e))
          ≡ fulfilled (some (create_request_envelope e)))
        × (decode_reply_envelope json (encode_envelope json (create_reply r))
            ≡ fulfilled (some (create_reply r)))
  unfolding encode_envelope decode_request_envelope decode_reply_envelope
  envelopes_read_back e r known kept kept' = (
    ap (λ m. m >>= parse_request_envelope) kept ∙ request_parses e known,
    ap (λ m. m >>= parse_reply_envelope) kept' ∙ reply_parses r,
  )

-- The members that a value of the type `RequestEnvelope` has.
pub record IsRequestEnvelope (v : Value) : Type 0 where
  pub version_read : optional_member "v" v ≡ num protocol_version
  pub id : String
  pub id_read : optional_member "id" v ≡ str id
  pub kind : String
  pub kind_read : optional_member "kind" v ≡ str kind
  pub kind_known : any (λ known. known === kind) envelope_kinds ≡ true
  pub chain : String
  pub chain_read : optional_member "chain" v ≡ str chain
  pub has_payload : has_member "payload" v ≡ true
  pub origin : String
  pub origin_read : optional_member "origin" (optional_member "requester" v) ≡ str origin

is_string_str : (v : Value) → is_string v ≡ true → (s : String) × (v ≡ str s)
is_string_str (str s) h = (s, refl)
is_string_str undefined h = cc
is_string_str null h = cc
is_string_str (bool b) h = cc
is_string_str (num n) h = cc
is_string_str (arr vs) h = cc
is_string_str (obj ps) h = cc

is_kind_str :
    (v : Value)
    → is_kind v ≡ true
    → (s : String) × (v ≡ str s) × (any (λ known. known === s) envelope_kinds ≡ true)
is_kind_str (str s) h = (s, refl, h)
is_kind_str undefined h = cc
is_kind_str null h = cc
is_kind_str (bool b) h = cc
is_kind_str (num n) h = cc
is_kind_str (arr vs) h = cc
is_kind_str (obj ps) h = cc

is_version_num : (v : Value) → is_version v ≡ true → v ≡ num protocol_version
is_version_num (num n) h = ap num ((==_iff n 1).0 h)
is_version_num (str s) h = cc
is_version_num undefined h = cc
is_version_num null h = cc
is_version_num (bool b) h = cc
is_version_num (arr vs) h = cc
is_version_num (obj ps) h = cc

shaped-IsRequestEnvelope :
    (v : Value)
    → is_version (optional_member "v" v) ≡ true
    → is_request_shape v ≡ true
    → IsRequestEnvelope v
shaped-IsRequestEnvelope v version h =
    let (h1, origin_ok) = &&-both _ _ h in
    let (h2, requester_ok) = &&-both _ (is_object (optional_member "requester" v)) h1 in
    let (h3, payload_ok) = &&-both _ _ h2 in
    let (h4, chain_ok) = &&-both _ _ h3 in
    let (id_ok, kind_ok) = &&-both _ _ h4 in
    let (id, id_read) = is_string_str _ id_ok in
    let (kind, kind_read, kind_known) = is_kind_str _ kind_ok in
    let (chain, chain_read) = is_string_str _ chain_ok in
    let (origin, origin_read) = is_string_str _ origin_ok in
    record {
      version_read = is_version_num _ version;
      id = id;
      id_read = id_read;
      kind = kind;
      kind_read = kind_read;
      kind_known = kind_known;
      chain = chain;
      chain_read = chain_read;
      has_payload = payload_ok;
      origin = origin;
      origin_read = origin_read;
    }

-- A parser answers with nothing else than the value it was given, at the right version and shape.
versioned_answer :
    (shape : Value → Bool) (v w : Value)
    → versioned shape v ≡ fulfilled (some w)
    → (v ≡ w) × (is_version (optional_member "v" v) && shape v ≡ true)
versioned_answer shape v w h = ground arith

-- A value that parses as a request is returned as it is, and it has every member of the type
-- `RequestEnvelope`: this version, texts, a known kind, a payload.
pub parsed_request_typed :
    (v w : Value) → parse_request_envelope v ≡ fulfilled (some w) → (v ≡ w) × IsRequestEnvelope w
unfolding parse_request_envelope
parsed_request_typed v w h =
    let (same, shape) = versioned_answer is_request_shape v w h in
    let (version, rest) = &&-both _ _ shape in
    (same, subst IsRequestEnvelope same (shaped-IsRequestEnvelope v version rest))
