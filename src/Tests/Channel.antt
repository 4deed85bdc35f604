-- ===== src/Tests/Channel.antt =====
-- The theorems on the application's side of the channel at concrete inputs.
use avok_js.Base.{
  ◌≡◌, refl, String, true, some, List, [], ◌∷◌, Value, null, str, obj, end, prop, fulfilled,
  if◌then◌else◌, ◌===◌, has_member, num, bool,
}
use avok_js.Channel.Storage.{Json, memory_storage, load_account, empty_store}
use avok_js.Channel.Connection.{
  Verifier, create_connection, connect, resolve_account, proven_account, verify_authorize_proof,
  authorize_challenge,
}
use avok_js.Channel.Connection.Proof.{Connected, connect_proven}
use avok_js.Channel.Connection.Session.{
  Command, connecting, reloading, asking_account, run, session_run, session_refined,
}
use avok_js.Channel.Protocol.{
  RequestEnvelope, ReplyEnvelope, success, create_request_envelope, create_reply, encode_envelope,
  decode_request_envelope, decode_reply_envelope, parse_request_envelope,
}
use avok_js.Channel.Protocol.RoundTrip.{
  envelopes_read_back, parsed_request_typed, IsRequestEnvelope,
}

abbrev account : Value
account = obj (prop "evmAddress" (str "0xabc") end)

abbrev answer : Value
answer =
    obj (prop "kind" (str "authorize") (prop "account" account (prop "proof" (str "0xsig") end)))

-- A `JSON` that keeps one value.
abbrev one_value : Value → Json
one_value v = record { stringify = λ w. "{}"; parse = λ t. fulfilled v; template = λ w. "" }

abbrev accepting : Verifier
accepting = record {
  url_origin = λ u. fulfilled "https://vault.example";
  verify_message = λ address message proof. fulfilled true;
}

abbrev vault : String
vault = "https://vault.example"

connect_proven_example :
    Connected
      (one_value account)
      memory_storage
      accepting
      vault
      "00ff"
      (fulfilled answer)
      (record { current = null; store = empty_store })
      (connect
        (one_value account)
        memory_storage
        accepting
        vault
        "00ff"
        (fulfilled answer)
        (record { current = null; store = empty_store }))
connect_proven_example =
    connect_proven (one_value account) memory_storage accepting vault "00ff" (fulfilled answer)
      (record { current = null; store = empty_store })

abbrev commands : List (Command (one_value account) memory_storage accepting vault)
commands = connecting "00ff" (fulfilled answer) ∷ reloading ∷ asking_account ∷ []

session_refined_example :
    (resolve_account (one_value account) memory_storage accepting vault (
        run
          (one_value account)
          memory_storage
          accepting
          vault
          commands
          (create_connection (one_value account) memory_storage accepting vault empty_store))
      ≡ session_run
          (one_value account)
          memory_storage
          accepting
          vault
          commands
          (load_account (one_value account) memory_storage empty_store))
    × (load_account
          (one_value account)
          memory_storage
          (run (one_value account) memory_storage accepting vault commands (
            create_connection (one_value account) memory_storage accepting vault empty_store)).store
        ≡ session_run
            (one_value account)
            memory_storage
            accepting
            vault
            commands
            (load_account (one_value account) memory_storage empty_store))
unfolding proven_account verify_authorize_proof authorize_challenge memory_storage
session_refined_example =
    session_refined (one_value account) memory_storage accepting vault empty_store commands
      (λ k value s. (_, refl)) (refl, (tt, (tt, tt)))

abbrev request : RequestEnvelope
request = record {
  id = "00ff";
  kind = "sign-tx";
  chain = "eip155:8453";
  payload = null;
  requester_origin = "https://app.example";
}

-- A `JSON` that tells values apart by one member.
abbrev two_values : String → Value → Value → Json
two_values k with_k without_k = record {
  stringify = λ v. if has_member k v then "q" else "r";
  parse = λ t. if t === "q" then fulfilled with_k else fulfilled without_k;
  template = λ w. "";
}

abbrev kept_reply : ReplyEnvelope
kept_reply = success "00ff" null

abbrev wire : Json
wire =
    two_values "ok"
      (obj (
        prop "v" (num 1) (prop "id" (str "00ff") (prop "ok" (bool true) (prop "result" null end)))))
      (obj (
        prop "v" (num 1) (
          prop "id" (str "00ff") (
            prop "kind" (str "sign-tx") (
              prop "chain" (str "eip155:8453") (
                prop "payload" null
                  (prop "requester" (obj (prop "origin" (str "https://app.example") end)) end)))))))

envelopes_read_back_example :
    (decode_request_envelope wire (encode_envelope wire (create_request_envelope request))
      ≡ fulfilled (some (create_request_envelope request)))
    × (decode_reply_envelope wire (encode_envelope wire (create_reply kept_reply))
        ≡ fulfilled (some (create_reply kept_reply)))
unfolding create_request_envelope create_reply
envelopes_read_back_example = envelopes_read_back wire request kept_reply refl refl refl

parsed_request_typed_example :
    (create_request_envelope request ≡ create_request_envelope request)
    × IsRequestEnvelope (create_request_envelope request)
unfolding create_request_envelope parse_request_envelope
parsed_request_typed_example =
    parsed_request_typed (create_request_envelope request) (create_request_envelope request) refl
