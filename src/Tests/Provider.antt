-- ===== src/Tests/Provider.antt =====
-- The theorems on the provider at concrete requests.
use avok_js.Base.{
  ◌≡◌, refl, false, true, none, some, List, [], ◌∷◌, All, Value, str, obj, arr, prop, end, nil,
  cons, fulfilled, inl,
}
use avok_js.Client.Send.{Config}
use avok_js.Provider.Types.{Runtime}
use avok_js.Provider.Methods.{Js, dispatch}
use avok_js.Provider.Guard.{Allowed, wallet_acts_as_asked}
use avok_js.Provider.Engine.{Connection, create_send_engine}
use avok_js.Provider.Sponsorship.{PaidByUser, unserved_ask_is_paid}
use avok_js.Provider.Events.{State, Seen, emitted}
use avok_js.Provider.Events.Followed.{view_of, follow_all, AreNews, last_seen, events_followed}
use avok_js.Tests.Client.{sponsoring, late_polls}

abbrev toy_js : Js
toy_js = record {
  big_int = λ v. fulfilled 1;
  to_string = λ v. "text";
  json_parse = λ s. fulfilled (obj end);
  is_hex = λ s. true;
  hex_to_string = λ s. fulfilled "hello";
  hex_to_number = λ v. fulfilled 8453;
}

abbrev toy_connection : Connection
toy_connection = record {
  log_in = some (fulfilled "0xWallet");
  sign_message = λ m. fulfilled "0xsigned";
  sign_typed_data = λ v. fulfilled "0xsigned";
}

abbrev unsponsored : Config
unsponsored = record sponsoring { has_bundler = false }

abbrev page : Runtime
page = record { account = some "0xWallet"; chain_id = 8453; calls = [] }

abbrev sign_params : List Value
sign_params = str "0x68656c6c6f" ∷ str "0xwallet" ∷ []

wallet_acts_as_asked_example :
    All
      (Allowed page "personal_sign" sign_params)
      (dispatch toy_js
        (create_send_engine unsponsored late_polls toy_connection)
        page
        "personal_sign"
        sign_params).did
wallet_acts_as_asked_example =
    wallet_acts_as_asked toy_js (create_send_engine unsponsored late_polls toy_connection) page
      "personal_sign" sign_params

abbrev sponsored_request : Value
sponsored_request = obj (
    prop "calls" (arr (cons (obj (prop "to" (str "0xTo") end)) nil))
      (prop "capabilities" (obj (prop "paymasterService" (obj end) end)) end))

unserved_ask_is_paid_example :
    All
      (PaidByUser unsponsored)
      (dispatch toy_js
        (create_send_engine unsponsored late_polls toy_connection)
        page
        "wallet_sendCalls"
        (sponsored_request ∷ [])).did
unserved_ask_is_paid_example =
    unserved_ask_is_paid toy_js unsponsored late_polls toy_connection refl page sponsored_request
      (inl refl)

abbrev away : Seen
away = record { prev_connected = false; prev_addr = none }

abbrev visits : List State
visits =
    record { status = true; account = some "0xWallet"; chain_id = 10 }
    ∷ record { status = false; account = none; chain_id = 10 }
    ∷ []

events_followed_example :
    (follow_all (view_of away) (emitted away visits) ≡ view_of (last_seen away visits))
    × AreNews (view_of away) (emitted away visits)
events_followed_example = events_followed away visits
