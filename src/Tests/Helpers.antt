-- ===== src/Tests/Helpers.antt =====
-- The theorems on the helpers at concrete inputs.
use avok_js.Base.{
  ◌≡◌, ◌⊎◌, refl, ascii, String, ◌===◌, Option, none, some, List, Settled, fulfilled, rejected,
  throw,
}
use avok_js.Registry.{get_chain_profile}
use avok_js.Registry.Rpc.{evm_rpc_urls}
use avok_js.Helpers.Amount.{pos, negsuc, format_amount}
use avok_js.Helpers.Amount.ReadBack.{read_amount, format_amount-read_back}
use avok_js.Helpers.Names.{EnsClient, create_ens_resolver, address, trim, resolve_recipient}
use avok_js.Helpers.Names.Anchored.{
  IsGrounded, recipient-IsGrounded, AnsweredWith, reverse-IsAnchored,
}
use avok_js.Helpers.Balances.{PublicClient, read_balances}
use avok_js.Helpers.Balances.Shown.{ShowsAll, balances-AreShown}

format_amount-read_back_example :
    (read_amount 6 (format_amount (pos 1234500000) 6) ≡ 1234500000)
    × (format_amount (negsuc 1234500000) 6
        ≡ String.◌∷◌ (ascii 45) (format_amount (pos 1234500001) 6))
format_amount-read_back_example = format_amount-read_back 1234500000 6

abbrev toy_client : EnsClient
toy_client = record {
  get_ens_name = λ a. fulfilled (some "alice.eth");
  get_ens_address = λ n. fulfilled (some "0xAl1ce");
}

recipient-IsGrounded_example :
    IsGrounded
      (λ s. s === "0xAl1ce")
      toy_client
      (trim " alice.eth ")
      (address "0xAl1ce" (some "alice.eth"))
unfolding resolve_recipient trim
recipient-IsGrounded_example =
    recipient-IsGrounded (λ s. s === "0xAl1ce") none toy_client none " alice.eth " refl

abbrev alice : String
alice = "alice.eth"

reverse-IsAnchored_example :
    (alice ≡ "") ⊎ AnsweredWith (create_ens_resolver none toy_client) "0xaL1CE" alice
unfolding avok_js.Helpers.Names.reverse_through avok_js.Base.to_lower_case
reverse-IsAnchored_example =
    reverse-IsAnchored (create_ens_resolver none toy_client) "0xaL1CE" alice refl

-- The reads of the tokens fail.
abbrev failing_client : List String → Settled PublicClient
failing_client urls =
    fulfilled
      (record { get_balance = λ a. fulfilled 42000; balance_of = λ token a. throw "timeout" })

balances-AreShown_example :
    ShowsAll failing_client "0xMe"
      (evm_rpc_urls 8453 (λ n. none))
      (get_chain_profile 8453)
      (read_balances failing_client 8453 "0xMe" (λ n. none))
balances-AreShown_example = balances-AreShown failing_client "0xMe" 8453 (λ n. none)
