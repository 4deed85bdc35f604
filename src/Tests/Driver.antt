-- ===== src/Tests/Driver.antt =====
-- The theorems on the popup's driver at concrete runs.
use avok_js.Registry.{get_token_profile, get_chain_profile}
use avok_js.Consent.Format.{format_consent_display}
use avok_js.Consent.Payload.{simulation_payload_for, payload_for_tx, payload_at}
use avok_js.Consent.Decode.{decode_call, or_erc20, or_extra, erc20_line, plain_line}
use avok_js.Consent.Request.{
  decode_sign_consent, unwrap_wallet_batch, decode_tx_consent, call_lines,
}
use Prim.Native.String
use avok_js.Base.{
  ◌≡◌, refl, ◌≤◌, String, true, none, some, List, [], ◌∷◌, str, undefined, fulfilled, Failure,
  to_text, to_lower_case,
}
use avok_js.Consent.Types.{sign_message, SignConsentRequest}
use avok_js.Consent.Sign.{signature, SignedAuthorization, account_authorization}
use avok_js.Consent.Delegation.{a_send, with_authorization, LeadsWith}
use avok_js.Ceremony.Types.{
  Event, Effect, Job, MessageEvent, an_object, decided, signature_settled, simulated,
  waiting_for_passkey, approved, show_consent, Rendering,
}
use avok_js.Ceremony.{
  start, run, step, on_simulated, simulated_job, on_decision, handler, accept, drive_request,
  run_sign, show_decoded, simulate_or_show, show, is_terminal_signing_failure,
}
use avok_js.Ceremony.Safety.{IsGated, HonestView}
use avok_js.Ceremony.Gate.{signed_after_approval}
use avok_js.Ceremony.Answers.{replies, PostsGoTo}
use avok_js.Ceremony.Replies.{one_reply_to_pinned}
use avok_js.Ceremony.Retry.{
  sign_request_served, until_signed, EndsSigned, sign_message as sign_event,
}
use avok_js.Simulate.{unsimulated}
use avok_js.Tests.Redirect.{toy_browser, two_texts}
use avok_js.Popup.{ResultUrls, rendering, delegation_approved}
use avok_js.Tests.Fixtures.{toy_viem, toy_crypto, batch_tx, delegation_at}

abbrev toy_urls : ResultUrls
toy_urls = record {
  browser = toy_browser;
  json = two_texts;
  signature_value = λ s. fulfilled (str "0xsig");
}

abbrev toy : Rendering
toy = rendering toy_viem (λ nonce origin. String.◌++◌ nonce origin) toy_urls

abbrev app : String
app = "https://app.example"

abbrev hello : Event toy
hello = sign_event toy 7 app (sign_message "hello") (some "credential")

abbrev signed_hello : List (Event toy)
signed_hello = hello ∷ decided true ∷ signature_settled (fulfilled (signature "sig")) ∷ []

signed_after_approval_example :
    IsGated toy (run toy (start toy (some 7) "https://vault.example") signed_hello).trace
unfolding step handler accept drive_request run_sign show_decoded simulate_or_show show start
    decode_sign_consent simulation_payload_for format_consent_display
signed_after_approval_example =
    signed_after_approval toy (some 7) "https://vault.example" signed_hello (tt, (refl, (tt, tt)))

one_reply_to_pinned_example :
    (replies toy (run toy (start toy (some 7) "https://vault.example") signed_hello).trace ≤ 1)
    × PostsGoTo toy
        (run toy (start toy (some 7) "https://vault.example") signed_hello).pinned_origin
        (run toy (start toy (some 7) "https://vault.example") signed_hello).trace
one_reply_to_pinned_example = one_reply_to_pinned toy (some 7) "https://vault.example" signed_hello

abbrev vault : String
vault = "https://vault.example"

abbrev stranger : MessageEvent toy
stranger = record {
  source = some 8;
  origin = "https://other.example";
  message = an_object (str "sign") undefined (sign_message "steal") none;
}

abbrev dismissed : Failure
dismissed = record { name = "NotAllowedError"; message = "The gesture was dismissed" }

sign_request_served_example :
    HonestView toy
      (start toy (some 7) vault)
      (hello ∷ until_signed toy (dismissed ∷ []) (signature "sig"))
    × EndsSigned toy (sign_message "hello") (some "credential") app (signature "sig") (
        run toy
          (start toy (some 7) vault)
          (hello ∷ until_signed toy (dismissed ∷ []) (signature "sig")))
unfolding decode_sign_consent format_consent_display simulation_payload_for
    is_terminal_signing_failure to_lower_case
sign_request_served_example =
    sign_request_served toy 7 vault app (sign_message "hello") (some "credential") _ _
      (dismissed ∷ []) (signature "sig") (λ e. cc) (λ e. cc) refl refl (refl, tt)

abbrev upgrade : SignConsentRequest
upgrade = with_authorization (a_send batch_tx) (some (delegation_at (some "0xdelegate") none))

abbrev upgraded : List (Event toy)
upgraded = sign_event toy 7 app upgrade none ∷ simulated (fulfilled unsimulated) ∷ decided true ∷ []

abbrev after_first : List (Effect toy) → List (Effect toy)
after_first [] = []
after_first (x ∷ xs) = xs

abbrev before_gesture : List (Effect toy)
before_gesture = after_first (run toy (start toy (some 7) vault) upgraded).trace

abbrev upgrade_signed : SignedAuthorization
upgrade_signed = record {
  address = "0xdelegate";
  chain_id = 8453;
  nonce = 3;
  signature = "authorization";
}

delegation_approved_example :
    (job : Job toy) × (before : List (Effect toy)) × (before_gesture
      ≡ waiting_for_passkey ∷ approved job ∷ show_consent job ∷ before)
    × LeadsWith "0xdelegate" job.lines
unfolding step run on_simulated simulated_job on_decision handler accept drive_request run_sign
    show_decoded simulate_or_show show start decode_sign_consent simulation_payload_for
    payload_for_tx payload_at format_consent_display unwrap_wallet_batch decode_tx_consent
    call_lines decode_call or_erc20 or_extra erc20_line plain_line to_text get_token_profile
    get_chain_profile to_lower_case account_authorization
delegation_approved_example =
    delegation_approved toy_viem (λ nonce origin. String.◌++◌ nonce origin) toy_urls toy_crypto
      (some 7) vault upgraded [] before_gesture (a_send batch_tx)
      (delegation_at (some "0xdelegate") none) upgrade_signed none (tt, (tt, (refl, tt))) refl refl
      refl (λ e. cc)
