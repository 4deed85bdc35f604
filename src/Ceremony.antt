-- ===== src/Ceremony.antt =====
-- packages/core/src/auth-popup/ceremony.ts: the popup's driver, as a state machine.
-- An event is what the browser delivers: a window message, or the settling of a promise that the
-- driver awaits. A state keeps what the closures keep, with every effect in `trace`, newest first.
-- The rendering of requests is a parameter here; Popup fills it.
pub mod Types
pub mod Safety
pub mod Gate
pub mod Answers
pub mod Replies
pub mod Retry
use avok_js.Base.{
  ℕ, ◌==◌, String, ◌===◌, includes, to_lower_case, if◌then◌else◌, Bool, true, false, ◌||◌, not,
  Option, none, some, List, [], ◌∷◌, ◌++◌, Value, str, Failure, Settled, fulfilled, rejected,
}
use avok_js.Ceremony.Types.{
  AuthPopupAccount, Rendering, ChannelResult, signed, user_rejected, authorized, MessageData,
  not_an_object, an_object, MessageEvent, Transport, to_opener, to_callback, Job, Phase, idle,
  simulating, deciding, signing, reading_account, done, Effect, ready, connecting,
  waiting_for_passkey, failure, simulate, show_consent, approved, sign_with, read_account, post,
  assign, close, Page, Event, message, simulated, decided, signature_settled, account_settled,
}
use avok_js.Consent.Lines.{Severity, ConsentDisplayLine}

unfoldable pub is_terminal_signing_failure : Failure → Bool
is_terminal_signing_failure e =
    if e.name === "SecurityError"
    then true
    else includes (to_lower_case e.message) "relying party id"

abbrev pub no_nonce : String
no_nonce = "Authorization request carried no challenge nonce"

abbrev pub same_source : Option ℕ → Option ℕ → Bool
same_source none none = true
same_source (some a) (some b) = a == b
same_source _ _ = false

abbrev pub is_kind : Value → String → Bool
is_kind (str s) k = s === k
is_kind _ k = false

module _ (r : Rendering) where
  open r use {Request, Payload, Simulation, Signature}

  abbrev pub after_reply : ChannelResult r → List (Effect r) → List (Effect r)
  after_reply (authorized a proof) t = t
  after_reply _ t = close ∷ t

  -- `win.opener?.postMessage(result, origin)`
  abbrev pub posted : Option ℕ → ChannelResult r → String → List (Effect r) → List (Effect r)
  posted none result origin t = t
  posted (some w) result origin t = post result origin ∷ t

  abbrev pub result_url : ChannelResult r → (redirect_uri : String) → Settled String
  result_url (signed s) uri = r.signed_url s uri
  result_url user_rejected uri = r.rejected_url uri
  result_url (authorized a proof) uri = r.authorized_url a proof uri

  -- `win.location.assign(encodeResultUrl({ redirectUri, result }))`
  unfoldable pub assigned :
      Settled String → ChannelResult r → String → (Failure → Page r → Page r) → Page r → Page r
  assigned (fulfilled url) result uri failed p = record p {
    phase = done;
    trace = assign result uri ∷ p.trace;
  }
  assigned (rejected f) result uri failed p = failed f p

  -- A sign reply closes the popup. Where the result does not fit its URL, the reply throws, and `failed` is
  -- what becomes of that.
  unfoldable pub reply :
      Transport r → ChannelResult r → (failed : Failure → Page r → Page r) → Page r → Page r
  unfolding assigned
  reply (to_callback uri) result failed p = assigned (result_url result uri) result uri failed p
  reply (to_opener origin) result failed p = record p {
    phase = done;
    trace = after_reply result (posted p.opener result origin p.trace);
  }

  -- The head of the retry loop.
  unfoldable pub show : Job r → Page r → Page r
  show j p = record p { phase = deciding j; trace = show_consent j ∷ p.trace }

  abbrev pub undecodable : Request → Option String → Transport r → String → Job r
  undecodable request credential transport why = record {
    request = request;
    credential_id = credential;
    transport = transport;
    lines =
        record {
          text = "Can't show you this request, so it can't be approved.";
          severity = Severity.danger;
        }
        ∷ record { text = why; severity = Severity.danger }
        ∷ [];
    reject_only = true;
    error = none;
  }

  -- Simulation runs on top of the decoded lines, where the request carries calls. A throw of
  -- `simulationPayloadFor` is caught nowhere: `runSign` ends, and no screen comes.
  unfoldable pub simulate_or_show : Settled (Option Payload) → Job r → Page r → Page r
  unfolding show
  simulate_or_show (rejected f) j p = record p { phase = done }
  simulate_or_show (fulfilled none) j p = show j p
  simulate_or_show (fulfilled (some payload)) j p = record p {
    phase = simulating j payload;
    trace = simulate payload ∷ p.trace;
  }

  unfoldable pub show_decoded :
      Settled (List ConsentDisplayLine) → Request → Option String → Transport r → Page r → Page r
  unfolding simulate_or_show
  show_decoded (rejected f) request credential transport p =
      show (undecodable request credential transport f.message) p
  show_decoded (fulfilled []) request credential transport p =
      show
        (undecodable request credential transport "No summary could be produced for this request.")
        p
  show_decoded (fulfilled (line ∷ lines)) request credential transport p =
      simulate_or_show (r.payload_for request)
        (record {
          request = request;
          credential_id = credential;
          transport = transport;
          lines = line ∷ lines;
          reject_only = false;
          error = none;
        })
        p

  unfoldable pub run_sign : Request → Option String → Transport r → Page r → Page r
  unfolding show_decoded
  run_sign request credential = show_decoded (r.decode request) request credential

  unfoldable pub run_authorize : Value → Transport r → Page r → Page r
  run_authorize (str nonce) transport p =
      if nonce === ""
      then record p { phase = done; trace = failure no_nonce ∷ p.trace }
      else record p {
        phase = reading_account transport;
        trace = read_account (r.challenge nonce p.own_origin) ∷ connecting ∷ p.trace;
      }
  run_authorize _ transport p = record p { phase = done; trace = failure no_nonce ∷ p.trace }

  -- `data["kind"]` of `null` throws: nothing happens.
  unfoldable pub drive_request : MessageData r → Transport r → Page r → Page r
  unfolding run_sign run_authorize
  drive_request not_an_object transport p = p
  drive_request (an_object kind nonce request credential) transport p =
      if is_kind kind "authorize"
      then run_authorize nonce transport p
      else run_sign request credential transport p

  abbrev pub is_request : MessageData r → Bool
  is_request not_an_object = false
  is_request (an_object kind nonce request credential) =
      is_kind kind "authorize" || is_kind kind "sign"

  -- The opener's origin is pinned by its first message, before the message is looked at.
  unfoldable pub accept : String → MessageData r → Page r → Page r
  unfolding drive_request
  accept origin data' p =
      if not (is_request data') || p.pending
      then p
      else drive_request data' (to_opener origin) (record p { pending = true })

  -- `handler` of `runAuthPopup`.
  unfoldable pub handler : MessageEvent r → Page r → Page r
  unfolding accept
  handler e p =
      if not (same_source e.source p.opener) || (e.origin === "" || e.origin === "null")
      then p
      else elim p.pinned_origin [
        | none ↦ accept e.origin e.message (record p { pinned_origin = some e.origin })
        | some pinned ↦ if e.origin === pinned then accept pinned e.message p else p
      ]

  -- A simulation that throws is the same as one that could not be made. A revert cannot be approved.
  unfoldable pub simulated_job : Job r → Payload → Settled Simulation → Job r
  simulated_job j payload (rejected f) = record j {
    lines = j.lines ++ r.simulation_lines r.unsimulated payload;
    reject_only = j.reject_only || r.is_reverted r.unsimulated;
  }
  simulated_job j payload (fulfilled s) = record j {
    lines = j.lines ++ r.simulation_lines s payload;
    reject_only = j.reject_only || r.is_reverted s;
  }

  unfoldable pub on_simulated : Settled Simulation → Phase r → Page r → Page r
  unfolding show simulated_job
  on_simulated s (simulating j payload) p = show (simulated_job j payload s) p
  on_simulated s _ p = p

  -- A throw that is caught nowhere ends `runSign`.
  abbrev pub unhandled : Failure → Page r → Page r
  unhandled f p = record p { phase = done }

  unfoldable pub on_decision : Bool → Phase r → Page r → Page r
  unfolding reply
  on_decision false (deciding j) p = reply j.transport user_rejected unhandled p
  on_decision true (deciding j) p = record p {
    phase = signing j;
    trace = sign_with j.request j.credential_id ∷ waiting_for_passkey ∷ approved j ∷ p.trace;
  }
  on_decision _ _ p = p

  -- The `catch` of the loop: the screen comes again, with the error.
  unfoldable pub retry : Job r → Failure → Page r → Page r
  unfolding show is_terminal_signing_failure
  retry j f p =
      show
        (record j {
          error = some f.message;
          reject_only = j.reject_only || is_terminal_signing_failure f;
        })
        p

  -- The reply stands in the `try` too.
  unfoldable pub on_signed : Settled Signature → Phase r → Page r → Page r
  unfolding reply retry
  on_signed (fulfilled s) (signing j) p = reply j.transport (signed s) (retry j) p
  on_signed (rejected f) (signing j) p = retry j f p
  on_signed _ _ p = p

  -- The `catch` of `readAccount`, which the reply stands before.
  abbrev pub not_connected : Failure → Page r → Page r
  not_connected f p = record p { phase = done; trace = failure f.message ∷ p.trace }

  unfoldable pub on_account : Settled (AuthPopupAccount × String) → Phase r → Page r → Page r
  unfolding reply
  on_account (fulfilled (account, proof)) (reading_account t) p =
      reply t (authorized account proof) not_connected p
  on_account (rejected f) (reading_account t) p = not_connected f p
  on_account _ _ p = p

  unfoldable pub step : Page r → Event r → Page r
  unfolding handler on_simulated on_decision on_signed on_account
  step p (message e) = handler e p
  step p (simulated s) = on_simulated s p.phase p
  step p (decided b) = on_decision b p.phase p
  step p (signature_settled s) = on_signed s p.phase p
  step p (account_settled a) = on_account a p.phase p

  unfoldable pub run : Page r → List (Event r) → Page r
  unfolding step
  run p [] = p
  run p (e ∷ es) = run (step p e) es

  -- `runAuthPopup`: the listener is attached and `ready` is posted.
  unfoldable pub start : Option ℕ → String → Page r
  start opener own_origin = record {
    opener = opener;
    own_origin = own_origin;
    pinned_origin = none;
    pending = false;
    phase = idle;
    trace = elim opener [ none ↦ [] | some w ↦ ready ∷ [] ];
  }

  -- The redirect page attaches no listener, so no message reaches it.
  abbrev pub blank : String → Page r
  blank own_origin = record {
    opener = none;
    own_origin = own_origin;
    pinned_origin = none;
    pending = true;
    phase = done;
    trace = [];
  }

  -- `runAuthRedirect`: the request stands in the page's fragment, or there is none.
  unfoldable pub start_redirect : Option (MessageData r × String) → String → Page r
  unfolding drive_request
  start_redirect none own_origin = record (blank own_origin) {
    trace = failure "This page was opened without a signing request" ∷ [];
  }
  start_redirect (some (request, uri)) own_origin =
      drive_request request (to_callback uri) (blank own_origin)
