-- ===== src/Ceremony/Types.antt =====
-- packages/core/src/auth-popup/ceremony.ts: messages, results, what the page shows, and what it keeps.
use avok_js.Consent.Lines.{ConsentDisplayLine}
use avok_js.Base.{ℕ, String, Bool, Option, List, Value, Settled}

pub record AuthPopupAccount : Type 0 where
  pub evm_address : String
  pub wallet_address : String
  pub credential_id : Option String

-- What the driver calls and does not implement: decoding and formatting (`decodeSignConsent`,
-- `formatConsentDisplay`), `simulationPayloadFor`, `simulationDisplayLines`, `authorizeChallenge`, and
-- `encodeResultUrl` of the three results, which throws on a result over its limit or a redirect that is no URL.
pub record Rendering : Type 1 where
  pub Request : Type 0
  pub Payload : Type 0
  pub Simulation : Type 0
  pub Signature : Type 0
  pub decode : Request → Settled (List ConsentDisplayLine)
  pub payload_for : Request → Settled (Option Payload)
  pub unsimulated : Simulation
  pub is_reverted : Simulation → Bool
  pub simulation_lines : Simulation → Payload → List ConsentDisplayLine
  pub challenge : String → String → String
  pub signed_url : Signature → (redirect_uri : String) → Settled String
  pub rejected_url : (redirect_uri : String) → Settled String
  pub authorized_url : AuthPopupAccount → (proof redirect_uri : String) → Settled String

module _ (r : Rendering) where
  open r use {Request, Payload, Simulation, Signature}

  pub data ChannelResult : Type 0 where
    signed : Signature → ChannelResult
    user_rejected : ChannelResult
    authorized : AuthPopupAccount → String → ChannelResult

  -- The fields of a message that the driver reads. `request` is cast and never checked. `not_an_object` is a
  -- value whose members cannot be read, `null`, and for the popup's handler, which ignores it, any other that
  -- is no object; to the redirect page, such a value is an object whose members are all undefined.
  pub data MessageData : Type 0 where
    not_an_object : MessageData
    an_object :
        (kind nonce : Value) (request : Request) (credential_id : Option String) → MessageData

  -- `source` is the window that sent it, and `null` for none.
  pub record MessageEvent : Type 0 where
    pub source : Option ℕ
    pub origin : String
    pub message : MessageData

  -- How a result gets home: a message to the opener, or a navigation to the app's callback.
  pub data Transport : Type 0 where
    to_opener : (origin : String) → Transport
    to_callback : (redirect_uri : String) → Transport

  -- The variables of `runSign`.
  pub record Job : Type 0 where
    pub request : Request
    pub credential_id : Option String
    pub transport : Transport
    pub lines : List ConsentDisplayLine
    pub reject_only : Bool
    pub error : Option String

  pub data Phase : Type 0 where
    idle : Phase
    simulating : Job → Payload → Phase
    deciding : Job → Phase
    signing : Job → Phase
    reading_account : Transport → Phase
    done : Phase

  pub data Effect : Type 0 where
    ready : Effect
    connecting : Effect
    waiting_for_passkey : Effect
    failure : String → Effect
    simulate : Payload → Effect
    show_consent : Job → Effect
    approved : Job → Effect
    sign_with : Request → Option String → Effect
    read_account : String → Effect
    post : ChannelResult → (target : String) → Effect
    assign : ChannelResult → (redirect_uri : String) → Effect
    close : Effect

  pub record Page : Type 0 where
    pub opener : Option ℕ
    pub own_origin : String
    pub pinned_origin : Option String
    pub pending : Bool
    pub phase : Phase
    pub trace : List Effect

  pub data Event : Type 0 where
    message : MessageEvent → Event
    simulated : Settled Simulation → Event
    decided : Bool → Event
    signature_settled : Settled Signature → Event
    account_settled : Settled (AuthPopupAccount × String) → Event
