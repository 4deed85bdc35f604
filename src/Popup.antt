-- ===== src/Popup.antt =====
-- packages/core/src/auth-popup: the driver of Ceremony, rendering requests as Consent and Simulate do.
use avok_js.Base.{
  Value, Props, obj, prop, end, str, ℕ, ◌≡◌, ◌≢◌, refl, String, Bool, true, false, Option, none,
  some, List, [], ◌∷◌, ◌++◌, Settled, fulfilled, ◌>>=◌, >>=-eq-fulfilled, fulfilled-injective, sym,
  subst, ap, ◌∙◌,
}
use avok_js.Channel.Storage.{Json}
use avok_js.Channel.Redirect.{Browser, encode_result_url}
use avok_js.Consent.Lines.{ConsentDisplayLine}
use avok_js.Consent.Types.{Viem, AuthorizationRequest, SignConsentRequest}
use avok_js.Consent.Request.{decode_sign_consent}
use avok_js.Consent.Format.{format_consent_display}
use avok_js.Consent.Payload.{SignTxPayload, simulation_payload_for}
use avok_js.Consent.Sign.{
  Crypto, SignResult, SignedAuthorization, signed_delegate, account_authorization,
}
use avok_js.Consent.Delegation.{
  Composite, with_authorization, LeadsWith, delegation_shown_first, account_authorization-delegate,
}
use avok_js.Simulate.{SimulationResult, unsimulated, reverted}
use avok_js.Simulate.Display.{simulation_display_lines}
use avok_js.Ceremony.Types.{
  AuthPopupAccount, Rendering, Effect, Event, sign_with, show_consent, approved,
  waiting_for_passkey, Job, post, signed, assign,
}
use avok_js.Ceremony.Safety.{IsApproved, IsGated, HonestView}
use avok_js.Ceremony.Gate.{signed_after_approval}
use avok_js.Ceremony.{start, run}

abbrev pub was_reverted : SimulationResult → Bool
was_reverted (reverted reason) = true
was_reverted _ = false

-- What `encodeResultUrl` runs on, and a signature as the value that JSON writes, which throws on a bigint.
pub record ResultUrls : Type 1 where
  pub browser : Browser
  pub json : Json
  pub signature_value : SignResult → Settled Value

abbrev pub result_url_of : ResultUrls → Value → (redirect_uri : String) → Settled String
result_url_of urls result uri = encode_result_url urls.browser urls.json uri result none

-- `{ kind: "sign", result }`
abbrev pub sign_result : Value → Value
sign_result v = obj (prop "kind" (str "sign") (prop "result" v end))

abbrev pub credential_member : Option String → Props
credential_member none = end
credential_member (some c) = prop "credentialId" (str c) end

-- `{ kind: "authorize", account, proof }`
abbrev pub authorize_result : AuthPopupAccount → String → Value
authorize_result a proof = obj (
    prop "kind" (str "authorize") (
      prop "account"
        (obj (
          prop "evmAddress" (str a.evm_address)
            (prop "walletAddress" (str a.wallet_address) (credential_member a.credential_id))))
        (prop "proof" (str proof) end)))

-- `challenge` is `authorizeChallenge`.
abbrev pub rendering : Viem → (challenge : String → String → String) → ResultUrls → Rendering
rendering viem challenge urls = record {
  Request = SignConsentRequest;
  Payload = SignTxPayload;
  Simulation = SimulationResult;
  Signature = SignResult;
  decode = λ q. decode_sign_consent viem q >>= (λ c. fulfilled (format_consent_display viem c));
  payload_for = simulation_payload_for viem;
  unsimulated = unsimulated;
  is_reverted = was_reverted;
  simulation_lines = λ s p. simulation_display_lines viem s p.chain_id;
  challenge = challenge;
  signed_url = λ s uri. urls.signature_value s >>= λ v. result_url_of urls (sign_result v) uri;
  rejected_url =
      λ uri. result_url_of urls (sign_result (obj (prop "error" (str "user_rejected") end))) uri;
  authorized_url = λ a proof uri. result_url_of urls (authorize_result a proof) uri;
}

LeadsWith-append :
    {d : String} {ls : List ConsentDisplayLine} (ms : List ConsentDisplayLine)
    → LeadsWith d ls
    → LeadsWith d (ls ++ ms)
LeadsWith-append ms w = record {
  suffix = w.suffix;
  rest = w.rest ++ ms;
  shape = ap (λ x. x ++ ms) w.shape;
}

address_only :
    (contract address : Option String)
    → contract ≡ none
    → (elim contract as (λ _. Option String) [ some x ↦ some x | none ↦ address ]) ≡ address
address_only none address e = refl
address_only (some x) address e = cc

signed_delegate-address :
    (a : AuthorizationRequest) → a.contract_address ≡ none → signed_delegate a ≡ a.address
signed_delegate-address a e = address_only a.contract_address a.address e

module _ (viem : Viem) (challenge : String → String → String) (urls : ResultUrls) where
  abbrev popup : Rendering
  popup = rendering viem challenge urls

  IsGated-tail :
      (x : Effect popup) (t : List (Effect popup)) → IsGated popup (x ∷ t) → IsGated popup t
  IsGated-tail (sign_with q credential) t g = g.1
  IsGated-tail (post (signed s) target) t g = g.1
  IsGated-tail (assign (signed s) uri) t g = g.1
  IsGated-tail _ t g = g

  gated-sign_with :
      (earlier later : List (Effect popup)) (q : SignConsentRequest) (credential : Option String)
      → IsGated popup (later ++ (sign_with q credential ∷ earlier))
      → IsApproved popup q credential earlier
  gated-sign_with earlier [] q credential g = g.0
  gated-sign_with earlier (x ∷ later) q credential g =
      gated-sign_with earlier later q credential (IsGated-tail x _ g)

  decoded-LeadsWith :
      (q : Composite) (a : AuthorizationRequest) (d : String) (request : SignConsentRequest)
      (lines : List ConsentDisplayLine)
      → a.address ≡ some d
      → d ≢ ""
      → request ≡ with_authorization q (some a)
      → popup.decode request ≡ fulfilled lines
      → LeadsWith d lines
  decoded-LeadsWith q a d request lines h n e k =
      let (v, f, g) = >>=-eq-fulfilled (decode_sign_consent viem request) _ k in
      subst (LeadsWith d) (fulfilled-injective g)
        (delegation_shown_first viem q a d v h n (ap (decode_sign_consent viem) (sym e) ∙ f))

  -- Where a passkey gesture is made for a composite request whose authorization has no `contractAddress`, and
  -- what the account signs for this authorization delegates to a non-empty address: the screen that was
  -- approved straight before it begins with a line at danger that names this very address; whatever messages
  -- and outcomes arrive, under a view that never approves a reject-only screen.
  pub delegation_approved :
      (crypto : Crypto) (opener : Option ℕ) (own_origin : String) (es : List (Event popup))
      (later earlier : List (Effect popup)) (q : Composite) (a : AuthorizationRequest)
      (s : SignedAuthorization) (credential : Option String)
      → HonestView popup (start popup opener own_origin) es
      → (run popup (start popup opener own_origin) es).trace
        ≡ later ++ (sign_with (with_authorization q (some a)) credential ∷ earlier)
      → a.contract_address ≡ none
      → account_authorization crypto a ≡ fulfilled s
      → s.address ≢ ""
      → (job : Job popup) × (before : List (Effect popup)) × (earlier
          ≡ waiting_for_passkey ∷ approved job ∷ show_consent job ∷ before)
        × LeadsWith s.address job.lines
  delegation_approved crypto opener own_origin es later earlier q a s credential honest e one signs
        n =
      let g = signed_after_approval popup opener own_origin es honest in
      let x = gated-sign_with earlier later _ credential (subst (IsGated popup) e g) in
      let named =
        sym ((account_authorization-delegate crypto a s signs).0 ∙ signed_delegate-address a one) in
      let y =
        decoded-LeadsWith q a s.address x.job.request _ named n x.request_shown x.decoded.decoded in
      (
        x.job,
        x.earlier,
        x.order,
        subst (LeadsWith s.address) (sym x.decoded.shown) (LeadsWith-append _ y),
      )
