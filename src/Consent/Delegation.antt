-- ===== src/Consent/Delegation.antt =====
-- packages/core/src/auth-popup/sign/consent.ts: delegations on the screen, and what is signed for them.
use Prim.Native.String
use avok_js.Base.{
  ℕ, ◌≡◌, refl, ap, ◌∙◌, sym, subst, ◌≢◌, String, ◌===◌, ===_iff, Bool-cases, inl, inr, Option,
  none, some, List, [], ◌∷◌, ◌++◌, Settled, fulfilled, rejected, ◌>>=◌, >>=-eq-fulfilled,
  fulfilled-injective,
}
use avok_js.Consent.Lines.{ConsentDisplayLine, danger_line}
use avok_js.Consent.Types.{
  RawCall, Viem, TypedData, AuthorizationRequest, Transaction, UserOpRequest, SignConsentRequest,
  sign_send, sign_sponsored, sign_user_op, SignConsent, sponsored, typed_data, ConsentView,
}
use avok_js.Consent.Request.{
  decode_sign_consent, decode_tx_consent, decode_typed_data, call_lines, unwrap_wallet_batch,
  delegation_of, sponsored_view,
}
use avok_js.Consent.Display.{text, chain_label, upgrade_lines, sponsored_upgrade}
use avok_js.Consent.Format.{format_consent_display}
use avok_js.Consent.Sign.{
  Crypto, SignedAuthorization, account_authorization, signed_delegate, account_signed,
}

-- The composite requests, each with its authorization left open.
pub data Composite : Type 0 where
  a_send : Transaction → Composite
  a_sponsored : TypedData → Composite
  a_user_op : UserOpRequest → (chain_id : ℕ) → (entry_point_version : String) → Composite

abbrev pub with_authorization : Composite → Option AuthorizationRequest → SignConsentRequest
with_authorization (a_send tx) a = sign_send tx a
with_authorization (a_sponsored td) a = sign_sponsored td a
with_authorization (a_user_op op chain_id version) a = sign_user_op op chain_id version a

-- The first line is at danger and names the delegate.
pub record LeadsWith (d : String) (lines : List ConsentDisplayLine) : Type 0 where
  pub suffix : String
  pub rest : List ConsentDisplayLine
  pub shape :
      lines
      ≡ danger_line (String.◌++◌ "Authorize account upgrade to " (String.◌++◌ d suffix)) ∷ rest

upgrade_lines-LeadsWith :
    (d : String) (chain_id : ℕ) (ls : List ConsentDisplayLine)
    → d ≢ ""
    → LeadsWith d (upgrade_lines (some d) chain_id ++ ls)
upgrade_lines-LeadsWith d chain_id ls n = elim (Bool-cases (d === "")) [
  | inl e ↦ elim (n ((===_iff d "").0 e)) [ ]
  | inr e ↦ record {
    suffix = text (" on " ∷ chain_label chain_id ∷ []);
    rest = ls;
    shape = rw e refl;
  }
]

sponsored_upgrade-LeadsWith :
    (d : String) (ls : List ConsentDisplayLine)
    → d ≢ ""
    → LeadsWith d (sponsored_upgrade (some d) ++ ls)
sponsored_upgrade-LeadsWith d ls n = elim (Bool-cases (d === "")) [
  | inl e ↦ elim (n ((===_iff d "").0 e)) [ ]
  | inr e ↦ record { suffix = ""; rest = ls; shape = rw e refl }
]

contract_first :
    (contract address : Option String)
    → address ≡ none
    → (elim contract as (λ _. Option String) [ some x ↦ some x | none ↦ address ]) ≡ contract
contract_first (some x) address e = refl
contract_first none address e = e

signed_delegate-contract :
    (a : AuthorizationRequest) → a.address ≡ none → signed_delegate a ≡ a.contract_address
signed_delegate-contract a e = contract_first a.contract_address a.address e

account_signed-delegate :
    (o : Option String) (chain_id nonce : ℕ) (signature : String) (s : SignedAuthorization)
    → account_signed o chain_id nonce signature ≡ fulfilled s
    → (some s.address ≡ o) × (s.chain_id ≡ chain_id)
account_signed-delegate none chain_id nonce signature s h = (cc, cc)
account_signed-delegate (some d) chain_id nonce signature s h =
    let e = fulfilled-injective h in
    (ap (λ x. some x.address) (sym e), ap (λ x. x.chain_id) (sym e))

module _ (crypto : Crypto) where
  -- What the account signs for an authorization delegates to the spelling that it reads first.
  pub account_authorization-delegate :
      (a : AuthorizationRequest) (s : SignedAuthorization)
      → account_authorization crypto a ≡ fulfilled s
      → (some s.address ≡ signed_delegate a) × (s.chain_id ≡ a.chain_id)
  unfolding account_authorization
  account_authorization-delegate a s h =
      let (digest, b, c) = >>=-eq-fulfilled (crypto.hash_authorization _ _ _) _ h in
      account_signed-delegate (signed_delegate a) _ _ _ s c

module _ (viem : Viem) where
  sponsored_view-shape :
      (a : Option AuthorizationRequest) (v w : SignConsent)
      → sponsored_view viem a v ≡ fulfilled w
      → (view : ConsentView) × (w ≡ sponsored view (delegation_of a))
  unfolding sponsored_view
  sponsored_view-shape a (typed_data view) w h = (view, sym (fulfilled-injective h))
  sponsored_view-shape a _ w h = cc

  -- A composite request whose authorization has an `address` leads the approval screen with a line at
  -- danger that names this address.
  pub delegation_shown_first :
      (q : Composite) (a : AuthorizationRequest) (d : String) (v : SignConsent)
      → a.address ≡ some d
      → d ≢ ""
      → decode_sign_consent viem (with_authorization q (some a)) ≡ fulfilled v
      → LeadsWith d (format_consent_display viem v)
  unfolding decode_sign_consent format_consent_display
  delegation_shown_first (a_send tx) a d v e n h =
      let (t, b, c) = >>=-eq-fulfilled (decode_tx_consent viem tx) _ h in
      subst (λ w. LeadsWith d (format_consent_display viem w)) (fulfilled-injective c)
        (rw e (upgrade_lines-LeadsWith d t.chain_id _ n))
  delegation_shown_first (a_sponsored td) a d v e n h =
      let (t, b, c) = >>=-eq-fulfilled (decode_typed_data viem td) _ h in
      let (view, f) = sponsored_view-shape (some a) t v c in
      rw f (rw e (sponsored_upgrade-LeadsWith d _ n))
  delegation_shown_first (a_user_op op chain_id version) a d v e n h =
      let call : RawCall = record { to = op.sender; value = 0; bytes = op.call_data } in
      let batch = unwrap_wallet_batch viem op.call_data in
      let (t, b, c) = >>=-eq-fulfilled (call_lines viem chain_id call batch) _ h in
      subst (λ w. LeadsWith d (format_consent_display viem w)) (fulfilled-injective c)
        (rw e (upgrade_lines-LeadsWith d chain_id _ n))

  sponsored_view-no_address :
      (a : AuthorizationRequest) (m : Settled SignConsent)
      → a.address ≡ none
      → (m >>= sponsored_view viem (some a)) ≡ (m >>= sponsored_view viem none)
  unfolding sponsored_view
  sponsored_view-no_address a (fulfilled (typed_data view)) e =
      ap (λ d. fulfilled (sponsored view d)) e
  sponsored_view-no_address a (fulfilled _) e = refl
  sponsored_view-no_address a (rejected f) e = refl

  decode-no_address :
      (q : Composite) (a : AuthorizationRequest)
      → a.address ≡ none
      → decode_sign_consent viem (with_authorization q (some a))
        ≡ decode_sign_consent viem (with_authorization q none)
  unfolding decode_sign_consent sponsored_view
  decode-no_address (a_send tx) a e = simp e refl
  decode-no_address (a_sponsored td) a e = sponsored_view-no_address a (decode_typed_data viem td) e
  decode-no_address (a_user_op op chain_id version) a e = simp e refl

  module _ (crypto : Crypto) where
    -- A composite request whose authorization has only a `contractAddress` is decoded as if it had no
    -- authorization at all, while what the account signs for that authorization delegates to this
    -- address.
    pub contract_address_hidden :
        (q : Composite) (a : AuthorizationRequest) (s : SignedAuthorization)
        → a.address ≡ none
        → account_authorization crypto a ≡ fulfilled s
        → (decode_sign_consent viem (with_authorization q (some a))
            ≡ decode_sign_consent viem (with_authorization q none))
          × (some s.address ≡ a.contract_address)
    contract_address_hidden q a s e h = (
      decode-no_address q a e,
      (account_authorization-delegate crypto a s h).0 ∙ signed_delegate-contract a e,
    )
