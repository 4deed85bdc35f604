-- ===== src/Consent/Fees.antt =====
-- packages/core/src/auth-popup/sign: the fee calls of Avok's own batch, in consent.ts and simulate-payload.ts.
use avok_js.Base.{
  ℕ, ◌≡◌, refl, sym, ap, ◌∙◌, subst, String, true, if◌then◌else◌, Option, none, some, List, [], ◌∷◌,
  ◌++◌, last?, fulfilled, >>=-eq-fulfilled, fulfilled-injective,
}
use avok_js.Consent.Types.{
  RawCall, Viem, TypedData, AuthorizationRequest, calls, SignConsentRequest, sign_typed_data,
  sign_sponsored,
}
use avok_js.Consent.Decode.{map_settled}
use avok_js.Consent.TypedData.{
  decode_consent, shown_with, field, message_fields, calls_of, is_avok_batch_typed_data,
}
use avok_js.Consent.Payload.{
  SignTxPayload, to_sign_tx_call, batch_payload, payload_for_avok_batch, simulation_payload_for,
}

last?-append {ℓ} : {A : Type ℓ} (xs : List A) (x : A) → last? (xs ++ (x ∷ [])) ≡ some x
last?-append [] x = refl
last?-append (y ∷ []) x = refl
last?-append (y ∷ z ∷ xs) x = last?-append (z ∷ xs) x

-- The two requests that carry typed data.
abbrev pub batch_request : TypedData → Option (Option AuthorizationRequest) → SignConsentRequest
batch_request td none = sign_typed_data td
batch_request td (some a) = sign_sponsored td a

module _ (viem : Viem) where
  -- The calls are simulated one for one, in order, each at the checksummed address.
  abbrev pub Simulates : List RawCall → List RawCall → Type 0
  Simulates [] [] = Unit
  Simulates (c ∷ cs) (d ∷ ds) =
      ((viem.get_address c.to ≡ fulfilled d.to) × (d.value ≡ c.value) × (d.bytes ≡ c.bytes))
      × Simulates cs ds
  Simulates _ _ = ⊥

  map_settled-Simulates :
      (cs ds : List RawCall)
      → map_settled (to_sign_tx_call viem) cs ≡ fulfilled ds
      → Simulates cs ds
  unfolding to_sign_tx_call
  map_settled-Simulates [] [] h = tt
  map_settled-Simulates [] (d ∷ ds) h = cc
  map_settled-Simulates (c ∷ cs) es h =
      let (d, a, h1) = >>=-eq-fulfilled (to_sign_tx_call viem c) _ h in
      let (ds, b, same) = >>=-eq-fulfilled (map_settled (to_sign_tx_call viem) cs) _ h1 in
      let (to, at, made) = >>=-eq-fulfilled (viem.get_address c.to) _ a in
      subst (Simulates (c ∷ cs)) (fulfilled-injective same) (
        subst
            (λ (x : RawCall).
              (viem.get_address c.to ≡ fulfilled x.to) × (x.value ≡ c.value) × (x.bytes ≡ c.bytes))
            (fulfilled-injective made) (at, refl, refl),
        map_settled-Simulates cs ds b,
      )

  -- What is simulated of a batch: all its calls, for the wallet and on the chain of its domain.
  pub record IsSimulated (wallet : String) (chain_id : ℕ) (cs : List RawCall)
      (payload : Option SignTxPayload) : Type 0 where
    pub simulated : SignTxPayload
    pub is_there : payload ≡ some simulated
    pub on_chain : simulated.chain_id ≡ chain_id
    pub for_wallet : viem.get_address wallet ≡ fulfilled simulated.account
    pub each_call : Simulates cs simulated.calls

  module _ (td : TypedData) (wallet : String) (chain_id : ℕ) (fee_calls user_calls : List RawCall)
      (fees : field "feeCalls" (message_fields td.message) ≡ some (calls fee_calls))
      (users : field "userCalls" (message_fields td.message) ≡ some (calls user_calls)) where
    batch_payload-IsSimulated :
        (payload : Option SignTxPayload)
        → batch_payload viem td (some wallet) (some chain_id) ≡ fulfilled payload
        → IsSimulated wallet chain_id (fee_calls ++ user_calls) payload
    unfolding batch_payload
    batch_payload-IsSimulated payload h =
        let (account, a, h1) = >>=-eq-fulfilled (viem.get_address wallet) _ h in
        let (fs, b, h2) =
          >>=-eq-fulfilled (calls_of (field "feeCalls" (message_fields td.message))) _ h1 in
        let (us, c, h3) =
          >>=-eq-fulfilled (calls_of (field "userCalls" (message_fields td.message))) _ h2 in
        let (ds, d, same) = >>=-eq-fulfilled (map_settled (to_sign_tx_call viem) (fs ++ us)) _ h3 in
        let all_fees = fulfilled-injective (sym (ap calls_of fees) ∙ b) in
        let all_users = fulfilled-injective (sym (ap calls_of users) ∙ c) in
        record {
          simulated = record { chain_id = chain_id; account = account; calls = ds };
          is_there = sym (fulfilled-injective same);
          on_chain = refl;
          for_wallet = a;
          each_call =
              subst (λ xs. Simulates (xs ++ user_calls) ds) (sym all_fees)
                (subst (λ ys. Simulates (fs ++ ys) ds) (sym all_users)
                  (map_settled-Simulates (fs ++ us) ds d));
        }

    -- Of Avok's own batch, signed as typed data or sponsored, every fee call and every call of the user is
    -- simulated, one for one and in order, at its checksummed address, for the wallet and on the chain of the
    -- batch's domain, unless an address is refused; the lines that are decoded for the screen, by contrast,
    -- are the same whatever fee calls come before the last one.
    pub fees-IsSimulated :
        (earlier : List RawCall) (last : RawCall) (o : Option (Option AuthorizationRequest))
        (payload : Option SignTxPayload)
        → fee_calls ≡ earlier ++ (last ∷ [])
        → is_avok_batch_typed_data td.message ≡ true
        → td.domain.verifying_contract ≡ some wallet
        → td.domain.chain_id ≡ some chain_id
        → simulation_payload_for viem (batch_request td o) ≡ fulfilled payload
        → IsSimulated wallet chain_id ((earlier ++ (last ∷ [])) ++ user_calls) payload
          × (decode_consent viem chain_id fee_calls user_calls
              ≡ decode_consent viem chain_id (last ∷ []) user_calls)
    unfolding simulation_payload_for payload_for_avok_batch decode_consent
    fees-IsSimulated earlier last o payload order is_batch at on h = (
      subst (λ fs. IsSimulated wallet chain_id (fs ++ user_calls) payload) order
          (batch_payload-IsSimulated payload (
            sym (
              ap
                (λ b.
                  if b
                  then batch_payload viem td td.domain.verifying_contract td.domain.chain_id
                  else fulfilled none)
                is_batch
              ∙ ap (λ v. batch_payload viem td v td.domain.chain_id) at
              ∙ ap (λ c. batch_payload viem td (some wallet) c) on)
            ∙ asked o h)),
      ap (λ f. shown_with viem chain_id f user_calls) (ap last? order ∙ last?-append earlier last),
    )
      where
        asked :
            (r : Option (Option AuthorizationRequest))
            → simulation_payload_for viem (batch_request td r) ≡ fulfilled payload
            → payload_for_avok_batch viem td ≡ fulfilled payload
        asked none k = k
        asked (some a) k = k
