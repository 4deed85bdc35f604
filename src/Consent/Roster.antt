-- ===== src/Consent/Roster.antt =====
-- packages/core/src/auth-popup/sign/perform-sign.ts: a device that joined the wallet later.
use avok_js.Base.{
  ◌≡◌, refl, sym, ap, ◌∙◌, String, if◌then◌else◌, Bool, true, false, ◌&&◌, Option, none, some,
  Failure, Settled, fulfilled, rejected, ◌>>=◌, >>=-eq-fulfilled, fulfilled-injective,
}
use avok_js.Consent.Types.{
  AuthorizationRequest, Transaction, TypedData, SignConsentRequest, sign_message, sign_typed_data,
  sign_siwe, sign_authorization, sign_transaction, sign_send, sign_sponsored, sign_user_op,
}
use avok_js.Consent.Sign.{
  Crypto, WalletState, SignedAuthorization, SignResult, raw_transaction, composite, signed_delegate,
  is_roster_signer, account_authorization, perform_sign, signed_send, no_delegation,
}
use avok_js.Consent.Delegation.{account_authorization-delegate}

-- What is signed for an authorization that rides along delegates to its delegate, on its chain.
abbrev pub SignedFor : Option AuthorizationRequest → Option SignedAuthorization → Type 0
SignedFor none o = o ≡ none
SignedFor (some a) o =
    (s : SignedAuthorization) × (o ≡ some s)
    × (some s.address ≡ signed_delegate a)
    × (s.chain_id ≡ a.chain_id)

refused {ℓ κ} :
    {A : Type ℓ} {P : Type κ} (b : Bool) (f : Failure) (m : Settled A) {r : A}
    → b ≡ true
    → (if b then rejected f else m) ≡ fulfilled r
    → P
refused true f m e h = cc
refused false f m e h = cc

-- A test that needs a delegation, where there is none.
kept :
    (b : Bool) (m : Settled SignResult) {r : SignResult}
    → (if b && false then no_delegation else m) ≡ fulfilled r
    → m ≡ fulfilled r
kept true m h = h
kept false m h = h

module _ (crypto : Crypto) where
  -- The signed transaction: its bytes are serialized again with the signature of their hash.
  abbrev pub IsSignedTx : Transaction → SignResult → Type 0
  IsSignedTx tx r =
      (body raw : String) × (crypto.serialize tx none none ≡ fulfilled body)
      × (crypto.serialize tx none (some (crypto.sign_digest (crypto.keccak256 body)))
          ≡ fulfilled raw)
      × (r ≡ raw_transaction raw)

  -- What a roster device may answer a request with. A user operation's signature is wrapped with the hash of
  -- the device's key; a sponsored batch and the delegation that rides with it are signed plainly.
  abbrev pub RosterAnswer : WalletState → SignConsentRequest → SignResult → Type 0
  RosterAnswer state (sign_transaction tx) r = IsSignedTx tx r
  RosterAnswer state (sign_send tx none) r = IsSignedTx tx r
  RosterAnswer state (sign_user_op op chain_id version none) r =
      (digest : String) × (crypto.user_operation_hash op chain_id version ≡ fulfilled digest)
      × (r
          ≡ composite
              (crypto.wrap_signature
                (crypto.keccak256 (
                  crypto.encode_key 2 (crypto.keccak256 (crypto.encode_address state.evm_address))))
                (crypto.sign_digest digest))
              none)
  RosterAnswer state (sign_sponsored td a) r =
      (digest : String) × (signed : Option SignedAuthorization) × (crypto.hash_typed_data td
        ≡ fulfilled digest)
      × (r ≡ composite (crypto.sign_digest digest) signed)
      × SignedFor a signed
  RosterAnswer state _ r = ⊥

  signed_tx :
      (tx : Transaction) (r : SignResult)
      → ((crypto.serialize tx none none >>= λ body.
            crypto.serialize tx none (some (crypto.sign_digest (crypto.keccak256 body))))
          >>= λ raw. fulfilled (raw_transaction raw))
        ≡ fulfilled r
      → IsSignedTx tx r
  signed_tx tx r h =
      let (raw, a, b) =
        >>=-eq-fulfilled
          (crypto.serialize tx none none >>= λ body.
            crypto.serialize tx none (some (crypto.sign_digest (crypto.keccak256 body))))
          _ h in
      let (body, c, d) = >>=-eq-fulfilled (crypto.serialize tx none none) _ a in
      (body, raw, c, d, sym (fulfilled-injective b))

  signed_batch :
      (td : TypedData) (a : Option AuthorizationRequest) (o : Option SignedAuthorization)
      (r : SignResult)
      → SignedFor a o
      → ((crypto.hash_typed_data td >>= λ digest. fulfilled (crypto.sign_digest digest)) >>= λ s.
          fulfilled (composite s o))
        ≡ fulfilled r
      → (digest : String) × (signed : Option SignedAuthorization) × (crypto.hash_typed_data td
          ≡ fulfilled digest)
        × (r ≡ composite (crypto.sign_digest digest) signed)
        × SignedFor a signed
  signed_batch td a o r w h =
      let (s, b, c) =
        >>=-eq-fulfilled
          (crypto.hash_typed_data td >>= λ digest. fulfilled (crypto.sign_digest digest)) _ h in
      let (digest, d, e) = >>=-eq-fulfilled (crypto.hash_typed_data td) _ b in
      (
        digest,
        o,
        d,
        sym (ap (λ x. composite x o) (fulfilled-injective e) ∙ fulfilled-injective c),
        w,
      )

  -- Whatever a device whose own address is not the wallet's answers: the request was a transaction or a send
  -- without a delegation, which is signed plainly; or a user operation without a delegation, whose hash is
  -- signed and the signature wrapped with the hash of the device's key; or a sponsored batch, which is signed
  -- plainly, along with the delegation that rides with it, if any. It answers no message, no typed data, no
  -- sign-in, no authorization alone, and no delegation with a send or a user operation.
  pub roster_answers :
      (q : SignConsentRequest) (state : WalletState) (r : SignResult)
      → is_roster_signer state ≡ true
      → perform_sign crypto q state ≡ fulfilled r
      → RosterAnswer state q r
  unfolding perform_sign signed_send
  roster_answers (sign_message m) state r e h = refused _ _ _ e h
  roster_answers (sign_typed_data td) state r e h = refused _ _ _ e h
  roster_answers (sign_siwe p) state r e h = refused _ _ _ e h
  roster_answers (sign_authorization a) state r e h = refused _ _ _ e h
  roster_answers (sign_transaction tx) state r e h = signed_tx tx r h
  roster_answers (sign_send tx none) state r e h = signed_tx tx r h
  roster_answers (sign_send tx (some a)) state r e h = refused _ _ _ e h
  roster_answers (sign_sponsored td none) state r e h = signed_batch td none none r refl h
  roster_answers (sign_sponsored td (some a)) state r e h =
      let (o, b, c) =
        >>=-eq-fulfilled (account_authorization crypto a >>= λ s. fulfilled (some s)) _ h in
      let (s, d, f) = >>=-eq-fulfilled (account_authorization crypto a) _ b in
      let (delegate, chain) = account_authorization-delegate crypto a s d in
      signed_batch td (some a) o r (s, sym (fulfilled-injective f), delegate, chain) c
  roster_answers (sign_user_op op chain_id version none) state r e h =
      let k = kept (is_roster_signer state) _ h in
      let (digest, a, b) = >>=-eq-fulfilled (crypto.user_operation_hash op chain_id version) _ k in
      (
        digest,
        a,
        sym (fulfilled-injective b)
            ∙ ap
                (λ t.
                  composite
                    (if t
                      then crypto.wrap_signature
                          (crypto.keccak256 (
                            crypto.encode_key 2
                              (crypto.keccak256 (crypto.encode_address state.evm_address))))
                          (crypto.sign_digest digest)
                      else crypto.sign_digest digest)
                    none)
                e,
      )
  roster_answers (sign_user_op op chain_id version (some a)) state r e h =
      refused _ _ _ (ap (λ b. b && true) e) h
