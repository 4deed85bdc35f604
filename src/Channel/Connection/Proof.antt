-- ===== src/Channel/Connection/Proof.antt =====
-- packages/core/src/channel/authorize-proof.ts: the proof in the reply to a connect.
use avok_js.Base.{
  ◌≡◌, refl, sym, ap, ◌∙◌, subst, String, Bool, true, some, Value, Settled, fulfilled, rejected,
  ◌>>=◌, >>=-eq-fulfilled, member, null, undefined, fulfilled-injective, ===_iff, str, equals_text,
  bool, num, arr, obj, Failure, guard-eq-fulfilled,
}
use avok_js.Channel.Storage.{StorageAdapter, Json, save_account, account_key}
use avok_js.Channel.Connection.{
  Verifier, Connection, proven_account, keep_proven, kept_in, connect, verify_authorize_proof,
  authorize_challenge, challenge_text, or_false, verified_account,
}

module _ (json : Json) (storage : StorageAdapter) (v : Verifier) (origin_point : String) where
  abbrev C : Type 0
  C = Connection json storage v origin_point

  -- The reply's proof signs the challenge of this nonce at this origin, for the account's own address.
  pub record IsProven (nonce : String) (reply : Settled Value) (account : Value) : Type 0 where
    pub origin : String
    pub origin_read : v.url_origin origin_point ≡ fulfilled origin
    pub result : Value
    pub answered : reply ≡ fulfilled result
    pub kind_read : member "kind" result ≡ fulfilled (str "authorize")
    pub account_read : member "account" result ≡ fulfilled account
    pub address : Value
    pub address_read : member "evmAddress" account ≡ fulfilled address
    pub proof : Value
    pub proof_read : member "proof" result ≡ fulfilled proof
    pub is_signed : v.verify_message address (challenge_text nonce origin) proof ≡ fulfilled true

  or_false-true : (m : Settled Bool) → or_false v m ≡ true → m ≡ fulfilled true
  or_false-true (fulfilled b) h = ap fulfilled h
  or_false-true (rejected e) h = cc

  equals_text_str : (w : Value) (s : String) → equals_text w s ≡ true → w ≡ str s
  equals_text_str undefined s h = cc
  equals_text_str null s h = cc
  equals_text_str (bool b) s h = cc
  equals_text_str (num n) s h = cc
  equals_text_str (str t) s h = ap str ((===_iff t s).0 h)
  equals_text_str (arr vs) s h = cc
  equals_text_str (obj ps) s h = cc

  proof_checked :
      (address : Value) (nonce : String) (proof : Value)
      → verify_authorize_proof v address nonce origin_point proof ≡ true
      → (origin : String) × (v.url_origin origin_point ≡ fulfilled origin)
        × (v.verify_message address (challenge_text nonce origin) proof ≡ fulfilled true)
  unfolding verify_authorize_proof authorize_challenge
  proof_checked address nonce proof h =
      let (m, read, checks) =
        >>=-eq-fulfilled (v.url_origin origin_point >>= λ o. fulfilled (challenge_text nonce o)) _
          (or_false-true _ h) in
      let (origin, e, f) = >>=-eq-fulfilled (v.url_origin origin_point) _ read in
      (
        origin,
        e,
        subst (λ t. v.verify_message address t proof ≡ fulfilled true) (sym (fulfilled-injective f))
            checks,
      )

  verified_account-IsProven :
      (nonce : String) (reply : Settled Value) (result account : Value)
      → reply ≡ fulfilled result
      → member "kind" result ≡ fulfilled (str "authorize")
      → verified_account json storage v origin_point nonce result ≡ fulfilled account
      → IsProven nonce reply account
  verified_account-IsProven nonce reply result account answered kind h =
      let (a, account_read, h1) = >>=-eq-fulfilled (member "account" result) _ h in
      let (address, address_read, h2) = >>=-eq-fulfilled (member "evmAddress" a) _ h1 in
      let (proof, proof_read, h3) = >>=-eq-fulfilled (member "proof" result) _ h2 in
      let (b, same) = guard-eq-fulfilled _ (fulfilled a) _ h3 in
      let (origin, origin_read, is_signed) = proof_checked address nonce proof b in
      record {
        origin = origin;
        origin_read = origin_read;
        result = result;
        answered = answered;
        kind_read = kind;
        account_read = account_read ∙ same;
        address = address;
        address_read =
            subst (λ x. member "evmAddress" x ≡ fulfilled address) (fulfilled-injective same)
              address_read;
        proof = proof;
        proof_read = proof_read;
        is_signed = is_signed;
      }

  proven_account-IsProven :
      (nonce : String) (reply : Settled Value) (account : Value)
      → (reply >>= proven_account json storage v origin_point nonce) ≡ fulfilled account
      → IsProven nonce reply account
  unfolding proven_account
  proven_account-IsProven nonce reply account h =
      let (result, answered, h1) = >>=-eq-fulfilled reply _ h in
      let (kind, kind_read, h2) = >>=-eq-fulfilled (member "kind" result) _ h1 in
      let (e, verified) = guard-eq-fulfilled (equals_text kind "authorize") _ _ h2 in
      verified_account-IsProven nonce reply result account answered
        (kind_read ∙ ap fulfilled (equals_text_str kind "authorize" e)) verified

  proven_account-eq :
      (nonce : String) (reply : Settled Value) (account : Value)
      → IsProven nonce reply account
      → (reply >>= proven_account json storage v origin_point nonce) ≡ fulfilled account
  unfolding proven_account verify_authorize_proof authorize_challenge
  proven_account-eq nonce reply account p = rw p.answered (
      rw p.kind_read (
        rw p.account_read
          (rw p.address_read (rw p.proof_read (rw p.origin_read (rw p.is_signed refl))))))

  -- After a connect.
  pub data Connected (nonce : String) (reply : Settled Value) (c : C)
      : Settled Value × C → Type 0 where
    refused :
        (e : Failure)
        → ((account : Value) → ¬ (IsProven nonce reply account))
        → Connected nonce reply c (rejected e, c)
    unsaved :
        (e : Failure) (account : Value)
        → IsProven nonce reply account
        → storage.set account_key (json.stringify account) c.store ≡ rejected e
        → Connected nonce reply c (rejected e, c)
    accepted :
        (account : Value) (c' : C)
        → IsProven nonce reply account
        → c'.current ≡ account
        → storage.get account_key c'.store ≡ some (json.stringify account)
        → Connected nonce reply c (fulfilled account, c')

  kept_in-Connected :
      (nonce : String) (reply : Settled Value) (c : C) (account : Value) (r : Settled storage.Store)
      → IsProven nonce reply account
      → storage.set account_key (json.stringify account) c.store ≡ r
      → Connected nonce reply c (kept_in json storage v origin_point c account r)
  kept_in-Connected nonce reply c account (fulfilled store) p h =
      accepted account _ p refl
        (storage.get-set account_key (json.stringify account) c.store store h)
  kept_in-Connected nonce reply c account (rejected e) p h = unsaved e account p h

  keep_proven-Connected :
      (nonce : String) (reply : Settled Value) (c : C) (m : Settled Value)
      → m ≡ (reply >>= proven_account json storage v origin_point nonce)
      → Connected nonce reply c (keep_proven json storage v origin_point c m)
  unfolding save_account
  keep_proven-Connected nonce reply c (rejected e) p =
      refused e
        (λ account is_proven. let h = p ∙ proven_account-eq nonce reply account is_proven in cc)
  keep_proven-Connected nonce reply c (fulfilled account) p =
      kept_in-Connected nonce reply c account _
        (proven_account-IsProven nonce reply account (sym p)) refl

  -- Whatever the channel settles with, a connect rejects and changes neither the memory nor the store, and
  -- then no account of the reply is proven, or the storage throws on writing the one that is; or it returns the
  -- account that the reply proves, and keeps it in both. An account is proven where the verifier accepts the reply's proof for that account's address,
  -- over the challenge of this connect's nonce and this origin.
  pub connect_proven :
      (nonce : String) (reply : Settled Value) (c : C)
      → Connected nonce reply c (connect json storage v origin_point nonce reply c)
  unfolding connect
  connect_proven nonce reply c = keep_proven-Connected nonce reply c _ refl
