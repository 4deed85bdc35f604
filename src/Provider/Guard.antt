-- ===== src/Provider/Guard.antt =====
-- What a request may make the wallet do.
use avok_js.Provider.Acts.{Acts, nothing_done, check-Acts, act-Acts}
use avok_js.Base.{
  String, ◌===◌, ===_iff, to_lower_case, ◌≡◌, ◌≢◌, refl, sym, ap, ◌∙◌, ◌⊎◌, inl, inr, Bool, true,
  false, if◌then◌else◌, Option, none, some, List, [], ◌∷◌, All, Value, undefined, null, str, num,
  bool, arr, obj, Settled, member, optional_member,
}
use avok_js.Registry.{lookup}
use avok_js.Client.Send.{Receipt}
use avok_js.Provider.Types.{
  Reply, answered, refused, log_in, sign_message, sign_typed_data, send, ask_status,
  emit_chain_changed, Action, Answer, Runtime, Run, act, unauthorized, invalid_params, answer,
  accounts, from_settled, ◌>>=◌,
}
use avok_js.Provider.Methods.{
  Js, Wallet, param, require_active_address, is_active, known_receipt, dispatch,
  eth_request_accounts, personal_sign, eth_sign_typed_data, wallet_send_calls, eth_send_transaction,
  wallet_get_calls_status, wallet_switch_ethereum_chain, message_of, payload_of, chain_or_active,
  call_values, to_calls, to_call, send_calls_opts, plain_opts, asked_chains,
}

-- The value is the address of the wallet's account, up to the case of letters.
abbrev pub NamesAccount : Option String → Value → Type 0
NamesAccount account claimed =
    (a : String) × (s : String) × (account ≡ some a)
    × (a ≢ "")
    × (claimed ≡ str s)
    × (to_lower_case s ≡ to_lower_case a)

-- What a request of this method with these parameters may make the wallet do.
abbrev pub Allowed : Runtime → String → List Value → Action → Type 0
Allowed rt method params log_in = (method ≡ "eth_requestAccounts") × (rt.account ≡ none)
Allowed rt method params (sign_message m) =
    (method ≡ "personal_sign") × NamesAccount rt.account (param params 1)
Allowed rt method params (sign_typed_data v) =
    (method ≡ "eth_signTypedData_v4") × NamesAccount rt.account (param params 0)
Allowed rt method params (send calls opts) =
    (method ≡ "wallet_sendCalls") ⊎ (method ≡ "eth_sendTransaction")
Allowed rt method params (ask_status r) =
    (method ≡ "wallet_getCallsStatus")
    × ((id : String) × (param params 0 ≡ str id) × (lookup id rt.calls ≡ some r))
Allowed rt method params (emit_chain_changed v) = method ≡ "wallet_switchEthereumChain"

===_differs : {a b : String} → (a === b) ≡ false → a ≢ b
===_differs {a} {b} e z = false_absurd (sym e ∙ (===_iff a b).1 z)
  where
    false_absurd : false ≡ true → ⊥
    false_absurd h = cc

active_address :
    (account : Option String) (claimed : Value) {u : Unit {0}}
    → require_active_address account claimed ≡ answered u
    → NamesAccount account claimed
unfolding require_active_address
active_address none claimed h = cc
active_address (some a) claimed {u} h = named (a === "") refl claimed h
  where
    named :
        (b : Bool)
        → (a === "") ≡ b
        → (v : Value)
        → (if b
            then refused unauthorized "No active account"
            else if is_active a v
            then answered tt
            else refused unauthorized "Not authorized to sign")
          ≡ answered u
        → NamesAccount (some a) v
    named true e v k = cc
    named false e (str s) k = matched (to_lower_case s === to_lower_case a) refl k
      where
        matched :
            (c : Bool)
            → (to_lower_case s === to_lower_case a) ≡ c
            → (if c then answered tt else refused unauthorized "Not authorized to sign")
              ≡ answered u
            → NamesAccount (some a) (str s)
        matched true g l = (a, s, refl, λ z. ===_differs e z, refl, (===_iff _ _).0 g)
        matched false g l = cc
    named false e undefined k = cc
    named false e null k = cc
    named false e (num n) k = cc
    named false e (bool b) k = cc
    named false e (arr vs) k = cc
    named false e (obj ps) k = cc

answered-injective {ℓ} : {A : Type ℓ} {a b : A} → answered a ≡ answered b → a ≡ b
answered-injective h = cc

known_in :
    (rt : Runtime) (js : Js) (w : Wallet) (v : Value) (known : String × Receipt)
    → known_receipt js w rt v ≡ answered known
    → (id : String) × (v ≡ str id) × (lookup id rt.calls ≡ some known.1)
known_in rt js w (str id) known h = found (lookup id rt.calls) refl h
  where
    found :
        (o : Option Receipt)
        → lookup id rt.calls ≡ o
        → (elim o as (λ _. Reply (String × Receipt)) [
          | none ↦ refused invalid_params "Unknown bundle id"
          | some r ↦ answered (id, r)
        ])
          ≡ answered known
        → (j : String) × (str id ≡ str j) × (lookup j rt.calls ≡ some known.1)
    found none e k = cc
    found (some r) e k =
        let same : (id, r) ≡ known = answered-injective k in
        (id, refl, e ∙ ap (λ (x : String × Receipt). some x.1) same)
known_in rt js w undefined known h = cc
known_in rt js w null known h = cc
known_in rt js w (num n) known h = cc
known_in rt js w (bool b) known h = cc
known_in rt js w (arr vs) known h = cc
known_in rt js w (obj ps) known h = cc

module _ (js : Js) (w : Wallet) (rt : Runtime) (method : String) (params : List Value) where
  abbrev AllAllowed : Run Answer → Type 0
  AllAllowed = Acts (Allowed rt method params)

  if_same-AllAllowed :
      (name : String) (m n : Run Answer)
      → (method ≡ name → AllAllowed m)
      → AllAllowed n
      → AllAllowed (if method === name then m else n)
  if_same-AllAllowed name m n h k = chosen (method === name) refl
    where
      chosen : (b : Bool) → (method === name) ≡ b → AllAllowed (if b then m else n)
      chosen true e = h ((===_iff method name).0 e)
      chosen false e = k

  accounts-AllAllowed : method ≡ "eth_requestAccounts" → AllAllowed (eth_request_accounts js w rt)
  accounts-AllAllowed e = with_account rt.account refl
    where
      logs_in :
          rt.account ≡ none
          → (o : Option (Settled String))
          → AllAllowed (elim o [
            | none ↦ answer rt (accounts [])
            | some login ↦
                act rt log_in login
                  (λ a. answer (record rt { account = some a }) (accounts (a ∷ [])))
          ])
      logs_in f none = nothing_done _ _ refl
      logs_in f (some login) = act-Acts _ rt log_in login _ (e, f) (λ a. nothing_done _ _ refl)

      with_account :
          (o : Option String)
          → rt.account ≡ o
          → AllAllowed (elim o [
            | some a ↦ answer rt (accounts (a ∷ []))
            | none ↦ elim w.log_in [
              | none ↦ answer rt (accounts [])
              | some login ↦
                  act rt log_in login
                    (λ a. answer (record rt { account = some a }) (accounts (a ∷ [])))
            ]
          ])
      with_account (some a) f = nothing_done _ _ refl
      with_account none f = logs_in f w.log_in

  personal_sign-AllAllowed : method ≡ "personal_sign" → AllAllowed (personal_sign js w rt params)
  personal_sign-AllAllowed e =
      check-Acts _ rt (require_active_address rt.account (param params 1)) _ (λ u h.
        check-Acts _ rt (message_of js w (param params 0)) _ (λ m k.
          act-Acts _ rt (sign_message m) (w.sign_message m) _
            (e, active_address rt.account (param params 1) h) (λ s. nothing_done _ _ refl)))

  typed_data-AllAllowed :
      method ≡ "eth_signTypedData_v4" → AllAllowed (eth_sign_typed_data js w rt params)
  typed_data-AllAllowed e =
      check-Acts _ rt (require_active_address rt.account (param params 0)) _ (λ u h.
        check-Acts _ rt (payload_of js w (param params 1)) _ (λ v k.
          act-Acts _ rt (sign_typed_data v) (w.sign_typed_data v) _
            (e, active_address rt.account (param params 0) h) (λ s. nothing_done _ _ refl)))

  send_calls-AllAllowed :
      method ≡ "wallet_sendCalls" → AllAllowed (wallet_send_calls js w rt params)
  send_calls-AllAllowed e =
      check-Acts _ rt (from_settled (member "chainId" (param params 0)) >>= chain_or_active js w rt)
        _
        (λ n h.
          check-Acts _ rt
            (call_values js w (optional_member "calls" (param params 0)) >>= to_calls js w) _
            (λ cs k.
              act-Acts _ rt (send cs (send_calls_opts js w (param params 0) n)) (w.send cs _) _
                (inl e) (λ r. nothing_done _ _ refl)))

  transaction-AllAllowed :
      method ≡ "eth_sendTransaction" → AllAllowed (eth_send_transaction js w rt params)
  transaction-AllAllowed e =
      check-Acts _ rt (from_settled (member "chainId" (param params 0)) >>= chain_or_active js w rt)
        _
        (λ n h. check-Acts _ rt (to_call js w (param params 0)) _ (λ c k.
          act-Acts _ rt (send (c ∷ []) (plain_opts js w n)) (w.send (c ∷ []) _) _ (inr e)
            (λ r. nothing_done _ _ refl)))

  status-AllAllowed :
      method ≡ "wallet_getCallsStatus" → AllAllowed (wallet_get_calls_status js w rt params)
  status-AllAllowed e = check-Acts _ rt (known_receipt js w rt (param params 0)) _ (λ known h.
      act-Acts _ rt (ask_status known.1) (w.status known.1) _
        (e, known_in rt js w (param params 0) known h) (λ r. nothing_done _ _ refl))

  switch-AllAllowed :
      method ≡ "wallet_switchEthereumChain"
      → AllAllowed (wallet_switch_ethereum_chain js w rt params)
  switch-AllAllowed e = check-Acts _ rt (from_settled (member "chainId" (param params 0))) _ (λ v h.
      check-Acts _ rt (from_settled (js.hex_to_number v)) _ (λ n k. record { each = (e, tt) }))

  dispatch-AllAllowed : AllAllowed (dispatch js w rt method params)
  unfolding dispatch
  dispatch-AllAllowed = if_same-AllAllowed _ _ _ accounts-AllAllowed (
      if_same-AllAllowed _ _ _ (λ e. nothing_done _ _ refl)
        (if_same-AllAllowed _ _ _ (λ e. nothing_done _ _ refl)
          (if_same-AllAllowed _ _ _ personal_sign-AllAllowed (
            if_same-AllAllowed _ _ _ typed_data-AllAllowed (
              if_same-AllAllowed _ _ _ send_calls-AllAllowed (
                if_same-AllAllowed _ _ _
                  (λ e.
                    check-Acts _ rt (asked_chains js w rt (param params 1)) _
                      (λ ids h. nothing_done _ _ refl))
                  (if_same-AllAllowed _ _ _ status-AllAllowed (
                    if_same-AllAllowed _ _ _ transaction-AllAllowed
                      (if_same-AllAllowed _ _ _ switch-AllAllowed (nothing_done _ _ refl))))))))))

  -- Whatever the request: the wallet signs a message or typed data only where the request names the address of
  -- the account that is active, logs in only for `eth_requestAccounts` and without an account, sends only for the
  -- two methods that send, and asks only for the status of a receipt that it keeps under the identifier given.
  pub wallet_acts_as_asked : All (Allowed rt method params) (dispatch js w rt method params).did
  wallet_acts_as_asked = dispatch-AllAllowed.each
