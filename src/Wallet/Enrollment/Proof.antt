-- ===== src/Wallet/Enrollment/Proof.antt =====
-- A device's request to join a wallet proves its key for that wallet.
use text.Mathlib.TextLemmas.{append_cancel_left}
use avok_js.Base.{
  String, ◌≡◌, refl, ap, ◌∙◌, subst, true, Option, none, List, Settled, fulfilled, rejected, ◌>>=◌,
  >>=-eq-fulfilled, fulfilled-injective, ℕ,
}
use avok_js.Wallet.Handle.{Hexes, encode_roster_handle, handle_label}
use avok_js.Wallet.Sandbox.{
  Curve, Memory, buffer, SandboxAccount, Callback, PasskeyRegistration, with_new_passkey_key,
  account_sign_message,
}
use avok_js.Wallet.Sandbox.Wiped.{Gesture, underived, refused, ran, sandboxed-Gesture}
use avok_js.Wallet.Enrollment.{
  Create, Enrollment, enrollment_text, enrollment_proof_message, with_handle, prove,
  create_device_enrollment_request, verify_device_enrollment_request,
}

-- What is relied on of signatures: one that a key makes verifies at the key's address.
abbrev pub Verifies : Curve → Type 0
Verifies curve =
    (key : List ℕ) (address message signature : String)
    → curve.address_of_key key ≡ fulfilled address
    → curve.sign_message message key ≡ fulfilled signature
    → curve.verify_message address message signature ≡ fulfilled true

-- What a callback that answered was given.
record Answered {ℓ} {T : Type ℓ} (curve : Curve) (prf : List ℕ) (fn : Callback T) (t : T)
    : Type ℓ where
  account : SandboxAccount
  live : Memory
  derived : curve.derive_bits prf ≡ fulfilled (buffer account.key live)
  own_key : curve.address_of_key (buffer account.key live) ≡ fulfilled account.address
  answers : (fn account live).0 ≡ fulfilled t

ran_callback {ℓ} :
    {T : Type ℓ} (curve : Curve) (expected : Option String) (fn : Callback T) (prf : List ℕ)
    (m : Memory) {p : Settled T × Memory} {t : T}
    → Gesture curve expected fn prf m p
    → p.0 ≡ fulfilled t
    → Answered curve prf fn t
ran_callback curve expected fn prf m (underived e m' d w w') h = cc
ran_callback curve expected fn prf m (refused e key live m' d r w w') h = cc
ran_callback curve expected fn prf m (ran account live m' at d own ok w w') h = record {
  account = account;
  live = live;
  derived = d;
  own_key = own;
  answers = h;
}

module _ (curve : Curve) (h : Hexes) (lawful : Verifies curve) where
  -- The passkey was made for this wallet, under its handle and label; its PRF's output derives the key whose
  -- address the request and the state name; both are for the wallet, and the request verifies.
  pub record IsProven (create : Create) (network_name wallet_address : String) (random : List ℕ)
      (e : Enrollment) : Type 0 where
    pub handle : List ℕ
    pub for_handle : encode_roster_handle h wallet_address random ≡ fulfilled handle
    pub registration : PasskeyRegistration
    pub registered : create (handle_label h network_name handle) handle ≡ fulfilled registration
    pub key : List ℕ
    pub derived : curve.derive_bits registration.prf_output ≡ fulfilled key
    pub key_address : curve.address_of_key key ≡ fulfilled e.request.address
    pub own_address : e.state.evm_address ≡ e.request.address
    pub own_credential : e.state.credential_id ≡ registration.credential_id
    pub for_wallet : e.request.wallet_address ≡ wallet_address
    pub joins : e.state.wallet_address ≡ wallet_address
    pub verifies : verify_device_enrollment_request curve h e.request ≡ fulfilled true

  module _ (create : Create) (network_name wallet_address : String) (random : List ℕ)
      (now : String) where
    prove-IsProven :
        (handle : List ℕ) (reg : PasskeyRegistration) (e : Enrollment)
        → encode_roster_handle h wallet_address random ≡ fulfilled handle
        → create (handle_label h network_name handle) handle ≡ fulfilled reg
        → Answered curve reg.prf_output (prove curve h now wallet_address reg) e
        → IsProven create network_name wallet_address random e
    unfolding verify_device_enrollment_request
    prove-IsProven handle reg e encoded created a =
        let (message, made, r) =
          >>=-eq-fulfilled (enrollment_proof_message curve h wallet_address) _ a.answers in
        let (proof, signed, l) =
          >>=-eq-fulfilled (account_sign_message curve a.account message a.live) _ r in
        subst (IsProven create network_name wallet_address random) (fulfilled-injective l) (record {
          handle = handle;
          for_handle = encoded;
          registration = reg;
          registered = created;
          key = buffer a.account.key a.live;
          derived = a.derived;
          key_address = a.own_key;
          own_address = refl;
          own_credential = refl;
          for_wallet = refl;
          joins = refl;
          verifies =
              ap
                (λ (m : Settled String).
                  m >>= λ text. curve.verify_message a.account.address text proof)
                made
              ∙ lawful (buffer a.account.key a.live) a.account.address message proof a.own_key
                  signed;
        })

    registered-IsProven :
        (handle : List ℕ) (answer : Settled PasskeyRegistration) (m : Memory) (e : Enrollment)
        → encode_roster_handle h wallet_address random ≡ fulfilled handle
        → create (handle_label h network_name handle) handle ≡ answer
        → (with_new_passkey_key curve answer (prove curve h now wallet_address) m).0 ≡ fulfilled e
        → IsProven create network_name wallet_address random e
    unfolding with_new_passkey_key
    registered-IsProven handle (rejected x) m e encoded created k = cc
    registered-IsProven handle (fulfilled reg) m e encoded created k =
        prove-IsProven handle reg e encoded created (
          ran_callback curve none _ reg.prf_output m
            (sandboxed-Gesture curve none (prove curve h now wallet_address reg) reg.prf_output m)
            k)

  -- The request that a new device makes, if it makes one, is for the wallet named and for the address of the key
  -- that is derived from the PRF's output of the passkey that the device made for it, under the wallet's handle
  -- and its label; the state keeps that address and that passkey, and the existing device accepts the proof;
  -- where what a key signs verifies at that key's address.
  pub enrollment-IsProven :
      (create : Create) (network_name wallet_address : String) (random : List ℕ) (now : String)
      (m : Memory) (e : Enrollment)
      → (create_device_enrollment_request curve h create network_name wallet_address random now m).0
        ≡ fulfilled e
      → IsProven create network_name wallet_address random e
  unfolding create_device_enrollment_request
  enrollment-IsProven create network_name wallet_address random now m e k =
      by_handle (encode_roster_handle h wallet_address random) refl k
    where
      by_handle :
          (r : Settled (List ℕ))
          → encode_roster_handle h wallet_address random ≡ r
          → (with_handle curve h r
              (λ handle.
                with_new_passkey_key curve
                  (create (handle_label h network_name handle) handle)
                  (prove curve h now wallet_address))
              m).0
            ≡ fulfilled e
          → IsProven create network_name wallet_address random e
      by_handle (rejected x) encoded l = cc
      by_handle (fulfilled handle) encoded l =
          registered-IsProven create network_name wallet_address random now handle _ m e encoded
            refl l

-- The text that is signed for one wallet is that of no other.
pub enrollment_text-injective : (a b : String) → enrollment_text a ≡ enrollment_text b → a ≡ b
enrollment_text-injective a b e = append_cancel_left "Avok device enrollment v1\nwallet: " a b e
