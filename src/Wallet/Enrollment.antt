-- ===== src/Wallet/Enrollment.antt =====
-- packages/core/src/wallet/wallet.ts, device-enrollment.ts and signing.ts: a wallet is created, a device asks to
-- join one, and a device signs. The passkey's answers, the random bytes and the time are arguments.
pub mod Proof
use Prim.Native.String
use avok_js.Base.{ℕ, String, Bool, List, Settled, fulfilled, rejected, ◌>>=◌}
use avok_js.Wallet.Handle.{Hexes, handle_label, encode_self_handle, encode_roster_handle}
use avok_js.Wallet.Sandbox.{
  Curve, Memory, WalletState, SandboxAccount, Callback, PasskeyRegistration, account_sign_message,
  with_new_passkey_key, with_wallet_key,
}

pub record BirthResult : Type 0 where
  pub account : String
  pub state : WalletState

pub record DeviceEnrollmentRequest : Type 0 where
  pub address : String
  pub wallet_address : String
  pub proof : String

pub record Enrollment : Type 0 where
  pub request : DeviceEnrollmentRequest
  pub state : WalletState

-- The passkey's `create`, for a label and a user handle.
abbrev pub Create : Type 0
Create = String → List ℕ → Settled PasskeyRegistration

abbrev pub state_for : (now address wallet_address : String) → PasskeyRegistration → WalletState
state_for now address wallet_address reg = record {
  evm_address = address;
  wallet_address = wallet_address;
  credential_id = reg.credential_id;
  rp_id = reg.rp_id;
  created_at = now;
}

abbrev pub enrollment_text : (address : String) → String
enrollment_text address = String.◌++◌ "Avok device enrollment v1\nwallet: " address

module _ (curve : Curve) (h : Hexes) where
  unfoldable pub enrollment_proof_message : (wallet_address : String) → Settled String
  enrollment_proof_message wallet_address =
      h.get_address wallet_address >>= λ address. fulfilled (enrollment_text address)

  -- A handle that cannot be made ends the call before the passkey is asked.
  abbrev pub with_handle {ℓ} :
      {T : Type ℓ}
      → Settled (List ℕ)
      → (List ℕ → Memory → Settled T × Memory)
      → Memory
      → Settled T × Memory
  with_handle (rejected e) k m = (rejected e, m)
  with_handle (fulfilled handle) k m = k handle m

  abbrev pub birth : (now : String) → PasskeyRegistration → Callback BirthResult
  birth now reg account m = (
    fulfilled (record {
      account = account.address;
      state = state_for now account.address account.address reg;
    }),
    m,
  )

  unfoldable pub create_wallet :
      Create
      → (network_name : String) → (random : List ℕ) → (now : String) → Memory
      → Settled BirthResult × Memory
  unfolding encode_self_handle handle_label with_new_passkey_key
  create_wallet create network_name random now = with_handle (encode_self_handle random) (λ handle.
      with_new_passkey_key curve (create (handle_label h network_name handle) handle) (birth now))

  abbrev pub proven :
      (now wallet_address : String) → PasskeyRegistration → SandboxAccount → String → Enrollment
  proven now wallet_address reg account proof = record {
    request = record { address = account.address; wallet_address = wallet_address; proof = proof };
    state = state_for now account.address wallet_address reg;
  }

  abbrev pub prove : (now wallet_address : String) → PasskeyRegistration → Callback Enrollment
  prove now wallet_address reg account m = (
    enrollment_proof_message wallet_address >>= λ message.
        account_sign_message curve account message m >>= λ proof.
        fulfilled (proven now wallet_address reg account proof),
    m,
  )

  unfoldable pub create_device_enrollment_request :
      Create
      → (network_name wallet_address : String) → (random : List ℕ) → (now : String) → Memory
      → Settled Enrollment × Memory
  unfolding encode_roster_handle handle_label with_new_passkey_key enrollment_proof_message
  create_device_enrollment_request create network_name wallet_address random now =
      with_handle (encode_roster_handle h wallet_address random) (λ handle.
        with_new_passkey_key curve (create (handle_label h network_name handle) handle)
          (prove now wallet_address))

  unfoldable pub verify_device_enrollment_request : DeviceEnrollmentRequest → Settled Bool
  unfolding enrollment_proof_message
  verify_device_enrollment_request request =
      enrollment_proof_message request.wallet_address >>= λ message.
      curve.verify_message request.address message request.proof

  -- `signMessage`, with what the passkey's `authenticate` settles with.
  unfoldable pub sign_message :
      WalletState → Settled (List ℕ) → String → Memory → Settled String × Memory
  unfolding with_wallet_key
  sign_message state prf message =
      with_wallet_key curve state prf
        (λ account m. (account_sign_message curve account message m, m))

  abbrev pub with_message : String → Settled String × Memory → Settled (String × String) × Memory
  with_message message (r, m) = (r >>= λ signature. fulfilled (message, signature), m)

  -- `signSiwe`: viem's message is made for the state's own address.
  unfoldable pub sign_siwe :
      (create_siwe_message : String → Settled String)
      → WalletState
      → Settled (List ℕ)
      → Memory
      → Settled (String × String) × Memory
  unfolding sign_message
  sign_siwe create_siwe_message state prf m = signed (create_siwe_message state.evm_address)
    where
      signed : Settled String → Settled (String × String) × Memory
      signed (rejected e) = (rejected e, m)
      signed (fulfilled message) = with_message message (sign_message state prf message m)
