-- ===== src/Tests/Wallet.antt =====
-- The theorems on handles and on the sandbox at concrete inputs.
use avok_js.Wallet.Enrollment.Proof.{IsProven, enrollment-IsProven}
use avok_js.Wallet.Enrollment.{
  Create, Enrollment, create_device_enrollment_request, enrollment_proof_message,
}
use avok_js.Base.{◌≡◌, refl, String, none, some, [], ◌∷◌, fulfilled, ◌>>=◌, true}
use avok_js.Wallet.Handle.{
  Hexes, self, roster, zeros, encode_self_handle, encode_roster_handle, decode_user_handle,
  handle_label, set_bytes,
}
use avok_js.Wallet.Handle.Laws.{handles_read_back}
use avok_js.Wallet.Sandbox.{
  Curve, WalletState, Callback, with_wallet_key, with_state, with_discovered_keys,
  DiscoveredPasskey, PasskeyRegistration, with_new_passkey_key, account_sign_message,
  derive_wallet_key, evm_account_from, wipe_secrets,
}
use avok_js.Wallet.Sandbox.Wiped.{Gesture, secrets_wiped}

abbrev hexes : Hexes
hexes = record {
  keccak256 = λ b. b;
  get_address = λ a. fulfilled "0xWallet";
  hex_to_bytes = λ a. zeros 20;
  bytes_to_hex = λ b. "0xwallet";
}

handles_read_back_example :
    ((encode_self_handle (zeros 32) >>= decode_user_handle hexes) ≡ fulfilled self)
    × ((encode_roster_handle hexes "0xwallet" (zeros 8) >>= decode_user_handle hexes)
        ≡ fulfilled (roster "0xWallet"))
handles_read_back_example =
    handles_read_back hexes "0xwallet" "0xWallet" (zeros 8) (zeros 32) refl
      (record { checksummed = refl; has_20_bytes = refl; printed = refl }) refl

abbrev curve : Curve
curve = record {
  derive_bits = λ b. fulfilled (7 ∷ b);
  address_of_key = λ k. fulfilled "0xDevice";
  sign_message = λ m k. fulfilled m;
  verify_message = λ a m p. fulfilled true;
}

abbrev signs_hello : Callback String
signs_hello a m = (account_sign_message curve a "hello" m, m)

abbrev device : WalletState
device = record {
  evm_address = "0xdevice";
  wallet_address = "0xWallet";
  credential_id = "credential";
  rp_id = "vault.example";
  created_at = "2026-01-01";
}

abbrev discovered : DiscoveredPasskey
discovered = record {
  credential_id = "credential";
  prf_output = 1 ∷ 2 ∷ [];
  user_handle = 1 ∷ zeros 32;
}

abbrev registered : PasskeyRegistration
registered = record { credential_id = "credential"; prf_output = 3 ∷ []; rp_id = "vault.example" }

secrets_wiped_example :
    Gesture curve
      (some "0xdevice")
      signs_hello
      (5 ∷ 6 ∷ [])
      []
      (with_wallet_key curve device (fulfilled (5 ∷ 6 ∷ [])) signs_hello [])
    × Gesture curve none
        (with_state curve hexes "now"
          (λ s. signs_hello)
          discovered
          (decode_user_handle hexes (1 ∷ zeros 32)))
        (1 ∷ 2 ∷ [])
        []
        (with_discovered_keys curve hexes "now" (fulfilled discovered) (λ s. signs_hello) [])
    × Gesture curve none signs_hello
        (3 ∷ [])
        []
        (with_new_passkey_key curve (fulfilled registered) (λ r. signs_hello) [])
secrets_wiped_example =
    secrets_wiped curve hexes "now" [] device (5 ∷ 6 ∷ []) signs_hello discovered (λ s. signs_hello)
      registered (λ r. signs_hello)

abbrev new_passkey : Create
new_passkey label handle = fulfilled registered

abbrev enrolled : Enrollment
enrolled = record {
  request = record {
    address = "0xDevice";
    wallet_address = "0xwallet";
    proof = "Avok device enrollment v1\nwallet: 0xWallet";
  };
  state = record {
    evm_address = "0xDevice";
    wallet_address = "0xwallet";
    credential_id = "credential";
    rp_id = "vault.example";
    created_at = "now";
  };
}

enrollment-IsProven_example :
    IsProven curve hexes (λ k a m s e f. refl) new_passkey "App" "0xwallet" (zeros 8) enrolled
unfolding create_device_enrollment_request enrollment_proof_message encode_roster_handle
    with_new_passkey_key derive_wallet_key evm_account_from handle_label set_bytes wipe_secrets
enrollment-IsProven_example =
    enrollment-IsProven curve hexes (λ k a m s e f. refl) new_passkey "App" "0xwallet" (zeros 8)
      "now" [] enrolled refl
