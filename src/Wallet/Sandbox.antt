-- ===== src/Wallet/Sandbox.antt =====
-- packages/core/src/wallet/sandbox.ts, with crypto/container.ts, crypto/derive-wallet.ts, wallet.ts and
-- device-enrollment.ts: the functions that give a callback the key of one gesture and wipe it. The memory is
-- the list of the buffers that were allocated; an account captures its key by the number of a buffer.
pub mod Buffers
pub mod Wiped
use Prim.Native.String
use avok_js.Base.{
  ℕ, zero, suc, String, ◌===◌, to_lower_case, if◌then◌else◌, Bool, true, ◌||◌, Option, none, some,
  ◌or_else◌, List, [], ◌∷◌, ◌++◌, length, get_elem?, map, Settled, fulfilled, rejected, ◌>>=◌,
  throw,
}
use avok_js.Wallet.Handle.{Hexes, UserHandle, self, roster, decode_user_handle}

-- HKDF on the PRF's output with the fixed salt and info, the address of a key, a signature by the bytes of
-- a key, and the verification of one.
pub record Curve : Type 0 where
  pub derive_bits : List ℕ → Settled (List ℕ)
  pub address_of_key : List ℕ → Settled String
  pub sign_message : (message : String) → (key : List ℕ) → Settled String
  pub verify_message : (address message proof : String) → Settled Bool

abbrev pub Memory : Type 0
Memory = List (List ℕ)

abbrev pub buffer : ℕ → Memory → List ℕ
buffer i m = get_elem? m i or_else []

-- `buffer.fill(0)`
abbrev pub fill : ℕ → Memory → Memory
fill i [] = []
fill zero (b ∷ m) = map (λ _. 0) b ∷ m
fill (suc i) (b ∷ m) = b ∷ fill i m

pub record WalletState : Type 0 where
  pub evm_address : String
  pub wallet_address : String
  pub credential_id : String
  pub rp_id : String
  pub created_at : String

-- The account that a callback is given.
pub record SandboxAccount : Type 0 where
  pub address : String
  pub key : ℕ

-- A callback signs, and may do anything else to the memory.
abbrev pub Callback {ℓ} : Type ℓ → Type ℓ
Callback T = SandboxAccount → Memory → Settled T × Memory

-- `if (!c?.key || c.key.length === 0) throw`
unfoldable pub produce_evm_key : List ℕ → Settled (List ℕ)
produce_evm_key [] = throw "Secret container has no key"
produce_evm_key (b ∷ key) = fulfilled (b ∷ key)

pub record DiscoveredPasskey : Type 0 where
  pub credential_id : String
  pub prf_output : List ℕ
  pub user_handle : List ℕ

abbrev pub wallet_of : UserHandle → String → String
wallet_of self own = own
wallet_of (roster wallet_address) own = wallet_address

pub record PasskeyRegistration : Type 0 where
  pub credential_id : String
  pub prf_output : List ℕ
  pub rp_id : String

abbrev pub discovered_state :
    (now : String) → DiscoveredPasskey → SandboxAccount → UserHandle → WalletState
discovered_state now d account handle = record {
  evm_address = account.address;
  wallet_address = wallet_of handle account.address;
  credential_id = d.credential_id;
  rp_id = "";
  created_at = now;
}

abbrev pub address_mismatch : String
address_mismatch = "Derived key did not match the expected wallet address"

-- `expectedAddress && address.toLowerCase() !== expectedAddress.toLowerCase()` is false.
unfoldable pub is_expected : Option String → String → Bool
unfolding to_lower_case
is_expected none address = true
is_expected (some expected) address =
    expected === "" || to_lower_case address === to_lower_case expected

abbrev pub account_if : Bool → (address : String) → (key : ℕ) → Settled SandboxAccount
account_if matches address key =
    if matches then fulfilled (record { address = address; key = key }) else throw address_mismatch

abbrev pub kept_bits : Memory → Settled (List ℕ) → Settled ℕ × Memory
kept_bits m (fulfilled bits) = (fulfilled (suc (length m)), fill (length m) (m ++ bits ∷ bits ∷ []))
kept_bits m (rejected e) = (rejected e, m)

module _ (curve : Curve) where
  -- `deriveWalletKey`: the derived bits are copied, and the first of the two buffers is zeroed.
  unfoldable pub derive_wallet_key : (prf_output : ℕ) → Memory → Settled ℕ × Memory
  derive_wallet_key prf_output m = kept_bits m (curve.derive_bits (buffer prf_output m))

  -- `evmAccountFrom`
  unfoldable pub evm_account_from :
      (key : ℕ) → (expected : Option String) → Memory → Settled SandboxAccount
  unfolding produce_evm_key is_expected
  evm_account_from key expected m = produce_evm_key (buffer key m) >>= λ bytes.
      curve.address_of_key bytes >>= λ address.
      account_if (is_expected expected address) address key

  -- The account's `signMessage`: it signs with what its buffer holds when it is called.
  abbrev pub account_sign_message : SandboxAccount → String → Memory → Settled String
  account_sign_message account message m = curve.sign_message message (buffer account.key m)

  -- `wipeSecrets`
  unfoldable pub wipe_secrets : (container : Option ℕ) → (prf_output : ℕ) → Memory → Memory
  wipe_secrets none prf_output m = fill prf_output m
  wipe_secrets (some key) prf_output m = fill prf_output (fill key m)

  module _ {ℓ} {T : Type ℓ} where
    abbrev pub call_back : Callback T → Settled SandboxAccount → Memory → Settled T × Memory
    call_back fn (fulfilled account) m = fn account m
    call_back fn (rejected e) m = (rejected e, m)

    -- The `finally` of the three functions.
    abbrev pub wiped_after :
        (container : Option ℕ) → (prf_output : ℕ) → Settled T × Memory → Settled T × Memory
    wiped_after container prf_output (r, m) = (r, wipe_secrets container prf_output m)

    abbrev pub use_container :
        Option String → Callback T → (prf_output : ℕ) → Settled ℕ × Memory → Settled T × Memory
    use_container expected fn prf_output (rejected e, m) =
        wiped_after none prf_output (rejected e, m)
    use_container expected fn prf_output (fulfilled key, m) =
        wiped_after (some key) prf_output (call_back fn (evm_account_from key expected m) m)

    -- The `try` and its `finally`, on the PRF's output in its buffer.
    abbrev pub sandboxed : Option String → Callback T → List ℕ → Memory → Settled T × Memory
    sandboxed expected fn prf_output m =
        use_container expected fn (length m) (derive_wallet_key (length m) (m ++ prf_output ∷ []))

    -- `withWalletKey`, with what `authenticate` settles with.
    unfoldable pub with_wallet_key :
        WalletState → Settled (List ℕ) → Callback T → Memory → Settled T × Memory
    unfolding derive_wallet_key evm_account_from wipe_secrets
    with_wallet_key state (rejected e) fn m = (rejected e, m)
    with_wallet_key state (fulfilled prf_output) fn m =
        sandboxed (some state.evm_address) fn prf_output m

    module _ (h : Hexes) (now : String) where
      abbrev pub with_state :
          (WalletState → Callback T) → DiscoveredPasskey → Settled UserHandle → Callback T
      with_state fn d (fulfilled handle) account m =
          fn (discovered_state now d account handle) account m
      with_state fn d (rejected e) account m = (rejected e, m)

      -- `withDiscoveredKeys`, with what `discover` settles with.
      unfoldable pub with_discovered_keys :
          Settled DiscoveredPasskey → (WalletState → Callback T) → Memory → Settled T × Memory
      unfolding derive_wallet_key evm_account_from wipe_secrets decode_user_handle
      with_discovered_keys (rejected e) fn m = (rejected e, m)
      with_discovered_keys (fulfilled d) fn m =
          sandboxed none (with_state fn d (decode_user_handle h d.user_handle)) d.prf_output m

    -- `withNewPasskeyKey`, with what `create` settles with.
    unfoldable pub with_new_passkey_key :
        Settled PasskeyRegistration
        → (PasskeyRegistration → Callback T)
        → Memory
        → Settled T × Memory
    unfolding derive_wallet_key evm_account_from wipe_secrets
    with_new_passkey_key (rejected e) fn m = (rejected e, m)
    with_new_passkey_key (fulfilled reg) fn m = sandboxed none (fn reg) reg.prf_output m
