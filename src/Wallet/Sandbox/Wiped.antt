-- ===== src/Wallet/Sandbox/Wiped.antt =====
-- After a gesture no buffer holds its secrets.
use avok_js.Base.{
  ℕ, suc, ◌+◌, ◌≡◌, refl, sym, ap, ◌∙◌, subst, arith, String, true, Option, none, some, List, [],
  ◌∷◌, ◌++◌, length, length-append, Settled, fulfilled, rejected, Failure,
}
use avok_js.Wallet.Handle.{Hexes, decode_user_handle}
use avok_js.Wallet.Sandbox.Buffers.{
  IsWiped, wipe_secrets-IsWiped, fill-IsWiped, buffer-appended, fill_keeps-IsWiped, nothing_there,
  buffer-second, evm_account_from-derived,
}
use avok_js.Wallet.Sandbox.{
  Curve, Memory, buffer, WalletState, SandboxAccount, Callback, is_expected, derive_wallet_key,
  evm_account_from, wipe_secrets, call_back, wiped_after, use_container, sandboxed, with_wallet_key,
  DiscoveredPasskey, with_state, with_discovered_keys, PasskeyRegistration, with_new_passkey_key,
  kept_bits,
}

module _ {ℓ} {T : Type ℓ} (curve : Curve) where
  -- What a gesture comes to, for the expected address, the callback and the PRF's output: the derivation or
  -- the account of the derived key is refused, or the callback answers. Both buffers are then zeroed.
  pub data Gesture (expected : Option String) (fn : Callback T) (prf_output : List ℕ) (m : Memory)
      : Settled T × Memory → Type ℓ where
    underived :
        (e : Failure) (m' : Memory)
        → curve.derive_bits prf_output ≡ rejected e
        → IsWiped (length m) m'
        → IsWiped (length m + 2) m'
        → Gesture expected fn prf_output m (rejected e, m')
    refused :
        (e : Failure) (key : ℕ) (live m' : Memory)
        → curve.derive_bits prf_output ≡ fulfilled (buffer key live)
        → evm_account_from curve key expected live ≡ rejected e
        → IsWiped (length m) m'
        → IsWiped (length m + 2) m'
        → Gesture expected fn prf_output m (rejected e, m')
    ran :
        (account : SandboxAccount) (live m' : Memory)
        → account.key ≡ length m + 2
        → curve.derive_bits prf_output ≡ fulfilled (buffer account.key live)
        → curve.address_of_key (buffer account.key live) ≡ fulfilled account.address
        → is_expected expected account.address ≡ true
        → IsWiped (length m) m'
        → IsWiped (length m + 2) m'
        → Gesture expected fn prf_output m ((fn account live).0, m')

  module _ (expected : Option String) (fn : Callback T) (prf_output : List ℕ) (m : Memory) where
    called-Gesture :
        (key : ℕ) (live : Memory) (a : Settled SandboxAccount)
        → key ≡ length m + 2
        → curve.derive_bits prf_output ≡ fulfilled (buffer key live)
        → a ≡ evm_account_from curve key expected live
        → Gesture expected fn prf_output m
            (wiped_after curve (some key) (length m) (call_back curve fn a live))
    called-Gesture key live (rejected e) at derived h =
        let (w, w') = wipe_secrets-IsWiped curve key (length m) live in
        refused e key live _ derived (sym h) w
          (subst (λ i. IsWiped i (wipe_secrets curve (some key) (length m) live)) at w')
    called-Gesture key live (fulfilled account) at derived h =
        let (w, w') = wipe_secrets-IsWiped curve key (length m) (fn account live).1 in
        let (same, address, matches) =
          evm_account_from-derived curve key expected live account (sym h) in
        ran account live _ (same ∙ at) (derived ∙ ap (λ i. fulfilled (buffer i live)) (sym same))
          (ap (λ i. curve.address_of_key (buffer i live)) same ∙ address) matches w
          (subst (λ i. IsWiped i (wipe_secrets curve (some key) (length m) (fn account live).1)) at
            w')

    derived-Gesture :
        (d : Settled (List ℕ))
        → d ≡ curve.derive_bits prf_output
        → Gesture expected fn prf_output m
            (use_container curve expected fn (length m) (kept_bits (m ++ prf_output ∷ []) d))
    unfolding wipe_secrets
    derived-Gesture (rejected e) h =
        underived e _ (sym h) (fill-IsWiped (length m) (m ++ prf_output ∷ [])) (
          fill_keeps-IsWiped (length m) (length m + 2) (m ++ prf_output ∷ [])
            (nothing_there m prf_output))
    derived-Gesture (fulfilled bits) h =
        let m₀ = m ++ prf_output ∷ [] in
        called-Gesture (suc (length m₀)) _ _ (omega (arith, length-append m (prf_output ∷ [])))
          (sym h ∙ ap fulfilled (sym (buffer-second m₀ bits bits))) refl

    pub sandboxed-Gesture :
        Gesture expected fn prf_output m (sandboxed curve expected fn prf_output m)
    unfolding derive_wallet_key
    sandboxed-Gesture =
        subst
          (λ b. Gesture expected fn prf_output m (
            use_container curve expected fn (length m)
              (kept_bits (m ++ prf_output ∷ []) (curve.derive_bits b))))
          (sym (buffer-appended m prf_output []))
          (derived-Gesture (curve.derive_bits prf_output) refl)

  -- Where the passkey answers.
  module _ (h : Hexes) (now : String) (m : Memory) where
    -- Each of the three functions, where the passkey answers, zeroes the PRF's output and the key, however
    -- the derivation, the check of the address and the callback end and whatever the callback does to the
    -- memory; and it answers with what the callback does on the account of the key that the PRF's output
    -- derives, at the address that is expected, if any, unless that key or that account is refused.
    pub secrets_wiped :
        (state : WalletState) (prf_output : List ℕ) (fn : Callback T)
        → (d : DiscoveredPasskey) (fd : WalletState → Callback T)
        → (reg : PasskeyRegistration) (fr : PasskeyRegistration → Callback T)
        → Gesture
            (some state.evm_address)
            fn
            prf_output
            m
            (with_wallet_key curve state (fulfilled prf_output) fn m)
          × Gesture none
              (with_state curve h now fd d (decode_user_handle h d.user_handle))
              d.prf_output
              m
              (with_discovered_keys curve h now (fulfilled d) fd m)
          × Gesture none (fr reg) reg.prf_output m (with_new_passkey_key curve (fulfilled reg) fr m)
    unfolding with_wallet_key with_discovered_keys with_new_passkey_key
    secrets_wiped state prf_output fn d fd reg fr = (
      sandboxed-Gesture (some state.evm_address) fn prf_output m,
      sandboxed-Gesture none _ d.prf_output m,
      sandboxed-Gesture none (fr reg) reg.prf_output m,
    )
