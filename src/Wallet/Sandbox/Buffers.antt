-- ===== src/Wallet/Sandbox/Buffers.antt =====
-- The buffers of a gesture: what is zeroed stays so, and the account comes from the bytes of its key.
use avok_js.Base.{
  ℕ, zero, suc, ◌+◌, ◌==◌, ◌≡◌, refl, sym, ap, ◌∙◌, subst, arith, String, true, Bool, all, Option,
  some, List, [], ◌∷◌, ◌++◌, length, length-append, map, fulfilled, >>=-eq-fulfilled,
  fulfilled-injective, guard-eq-fulfilled,
}
use avok_js.Wallet.Sandbox.{
  Curve, Memory, buffer, fill, SandboxAccount, produce_evm_key, is_expected, evm_account_from,
  wipe_secrets, account_if,
}

abbrev pub is_zeroed : List ℕ → Bool
is_zeroed bytes = all (λ b. b == 0) bytes

unfoldable pub IsWiped : ℕ → Memory → Type 0
IsWiped i m = is_zeroed (buffer i m) ≡ true

zeroed_map : (bytes : List ℕ) → is_zeroed (map (λ _. 0) bytes) ≡ true
zeroed_map [] = refl
zeroed_map (b ∷ bytes) = zeroed_map bytes

pub fill-IsWiped : (i : ℕ) (m : Memory) → IsWiped i (fill i m)
unfolding IsWiped
fill-IsWiped i [] = refl
fill-IsWiped zero (b ∷ m) = zeroed_map b
fill-IsWiped (suc i) (b ∷ m) = fill-IsWiped i m

pub fill_keeps-IsWiped : (i j : ℕ) (m : Memory) → IsWiped j m → IsWiped j (fill i m)
unfolding IsWiped
fill_keeps-IsWiped i j [] h = h
fill_keeps-IsWiped zero zero (b ∷ m) h = zeroed_map b
fill_keeps-IsWiped zero (suc j) (b ∷ m) h = h
fill_keeps-IsWiped (suc i) zero (b ∷ m) h = h
fill_keeps-IsWiped (suc i) (suc j) (b ∷ m) h = fill_keeps-IsWiped i j m h

pub buffer-appended :
    (m : Memory) (b : List ℕ) (rest : Memory) → buffer (length m) (m ++ b ∷ rest) ≡ b
buffer-appended [] b rest = refl
buffer-appended (x ∷ m) b rest = buffer-appended m b rest

pub buffer-beyond : (m : Memory) (n : ℕ) → length m ≡ n → buffer (suc n) m ≡ []
buffer-beyond [] n h = refl
buffer-beyond (x ∷ m) zero h = ground arith
buffer-beyond (x ∷ m) (suc n) h = buffer-beyond m n (omega (arith, h))

-- The second of two new buffers is not touched by zeroing the first.
pub buffer-second :
    (m : Memory) (b c : List ℕ) → buffer (suc (length m)) (fill (length m) (m ++ b ∷ c ∷ [])) ≡ c
buffer-second [] b c = refl
buffer-second (x ∷ m) b c = buffer-second m b c

module _ (curve : Curve) where
  pub wipe_secrets-IsWiped :
      (key p : ℕ) (m : Memory)
      → IsWiped p (wipe_secrets curve (some key) p m)
        × IsWiped key (wipe_secrets curve (some key) p m)
  unfolding wipe_secrets
  wipe_secrets-IsWiped key p m =
      (fill-IsWiped p (fill key m), fill_keeps-IsWiped p key (fill key m) (fill-IsWiped key m))

  produce_evm_key-same : (b bytes : List ℕ) → produce_evm_key b ≡ fulfilled bytes → b ≡ bytes
  unfolding produce_evm_key
  produce_evm_key-same [] bytes h = cc
  produce_evm_key-same (x ∷ b) bytes h = fulfilled-injective h

  account_if-fulfilled :
      (b : Bool) (address : String) (key : ℕ) (account : SandboxAccount)
      → account_if b address key ≡ fulfilled account
      → (b ≡ true) × (address ≡ account.address) × (account.key ≡ key)
  account_if-fulfilled b address key account h =
      let (e, f) = guard-eq-fulfilled b _ _ h in
      let same = fulfilled-injective f in
      (
        e,
        ap (λ (a : SandboxAccount). a.address) same,
        sym (ap (λ (a : SandboxAccount). a.key) same),
      )

  pub evm_account_from-derived :
      (key : ℕ) (expected : Option String) (m : Memory) (account : SandboxAccount)
      → evm_account_from curve key expected m ≡ fulfilled account
      → (account.key ≡ key)
        × (curve.address_of_key (buffer key m) ≡ fulfilled account.address)
        × (is_expected expected account.address ≡ true)
  unfolding evm_account_from
  evm_account_from-derived key expected m account h =
      let (bytes, produced, h1) = >>=-eq-fulfilled (produce_evm_key (buffer key m)) _ h in
      let (address, derived, h2) = >>=-eq-fulfilled (curve.address_of_key bytes) _ h1 in
      let (matches, same, at) = account_if-fulfilled _ address key account h2 in
      (
        at,
        ap curve.address_of_key (produce_evm_key-same _ bytes produced)
            ∙ derived
            ∙ ap fulfilled same,
        subst (λ a. is_expected expected a ≡ true) same matches,
      )

pub nothing_there : (m : Memory) (b : List ℕ) → IsWiped (length m + 2) (m ++ b ∷ [])
unfolding IsWiped
nothing_there m b =
    subst (λ i. IsWiped i (m ++ b ∷ [])) (omega (arith, length-append m (b ∷ [])))
      (subst (λ c. is_zeroed c ≡ true)
        (sym (buffer-beyond (m ++ b ∷ []) (length (m ++ b ∷ [])) refl)) refl)
