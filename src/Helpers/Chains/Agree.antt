-- ===== src/Helpers/Chains/Agree.antt =====
-- packages/core/src/helpers/chains.ts: the chains of an app and those of the registry.
use avok_js.Base.{
  ℕ, ◌==◌, ==_iff, ◌≡◌, refl, sym, ap, ◌∙◌, subst, Bool, false, Bool-cases, inl, inr, Option, none,
  some, List, [], ◌∷◌, All, find_first, find_first-tail, String, ◌===◌, ===_iff, to_text,
  if◌then◌else◌,
}
use avok_js.Registry.{lookup, get_chain_profile}
use avok_js.Registry.Laws.{caip2, caip2-injective}
use avok_js.Registry.Profiles.{EvmChainProfile, chain_profiles}
use avok_js.Helpers.Chains.{ChainInfo, to_chain_info, evm_chains, get_chain}

abbrev pub info_of : Option EvmChainProfile → Option ChainInfo
info_of none = none
info_of (some p) = some (to_chain_info p)

-- The keys of two chains are equal only where their numbers are.
other_key : (m n : ℕ) → (m == n) ≡ false → (caip2 m === caip2 n) ≡ false
other_key m n h = elim (Bool-cases (caip2 m === caip2 n)) [
  | inl e ↦
      let same : m ≡ n = caip2-injective m n ((===_iff _ _).0 e) in cc (h, (==_iff m n).1 same)
  | inr e ↦ e
]

lookup-none :
    {V : Type 0} (k : String) (t : List (String × V))
    → All (λ e. (e.0 === k) ≡ false) t
    → lookup k t ≡ none
lookup-none k [] h = refl
lookup-none k ((j, v) ∷ t) (h, hs) =
    ap (λ b. if b then some v else lookup k t) h ∙ lookup-none k t hs

find_first-none :
    {A : Type 0} (p : A → Bool) (xs : List A) → All (λ x. p x ≡ false) xs → find_first p xs ≡ none
find_first-none p [] h = refl
find_first-none p (x ∷ xs) (h, hs) = find_first-tail p x xs h ∙ find_first-none p xs hs

abbrev Agrees : ℕ → Type 0
Agrees n = get_chain n ≡ info_of (get_chain_profile n)

unless_number :
    (m n : ℕ) → Agrees m → ((m == n) ≡ false → (caip2 m === caip2 n) ≡ false → Agrees n) → Agrees n
unless_number m n here other = elim (Bool-cases (m == n)) [
  | inl e ↦ subst Agrees ((==_iff m n).0 e) here
  | inr e ↦ other e (other_key m n e)
]

-- An app finds a chain by its number exactly where the registry has a profile for it, and what it finds is made
-- of that profile; sorting the chains for display loses none.
pub get_chain-agrees : (n : ℕ) → get_chain n ≡ info_of (get_chain_profile n)
unfolding get_chain get_chain_profile evm_chains to_text
get_chain-agrees n = unless_number 10 n refl (λ i0 k0. unless_number 1 n refl (λ i1 k1.
    unless_number 42161 n refl (λ i2 k2. unless_number 56 n refl (λ i3 k3.
      unless_number 8453 n refl (λ i4 k4. unless_number 4663 n refl (λ i5 k5.
        unless_number 5042002 n refl (λ i6 k6. unless_number 84532 n refl (λ i7 k7.
          unless_number 11155111 n refl (λ i8 k8.
            find_first-none (λ c. c.id == n) evm_chains
              (i6, (i4, (i0, (i2, (i1, (i3, (i8, (i5, (i7, tt)))))))))
            ∙ sym (
                ap info_of (
                  lookup-none (caip2 n) chain_profiles
                    (k0, (k1, (k2, (k3, (k4, (k5, (k6, (k7, (k8, tt))))))))))))))))))))
