-- ===== src/Registry/Laws.antt =====
-- contracts/src-ts/registry.ts: the table of chains, and how the lookups in it go together.
use Prim.Native.String
use text.Mathlib.TextLemmas.{append_cancel_left}
use avok_js.Base.{
  ℕ, ◌≡◌, refl, sym, ap, ◌∙◌, subst, if◌then◌else◌, String, ◌===◌, ===_iff, to_text, Bool, true,
  false, Bool-cases, throw, ◌>>=◌, inl, inr, Option, none, some, List, [], ◌∷◌, All, Settled,
  fulfilled, to_lower_case, Any, here, there, find_first, find_first-head, find_first-tail,
}
use avok_js.Consent.Danger.Amounts.{big_int-to_text}
use avok_js.Consent.Danger.{big_int}
use avok_js.Registry.Profiles.{EvmChainProfile, chain_profiles, chain_name_to_id, EvmTokenProfile}
use avok_js.Registry.{
  is_inherited, lookup, ChainId, id, prototype_member, get_chain_profile, get_chain_profile_by_id,
  resolve_chain_by_name, chain_id_number_by_name, get_token_profile,
}

module _ {ℓ κ} {V : Type ℓ} (P : String → V → Type κ) where
  -- What holds of each entry holds of what is found.
  pub lookup-All :
      (k : String) (t : List (String × V)) {v : V}
      → All (λ e. P e.0 e.1) t
      → lookup k t ≡ some v
      → P k v
  lookup-All k [] h e = cc
  lookup-All k ((j, w) ∷ t) {v} (p, h) e = elim (Bool-cases (j === k)) [
    | inl f ↦
        let found : some w ≡ some v = ap (λ b. if b then some w else lookup k t) (sym f) ∙ e in
        let same : w ≡ v = cc in subst (λ x. P k x) same (subst (λ x. P x w) ((===_iff j k).0 f) p)
    | inr f ↦ lookup-All k t h (ap (λ b. if b then some w else lookup k t) (sym f) ∙ e)
  ]

to_text-injective : (m n : ℕ) → to_text m ≡ to_text n → m ≡ n
to_text-injective m n e =
    let h : some m ≡ some n = sym (big_int-to_text m) ∙ ap big_int e ∙ big_int-to_text n in cc

abbrev pub caip2 : ℕ → String
caip2 n = String.◌++◌ "eip155:" (to_text n)

pub caip2-injective : (m n : ℕ) → caip2 m ≡ caip2 n → m ≡ n
caip2-injective m n e = to_text-injective m n (append_cancel_left "eip155:" _ _ e)

-- Each profile stands under its own identifier, which is made of its chain's number.
abbrev IsOwnKey : String → EvmChainProfile → Type 0
IsOwnKey k p = (k ≡ p.id) × (k ≡ caip2 p.chain_id) × (p.kind ≡ "evm")

chain_profiles-IsOwnKey : All (λ e. IsOwnKey e.0 e.1) chain_profiles
unfolding to_text
chain_profiles-IsOwnKey = (
  (refl, refl, refl),
  (
    (refl, refl, refl),
    (
      (refl, refl, refl),
      (
        (refl, refl, refl),
        (
          (refl, refl, refl),
          (
            (refl, refl, refl),
            ((refl, refl, refl), ((refl, refl, refl), ((refl, refl, refl), tt))),
          ),
        ),
      ),
    ),
  ),
)

-- The profile found for a chain's number is the profile of that chain, and of an EVM chain.
pub get_chain_profile-chain_id :
    (n : ℕ) (p : EvmChainProfile)
    → get_chain_profile n ≡ some p
    → (p.chain_id ≡ n) × (p.kind ≡ "evm") × (p.id ≡ caip2 n)
unfolding get_chain_profile
get_chain_profile-chain_id n p e =
    let (a, b, c) = lookup-All IsOwnKey (caip2 n) chain_profiles chain_profiles-IsOwnKey e in
    (sym (caip2-injective n p.chain_id b), c, sym a)

abbrev IsListed : String → String → Type 0
IsListed name k = (p : EvmChainProfile) × (lookup k chain_profiles ≡ some p)

chain_name_to_id-IsListed : All (λ e. IsListed e.0 e.1) chain_name_to_id
chain_name_to_id-IsListed = (
  (_, refl),
  (
    (_, refl),
    ((_, refl), ((_, refl), ((_, refl), ((_, refl), ((_, refl), ((_, refl), ((_, refl), tt))))))),
  ),
)

found_name :
    (b : Bool) (o : Option String) (k : String)
    → (if b then fulfilled prototype_member else elim o as (λ _. Settled ChainId) [
      | none ↦ throw "resolveChainByName: unknown chain name"
      | some j ↦ fulfilled (id j)
    ])
      ≡ fulfilled (id k)
    → o ≡ some k
found_name true o k h = cc
found_name false none k h = cc
found_name false (some j) k h = cc

-- A name that resolves to an identifier of its own stands in the table of names.
pub own_name :
    (name k : String)
    → resolve_chain_by_name name ≡ fulfilled (id k)
    → lookup (to_lower_case name) chain_name_to_id ≡ some k
unfolding resolve_chain_by_name
own_name name k h =
    found_name (is_inherited (to_lower_case name)) (lookup (to_lower_case name) chain_name_to_id) k
      h

-- A name that resolves to an identifier of its own is the name of a registered EVM chain: its number is
-- that of the identifier's profile, and the number leads back to the same profile.
pub resolved_name-agrees :
    (name k : String)
    → resolve_chain_by_name name ≡ fulfilled (id k)
    → (p : EvmChainProfile) × (get_chain_profile_by_id (id k) ≡ some p)
      × (chain_id_number_by_name name ≡ fulfilled p.chain_id)
      × (get_chain_profile p.chain_id ≡ some p)
unfolding chain_id_number_by_name get_chain_profile_by_id get_chain_profile
resolved_name-agrees name k h =
    let (p, e) =
      lookup-All IsListed (to_lower_case name) chain_name_to_id chain_name_to_id-IsListed
        (own_name name k h) in
    let (a, b, c) = lookup-All IsOwnKey k chain_profiles chain_profiles-IsOwnKey e in
    (
      p,
      e,
      rw (h, ◌>>=◌, get_chain_profile_by_id, e, c) refl,
      ap (λ j. lookup j chain_profiles) (sym b) ∙ e,
    )

some-injective : {A : Type 0} {x y : A} → some x ≡ some y → x ≡ y
some-injective h = cc

missing_absurd : {A : Type 0} {x : A} → none ≡ some x → ⊥
missing_absurd h = cc

found_there :
    {A : Type 0} (p : A → Bool) (xs : List A) (x : A)
    → find_first p xs ≡ some x
    → (p x ≡ true) × Any (λ y. y ≡ x) xs
found_there p [] x h = elim (missing_absurd h) [ ]
found_there p (y ∷ ys) x h = elim (Bool-cases (p y)) [
  | inl e ↦
      let found : some y ≡ some x = sym (find_first-head p y ys e) ∙ h in
      let same : y ≡ x = some-injective found in (subst (λ z. p z ≡ true) same e, here same)
  | inr e ↦ let (a, b) = found_there p ys x (sym (find_first-tail p y ys e) ∙ h) in (a, there b)
]

token_in :
    (o : Option EvmChainProfile) (address : String) (t : EvmTokenProfile)
    → (elim o as (λ _. Option EvmTokenProfile) [
      | none ↦ none
      | some p ↦ find_first (λ x. to_lower_case x.address === to_lower_case address) p.tokens
    ])
      ≡ some t
    → (p : EvmChainProfile) × (o ≡ some p)
      × Any (λ y. y ≡ t) p.tokens
      × (to_lower_case t.address ≡ to_lower_case address)
token_in none address t h = elim (missing_absurd h) [ ]
token_in (some p) address t h =
    let (a, b) =
      found_there (λ x. to_lower_case x.address === to_lower_case address) p.tokens t h in
    (p, refl, b, (===_iff _ _).0 a)

-- A token that is found is one of those registered for the chain, and its address is the one looked up,
-- but for the case of letters.
pub get_token_profile-listed :
    (n : ℕ) (address : String) (t : EvmTokenProfile)
    → get_token_profile n address ≡ some t
    → (p : EvmChainProfile) × (get_chain_profile n ≡ some p)
      × Any (λ y. y ≡ t) p.tokens
      × (to_lower_case t.address ≡ to_lower_case address)
unfolding get_token_profile
get_token_profile-listed n address t h = token_in (get_chain_profile n) address t h
