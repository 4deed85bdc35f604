-- ===== src/Helpers/Names/Anchored.antt =====
-- packages/core/src/helpers: what the name service must have answered for a name or an address to be given.
use avok_js.Base.{
  ◌>>=◌, ◌≡◌, refl, sym, subst, fulfilled-injective, ◌===◌, ===_iff, if◌then◌else◌, not, Bool, true,
  false, Option, none, some, String, Settled, fulfilled, rejected, includes, to_lower_case, inl,
  inr, ◌⊎◌,
}
use avok_js.Helpers.Names.{
  EnsClient, NameResolverService, ForwardResolution, create_ens_resolver, create_name_resolver,
  truthy_text, forward_of, evm_of, back_at, verified, reverse_through, ResolveResult, address,
  error, trim, resolved_to, resolve_recipient,
}

-- Where the client answers a lookup of the name with no address.
abbrev pub IsUnknown : EnsClient → (name : String) → Type 0
IsUnknown client name =
    (found : Option String) × (client.get_ens_address name ≡ fulfilled found)
    × (truthy_text found ≡ none)

-- `value` is the input without the white space around it.
abbrev pub IsGrounded : (String → Bool) → EnsClient → (value : String) → ResolveResult → Type 0
IsGrounded is_evm_address client value (address a none) =
    (is_evm_address value ≡ true) × (a ≡ value)
IsGrounded is_evm_address client value (address a (some name)) =
    (is_evm_address value ≡ false)
    × (name ≡ value)
    × (client.get_ens_address name ≡ fulfilled (some a))
IsGrounded is_evm_address client value (error message) =
    (value ≡ "")
    ⊎ ((is_evm_address value ≡ false) × ((includes value "." ≡ false) ⊎ IsUnknown client value))

resolved_to-IsGrounded :
    (is_evm_address : String → Bool) (client : EnsClient) (value : String) (found : Option String)
    → is_evm_address value ≡ false
    → client.get_ens_address value ≡ fulfilled found
    → IsGrounded is_evm_address client value (resolved_to value (forward_of (truthy_text found)))
resolved_to-IsGrounded is_evm_address client value none o f = inr (o, inr (none, f, refl))
resolved_to-IsGrounded is_evm_address client value (some String.[]) o f =
    inr (o, inr (some String.[], f, refl))
resolved_to-IsGrounded is_evm_address client value (some (String.◌∷◌ c s)) o f = (o, refl, f)

-- A recipient's address is the input itself, where that is an address, or what the client answered for the input
-- as a name, and is returned with that name. It is refused with an error only if it is empty, or is not an address
-- and has no dot or no address at the client.
pub recipient-IsGrounded :
    (is_evm_address : String → Bool) (parent : Option String) (client : EnsClient)
    (verify_reverse : Option Bool) (input : String) {r : ResolveResult}
    → resolve_recipient is_evm_address
        (create_name_resolver (some (create_ens_resolver parent client)) verify_reverse)
        input
      ≡ fulfilled r
    → IsGrounded is_evm_address client (trim input) r
unfolding resolve_recipient
recipient-IsGrounded is_evm_address parent client verify_reverse input {r} h =
    chosen (trim input === "") refl (is_evm_address (trim input)) refl (includes (trim input) ".")
      refl (client.get_ens_address (trim input)) refl h
  where
    value : String
    value = trim input

    chosen :
        (e : Bool)
        → (trim input === "") ≡ e
        → (o : Bool) → is_evm_address (trim input) ≡ o
        → (p : Bool) → includes (trim input) "." ≡ p
        → (found : Settled (Option String)) → client.get_ens_address (trim input) ≡ found
        → (if e
            then fulfilled (error "Enter a recipient address or name.")
            else if o
            then fulfilled (address (trim input) none)
            else if not p
            then fulfilled (error "Enter a valid 0x address or a name (like alice.eth).")
            else ((found >>= λ a. fulfilled (forward_of (truthy_text a))) >>= λ f.
                fulfilled (resolved_to (trim input) f)))
          ≡ fulfilled r
        → IsGrounded is_evm_address client (trim input) r
    chosen true e o f p g found k h =
        let same : error "Enter a recipient address or name." ≡ r = cc in
        subst (IsGrounded is_evm_address client (trim input)) same (inl ((===_iff _ _).0 e))
    chosen false e true f p g found k h =
        let same : address (trim input) none ≡ r = cc in
        subst (IsGrounded is_evm_address client (trim input)) same (f, refl)
    chosen false e false f false g found k h =
        let same : error "Enter a valid 0x address or a name (like alice.eth)." ≡ r = cc in
        subst (IsGrounded is_evm_address client (trim input)) same (inr (f, inl g))
    chosen false e false f true g (fulfilled found) k h =
        let same : resolved_to (trim input) (forward_of (truthy_text found)) ≡ r = cc in
        subst (IsGrounded is_evm_address client (trim input)) same
          (resolved_to-IsGrounded is_evm_address client (trim input) found f k)
    chosen false e false f true g (rejected x) k h = cc

abbrev pub AnsweredWith : NameResolverService → (a name : String) → Type 0
AnsweredWith ens a name =
    (back : String) × (fwd : Option ForwardResolution) × (ens.resolve_forward name ≡ fulfilled fwd)
    × (evm_of fwd ≡ some back)
    × (to_lower_case back ≡ to_lower_case a)

truthy-some : (t : Option String) {back : String} → truthy_text t ≡ some back → t ≡ some back
truthy-some none h = cc
truthy-some (some String.[]) h = cc
truthy-some (some (String.◌∷◌ c s)) h = h

answered :
    (ens : NameResolverService) (a s : String) (t : Option String) {name : String}
    (fwd : Option ForwardResolution)
    → ens.resolve_forward s ≡ fulfilled fwd
    → truthy_text (evm_of fwd) ≡ t
    → back_at t a s ≡ some name
    → AnsweredWith ens a name
answered ens a s none fwd f g h = cc
answered ens a s (some back) {name} fwd f g h =
    same_case (to_lower_case back === to_lower_case a) refl h
  where
    same_case :
        (b : Bool)
        → (to_lower_case back === to_lower_case a) ≡ b
        → (if b then some s else none) ≡ some name
        → AnsweredWith ens a name
    same_case true e h =
        let same : s ≡ name = cc in
        subst (AnsweredWith ens a) same
          (back, fwd, f, truthy-some (evm_of fwd) g, (===_iff _ _).0 e)
    same_case false e h = cc

verified-IsAnswered :
    (ens : NameResolverService) (a s : String) {name : String}
    (m : Settled (Option ForwardResolution))
    → ens.resolve_forward s ≡ m
    → (m >>= λ fwd. fulfilled (back_at (truthy_text (evm_of fwd)) a s)) ≡ fulfilled (some name)
    → AnsweredWith ens a name
verified-IsAnswered ens a s (fulfilled fwd) f h =
    answered ens a s (truthy_text (evm_of fwd)) fwd f refl (fulfilled-injective h)
verified-IsAnswered ens a s (rejected x) f h = cc

-- With the check that is the default, a name is given for an address only if the name is empty or the service
-- answers, for the name, with the address up to the case of its letters.
pub reverse-IsAnchored :
    (ens : NameResolverService) (a name : String)
    → (create_name_resolver (some ens) none).reverse a ≡ fulfilled (some name)
    → (name ≡ "") ⊎ AnsweredWith ens a name
unfolding reverse_through
reverse-IsAnchored ens a name h = after (ens.resolve_reverse a) h
  where
    after :
        (m : Settled (Option String))
        → (m >>= λ found. verified ens true a found (truthy_text found)) ≡ fulfilled (some name)
        → (name ≡ "") ⊎ AnsweredWith ens a name
    after (rejected x) h = cc
    after (fulfilled none) h = cc
    after (fulfilled (some String.[])) h = let same : String.[] ≡ name = cc in inl (sym same)
    after (fulfilled (some (String.◌∷◌ c s))) h =
        inr
          (verified-IsAnswered ens a (String.◌∷◌ c s) (ens.resolve_forward (String.◌∷◌ c s)) refl h)
