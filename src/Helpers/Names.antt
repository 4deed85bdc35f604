-- ===== src/Helpers/Names.antt =====
-- packages/core/src/helpers/ens-reader.ts, ens-resolver.ts, resolver.ts and resolve-recipient.ts: from names to
-- addresses and back. The client of the name service and the test for an address are parameters.
pub mod Anchored
use Prim.Native.Char.{Char, code}
use Prim.Native.String
use avok_js.Base.{
  ◌≡◌, refl, ◌>>=◌, ℕ, String, ◌===◌, leb, ◌==◌, ◌||◌, ◌&&◌, not, if◌then◌else◌, Bool, true, false,
  Option, none, some, Settled, fulfilled, to_lower_case, includes,
}

-- `getEnsName` and `getEnsAddress` of a public client.
pub record EnsClient : Type 0 where
  pub get_ens_name : (address : String) → Settled (Option String)
  pub get_ens_address : (name : String) → Settled (Option String)

pub record EnsReader : Type 0 where
  pub resolve_address : (name : String) → Settled (Option String)
  pub resolve_name : (address : String) → Settled (Option String)

abbrev pub create_ens_reader : EnsClient → EnsReader
create_ens_reader client = record {
  resolve_address = client.get_ens_address;
  resolve_name = client.get_ens_name;
}

pub record ForwardResolution : Type 0 where
  pub evm : Option String

pub record NameResolverService : Type 0 where
  pub suffix : String
  pub resolve_forward : (name : String) → Settled (Option ForwardResolution)
  pub resolve_reverse : (address : String) → Settled (Option String)

-- A text is truthy where it is not empty.
abbrev pub truthy_text : Option String → Option String
truthy_text none = none
truthy_text (some String.[]) = none
truthy_text (some (String.◌∷◌ c s)) = some (String.◌∷◌ c s)

abbrev pub forward_of : Option String → Option ForwardResolution
forward_of none = none
forward_of (some evm) = some (record { evm = some evm })

abbrev pub suffix_for : Option String → String
suffix_for none = ".eth"
suffix_for (some parent) = String.◌++◌ "." parent

abbrev pub create_ens_resolver : (parent : Option String) → EnsClient → NameResolverService
create_ens_resolver parent client =
    let reader = create_ens_reader client in
    record {
      suffix = suffix_for (truthy_text parent);
      resolve_forward = λ name. do
        evm ← reader.resolve_address name
        fulfilled (forward_of (truthy_text evm));
      resolve_reverse = reader.resolve_name;
    }

pub record NameResolver : Type 0 where
  pub forward : (name : String) → Settled (Option ForwardResolution)
  pub reverse : (address : String) → Settled (Option String)

-- `fwd?.evm`
abbrev pub evm_of : Option ForwardResolution → Option String
evm_of none = none
evm_of (some f) = f.evm

abbrev pub back_at : (back : Option String) → (address name : String) → Option String
back_at none address name = none
back_at (some back) address name =
    if to_lower_case back === to_lower_case address then some name else none

abbrev pub forward_through :
    Option NameResolverService → String → Settled (Option ForwardResolution)
forward_through none name = fulfilled none
forward_through (some ens) name = ens.resolve_forward name

-- The name is `name` itself, empty or not, where it is not verified.
abbrev pub verified :
    NameResolverService
    → (verify : Bool) → (address : String) → (found name : Option String) → Settled (Option String)
verified ens verify address found none = fulfilled found
verified ens false address found (some name) = fulfilled found
verified ens true address found (some name) = do
  fwd ← ens.resolve_forward name
  fulfilled (back_at (truthy_text (evm_of fwd)) address name)

unfoldable pub reverse_through :
    Option NameResolverService → (verify : Bool) → (address : String) → Settled (Option String)
reverse_through none verify address = fulfilled none
reverse_through (some ens) verify address = do
  name ← ens.resolve_reverse address
  verified ens verify address name (truthy_text name)

abbrev pub verify_default : Option Bool → Bool
verify_default none = true
verify_default (some b) = b

abbrev pub create_name_resolver :
    (ens : Option NameResolverService) → (verify_reverse : Option Bool) → NameResolver
create_name_resolver ens verify_reverse = record {
  forward = forward_through ens;
  reverse = reverse_through ens (verify_default verify_reverse);
}

pub data ResolveResult : Type 0 where
  address : String → (resolved_from : Option String) → ResolveResult
  error : String → ResolveResult

-- The white space and line ends that `trim` takes away.
abbrev pub is_white : ℕ → Bool
is_white n =
    (leb 9 n && leb n 13)
    || ((n == 32)
        || ((n == 160)
            || ((n == 5760)
                || ((leb 8192 n && leb n 8202)
                    || ((n == 8232)
                        || ((n == 8233)
                            || ((n == 8239)
                                || ((n == 8287) || ((n == 12288) || (n == 65279))))))))))

abbrev pub trim_start : String → String
trim_start String.[] = String.[]
trim_start (String.◌∷◌ c s) =
    let rest = trim_start s in if is_white (code c) then rest else String.◌∷◌ c s

abbrev pub unless_white_end : Char → String → String
unless_white_end c String.[] = if is_white (code c) then String.[] else String.◌∷◌ c String.[]
unless_white_end c (String.◌∷◌ d s) = String.◌∷◌ c (String.◌∷◌ d s)

abbrev pub trim_end : String → String
trim_end String.[] = String.[]
trim_end (String.◌∷◌ c s) = unless_white_end c (trim_end s)

unfoldable pub trim : String → String
trim s = trim_end (trim_start s)

abbrev pub addressed : (value : String) → Option String → ResolveResult
addressed value (some evm) = address evm (some value)
addressed value none = error (String.◌++◌ "No EVM address found for " (String.◌++◌ value "."))

abbrev pub resolved_to : (value : String) → Option ForwardResolution → ResolveResult
resolved_to value none = error (String.◌++◌ "No address found for " (String.◌++◌ value "."))
resolved_to value (some f) = addressed value (truthy_text f.evm)

unfoldable pub resolve_recipient :
    (is_evm_address : String → Bool) → NameResolver → (input : String) → Settled ResolveResult
unfolding trim
resolve_recipient is_evm_address resolver input =
    let value = trim input in
    if value === ""
    then fulfilled (error "Enter a recipient address or name.")
    else if is_evm_address value
    then fulfilled (address value none)
    else if not (includes value ".")
    then fulfilled (error "Enter a valid 0x address or a name (like alice.eth).")
    else do resolved ← resolver.forward value; fulfilled (resolved_to value resolved)

trim_test : trim "  alice.eth \t" ≡ "alice.eth"
unfolding trim
trim_test = refl
