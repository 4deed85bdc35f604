-- ===== src/Base/Members.antt =====
-- Reading the members of values whose shape is not known, and testing them.
use Prim.Native.Nat.{zero, suc}
use Prim.Native.String
use Prim.Native.String.{String}
use mathlib.Core.Path.{◌≡◌, refl}
use mathlib.Core.Bool.{Bool, true, false}
use mathlib.Core.Option.{none, some}
use avok_js.Base.Tests.{◌or_else◌}
use avok_js.Base.Text.{◌===◌}
use avok_js.Base.Values.{Value, undefined, null, bool, num, str, arr, obj, property}
use avok_js.Base.Results.{Settled, fulfilled, rejected}

-- `value[k]`, for the names that are no method of a primitive or an array.
abbrev pub member : String → Value → Settled Value
member k undefined =
    rejected (record {
      name = "TypeError";
      message = String.◌++◌ "Cannot read properties of undefined: " k;
    })
member k null =
    rejected
      (record { name = "TypeError"; message = String.◌++◌ "Cannot read properties of null: " k })
member k (obj ps) = fulfilled (property k ps or_else undefined)
member k v = fulfilled undefined

-- `value?.[k]`
abbrev pub optional_member : String → Value → Value
optional_member k (obj ps) = property k ps or_else undefined
optional_member k v = undefined

-- `a ?? b`
abbrev pub nullish_else : Value → Value → Value
nullish_else undefined b = b
nullish_else null b = b
nullish_else a b = a

-- `Boolean(value)`
abbrev pub truthy : Value → Bool
truthy undefined = false
truthy null = false
truthy (bool b) = b
truthy (num zero) = false
truthy (num (suc n)) = true
truthy (str String.[]) = false
truthy (str (String.◌∷◌ c s)) = true
truthy (arr vs) = true
truthy (obj ps) = true

-- `typeof value === "string"`
abbrev pub is_string : Value → Bool
is_string (str s) = true
is_string v = false

-- `value === null`
abbrev pub is_null : Value → Bool
is_null null = true
is_null v = false

-- `value === s`, at a string `s`.
abbrev pub equals_text : Value → String → Bool
equals_text (str t) s = t === s
equals_text v s = false

-- `typeof value === "object" && value !== null`
abbrev pub is_object : Value → Bool
is_object (arr vs) = true
is_object (obj ps) = true
is_object v = false

-- `k in value`, at an object.
abbrev pub has_member : String → Value → Bool
has_member k (obj ps) = elim (property k ps) [ none ↦ false | some v ↦ true ]
has_member k v = false

truthy_test : truthy (str "") ≡ false
truthy_test = refl
