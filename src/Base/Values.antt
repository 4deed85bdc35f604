-- ===== src/Base/Values.antt =====
-- The values of the language that cross a trust boundary: messages, parsed JSON, configuration.
use Prim.Native.Nat.{ℕ}
use Prim.Native.String.{String}
use mathlib.Core.Bool.{Bool}
use mathlib.Core.Option.{Option, none, some}
use mathlib.Core.List.{List, [], ◌∷◌}
use avok_js.Base.Text.{◌===◌}
use avok_js.Base.Tests.{if◌then◌else◌}

-- Numbers are the natural ones. An object is its own enumerable properties, in their order.
mutual
  pub data Value : Type 0 where
    undefined : Value
    null : Value
    bool : Bool → Value
    num : ℕ → Value
    str : String → Value
    arr : Items → Value
    obj : Props → Value

  pub data Items : Type 0 where
    nil : Items
    cons : Value → Items → Items

  pub data Props : Type 0 where
    end : Props
    prop : String → Value → Props → Props

-- `o[k]` on the properties of an object: the first entry of the name, `none` where there is none.
abbrev pub property : String → Props → Option Value
property k end = none
property k (prop j v ps) = if j === k then some v else property k ps

abbrev pub items : Items → List Value
items nil = []
items (cons v vs) = v ∷ items vs

-- `Object.keys`
abbrev pub keys : Props → List String
keys end = []
keys (prop k v ps) = k ∷ keys ps
