-- ===== src/Base/Results.antt =====
-- Calls that may throw and promises that may reject, and their sequencing.
use Prim.Native.String.{String}
use mathlib.Core.Path.{◌≡◌, refl}
use avok_js.Base.Tests.{if◌then◌else◌}
use mathlib.Core.Bool.{Bool, true, false}

-- Of an error, its `name` and its `message`.
pub record Failure : Type 0 where
  pub name : String
  pub message : String

pub data Settled {ℓ} (A : Type ℓ) : Type ℓ where
  fulfilled : A → Settled A
  rejected : Failure → Settled A

infixl 5 ◌>>=◌ ◌>>◌
abbrev pub ◌>>=◌ {ℓ κ} : {A : Type ℓ} {B : Type κ} → Settled A → (A → Settled B) → Settled B
fulfilled a >>= f = f a
rejected e >>= f = rejected e

abbrev pub ◌>>◌ {ℓ} : {B : Type ℓ} → Settled (Unit {0}) → Settled B → Settled B
m >> k = m >>= λ _. k

-- `throw new Error(message)`
abbrev pub throw {ℓ} : {A : Type ℓ} → String → Settled A
throw message = rejected (record { name = "Error"; message = message })

-- `if (!b) throw new Error(message)`
abbrev pub require : Bool → String → Settled (Unit {0})
require true message = fulfilled tt
require false message = throw message

pub >>=-eq-fulfilled {ℓ κ} :
    {A : Type ℓ} {B : Type κ} (m : Settled A) (f : A → Settled B) {b : B}
    → (m >>= f) ≡ fulfilled b
    → (a : A) × (m ≡ fulfilled a) × (f a ≡ fulfilled b)
>>=-eq-fulfilled (fulfilled a) f h = (a, refl, h)
>>=-eq-fulfilled (rejected e) f h = cc

pub fulfilled-injective {ℓ} : {A : Type ℓ} {a b : A} → fulfilled a ≡ fulfilled b → a ≡ b
fulfilled-injective h = cc

pub guard-eq-fulfilled {ℓ} :
    {A : Type ℓ} (b : Bool) (m : Settled A) (message : String) {a : A}
    → (if b then m else throw message) ≡ fulfilled a
    → (b ≡ true) × (m ≡ fulfilled a)
guard-eq-fulfilled true m message h = (refl, h)
guard-eq-fulfilled false m message h = cc
