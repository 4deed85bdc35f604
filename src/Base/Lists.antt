-- ===== src/Base/Lists.antt =====
-- Lists measured and indexed by native numbers, and the array methods that the program calls.
use Prim.Native.Nat.{ℕ, zero, suc, ◌+◌}
use mathlib.Core.Path.{◌≡◌, refl, ap, ◌∙◌}
use mathlib.Core.Logic.{inl, inr}
use avok_js.Base.Tests.{Bool-cases}
use mathlib.Core.Bool.{Bool, true, false, ◌&&◌, ◌||◌}
use mathlib.Core.Option.{Option, none, some}
use mathlib.Core.List.{List, [], ◌∷◌, ◌++◌, map}
use native.Mathlib.Omega.{arith}

module _ {ℓ} {A : Type ℓ} where
  abbrev pub length : List A → ℕ
  length [] = 0
  length (x ∷ xs) = suc (length xs)

  abbrev pub get_elem? : List A → ℕ → Option A
  get_elem? [] i = none
  get_elem? (x ∷ xs) zero = some x
  get_elem? (x ∷ xs) (suc i) = get_elem? xs i

  -- `xs[xs.length - 1]`, `none` where it is undefined.
  abbrev pub last? : List A → Option A
  last? [] = none
  last? (x ∷ []) = some x
  last? (x ∷ y ∷ xs) = last? (y ∷ xs)

  abbrev pub all : (A → Bool) → List A → Bool
  all p [] = true
  all p (x ∷ xs) = p x && all p xs

  abbrev pub any : (A → Bool) → List A → Bool
  any p [] = false
  any p (x ∷ xs) = p x || any p xs

  -- `xs.find(p)`
  abbrev pub find_first : (A → Bool) → List A → Option A
  find_first p [] = none
  find_first p (x ∷ xs) = elim (p x) [ true ↦ some x | false ↦ find_first p xs ]

  pub find_first-head :
      (p : A → Bool) (x : A) (xs : List A) → p x ≡ true → find_first p (x ∷ xs) ≡ some x
  find_first-head p x xs e = rw (find_first, e) refl

  pub find_first-tail :
      (p : A → Bool) (x : A) (xs : List A) → p x ≡ false → find_first p (x ∷ xs) ≡ find_first p xs
  find_first-tail p x xs e = rw (find_first, e) refl

  abbrev pub All {κ} : (A → Type κ) → List A → Type κ
  All P [] = Unit
  All P (x ∷ xs) = P x × All P xs

  -- Some element has the property.
  pub data Any {κ} (P : A → Type κ) : List A → Type (ℓ ⊔ κ) where
    here : {x : A} {xs : List A} → P x → Any P (x ∷ xs)
    there : {x : A} {xs : List A} → Any P xs → Any P (x ∷ xs)

  pub find_first-found :
      (p : A → Bool) (xs : List A)
      → Any (λ x. p x ≡ true) xs
      → (x : A) × (p x ≡ true) × (find_first p xs ≡ some x)
  find_first-found p [] a = elim a [ ]
  find_first-found p (x ∷ xs) (here e) = (x, e, find_first-head p x xs e)
  find_first-found p (x ∷ xs) (there a) = elim (Bool-cases (p x)) [
    | inl e ↦ (x, e, find_first-head p x xs e)
    | inr e ↦ let (y, f, g) = find_first-found p xs a in (y, f, find_first-tail p x xs e ∙ g)
  ]

  pub Any-append_left {κ} :
      {P : A → Type κ} {xs : List A} (ys : List A) → Any P xs → Any P (xs ++ ys)
  Any-append_left ys (here p) = here p
  Any-append_left ys (there a) = there (Any-append_left ys a)

  pub Any-append_right {κ} :
      {P : A → Type κ} (xs : List A) {ys : List A} → Any P ys → Any P (xs ++ ys)
  Any-append_right [] a = a
  Any-append_right (x ∷ xs) a = there (Any-append_right xs a)

  pub length-append : (xs ys : List A) → length (xs ++ ys) ≡ length xs + length ys
  length-append [] ys = omega arith
  length-append (x ∷ xs) ys = omega (arith, length-append xs ys)

module _ {ℓ κ} {A : Type ℓ} {B : Type κ} where
  -- `xs.flatMap(f)`
  abbrev pub flat_map : (A → List B) → List A → List B
  flat_map f [] = []
  flat_map f (x ∷ xs) = f x ++ flat_map f xs

  pub length-map : (f : A → B) (xs : List A) → length (map f xs) ≡ length xs
  length-map f [] = refl
  length-map f (x ∷ xs) = ap suc (length-map f xs)
