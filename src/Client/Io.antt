-- ===== src/Client/Io.antt =====
-- Awaited calls of the client, as the trace of what they do, oldest first, and what they settle with.
use avok_js.Base.{
  String, ◌≡◌, refl, subst, List, [], ◌∷◌, ◌++◌, All, Failure, Settled, fulfilled, rejected,
  fulfilled-injective,
}

-- A read of the network, the signing gesture of a rail, and the submission of what was signed.
pub data Effect : Type 0 where
  network : String → Effect
  gesture_user_op gesture_send : Effect
  send_user_operation send_raw_transaction : Effect

pub record Io {ℓ} (A : Type ℓ) : Type ℓ where
  pub effects : List Effect
  pub result : Settled A

module _ {ℓ} {A : Type ℓ} where
  abbrev pub after : List Effect → Io A → Io A
  after es m = record { effects = es ++ m.effects; result = m.result }

  abbrev pub settle : Settled A → Io A
  settle r = record { effects = []; result = r }

  abbrev pub pure : A → Io A
  pure a = settle (fulfilled a)

  -- A call that does this and settles with that.
  abbrev pub call : Effect → Settled A → Io A
  call e r = record { effects = e ∷ []; result = r }

  module _ {κ} {B : Type κ} where
    abbrev pub continued : List Effect → Settled A → (A → Io B) → Io B
    continued es (fulfilled a) f = record { effects = es ++ (f a).effects; result = (f a).result }
    continued es (rejected e) f = record { effects = es; result = rejected e }

    infixl 5 ◌>>=◌
    abbrev pub ◌>>=◌ : Io A → (A → Io B) → Io B
    m >>= f = continued m.effects m.result f

abbrev pub IsNetwork : Effect → Type 0
IsNetwork (network what) = Unit
IsNetwork _ = ⊥

-- Only reads happen, and what it is fulfilled with has the property.
pub record Reads {ℓ κ} {A : Type ℓ} (P : A → Type κ) (m : Io A) : Type (ℓ ⊔ κ) where
  pub only_reads : All IsNetwork m.effects
  pub yields : (a : A) → m.result ≡ fulfilled a → P a

pub IsNetwork-append :
    (xs ys : List Effect) → All IsNetwork xs → All IsNetwork ys → All IsNetwork (xs ++ ys)
IsNetwork-append [] ys p q = q
IsNetwork-append (x ∷ xs) ys (h, p) q = (h, IsNetwork-append xs ys p q)

module _ {ℓ μ ν} {A : Type ℓ} {B : Type μ} {Q : B → Type ν} where
  continued-Reads :
      (es : List Effect) (r : Settled A) (f : A → Io B)
      → All IsNetwork es
      → ((a : A) → r ≡ fulfilled a → Reads Q (f a))
      → Reads Q (continued es r f)
  continued-Reads es (fulfilled a) f n k =
      let next = k a refl in
      record { only_reads = IsNetwork-append es _ n next.only_reads; yields = next.yields }
  continued-Reads es (rejected e) f n k = record {
    only_reads = n;
    yields = λ b h. elim (rejected_absurd h) [ ];
  }
    where
      rejected_absurd : {b : B} → rejected e ≡ fulfilled b → ⊥
      rejected_absurd h = cc

module _ {ℓ κ} {A : Type ℓ} {P : A → Type κ} where
  pub pure-Reads : (a : A) → P a → Reads P (pure a)
  pure-Reads a p = record { only_reads = tt; yields = λ b h. subst P (fulfilled-injective h) p }

  pub rejected-Reads : (e : Failure) → Reads P (settle (rejected e))
  rejected-Reads e = record { only_reads = tt; yields = λ b h. elim (rejected_absurd h) [ ] }
    where
      rejected_absurd : {b : A} → rejected e ≡ fulfilled b → ⊥
      rejected_absurd h = cc

  pub call-Reads :
      (what : String) (r : Settled A) → ((a : A) → P a) → Reads P (call (network what) r)
  call-Reads what r p = record { only_reads = (tt, tt); yields = λ b h. p b }

  -- A read whose answer has the property.
  pub answered-Reads :
      (what : String) (r : Settled A)
      → ((a : A) → r ≡ fulfilled a → P a)
      → Reads P (call (network what) r)
  answered-Reads what r h = record { only_reads = (tt, tt); yields = h }

  module _ {μ ν} {B : Type μ} {Q : B → Type ν} where
    pub >>=-Reads :
        (m : Io A) (f : A → Io B) → Reads P m → ((a : A) → P a → Reads Q (f a)) → Reads Q (m >>= f)
    >>=-Reads m f h k =
        continued-Reads m.effects m.result f h.only_reads (λ a e. k a (h.yields a e))

-- The same reads, whatever they yield.
pub Reads-any {ℓ κ} : {A : Type ℓ} {P : A → Type κ} {m : Io A} → Reads P m → Reads (λ a. Unit {0}) m
Reads-any h = record { only_reads = h.only_reads; yields = λ a e. tt }
