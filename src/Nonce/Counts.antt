-- ===== src/Nonce/Counts.antt =====
-- packages/core/src/nonce.ts: the count that is stored and the one in memory.
use avok_js.Base.{
  ℕ, ◌+◌, ◌≤◌, ◌≡◌, refl, sym, ap, ◌∙◌, subst, arith, String, ◌===◌, ===_iff, ===_refl, to_text,
  Bool, true, false, Bool-cases, ◌⊎◌, inl, inr, Option, none, some, Settled, fulfilled, rejected,
  fulfilled-injective,
}
use avok_js.Consent.Danger.Amounts.{big_int-to_text}
use avok_js.Nonce.{Allocator, put, stored_count, current_count, counted, persisted}

-- The count that a reload goes on from; 0 where it cannot.
abbrev pub count_or_zero : Settled ℕ → ℕ
count_or_zero (fulfilled n) = n
count_or_zero (rejected f) = 0

abbrev pub floor : Allocator → String → ℕ
floor s k = count_or_zero (stored_count (s.stored k))

pub put-same {ℓ} : {V : Type ℓ} (f : String → Option V) (k : String) (v : V) → put f k v k ≡ some v
put-same f k v = rw (put, ===_refl k) refl

pub stored_count-to_text : (n : ℕ) → stored_count (some (to_text n)) ≡ fulfilled n
stored_count-to_text n = rw (stored_count, big_int-to_text n) refl

pub put-other {ℓ} :
    {V : Type ℓ} (f : String → Option V) (j k : String) (v : V)
    → (j === k) ≡ false
    → put f k v j ≡ f j
put-other f j k v e = rw (put, e) refl

pub floor-same : (s : Allocator) (key : String) (c : ℕ) → floor (persisted key c s) key ≡ c + 1
floor-same s key c =
    ap count_or_zero
      (ap stored_count (put-same s.stored key (to_text (c + 1))) ∙ stored_count-to_text (c + 1))

pub floor-other :
    (s : Allocator) (key k : String) (c : ℕ)
    → (k === key) ≡ false
    → floor (persisted key c s) k ≡ floor s k
floor-other s key k c e =
    ap (λ o. count_or_zero (stored_count o)) (put-other s.stored k key (to_text (c + 1)) e)

-- Writing the count after c moves no floor back.
pub floor-persisted :
    (s : Allocator) (key k : String) (c : ℕ)
    → floor s key ≤ c
    → floor s k ≤ floor (persisted key c s) k
floor-persisted s key k c h = elim (Bool-cases (k === key)) [
  | inl e ↦
      let same = (===_iff k key).0 e in
      subst (λ j. floor s j ≤ floor (persisted key c s) j) (sym same)
        (let f = floor-same s key c in omega arith)
  | inr e ↦ let f = floor-other s key k c e in omega arith
]

-- What the counters hold after c is handed out: c + 1 under the key, the rest as before.
pub counter-cases :
    (s : Allocator) (key k : String) (c d : ℕ)
    → (counted key c s).counters k ≡ some d
    → ((k ≡ key) × (d ≡ c + 1)) ⊎ (((k === key) ≡ false) × (s.counters k ≡ some d))
counter-cases s key k c d h = elim (Bool-cases (k === key)) [
  | inl e ↦
      let same = (===_iff k key).0 e in
      let f : some (c + 1) ≡ some d =
        sym (put-same s.counters key (c + 1)) ∙ ap (put s.counters key (c + 1)) (sym same) ∙ h in
      inl (same, cc)
  | inr e ↦ inr (e, sym (put-other s.counters k key (c + 1) e) ∙ h)
]

pub current-floor :
    (readable : Bool) (o : Option ℕ) (t : Option String) (c : ℕ)
    → ((d : ℕ) → o ≡ some d → count_or_zero (stored_count t) ≤ d)
    → current_count readable o t ≡ fulfilled c
    → count_or_zero (stored_count t) ≤ c
current-floor readable (some d) t c h e =
    subst (λ n. count_or_zero (stored_count t) ≤ n) (fulfilled-injective e) (h d refl)
current-floor true none t c h e = let f = ap count_or_zero e in omega arith
current-floor false none t c h e = cc
