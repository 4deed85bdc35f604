-- ===== src/Helpers/Amount/Digits.antt =====
-- packages/core/src/helpers/amount.ts: decimal digits as a number, and how many a number has.
use Prim.Native.Char.{code}
use avok_js.Base.{
  ℕ, zero, suc, ◌+◌, ◌-◌, ◌*◌, ◌/◌, ◌%◌, ◌^◌, ◌≤◌, ◌<◌, ◌==◌, ==_iff, ◌≡◌, refl, sym, ap, ◌∙◌,
  String, Bool-cases, inl, inr, ascii, code-ascii, decimal, to_text, arith,
}
use native.Mathlib.Omega.{pow_step}
use avok_js.Helpers.Amount.{text_length, zeros, append}

abbrev pub IsDigits : String → Type 0
IsDigits String.[] = Unit
IsDigits (String.◌∷◌ c s) = (48 ≤ code c) × (code c ≤ 57) × IsDigits s

unfoldable pub value : ℕ → String → ℕ
value a String.[] = a
value a (String.◌∷◌ c s) = value (a * 10 + (code c - 48)) s

decimal-IsDigits : (f n : ℕ) (s : String) → IsDigits s → IsDigits (decimal f n s)
unfolding decimal
decimal-IsDigits zero n s h = h
decimal-IsDigits (suc f) n s h =
    let here : IsDigits (String.◌∷◌ (ascii (48 + n % 10)) s) =
      (omega (arith, code-ascii (48 + n % 10)), omega (arith, code-ascii (48 + n % 10)), h) in
    elim (Bool-cases (n / 10 == 0)) [
      | inl e ↦ rw e here
      | inr e ↦ rw e (decimal-IsDigits f (n / 10) _ here)
    ]

value-decimal : (f n : ℕ) (s : String) → n < f → value 0 (decimal f n s) ≡ value n s
unfolding decimal value
value-decimal zero n s h = elim h [ ]
value-decimal (suc f) n s h = elim (Bool-cases (n / 10 == 0)) [
  | inl e ↦
      rw e (ap (λ k. value k s) (omega (arith, (==_iff (n / 10) 0).0 e, code-ascii (48 + n % 10))))
  | inr e ↦ rw e (
      value-decimal f (n / 10) _ (ground arith)
      ∙ ap (λ k. value k s) (omega (arith, code-ascii (48 + n % 10))))
]

pub to_text-IsDigits : (n : ℕ) → IsDigits (to_text n)
unfolding to_text
to_text-IsDigits n = decimal-IsDigits (suc n) n String.[] tt

pub value-to_text : (n : ℕ) → value 0 (to_text n) ≡ n
unfolding to_text value
value-to_text n = value-decimal (suc n) n String.[] (omega arith)

pub append-nil : (s : String) → append s String.[] ≡ s
append-nil String.[] = refl
append-nil (String.◌∷◌ c s) = ap (String.◌∷◌ c) (append-nil s)

pub no_length : (s : String) → text_length s ≡ 0 → s ≡ String.[]
no_length String.[] h = refl
no_length (String.◌∷◌ c s) h = absurd (omega (arith, h))

pub scale : ℕ → ℕ → ℕ
scale zero a = a
scale (suc k) a = scale k (a * 10)

scale-add : (k a b : ℕ) → scale k (a + b) ≡ scale k a + scale k b
unfolding scale
scale-add zero a b = refl
scale-add (suc k) a b = ap (scale k) (omega arith) ∙ scale-add k (a * 10) (b * 10)

pub value-scale : (a : ℕ) (s : String) → value a s ≡ scale (text_length s) a + value 0 s
unfolding value scale
value-scale a String.[] = omega arith
value-scale a (String.◌∷◌ c s) =
    let first : value 0 (String.◌∷◌ c s) ≡ value (code c - 48) s =
      ap (λ n. value n s) (omega arith) in
    let scaled : scale (text_length (String.◌∷◌ c s)) a ≡ scale (text_length s) (a * 10) = refl in
    value-scale (a * 10 + (code c - 48)) s
    ∙ omega (
      arith,
      first,
      scaled,
      scale-add (text_length s) (a * 10) (code c - 48),
      value-scale (code c - 48) s,
    )

pub value-zeros : (k a : ℕ) (s : String) → value a (append (zeros k) s) ≡ value (scale k a) s
unfolding value scale zeros
value-zeros zero a s = refl
value-zeros (suc k) a s =
    value-zeros k _ s ∙ ap (λ n. value (scale k n) s) (omega (arith, code-ascii 48))

times_ten : (a p : ℕ) → a * 10 * p ≡ a * (10 * p)
times_ten a p = grind arith

pub scale-pow : (k a : ℕ) → scale k a ≡ a * 10 ^ k
unfolding scale
scale-pow zero a = omega arith
scale-pow (suc k) a =
    scale-pow k (a * 10) ∙ times_ten a (10 ^ k) ∙ ap (λ n. a * n) (sym (pow_step 10 k))

pub scale-scale : (j k a : ℕ) → scale j (scale k a) ≡ scale (k + j) a
unfolding scale
scale-scale j zero a = let same : j ≡ zero + j = omega arith in ap (λ n. scale n a) same
scale-scale j (suc k) a =
    let same : suc (k + j) ≡ suc k + j = omega arith in
    scale-scale j k (a * 10) ∙ ap (λ n. scale n a) same

pub text_length-append : (s t : String) → text_length (append s t) ≡ text_length s + text_length t
text_length-append String.[] t = omega arith
text_length-append (String.◌∷◌ c s) t = omega (arith, text_length-append s t)

pub text_length-zeros : (n : ℕ) → text_length (zeros n) ≡ n
unfolding zeros
text_length-zeros zero = refl
text_length-zeros (suc n) = ap suc (text_length-zeros n)

-- A number below a power of ten has at most that many digits.
text_length-decimal :
    (f n k : ℕ) (s : String) → n < 10 ^ suc k → text_length (decimal f n s) ≤ suc k + text_length s
unfolding decimal
text_length-decimal zero n k s h = omega arith
text_length-decimal (suc f) n zero s h =
    rw ((==_iff (n / 10) 0).1 (omega (arith, pow_step 10 0))) (omega arith)
text_length-decimal (suc f) n (suc k) s h = elim (Bool-cases (n / 10 == 0)) [
  | inl e ↦ rw e (omega arith)
  | inr e ↦ rw e (
      omega (
        arith,
        text_length-decimal f (n / 10) k (String.◌∷◌ (ascii (48 + n % 10)) s)
            (omega (arith, pow_step 10 (suc k))),
      ))
]

pub text_length-to_text : (n k : ℕ) → n < 10 ^ suc k → text_length (to_text n) ≤ suc k
unfolding to_text
text_length-to_text n k h = omega (arith, text_length-decimal (suc n) n k String.[] h)

pub rest_and : (n d : ℕ) → n ≤ suc d → suc d - n + n ≡ suc d
rest_and n d h = omega arith

pub pow-IsPositive : (d : ℕ) → 0 < 10 ^ d
pow-IsPositive zero = omega arith
pow-IsPositive (suc d) = omega (arith, pow_step 10 d, pow-IsPositive d)
