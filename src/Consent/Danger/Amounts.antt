-- ===== src/Consent/Danger/Amounts.antt =====
-- packages/core/src/auth-popup/sign/danger.ts: the test for unlimited amounts, on the texts that the decoder prints.
use avok_js.Base.{
  ℕ, zero, suc, ◌+◌, ◌*◌, ◌/◌, ◌%◌, ◌<◌, leb, ◌==◌, String, ◌≡◌, refl, ap, ◌∙◌, arith, Bool-cases,
  inl, inr, some, decimal, ascii, to_text, code-ascii,
}
use avok_js.Consent.Danger.{
  digit, digits, digits_from, big_int, is_unlimited_amount, unlimited_uint160_threshold,
}

digit-ascii : (d : ℕ) → d < 10 → digit 10 (48 + d) ≡ some d
unfolding digit
digit-ascii d h = ground arith

digits-cons :
    (m d : ℕ) (s : String)
    → d < 10
    → digits 10 m (String.◌∷◌ (ascii (48 + d)) s) ≡ digits 10 (m * 10 + d) s
unfolding digits
digits-cons m d s h = ground (arith, code-ascii (48 + d), digit-ascii d)

big_int-digit :
    (n : ℕ) (s : String) → 0 < n → n < 10 → big_int (String.◌∷◌ (ascii (48 + n)) s) ≡ digits 10 n s
unfolding big_int digits_from
big_int-digit n s h k = ground (arith, code-ascii (48 + n), digit-ascii n)

big_int-decimal : (f n : ℕ) (s : String) → 0 < n → n < f → big_int (decimal f n s) ≡ digits 10 n s
unfolding decimal
big_int-decimal zero n s h k = elim k [ ]
big_int-decimal (suc f) n s h k = elim (Bool-cases (n / 10 == 0)) [
  | inl small ↦
      let e : n % 10 ≡ n = ground arith in rw small (rw e (big_int-digit n s h (ground arith)))
  | inr more ↦ rw more (
      big_int-decimal f (n / 10) _ (ground arith) (omega arith)
      ∙ digits-cons (n / 10) (n % 10) s (omega arith)
      ∙ ap (λ k. digits 10 k s) (omega arith))
]

pub big_int-to_text : (n : ℕ) → big_int (to_text n) ≡ some n
unfolding to_text digits
big_int-to_text zero = unfold big_int in refl
big_int-to_text (suc n) =
    big_int-decimal (suc (suc n)) (suc n) String.[] (omega arith) (omega arith)

-- The test for unlimited amounts, on the text of any amount, compares the amount with 2 ^ 159.
pub is_unlimited_amount-to_text :
    (n : ℕ) → is_unlimited_amount (to_text n) ≡ leb unlimited_uint160_threshold n
unfolding is_unlimited_amount
is_unlimited_amount-to_text n = ground (arith, big_int-to_text n)
