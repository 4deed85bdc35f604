-- ===== src/Helpers/Amount/ReadBack.antt =====
-- packages/core/src/helpers/amount.ts: a reader of the texts of amounts.
use Prim.Native.Char.{Char, code}
use avok_js.Base.{
  ℕ, zero, suc, ◌+◌, ◌-◌, ◌*◌, ◌/◌, ◌%◌, ◌^◌, ◌≤◌, ◌<◌, ◌==◌, ==_iff, ◌≡◌, refl, sym, ap, ◌∙◌,
  String, if◌then◌else◌, Bool, true, false, not, ◌&&◌, ascii, code-ascii, to_text, arith, ltb,
}
use native.Mathlib.Omega.{div_any}
use native.Mathlib.Nat.{mod-lt, mul_comm}
use avok_js.Helpers.Amount.Digits.{
  IsDigits, value, to_text-IsDigits, value-to_text, append-nil, no_length, scale, value-scale,
  value-zeros, scale-pow, scale-scale, text_length-append, text_length-zeros, text_length-to_text,
  rest_and, pow-IsPositive,
}
use avok_js.Helpers.Amount.{
  pos, negsuc, text_length, with_thousands, zeros, append, pad_end, strip_zeros, fraction_digits,
  shown_fraction, with_fraction, format_abs, format_amount,
}

-- The decimals left, and what has been read. A digit that the decimals leave no place for is not read.
pub read_fraction : (places acc : ℕ) → String → ℕ
read_fraction zero acc s = acc
read_fraction (suc d) acc String.[] = read_fraction d (acc * 10) String.[]
read_fraction (suc d) acc (String.◌∷◌ c s) = read_fraction d (acc * 10 + (code c - 48)) s

-- A reader of amounts, which passes over commas: the base units that a text stands for.
pub read_from : (decimals acc : ℕ) → String → ℕ
unfolding read_fraction
read_from d acc String.[] = read_fraction d acc String.[]
read_from d acc (String.◌∷◌ c s) =
    let next = read_from d acc s in
    let digit = read_from d (acc * 10 + (code c - 48)) s in
    if code c == 44 then next else if code c == 46 then read_fraction d acc s else digit

abbrev pub read_amount : (decimals : ℕ) → String → ℕ
read_amount decimals s = read_from decimals 0 s

read_from-digit :
    (d a : ℕ) (c : Char) (s : String)
    → 48 ≤ code c
    → code c ≤ 57
    → read_from d a (String.◌∷◌ c s) ≡ read_from d (a * 10 + (code c - 48)) s
unfolding read_from
read_from-digit d a c s h k = ground arith

read_from-comma : (d a : ℕ) (s : String) → read_from d a (String.◌∷◌ (ascii 44) s) ≡ read_from d a s
unfolding read_from
read_from-comma d a s = ground (arith, code-ascii 44)

read_from-point :
    (d a : ℕ) (s : String) → read_from d a (String.◌∷◌ (ascii 46) s) ≡ read_fraction d a s
unfolding read_from
read_from-point d a s = ground (arith, code-ascii 46)

-- The commas are passed over.
read_from-thousands :
    (d a : ℕ) (s t : String)
    → IsDigits s
    → read_from d a (append (with_thousands s) t) ≡ read_from d (value a s) t
unfolding with_thousands value
read_from-thousands d a String.[] t h = refl
read_from-thousands d a (String.◌∷◌ c s) t (h, k, l) =
    after (not (text_length s == 0) && (text_length s % 3 == 0))
      (read_from-thousands d (a * 10 + (code c - 48)) s t l)
  where
    after :
        (b : Bool)
        → read_from d (a * 10 + (code c - 48)) (append (with_thousands s) t)
          ≡ read_from d (value (a * 10 + (code c - 48)) s) t
        → read_from d a (
            append
              (String.◌∷◌ c
                (if b then String.◌∷◌ (ascii 44) (with_thousands s) else with_thousands s))
              t)
          ≡ read_from d (value (a * 10 + (code c - 48)) s) t
    after true rest = read_from-digit d a c _ h k ∙ read_from-comma d _ _ ∙ rest
    after false rest = read_from-digit d a c _ h k ∙ rest

-- Zeros at the end change nothing.
read_fraction-zeros : (d a n : ℕ) → read_fraction d a (zeros n) ≡ read_fraction d a String.[]
unfolding read_fraction zeros
read_fraction-zeros zero a n = refl
read_fraction-zeros (suc d) a zero = refl
read_fraction-zeros (suc d) a (suc n) =
    read_fraction-zeros d _ n ∙ ap (λ k. read_fraction d k String.[]) (omega (arith, code-ascii 48))

read_fraction-pad_end :
    (d a n : ℕ) (s : String) → read_fraction d a (append s (zeros n)) ≡ read_fraction d a s
unfolding read_fraction
read_fraction-pad_end d a n String.[] = read_fraction-zeros d a n
read_fraction-pad_end zero a n (String.◌∷◌ c s) = refl
read_fraction-pad_end (suc d) a n (String.◌∷◌ c s) = read_fraction-pad_end d _ n s

read_fraction-strip :
    (d a : ℕ) (s : String) → read_fraction d a (strip_zeros s) ≡ read_fraction d a s
unfolding strip_zeros read_fraction
read_fraction-strip d a String.[] = refl
read_fraction-strip zero a (String.◌∷◌ c s) = refl
read_fraction-strip (suc d) a (String.◌∷◌ c s) =
    stripped (code c == 48) refl (text_length (strip_zeros s) == 0) refl
      (read_fraction-strip d (a * 10 + (code c - 48)) s)
  where
    stripped :
        (b : Bool)
        → (code c == 48) ≡ b
        → (e : Bool) → (text_length (strip_zeros s) == 0) ≡ e
        → read_fraction d (a * 10 + (code c - 48)) (strip_zeros s)
          ≡ read_fraction d (a * 10 + (code c - 48)) s
        → read_fraction (suc d) a (if b && e then String.[] else String.◌∷◌ c (strip_zeros s))
          ≡ read_fraction d (a * 10 + (code c - 48)) s
    stripped false f e g rest = rest
    stripped true f false g rest = rest
    stripped true f true g rest =
        ap (λ k. read_fraction d k String.[]) (omega (arith, (==_iff (code c) 48).0 f))
        ∙ ap (λ t. read_fraction d (a * 10 + (code c - 48)) t)
            (sym (no_length (strip_zeros s) ((==_iff _ 0).0 g)))
        ∙ rest

-- As many places as digits.
read_fraction-value : (a : ℕ) (s : String) → read_fraction (text_length s) a s ≡ value a s
unfolding read_fraction value
read_fraction-value a String.[] = refl
read_fraction-value a (String.◌∷◌ c s) = read_fraction-value (a * 10 + (code c - 48)) s

-- All places of a fraction are written, and read.
read_fraction-digits :
    (a f d : ℕ) → f < 10 ^ d → read_fraction d a (fraction_digits f d) ≡ a * 10 ^ d + f
unfolding read_fraction
read_fraction-digits a f zero h = omega arith
read_fraction-digits a f (suc d) h =
    let n = text_length (to_text f) in
    let fits : n ≤ suc d = text_length-to_text f d h in
    let s = fraction_digits f (suc d) in
    let long : text_length s ≡ suc d =
      omega (
        arith,
        text_length-append (zeros (suc d - n)) (to_text f),
        text_length-zeros (suc d - n),
      ) in
    ap (λ k. read_fraction k a s) (sym long)
    ∙ read_fraction-value a s
    ∙ value-zeros (suc d - n) a (to_text f)
    ∙ value-scale (scale (suc d - n) a) (to_text f)
    ∙ omega (
      arith,
      value-to_text f,
      scale-scale n (suc d - n) a,
      ap (λ k. scale k a) (rest_and n d fits),
      scale-pow (suc d) a,
    )

-- Where the integer part is shown, two places of the fraction are.
read_fraction-shown :
    (d a i : ℕ) (s : String) → read_fraction d a (shown_fraction i s) ≡ read_fraction d a s
read_fraction-shown d a i s = padded (not (i == 0) && ltb (text_length s) 2)
  where
    padded : (b : Bool) → read_fraction d a (if b then pad_end s 2 else s) ≡ read_fraction d a s
    padded true = read_fraction-pad_end d a (2 - text_length s) s
    padded false = refl

read_from-fraction :
    (d a : ℕ) (i t : String)
    → IsDigits i
    → read_from d a (with_fraction (with_thousands i) t) ≡ read_fraction d (value a i) t
unfolding read_from
read_from-fraction d a i String.[] h =
    ap (read_from d a) (sym (append-nil (with_thousands i))) ∙ read_from-thousands d a i String.[] h
read_from-fraction d a i (String.◌∷◌ c t) h =
    read_from-thousands d a i _ h ∙ read_from-point d (value a i) (String.◌∷◌ c t)

format_abs-read_back : (n d : ℕ) → read_amount d (format_abs n d) ≡ n
unfolding format_abs
format_abs-read_back n d =
    let i = n / 10 ^ d in
    let f = n % 10 ^ d in
    let digits = fraction_digits f d in
    let whole : i * 10 ^ d + f ≡ n = omega (arith, div_any n (10 ^ d), mul_comm i (10 ^ d)) in
    read_from-fraction d 0 (to_text i) (shown_fraction i (strip_zeros digits)) (to_text-IsDigits i)
    ∙ ap (λ k. read_fraction d k (shown_fraction i (strip_zeros digits))) (value-to_text i)
    ∙ read_fraction-shown d i i (strip_zeros digits)
    ∙ read_fraction-strip d i digits
    ∙ read_fraction-digits i f d (mod-lt n (pow-IsPositive d))
    ∙ whole

-- The text of a number of base units, at any number of decimals, stands for just that number: the grouping, the
-- trimming and the padding change nothing. A negative amount is the text of its absolute value after a sign.
pub format_amount-read_back :
    (n d : ℕ)
    → (read_amount d (format_amount (pos n) d) ≡ n)
      × (format_amount (negsuc n) d ≡ String.◌∷◌ (ascii 45) (format_amount (pos (suc n)) d))
unfolding format_amount format_abs
format_amount-read_back n d = (format_abs-read_back n d, refl)
