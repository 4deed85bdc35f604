-- ===== src/Helpers/Amount.antt =====
-- packages/core/src/helpers/amount.ts: an amount of base units as a text.
pub mod Digits
pub mod ReadBack
use Prim.Native.Char.{code}
use Prim.Native.String
use avok_js.Base.{
  ℕ, zero, suc, ◌+◌, ◌-◌, ◌/◌, ◌%◌, ◌^◌, ◌==◌, ltb, String, ◌===◌, if◌then◌else◌, Bool, not, ◌&&◌,
  ascii, to_text, ◌≡◌, refl,
}

-- `negsuc n` is -(n + 1).
pub data ℤ : Type 0 where
  pos : ℕ → ℤ
  negsuc : ℕ → ℤ

abbrev pub text_length : String → ℕ
text_length String.[] = 0
text_length (String.◌∷◌ c s) = suc (text_length s)

-- A comma stands before a digit where the digits from it on are a multiple of three, but not before the first.
unfoldable pub with_thousands : String → String
unfolding ascii
with_thousands String.[] = String.[]
with_thousands (String.◌∷◌ c s) =
    let rest = with_thousands s in
    String.◌∷◌ c (
      if not (text_length s == 0) && (text_length s % 3 == 0)
      then String.◌∷◌ (ascii 44) rest
      else rest)

-- `"0".repeat(n)`
unfoldable pub zeros : ℕ → String
unfolding ascii
zeros zero = String.[]
zeros (suc n) = String.◌∷◌ (ascii 48) (zeros n)

abbrev pub append : String → String → String
append String.[] t = t
append (String.◌∷◌ c s) t = String.◌∷◌ c (append s t)

abbrev pub pad_start : String → ℕ → String
pad_start s n = append (zeros (n - text_length s)) s

abbrev pub pad_end : String → ℕ → String
pad_end s n = append s (zeros (n - text_length s))

-- A zero that nothing follows is left out.
abbrev pub unless_last_zero : Bool → String → String → String
unless_last_zero is_zero rest kept = if is_zero && (text_length rest == 0) then String.[] else kept

-- `frac.replace(/0+$/, "")`
unfoldable pub strip_zeros : String → String
strip_zeros String.[] = String.[]
strip_zeros (String.◌∷◌ c s) =
    let rest = strip_zeros s in unless_last_zero (code c == 48) rest (String.◌∷◌ c rest)

abbrev pub fraction_digits : (frac_part decimals : ℕ) → String
fraction_digits frac_part zero = String.[]
fraction_digits frac_part (suc d) = pad_start (to_text frac_part) (suc d)

abbrev pub shown_fraction : (int_part : ℕ) → String → String
shown_fraction int_part frac =
    if not (int_part == 0) && ltb (text_length frac) 2 then pad_end frac 2 else frac

abbrev pub with_fraction : String → String → String
with_fraction int_str String.[] = int_str
with_fraction int_str (String.◌∷◌ c s) = append int_str (String.◌∷◌ (ascii 46) (String.◌∷◌ c s))

-- The body of the text, of the absolute value.
unfoldable pub format_abs : (abs decimals : ℕ) → String
unfolding with_thousands strip_zeros zeros to_text
format_abs abs decimals = with_fraction (with_thousands (to_text (abs / 10 ^ decimals))) (
    shown_fraction (abs / 10 ^ decimals)
      (strip_zeros (fraction_digits (abs % 10 ^ decimals) decimals)))

unfoldable pub format_amount : ℤ → (decimals : ℕ) → String
unfolding format_abs ascii
format_amount (pos n) decimals = format_abs n decimals
format_amount (negsuc n) decimals = String.◌∷◌ (ascii 45) (format_abs (suc n) decimals)

format_test : format_amount (pos 1234567000000) 6 ≡ "1,234,567.00"
unfolding format_amount
format_test = refl

format_small_test : format_amount (pos 42000) 6 ≡ "0.042"
unfolding format_amount
format_small_test = refl

format_negative_test : format_amount (negsuc 1499999) 6 ≡ "-1.50"
unfolding format_amount
format_negative_test = refl
