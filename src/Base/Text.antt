-- ===== src/Base/Text.antt =====
-- Texts: equality, lower case, and decimal numbers.
use Prim.Native.Nat.{ℕ, zero, suc, ◌+◌, ◌/◌, ◌%◌, ◌<◌}
use Prim.Native.Char.{Char, code, IsScalar}
use Prim.Native.String.{String}
use mathlib.Core.Path.{◌≡◌, refl}
use mathlib.Core.Logic.{◌↔◌, dite}
use mathlib.Core.Bool.{Bool, true, ◌&&◌}
use native.Mathlib.Omega.{arith}
use native.Mathlib.Decide.{dec_lt}
use text.Mathlib.Text.{◌==◌ as str_eq, find?}
use text.Mathlib.TextEquality.{eq_iff}
use text.Mathlib.TextPositions.{eq_refl}
use avok_js.Base.Tests.{is_some, leb, if◌then◌else◌, ◌==◌}

-- `===` on strings.
infix 50 ◌===◌
abbrev pub ◌===◌ : String → String → Bool
a === b = str_eq a b

pub ===_iff : (a b : String) → ((a === b) ≡ true) ↔ (a ≡ b)
===_iff = eq_iff

pub ===_refl : (a : String) → (a === a) ≡ true
===_refl = eq_refl

IsScalar-lt : (n : ℕ) → n < 128 → IsScalar n
IsScalar-lt n h = ground arith

-- The ASCII character of a number; "?" from 128 on.
unfoldable pub ascii : ℕ → Char
unfolding IsScalar-lt dec_lt
ascii n = dite (dec_lt n 128) (λ h. Char.char n (IsScalar-lt n h)) (λ _. Char.char 63 tt)

-- `toLowerCase`, on the ASCII letters.
unfoldable pub to_lower_case : String → String
unfolding ascii
to_lower_case String.[] = String.[]
to_lower_case (String.◌∷◌ c s) =
    String.◌∷◌ (if leb 65 (code c) && leb (code c) 90 then ascii (code c + 32) else c)
      (to_lower_case s)

-- Decimal digits, with fuel for the number of digits.
unfoldable pub decimal : ℕ → ℕ → String → String
decimal zero n acc = acc
decimal (suc f) n acc =
    let more = decimal f (n / 10) (String.◌∷◌ (ascii (48 + n % 10)) acc) in
    if n / 10 == 0 then String.◌∷◌ (ascii (48 + n % 10)) acc else more

-- `n.toString()`
unfoldable pub to_text : ℕ → String
unfolding decimal ascii
to_text n = decimal (suc n) n String.[]

-- `text.includes(part)`
abbrev pub includes : String → String → Bool
includes text part = is_some (find? text part)

lower_test : to_lower_case "0xAbC" ≡ "0xabc"
unfolding to_lower_case
lower_test = refl

decimal_test : to_text 1205 ≡ "1205"
unfolding to_text
decimal_test = refl

pub code-ascii : (n : ℕ) → n < 128 → code (ascii n) ≡ n
unfolding ascii
code-ascii n h = ground arith
