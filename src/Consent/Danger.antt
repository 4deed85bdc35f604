-- ===== src/Consent/Danger.antt =====
-- packages/core/src/auth-popup/sign/danger.ts: what counts as dangerous.
pub mod Amounts
use Prim.Native.Char.{code}
use avok_js.Base.{
  ℕ, ◌+◌, ◌-◌, ◌*◌, ◌^◌, ltb, leb, ◌==◌, String, ◌===◌, if◌then◌else◌, Bool, true, false, ◌&&◌,
  ◌||◌, Option, none, some,
}

abbrev is_digit : ℕ → Bool
is_digit c = leb 48 c && leb c 57

abbrev is_space : ℕ → Bool
is_space c = c == 32 || (leb 9 c && leb c 13)

all_space : String → Bool
all_space String.[] = true
all_space (String.◌∷◌ c s) = is_space (code c) && all_space s

-- The value of a digit in a base, `none` for what is none.
digit : ℕ → ℕ → Option ℕ
digit base c =
    let v =
      if is_digit c
      then c - 48
      else if leb 97 c && leb c 102
      then c - 87
      else if leb 65 c && leb c 70
      then c - 55
      else 99 in
    if ltb v base then some v else none

-- The digits up to the end, or to the blanks at the end.
digits : ℕ → ℕ → String → Option ℕ
unfolding digit all_space
digits base n String.[] = some n
digits base n (String.◌∷◌ c s) = elim (digit base (code c)) [
  | none ↦ if is_space (code c) && all_space s then some n else none
  | some d ↦ digits base (n * base + d) s
]

-- At least one digit.
digits_from : ℕ → String → Option ℕ
unfolding digits
digits_from base String.[] = none
digits_from base (String.◌∷◌ c s) = elim (digit base (code c)) [
  | none ↦ none
  | some d ↦ digits base d s
]

-- After a "0": the letter of another base, or further decimal digits.
after_zero : String → Option ℕ
unfolding digits_from
after_zero String.[] = some 0
after_zero (String.◌∷◌ c s) =
    let lower = if leb 65 (code c) && leb (code c) 90 then code c + 32 else code c in
    if lower == b'x'
    then digits_from 16 s
    else if lower == b'o'
    then digits_from 8 s
    else if lower == b'b'
    then digits_from 2 s
    else digits 10 0 (String.◌∷◌ c s)

-- `BigInt(text)`: none where it throws. Of a negative number, 0: it lies below every threshold.
unfoldable pub big_int : String → Option ℕ
unfolding after_zero
big_int String.[] = some 0
big_int (String.◌∷◌ c s) =
    let trimmed = big_int s in
    if is_space (code c)
    then trimmed
    else if code c == b'0'
    then after_zero s
    else if code c == b'+'
    then digits_from 10 s
    else if code c == b'-'
    then (elim (digits_from 10 s) [ none ↦ none | some n ↦ some 0 ])
    else digits_from 10 (String.◌∷◌ c s)

abbrev pub unlimited_threshold : ℕ
unlimited_threshold = 2 ^ 255

abbrev pub unlimited_uint160_threshold : ℕ
unlimited_uint160_threshold = 2 ^ 159

unfoldable pub is_unlimited_amount : String → Bool
unfolding big_int
is_unlimited_amount base_units = elim (big_int base_units) [
  | none ↦ false
  | some n ↦ leb unlimited_uint160_threshold n
]

-- The reason why a primary type is dangerous, if it is one.
unfoldable pub dangerous_primary_type : String → Option String
dangerous_primary_type t =
    if t === "Permit"
    then some "This signature lets someone spend your tokens without a transaction."
    else if t === "PermitSingle"
    then some "This Permit2 signature lets someone spend your tokens without a transaction."
    else if t === "PermitBatch"
    then some
        "This Permit2 signature lets someone spend several of your tokens without a transaction."
    else if t === "PermitTransferFrom"
    then some "This Permit2 signature lets someone move your tokens without a transaction."
    else if t === "PermitBatchTransferFrom"
    then some
        "This Permit2 signature lets someone move several of your tokens without a transaction."
    else none
