-- ===== src/Channel/Redirect/Alphabet.antt =====
-- packages/core/src/channel/redirect-protocol.ts: the replacements between the two alphabets of base64.
use Prim.Native.String
use Prim.Native.Char.{Char, code}
use text.Mathlib.TextEquality.{Char-path}
use text.Mathlib.TextLemmas.{nil-append, cons-append}
use avok_js.Base.{
  ℕ, leb, ◌==◌, String, if◌then◌else◌, Bool, true, false, ◌&&◌, ◌||◌, ◌≡◌, refl, sym, ap, ◌∙◌,
  subst, &&-both, arith, ascii, code-ascii, Bool-cases, inl, inr, ◌<◌,
}
use avok_js.Channel.Redirect.{padded, strip_padding, to_url_alphabet, from_url_alphabet}

abbrev pub all_chars : (ℕ → Bool) → String → Bool
all_chars p String.[] = true
all_chars p (String.◌∷◌ c s) = p (code c) && all_chars p s

abbrev pub is_alphanumeric : ℕ → Bool
is_alphanumeric n = (leb 48 n && leb n 57) || (leb 65 n && leb n 90) || (leb 97 n && leb n 122)

-- `A-Za-z0-9+/`
abbrev pub is_base64 : ℕ → Bool
is_base64 n = is_alphanumeric n || (n == 43) || (n == 47)

-- `A-Za-z0-9-_`
abbrev pub is_base64url : ℕ → Bool
is_base64url n = is_alphanumeric n || (n == 45) || (n == 95)

abbrev pub is_padding : ℕ → Bool
is_padding n = n == 61

abbrev pub replaced : ℕ → ℕ → Char → Char
replaced x y c = if code c == x then ascii y else c

abbrev pub replaced_code : ℕ → ℕ → ℕ → ℕ
replaced_code x y n = if n == x then y else n

code-replaced : (x y : ℕ) (c : Char) → y < 128 → code (replaced x y c) ≡ replaced_code x y (code c)
code-replaced x y c h = elim (Bool-cases (code c == x)) [
  | inl e ↦ rw e (code-ascii y h)
  | inr e ↦ rw e refl
]

there_and_back :
    (n : ℕ)
    → is_base64 n ≡ true
    → replaced_code 95 47 (replaced_code 45 43 (replaced_code 47 95 (replaced_code 43 45 n))) ≡ n
there_and_back n h = ground arith

into_alphabet :
    (n : ℕ) → is_base64 n ≡ true → is_base64url (replaced_code 47 95 (replaced_code 43 45 n)) ≡ true
into_alphabet n h = ground arith

plain_kept :
    (n : ℕ) → is_padding n ≡ true → is_padding (replaced_code 47 95 (replaced_code 43 45 n)) ≡ true
plain_kept n h = ground arith

unpadded : (n : ℕ) → is_base64url n ≡ true → (n == 61) ≡ false
unpadded n h = ground arith

-- What the replacements make of one character.
abbrev outward : Char → Char
outward c = replaced 47 95 (replaced 43 45 c)

abbrev homeward : Char → Char
homeward c = replaced 95 47 (replaced 45 43 c)

code-outward : (c : Char) → code (outward c) ≡ replaced_code 47 95 (replaced_code 43 45 (code c))
code-outward c =
    code-replaced 47 95 (replaced 43 45 c) (omega arith)
    ∙ ap (replaced_code 47 95) (code-replaced 43 45 c (omega arith))

code-homeward : (c : Char) → code (homeward c) ≡ replaced_code 95 47 (replaced_code 45 43 (code c))
code-homeward c =
    code-replaced 95 47 (replaced 45 43 c) (omega arith)
    ∙ ap (replaced_code 95 47) (code-replaced 45 43 c (omega arith))

homeward-outward : (c : Char) → is_base64 (code c) ≡ true → homeward (outward c) ≡ c
homeward-outward c h = Char-path _ _ (
    code-homeward (outward c)
    ∙ ap (λ n. replaced_code 95 47 (replaced_code 45 43 n)) (code-outward c)
    ∙ there_and_back (code c) h)

pub from_url_alphabet-to_url_alphabet :
    (s : String) → all_chars is_base64 s ≡ true → from_url_alphabet (to_url_alphabet s) ≡ s
unfolding to_url_alphabet from_url_alphabet
from_url_alphabet-to_url_alphabet String.[] h = refl
from_url_alphabet-to_url_alphabet (String.◌∷◌ c s) h =
    let (here, rest) = &&-both (is_base64 (code c)) _ h in
    ap (λ d. String.◌∷◌ d (from_url_alphabet (to_url_alphabet s))) (homeward-outward c here)
    ∙ ap (String.◌∷◌ c) (from_url_alphabet-to_url_alphabet s rest)

outward_in_alphabet :
    (c : Char) → is_base64 (code c) ≡ true → is_base64url (code (outward c)) ≡ true
outward_in_alphabet c h =
    subst (λ n. is_base64url n ≡ true) (sym (code-outward c)) (into_alphabet (code c) h)

pub to_url_alphabet_safe :
    (s : String) → all_chars is_base64 s ≡ true → all_chars is_base64url (to_url_alphabet s) ≡ true
unfolding to_url_alphabet
to_url_alphabet_safe String.[] h = refl
to_url_alphabet_safe (String.◌∷◌ c s) h =
    let (here, rest) = &&-both (is_base64 (code c)) _ h in
    rw (outward_in_alphabet c here) (to_url_alphabet_safe s rest)

padded_safe : (c : Char) (s : String) → is_base64url (code c) ≡ true → padded c s ≡ String.◌∷◌ c s
padded_safe c String.[] h = rw (unpadded (code c) h) refl
padded_safe c (String.◌∷◌ d s) h = refl

only_padding :
    (s : String) → all_chars is_padding s ≡ true → strip_padding (to_url_alphabet s) ≡ String.[]
unfolding to_url_alphabet
only_padding String.[] h = refl
only_padding (String.◌∷◌ c s) h =
    let (here, rest) = &&-both (is_padding (code c)) _ h in
    ap (padded (outward c)) (only_padding s rest)
    ∙ rw (subst (λ n. is_padding n ≡ true) (sym (code-outward c)) (plain_kept (code c) here)) refl

-- Of a text in the alphabet and its padding, the replacements leave the text in the other alphabet.
pub strip_padding-to_url_alphabet :
    (body pad : String)
    → all_chars is_base64 body ≡ true
    → all_chars is_padding pad ≡ true
    → strip_padding (to_url_alphabet (String.◌++◌ body pad)) ≡ to_url_alphabet body
unfolding to_url_alphabet
strip_padding-to_url_alphabet String.[] pad h k =
    ap (λ t. strip_padding (to_url_alphabet t)) (nil-append pad) ∙ only_padding pad k
strip_padding-to_url_alphabet (String.◌∷◌ c body) pad h k =
    let (here, rest) = &&-both (is_base64 (code c)) _ h in
    ap (λ t. strip_padding (to_url_alphabet t)) (cons-append c body pad)
    ∙ ap (padded (outward c)) (strip_padding-to_url_alphabet body pad rest k)
    ∙ padded_safe (outward c) (to_url_alphabet body) (outward_in_alphabet c here)
