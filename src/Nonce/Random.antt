-- ===== src/Nonce/Random.antt =====
-- packages/core/src/nonce.ts: the random nonce.
use avok_js.Base.{ℕ, ◌+◌, ◌*◌, ◌<◌, ◌≡◌, refl, ap, ◌∙◌, arith, List, [], ◌∷◌, All, length}
use avok_js.Nonce.{from_bytes}

abbrev pub IsByte : ℕ → Type 0
IsByte b = b < 256

bytes-injective :
    (m n : ℕ) (bs cs : List ℕ)
    → All IsByte bs
    → All IsByte cs
    → length bs ≡ length cs
    → from_bytes m bs ≡ from_bytes n cs
    → (m ≡ n) × (bs ≡ cs)
unfolding from_bytes
bytes-injective m n [] [] h k l e = (e, refl)
bytes-injective m n [] (c ∷ cs) h k l e = let no : ⊥ = omega (arith, l) in elim no [ ]
bytes-injective m n (b ∷ bs) [] h k l e = let no : ⊥ = omega (arith, l) in elim no [ ]
bytes-injective m n (b ∷ bs) (c ∷ cs) (h, hs) (k, ks) l e =
    let (f, g) = bytes-injective (m * 256 + b) (n * 256 + c) bs cs hs ks (omega (arith, l)) e in
    let same : m ≡ n = omega arith in
    let byte : b ≡ c = omega arith in (same, ap (λ x. x ∷ bs) byte ∙ ap (λ xs. c ∷ xs) g)

-- Two draws of the same number of bytes give the same random nonce only if they are the same bytes.
pub from_bytes-injective :
    (bs cs : List ℕ)
    → All IsByte bs
    → All IsByte cs
    → length bs ≡ length cs
    → from_bytes 0 bs ≡ from_bytes 0 cs
    → bs ≡ cs
from_bytes-injective bs cs h k l e = (bytes-injective 0 0 bs cs h k l e).1
